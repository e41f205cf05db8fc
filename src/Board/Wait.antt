-- ===== src/Board/Wait.antt =====
-- GPIBBoard.cpp: `waitForStatus`. Its polling loop takes fuel; `none` says that the fuel ran out.
pub mod Laws
use darwin_gpib.Prelude.{
  ℕ, zero, suc, ◌+◌, ◌-◌, ◌*◌, ◌%◌, ◌^◌, Bool, true, false, Option, none, some, bit_and, bit_or,
  ◌==◌, ◌&&◌, not, if◌then◌else◌, ltb,
}
use darwin_gpib.Prelude.Int.{ℤ, to_u32}
use darwin_gpib.Gpib.Iberr
use darwin_gpib.Gpib.Line
use darwin_gpib.Gpib.Sta
use darwin_gpib.Transport.{Transport, Answer}
use darwin_gpib.Board.{Board, Descriptor}
use darwin_gpib.Board.Table.{descriptor_for}
use darwin_gpib.Board.Monad.{M, State, Reply, ◌>>=◌, ◌>>◌, pure, call, call_, get_board, reply}
use darwin_gpib.Board.Platform.{Platform}
use darwin_gpib.Board.Timeout.{no_timeout}

-- `~mask` on 32 bits.
abbrev complement : ℕ → ℕ
complement mask = 0xffff_ffff - mask

-- SRQ is asserted and its line is valid.
unfoldable pub srq_asserted : Answer → Bool
srq_asserted a =
    (a.rc == 0)
    && (not (bit_and a.value Line.valid_srq == 0) && not (bit_and a.value Line.bus_srq == 0))

-- `(ibsta_ & ~TIMO) | SRQI | CMPL` and `(ibsta_ & ~SRQI) | TIMO | CMPL`.
unfoldable pub srq_status : ℕ → ℕ
srq_status sta = bit_or (bit_or (bit_and sta (complement Sta.timo)) Sta.srqi) Sta.cmpl

unfoldable pub expired_status : ℕ → ℕ
expired_status sta = bit_or (bit_or (bit_and sta (complement Sta.srqi)) Sta.timo) Sta.cmpl

-- The time limit in force: 0 stands for the descriptor's own.
unfoldable pub effective_timeout : ℕ → Descriptor → ℕ
effective_timeout timeout_us d = if timeout_us == 0 then d.timeout_us else timeout_us

-- 0 is "wait indefinitely".
unfoldable pub deadline_from : ℕ → ℕ → ℕ
deadline_from now effective =
    if effective == no_timeout then 0 else (now + effective * 1000) % 2 ^ 64

-- `deadline && now > deadline`.
unfoldable pub past : ℕ → ℕ → Bool
past deadline now = not (deadline == 0) && ltb deadline now

module _ {W : Type 0} (t : Transport W) (p : Platform W) where
  -- One look at the bus lines; a board without transport sees nothing.
  unfoldable pub look : M W Bool
  look = do
    b ← get_board
    if b.has_transport then (do a ← call t.read_bus_lines; pure (srq_asserted a)) else pure false

  -- The status that ends the loop at this round, if any.
  unfoldable pub check : ℕ → Bool → M W (Option Reply)
  check deadline srq s =
      if srq
      then (do r ← reply 0 (srq_status s.board.ibsta); pure (some r)) s
      else (if past deadline (p.uptime_ns s.world)
          then (do r ← reply 0 (expired_status s.board.ibsta); pure (some r)) s
          else pure none s)

  unfoldable pub round : ℕ → M W (Option Reply)
  round deadline = do srq ← look; check deadline srq

  unfoldable pub wait_loop : ℕ → ℕ → M W (Option Reply)
  wait_loop zero deadline s = (none, s)
  wait_loop (suc fuel) deadline s =
      let (out, s') = round deadline s in
      let (_, later) = p.sleep_ms 20 s'.world in
      let again = wait_loop fuel deadline (record s' { world = later }) in
      elim out [ some r ↦ (some r, s') | none ↦ again ]

  current : M W (Option Reply)
  current s = (some (record { sta = s.board.ibsta; iberr = 0 }), s)

  wait_srq : ℕ → ℕ → M W (Option Reply)
  wait_srq fuel effective s = wait_loop fuel (deadline_from (p.uptime_ns s.world) effective) s

  refuse : M W (Option Reply)
  refuse = do r ← reply Iberr.earg Sta.err; pure (some r)

  unfoldable pub wait_for_status : ℕ → ℤ → ℤ → ℕ → M W (Option Reply)
  unfolding current wait_srq refuse
  wait_for_status fuel handle mask timeout_us = do
    b ← get_board
    elim (descriptor_for b handle) [
      | none ↦ refuse
      | some d ↦
          if bit_and (to_u32 mask) (bit_or Sta.srqi Sta.rqs) == 0
          then current
          else wait_srq fuel (effective_timeout timeout_us d)
    ]
