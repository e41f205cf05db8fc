-- ===== src/Board/Poll.antt =====
-- GPIBBoard.cpp: `serialPoll`, `serialPollProbe` and `listenerPresent`.
pub mod Laws
pub mod Presence
use darwin_gpib.Prelude.{
  ℕ, Bool, true, false, List, [], ◌∷◌, ◌++◌, Option, none, some, bit_and, bit_or, ◌==◌, ◌&&◌, ◌||◌,
  not, if◌then◌else◌, get_or,
}
use darwin_gpib.Prelude.Int.{ℤ}
use darwin_gpib.Gpib.Cmd
use darwin_gpib.Gpib.Iberr
use darwin_gpib.Gpib.Line
use darwin_gpib.Gpib.Sta
use darwin_gpib.Transport.{Transport, Received, Answer}
use darwin_gpib.Transport.Rc
use darwin_gpib.Board.{Board, Descriptor}
use darwin_gpib.Board.Table.{descriptor_for}
use darwin_gpib.Board.Monad.{M, Reply, ◌>>=◌, ◌>>◌, pure, call, call_, get_board, reply}
use darwin_gpib.Board.Address.{mla_byte, mta_byte, then_secondary}
use darwin_gpib.Board.Platform.{Platform}

-- What `serialPoll` hands back; it leaves `*outStatusByte` alone when it fails.
pub record Polled : Type 0 where
  pub reply : Reply
  pub status_byte : Option ℕ

-- What `listenerPresent` hands back.
pub record Found : Type 0 where
  pub reply : Reply
  pub present : Bool

-- `kProbeTimeoutUs`.
abbrev pub probe_timeout_us : ℕ
probe_timeout_us = 100000

-- UNL, the device talks, the board listens, serial poll enable.
unfoldable pub poll_addressing : Board → ℕ → ℤ → List ℕ
poll_addressing b pad sad =
    Cmd.unl ∷ mta_byte pad ∷ then_secondary sad (mla_byte b.board_pad ∷ Cmd.spe ∷ [])

-- Serial poll disable, untalk.
abbrev pub teardown : List ℕ
teardown = Cmd.spd ∷ Cmd.unt ∷ []

-- UNL, UNT, the candidate listens.
unfoldable pub probe_addressing : ℕ → ℤ → List ℕ
probe_addressing pad sad = Cmd.unl ∷ Cmd.unt ∷ mla_byte pad ∷ then_secondary sad []

-- What the bus lines say: `none` when they cannot decide.
unfoldable pub lines_verdict : Answer → Option Bool
lines_verdict a =
    if a.rc == 0
    then (if bit_and a.value 0xff00 == 0
        then none
        else some (
            not (bit_and a.value Line.valid_ndac == 0) && not (bit_and a.value Line.bus_ndac == 0)))
    else none

module _ {W : Type 0} (t : Transport W) where
  poll_failed : ℕ → ℕ → M W Polled
  poll_failed iberr sta = do r ← reply iberr sta; pure (record { reply = r; status_byte = none })

  -- The end of `serialPoll`, from what the one-byte read brought.
  poll_result : Received → M W Polled
  unfolding poll_failed
  poll_result r =
      if not (r.rc == 0) || (r.count == 0)
      then (if r.rc == Rc.err_timeout
          then poll_failed Iberr.eabo (bit_or Sta.err Sta.timo)
          else poll_failed Iberr.ebus Sta.err)
      else (do
        let stb = get_or r.bytes 0 0
        out ← reply 0 (if bit_and stb 0x40 == 0 then Sta.cmpl else bit_or Sta.cmpl Sta.rqs)
        pure (record { reply = out; status_byte = some stb }))

  -- One byte, and the teardown whatever the read brought.
  poll_byte : Descriptor → M W Polled
  unfolding poll_result
  poll_byte d = do
    r ← call (t.read_data 1 0 0 d.timeout_us)
    call_ (t.send_command_bytes teardown)
    poll_result r

  poll_device : Descriptor → M W Polled
  unfolding poll_addressing poll_byte poll_failed
  poll_device d = do
    b ← get_board
    rc ← call (t.send_command_bytes (poll_addressing b d.pad d.sad))
    if rc == 0 then poll_byte d else poll_failed Iberr.ebus Sta.err

  unfoldable pub serial_poll : ℤ → M W Polled
  unfolding poll_device poll_failed
  serial_poll handle = do
    b ← get_board
    elim (descriptor_for b handle) [
      | none ↦ poll_failed Iberr.earg Sta.err
      | some d ↦
          if b.has_transport
          then (if b.online then poll_device d else poll_failed Iberr.eneb Sta.err)
          else poll_failed Iberr.earg Sta.err
    ]

  probe_byte : M W Bool
  probe_byte = do
    r ← call (t.read_data 1 0 0 probe_timeout_us)
    pure ((r.rc == 0) && (r.count == 1))

  unfoldable pub serial_poll_probe : ℕ → ℤ → M W Bool
  unfolding poll_addressing probe_byte
  serial_poll_probe pad sad = do
    b ← get_board
    if b.has_transport
        then (do
          rc ← call (t.send_command_bytes (poll_addressing b pad sad))
          present ← if rc == 0 then probe_byte else pure false
          call_ (t.send_command_bytes teardown)
          pure present)
        else pure false

  module _ (p : Platform W) where
    settle_and_probe : ℕ → ℤ → M W Bool
    unfolding serial_poll_probe lines_verdict
    settle_and_probe pad sad = do
      call_ (p.sleep_ms 2)
      a ← call t.read_bus_lines
      elim (lines_verdict a) [ none ↦ serial_poll_probe pad sad | some present ↦ pure present ]

    find_listener : ℕ → ℤ → M W Bool
    unfolding probe_addressing settle_and_probe
    find_listener pad sad = do
      sent ← call (t.send_command_bytes (probe_addressing pad sad))
      rc ← if sent == 0 then call t.release_atn else pure sent
      if rc == 0 then settle_and_probe pad sad else pure false

    unfoldable pub listener_present : ℕ → ℤ → M W Found
    unfolding find_listener
    listener_present pad sad = do
      b ← get_board
      if b.has_transport
          then (do
            present ← find_listener pad sad
            r ← reply 0 Sta.cmpl
            pure (record { reply = r; present = present }))
          else (do r ← reply Iberr.eneb Sta.err; pure (record { reply = r; present = false }))
