-- ===== src/Board/Calls.antt =====
-- The calls of GPIBBoard.cpp that send or read on the bus, all but `waitForStatus`, in any order, over any adapter: how a call reports
-- its outcome, and what it leaves alone.
use darwin_gpib.Prelude.{
  ℕ, ◌≡◌, ◌≢◌, ◌⊎◌, inl, inr, refl, arith, Bool, true, List, bit_and, some, Option-cases,
}
use darwin_gpib.Prelude.Int.{ℤ}
use darwin_gpib.Gpib.Sta
use darwin_gpib.Transport.{Transport}
use darwin_gpib.Board.{Board, Descriptor}
use darwin_gpib.Board.Monad.{State, M, Reply, ◌>>=◌, pure}
use darwin_gpib.Board.Address.{failed, address_for_write, address_for_read}
use darwin_gpib.Board.Recover.{recover_bus}
use darwin_gpib.Board.Table.{descriptor_for}
use darwin_gpib.Board.Recover.Laws.{recover_bus-board}
use darwin_gpib.Board.Platform.{Platform}
use darwin_gpib.Board.Transfer.{write, read, with_retry}
use darwin_gpib.Board.Command.{
  device_clear, trigger, go_to_local, interface_clear, remote_enable, local_lockout, send_commands,
  bus_line_status,
}
use darwin_gpib.Board.Poll.{serial_poll, listener_present}

pub data BusCall : Type 0 where
  writes : ℤ → List ℕ → Bool → BusCall
  reads : ℤ → ℕ → BusCall
  clears triggers locals : ℤ → BusCall
  clears_interface : BusCall
  enables_remote : Bool → BusCall
  locks_out : BusCall
  sends : List ℕ → BusCall
  asks_lines : BusCall
  polls : ℤ → BusCall
  looks_for : ℕ → ℤ → BusCall

module _ {W : Type 0} (t : Transport W) (p : Platform W) where
  unfoldable pub bus_call : BusCall → M W Reply
  bus_call (writes handle buf eoi) = do r ← write t handle buf eoi; pure r.reply
  bus_call (reads handle n) = do r ← read t handle n; pure r.reply
  bus_call (clears handle) = device_clear t handle
  bus_call (triggers handle) = trigger t handle
  bus_call (locals handle) = go_to_local t handle
  bus_call clears_interface = interface_clear t
  bus_call (enables_remote enable) = remote_enable t enable
  bus_call locks_out = local_lockout t
  bus_call (sends cmds) = do r ← send_commands t cmds; pure r.reply
  bus_call asks_lines = do r ← bus_line_status t; pure r.reply
  bus_call (polls handle) = do r ← serial_poll t handle; pure r.reply
  bus_call (looks_for pad sad) = do r ← listener_present t p pad sad; pure r.reply

-- A report is either a completion, CMPL without ERR and the error code 0, or a failure, ERR without
-- CMPL and an error code that is not 0.
abbrev pub IsReport : Reply → Type 0
IsReport r =
    ((r.iberr ≡ 0) × (bit_and r.sta Sta.cmpl ≡ Sta.cmpl) × (bit_and r.sta Sta.err ≡ 0))
    ⊎ ((r.iberr ≢ 0) × (bit_and r.sta Sta.cmpl ≡ 0) × (bit_and r.sta Sta.err ≡ Sta.err))

-- What a call of the bus leaves alone: the table, the transport, the board's addresses and role, the
-- online state, the recovery flag; and `ibsta_` is the status that it returned.
abbrev pub Keeps : Board → Reply × Board → Type 0
Keeps b r =
    (r.1.ibsta ≡ r.0.sta)
    × (r.1.descriptors ≡ b.descriptors)
    × (r.1.has_transport ≡ b.has_transport)
    × (r.1.board_pad ≡ b.board_pad)
    × (r.1.board_sad ≡ b.board_sad)
    × (r.1.system_controller ≡ b.system_controller)
    × (r.1.online ≡ b.online)
    × (r.1.recovery_in_progress ≡ b.recovery_in_progress)

abbrev pub Good : {W : Type 0} → State W → Reply × State W → Type 0
Good s r = IsReport r.0 × Keeps s.board (r.0, r.1.board)

module _ {W : Type 0} (t : Transport W) (s : State W) where
  phases :
      (d : Descriptor) (address : M W Reply)
      → ((z : State W)
          → ((address z).1.board ≡ z.board)
            × ((failed (address z).0 ≡ true) → (address z).0.iberr ≢ 0))
      → let a = with_retry t d address s in
        (a.1.board ≡ s.board) × ((failed a.0 ≡ true) → a.0.iberr ≢ 0)
  unfolding with_retry
  phases d address law = (
    ground (arith, recovered, law s, law after),
    λ bad. ground (arith, recovered, law s, law after),
  )
    where
      after : State W
      after = (recover_bus t (some d) (address s).1).1

      recovered : after.board ≡ (address s).1.board
      recovered = recover_bus-board t (some d) (address s).1

  write-Good :
      (handle : ℤ) (buf : List ℕ) (eoi : Bool)
      → let r = write t handle buf eoi s in Good s (r.0.reply, r.1)
  unfolding write address_for_write
  write-Good handle buf eoi = elim (Option-cases (descriptor_for s.board handle)) [
    | inl missing ↦ ground arith
    | inr (d, found) ↦
        ground (arith, phases d (address_for_write t d) (λ z. (refl, λ bad. ground arith)))
  ]

  read-Good : (handle : ℤ) (n : ℕ) → let r = read t handle n s in Good s (r.0.reply, r.1)
  unfolding read address_for_read
  read-Good handle n = elim (Option-cases (descriptor_for s.board handle)) [
    | inl missing ↦ ground arith
    | inr (d, found) ↦
        ground (arith, phases d (address_for_read t d) (λ z. (refl, λ bad. ground arith)))
  ]

module _ {W : Type 0} (t : Transport W) (p : Platform W) (s : State W) where
  -- Every call that sends or reads on the bus, which is all of them but `waitForStatus`, on every path
  -- and for every adapter, ends in a report of one of the two kinds, never in a mixture; it stores the
  -- status that it returns in `ibsta_`, and it leaves the descriptor table, the transport, the board's
  -- primary and secondary address, its role of system controller, the online state and the recovery
  -- flag as they were.
  pub bus_call-Good : (c : BusCall) → Good s (bus_call t p c s)
  unfolding bus_call device_clear trigger go_to_local interface_clear remote_enable local_lockout
      send_commands bus_line_status serial_poll listener_present
  bus_call-Good (writes handle buf eoi) = write-Good t s handle buf eoi
  bus_call-Good (reads handle n) = read-Good t s handle n
  bus_call-Good (clears handle) = ground arith
  bus_call-Good (triggers handle) = ground arith
  bus_call-Good (locals handle) = ground arith
  bus_call-Good clears_interface = ground arith
  bus_call-Good (enables_remote enable) = ground arith
  bus_call-Good locks_out = ground arith
  bus_call-Good (sends cmds) = ground arith
  bus_call-Good asks_lines = ground arith
  bus_call-Good (polls handle) = ground arith
  bus_call-Good (looks_for pad sad) = ground arith
