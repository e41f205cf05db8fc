-- ===== src/Board/Recover.antt =====
-- GPIBBoard.cpp: `setOnline`, `recoverBus`, the operator's `softResetDiag` and the other
-- diagnostic calls.
pub mod Laws
use darwin_gpib.Prelude.{
  ℕ, Bool, true, false, List, [], ◌∷◌, Option, none, some, bit_or, ◌==◌, ◌&&◌, if◌then◌else◌,
}
use darwin_gpib.Gpib.Cmd
use darwin_gpib.Gpib.Iberr
use darwin_gpib.Gpib.Sta
use darwin_gpib.Transport.{Transport, Answer}
use darwin_gpib.Board.{Board, Descriptor}
use darwin_gpib.Board.Monad.{M, ◌>>=◌, ◌>>◌, pure, call, call_, get_board, put_board}
use darwin_gpib.Board.Address.{mla_byte, then_secondary}

-- UNL, the device's listen address, then one addressed command.
unfoldable pub to_listener : Descriptor → ℕ → List ℕ
to_listener d command = Cmd.unl ∷ mla_byte d.pad ∷ then_secondary d.sad (command ∷ [])

-- `ibsta_ = sta; return ibsta_;`
abbrev status : {W : Type 0} → ℕ → M W ℕ
status sta = do b ← get_board; put_board (record b { ibsta = sta }); pure sta

-- Status of `setOnline(true)` from the three return codes.
unfoldable pub online_status : ℕ → ℕ → ℕ → ℕ
online_status ifc tc ren =
    let sta : ℕ = if (ifc == 0) && (tc == 0) then bit_or Sta.cmpl Sta.cic else Sta.cmpl in
    if ren == 0 then bit_or sta Sta.rem else sta

module _ {W : Type 0} (t : Transport W) where
  go_online : M W ℕ
  unfolding online_status
  go_online = do
    ifc ← call t.pulse_interface_clear
    tc ← call (t.take_control false)
    ren ← call (t.set_remote_enable true)
    b ← get_board
    put_board (record b { ren_requested = true; online = true })
    status (online_status ifc tc ren)

  go_offline : M W ℕ
  go_offline = do
    call_ (t.set_remote_enable false)
    b ← get_board
    put_board (record b { ren_requested = false; online = false })
    status Sta.cmpl

  unfoldable pub set_online : Bool → M W ℕ
  unfolding go_online go_offline
  set_online online = do
    b ← get_board
    if b.has_transport then (if online then go_online else go_offline) else status Sta.err

  -- What follows a successful `softReset`: controller-in-charge again, REN if it was asked for, and
  -- a Selected Device Clear to the instrument whose operation failed.
  unfoldable pub reestablish : Option Descriptor → M W (Unit {0})
  unfolding to_listener
  reestablish desc = do
    call_ t.pulse_interface_clear
    call_ (t.take_control false)
    b ← get_board
    if b.ren_requested then call_ (t.set_remote_enable true) else pure tt
    elim desc [ none ↦ pure tt | some d ↦ call_ (t.send_command_bytes (to_listener d Cmd.sdc)) ]

  attempt_recovery : Option Descriptor → M W Bool
  unfolding reestablish
  attempt_recovery desc = do
    before ← get_board
    put_board (record before { recovery_in_progress = true })
    rc ← call t.soft_reset
    if rc == 0 then reestablish desc else pure tt
    after ← get_board
    put_board (record after { recovery_in_progress = false })
    pure (rc == 0)

  -- True if a recovery step was performed.
  unfoldable pub recover_bus : Option Descriptor → M W Bool
  unfolding attempt_recovery
  recover_bus desc = do
    b ← get_board
    if b.has_transport
        then (if b.recovery_in_progress then pure false else attempt_recovery desc)
        else pure false

  unfoldable pub soft_reset_diag : M W ℕ
  soft_reset_diag = do
    b ← get_board
    if b.has_transport
        then (do recovered ← recover_bus none; pure (if recovered then 0 else Iberr.ebus))
        else pure Iberr.eneb

  -- Calls that are passed on to the transport when there is one.
  unfoldable pub reset_device_diag : M W ℕ
  reset_device_diag = do
    b ← get_board
    if b.has_transport then call t.reset_device else pure Iberr.eneb

  unfoldable pub set_max_data_chunk_diag : ℕ → M W ℕ
  set_max_data_chunk_diag bytes = do
    b ← get_board
    if b.has_transport then call (t.set_max_data_chunk bytes) else pure Iberr.eneb

  unfoldable pub read_raw_register_diag : ℕ → M W Answer
  read_raw_register_diag reg = do
    b ← get_board
    if b.has_transport
        then call (t.read_raw_register reg)
        else pure (record { rc = 0xff; value = 0 })

  unfoldable pub write_raw_register_diag : ℕ → ℕ → M W ℕ
  write_raw_register_diag reg value = do
    b ← get_board
    if b.has_transport then call (t.write_raw_register reg value) else pure 0xff
