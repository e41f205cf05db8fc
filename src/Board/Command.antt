-- ===== src/Board/Command.antt =====
-- GPIBBoard.cpp: `deviceClear`, `trigger`, `goToLocal`, `interfaceClear`, `remoteEnable`,
-- `localLockout`, `sendCommands` and `busLineStatus`.
use darwin_gpib.Prelude.{ℕ, Bool, List, [], ◌∷◌, none, some, bit_or, ◌==◌, if◌then◌else◌, length}
use darwin_gpib.Prelude.Int.{ℤ}
use darwin_gpib.Gpib.Cmd
use darwin_gpib.Gpib.Iberr
use darwin_gpib.Gpib.Sta
use darwin_gpib.Transport.{Transport, Answer}
use darwin_gpib.Board.Table.{descriptor_for}
use darwin_gpib.Board.Monad.{M, Reply, ◌>>=◌, ◌>>◌, pure, call, call_, get_board, put_board, reply}
use darwin_gpib.Board.Recover.{to_listener}

-- What `sendCommands` hands back.
pub record Sent : Type 0 where
  pub reply : Reply
  pub count : ℕ

-- What `busLineStatus` hands back.
pub record Lines : Type 0 where
  pub reply : Reply
  pub lines : ℕ

module _ {W : Type 0} (t : Transport W) where
  -- `EBUS` if the bytes were not taken, else success.
  send_or_fail : List ℕ → ℕ → M W Reply
  send_or_fail cmds sta = do
    rc ← call (t.send_command_bytes cmds)
    if rc == 0 then reply 0 sta else reply Iberr.ebus Sta.err

  -- The common body of `deviceClear`, `trigger` and `goToLocal`: one command to one listener.
  command_to : ℕ → ℤ → M W Reply
  unfolding send_or_fail
  command_to command handle = do
    b ← get_board
    elim (descriptor_for b handle) [
      | none ↦ reply Iberr.earg Sta.err
      | some d ↦
          if b.has_transport
          then send_or_fail (to_listener d command) Sta.cmpl
          else reply Iberr.earg Sta.err
    ]

  unfoldable pub device_clear : ℤ → M W Reply
  unfolding command_to
  device_clear = command_to Cmd.sdc

  unfoldable pub trigger : ℤ → M W Reply
  unfolding command_to
  trigger = command_to Cmd.get

  unfoldable pub go_to_local : ℤ → M W Reply
  unfolding command_to
  go_to_local = command_to Cmd.gtl

  unfoldable pub interface_clear : M W Reply
  interface_clear = do
    b ← get_board
    if b.has_transport
        then (do call_ t.pulse_interface_clear; reply 0 (bit_or Sta.cmpl Sta.cic))
        else reply Iberr.eneb Sta.err

  enable_remote : Bool → M W Reply
  enable_remote enable = do
    call_ (t.set_remote_enable enable)
    b ← get_board
    put_board (record b { ren_requested = enable })
    reply 0 (if enable then bit_or Sta.cmpl Sta.rem else Sta.cmpl)

  unfoldable pub remote_enable : Bool → M W Reply
  unfolding enable_remote
  remote_enable enable = do
    b ← get_board
    if b.has_transport then enable_remote enable else reply Iberr.eneb Sta.err

  unfoldable pub local_lockout : M W Reply
  unfolding send_or_fail
  local_lockout = do
    b ← get_board
    if b.has_transport
        then send_or_fail (Cmd.llo ∷ []) (bit_or Sta.cmpl Sta.lok)
        else reply Iberr.eneb Sta.err

  send_raw : List ℕ → M W Sent
  send_raw cmds = do
    rc ← call (t.send_command_bytes cmds)
    r ← if rc == 0 then reply 0 Sta.cmpl else reply Iberr.ebus Sta.err
    pure (record { reply = r; count = if rc == 0 then length cmds else 0 })

  unfoldable pub send_commands : List ℕ → M W Sent
  unfolding send_raw
  send_commands cmds = do
    b ← get_board
    if b.has_transport
        then send_raw cmds
        else (do r ← reply Iberr.eneb Sta.err; pure (record { reply = r; count = 0 }))

  line_reply : Answer → M W Lines
  line_reply a = do
    r ← if a.rc == 0 then reply 0 Sta.cmpl else reply Iberr.ecap Sta.err
    pure (record { reply = r; lines = if a.rc == 0 then a.value else 0 })

  unfoldable pub bus_line_status : M W Lines
  unfolding line_reply
  bus_line_status = do
    b ← get_board
    if b.has_transport
        then (do a ← call t.read_bus_lines; line_reply a)
        else (do r ← reply Iberr.eneb Sta.err; pure (record { reply = r; lines = 0 }))
