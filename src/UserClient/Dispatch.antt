-- ===== src/UserClient/Dispatch.antt =====
-- GPIBUserClient.cpp: `handleWait` and `GPIBUserClient_Dispatch`. `none` says that the fuel of a wait
-- ran out; no other selector uses it.
use darwin_gpib.Prelude.{ℕ, Bool, List, Option, none, some, ltb, if◌then◌else◌, length, ◌==◌}
use darwin_gpib.Transport.{Transport}
use darwin_gpib.Board.Monad.{M, ◌>>=◌, pure}
use darwin_gpib.Board.Platform.{Platform}
use darwin_gpib.Board.Wait.{wait_for_status}
use darwin_gpib.UserClient.{Outcome, Code, Memory, bare, status_out, word, int_word}
use darwin_gpib.UserClient.Handlers.{
  handle_board_online, handle_open_descriptor, handle_close_descriptor, handle_configure,
  handle_ask, handle_write, handle_read, handle_device_clear, handle_interface_clear,
  handle_remote_enable, handle_serial_poll, handle_trigger, handle_go_to_local,
  handle_local_lockout, handle_listener_present, handle_send_command,
}
use darwin_gpib.UserClient.Lines.{handle_line_status}

abbrev returns : {W : Type 0} → M W Outcome → M W (Option Outcome)
returns m = do o ← m; pure (some o)

module _ {W : Type 0} (t : Transport W) (p : Platform W) (memory : Memory) (fuel : ℕ) where
  wait_with : List ℕ → M W (Option Outcome)
  wait_with b = do
    r ← wait_for_status t p fuel (int_word b 0) (int_word b 1) (word b 2)
    pure (elim r [ none ↦ none | some x ↦ some (status_out x) ])

  unfoldable pub handle_wait : Option (List ℕ) → M W (Option Outcome)
  unfolding wait_with
  handle_wait none = pure (some (bare Code.bad_argument))
  handle_wait (some b) =
      if ltb (length b) 16 then pure (some (bare Code.bad_argument)) else wait_with b

  -- The switch over `enum GPIBSelector`.
  unfoldable pub handle : ℕ → Option (List ℕ) → M W (Option Outcome)
  handle selector input =
      if selector == 0
      then returns (handle_board_online t input)
      else if selector == 1
      then returns (handle_open_descriptor t input)
      else if selector == 2
      then returns (handle_close_descriptor t input)
      else if selector == 3
      then returns (handle_configure t input)
      else if selector == 4
      then returns (handle_write t input)
      else if selector == 5
      then returns (handle_read t input memory)
      else if selector == 6
      then returns (handle_device_clear t input)
      else if selector == 7
      then returns (handle_interface_clear t input)
      else if selector == 8
      then returns (handle_remote_enable t input)
      else if selector == 9
      then handle_wait input
      else if selector == 10
      then returns (handle_ask t input)
      else if selector == 11
      then returns (handle_serial_poll t input)
      else if selector == 12
      then returns (handle_trigger t input)
      else if selector == 13
      then returns (handle_go_to_local t input)
      else if selector == 14
      then returns (handle_local_lockout t input)
      else if selector == 15
      then returns (handle_line_status t input)
      else if selector == 16
      then returns (handle_listener_present t input p)
      else if selector == 17
      then returns (handle_send_command t input)
      else pure (some (bare Code.unsupported))

  -- `connected`: the client still has its board.
  unfoldable pub dispatch : Bool → ℕ → Option (List ℕ) → M W (Option Outcome)
  dispatch connected selector input =
      if connected then handle selector input else pure (some (bare Code.not_ready))
