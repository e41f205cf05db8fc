-- ===== src/UserClient/Refusals.antt =====
-- What a failing call of a client leaves behind.
use darwin_gpib.Prelude.{
  ℕ, ◌+◌, ◌≡◌, ◌≢◌, refl, sym, ap, ◌∙◌, arith, Bool, List, Option, none, some, ◌==◌, ltb, length,
  min,
}
use darwin_gpib.Transport.{Transport}
use darwin_gpib.Board.Monad.{State, M, Reply}
use darwin_gpib.Board.Platform.{Platform}
use darwin_gpib.Board.Wait.{wait_for_status}
use darwin_gpib.UserClient.{Outcome, Code, Memory, word, int_word, with_input, status_out}
use darwin_gpib.UserClient.Handlers.{
  handle_board_online, handle_open_descriptor, handle_close_descriptor, handle_configure,
  handle_ask, handle_write, handle_read, handle_device_clear, handle_interface_clear,
  handle_remote_enable, handle_serial_poll, handle_trigger, handle_go_to_local,
  handle_local_lockout, handle_listener_present, handle_send_command, max_inline_read, read_out,
}
use darwin_gpib.UserClient.Lines.{handle_line_status, line_status, diagnosed}
use darwin_gpib.UserClient.Dispatch.{handle, dispatch, handle_wait}
use darwin_gpib.UserClient.Laws.{pick}

-- A call that fails has left the state alone.
abbrev Clean : {W : Type 0} → State W → M W Outcome → Type 0
Clean s m = (m s).0.code ≢ Code.success → (m s).1 ≡ s

abbrev code_of : Option Outcome → Code
code_of none = Code.success
code_of (some o) = o.code

abbrev CleanOption : {W : Type 0} → State W → M W (Option Outcome) → Type 0
CleanOption s m = code_of (m s).0 ≢ Code.success → (m s).1 ≡ s

with_input-Clean :
    {W : Type 0} (size : ℕ) (input : Option (List ℕ)) (m : List ℕ → M W Outcome) (s : State W)
    → ((b : List ℕ) → Clean s (m b))
    → Clean s (with_input size input m)
unfolding with_input
with_input-Clean size none m s step = λ fails. refl
with_input-Clean size (some b) m s step =
    pick (Clean s) (ltb (length b) size) _ _ (λ fails. refl) (step b)

module _ {W : Type 0} (t : Transport W) (p : Platform W) (memory : Memory) (fuel : ℕ) (s : State W)
    (input : Option (List ℕ)) where
  table_Clean :
      Clean s (handle_open_descriptor t input)
      × Clean s (handle_close_descriptor t input)
      × Clean s (handle_configure t input)
      × Clean s (handle_ask t input)
  unfolding handle_open_descriptor handle_close_descriptor handle_configure handle_ask
  table_Clean = (
    with_input-Clean 32 input _ s (λ b fails. absurd (fails refl)),
    with_input-Clean 8 input _ s (λ b fails. absurd (fails refl)),
    with_input-Clean 16 input _ s (λ b fails. absurd (fails refl)),
    with_input-Clean 8 input _ s (λ b fails. absurd (fails refl)),
  )

  transfer_Clean :
      Clean s (handle_write t input)
      × Clean s (handle_read t input memory)
      × Clean s (handle_send_command t input)
  unfolding handle_write handle_read handle_send_command read_out
  transfer_Clean = (
    with_input-Clean 16 input _ s (λ b.
        pick (Clean s) (ltb (length b) (16 + word b 2)) _ _ (λ fails. refl)
          (λ fails. absurd (fails refl))),
    with_input-Clean 8 input _ s (λ b.
        pick (Clean s) (memory.has_capacity (16 + min (word b 1) max_inline_read)) _ _
          (pick (Clean s) (memory.has_scratch (16 + min (word b 1) max_inline_read)) _ _
            (λ fails. absurd (fails refl)) (λ fails. refl))
          (λ fails. refl)),
    with_input-Clean 8 input _ s (λ b.
        pick (Clean s) (ltb (length b) (8 + word b 1)) _ _ (λ fails. refl)
          (λ fails. absurd (fails refl))),
  )

  device_Clean :
      Clean s (handle_device_clear t input)
      × Clean s (handle_trigger t input)
      × Clean s (handle_go_to_local t input)
      × Clean s (handle_serial_poll t input)
      × Clean s (handle_listener_present t input p)
  unfolding handle_device_clear handle_trigger handle_go_to_local handle_serial_poll
      handle_listener_present
  device_Clean = (
    with_input-Clean 8 input _ s (λ b fails. absurd (fails refl)),
    with_input-Clean 8 input _ s (λ b fails. absurd (fails refl)),
    with_input-Clean 8 input _ s (λ b fails. absurd (fails refl)),
    with_input-Clean 8 input _ s (λ b fails. absurd (fails refl)),
    with_input-Clean 16 input _ s (λ b fails. absurd (fails refl)),
  )

  line_status-Clean : (h : ℕ) → Clean s (line_status t h)
  unfolding line_status diagnosed
  line_status-Clean h = λ fails. absurd (fails (ground arith))

  board_Clean :
      Clean s (handle_board_online t input)
      × Clean s (handle_interface_clear t input)
      × Clean s (handle_remote_enable t input)
      × Clean s (handle_local_lockout t input)
      × Clean s (handle_line_status t input)
  unfolding handle_board_online handle_interface_clear handle_remote_enable handle_local_lockout
      handle_line_status
  board_Clean = (
    with_input-Clean 8 input _ s (λ b fails. absurd (fails refl)),
    with_input-Clean 8 input _ s (λ b fails. absurd (fails refl)),
    with_input-Clean 8 input _ s (λ b fails. absurd (fails refl)),
    with_input-Clean 8 input _ s (λ b fails. absurd (fails refl)),
    with_input-Clean 8 input _ s (λ b. line_status-Clean (word b 0)),
  )

  wait_code :
      (r : Option Reply)
      → code_of (elim r [ none ↦ none | some x ↦ some (status_out x) ]) ≡ Code.success
  wait_code none = refl
  wait_code (some r) = refl

  wait_Clean : CleanOption s (handle_wait t p memory fuel input)
  unfolding handle_wait
  wait_Clean = wait_input input
    where
      wait_input : (i : Option (List ℕ)) → CleanOption s (handle_wait t p memory fuel i)
      wait_input none = λ fails. refl
      wait_input (some b) =
          pick (CleanOption s) (ltb (length b) 16) _ _ (λ fails. refl)
            (λ fails. absurd (
              fails (
                wait_code (wait_for_status t p fuel (int_word b 0) (int_word b 1) (word b 2) s).0)))

  -- A call of a client that returns anything but kIOReturnSuccess, for whatever reason, has left the
  -- board and the world of the adapter as they were.
  pub dispatch_refused :
      (connected : Bool) (selector : ℕ) (o : Outcome)
      → (dispatch t p memory fuel connected selector input s).0 ≡ some o
      → o.code ≢ Code.success
      → (dispatch t p memory fuel connected selector input s).1 ≡ s
  unfolding dispatch handle
  dispatch_refused connected selector o e fails =
      let (opens, closes, configures, asks) = table_Clean in
      let (write, read, send) = transfer_Clean in
      let (clear, trigger, local, poll, present) = device_Clean in
      let (online, ifc, ren, llo, lines) = board_Clean in
      let S : M W (Option Outcome) → Type 0 = CleanOption s in
      let clean : S (dispatch t p memory fuel connected selector input) =
        pick S connected _ _
          (pick S (selector == 0) _ _ online (
            pick S (selector == 1) _ _ opens (
              pick S (selector == 2) _ _ closes (
                pick S (selector == 3) _ _ configures (
                  pick S (selector == 4) _ _ write (
                    pick S (selector == 5) _ _ read (
                      pick S (selector == 6) _ _ clear (
                        pick S (selector == 7) _ _ ifc (
                          pick S (selector == 8) _ _ ren (
                            pick S (selector == 9) _ _ wait_Clean (
                              pick S (selector == 10) _ _ asks (
                                pick S (selector == 11) _ _ poll (
                                  pick S (selector == 12) _ _ trigger (
                                    pick S (selector == 13) _ _ local (
                                      pick S (selector == 14) _ _ llo (
                                        pick S (selector == 15) _ _ lines (
                                          pick S (selector == 16) _ _ present (
                                            pick S (selector == 17) _ _ send
                                              (λ no. refl)))))))))))))))))))
          (λ no. refl) in
      clean (λ same. fails (ap code_of (sym e) ∙ same))
