-- ===== src/UserClient/Laws.antt =====
-- Every call of a client, whatever its selector and its bytes, and the descriptor table.
use darwin_gpib.Prelude.{
  ℕ, zero, suc, ◌+◌, ◌%◌, min, ◌≡◌, inl, inr, refl, sym, arith, Bool, true, false, not, List,
  Option, none, some, ◌==◌, ltb, if◌then◌else◌, length, take, drop, Bool-cases, Option-cases,
}
use darwin_gpib.Prelude.Int.{ℤ, i8_of}
use darwin_gpib.Transport.{Transport}
use darwin_gpib.Board.Monad.{State, M}
use darwin_gpib.Board.Platform.{Platform}
use darwin_gpib.Board.Recover.{
  set_online, soft_reset_diag, reset_device_diag, set_max_data_chunk_diag, read_raw_register_diag,
  write_raw_register_diag,
}
use darwin_gpib.Board.Recover.Laws.{recover_bus-board}
use darwin_gpib.Board.Table.{descriptor_for}
use darwin_gpib.Board.Table.Laws.{IsValid}
use darwin_gpib.Board.Table.Calls.{
  IsValid-table, open_descriptor-IsValid, close_descriptor-IsValid, configure-IsValid, ask_table,
}
use darwin_gpib.Board.Wait.{
  wait_for_status, wait_loop, round, look, check, deadline_from, effective_timeout,
}
use darwin_gpib.Board.Calls.{
  BusCall, bus_call, bus_call-Good, writes, reads, clears, triggers, locals, clears_interface,
  enables_remote, locks_out, sends, asks_lines, polls, looks_for,
}
use darwin_gpib.UserClient.{Outcome, Memory, word, int_word, with_input}
use darwin_gpib.UserClient.Handlers.{
  handle_board_online, handle_open_descriptor, handle_close_descriptor, handle_configure,
  handle_ask, handle_write, handle_read, handle_device_clear, handle_interface_clear,
  handle_remote_enable, handle_serial_poll, handle_trigger, handle_go_to_local,
  handle_local_lockout, handle_listener_present, handle_send_command, max_inline_read,
}
use darwin_gpib.UserClient.Lines.{handle_line_status, line_status}
use darwin_gpib.UserClient.Dispatch.{handle, dispatch, handle_wait}

with_input-IsValid :
    {W : Type 0} (size : ℕ) (input : Option (List ℕ)) (m : List ℕ → M W Outcome) (s : State W)
    → IsValid s.board
    → ((b : List ℕ) → IsValid (m b s).1.board)
    → IsValid (with_input size input m s).1.board
unfolding with_input
with_input-IsValid size none m s v step = v
with_input-IsValid size (some b) m s v step = elim (Bool-cases (ltb (length b) size)) [
  | inl short ↦ rw short v
  | inr enough ↦ rw enough (step b)
]

module _ {W : Type 0} (t : Transport W) (p : Platform W) (s : State W) (v : IsValid s.board) where
  -- A call of the bus leaves the table alone.
  bus_call-IsValid : (c : BusCall) → IsValid (bus_call t p c s).1.board
  bus_call-IsValid c = IsValid-table s.board _ (sym (bus_call-Good t p s c).1.1) v

  set_online-IsValid : (online : Bool) → IsValid (set_online t online s).1.board
  unfolding set_online
  set_online-IsValid online = IsValid-table s.board (set_online t online s).1.board (ground arith) v

  line_status-IsValid : (h : ℕ) → IsValid (line_status t h s).1.board
  unfolding line_status soft_reset_diag reset_device_diag set_max_data_chunk_diag
      read_raw_register_diag write_raw_register_diag bus_call
  line_status-IsValid h =
      IsValid-table s.board (line_status t h s).1.board
        (ground (arith, recover_bus-board t none s, (bus_call-Good t p s asks_lines).1.1)) v

wait_loop-table :
    {W : Type 0} (t : Transport W) (p : Platform W) (fuel deadline : ℕ) (s : State W)
    → s.board.descriptors ≡ (wait_loop t p fuel deadline s).1.board.descriptors
unfolding wait_loop round look check
wait_loop-table t p zero deadline s = refl
wait_loop-table t p (suc fuel) deadline s = ground (
  arith,
  wait_loop-table t p fuel deadline (record (round t p deadline s).1 {
    world = (p.sleep_ms 20 (round t p deadline s).1.world).1;
  }),
)

-- What holds of both branches holds of the choice.
pub pick : {A : Type 0} (P : A → Type 0) (b : Bool) (x y : A) → P x → P y → P (if b then x else y)
pick P true x y left right = left
pick P false x y left right = right

wait-IsValid :
    {W : Type 0} (t : Transport W) (p : Platform W) (fuel timeout_us : ℕ) (h mask : ℤ) (s : State W)
    → IsValid s.board
    → IsValid (wait_for_status t p fuel h mask timeout_us s).1.board
unfolding wait_for_status
wait-IsValid t p fuel timeout_us h mask s v =
    IsValid-table s.board (wait_for_status t p fuel h mask timeout_us s).1.board
      (elim (Option-cases (descriptor_for s.board h)) [
        | inl missing ↦ ground arith
        | inr (d, found) ↦ ground (
          arith,
          wait_loop-table t p fuel
              (deadline_from (p.uptime_ns s.world) (effective_timeout timeout_us d)) s,
        )
      ])
      v

module _ {W : Type 0} (t : Transport W) (p : Platform W) (memory : Memory) (fuel : ℕ) (s : State W)
    (v : IsValid s.board) (input : Option (List ℕ)) where
  abbrev Stays : {A : Type 0} → M W A → Type 0
  Stays m = IsValid (m s).1.board

  table_handlers :
      Stays (handle_open_descriptor t input)
      × Stays (handle_close_descriptor t input)
      × Stays (handle_configure t input)
      × Stays (handle_ask t input)
  unfolding handle_open_descriptor handle_close_descriptor handle_configure handle_ask
  table_handlers = (
    with_input-IsValid 32 input _ s v (λ b. open_descriptor-IsValid s.board _ _ _ _ _ _ _ v),
    with_input-IsValid 8 input _ s v (λ b. close_descriptor-IsValid s.board _ v),
    with_input-IsValid 16 input _ s v (λ b. configure-IsValid s.board _ _ _ v),
    with_input-IsValid 8 input _ s v (λ b. IsValid-table s.board _ (ask_table s.board _ _) v),
  )

  transfer_handlers :
      Stays (handle_write t input)
      × Stays (handle_read t input memory)
      × Stays (handle_send_command t input)
  unfolding handle_write handle_read handle_send_command bus_call
  transfer_handlers = (
    with_input-IsValid 16 input _ s v (λ b. pick Stays (ltb (length b) (16 + word b 2)) _ _ v (
        bus_call-IsValid t p s v
          (writes (int_word b 0) (take (word b 2) (drop 16 b)) (not (word b 1 == 0))))),
    with_input-IsValid 8 input _ s v (λ b.
        pick Stays (memory.has_capacity (16 + min (word b 1) max_inline_read)) _ _
          (pick Stays (memory.has_scratch (16 + min (word b 1) max_inline_read)) _ _
            (bus_call-IsValid t p s v (reads (int_word b 0) (min (word b 1) max_inline_read))) v)
          v),
    with_input-IsValid 8 input _ s v (λ b.
        pick Stays (ltb (length b) (8 + word b 1)) _ _ v
          (bus_call-IsValid t p s v (sends (take (word b 1) (drop 8 b))))),
  )

  device_handlers :
      Stays (handle_device_clear t input)
      × Stays (handle_trigger t input)
      × Stays (handle_go_to_local t input)
      × Stays (handle_serial_poll t input)
      × Stays (handle_listener_present t input p)
  unfolding handle_device_clear handle_trigger handle_go_to_local handle_serial_poll
      handle_listener_present bus_call
  device_handlers = (
    with_input-IsValid 8 input _ s v (λ b. bus_call-IsValid t p s v (clears (int_word b 0))),
    with_input-IsValid 8 input _ s v (λ b. bus_call-IsValid t p s v (triggers (int_word b 0))),
    with_input-IsValid 8 input _ s v (λ b. bus_call-IsValid t p s v (locals (int_word b 0))),
    with_input-IsValid 8 input _ s v (λ b. bus_call-IsValid t p s v (polls (int_word b 0))),
    with_input-IsValid 16 input _ s v
        (λ b. bus_call-IsValid t p s v (looks_for (word b 1 % 256) (i8_of (word b 2 % 256)))),
  )

  board_handlers :
      Stays (handle_board_online t input)
      × Stays (handle_interface_clear t input)
      × Stays (handle_remote_enable t input)
      × Stays (handle_local_lockout t input)
      × Stays (handle_line_status t input)
  unfolding handle_board_online handle_interface_clear handle_remote_enable handle_local_lockout
      handle_line_status bus_call
  board_handlers = (
    with_input-IsValid 8 input _ s v (λ b. set_online-IsValid t p s v (not (word b 0 == 0))),
    with_input-IsValid 8 input _ s v (λ b. bus_call-IsValid t p s v clears_interface),
    with_input-IsValid 8 input _ s v
        (λ b. bus_call-IsValid t p s v (enables_remote (not (word b 1 == 0)))),
    with_input-IsValid 8 input _ s v (λ b. bus_call-IsValid t p s v locks_out),
    with_input-IsValid 8 input _ s v (λ b. line_status-IsValid t p s v (word b 0)),
  )

  wait-Stays : Stays (handle_wait t p memory fuel input)
  unfolding handle_wait
  wait-Stays = wait_input input
    where
      wait_input : (i : Option (List ℕ)) → Stays (handle_wait t p memory fuel i)
      wait_input none = v
      wait_input (some b) =
          pick Stays (ltb (length b) 16) _ _ v
            (wait-IsValid t p fuel (word b 2) (int_word b 0) (int_word b 1) s v)

  -- From a board whose descriptor table is valid: no call of a client, whatever its selector and its bytes, breaks the invariant of the descriptor
  -- table: its 64 slots stay, each slot in use carries its own index, and slot 0 stays free.
  pub dispatch-IsValid :
      (connected : Bool) (selector : ℕ)
      → IsValid (dispatch t p memory fuel connected selector input s).1.board
  unfolding dispatch handle
  dispatch-IsValid connected selector =
      let (opens, closes, configures, asks) = table_handlers in
      let (write, read, send) = transfer_handlers in
      let (clear, trigger, local, poll, present) = device_handlers in
      let (online, ifc, ren, llo, lines) = board_handlers in
      let S : M W (Option Outcome) → Type 0 = Stays in
      pick S connected _ _
        (pick S (selector == 0) _ _ online (
          pick S (selector == 1) _ _ opens (
            pick S (selector == 2) _ _ closes (
              pick S (selector == 3) _ _ configures (
                pick S (selector == 4) _ _ write (
                  pick S (selector == 5) _ _ read (
                    pick S (selector == 6) _ _ clear (
                      pick S (selector == 7) _ _ ifc (
                        pick S (selector == 8) _ _ ren (
                          pick S (selector == 9) _ _ wait-Stays (
                            pick S (selector == 10) _ _ asks (
                              pick S (selector == 11) _ _ poll (
                                pick S (selector == 12) _ _ trigger (
                                  pick S (selector == 13) _ _ local (
                                    pick S (selector == 14) _ _ llo (
                                      pick S (selector == 15) _ _ lines (
                                        pick S (selector == 16) _ _ present
                                          (pick S (selector == 17) _ _ send v))))))))))))))))))
        v
