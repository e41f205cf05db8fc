-- ===== src/UserClient/Handlers.antt =====
-- GPIBUserClient.cpp: the handlers of the selectors, `handleLineStatus` and `handleWait` apart.
use darwin_gpib.Prelude.{
  ℕ, ◌+◌, ◌-◌, ◌%◌, not, List, [], ◌∷◌, ◌++◌, Option, none, some, ◌==◌, ltb, if◌then◌else◌, length,
  take, drop, min, replicate,
}
use darwin_gpib.Prelude.Int.{pos, to_u32, i8_of}
use darwin_gpib.Transport.{Transport}
use darwin_gpib.Board.Monad.{M, ◌>>=◌, ◌>>◌, pure, get_board, put_board}
use darwin_gpib.Board.Platform.{Platform}
use darwin_gpib.Board.Timeout.{timeout_code_to_micros}
use darwin_gpib.Board.Recover.{set_online}
use darwin_gpib.Board.Table.{open_descriptor, close_descriptor, configure, ask}
use darwin_gpib.Board.Transfer.{write, read, GotBytes}
use darwin_gpib.Board.Command.{
  device_clear, trigger, go_to_local, interface_clear, remote_enable, local_lockout, send_commands,
}
use darwin_gpib.Board.Poll.{serial_poll, listener_present}
use darwin_gpib.UserClient.{
  Outcome, Code, Memory, bare, answered, status_out, word, int_word, with_input,
}

-- `kGPIBMaxInlineRead`.
abbrev pub max_inline_read : ℕ
max_inline_read = 4096 - 16

-- The scratch buffer behind the header: the bytes that came, then the zeros of the allocation. As many
-- of them as the count says go out.
unfoldable pub read_out : ℕ → GotBytes → Outcome
read_out request r = record {
  code = Code.success;
  fields = r.reply.sta ∷ r.reply.iberr ∷ r.count ∷ r.end_flag ∷ [];
  payload = take r.count (r.bytes ++ replicate (request - length r.bytes) 0);
}

module _ {W : Type 0} (t : Transport W) (input : Option (List ℕ)) where
  unfoldable pub handle_board_online : M W Outcome
  handle_board_online =
      with_input 8 input
        (λ b. do sta ← set_online t (not (word b 0 == 0)); pure (answered (sta ∷ 0 ∷ 0 ∷ 0 ∷ [])))

  unfoldable pub handle_open_descriptor : M W Outcome
  handle_open_descriptor = with_input 32 input (λ b. do
    before ← get_board
    let (o, after) =
        open_descriptor before (word b 0 % 256) (i8_of (word b 1 % 256)) (not (word b 2 == 0))
          (timeout_code_to_micros (word b 3)) (word b 4 % 256) (word b 5 % 256)
          (not (word b 6 == 0))
    put_board after
    pure (answered (to_u32 o.handle ∷ o.sta ∷ o.iberr ∷ 0 ∷ [])))

  unfoldable pub handle_close_descriptor : M W Outcome
  handle_close_descriptor = with_input 8 input (λ b. do
    before ← get_board
    let (r, after) = close_descriptor before (int_word b 0)
    put_board after
    pure (status_out r))

  unfoldable pub handle_configure : M W Outcome
  handle_configure = with_input 16 input (λ b. do
    before ← get_board
    let (r, after) = configure before (int_word b 0) (word b 1) (int_word b 2)
    put_board after
    pure (status_out r))

  unfoldable pub handle_ask : M W Outcome
  handle_ask = with_input 8 input (λ b. do
    before ← get_board
    let (a, after) = ask before (int_word b 0) (int_word b 1)
    put_board after
    pure
        (answered (to_u32 (elim a.value [ none ↦ pos 0 | some v ↦ v ]) ∷ a.sta ∷ a.iberr ∷ 0 ∷ [])))

  -- The payload has to be there in full.
  unfoldable pub handle_write : M W Outcome
  handle_write = with_input 16 input (λ b.
      if ltb (length b) (16 + word b 2) then pure (bare Code.bad_argument) else (do
        r ← write t (int_word b 0) (take (word b 2) (drop 16 b)) (not (word b 1 == 0))
        pure (answered (r.reply.sta ∷ r.reply.iberr ∷ r.count ∷ 0 ∷ []))))

  unfoldable pub handle_read : Memory → M W Outcome
  handle_read memory = with_input 8 input (λ b.
      let request : ℕ = min (word b 1) max_inline_read in
      if memory.has_capacity (16 + request)
      then (if memory.has_scratch (16 + request)
          then (do r ← read t (int_word b 0) request; pure (read_out request r))
          else pure (bare Code.no_memory))
      else pure (bare Code.no_memory))

  unfoldable pub handle_device_clear : M W Outcome
  handle_device_clear =
      with_input 8 input (λ b. do r ← device_clear t (int_word b 0); pure (status_out r))

  unfoldable pub handle_interface_clear : M W Outcome
  handle_interface_clear = with_input 8 input (λ b. do r ← interface_clear t; pure (status_out r))

  unfoldable pub handle_remote_enable : M W Outcome
  handle_remote_enable =
      with_input 8 input (λ b. do r ← remote_enable t (not (word b 1 == 0)); pure (status_out r))

  unfoldable pub handle_serial_poll : M W Outcome
  handle_serial_poll = with_input 8 input (λ b. do
    r ← serial_poll t (int_word b 0)
    let stb : ℕ = elim r.status_byte [ none ↦ 0 | some x ↦ x ]
    pure (answered (stb ∷ r.reply.sta ∷ r.reply.iberr ∷ 0 ∷ [])))

  unfoldable pub handle_trigger : M W Outcome
  handle_trigger = with_input 8 input (λ b. do r ← trigger t (int_word b 0); pure (status_out r))

  unfoldable pub handle_go_to_local : M W Outcome
  handle_go_to_local =
      with_input 8 input (λ b. do r ← go_to_local t (int_word b 0); pure (status_out r))

  unfoldable pub handle_local_lockout : M W Outcome
  handle_local_lockout = with_input 8 input (λ b. do r ← local_lockout t; pure (status_out r))

  unfoldable pub handle_listener_present : Platform W → M W Outcome
  handle_listener_present p = with_input 16 input (λ b. do
    r ← listener_present t p (word b 1 % 256) (i8_of (word b 2 % 256))
    pure (answered ((if r.present then 1 else 0) ∷ r.reply.sta ∷ r.reply.iberr ∷ 0 ∷ [])))

  unfoldable pub handle_send_command : M W Outcome
  handle_send_command = with_input 8 input (λ b.
      if ltb (length b) (8 + word b 1) then pure (bare Code.bad_argument) else (do
        r ← send_commands t (take (word b 1) (drop 8 b))
        pure (answered (r.reply.sta ∷ r.reply.iberr ∷ r.count ∷ 0 ∷ []))))
