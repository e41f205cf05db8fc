-- ===== src/Broker/Requests.antt =====
-- gpibd.c: `handle_request` and `reply_error`. The reply is what is sent where XPC makes one; its
-- message is for the log only and has no counterpart.
use darwin_gpib.Prelude.{
  ℕ, ◌%◌, ◌^◌, Bool, true, not, ◌&&◌, List, Option, none, some, ◌==◌, ltb, leb, if◌then◌else◌,
  length, take,
}
use darwin_gpib.Prelude.Int.{ℤ, pos, is_neg}
use darwin_gpib.UserClient.{i32_of, int_word}
use darwin_gpib.Broker.{
  Called, IoKit, M, ◌>>=◌, ◌>>◌, pure, call, buffer, max_out, op_probe, op_list_boards,
  sel_open_descriptor, sel_close_descriptor, err_bad_request,
}
use darwin_gpib.Broker.Session.{session_add_desc, session_forget_desc}
use darwin_gpib.Broker.Boards.{
  Resolved, connected, failed, enumerate_boards, board_list, connection_for_board,
  connection_is_dead, drop_board,
}

-- The fields of a message: `uint64_t` numbers, and the input if there is one.
pub record Request : Type 0 where
  pub op : ℕ
  pub board : ℕ
  pub cap : ℕ
  pub input : Option (List ℕ)

pub record Reply : Type 0 where
  pub code : ℤ
  pub output : Option (List ℕ)

abbrev pub bare : ℤ → Reply
bare code = record { code = code; output = none }

-- `(int)board`.
unfoldable pub board_of : Request → ℤ
board_of r = i32_of (r.board % 2 ^ 32)

module _ {W : Type 0} (k : IoKit W) (r : Request) where
  unfoldable pub ask_driver : ℕ → M W Called
  ask_driver conn = call (k.call_struct conn (r.op % 2 ^ 32) r.input r.cap)

  -- The second try; without a connection the result of the first stands.
  unfoldable pub ask_again : Called → Resolved → M W Called
  ask_again first (failed code) = pure first
  ask_again first (connected conn) = ask_driver conn

  unfoldable pub drop_if_dead : Called → M W Called
  drop_if_dead last =
      if connection_is_dead k last.kr then (do drop_board k (board_of r); pure last) else pure last

  unfoldable pub retry_stale : Called → M W Called
  retry_stale first =
      if connection_is_dead k first.kr
      then (do
        drop_board k (board_of r)
        c ← connection_for_board k (board_of r)
        last ← ask_again first c
        drop_if_dead last)
      else pure first

  -- The handle in a `GPIBOpenDescriptorOut`, which takes 16 bytes.
  unfoldable pub track_open : Called → M W (Unit {0})
  track_open c =
      let handle = int_word (buffer r.cap c.written) 0 in
      if is_neg handle then pure tt else session_add_desc k (board_of r) handle

  unfoldable pub track_close : Option (List ℕ) → M W (Unit {0})
  track_close none = pure tt
  track_close (some bytes) =
      if leb 8 (length bytes) then session_forget_desc (board_of r) (int_word bytes 0) else pure tt

  unfoldable pub track : Called → M W (Unit {0})
  track c =
      if (c.kr == 0) && not (r.cap == 0)
      then (if (r.op == sel_open_descriptor) && leb 16 c.size
          then track_open c
          else if r.op == sel_close_descriptor
          then track_close r.input
          else pure tt)
      else pure tt

  unfoldable pub reply_of : Called → Reply
  reply_of c = record {
    code = i32_of c.kr;
    output =
        if not (r.cap == 0) && ltb 0 c.size
        then some (take c.size (buffer r.cap c.written))
        else none;
  }

  unfoldable pub exchange : ℕ → M W Reply
  exchange conn = do
    first ← ask_driver conn
    last ← retry_stale first
    track last
    pure (reply_of last)

  -- `calloc(1, cap)`, if any output is wanted.
  unfoldable pub output_buffer : M W Bool
  output_buffer = if r.cap == 0 then pure true else call (k.allocate r.cap)

  unfoldable pub on_board : Resolved → M W Reply
  on_board (failed code) = pure (bare code)
  on_board (connected conn) =
      if r.op == op_probe
      then pure (bare (pos 0))
      else (do had ← output_buffer; if had then exchange conn else pure (bare err_bad_request))

  unfoldable pub list_boards : M W Reply
  list_boards = do
    boards ← enumerate_boards k
    pure (record { code = pos 0; output = some (board_list boards) })

  unfoldable pub handle_request : M W Reply
  handle_request =
      if ltb max_out r.cap
      then pure (bare err_bad_request)
      else if r.op == op_list_boards
      then list_boards
      else (do c ← connection_for_board k (board_of r); on_board c)
