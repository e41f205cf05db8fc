-- ===== src/Broker/Replies.antt =====
-- gpibd.c, `handle_request`: the size of what goes out.
use darwin_gpib.Prelude.{
  ℕ, ◌||◌, ◌-◌, ◌%◌, ◌^◌, ◌≤◌, ◌≡◌, refl, inl, inr, arith, not, List, Option, none, some, ◌==◌, leb,
  if◌then◌else◌, length, get_or, replicate, length-append, length-replicate, length-take,
  Bool-cases,
}
use darwin_gpib.Prelude.Int.{ℤ, pos, negsuc}
use darwin_gpib.Broker.{
  IoKit, Server, Called, Service, buffer, max_boards, max_out, op_list_boards, err_bad_request,
  err_no_board, err_open_failed,
}
use darwin_gpib.Broker.Boards.{
  Resolved, connected, failed, connection_for_board, open_board, open_found, keep_conn, cached,
  copy_service_for_board, connection_is_dead, drop_board, enumerate_boards,
}
use darwin_gpib.Broker.Requests.{
  Request, board_of, ask_driver, ask_again, drop_if_dead, retry_stale, reply_of, exchange,
  output_buffer, on_board, handle_request, list_boards,
}
use darwin_gpib.Broker.Registry.{length-board_list, length-enumerate_boards}

-- A call writes no more than the buffer holds, and counts no more than that.
pub record Bounded {W : Type 0} (k : IoKit W) : Type 0 where
  pub written_fits :
      (conn selector cap : ℕ) (input : Option (List ℕ)) (w : W)
      → length (k.call_struct conn selector input cap w).0.written ≤ cap
  pub size_fits :
      (conn selector cap : ℕ) (input : Option (List ℕ)) (w : W)
      → (k.call_struct conn selector input cap w).0.size ≤ cap

pub length-buffer :
    (cap : ℕ) (written : List ℕ) → length written ≤ cap → length (buffer cap written) ≡ cap
length-buffer cap written fits = omega (
  arith,
  length-append written (replicate (cap - length written) 0),
  length-replicate {A = ℕ} (cap - length written) 0,
)

abbrev pub Fits : Request → Called → Type 0
Fits r c = (length c.written ≤ r.cap) × (c.size ≤ r.cap)

-- An error, if it is one, satisfies `P`.
unfoldable pub Fails : (ℤ → Type 0) → Resolved → Type 0
Fails P (failed code) = P code
Fails P (connected conn) = Unit {0}

module _ {W : Type 0} (k : IoKit W) (P : ℤ → Type 0) (bad : P err_bad_request)
    (missing : P err_no_board) (unopened : P err_open_failed) where
  open_found-Fails :
      (b : ℕ) (service : Option Service) (s : Server W) → Fails P (open_found k b service s).0
  unfolding Fails open_found keep_conn
  open_found-Fails b none s = missing
  open_found-Fails b (some x) s =
      let (o, w) = k.open_service x.port s.world in
      elim (Bool-cases (not (o.kr == 0) || (o.conn == 0))) [
        | inl refused ↦ rw refused unopened
        | inr there ↦ rw there tt
      ]

  open_board-Fails : (b : ℕ) (s : Server W) → Fails P (open_board k b s).0
  unfolding open_board
  open_board-Fails b s =
      open_found-Fails b (copy_service_for_board k b s).0 (copy_service_for_board k b s).1

  -- `connection_for_board` fails with one of the three errors of the broker.
  pub connection_for_board-Fails : (z : ℤ) (s : Server W) → Fails P (connection_for_board k z s).0
  unfolding Fails connection_for_board cached
  connection_for_board-Fails (negsuc n) s = bad
  connection_for_board-Fails (pos b) s = elim (Bool-cases (leb max_boards b)) [
    | inl outside ↦ rw outside bad
    | inr inside ↦ elim (Bool-cases (get_or s.conns b 0 == 0)) [
      | inl empty ↦ rw (inside, empty) (open_board-Fails b s)
      | inr there ↦ rw (inside, there) tt
    ]
  ]

module _ {W : Type 0} (k : IoKit W) (r : Request) where
  pub drop_if_dead-result : (last : Called) (s : Server W) → (drop_if_dead k r last s).0 ≡ last
  unfolding drop_if_dead
  drop_if_dead-result last s = elim (Bool-cases (connection_is_dead k last.kr)) [
    | inl dead ↦ rw dead refl
    | inr alive ↦ rw alive refl
  ]

  module _ (P : Called → Type 0)
      (told : (conn : ℕ) (s : Server W) → P (ask_driver k r conn s).0) where
    ask_again-keeps :
        (first : Called) (c : Resolved) (s : Server W) → P first → P (ask_again k r first c s).0
    unfolding ask_again
    ask_again-keeps first (failed code) s before = before
    ask_again-keeps first (connected conn) s before = told conn s

    -- What holds of the first result and of each further one holds of the last.
    pub retry_stale-keeps :
        (first : Called) (s : Server W) → P first → P (retry_stale k r first s).0
    unfolding retry_stale
    retry_stale-keeps first s before = elim (Bool-cases (connection_is_dead k first.kr)) [
      | inl dead ↦
          let dropped = (drop_board k (board_of r) s).1 in
          let (c, t) = connection_for_board k (board_of r) dropped in
          let (last, u) = ask_again k r first c t in
          rw (dead, drop_if_dead-result last u) (ask_again-keeps first c t before)
      | inr alive ↦ rw alive before
    ]

module _ {W : Type 0} (k : IoKit W) (r : Request) (bounded : Bounded k) where
  pub ask_driver-Fits : (conn : ℕ) (s : Server W) → Fits r (ask_driver k r conn s).0
  unfolding ask_driver
  ask_driver-Fits conn s = (
    bounded.written_fits conn (r.op % 2 ^ 32) r.cap r.input s.world,
    bounded.size_fits conn (r.op % 2 ^ 32) r.cap r.input s.world,
  )

  pub retry_stale-Fits :
      (first : Called) (s : Server W) → Fits r first → Fits r (retry_stale k r first s).0
  retry_stale-Fits = retry_stale-keeps k r (Fits r) ask_driver-Fits

  exchange_size :
      (conn : ℕ) (s : Server W) (out : List ℕ)
      → (exchange k r conn s).0.output ≡ some out
      → length out ≤ r.cap
  unfolding exchange reply_of
  exchange_size conn s out e =
      let (first, t) = ask_driver k r conn s in
      let (last, u) = retry_stale k r first t in
      let fits : Fits r last = retry_stale-Fits first t (ask_driver-Fits conn s) in
      ground (arith, fits, length-take last.size (buffer r.cap last.written))

  on_board_size :
      (c : Resolved) (s : Server W) (out : List ℕ)
      → (on_board k r c s).0.output ≡ some out
      → length out ≤ r.cap
  unfolding on_board
  on_board_size (failed code) s out e = absurd (cc)
  on_board_size (connected conn) s out e =
      ground (arith, exchange_size conn (output_buffer k r s).1 out)

  -- Where a call of the driver writes no more than the output buffer holds and counts no more than
  -- that: what a reply carries is no longer than the client asked for, and never longer than 1 MiB,
  -- but for the list of the boards, which always has its 1092 bytes.
  handle_request_size :
      (s : Server W) (out : List ℕ)
      → (handle_request k r s).0.output ≡ some out
      → (length out ≤ (if r.op == op_list_boards then 1092 else r.cap)) × (length out ≤ max_out)
  unfolding handle_request list_boards
  handle_request_size s out e = ground (
    arith,
    length-board_list (enumerate_boards k s).0,
    length-enumerate_boards k s,
    on_board_size (connection_for_board k (board_of r) s).0
        (connection_for_board k (board_of r) s).1 out,
  )
