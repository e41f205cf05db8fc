-- ===== src/Broker/Ownership.antt =====
-- gpibd.c: the descriptors of a session and what its client was told.
use darwin_gpib.Prelude.{
  ℕ, ◌≡◌, ◌≢◌, refl, ◌∙◌, inl, inr, arith, false, List, some, ◌==◌, ltb, Bool-cases,
}
use darwin_gpib.Prelude.Int.{pos}
use darwin_gpib.Broker.{
  IoKit, Server, Desc, max_out, op_probe, op_list_boards, sel_open_descriptor, sel_close_descriptor,
  err_bad_request,
}
use darwin_gpib.Broker.Session.{same_int}
use darwin_gpib.Broker.Boards.{Resolved, connected, failed, connection_for_board, put_conn}
use darwin_gpib.Broker.Requests.{
  Request, Reply, bare, board_of, ask_driver, retry_stale, exchange, output_buffer, on_board,
  handle_request, list_boards,
}
use darwin_gpib.Broker.Effects.{
  Order, Moves, Calls, worldly, worldly_ask, retry_stale-Moves, list_boards-Moves, connection_here,
  output_buffer-Moves,
}
use darwin_gpib.Broker.Replies.{
  Fails, connection_for_board-Fails, Bounded, Fits, ask_driver-Fits, retry_stale-Fits,
}
use darwin_gpib.Broker.Told.{Roomy, is_ok, told, track_descs}

-- The list of the session stays as it is.
abbrev Untouched : {W : Type 0} → Server W → Server W → Type 0
Untouched s t = t.descs ≡ s.descs

Untouched-Order : {W : Type 0} → Order {W = W} Untouched
Untouched-Order = record { still = λ s. refl; chain = λ s t u p q. q ∙ p }

bad_request_refused : is_ok err_bad_request ≡ false
unfolding is_ok same_int
bad_request_refused = refl

told_refused : (r : Request) (a : Reply) (ds : List Desc) → is_ok a.code ≡ false → told r a ds ≡ ds
unfolding told
told_refused r a ds e = rw e refl

told_other :
    (r : Request) (a : Reply) (ds : List Desc)
    → r.op ≢ sel_open_descriptor
    → r.op ≢ sel_close_descriptor
    → told r a ds ≡ ds
unfolding told
told_other r a ds open_not close_not = ground arith

module _ {W : Type 0} (k : IoKit W) (r : Request) (bounded : Bounded k) (roomy : Roomy k) where
  put_conn-Untouched :
      (b : ℕ) → board_of r ≡ pos b → (v : ℕ) → Moves {W = W} Untouched (put_conn b v)
  unfolding put_conn
  put_conn-Untouched b at v = record { run = λ s. refl }

  Calls-Untouched : Calls Untouched k
  Calls-Untouched = worldly k (λ s w. refl)

  exchange_descs :
      (conn : ℕ) (ds : List Desc) (s : Server W)
      → s.descs ≡ some ds
      → (exchange k r conn s).1.descs ≡ some (told r (exchange k r conn s).0 ds)
  unfolding exchange ask_driver
  exchange_descs conn ds s had =
      let (first, t) = ask_driver k r conn s in
      let (last, u) = retry_stale k r first t in
      let fits : Fits r last =
        retry_stale-Fits k r bounded first t (ask_driver-Fits k r bounded conn s) in
      track_descs k r roomy last ds u fits.0 fits.1 (
        (retry_stale-Moves Untouched-Order k Calls-Untouched r put_conn-Untouched
            (worldly_ask k r (λ s w. refl)) first).run
          t
        ∙ had)

  connection-Refused :
      (s : Server W) → Fails (λ code. is_ok code ≡ false) (connection_for_board k (board_of r) s).0
  unfolding is_ok same_int
  connection-Refused = connection_for_board-Fails k _ refl refl refl (board_of r)

  on_board_descs :
      (c : Resolved) (ds : List Desc) (s : Server W)
      → Fails (λ code. is_ok code ≡ false) c
      → s.descs ≡ some ds
      → (on_board k r c s).1.descs ≡ some (told r (on_board k r c s).0 ds)
  unfolding on_board Fails
  on_board_descs (failed code) ds s refused had = rw (told_refused r (bare code) ds refused) had
  on_board_descs (connected conn) ds s refused had =
      let (ready, t) = output_buffer k r s in
      let kept : t.descs ≡ some ds =
        (output_buffer-Moves Untouched-Order k Calls-Untouched r put_conn-Untouched).run s ∙ had in
      elim (Bool-cases (r.op == op_probe)) [
        | inl probe ↦ rw (probe, told_other r (bare (pos 0)) ds (ground arith) (ground arith)) had
        | inr other ↦ elim (Bool-cases ready) [
          | inl yes_ready ↦ rw (other, yes_ready) (exchange_descs conn ds t kept)
          | inr not_ready ↦
              rw (other, not_ready, told_refused r (bare err_bad_request) ds bad_request_refused)
                kept
        ]
      ]

  -- Where a call of the driver writes no more than the output buffer holds and counts no more than
  -- that, and memory is to be had: for every request of a client that has a session, whatever the
  -- driver answers and whether the call is made once or twice, the session's descriptors are
  -- afterwards those that the client can work out from its own request and the reply: a reported
  -- open adds the descriptor, a reported close for which output was asked removes it, and nothing
  -- else changes them.
  pub handle_request-told :
      (ds : List Desc) (s : Server W)
      → s.descs ≡ some ds
      → (handle_request k r s).1.descs ≡ some (told r (handle_request k r s).0 ds)
  unfolding handle_request
  handle_request-told ds s had = elim (Bool-cases (ltb max_out r.cap)) [
    | inl large ↦ rw (large, told_refused r (bare err_bad_request) ds bad_request_refused) had
    | inr fits ↦ elim (Bool-cases (r.op == op_list_boards)) [
      | inl listing ↦
          rw (fits, listing, told_other r (list_boards k r s).0 ds (ground arith) (ground arith))
            ((list_boards-Moves Untouched-Order k Calls-Untouched r put_conn-Untouched).run s ∙ had)
      | inr other ↦
          let (c, t) = connection_for_board k (board_of r) s in
          rw (fits, other)
            (on_board_descs c ds t (connection-Refused s) (
              (connection_here Untouched-Order k Calls-Untouched r put_conn-Untouched).run s ∙ had))
    ]
  ]
