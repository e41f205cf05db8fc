-- ===== src/Broker/Stale.antt =====
-- gpibd.c, `handle_request`: a connection whose port is gone does not stay in the cache.
use darwin_gpib.Prelude.{
  ℕ, zero, suc, ◌%◌, ◌^◌, ◌<◌, ◌≡◌, ◌≢◌, refl, sym, ap, ◌∙◌, inl, inr, arith, subst, true, List, [],
  ◌∷◌, Option, get_or, set, Bool-cases,
}
use darwin_gpib.Prelude.Int.{pos}
use darwin_gpib.UserClient.{i32_of}
use darwin_gpib.Broker.{
  IoKit, Server, Called, Desc, max_boards, err_bad_request, err_no_board, err_open_failed,
}
use darwin_gpib.Broker.Session.{put_descs}
use darwin_gpib.Broker.Boards.{
  Resolved, connected, failed, cached, put_conn, connection_for_board, connection_is_dead,
  drop_board,
}
use darwin_gpib.Broker.Requests.{
  Request, board_of, ask_driver, ask_again, drop_if_dead, retry_stale, track, exchange, reply_of,
  output_buffer, on_board, handle_request, list_boards,
}
use darwin_gpib.Broker.Replies.{
  Fails, connection_for_board-Fails, retry_stale-keeps, drop_if_dead-result,
}
use darwin_gpib.Broker.Effects.{Order, Moves, worldly, track-Moves}

-- The codes of a kernel call take 32 bits, and those that say that a port is gone are neither success
-- nor errors of the broker.
pub record Codes {W : Type 0} (k : IoKit W) : Type 0 where
  pub words :
      (conn selector cap : ℕ) (input : Option (List ℕ)) (w : W)
      → (k.call_struct conn selector input cap w).0.kr < 2 ^ 32
  pub dead_words : (e : ℕ) → connection_is_dead k e ≡ true → e < 2 ^ 32
  pub dead-ne-success : (e : ℕ) → connection_is_dead k e ≡ true → i32_of e ≢ pos 0
  pub dead-ne-bad_request : (e : ℕ) → connection_is_dead k e ≡ true → i32_of e ≢ err_bad_request
  pub dead-ne-no_board : (e : ℕ) → connection_is_dead k e ≡ true → i32_of e ≢ err_no_board
  pub dead-ne-open_failed : (e : ℕ) → connection_is_dead k e ≡ true → i32_of e ≢ err_open_failed

i32_of-inj : (a b : ℕ) → a < 2 ^ 32 → b < 2 ^ 32 → i32_of a ≡ i32_of b → a ≡ b
unfolding i32_of
i32_of-inj a b small_a small_b e = ground arith

get_or-set_zero : (xs : List ℕ) (b : ℕ) → get_or (set xs b 0) b 0 ≡ 0
get_or-set_zero [] b = refl
get_or-set_zero (x ∷ xs) zero = refl
get_or-set_zero (x ∷ xs) (suc b) = get_or-set_zero xs b

-- The cached connections stay as they are.
abbrev SameConns : {W : Type 0} → Server W → Server W → Type 0
SameConns s t = t.conns ≡ s.conns

module _ {W : Type 0} (k : IoKit W) (r : Request) where
  conns-Order : Order {W = W} SameConns
  conns-Order = record { still = λ s. refl; chain = λ s t u p q. q ∙ p }

  put_descs-conns : (ds : Option (List Desc)) → Moves {W = W} SameConns (put_descs ds)
  unfolding put_descs
  put_descs-conns ds = record { run = λ s. refl }

  track_conns : (c : Called) (s : Server W) → (track k r c s).1.conns ≡ s.conns
  track_conns c s = (track-Moves conns-Order k (worldly k (λ s w. refl)) r put_descs-conns c).run s

  ask_driver_word :
      (codes : Codes k) (conn : ℕ) (s : Server W) → (ask_driver k r conn s).0.kr < 2 ^ 32
  unfolding ask_driver
  ask_driver_word codes conn s = codes.words conn (r.op % 2 ^ 32) r.cap r.input s.world

  retry_stale_word :
      (codes : Codes k) (first : Called) (s : Server W)
      → first.kr < 2 ^ 32
      → (retry_stale k r first s).0.kr < 2 ^ 32
  retry_stale_word codes = retry_stale-keeps k r (λ c. c.kr < 2 ^ 32) (ask_driver_word codes)

module _ {W : Type 0} (k : IoKit W) (r : Request) (b : ℕ) (here : board_of r ≡ pos b)
    (inside : b < max_boards) where
  abbrev Cleared : Server W → Type 0
  Cleared s = get_or s.conns b 0 ≡ 0

  drop_board_clears : (s : Server W) → Cleared (drop_board k (board_of r) s).1
  unfolding drop_board cached put_conn
  drop_board_clears s = rw here (ground (arith, get_or-set_zero s.conns b))

  drop_if_dead_clears :
      (last : Called) (s : Server W)
      → connection_is_dead k (drop_if_dead k r last s).0.kr ≡ true
      → Cleared (drop_if_dead k r last s).1
  unfolding drop_if_dead
  drop_if_dead_clears last s dead = elim (Bool-cases (connection_is_dead k last.kr)) [
    | inl gone ↦ rw gone (drop_board_clears s)
    | inr alive ↦
        absurd
          (cc (ap (λ (c : Called). connection_is_dead k c.kr) (drop_if_dead-result k r last s)))
  ]

  retry_stale_clears :
      (first : Called) (s : Server W)
      → connection_is_dead k (retry_stale k r first s).0.kr ≡ true
      → Cleared (retry_stale k r first s).1
  unfolding retry_stale
  retry_stale_clears first s dead = elim (Bool-cases (connection_is_dead k first.kr)) [
    | inl gone ↦
        let dropped = (drop_board k (board_of r) s).1 in
        let (c, t) = connection_for_board k (board_of r) dropped in
        let (last, u) = ask_again k r first c t in
        let same : retry_stale k r first s ≡ drop_if_dead k r last u = rw gone refl in
        subst (λ p. Cleared p.1) (sym same)
          (drop_if_dead_clears last u (ap (λ p. connection_is_dead k p.0.kr) (sym same) ∙ dead))
    | inr alive ↦
        let same : retry_stale k r first s ≡ (first, s) = rw alive refl in
        absurd (cc (ap (λ p. connection_is_dead k p.0.kr) same))
  ]

  track_clears : (c : Called) (s : Server W) → Cleared s → Cleared (track k r c s).1
  track_clears c s cleared =
      subst (λ conns. get_or conns b 0 ≡ 0) (sym (track_conns k r c s)) cleared

  exchange_clears :
      (codes : Codes k) (conn e : ℕ) (s : Server W)
      → connection_is_dead k e ≡ true
      → (exchange k r conn s).0.code ≡ i32_of e
      → Cleared (exchange k r conn s).1
  unfolding exchange reply_of
  exchange_clears codes conn e s dead told =
      let (first, t) = ask_driver k r conn s in
      let (last, u) = retry_stale k r first t in
      let same : last.kr ≡ e =
        i32_of-inj last.kr e (retry_stale_word k r codes first t (ask_driver_word k r codes conn s))
          (codes.dead_words e dead) told in
      track_clears last u (retry_stale_clears first t (ap (connection_is_dead k) same ∙ dead))

  on_board_clears :
      (codes : Codes k) (c : Resolved) (e : ℕ) (s : Server W)
      → connection_is_dead k e ≡ true
      → Fails (λ code. code ≢ i32_of e) c
      → (on_board k r c s).0.code ≡ i32_of e
      → Cleared (on_board k r c s).1
  unfolding on_board Fails
  on_board_clears codes (failed code) e s dead foreign told = absurd (foreign told)
  on_board_clears codes (connected conn) e s dead foreign told =
      let (had, t) = output_buffer k r s in
      ground (
        arith,
        exchange_clears codes conn e t dead,
        codes.dead-ne-success e dead,
        codes.dead-ne-bad_request e dead,
      )

  -- Where IOKit's codes take 32 bits and those of a port that is gone are neither success nor errors
  -- of the broker, for a request for a board from 0 to 15: if the reply's code says that the port is
  -- gone, after the one retry, then no connection of that board is left in the cache, so that the
  -- next request opens it anew.
  pub handle_request_clears :
      (codes : Codes k) (e : ℕ) (s : Server W)
      → connection_is_dead k e ≡ true
      → (handle_request k r s).0.code ≡ i32_of e
      → Cleared (handle_request k r s).1
  unfolding handle_request list_boards
  handle_request_clears codes e s dead told =
      let (c, t) = connection_for_board k (board_of r) s in
      let foreign : Fails (λ code. code ≢ i32_of e) c =
        connection_for_board-Fails k _ (λ h. codes.dead-ne-bad_request e dead (sym h))
          (λ h. codes.dead-ne-no_board e dead (sym h))
          (λ h. codes.dead-ne-open_failed e dead (sym h)) (board_of r) s in
      ground (
        arith,
        on_board_clears codes c e t dead foreign,
        codes.dead-ne-success e dead,
        codes.dead-ne-bad_request e dead,
      )
