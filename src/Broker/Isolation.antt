-- ===== src/Broker/Isolation.antt =====
-- gpibd.c, `handle_request`: what a request does to the cached connections of the boards.
use darwin_gpib.Prelude.{
  ℕ, ◌≡◌, ◌≢◌, refl, sym, ap, ◌∙◌, List, Option, length, get_or, set, length-set, get_or-set_ne,
}
use darwin_gpib.Prelude.Int.{ℤ, pos}
use darwin_gpib.Broker.{IoKit, Server, Desc}
use darwin_gpib.Broker.Session.{put_descs}
use darwin_gpib.Broker.Boards.{put_conn}
use darwin_gpib.Broker.Requests.{Request, board_of, handle_request}
use darwin_gpib.Broker.Effects.{Order, Moves, worldly, worldly_ask, handle_request-Moves}

-- Every connection but the board's own is the same.
abbrev pub Apart : ℤ → List ℕ → List ℕ → Type 0
Apart b before after =
    (length after ≡ length before) × ((j : ℕ) → pos j ≢ b → get_or after j 0 ≡ get_or before j 0)

written : (b v : ℕ) (xs : List ℕ) → Apart (pos b) xs (set xs b v)
written b v xs =
    (length-set xs b v, λ j other. get_or-set_ne xs b j v 0 (λ e. other (ap pos (sym e))))

abbrev ConnsApart : {W : Type 0} → ℤ → Server W → Server W → Type 0
ConnsApart b s t = Apart b s.conns t.conns

ConnsApart-Order : {W : Type 0} (b : ℤ) → Order {W = W} (ConnsApart b)
ConnsApart-Order b = record {
  still = λ s. (refl, λ j other. refl);
  chain = λ s t u p q. (q.0 ∙ p.0, λ j other. q.1 j other ∙ p.1 j other);
}

ConnsApart-world :
    {W : Type 0} (b : ℤ) (s : Server W) (w : W) → ConnsApart b s (record s { world = w })
ConnsApart-world b s w = (refl, λ j other. refl)

put_conn-Moves :
    {W : Type 0} (z : ℤ) (b : ℕ) → z ≡ pos b → (v : ℕ) → Moves {W = W} (ConnsApart z) (put_conn b v)
unfolding put_conn
put_conn-Moves z b at v = rw at (record { run = λ s. written b v s.conns })

put_descs-Moves :
    {W : Type 0} (z : ℤ) (ds : Option (List Desc)) → Moves {W = W} (ConnsApart z) (put_descs ds)
unfolding put_descs
put_descs-Moves z ds = record { run = λ s. (refl, λ j other. refl) }

-- Whatever the request and whatever IOKit answers, the cached connection of every board other than
-- the request's own is the same afterwards, and so is the number of slots.
pub handle_request-Apart :
    {W : Type 0} (k : IoKit W) (r : Request) (s : Server W)
    → Apart (board_of r) s.conns (handle_request k r s).1.conns
handle_request-Apart k r s =
    let b = board_of r in
    (handle_request-Moves (ConnsApart-Order b) k (worldly k (ConnsApart-world b)) r
        (put_conn-Moves b) (worldly_ask k r (ConnsApart-world b)) (put_descs-Moves b)).run
      s
