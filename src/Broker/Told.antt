-- ===== src/Broker/Told.antt =====
-- gpibd.c: what a client can work out about its descriptors from a request and its reply, and the
-- bookkeeping of the session.
use darwin_gpib.Prelude.{
  ℕ, ◌≤◌, ◌<◌, ◌≡◌, refl, ap, ◌∙◌, inl, inr, arith, zero, suc, Bool, true, false, not, ◌&&◌, List,
  [], ◌∷◌, Option, none, some, ◌==◌, leb, if◌then◌else◌, length, get_or, take, length-take,
  Bool-cases,
}
use darwin_gpib.Prelude.Int.{ℤ, pos, is_neg}
use darwin_gpib.UserClient.{i32_of, int_word, word}
use darwin_gpib.Broker.{
  IoKit, Server, Called, Desc, buffer, sel_open_descriptor, sel_close_descriptor,
}
use darwin_gpib.Broker.Session.{
  session_add_desc, session_forget_desc, put_descs, get_descs, add_to, forget_in, without, same_int,
}
use darwin_gpib.Broker.Requests.{Request, Reply, board_of, track_open, track_close, track, reply_of}
use darwin_gpib.Broker.Replies.{length-buffer}

-- Memory is to be had.
abbrev pub Roomy : {W : Type 0} → IoKit W → Type 0
Roomy {W} k = (n : ℕ) (w : W) → (k.allocate n w).0 ≡ true

-- What a client may conclude from its request and the reply: the descriptors it has, given those
-- that it had. A close counts only where output was asked for.
unfoldable pub opened_by : ℤ → List ℕ → List Desc → List Desc
opened_by board out ds =
    if leb 16 (length out) && not (is_neg (int_word out 0))
    then record { board = board; handle = int_word out 0 } ∷ ds
    else ds

unfoldable pub closed_by : ℤ → Option (List ℕ) → List Desc → List Desc
closed_by board none ds = ds
closed_by board (some bytes) ds =
    if leb 8 (length bytes) then without board (int_word bytes 0) ds else ds

unfoldable pub is_ok : ℤ → Bool
is_ok code = same_int code (pos 0)

unfoldable pub after_open : Request → Option (List ℕ) → List Desc → List Desc
after_open r none ds = ds
after_open r (some out) ds = opened_by (board_of r) out ds

unfoldable pub told : Request → Reply → List Desc → List Desc
told r a ds =
    if is_ok a.code && not (r.cap == 0)
    then (if r.op == sel_open_descriptor
        then after_open r a.output ds
        else if r.op == sel_close_descriptor
        then closed_by (board_of r) r.input ds
        else ds)
    else ds

is_ok-i32_of : (kr : ℕ) → is_ok (i32_of kr) ≡ (kr == 0)
unfolding is_ok same_int i32_of
is_ok-i32_of kr = ground arith

get_or-take : (n i : ℕ) (xs : List ℕ) → i < n → get_or (take n xs) i 0 ≡ get_or xs i 0
get_or-take zero i xs h = absurd (omega arith)
get_or-take (suc n) i [] h = refl
get_or-take (suc n) zero (x ∷ xs) h = refl
get_or-take (suc n) (suc i) (x ∷ xs) h = get_or-take n i xs (omega arith)

int_word-take : (n : ℕ) (xs : List ℕ) → 4 ≤ n → int_word (take n xs) 0 ≡ int_word xs 0
unfolding int_word word
int_word-take n xs h = simp (
  get_or-take n 0 xs (omega arith),
  get_or-take n 1 xs (omega arith),
  get_or-take n 2 xs (omega arith),
  get_or-take n 3 xs (omega arith),
)

opened_by-take :
    (board : ℤ) (n : ℕ) (xs : List ℕ) (ds : List Desc)
    → 16 ≤ n
    → n ≤ length xs
    → opened_by board (take n xs) ds ≡ (
        if is_neg (int_word xs 0)
        then ds
        else record { board = board; handle = int_word xs 0 } ∷ ds)
unfolding opened_by
opened_by-take board n xs ds large within =
    rw (int_word-take n xs (omega arith), length-take n xs) (ground arith)

opened_by-short :
    (board : ℤ) (n : ℕ) (xs : List ℕ) (ds : List Desc)
    → n < 16
    → opened_by board (take n xs) ds ≡ ds
unfolding opened_by
opened_by-short board n xs ds short = rw (length-take n xs) (ground arith)

abbrev out_of : Request → Called → List ℕ
out_of r c = take c.size (buffer r.cap c.written)

module _ {W : Type 0} (k : IoKit W) (r : Request) (roomy : Roomy k) where
  add_to_descs :
      (board handle : ℤ) (ds : List Desc) (s : Server W)
      → is_neg handle ≡ false
      → (add_to k board handle (some ds) s).1.descs
        ≡ some (record { board = board; handle = handle } ∷ ds)
  unfolding add_to put_descs
  add_to_descs board handle ds s kept = rw kept (ground (arith, roomy 16 s.world))

  track_open_descs :
      (c : Called) (ds : List Desc) (s : Server W)
      → length c.written ≤ r.cap
      → c.size ≤ r.cap
      → 16 ≤ c.size
      → s.descs ≡ some ds
      → (track_open k r c s).1.descs ≡ some (opened_by (board_of r) (out_of r c) ds)
  unfolding track_open session_add_desc get_descs
  track_open_descs c ds s fits within large had =
      rw
        (opened_by-take (board_of r) c.size (buffer r.cap c.written) ds large
          (omega (arith, length-buffer r.cap c.written fits)))
        (elim (Bool-cases (is_neg (int_word (buffer r.cap c.written) 0))) [
          | inl negative ↦ rw negative had
          | inr kept ↦ rw kept (
              ap (λ o. (add_to k (board_of r) (int_word (buffer r.cap c.written) 0) o s).1.descs)
                had
              ∙ add_to_descs (board_of r) _ ds s kept)
        ])

  track_close_descs :
      (input : Option (List ℕ)) (ds : List Desc) (s : Server W)
      → s.descs ≡ some ds
      → (track_close k r input s).1.descs ≡ some (closed_by (board_of r) input ds)
  unfolding track_close session_forget_desc get_descs forget_in put_descs closed_by
  track_close_descs none ds s had = had
  track_close_descs (some bytes) ds s had = elim (Bool-cases (leb 8 (length bytes))) [
    | inl whole ↦ rw (whole, had) refl
    | inr short ↦ rw short had
  ]

  pub track_descs :
      (c : Called) (ds : List Desc) (s : Server W)
      → length c.written ≤ r.cap
      → c.size ≤ r.cap
      → s.descs ≡ some ds
      → (track k r c s).1.descs ≡ some (told r (reply_of k r c) ds)
  unfolding track told reply_of after_open
  track_descs c ds s fits within had = rw (is_ok-i32_of c.kr) (
      ground (
        arith,
        track_open_descs c ds s,
        track_close_descs r.input ds s,
        opened_by-short (board_of r) c.size (buffer r.cap c.written) ds,
      ))
