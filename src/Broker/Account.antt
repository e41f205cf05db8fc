-- ===== src/Broker/Account.antt =====
-- gpibd.c: what a request and its reply make of the descriptors of a session, said without the code of
-- `session_add_desc` and `session_forget_desc`.
use darwin_gpib.Prelude.{
  ℕ, ◌≤◌, ◌≡◌, ◌≢◌, ◌⊎◌, ◌++◌, All, refl, ap, sym, subst, inl, inr, arith, true, false, List, [],
  ◌∷◌, some, leb, length, Bool-cases, Option-cases,
}
use darwin_gpib.Prelude.Int.{ℤ, pos, negsuc, is_neg}
use darwin_gpib.UserClient.{int_word}
use darwin_gpib.Broker.{IoKit, Server, Desc, sel_open_descriptor, sel_close_descriptor}
use darwin_gpib.Broker.Session.{without, same_int, same_desc}
use darwin_gpib.Broker.Requests.{Request, Reply, board_of, handle_request}
use darwin_gpib.Broker.Replies.{Bounded}
use darwin_gpib.Broker.Ownership.{handle_request-told}
use darwin_gpib.Broker.Told.{Roomy, is_ok, told, after_open, opened_by, closed_by}

-- A request by which its client has opened the descriptor `h`: an open for which output was asked, with
-- a reply of success that has room for a handle, which is not negative.
abbrev pub Opens : Request → Reply → ℤ → Type 0
Opens r a h =
    (a.code ≡ pos 0)
    × (r.cap ≢ 0)
    × (r.op ≡ sel_open_descriptor)
    × (is_neg h ≡ false)
    × (out : List ℕ) × (a.output ≡ some out)
    × (16 ≤ length out)
    × (int_word out 0 ≡ h)

-- One by which it has closed the descriptor `h`: a close for which output was asked, with a reply of
-- success, for input that has the handle.
abbrev pub Closes : Request → Reply → ℤ → Type 0
Closes r a h =
    (a.code ≡ pos 0)
    × (r.cap ≢ 0)
    × (r.op ≡ sel_close_descriptor)
    × (input : List ℕ) × (r.input ≡ some input)
    × (8 ≤ length input)
    × (int_word input 0 ≡ h)

-- The list without the latest entry of a descriptor, in place of which there may be none.
abbrev pub Removed : Desc → List Desc → List Desc → Type 0
Removed d ds after =
    (All (λ e. e ≢ d) ds × (after ≡ ds))
    ⊎ ((newer : List Desc) × (older : List Desc) × (ds ≡ newer ++ d ∷ older)
        × (after ≡ newer ++ older)
        × All (λ e. e ≢ d) newer)

-- What a request and its reply make of the descriptors of the client.
abbrev pub Told : Request → Reply → List Desc → List Desc → Type 0
Told r a ds after =
    ((h : ℤ) → Opens r a h → after ≡ record { board = board_of r; handle = h } ∷ ds)
    × ((h : ℤ) → Closes r a h → Removed (record { board = board_of r; handle = h }) ds after)
    × (((h : ℤ) → ¬ Opens r a h) → ((h : ℤ) → ¬ Closes r a h) → after ≡ ds)

same_int-cases : (x y : ℤ) → ((same_int x y ≡ true) × (x ≡ y)) ⊎ ((same_int x y ≡ false) × (x ≢ y))
unfolding same_int
same_int-cases (pos x) (pos y) = ground arith
same_int-cases (negsuc x) (negsuc y) = ground arith
same_int-cases (pos x) (negsuc y) = ground arith
same_int-cases (negsuc x) (pos y) = ground arith

-- The test on an entry tells whether it is the descriptor.
same_desc-cases :
    (board handle : ℤ) (d : Desc)
    → ((same_desc board handle d ≡ true) × (d ≡ record { board = board; handle = handle }))
      ⊎ ((same_desc board handle d ≡ false) × (d ≢ record { board = board; handle = handle }))
unfolding same_desc
same_desc-cases board handle d = elim (same_int-cases d.board board) [
  | inr (e, other) ↦ inr (rw e refl, λ same. other (ap (λ x. x.board) same))
  | inl (e, b) ↦ elim (same_int-cases d.handle handle) [
    | inr (f, other) ↦ inr (rw (e, f) refl, λ same. other (ap (λ x. x.handle) same))
    | inl (f, h) ↦ inl (rw (e, f) refl, ground arith)
  ]
]

without-Removed :
    (board handle : ℤ) (ds : List Desc)
    → Removed (record { board = board; handle = handle }) ds (without board handle ds)
unfolding without
without-Removed board handle [] = inl (tt, refl)
without-Removed board handle (d ∷ ds) = elim (same_desc-cases board handle d) [
  | inl (e, is) ↦ inr ([], ds, ap (λ x. x ∷ ds) is, rw e refl, tt)
  | inr (e, other) ↦ elim (without-Removed board handle ds) [
    | inl (absent, same) ↦ inl ((other, absent), rw (e, same) refl)
    | inr (newer, older, at, after, first) ↦
        inr (d ∷ newer, older, ap (λ l. d ∷ l) at, rw (e, after) refl, (other, first))
  ]
]

told-Opens :
    (r : Request) (a : Reply) (ds : List Desc) (h : ℤ)
    → Opens r a h
    → told r a ds ≡ record { board = board_of r; handle = h } ∷ ds
unfolding told after_open opened_by is_ok same_int
told-Opens r a ds h (code, cap, op, kept, out, had, large, at) = ground arith

told-Closes :
    (r : Request) (a : Reply) (ds : List Desc) (h : ℤ)
    → Closes r a h
    → told r a ds ≡ without (board_of r) h ds
unfolding told closed_by is_ok same_int
told-Closes r a ds h (code, cap, op, input, had, large, at) = ground arith

not_opened :
    (r : Request) (a : Reply) (ds : List Desc)
    → a.code ≡ pos 0
    → ((h : ℤ) → ¬ Opens r a h)
    → r.cap ≢ 0
    → r.op ≡ sel_open_descriptor
    → after_open r a.output ds ≡ ds
unfolding after_open opened_by
not_opened r a ds code no_open cap op = elim (Option-cases a.output) [
  | inl bare ↦ rw bare refl
  | inr (out, had) ↦ elim (Bool-cases (leb 16 (length out))) [
    | inr short ↦ rw (had, short) refl
    | inl large ↦ elim (Bool-cases (is_neg (int_word out 0))) [
      | inl negative ↦ rw (had, large, negative) refl
      | inr kept ↦
          absurd (no_open (int_word out 0) (code, cap, op, kept, out, had, ground arith, refl))
    ]
  ]
]

not_closed :
    (r : Request) (a : Reply) (ds : List Desc)
    → a.code ≡ pos 0
    → ((h : ℤ) → ¬ Closes r a h)
    → r.cap ≢ 0
    → r.op ≡ sel_close_descriptor
    → closed_by (board_of r) r.input ds ≡ ds
unfolding closed_by
not_closed r a ds code no_close cap op = elim (Option-cases r.input) [
  | inl empty ↦ rw empty refl
  | inr (input, had) ↦ elim (Bool-cases (leb 8 (length input))) [
    | inr short ↦ rw (had, short) refl
    | inl large ↦
        absurd (no_close (int_word input 0) (code, cap, op, input, had, ground arith, refl))
  ]
]

told_neither :
    (r : Request) (a : Reply) (ds : List Desc)
    → ((h : ℤ) → ¬ Opens r a h)
    → ((h : ℤ) → ¬ Closes r a h)
    → told r a ds ≡ ds
unfolding told is_ok
told_neither r a ds no_open no_close = elim (same_int-cases a.code (pos 0)) [
  | inr (refused, _) ↦ rw refused refl
  | inl (ok, code) ↦
      rw ok (ground (arith, not_opened r a ds code no_open, not_closed r a ds code no_close))
]

told-Told : (r : Request) (a : Reply) (ds : List Desc) → Told r a ds (told r a ds)
told-Told r a ds = (
  told-Opens r a ds,
  λ h closes.
      subst (Removed (record { board = board_of r; handle = h }) ds)
        (sym (told-Closes r a ds h closes)) (without-Removed (board_of r) h ds),
  told_neither r a ds,
)

-- Where a call of the driver writes no more than the output buffer holds and counts no more than that,
-- and memory is to be had: for every request of a client that has a session, whatever the driver answers
-- and whether the call is made once or twice, the session's list afterwards is the one that the client
-- can work out from its own request and the reply. An open that reported a handle adds that descriptor in
-- front. A reported close for which output was asked takes the latest entry of that handle on that board
-- out, where there is one, and leaves the others in their order. Nothing else changes the list.
pub handle_request-Told :
    {W : Type 0} (k : IoKit W) (r : Request)
    → Bounded k
    → Roomy k
    → (ds : List Desc) (s : Server W) → s.descs ≡ some ds
    → (after : List Desc) × ((handle_request k r s).1.descs ≡ some after)
      × Told r (handle_request k r s).0 ds after
handle_request-Told k r bounded roomy ds s had =
    let a : Reply = (handle_request k r s).0 in
    (told r a ds, handle_request-told k r bounded roomy ds s had, told-Told r a ds)
