-- ===== src/Library/Lists.antt =====
-- libgpib/src/ib_488_2.c: the functions on lists of addresses, and the room they use.
use darwin_gpib.Prelude.{
  ℕ, zero, suc, ◌+◌, ◌*◌, ◌≤◌, ◌≡◌, sym, ◌∙◌, arith, inl, inr, List, [], ◌∷◌, ◌++◌, append_assoc,
  append-nil, none, some, ◌==◌, ltb, All, All-append, length, length-append, Bool-cases,
}
use darwin_gpib.Prelude.Int.{ℤ, pos}
use darwin_gpib.Gpib.Cmd
use darwin_gpib.Library.{Lib, Agent}
use darwin_gpib.Library.Traditional.{ibln}
use darwin_gpib.Library.Helpers.{
  listed, get_pad, get_sad, listen_bytes, setup_bytes, listeners, find_lstn, no_addr,
}

-- The bytes that make each of the addresses a listener.
abbrev pub all_listen : List ℕ → List ℕ
all_listen [] = []
all_listen (a ∷ more) = listen_bytes a ++ all_listen more

length-listen_bytes : (a : ℕ) → length (listen_bytes a) ≤ 2
length-listen_bytes a = ground arith

setup_bytes_fits :
    (cmd addresses : List ℕ) → length cmd ≤ 31 → length (setup_bytes cmd addresses) ≤ 31
unfolding setup_bytes
setup_bytes_fits cmd [] room = room
setup_bytes_fits cmd (a ∷ more) room = elim (Bool-cases (ltb (length cmd) 30)) [
  | inl space ↦ rw space (
      setup_bytes_fits (cmd ++ listen_bytes a) more
        (ground (arith, length-append cmd (listen_bytes a), length-listen_bytes a)))
  | inr full ↦ rw full room
]

setup_bytes_all :
    (cmd addresses : List ℕ)
    → length cmd + 2 * length addresses ≤ 31
    → setup_bytes cmd addresses ≡ cmd ++ all_listen addresses
unfolding setup_bytes
setup_bytes_all cmd [] room = sym (append-nil cmd)
setup_bytes_all cmd (a ∷ more) room = elim (Bool-cases (ltb (length cmd) 30)) [
  | inl space ↦ rw space (
      setup_bytes_all (cmd ++ listen_bytes a) more
        (omega (arith, length-append cmd (listen_bytes a), length-listen_bytes a))
      ∙ append_assoc cmd (listen_bytes a) (all_listen more))
  | inr full ↦ absurd (ground arith)
]

-- For up to 15 addresses the command that `SendSetup` builds is UNL and then the listen bytes of each
-- of them; and for any list it stays within its buffer of 32 bytes, with one to spare.
setup_bytes_lem :
    (addresses others : List ℕ)
    → length addresses ≤ 15
    → (setup_bytes (Cmd.unl ∷ []) addresses ≡ Cmd.unl ∷ all_listen addresses)
      × (length (setup_bytes (Cmd.unl ∷ []) others) ≤ 31)
setup_bytes_lem addresses others few = (
  setup_bytes_all (Cmd.unl ∷ []) addresses (omega arith),
  setup_bytes_fits (Cmd.unl ∷ []) others (omega arith),
)

module _ {W : Type 0} (agent : Agent W) (board_desc : ℤ) (P : ℕ → Type 0) where
  listeners_within :
      (room : ℕ) (addresses : List ℕ) (s : Lib W)
      → All P addresses
      → (length (listeners agent board_desc room addresses s).0 ≤ room)
        × All P (listeners agent board_desc room addresses s).0
  unfolding listeners
  listeners_within zero addresses s all = (omega arith, tt)
  listeners_within (suc n) [] s all = (omega arith, tt)
  listeners_within (suc n) (a ∷ more) s all =
      let (r, t) = ibln agent board_desc (pos (get_pad a)) (pos (get_sad a)) s in
      let present : ℕ = elim r.value [ none ↦ 0 | some p ↦ p ] in
      elim (Bool-cases (present == 0)) [
        | inl absent ↦ rw absent (listeners_within (suc n) more t all.1)
        | inr found ↦
            let (few, good) = listeners_within n more t all.1 in
            rw found (omega (arith, few), (all.0, good))
      ]

  -- Whatever the broker answers: `FindLstn` writes no more results than it was given room for, and
  -- each of them is one of the valid addresses asked about, or the end mark.
  find_lstn_within :
      (addresses : List ℕ) (room : ℕ) (s : Lib W)
      → All P (listed addresses)
      → P no_addr
      → (length (find_lstn agent board_desc (some addresses) room s).0 ≤ room)
        × All P (find_lstn agent board_desc (some addresses) room s).0
  unfolding find_lstn
  find_lstn_within addresses room s all mark =
      let found = (listeners agent board_desc room (listed addresses) s).0 in
      let (few, good) = listeners_within room (listed addresses) s all in
      elim (Bool-cases (ltb (length found) room)) [
        | inl space ↦ rw space (
          ground (arith, length-append found (no_addr ∷ [])),
          All-append P found (no_addr ∷ []) good (mark, tt),
        )
        | inr full ↦ rw full (few, good)
      ]
