-- ===== src/Board/Table/Laws.antt =====
-- The descriptor table of GPIBBoard.cpp: its invariant, and reading a slot after a write.
use darwin_gpib.Prelude.{
  ℕ, zero, suc, ◌+◌, ◌-◌, ◌≤◌, ◌<◌, ◌≡◌, ◌≢◌, ◌⊎◌, inl, inr, refl, sym, ap, arith, Bool, true,
  false, List, [], ◌∷◌, none, some, if◌then◌else◌, length, get_or, set, drop, length-set,
  get_or-set_self, get_or-set_ne, Bool-cases,
}
use darwin_gpib.Prelude.Int.{ℤ, pos, negsuc, is_neg, ℤ-discrete}
use darwin_gpib.Gpib.Sta
use darwin_gpib.Board.{Board, Descriptor, max_descriptors, blank}
use darwin_gpib.Board.Table.{
  free_slot, allocate_handle, in_use, descriptor_for, close_descriptor, slot, store, answer,
}

-- From index `i` on, a slot is free or holds its own index, which is not 0.
abbrev pub Handles : ℕ → List Descriptor → Type 0
Handles i [] = Unit {0}
Handles i (d ∷ ds) =
    ((is_neg d.handle ≡ true) ⊎ ((d.handle ≡ pos i) × (1 ≤ i))) × Handles (i + 1) ds

-- The table has its 64 slots, each slot in use knows its own index, and slot 0 is free.
pub record IsValid (b : Board) : Type 0 where
  pub size : length b.descriptors ≡ max_descriptors
  pub handles : Handles 0 b.descriptors

Handles-set :
    (i h : ℕ) (ds : List Descriptor) (d : Descriptor)
    → (is_neg d.handle ≡ true) ⊎ ((d.handle ≡ pos (i + h)) × (1 ≤ i + h))
    → Handles i ds
    → Handles i (set ds h d)
Handles-set i h [] d new v = v
Handles-set i zero (x ∷ ds) d new v = ground arith
Handles-set i (suc h) (x ∷ ds) d new v = (v.0, Handles-set (i + 1) h ds d (ground arith) v.1)

free_slot-some :
    (i h : ℕ) (ds : List Descriptor)
    → free_slot i ds ≡ some h
    → (k : ℕ) × (h ≡ i + k) × (k < length ds) × (is_neg (get_or ds k blank).handle ≡ true)
unfolding free_slot
free_slot-some i h [] e = absurd (cc)
free_slot-some i h (d ∷ ds) e = elim (Bool-cases (is_neg d.handle)) [
  | inl neg ↦ (0, ground arith, omega arith, neg)
  | inr used ↦
      let (k, at, inside, neg) = free_slot-some (i + 1) h ds (ground arith) in
      (suc k, omega arith, omega arith, neg)
]

free_slot-none :
    (i k : ℕ) (ds : List Descriptor)
    → free_slot i ds ≡ none
    → k < length ds
    → is_neg (get_or ds k blank).handle ≡ false
unfolding free_slot
free_slot-none i k [] e h = elim h [ ]
free_slot-none i zero (d ∷ ds) e h = ground arith
free_slot-none i (suc k) (d ∷ ds) e h = ground (arith, free_slot-none (i + 1) k ds)

get_or-drop : (ds : List Descriptor) (k : ℕ) → get_or (drop 1 ds) k blank ≡ get_or ds (suc k) blank
get_or-drop [] k = refl
get_or-drop (d ∷ ds) k = refl

length-drop_one : (ds : List Descriptor) → length (drop 1 ds) ≡ length ds - 1
length-drop_one [] = refl
length-drop_one (d ∷ ds) = omega arith

-- A handle is handed out for a free slot of the table, never for slot 0.
pub allocate_handle-some :
    (b : Board) (h : ℕ)
    → IsValid b
    → allocate_handle b ≡ some h
    → (1 ≤ h) × (h < max_descriptors) × (is_neg (get_or b.descriptors h blank).handle ≡ true)
unfolding allocate_handle
allocate_handle-some b h v e =
    let (k, at, inside, neg) = free_slot-some 1 h (drop 1 b.descriptors) e in
    (
      omega arith,
      omega (arith, length-drop_one b.descriptors),
      ground (arith, get_or-drop b.descriptors k),
    )

-- No handle is handed out only if every slot but slot 0 is in use.
pub allocate_handle-none :
    (b : Board) (n : ℕ)
    → IsValid b
    → allocate_handle b ≡ none
    → 1 ≤ n
    → n < max_descriptors
    → is_neg (get_or b.descriptors n blank).handle ≡ false
unfolding allocate_handle
allocate_handle-none b zero v e lo hi = absurd (omega arith)
allocate_handle-none b (suc k) v e lo hi = ground (
  arith,
  get_or-drop b.descriptors k,
  free_slot-none 1 k (drop 1 b.descriptors) e (omega (arith, length-drop_one b.descriptors)),
)

pub descriptor_for-slot :
    (b : Board) (n : ℕ)
    → n < max_descriptors
    → descriptor_for b (pos n) ≡ in_use (get_or b.descriptors n blank)
unfolding descriptor_for
descriptor_for-slot b n h = ground arith

module _ (b : Board) (h : ℕ) (d : Descriptor) (v : IsValid b) (inside : h < max_descriptors) where
  -- Reading the table after a write of a slot.
  pub descriptor_for-store_self : descriptor_for (store b h d) (pos h) ≡ in_use d
  unfolding descriptor_for
  descriptor_for-store_self = ground (arith, get_or-set_self b.descriptors h d blank (omega arith))

  pub descriptor_for-store_ne :
      (j : ℤ) → j ≢ pos h → descriptor_for (store b h d) j ≡ descriptor_for b j
  unfolding descriptor_for
  descriptor_for-store_ne (negsuc n) ne = refl
  descriptor_for-store_ne (pos n) ne =
      ground (arith, get_or-set_ne b.descriptors h n d blank (λ e. ne (ap pos (sym e))))

pub in_use-none : (d : Descriptor) → in_use d ≡ none → is_neg d.handle ≡ true
unfolding in_use
in_use-none d e = ground arith

-- The descriptor that `openDescriptor` files under handle `h`.
abbrev pub fresh : ℕ → ℤ → Bool → ℕ → ℕ → ℕ → Bool → ℕ → Descriptor
fresh pad sad is_board timeout_us eos_char eos_flags eot h = record {
  handle = pos h;
  is_board = if is_board then 1 else 0;
  pad = pad;
  sad = sad;
  eot = if eot then 1 else 0;
  eos_char = eos_char;
  eos_flags = eos_flags;
  timeout_us = timeout_us;
}

pub store-IsValid :
    (b : Board) (h : ℕ) (d : Descriptor)
    → IsValid b
    → (is_neg d.handle ≡ true) ⊎ ((d.handle ≡ pos h) × (1 ≤ h))
    → IsValid (store b h d)
store-IsValid b h d v new = record {
  size = omega (arith, length-set b.descriptors h d, v.size);
  handles = Handles-set 0 h b.descriptors d (ground arith) v.handles;
}

-- The handle of a slot just filled is found, and every other handle is found as before.
pub filled :
    (b : Board) (h : ℕ) (d : Descriptor) (j : ℤ)
    → IsValid b
    → h < max_descriptors
    → d.handle ≡ pos h
    → ((j ≡ pos h) × (descriptor_for (store b h d) j ≡ some d))
      ⊎ ((j ≢ pos h) × (descriptor_for (store b h d) j ≡ descriptor_for b j))
unfolding in_use
filled b h d j v inside e = elim (ℤ-discrete j (pos h)) [
  | yes same ↦ inl (same, rw (same, descriptor_for-store_self b h d v inside, e))
  | no other ↦ inr (other, descriptor_for-store_ne b h d v inside j other)
]

Handles-get_or :
    (i k : ℕ) (ds : List Descriptor)
    → Handles i ds
    → k < length ds
    → is_neg (get_or ds k blank).handle ≡ false
    → ((get_or ds k blank).handle ≡ pos (i + k)) × (1 ≤ i + k)
Handles-get_or i k [] v h e = elim h [ ]
Handles-get_or i zero (d ∷ ds) v h e = ground arith
Handles-get_or i (suc k) (d ∷ ds) v h e = ground (arith, Handles-get_or (i + 1) k ds v.1)

-- A handle that is found is one of 1..63, and its descriptor carries it.
pub descriptor_for-some :
    (b : Board) (j : ℤ) (d : Descriptor)
    → IsValid b
    → descriptor_for b j ≡ some d
    → (d.handle ≡ j) × (1 ≤ slot j) × (slot j < max_descriptors) × (j ≡ pos (slot j))
unfolding descriptor_for slot in_use
descriptor_for-some b (negsuc n) d v e = absurd (cc)
descriptor_for-some b (pos n) d v e =
    let at = Handles-get_or 0 n b.descriptors v.handles in ground (arith, at)

-- `descriptorFor` reads the table alone.
pub descriptor_for_table :
    (b c : Board) (j : ℤ) → b.descriptors ≡ c.descriptors → descriptor_for b j ≡ descriptor_for c j
unfolding descriptor_for
descriptor_for_table b c (negsuc n) e = refl
descriptor_for_table b c (pos n) e = rw e

pub close_descriptor-some :
    (b : Board) (handle : ℤ) (d : Descriptor)
    → descriptor_for b handle ≡ some d
    → close_descriptor b handle
      ≡ answer (store b (slot handle) (record d { handle = negsuc 0 })) 0 Sta.cmpl
unfolding close_descriptor
close_descriptor-some b handle d e = rw (e, close_descriptor)
