-- ===== src/Board/Table/Opening.antt =====
-- GPIBBoard.cpp, `openDescriptor` and `closeDescriptor`, as operations on a finite map from handles
-- to descriptors.
use darwin_gpib.Prelude.{
  ℕ, ◌≤◌, ◌<◌, ◌≡◌, ◌≢◌, ◌⊎◌, inl, inr, refl, sym, ◌∙◌, arith, Bool, none, some, Option-cases,
}
use darwin_gpib.Prelude.Int.{ℤ, pos, negsuc, ℤ-discrete}
use darwin_gpib.Gpib.Sta
use darwin_gpib.Gpib.Iberr
use darwin_gpib.Board.{Board, Descriptor, max_descriptors}
use darwin_gpib.Board.Table.{
  allocate_handle, in_use, descriptor_for, opened, open_descriptor, close_descriptor, slot, store,
}
use darwin_gpib.Board.Table.Laws.{
  IsValid, allocate_handle-some, allocate_handle-none, descriptor_for-slot, in_use-none, fresh,
  filled, descriptor_for-store_self, descriptor_for-store_ne, descriptor_for-some,
  descriptor_for_table, close_descriptor-some,
}

module _ (b : Board) (pad : ℕ) (sad : ℤ) (is_board : Bool) (timeout_us eos_char eos_flags : ℕ)
    (eot : Bool) (v : IsValid b) where
  -- Opening on a valid table, when it answers with a handle that is not negative, hands out a handle in 1..63 that was not in use, files the given
  -- settings under it, and changes what no other handle finds.
  pub descriptor_for-open_descriptor :
      (n : ℕ) (j : ℤ)
      → (open_descriptor b pad sad is_board timeout_us eos_char eos_flags eot).0.handle ≡ pos n
      → let r = open_descriptor b pad sad is_board timeout_us eos_char eos_flags eot in
        (1 ≤ n)
        × (n < max_descriptors)
        × (r.0.sta ≡ Sta.cmpl)
        × (r.0.iberr ≡ 0)
        × (descriptor_for b (pos n) ≡ none)
        × ((j ≡ pos n)
              × (descriptor_for r.1 j
                  ≡ some (fresh pad sad is_board timeout_us eos_char eos_flags eot n))
            ⊎ (j ≢ pos n) × (descriptor_for r.1 j ≡ descriptor_for b j))
  unfolding open_descriptor opened in_use
  descriptor_for-open_descriptor n j e = elim (Option-cases (allocate_handle b)) [
    | inl full ↦ absurd (ground arith)
    | inr (h, room) ↦
        let (lo, inside, free) = allocate_handle-some b h v room in
        let same : n ≡ h = ground arith in
        let absent : descriptor_for b (pos h) ≡ none =
          ground (arith, descriptor_for-slot b h inside) in
        let new = fresh pad sad is_board timeout_us eos_char eos_flags eot h in
        rw (same, room, open_descriptor)
          (lo, inside, refl, refl, absent, filled b h new j v inside refl)
  ]

  -- Opening on a valid table, when it answers with a negative handle, reports ETAB and leaves the board
  -- unchanged, and every handle in 1..63 is in use.
  open_descriptor_full :
      (n m : ℕ)
      → (open_descriptor b pad sad is_board timeout_us eos_char eos_flags eot).0.handle ≡ negsuc m
      → 1 ≤ n
      → n < max_descriptors
      → let r = open_descriptor b pad sad is_board timeout_us eos_char eos_flags eot in
        (descriptor_for b (pos n) ≢ none)
        × (r.0.sta ≡ Sta.err)
        × (r.0.iberr ≡ Iberr.etab)
        × (r.1 ≡ b)
  unfolding open_descriptor
  open_descriptor_full n m e lo hi = elim (Option-cases (allocate_handle b)) [
    | inl full ↦
        let used = allocate_handle-none b n v full lo hi in
        rw (full, open_descriptor)
          (
            λ absent. ground (arith, in_use-none _ (sym (descriptor_for-slot b n hi) ∙ absent)),
            refl,
            refl,
            refl,
          )
    | inr (h, room) ↦ absurd (ground arith)
  ]

module _ (b : Board) (handle j : ℤ) (v : IsValid b) where
  -- On a valid table, closing a handle in use removes it and nothing else; a second close, or any later call with the
  -- handle, finds no descriptor.
  pub descriptor_for-close_descriptor :
      (d : Descriptor)
      → descriptor_for b handle ≡ some d
      → let r = close_descriptor b handle in
        (r.0.sta ≡ Sta.cmpl)
        × (r.0.iberr ≡ 0)
        × ((j ≡ handle) × (descriptor_for r.1 j ≡ none)
            ⊎ (j ≢ handle) × (descriptor_for r.1 j ≡ descriptor_for b j))
  unfolding in_use
  descriptor_for-close_descriptor d e =
      let (_, lo, inside, at) = descriptor_for-some b handle d v e in
      let closed = store b (slot handle) (record d { handle = negsuc 0 }) in
      let found = descriptor_for_table (record closed { ibsta = Sta.cmpl }) closed j refl in
      rw (close_descriptor-some b handle d e, found)
        (
          refl,
          refl,
          elim (ℤ-discrete j handle) [
            | yes same ↦
                inl (same, rw (same ∙ at) (descriptor_for-store_self b (slot handle) _ v inside))
            | no other ↦ inr (
              other,
              descriptor_for-store_ne b (slot handle) _ v inside j (λ p. other (p ∙ sym at)),
            )
          ],
        )
