-- ===== src/Board/Table/Options.antt =====
-- GPIBBoard.cpp, `configure` and `ask`: what is read back after a setting is written.
use darwin_gpib.Prelude.{
  ℕ, ◌%◌, ◌^◌, ◌<◌, ◌≡◌, ◌≢◌, ◌⊎◌, inl, inr, refl, ap, ◌∙◌, arith, Option, none, some,
  if◌then◌else◌, ◌==◌, Option-cases,
}
use darwin_gpib.Prelude.Bits.{bit_and_1f, bit_and_ff, bit_and_1c00}
use darwin_gpib.Prelude.Int.{ℤ, pos, to_u32, i8_of}
use darwin_gpib.Gpib.Config
use darwin_gpib.Gpib.Sta
use darwin_gpib.Board.{Board, Descriptor}
use darwin_gpib.Board.Table.{
  descriptor_for, configure, configured, ask, asked, set_option, get_option, slot, store, in_use,
}
use darwin_gpib.Board.Table.Laws.{
  IsValid, descriptor_for-some, descriptor_for-store_self, descriptor_for_table,
}

-- `configure` on a handle in use, by what its `switch` makes of the descriptor.
configure_found :
    (b : Board) (handle : ℤ) (key : ℕ) (value : ℤ) (d : Descriptor)
    → descriptor_for b handle ≡ some d
    → configure b handle key value ≡ configured b (slot handle) (set_option d key value)
unfolding configure
configure_found b handle key value d e = rw (e, configure)

ask_found :
    (b : Board) (handle option : ℤ) (d : Descriptor)
    → descriptor_for b handle ≡ some d
    → ask b handle option ≡ asked b (get_option d option)
unfolding ask
ask_found b handle option d e = rw (e, ask)

set_option_handle :
    (d : Descriptor) (key : ℕ) (value : ℤ) (d' : Descriptor)
    → set_option d key value ≡ some d'
    → d'.handle ≡ d.handle
unfolding set_option
set_option_handle d key value d' e = ground arith

configured-handle :
    (b : Board) (handle : ℤ) (key : ℕ) (value : ℤ) (d d' : Descriptor)
    → IsValid b
    → descriptor_for b handle ≡ some d
    → set_option d key value ≡ some d'
    → descriptor_for (configure b handle key value).1 handle ≡ some d'
unfolding configured in_use slot
configured-handle b handle key value d d' v found made =
    let (at, lo, inside, here) = descriptor_for-some b handle d v found in
    let stored = store b (slot handle) d' in
    let keeps : d'.handle ≡ pos (slot handle) = set_option_handle d key value d' made ∙ at ∙ here in
    rw (configure_found b handle key value d found, made)
      (descriptor_for_table (record stored { ibsta = Sta.cmpl }) stored handle refl
        ∙ ap (descriptor_for stored) here
        ∙ descriptor_for-store_self b (slot handle) d' v inside
        ∙ rw (keeps, in_use))

get_option-set_option :
    (d : Descriptor) (key opt : ℕ) (value : ℤ) (d' : Descriptor)
    → set_option d key value ≡ some d'
    → key ≢ opt
    → get_option d' (pos opt) ≡ get_option d (pos opt)
unfolding set_option get_option
get_option-set_option d key opt value d' made ne = ground arith

asked_reply : (b c : Board) (o : Option ℤ) → (asked b o).0 ≡ (asked c o).0
unfolding asked
asked_reply b c none = refl
asked_reply b c (some x) = refl

set_option_eos :
    (d : Descriptor) (key : ℕ) (value : ℤ)
    → (key ≡ Config.eos_rd) ⊎ ((key ≡ Config.eos_wrt) ⊎ (key ≡ Config.eos_cmp))
    → set_option d key value ≡ some (record d { eos_flags = 0 })
unfolding set_option
set_option_eos d key value which = ground (arith, bit_and_1c00 (to_u32 value))

module _ (b : Board) (handle : ℤ) (d : Descriptor) (v : IsValid b)
    (found : descriptor_for b handle ≡ some d) where
  asked_after :
      (key opt : ℕ) (value : ℤ) (d' : Descriptor)
      → set_option d key value ≡ some d'
      → (ask (configure b handle key value).1 handle (pos opt)).0
        ≡ (asked (configure b handle key value).1 (get_option d' (pos opt))).0
  asked_after key opt value d' made =
      ap (λ r. r.0)
        (ask_found (configure b handle key value).1 handle (pos opt) d'
          (configured-handle b handle key value d d' v found made))

  -- On a valid table, for a handle in use and a value in 0..2^31-1, `ask` reads back what `configure` was
  -- given: the low five bits of a primary address, a secondary
  -- address as int8_t, whether EOT is nonzero, the low byte of an end-of-string character.
  ask-configure :
      (n : ℕ)
      → n < 2 ^ 31
      → let read = λ (key : ℕ). (ask (configure b handle key (pos n)).1 handle (pos key)).0.value in
        (read Config.pad ≡ some (pos (n % 32)))
        × (read Config.sad ≡ some (i8_of (n % 256)))
        × (read Config.eot ≡ some (pos (if n == 0 then 0 else 1)))
        × (read Config.eos_char ≡ some (pos (n % 256)))
  unfolding asked get_option set_option
  ask-configure n small = (
    rw (asked_after Config.pad Config.pad (pos n) _ refl, bit_and_1f) (ground arith),
    rw (asked_after Config.sad Config.sad (pos n) _ refl),
    rw (asked_after Config.eot Config.eot (pos n) _ refl) (ground arith),
    rw (asked_after Config.eos_char Config.eos_char (pos n) _ refl, bit_and_ff) (ground arith),
  )

  -- On a valid table, for a handle in use, a `configure` that reports CMPL changes what `ask` answers
  -- for its own option only.
  ask-configure_ne :
      (key opt : ℕ) (value : ℤ)
      → (configure b handle key value).0.sta ≡ Sta.cmpl
      → key ≢ opt
      → (ask (configure b handle key value).1 handle (pos opt)).0 ≡ (ask b handle (pos opt)).0
  unfolding asked configured
  ask-configure_ne key opt value done ne = elim (Option-cases (set_option d key value)) [
    | inl bad ↦
        absurd (ground (arith, ap (λ r. r.0.sta) (configure_found b handle key value d found)))
    | inr (d', made) ↦
        let kept = get_option-set_option d key opt value d' made ne in
        rw (asked_after key opt value d' made, ask_found b handle (pos opt) d found, kept)
          (asked_reply (configure b handle key value).1 b (get_option d (pos opt)))
  ]

  -- On a valid table, for a handle in use, whatever value is given for IbcEOSrd, IbcEOSwrt or IbcEOScmp, the stored flags are 0: the byte
  -- that holds them has no room for REOS, XEOS and BIN.
  pub configure_eos_flags :
      (key : ℕ) (value : ℤ)
      → (key ≡ Config.eos_rd) ⊎ ((key ≡ Config.eos_wrt) ⊎ (key ≡ Config.eos_cmp))
      → (descriptor_for (configure b handle key value).1 handle ≡ some (record d { eos_flags = 0 }))
        × ((configure b handle key value).0.sta ≡ Sta.cmpl)
  unfolding configured
  configure_eos_flags key value which =
      let made = set_option_eos d key value which in
      (
        configured-handle b handle key value d _ v found made,
        rw (configure_found b handle key value d found, made),
      )
