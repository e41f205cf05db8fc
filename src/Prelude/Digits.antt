-- ===== src/Prelude/Digits.antt =====
-- The binary digits of a number, and what `bit_and` and `bit_or` do to each of them.
use Prim.Native.Nat.{
  ℕ, zero, suc, ◌+◌, ◌*◌, ◌/◌, ◌%◌, ◌≤◌, min, max, bit_and, bit_or, digits, bit_or-bitwise,
}
use mathlib.Core.Path.{◌≡◌, refl, sym, ap, ◌∙◌}
use native.Mathlib.Omega.{arith}
use darwin_gpib.Prelude.Bits.{bit_and-halves}

-- Digit `k`, the lowest first.
abbrev pub digit : ℕ → ℕ → ℕ
digit zero x = x % 2
digit (suc k) x = digit k (x / 2)

-- The recursion behind `bit_or`, with `fuel` digits.
abbrev disjunction : ℕ → ℕ → ℕ → ℕ
disjunction fuel x y = digits (λ b. b) max fuel x y

disjunction-more :
    (fuel total x y : ℕ) → x ≤ fuel → fuel ≤ total → disjunction total x y ≡ disjunction fuel x y
disjunction-more zero zero x y enough more = refl
disjunction-more zero (suc total) zero y enough more = refl
disjunction-more zero (suc total) (suc x) y enough more = absurd (omega arith)
disjunction-more (suc fuel) zero x y enough more = absurd (omega arith)
disjunction-more (suc fuel) (suc total) zero y enough more = refl
disjunction-more (suc fuel) (suc total) (suc x) y enough more =
    ap (λ rest. rest * 2 + max (suc x % 2) (y % 2))
      (disjunction-more fuel total (suc x / 2) (y / 2) (omega arith) (omega arith))

disjunction-exact : (fuel x y : ℕ) → x ≤ fuel → disjunction fuel x y ≡ bit_or x y
disjunction-exact fuel x y enough =
    disjunction-more x fuel x y (omega arith) enough ∙ sym (bit_or-bitwise x y)

bit_or-halves : (x y : ℕ) → bit_or x y ≡ bit_or (x / 2) (y / 2) * 2 + max (x % 2) (y % 2)
bit_or-halves zero y =
    let nothing : (m : ℕ) → bit_or 0 m ≡ m = bit_or-bitwise 0 in
    omega (arith, nothing y, nothing (y / 2))
bit_or-halves (suc x) y =
    bit_or-bitwise (suc x) y
    ∙ ap (λ rest. rest * 2 + max (suc x % 2) (y % 2))
        (disjunction-exact x (suc x / 2) (y / 2) (omega arith))

pub digit-bit_or : (k x y : ℕ) → digit k (bit_or x y) ≡ max (digit k x) (digit k y)
digit-bit_or zero x y = omega (arith, bit_or-halves x y)
digit-bit_or (suc k) x y =
    let half : bit_or x y / 2 ≡ bit_or (x / 2) (y / 2) = omega (arith, bit_or-halves x y) in
    ap (digit k) half ∙ digit-bit_or k (x / 2) (y / 2)

pub digit-bit_and : (k x y : ℕ) → digit k (bit_and x y) ≡ min (digit k x) (digit k y)
digit-bit_and zero x y = omega (arith, bit_and-halves x y)
digit-bit_and (suc k) x y =
    let half : bit_and x y / 2 ≡ bit_and (x / 2) (y / 2) = omega (arith, bit_and-halves x y) in
    ap (digit k) half ∙ digit-bit_and k (x / 2) (y / 2)
