-- ===== src/Prelude/Bits.antt =====
-- Facts about `bit_and` and `bit_or` at variables: masks of low ones, from the recursion on binary
-- digits that the native operation stands for, and tables for small ranges.
use Prim.Native.Nat.{
  ℕ, zero, suc, ◌+◌, ◌*◌, ◌/◌, ◌%◌, ◌≤◌, ◌<◌, min, bit_and, bit_or, digits, bit_and-bitwise,
}
use mathlib.Core.Path.{◌≡◌, refl, sym, ap, ◌∙◌}
use mathlib.Core.Bool.{Bool, true, ◌&&◌}
use native.Mathlib.Omega.{arith}
use darwin_gpib.Prelude.Tests.{◌==◌, ==_iff}

-- A table: a test that holds from 0 up to `n`.
unfoldable pub every : ℕ → (ℕ → Bool) → Bool
every zero test = test 0
every (suc n) test = every n test && test (suc n)

pub every-at : (n x : ℕ) (test : ℕ → Bool) → x ≤ n → every n test ≡ true → test x ≡ true
unfolding every
every-at zero zero test inside holds = holds
every-at zero (suc x) test inside holds = absurd (omega arith)
every-at (suc n) x test inside holds = ground (arith, every-at n x test)

-- The recursion behind `bit_and`, with `fuel` digits: more fuel than the number changes nothing.
abbrev conjunction : ℕ → ℕ → ℕ → ℕ
conjunction fuel x mask = digits (λ y. zero) min fuel x mask

conjunction-more :
    (fuel total x mask : ℕ)
    → x ≤ fuel
    → fuel ≤ total
    → conjunction total x mask ≡ conjunction fuel x mask
conjunction-more zero zero x mask enough more = refl
conjunction-more zero (suc total) zero mask enough more = refl
conjunction-more zero (suc total) (suc x) mask enough more = absurd (omega arith)
conjunction-more (suc fuel) zero x mask enough more = absurd (omega arith)
conjunction-more (suc fuel) (suc total) zero mask enough more = refl
conjunction-more (suc fuel) (suc total) (suc x) mask enough more =
    ap (λ rest. rest * 2 + min (suc x % 2) (mask % 2))
      (conjunction-more fuel total (suc x / 2) (mask / 2) (omega arith) (omega arith))

conjunction-exact : (fuel x mask : ℕ) → x ≤ fuel → conjunction fuel x mask ≡ bit_and x mask
conjunction-exact fuel x mask enough =
    conjunction-more x fuel x mask (omega arith) enough ∙ sym (bit_and-bitwise x mask)

-- One binary digit of a mask.
pub bit_and-halves :
    (x mask : ℕ) → bit_and x mask ≡ bit_and (x / 2) (mask / 2) * 2 + min (x % 2) (mask % 2)
bit_and-halves zero mask =
    let nothing : (m : ℕ) → bit_and 0 m ≡ 0 = bit_and-bitwise 0 in
    omega (arith, nothing mask, nothing (mask / 2))
bit_and-halves (suc x) mask =
    bit_and-bitwise (suc x) mask
    ∙ ap (λ rest. rest * 2 + min (suc x % 2) (mask % 2))
        (conjunction-exact x (suc x / 2) (mask / 2) (omega arith))

bit_and-nothing : (fuel x : ℕ) → x ≤ fuel → bit_and x 0 ≡ 0
bit_and-nothing zero zero enough = refl
bit_and-nothing zero (suc x) enough = absurd (omega arith)
bit_and-nothing (suc fuel) x enough =
    omega (arith, bit_and-halves x 0, bit_and-nothing fuel (x / 2) (omega arith))

-- `a & 0x1f`.
pub bit_and_1f : (a : ℕ) → bit_and a 0x1f ≡ a % 32
bit_and_1f a = omega (
  arith,
  bit_and-halves a 31,
  bit_and-halves (a / 2) 15,
  bit_and-halves (a / 2 / 2) 7,
  bit_and-halves (a / 2 / 2 / 2) 3,
  bit_and-halves (a / 2 / 2 / 2 / 2) 1,
  bit_and-nothing a (a / 2 / 2 / 2 / 2 / 2) (omega arith),
)

-- `a & 0xff`.
pub bit_and_ff : (a : ℕ) → bit_and a 0xff ≡ a % 256
bit_and_ff a = omega (
  arith,
  bit_and-halves a 0xff,
  bit_and-halves (a / 2) 0x7f,
  bit_and-halves (a / 2 / 2) 0x3f,
  bit_and_1f (a / 2 / 2 / 2),
)

or_tables :
    every 31 (λ x.
      (bit_or x 0x20 == (x + 32)) && ((bit_or x 0x40 == (x + 64)) && (bit_or x 0x60 == (x + 96))))
    ≡ true
unfolding every
or_tables = refl

-- `|` of a five-bit number with an address group's base.
pub bit_or_groups :
    (x : ℕ)
    → x < 32
    → (bit_or x 0x20 ≡ x + 32) × (bit_or x 0x40 ≡ x + 64) × (bit_or x 0x60 ≡ x + 96)
bit_or_groups x h = ground (
  arith,
  every-at 31 x _ (omega arith) or_tables,
  ==_iff (bit_or x 0x20) (x + 32),
  ==_iff (bit_or x 0x40) (x + 64),
  ==_iff (bit_or x 0x60) (x + 96),
)

-- A mask that ends in a zero bit.
bit_and_even : (a b : ℕ) → b % 2 ≡ 0 → bit_and a b ≡ bit_and (a / 2) (b / 2) * 2
bit_and_even a b e = omega (arith, bit_and-halves a b)

-- A mask with no low byte leaves no low byte.
pub bit_and_1c00 : (a : ℕ) → bit_and a 0x1c00 % 256 ≡ 0
bit_and_1c00 a = omega (
  arith,
  bit_and_even a 0x1c00 refl,
  bit_and_even (a / 2) 0xe00 refl,
  bit_and_even (a / 2 / 2) 0x700 refl,
  bit_and_even (a / 2 / 2 / 2) 0x380 refl,
  bit_and_even (a / 2 / 2 / 2 / 2) 0x1c0 refl,
  bit_and_even (a / 2 / 2 / 2 / 2 / 2) 0xe0 refl,
  bit_and_even (a / 2 / 2 / 2 / 2 / 2 / 2) 0x70 refl,
  bit_and_even (a / 2 / 2 / 2 / 2 / 2 / 2 / 2) 0x38 refl,
)
