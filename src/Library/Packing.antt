-- ===== src/Library/Packing.antt =====
-- The structures of driver/gpib/GPIBSelectors.h, put together by the library and taken apart by the
-- driver.
use darwin_gpib.Prelude.{
  ℕ, zero, suc, ◌+◌, ◌*◌, ◌^◌, ◌<◌, ◌≡◌, refl, ◌∙◌, arith, List, [], ◌∷◌, ◌++◌, All, length, get_or,
}
use darwin_gpib.Prelude.Int.{ℤ, pos, negsuc, to_u32}
use darwin_gpib.UserClient.{word, i32_of}
use darwin_gpib.Library.{packed}

-- A value of 32 bits.
abbrev pub IsWord : ℕ → Type 0
IsWord x = x < 2 ^ 32

-- A value of the C type `int`.
abbrev pub IsInt : ℤ → Type 0
IsInt (pos n) = n < 2 ^ 31
IsInt (negsuc n) = n < 2 ^ 31

-- The bytes of one field are passed over.
get_or_later :
    (a b c d : ℕ) (r : List ℕ) (n m : ℕ)
    → n ≡ suc (suc (suc (suc m)))
    → get_or (a ∷ b ∷ c ∷ d ∷ r) n 0 ≡ get_or r m 0
get_or_later a b c d r n m e = rw e refl

word_later : (a b c d : ℕ) (r : List ℕ) (i : ℕ) → word (a ∷ b ∷ c ∷ d ∷ r) (suc i) ≡ word r i
unfolding word
word_later a b c d r i = omega (
  arith,
  get_or_later a b c d r (4 * suc i) (4 * i) (omega arith),
  get_or_later a b c d r (4 * suc i + 1) (4 * i + 1) (omega arith),
  get_or_later a b c d r (4 * suc i + 2) (4 * i + 2) (omega arith),
  get_or_later a b c d r (4 * suc i + 3) (4 * i + 3) (omega arith),
)

-- The field at each index is the one that was put there.
pub word-packed :
    (xs rest : List ℕ) (i : ℕ)
    → All IsWord xs
    → i < length xs
    → word (packed xs ++ rest) i ≡ get_or xs i 0
unfolding packed word
word-packed [] rest i small inside = absurd (omega arith)
word-packed (x ∷ xs) rest zero small inside = omega (arith, small.0)
word-packed (x ∷ xs) rest (suc i) small inside =
    word_later _ _ _ _ (packed xs ++ rest) i ∙ word-packed xs rest i small.1 (omega arith)

pub length-packed : (xs : List ℕ) → length (packed xs) ≡ 4 * length xs
unfolding packed
length-packed [] = refl
length-packed (x ∷ xs) = omega (arith, length-packed xs)

pub i32_of-to_u32 : (z : ℤ) → IsInt z → i32_of (to_u32 z) ≡ z
unfolding i32_of
i32_of-to_u32 (pos n) small = ground arith
i32_of-to_u32 (negsuc n) small = ground arith
