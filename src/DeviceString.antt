-- ===== src/DeviceString.antt =====
-- driver/utils/DriverUtils.cpp, `copyDeviceString`: a USB string descriptor, UTF-16, into UTF-8.
use darwin_gpib.Prelude.{
  ℕ, zero, suc, get_or, drop, ◌+◌, ◌*◌, ◌/◌, ◌%◌, ◌≤◌, ◌<◌, ◌≡◌, refl, ap, ◌∙◌, arith, true, List,
  [], ◌∷◌, ◌++◌, ltb, ◌==◌, ==_iff, ◌&&◌, if◌then◌else◌, length, length-append, bit_or, All,
  Bool-cases, inl, inr,
}
use darwin_gpib.Prelude.Bits.{every, every-at}

-- The bytes of one 16-bit unit. `x & 0x3f` is written as the remainder by 64, `x >> 6` as a quotient.
unfoldable pub utf8_unit : ℕ → List ℕ
utf8_unit ch =
    if ltb ch 0x80
    then ch ∷ []
    else if ltb ch 0x800
    then bit_or 0xc0 (ch / 64) ∷ bit_or 0x80 (ch % 64) ∷ []
    else bit_or 0xe0 (ch / 4096) ∷ bit_or 0x80 (ch / 64 % 64) ∷ bit_or 0x80 (ch % 64) ∷ []

unfoldable pub utf8_string : List ℕ → List ℕ
utf8_string [] = []
utf8_string (ch ∷ chs) = utf8_unit ch ++ utf8_string chs

or_table :
    every 63 (λ x.
      (bit_or 0x80 x == (128 + x))
      && (if ltb x 32 then bit_or 0xc0 x == (192 + x) else true)
      && (if ltb x 16 then bit_or 0xe0 x == (224 + x) else true))
    ≡ true
unfolding every
or_table = refl

tag_continuation : (x : ℕ) → x < 64 → bit_or 0x80 x ≡ 128 + x
tag_continuation x h =
    ground (arith, every-at 63 x _ (omega arith) or_table, ==_iff (bit_or 0x80 x) (128 + x))

tag_two : (x : ℕ) → x < 32 → bit_or 0xc0 x ≡ 192 + x
tag_two x h =
    ground (arith, every-at 63 x _ (omega arith) or_table, ==_iff (bit_or 0xc0 x) (192 + x))

tag_three : (x : ℕ) → x < 16 → bit_or 0xe0 x ≡ 224 + x
tag_three x h =
    ground (arith, every-at 63 x _ (omega arith) or_table, ==_iff (bit_or 0xe0 x) (224 + x))

-- A reader of `n` UTF-8 characters of up to three bytes.
unfoldable pub utf8_read : ℕ → List ℕ → List ℕ
utf8_read zero bytes = []
utf8_read (suc n) [] = []
utf8_read (suc n) (a ∷ rest) =
    let one = utf8_read n rest in
    let two = utf8_read n (drop 1 rest) in
    let three = utf8_read n (drop 2 rest) in
    if ltb a 0x80
    then a ∷ one
    else if ltb a 0xe0
    then (a % 32 * 64 + get_or rest 0 0 % 64) ∷ two
    else (a % 16 * 4096 + get_or rest 0 0 % 64 * 64 + get_or rest 1 0 % 64) ∷ three

-- The string fits the 4 n + 1 bytes that are allocated for n units, with its terminating zero.
length-utf8_string : (chs : List ℕ) → length (utf8_string chs) + 1 ≤ length chs * 4 + 1
unfolding utf8_string utf8_unit
length-utf8_string [] = omega arith
length-utf8_string (ch ∷ chs) =
    ground (arith, length-utf8_string chs, length-append (utf8_unit ch) (utf8_string chs))

utf8_read-utf8_unit :
    (n ch : ℕ) (rest : List ℕ)
    → ch < 65536
    → utf8_read (suc n) (utf8_unit ch ++ rest) ≡ ch ∷ utf8_read n rest
unfolding utf8_read utf8_unit
utf8_read-utf8_unit n ch rest small =
    let low = tag_continuation (ch % 64) (omega arith) in
    elim (Bool-cases (ltb ch 0x80)) [
      | inl ascii ↦ rw (ascii, ascii) refl
      | inr more ↦ elim (Bool-cases (ltb ch 0x800)) [
        | inl short ↦ rw (more, short, tag_two (ch / 64) (ground arith), low) (ground arith)
        | inr long ↦
            rw
              (
                more,
                long,
                tag_three (ch / 4096) (omega arith),
                tag_continuation (ch / 64 % 64) (omega arith),
                low,
              )
              (ground arith)
      ]
    ]

-- Reading the bytes back gives the units, for any 16-bit units, surrogates included.
utf8_read-utf8_string :
    (chs : List ℕ) → All (λ c. c < 65536) chs → utf8_read (length chs) (utf8_string chs) ≡ chs
unfolding utf8_string
utf8_read-utf8_string [] small = unfold utf8_read in refl
utf8_read-utf8_string (ch ∷ chs) small =
    utf8_read-utf8_unit (length chs) ch (utf8_string chs) small.0
    ∙ ap (λ r. ch ∷ r) (utf8_read-utf8_string chs small.1)
