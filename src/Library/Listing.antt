-- ===== src/Library/Listing.antt =====
-- The list of the boards, put together by gpibd/gpibd.c and taken apart by libgpib/src/client.c.
use darwin_gpib.Prelude.{
  ℕ, suc, ◌-◌, ◌*◌, ◌^◌, ◌<◌, ◌≤◌, ◌≡◌, ◌≢◌, refl, ap, ◌∙◌, arith, List, [], ◌∷◌, ◌++◌,
  append_assoc, min, All, length, drop, take_all, take-append_of_eq, drop-append_of_eq, replicate,
}
use darwin_gpib.Prelude.Int.{pos}
use darwin_gpib.UserClient.{word, int_word, i32_of}
use darwin_gpib.Usb.{le32_bytes}
use darwin_gpib.Broker.Boards.{BoardInfo, model_field, info_bytes, board_list}
use darwin_gpib.Broker.Registry.{length-model_field}
use darwin_gpib.Library.Client.{until_nul, boards_in, listed_count, boards_counted}

-- An index of 32 bits, and a model that fits its field and has no 0 in it.
abbrev pub IsPlain : BoardInfo → Type 0
IsPlain i = (i.index < 2 ^ 32) × (length i.model ≤ 63) × All (λ c. c ≢ 0) i.model

until_nul-append : (xs ys : List ℕ) → All (λ c. c ≢ 0) xs → until_nul (xs ++ 0 ∷ ys) ≡ xs
unfolding until_nul
until_nul-append [] ys all = refl
until_nul-append (x ∷ xs) ys all = ground (arith, until_nul-append xs ys all.1, all.0)

until_nul-model_field :
    (model : List ℕ)
    → length model ≤ 63
    → All (λ c. c ≢ 0) model
    → until_nul (model_field model) ≡ model
unfolding model_field
until_nul-model_field model fits all =
    let e : 64 - length model ≡ suc (63 - length model) = omega arith in
    rw (take_all 63 model fits, e) (until_nul-append model (replicate (63 - length model) 0) all)

le32_word : (x : ℕ) (rest : List ℕ) → x < 2 ^ 32 → word (le32_bytes x ++ rest) 0 ≡ x
unfolding word
le32_word x rest small = omega arith

boards_in-info_bytes :
    (boards : List BoardInfo) (rest : List ℕ)
    → All IsPlain boards
    → boards_in (length boards) (info_bytes boards ++ rest) ≡ boards
unfolding boards_in info_bytes
boards_in-info_bytes [] rest all = refl
boards_in-info_bytes (i ∷ more) rest all =
    let field = model_field i.model in
    let later = info_bytes more ++ rest in
    let whole : length field ≡ 64 = length-model_field i.model in
    rw
      (
        append_assoc field (info_bytes more) rest,
        take-append_of_eq 64 field later whole,
        drop-append_of_eq 64 field later whole,
        le32_word i.index (field ++ later) all.0.0,
        until_nul-model_field i.model all.0.1 all.0.2,
        boards_in-info_bytes more rest all.1,
      )
      refl

listed_count_at :
    (room n : ℕ) (bytes : List ℕ)
    → int_word bytes 0 ≡ pos n
    → listed_count room bytes ≡ pos (min (min n 16) room)
unfolding listed_count
listed_count_at room n bytes e = rw (e, listed_count) refl

small_int : (x : ℕ) → x < 2 ^ 31 → i32_of x ≡ pos x
unfolding i32_of
small_int x small = ground arith

first_word :
    (boards : List BoardInfo)
    → length boards ≤ 16
    → int_word (board_list boards) 0 ≡ pos (length boards)
unfolding board_list int_word
first_word boards few =
    let rest = info_bytes boards ++ replicate (68 * (16 - length boards)) 0 in
    ap i32_of (le32_word (length boards) rest (omega arith))
    ∙ small_int (length boards) (omega arith)

count_of_list :
    (boards : List BoardInfo) (room : ℕ)
    → length boards ≤ 16
    → length boards ≤ room
    → listed_count room (board_list boards) ≡ pos (length boards)
count_of_list boards room few fits =
    listed_count_at room (length boards) (board_list boards) (first_word boards few)
    ∙ ap pos (omega arith)

boards_of_list :
    (boards : List BoardInfo)
    → All IsPlain boards
    → boards_counted (pos (length boards)) (drop 4 (board_list boards)) ≡ boards
unfolding boards_counted board_list
boards_of_list boards plain =
    boards_in-info_bytes boards (replicate (68 * (16 - length boards)) 0) plain

-- For at most 16 boards, each with an index of 32 bits and a model of at most 63 bytes that are not
-- 0: out of the structure that the broker sends, a caller with room for all of them gets
-- their number and, in their order, exactly the broker's entries.
boards_counted-board_list :
    (boards : List BoardInfo) (room : ℕ)
    → length boards ≤ 16
    → length boards ≤ room
    → All IsPlain boards
    → (listed_count room (board_list boards) ≡ pos (length boards))
      × (boards_counted (listed_count room (board_list boards)) (drop 4 (board_list boards))
          ≡ boards)
boards_counted-board_list boards room few fits plain =
    let count = count_of_list boards room few fits in
    (count, rw count (boards_of_list boards plain))
