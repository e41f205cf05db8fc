-- ===== src/Broker/Registry.antt =====
-- gpibd.c: the numbering of boards, which `enumerate_boards` and `copy_service_for_board` share.
use darwin_gpib.Prelude.{
  ℕ, zero, suc, ◌+◌, ◌*◌, ◌-◌, ◌≤◌, ◌<◌, ◌≡◌, refl, inl, inr, arith, List, [], ◌∷◌, Option, none,
  some, length, get_elem?, length-append, length-replicate, length-take, take, replicate,
  Option-cases,
}
use darwin_gpib.Broker.{Service, IoKit, Server, max_boards}
use darwin_gpib.Broker.Boards.{
  BoardInfo, our_class, model_for_user_class, nth_service, entries, copy_service_for_board,
  enumerate_boards, model_field, info_bytes, board_list,
}

abbrev class_of : Service → List ℕ
class_of s = elim s.user_class [ none ↦ [] | some name ↦ name ]

-- The entry of the list for the service that a board's number leads to.
abbrev pub shown : ℕ → Option Service → Option BoardInfo
shown b none = none
shown b (some s) = some (record { index = b; model = model_for_user_class (class_of s) })

our_class-some : (s : Service) (name : List ℕ) → our_class s ≡ some name → class_of s ≡ name
unfolding our_class
our_class-some s name e = ground arith

-- `j` more services of ours have to go by.
entries_from :
    (j b n : ℕ) (services : List Service)
    → b < max_boards
    → b ≡ n + j
    → get_elem? (entries n services) j ≡ shown b (nth_service b n services)
unfolding entries nth_service
entries_from j b n [] inside at = refl
entries_from zero b n (s ∷ ss) inside at = elim (Option-cases (our_class s)) [
  | inl other ↦ ground (arith, entries_from zero b n ss)
  | inr (name, ours) ↦ ground (arith, our_class-some s name ours)
]
entries_from (suc j) b n (s ∷ ss) inside at = elim (Option-cases (our_class s)) [
  | inl other ↦ ground (arith, entries_from (suc j) b n ss)
  | inr (name, ours) ↦ ground (arith, entries_from j b (n + 1) ss)
]

-- Whatever the registry holds, for every board number below 16: the entry of the board list at that
-- place carries that number and the model of the service that opening the board would open, and
-- there is an entry exactly where there is such a service.
pub enumerate_boards-copy_service_for_board :
    {W : Type 0} (k : IoKit W) (s : Server W) (b : ℕ)
    → b < max_boards
    → get_elem? (enumerate_boards k s).0 b ≡ shown b (copy_service_for_board k b s).0
unfolding enumerate_boards copy_service_for_board
enumerate_boards-copy_service_for_board k s b inside =
    elim (Option-cases (k.matching_services s.world).0) [
      | inl none_there ↦ rw none_there refl
      | inr (services, there) ↦ rw there (entries_from b b 0 services inside (omega arith))
    ]

length-entries :
    (n : ℕ) (services : List Service)
    → n ≤ max_boards
    → n + length (entries n services) ≤ max_boards
unfolding entries
length-entries n [] room = omega arith
length-entries n (s ∷ ss) room = elim (Option-cases (our_class s)) [
  | inl other ↦ ground (arith, length-entries n ss)
  | inr (name, ours) ↦ ground (arith, length-entries (n + 1) ss)
]

pub length-enumerate_boards :
    {W : Type 0} (k : IoKit W) (s : Server W) → length (enumerate_boards k s).0 ≤ max_boards
unfolding enumerate_boards
length-enumerate_boards k s = elim (Option-cases (k.matching_services s.world).0) [
  | inl none_there ↦ rw none_there (omega arith)
  | inr (services, there) ↦ rw there (omega (arith, length-entries 0 services (omega arith)))
]

pub length-model_field : (model : List ℕ) → length (model_field model) ≡ 64
unfolding model_field
length-model_field model =
    let kept = take 63 model in
    omega (
      arith,
      length-append kept (replicate (64 - length kept) 0),
      length-replicate {A = ℕ} (64 - length kept) 0,
      length-take 63 model,
    )

length-info_bytes : (boards : List BoardInfo) → length (info_bytes boards) ≡ 68 * length boards
unfolding info_bytes
length-info_bytes [] = refl
length-info_bytes (i ∷ is) = omega (
  arith,
  length-append (model_field i.model) (info_bytes is),
  length-model_field i.model,
  length-info_bytes is,
)

-- The structure always has its full size.
pub length-board_list :
    (boards : List BoardInfo) → length boards ≤ max_boards → length (board_list boards) ≡ 1092
unfolding board_list
length-board_list boards room =
    let rest : List ℕ = replicate (68 * (16 - length boards)) 0 in
    omega (
      arith,
      length-append (info_bytes boards) rest,
      length-info_bytes boards,
      length-replicate {A = ℕ} (68 * (16 - length boards)) 0,
    )
