-- ===== src/Board/Table.antt =====
-- GPIBBoard.cpp: the descriptor table, `allocateHandle`, `descriptorFor`, `openDescriptor`,
-- `closeDescriptor`, `configure` and `ask`. None of them calls the transport.
pub mod Laws
pub mod Opening
pub mod Calls
pub mod Options
use darwin_gpib.Prelude.{
  ℕ, ◌+◌, ◌%◌, Bool, List, [], ◌∷◌, Option, none, some, bit_and, bit_or, ◌==◌, ◌||◌, if◌then◌else◌,
  get_or, set, leb, drop, not,
}
use darwin_gpib.Prelude.Int.{ℤ, pos, negsuc, is_neg, to_u8, to_u32, i8_of}
use darwin_gpib.Gpib.Config
use darwin_gpib.Gpib.Sta
use darwin_gpib.Gpib.Iberr
use darwin_gpib.Board.{Board, Descriptor, max_descriptors, blank}
use darwin_gpib.Board.Monad.{Reply}
use darwin_gpib.Board.Timeout.{timeout_code_to_micros}

-- What `openDescriptor` returns, with its two out-parameters.
pub record Opened : Type 0 where
  pub handle : ℤ
  pub sta : ℕ
  pub iberr : ℕ

-- What `ask` returns; it leaves `*outValue` alone when it fails.
pub record Asked : Type 0 where
  pub value : Option ℤ
  pub sta : ℕ
  pub iberr : ℕ

-- The loop of `allocateHandle`: the index of the first slot, from `i` on, whose handle is negative.
unfoldable pub free_slot : ℕ → List Descriptor → Option ℕ
free_slot i [] = none
free_slot i (d ∷ ds) = if is_neg d.handle then some i else free_slot (i + 1) ds

-- The search skips slot 0.
unfoldable pub allocate_handle : Board → Option ℕ
unfolding free_slot
allocate_handle b = free_slot 1 (drop 1 b.descriptors)

-- A slot of the table that is in use, as `descriptorFor` finds it.
unfoldable pub in_use : Descriptor → Option Descriptor
in_use d = if is_neg d.handle then none else some d

unfoldable pub descriptor_for : Board → ℤ → Option Descriptor
unfolding in_use
descriptor_for b (negsuc n) = none
descriptor_for b (pos n) =
    if leb max_descriptors n then none else in_use (get_or b.descriptors n blank)

abbrev store : Board → ℕ → Descriptor → Board
store b h d = record b { descriptors = set b.descriptors h d }

opened : Board → ℕ → ℤ → Bool → ℕ → ℕ → ℕ → Bool → ℕ → Opened × Board
opened b pad sad is_board timeout_us eos_char eos_flags eot h = (
  record { handle = pos h; sta = Sta.cmpl; iberr = 0 },
  store b h (record {
    handle = pos h;
    is_board = if is_board then 1 else 0;
    pad = pad;
    sad = sad;
    eot = if eot then 1 else 0;
    eos_char = eos_char;
    eos_flags = eos_flags;
    timeout_us = timeout_us;
  }),
)

unfoldable pub open_descriptor : Board → ℕ → ℤ → Bool → ℕ → ℕ → ℕ → Bool → Opened × Board
unfolding allocate_handle opened
open_descriptor b pad sad is_board timeout_us eos_char eos_flags eot = elim (allocate_handle b) [
  | none ↦ (record { handle = negsuc 0; sta = Sta.err; iberr = Iberr.etab }, b)
  | some h ↦ opened b pad sad is_board timeout_us eos_char eos_flags eot h
]

-- `*outIberr = iberr; ibsta_ = sta; return ibsta_;`
abbrev answer : Board → ℕ → ℕ → Reply × Board
answer b iberr sta = (record { sta = sta; iberr = iberr }, record b { ibsta = sta })

unfoldable pub slot : ℤ → ℕ
slot (pos n) = n
slot (negsuc n) = 0

unfoldable pub close_descriptor : Board → ℤ → Reply × Board
unfolding descriptor_for slot
close_descriptor b handle = elim (descriptor_for b handle) [
  | none ↦ answer b Iberr.earg Sta.err
  | some d ↦ answer (store b (slot handle) (record d { handle = negsuc 0 })) 0 Sta.cmpl
]

-- The `switch` of `configure`; `none` is its default case.
unfoldable pub set_option : Descriptor → ℕ → ℤ → Option Descriptor
set_option d key value =
    if key == Config.pad
    then some (record d { pad = bit_and (to_u8 value) 0x1f })
    else if key == Config.sad
    then some (record d { sad = i8_of (to_u8 value) })
    else if key == Config.tmo
    then some (record d { timeout_us = timeout_code_to_micros (to_u32 value) })
    else if key == Config.eot
    then some (record d { eot = if to_u32 value == 0 then 0 else 1 })
    else if key == Config.eos_char
    then some (record d { eos_char = bit_and (to_u8 value) 0xff })
    else if (key == Config.eos_rd) || ((key == Config.eos_wrt) || (key == Config.eos_cmp))
    then some (record d {
      eos_flags = bit_and (to_u32 value) (bit_or Config.reos (bit_or Config.xeos Config.bin)) % 256;
    })
    else none

unfoldable pub configured : Board → ℕ → Option Descriptor → Reply × Board
configured b h none = answer b Iberr.ecap Sta.err
configured b h (some d) = answer (store b h d) 0 Sta.cmpl

unfoldable pub configure : Board → ℤ → ℕ → ℤ → Reply × Board
unfolding descriptor_for slot set_option configured
configure b handle key value = elim (descriptor_for b handle) [
  | none ↦ answer b Iberr.earg Sta.err
  | some d ↦ configured b (slot handle) (set_option d key value)
]

-- The `switch` of `ask`.
unfoldable pub get_option : Descriptor → ℤ → Option ℤ
get_option d (negsuc n) = none
get_option d (pos option) =
    if option == Config.pad
    then some (pos d.pad)
    else if option == Config.sad
    then some d.sad
    else if option == Config.eot
    then some (pos d.eot)
    else if option == Config.eos_char
    then some (pos d.eos_char)
    else none

unfoldable pub asked : Board → Option ℤ → Asked × Board
asked b none =
    (record { value = none; sta = Sta.err; iberr = Iberr.ecap }, record b { ibsta = Sta.err })
asked b (some v) =
    (record { value = some v; sta = Sta.cmpl; iberr = 0 }, record b { ibsta = Sta.cmpl })

unfoldable pub ask : Board → ℤ → ℤ → Asked × Board
unfolding descriptor_for get_option asked
ask b handle option = elim (descriptor_for b handle) [
  | none ↦
      (record { value = none; sta = Sta.err; iberr = Iberr.earg }, record b { ibsta = Sta.err })
  | some d ↦ asked b (get_option d option)
]
