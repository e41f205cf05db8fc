-- ===== src/Board/Table/Calls.antt =====
-- The table calls of GPIBBoard.cpp in any order: the invariant of the descriptor table.
use darwin_gpib.Prelude.{
  ℕ, ◌+◌, ◌≡◌, inl, inr, refl, arith, Bool, List, [], ◌∷◌, Option, none, some, Option-cases,
  replicate, zero, suc, ◌∙◌,
}
use darwin_gpib.Prelude.Int.{ℤ, negsuc}
use darwin_gpib.Board.{Board, Descriptor, init, blank}
use darwin_gpib.Board.Table.{
  allocate_handle, open_descriptor, close_descriptor, configure, ask, set_option, configured, slot,
  store, descriptor_for,
}
use darwin_gpib.Board.Table.Laws.{
  IsValid, Handles, allocate_handle-some, store-IsValid, descriptor_for-some, fresh,
}

-- The calls of the board that read or write its table.
pub data TableCall : Type 0 where
  opens : ℕ → ℤ → Bool → ℕ → ℕ → ℕ → Bool → TableCall
  closes : ℤ → TableCall
  configures : ℤ → ℕ → ℤ → TableCall
  asks : ℤ → ℤ → TableCall

unfoldable pub table_step : Board → TableCall → Board
table_step b (opens pad sad is_board timeout_us eos_char eos_flags eot) =
    (open_descriptor b pad sad is_board timeout_us eos_char eos_flags eot).1
table_step b (closes handle) = (close_descriptor b handle).1
table_step b (configures handle key value) = (configure b handle key value).1
table_step b (asks handle option) = (ask b handle option).1

unfoldable pub table_run : Board → List TableCall → Board
table_run b [] = b
table_run b (c ∷ cs) = table_run (table_step b c) cs

Handles-replicate : (i n : ℕ) → Handles i (replicate n blank)
Handles-replicate i zero = tt
Handles-replicate i (suc n) = (inl refl, Handles-replicate (i + 1) n)

init-IsValid : IsValid init
unfolding init
init-IsValid = record { size = refl; handles = Handles-replicate 0 64 }

set_option_handle :
    (d : Descriptor) (key : ℕ) (value : ℤ) (d' : Descriptor)
    → set_option d key value ≡ some d'
    → d'.handle ≡ d.handle
unfolding set_option
set_option_handle d key value d' e = ground arith

-- The invariant reads the table alone.
pub IsValid-table : (b c : Board) → b.descriptors ≡ c.descriptors → IsValid b → IsValid c
IsValid-table b c e v = record { size = rw (← e) v.size; handles = rw (← e) v.handles }

pub open_descriptor-IsValid :
    (b : Board) (pad : ℕ) (sad : ℤ) (is_board : Bool) (timeout_us eos_char eos_flags : ℕ)
    (eot : Bool)
    → IsValid b
    → IsValid (open_descriptor b pad sad is_board timeout_us eos_char eos_flags eot).1
unfolding open_descriptor
open_descriptor-IsValid b pad sad is_board timeout_us eos_char eos_flags eot v =
    elim (Option-cases (allocate_handle b)) [
      | inl full ↦ rw (full, open_descriptor) v
      | inr (h, room) ↦
          let (lo, _, _) = allocate_handle-some b h v room in
          let new = fresh pad sad is_board timeout_us eos_char eos_flags eot h in
          rw (room, open_descriptor) (store-IsValid b h new v (inr (refl, lo)))
    ]

pub close_descriptor-IsValid :
    (b : Board) (handle : ℤ) → IsValid b → IsValid (close_descriptor b handle).1
unfolding close_descriptor
close_descriptor-IsValid b handle v = elim (Option-cases (descriptor_for b handle)) [
  | inl missing ↦ rw (missing, close_descriptor) (IsValid-table b _ refl v)
  | inr (d, found) ↦
      let closed = store b (slot handle) (record d { handle = negsuc 0 }) in
      rw (found, close_descriptor)
        (IsValid-table closed _ refl (store-IsValid b (slot handle) _ v (inl refl)))
]

configured-IsValid :
    (b : Board) (handle : ℤ) (d : Descriptor) (o : Option Descriptor)
    → IsValid b
    → descriptor_for b handle ≡ some d
    → ((d' : Descriptor) → o ≡ some d' → d'.handle ≡ d.handle)
    → IsValid (configured b (slot handle) o).1
unfolding configured
configured-IsValid b handle d none v found same = IsValid-table b _ refl v
configured-IsValid b handle d (some d') v found same =
    let (at, lo, _, here) = descriptor_for-some b handle d v found in
    IsValid-table (store b (slot handle) d') _ refl
      (store-IsValid b (slot handle) d' v (inr (same d' refl ∙ at ∙ here, lo)))

pub configure-IsValid :
    (b : Board) (handle : ℤ) (key : ℕ) (value : ℤ)
    → IsValid b
    → IsValid (configure b handle key value).1
unfolding configure
configure-IsValid b handle key value v = elim (Option-cases (descriptor_for b handle)) [
  | inl missing ↦ rw (missing, configure) (IsValid-table b _ refl v)
  | inr (d, found) ↦
      rw (found, configure)
        (configured-IsValid b handle d (set_option d key value) v found
          (set_option_handle d key value))
]

pub ask_table :
    (b : Board) (handle option : ℤ) → b.descriptors ≡ (ask b handle option).1.descriptors
unfolding ask
ask_table b handle option = ground arith

table_step-IsValid : (b : Board) (c : TableCall) → IsValid b → IsValid (table_step b c)
unfolding table_step
table_step-IsValid b (opens pad sad is_board timeout_us eos_char eos_flags eot) v =
    open_descriptor-IsValid b pad sad is_board timeout_us eos_char eos_flags eot v
table_step-IsValid b (closes handle) v = close_descriptor-IsValid b handle v
table_step-IsValid b (configures handle key value) v = configure-IsValid b handle key value v
table_step-IsValid b (asks handle option) v = IsValid-table b _ (ask_table b handle option) v

table_run-IsValid : (b : Board) (cs : List TableCall) → IsValid b → IsValid (table_run b cs)
unfolding table_run
table_run-IsValid b [] v = v
table_run-IsValid b (c ∷ cs) v = table_run-IsValid (table_step b c) cs (table_step-IsValid b c v)

-- After `init` and any calls of the table operations, failing ones included, the table has its 64
-- slots, each slot in use carries its own index as its handle, and slot 0 is free.
pub table_run-init-IsValid : (cs : List TableCall) → IsValid (table_run init cs)
table_run-init-IsValid cs = table_run-IsValid init cs init-IsValid
