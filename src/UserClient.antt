-- ===== src/UserClient.antt =====
-- driver/userclient/GPIBUserClient.cpp with the argument structures of driver/gpib/GPIBSelectors.h.
-- Every field of these structures takes four bytes, the first the lowest.
pub mod Handlers
pub mod Lines
pub mod Dispatch
pub mod Laws
pub mod Refusals
use darwin_gpib.Prelude.{
  ℕ, ◌+◌, ◌-◌, ◌*◌, ◌^◌, Bool, true, false, List, [], ◌∷◌, Option, none, some, ltb, if◌then◌else◌,
  length, get_or,
}
use darwin_gpib.Prelude.Int.{ℤ, pos, negsuc}
use darwin_gpib.Board.Monad.{M, pure, Reply}

-- The `kern_return_t` of a call.
pub data Code : Type 0 where
  success bad_argument not_ready no_memory unsupported : Code

-- What a handler returns: the code, the fields of the output structure and the bytes behind it.
pub record Outcome : Type 0 where
  pub code : Code
  pub fields : List ℕ
  pub payload : List ℕ

-- A code without an output structure.
abbrev pub bare : Code → Outcome
bare code = record { code = code; fields = []; payload = [] }

abbrev pub answered : List ℕ → Outcome
answered fields = record { code = Code.success; fields = fields; payload = [] }

-- `setStatusOut`.
abbrev pub status_out : Reply → Outcome
status_out r = answered (r.sta ∷ r.iberr ∷ 0 ∷ 0 ∷ [])

-- The field at index `i`, a `uint32_t`.
unfoldable pub word : List ℕ → ℕ → ℕ
word bytes i =
    get_or bytes (4 * i) 0
    + 256
      * (get_or bytes (4 * i + 1) 0
          + 256 * (get_or bytes (4 * i + 2) 0 + 256 * get_or bytes (4 * i + 3) 0))

-- `(int32_t)x` for x below 2^32.
unfoldable pub i32_of : ℕ → ℤ
i32_of x = if ltb x (2 ^ 31) then pos x else negsuc (2 ^ 32 - 1 - x)

unfoldable pub int_word : List ℕ → ℕ → ℤ
int_word bytes i = i32_of (word bytes i)

-- `structInBytes` with the check of the length: a handler sees at least `size` bytes.
unfoldable pub with_input :
    {W : Type 0} → ℕ → Option (List ℕ) → (List ℕ → M W Outcome) → M W Outcome
with_input size none handler = pure (bare Code.bad_argument)
with_input size (some bytes) handler =
    if ltb (length bytes) size then pure (bare Code.bad_argument) else handler bytes

-- Whether an allocation of that many bytes succeeds: `OSData::withCapacity` and `IOMallocZero`.
pub record Memory : Type 0 where
  pub has_capacity : ℕ → Bool
  pub has_scratch : ℕ → Bool
