-- ===== src/Library/Traditional.antt =====
-- libgpib/src/ib_traditional.c: the functions `ib...`. Each puts its arguments into a structure of
-- driver/gpib/GPIBSelectors.h, makes one call, and sets the status from what comes back.
use darwin_gpib.Prelude.{
  ℕ, ◌+◌, ◌%◌, ◌^◌, Bool, not, List, [], ◌∷◌, Option, none, some, ◌==◌, if◌then◌else◌, bit_and,
  bit_or,
}
use darwin_gpib.Prelude.Int.{ℤ, pos, negsuc, is_neg, to_u32}
use darwin_gpib.Gpib.Sta
use darwin_gpib.Gpib.Iberr
use darwin_gpib.Gpib.Config
use darwin_gpib.UserClient.{i32_of, word, int_word}
use darwin_gpib.Library.{
  Agent, M, ◌>>=◌, ◌>>◌, pure, packed, set_status, return_ok, return_err, board_of, make_ud,
}
use darwin_gpib.Library.Client.{Called, conn_for_board, call_struct, board_handle, handle_of}

-- What a function returns beside an out-parameter, `none` where it is left alone.
pub record Returned (A : Type 0) : Type 0 where
  pub result : ℤ
  pub value : Option A

abbrev pub only : {A : Type 0} → ℤ → Returned A
only result = record { result = result; value = none }

-- The status at index `i` of the fields, with no count.
abbrev pub status_at : {W : Type 0} → ℕ → List ℕ → M W ℤ
status_at i bytes = do
  set_status (word bytes i) (word bytes (i + 1)) 0
  pure (i32_of (word bytes i))

-- `eosmode & (REOS | XEOS | BIN)`.
abbrev pub eos_bits : ℤ → ℕ
eos_bits v = bit_and (to_u32 v) (bit_or Config.reos (bit_or Config.xeos Config.bin))

-- `GPIBOpenDescriptorIn` for a device.
unfoldable pub device_in : ℤ → ℤ → ℤ → ℤ → ℤ → List ℕ
device_in pad sad timo send_eoi eosmode = packed (
    to_u32 pad
    ∷ to_u32 sad
    ∷ 0
    ∷ to_u32 timo
    ∷ (to_u32 eosmode % 256)
    ∷ eos_bits eosmode
    ∷ (if to_u32 send_eoi == 0 then 0 else 1)
    ∷ 0
    ∷ [])

module _ {W : Type 0} (agent : Agent W) where
  unfoldable pub call_on : ℤ → ℕ → (ℤ → List ℕ) → ℕ → Option ℕ → M W (Option Called)
  call_on ud selector input cap none = pure none
  call_on ud selector input cap (some b) = do
    h ← handle_of agent ud
    r ← call_struct agent b selector (input h) cap
    pure (some r)

  -- The connection of a descriptor's board, the handle, and one call: the shape of every function.
  unfoldable pub driver_call : ℤ → ℕ → (ℤ → List ℕ) → ℕ → M W (Option Called)
  driver_call ud selector input cap = do
    c ← conn_for_board agent (board_of ud)
    call_on ud selector input cap c

  -- What follows: ERR without a connection, EDVR where the call fails.
  unfoldable pub concluded : (List ℕ → M W ℤ) → Option Called → M W ℤ
  concluded finish none = pure (pos Sta.err)
  concluded finish (some r) = if r.ok then finish r.bytes else return_err Iberr.edvr

  unfoldable pub concluded_with : {A : Type 0} → (List ℕ → A) → ℕ → Option Called → M W (Returned A)
  concluded_with value i none = pure (only (pos Sta.err))
  concluded_with value i (some r) =
      if r.ok
      then (do
        result ← status_at i r.bytes
        pure (record { result = result; value = some (value r.bytes) }))
      else (do result ← return_err Iberr.edvr; pure (only result))

  unfoldable pub simple_handle_call : ℤ → ℕ → M W ℤ
  simple_handle_call ud selector = do
    r ← driver_call ud selector (λ h. packed (to_u32 h ∷ 0 ∷ [])) 16
    concluded (λ bytes. return_ok (word bytes 0) (word bytes 2)) r

  unfoldable pub ensure_board_open : ℤ → M W Bool
  ensure_board_open board = do h ← board_handle agent board; pure (not (is_neg h))

  -- `ibdev` from its call of the driver on.
  unfoldable pub open_device_on : ℕ → List ℕ → M W ℤ
  open_device_on b input = do
    r ← call_struct agent b 1 input 16
    let handle = int_word r.bytes 0
    if not r.ok
        then (do set_status Sta.err Iberr.edvr 0; pure (negsuc 0))
        else if is_neg handle
        then (do set_status (word r.bytes 1) (word r.bytes 2) 0; pure (negsuc 0))
        else (do set_status (word r.bytes 1) 0 0; pure (make_ud b handle))

  unfoldable pub open_device_for : List ℕ → Option ℕ → M W ℤ
  open_device_for input none = pure (negsuc 0)
  open_device_for input (some b) = open_device_on b input

  unfoldable pub ibdev : ℤ → ℤ → ℤ → ℤ → ℤ → ℤ → M W ℤ
  ibdev board pad sad timo send_eoi eosmode = do
    up ← ensure_board_open board
    if not up then pure (negsuc 0) else (do
      c ← conn_for_board agent board
      open_device_for (device_in pad sad timo send_eoi eosmode) c)

  -- `ibfind`; `none` is a null or empty name, else the number that `atoi` finds in it.
  unfoldable pub ibfind : Option ℤ → M W ℤ
  ibfind none = pure (negsuc 0)
  ibfind (some board) = do
    up ← ensure_board_open board
    if not up
        then pure (negsuc 0)
        else (do set_status (bit_or Sta.cmpl (bit_or Sta.cic Sta.rem)) 0 0; pure board)

  -- The code of the call is dropped: the fields that did not come are 0.
  unfoldable pub close_answer : Option Called → M W ℤ
  close_answer none = pure (pos Sta.err)
  close_answer (some r) = status_at 0 r.bytes

  unfoldable pub online_answer : Option ℕ → M W ℤ
  online_answer none = pure (pos Sta.err)
  online_answer (some b) = return_ok Sta.cmpl 0

  unfoldable pub ibonl : ℤ → ℤ → M W ℤ
  ibonl ud onl =
      if to_u32 onl == 0
      then (do r ← driver_call ud 2 (λ h. packed (to_u32 h ∷ 0 ∷ [])) 16; close_answer r)
      else (do c ← conn_for_board agent (board_of ud); online_answer c)

  unfoldable pub configure : ℤ → ℕ → ℤ → M W ℤ
  configure ud key value = do
    r ← driver_call ud 3 (λ h. packed (to_u32 h ∷ key ∷ to_u32 value ∷ 0 ∷ [])) 16
    concluded (status_at 0) r

  pub ibpad : ℤ → ℤ → M W ℤ
  ibpad ud v = configure ud Config.pad v

  pub ibsad : ℤ → ℤ → M W ℤ
  ibsad ud v = configure ud Config.sad v

  pub ibtmo : ℤ → ℤ → M W ℤ
  ibtmo ud v = configure ud Config.tmo v

  pub ibeot : ℤ → ℤ → M W ℤ
  ibeot ud v = configure ud Config.eot v

  -- The two settings in the order in which they are written.
  pub ibeos : ℤ → ℤ → M W ℤ
  ibeos ud v = do
    a ← configure ud Config.eos_char (pos (to_u32 v % 256))
    b ← configure ud Config.eos_rd (pos (eos_bits v))
    pure (i32_of (bit_or (to_u32 a) (to_u32 b)))

  pub ibconfig : ℤ → ℤ → ℤ → M W ℤ
  ibconfig ud option value = configure ud (to_u32 option) value

  unfoldable pub ibask : ℤ → ℤ → M W (Returned ℤ)
  ibask ud option = do
    r ← driver_call ud 10 (λ h. packed (to_u32 h ∷ to_u32 option ∷ [])) 16
    concluded_with (λ bytes. int_word bytes 0) 1 r

  pub ibclr : ℤ → M W ℤ
  ibclr ud = simple_handle_call ud 6

  unfoldable pub ibsic : ℤ → M W ℤ
  ibsic ud = simple_handle_call ud 7

  pub ibtrg : ℤ → M W ℤ
  ibtrg ud = simple_handle_call ud 12

  pub ibloc : ℤ → M W ℤ
  ibloc ud = simple_handle_call ud 13

  unfoldable pub ibsre : ℤ → ℤ → M W ℤ
  ibsre ud v = do
    r ← driver_call ud 8 (λ h. packed (to_u32 h ∷ (if to_u32 v == 0 then 0 else 1) ∷ [])) 16
    concluded (status_at 0) r

  -- The limit 0 stands for the descriptor's own.
  unfoldable pub ibwait : ℤ → ℤ → M W ℤ
  ibwait ud mask = do
    r ← driver_call ud 9 (λ h. packed (to_u32 h ∷ to_u32 mask ∷ 0 ∷ 0 ∷ [])) 16
    concluded (status_at 0) r

  unfoldable pub ibrsp : ℤ → M W (Returned ℕ)
  ibrsp ud = do
    r ← driver_call ud 11 (λ h. packed (to_u32 h ∷ 0 ∷ [])) 16
    concluded_with (λ bytes. word bytes 0 % 256) 1 r

  -- The lines, as the bit pattern of a `short`.
  unfoldable pub iblines : ℤ → M W (Returned ℕ)
  iblines ud = do
    r ← driver_call ud 15 (λ h. packed (to_u32 h ∷ 0 ∷ [])) 16
    concluded_with (λ bytes. word bytes 0 % 2 ^ 16) 1 r

  unfoldable pub ibln : ℤ → ℤ → ℤ → M W (Returned ℕ)
  ibln ud pad sad = do
    r ← driver_call ud 16 (λ h. packed (to_u32 h ∷ to_u32 pad ∷ to_u32 sad ∷ 0 ∷ [])) 16
    concluded_with (λ bytes. word bytes 0 % 2 ^ 16) 1 r

  -- `ibbna`, `ibcac`, `ibcmda`, `ibdma`, `ibevent`, `ibgts`, `ibist`, `ibpct`, `ibppc`, `ibrda`,
  -- `ibrpp`, `ibrsc`, `ibrsv`, `ibrsv2`, `ibspb`, `ibstop` and `ibwrta`.
  unfoldable pub not_supported : M W ℤ
  not_supported = return_err Iberr.ecap
