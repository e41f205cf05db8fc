-- ===== src/Library/Transfers.antt =====
-- libgpib/src/ib_traditional.c: `ibwrt`, `ibcmd` and `ibrd`.
use darwin_gpib.Prelude.{
  ℕ, ◌+◌, ◌-◌, List, [], ◌∷◌, ◌++◌, Option, none, some, ltb, if◌then◌else◌, length, take, drop, min,
  replicate,
}
use darwin_gpib.Prelude.Int.{ℤ, pos, negsuc, to_u32}
use darwin_gpib.Gpib.Sta
use darwin_gpib.Gpib.Iberr
use darwin_gpib.UserClient.{i32_of, word}
use darwin_gpib.Library.{Agent, M, ◌>>=◌, ◌>>◌, pure, packed, set_status, return_err, board_of}
use darwin_gpib.Library.Client.{Called, conn_for_board}
use darwin_gpib.Library.Traditional.{Returned, only, driver_call, concluded}

-- `kGPIBMaxInlineWrite` and `kGPIBMaxInlineRead`.
abbrev pub max_inline : ℕ
max_inline = 4096 - 16

-- The status at index 0, with the count behind it.
abbrev pub counted_status : {W : Type 0} → List ℕ → M W ℤ
counted_status bytes = do
  set_status (word bytes 0) (word bytes 1) (word bytes 2)
  pure (i32_of (word bytes 0))

-- `GPIBWriteIn`; EOI is always asked for.
unfoldable pub write_in : List ℕ → ℤ → List ℕ
write_in bytes h = packed (to_u32 h ∷ 1 ∷ length bytes ∷ 0 ∷ []) ++ bytes

-- `GPIBSendCommandIn`.
unfoldable pub command_in : List ℕ → ℤ → List ℕ
command_in bytes h = packed (to_u32 h ∷ length bytes ∷ []) ++ bytes

-- The bytes that go into the caller's buffer: no more than were asked for, with the zeros of the
-- allocation for those that did not come.
unfoldable pub read_bytes : ℕ → List ℕ → List ℕ
read_bytes cnt bytes =
    let got : ℕ = min (word bytes 2) cnt in take got (drop 16 bytes ++ replicate got 0)

module _ {W : Type 0} (agent : Agent W) where
  unfoldable pub refuse_count : Option ℕ → M W ℤ
  refuse_count none = pure (pos Sta.err)
  refuse_count (some b) = return_err Iberr.earg

  -- What a count that is refused leads to.
  unfoldable pub bad_count : ℤ → M W ℤ
  bad_count ud = do c ← conn_for_board agent (board_of ud); refuse_count c

  unfoldable pub send_bytes : ℤ → List ℕ → M W ℤ
  send_bytes ud bytes = do
    r ← driver_call agent ud 4 (write_in bytes) 16
    concluded agent counted_status r

  unfoldable pub ibwrt : ℤ → List ℕ → ℤ → M W ℤ
  ibwrt ud buf (negsuc n) = bad_count ud
  ibwrt ud buf (pos cnt) = if ltb max_inline cnt then bad_count ud else send_bytes ud (take cnt buf)

  unfoldable pub ibcmd : ℤ → List ℕ → ℤ → M W ℤ
  ibcmd ud buf (negsuc n) = bad_count ud
  ibcmd ud buf (pos cnt) = if ltb max_inline cnt then bad_count ud else (do
    r ← driver_call agent ud 17 (command_in (take cnt buf)) 16
    concluded agent counted_status r)

  unfoldable pub read_answer : ℕ → Option Called → M W (Returned (List ℕ))
  read_answer cnt none = pure (only (pos Sta.err))
  read_answer cnt (some r) =
      if r.ok
      then (do
        result ← counted_status r.bytes
        pure (record { result = result; value = some (read_bytes cnt r.bytes) }))
      else (do result ← return_err Iberr.edvr; pure (only result))

  -- A larger count is cut down.
  unfoldable pub ibrd : ℤ → ℤ → M W (Returned (List ℕ))
  ibrd ud (negsuc n) = do result ← bad_count ud; pure (only result)
  ibrd ud (pos cnt) =
      let wanted : ℕ = min cnt max_inline in
      (do
        r ← driver_call agent ud 5 (λ h. packed (to_u32 h ∷ wanted ∷ [])) (16 + wanted)
        read_answer wanted r)
