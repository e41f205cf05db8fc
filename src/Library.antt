-- ===== src/Library.antt =====
-- libgpib/src/client.c and libgpib/src/error.c with libgpib/include/libgpib_internal.h: the C library
-- that programs link, as it talks to the broker. The broker is a parameter that takes a message and
-- gives a reply, or none where XPC delivers an error. One thread uses the library.
pub mod Client
pub mod Traditional
pub mod Transfers
pub mod Files
pub mod Helpers
pub mod Uds
pub mod Packing
pub mod Reads
pub mod Writes
pub mod Handles
pub mod Lists
pub mod Brokered
pub mod Listing
use darwin_gpib.Prelude.{
  ℕ, ◌+◌, ◌*◌, ◌-◌, ◌/◌, ◌%◌, ◌^◌, Bool, true, false, List, [], ◌∷◌, ◌++◌, Option, none, some, ltb,
  if◌then◌else◌,
}
use darwin_gpib.Prelude.Int.{ℤ, pos, to_u32}
use darwin_gpib.Gpib.Sta
use darwin_gpib.Usb.{le32_bytes}
use darwin_gpib.UserClient.{i32_of}
use darwin_gpib.Broker.Requests.{Request, Reply}

-- `ibsta`, `iberr` and `ibcntl`, the first two as bit patterns of 32 bits; `ibcnt` is the last again.
pub record Status : Type 0 where
  pub sta : ℕ
  pub iberr : ℕ
  pub cnt : ℕ

-- `g_slots[i].reachable`, `g_board_handles` and the status globals. `W` is the world of the broker.
pub record Lib (W : Type 0) : Type 0 where
  pub reachable : List Bool
  pub handles : List ℤ
  pub status : Status
  pub world : W

-- A message to the broker and its reply.
pub record Agent (W : Type 0) : Type 0 where
  pub send : Request → W → Option Reply × W

abbrev pub M : Type 0 → Type 0 → Type 0
M W A = Lib W → A × Lib W

abbrev pub pure : {W A : Type 0} → A → M W A
pure a s = (a, s)

infixl 5 ◌>>=◌ ◌>>◌
abbrev pub ◌>>=◌ : {W A B : Type 0} → M W A → (A → M W B) → M W B
◌>>=◌ m f s = let (a, s') = m s in f a s'

abbrev pub ◌>>◌ : {W B : Type 0} → M W (Unit {0}) → M W B → M W B
m >> k = m >>= λ _. k

-- `GPIB_LIB_MAX_BOARDS`.
abbrev pub max_boards : ℕ
max_boards = 16

-- A packed structure of four-byte fields.
unfoldable pub packed : List ℕ → List ℕ
packed [] = []
packed (x ∷ xs) = le32_bytes x ++ packed xs

-- `gpib_lib_set_status`.
abbrev pub set_status : {W : Type 0} → ℕ → ℕ → ℕ → M W (Unit {0})
set_status sta iberr cnt s =
    (tt, record s { status = record { sta = sta; iberr = iberr; cnt = cnt } })

-- `gpib_lib_return_ok`.
abbrev pub return_ok : {W : Type 0} → ℕ → ℕ → M W ℤ
return_ok sta cnt = do set_status sta 0 cnt; pure (i32_of sta)

-- `gpib_lib_return_err`.
abbrev pub return_err : {W : Type 0} → ℕ → M W ℤ
return_err iberr = do set_status Sta.err iberr 0; pure (pos Sta.err)

abbrev pub get_status : {W : Type 0} → M W Status
get_status s = (s.status, s)

-- `gpib_lib_is_board_ud`.
unfoldable pub is_board_ud : ℤ → Bool
is_board_ud (pos n) = ltb n max_boards
is_board_ud ud = false

-- `gpib_lib_board_of`; `>>` on a negative `int` copies its sign, which the mask cuts off.
unfoldable pub board_of : ℤ → ℤ
board_of ud = if is_board_ud ud then ud else pos (to_u32 ud / 2 ^ 24 % 128)

-- `ud & 0x007fffff`.
unfoldable pub device_handle : ℤ → ℕ
device_handle ud = to_u32 ud % 2 ^ 23

-- `gpib_lib_make_ud`: the three parts have no bit in common.
unfoldable pub make_ud : ℕ → ℤ → ℤ
make_ud board handle = pos (board % 128 * 2 ^ 24 + 2 ^ 23 + to_u32 handle % 2 ^ 23)
