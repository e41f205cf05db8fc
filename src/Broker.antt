-- ===== src/Broker.antt =====
-- gpibd/gpibd.c and gpibd/gpibd_protocol.h: the broker agent through which every process reaches the
-- driver. IOKit and the allocator are parameters: `W` is the state of everything beyond the broker.
pub mod Session
pub mod Boards
pub mod Requests
pub mod Registry
pub mod Effects
pub mod Isolation
pub mod Replies
pub mod Told
pub mod Ownership
pub mod Account
pub mod Recording
pub mod Resends
pub mod Reaping
pub mod Departure
pub mod Stale
pub mod Peers
use darwin_gpib.Prelude.{ℕ, ◌-◌, ◌^◌, ◌++◌, Bool, List, Option, length, replicate}
use darwin_gpib.Prelude.Int.{ℤ, negsuc}

-- `GPIBD_MAX_BOARDS`.
abbrev pub max_boards : ℕ
max_boards = 16

-- `GPIBD_MAX_OUT`.
abbrev pub max_out : ℕ
max_out = 2 ^ 20

-- `GPIBD_OP_PROBE`.
abbrev pub op_probe : ℕ
op_probe = 0xffffffff

-- `GPIBD_OP_LIST_BOARDS`.
abbrev pub op_list_boards : ℕ
op_list_boards = 0xfffffffe

-- `kGPIBSel_OpenDescriptor`.
abbrev pub sel_open_descriptor : ℕ
sel_open_descriptor = 1

-- `kGPIBSel_CloseDescriptor`.
abbrev pub sel_close_descriptor : ℕ
sel_close_descriptor = 2

-- `GPIBD_ERR_NO_BOARD`, `GPIBD_ERR_OPEN_FAILED` and `GPIBD_ERR_BAD_REQUEST`.
abbrev pub err_no_board : ℤ
err_no_board = negsuc 999

abbrev pub err_open_failed : ℤ
err_open_failed = negsuc 1000

abbrev pub err_bad_request : ℤ
err_bad_request = negsuc 1001

-- A service of the registry. The name of its class, as bytes, is `none` where the property is absent
-- or longer than the buffer of 128 bytes.
pub record Service : Type 0 where
  pub port : ℕ
  pub user_class : Option (List ℕ)

-- What `IOServiceOpen` gives: its code, a `uint32_t` pattern, and the connection. `IO_OBJECT_NULL` is 0.
pub record OpenedService : Type 0 where
  pub kr : ℕ
  pub conn : ℕ

-- What `IOConnectCallStructMethod` gives: its code, the bytes it wrote from the start of the output
-- buffer, and the value it left in `*outputStructCnt`.
pub record Called : Type 0 where
  pub kr : ℕ
  pub written : List ℕ
  pub size : ℕ

-- IOKit, the four codes of it that say that a port is gone, and `calloc`.
pub record IoKit (W : Type 0) : Type 0 where
  pub matching_services : W → Option (List Service) × W
  pub open_service : ℕ → W → OpenedService × W
  pub close_service : ℕ → W → Unit {0} × W
  pub call_struct : ℕ → ℕ → Option (List ℕ) → ℕ → W → Called × W
  pub allocate : ℕ → W → Bool × W
  pub no_device : ℕ
  pub not_attached : ℕ
  pub invalid_dest : ℕ
  pub invalid_reply : ℕ

-- `gpibd_desc`.
pub record Desc : Type 0 where
  pub board : ℤ
  pub handle : ℤ

-- `g_conn`, the list of the session whose request is handled (`none` where it has no session), and
-- the world.
pub record Server (W : Type 0) : Type 0 where
  pub conns : List ℕ
  pub descs : Option (List Desc)
  pub world : W

abbrev pub M : Type 0 → Type 0 → Type 0
M W A = Server W → A × Server W

abbrev pub pure : {W A : Type 0} → A → M W A
pure a s = (a, s)

infixl 5 ◌>>=◌ ◌>>◌
abbrev pub ◌>>=◌ : {W A B : Type 0} → M W A → (A → M W B) → M W B
◌>>=◌ m f s = let (a, s') = m s in f a s'

abbrev pub ◌>>◌ : {W B : Type 0} → M W (Unit {0}) → M W B → M W B
m >> k = m >>= λ _. k

-- A call of IOKit or of the allocator.
abbrev pub call : {W A : Type 0} → (W → A × W) → M W A
call f s = let (a, w) = f s.world in (a, record s { world = w })

-- A buffer of `cap` zeros in which a call wrote.
abbrev pub buffer : ℕ → List ℕ → List ℕ
buffer cap written = written ++ replicate (cap - length written) 0
