-- ===== src/Kusb.antt =====
-- driver/devices/kusb_488b: the transport for the Keithley KUSB-488B. The state of a transport is the
-- record `Session`, with the world in which its device acts. `Wire` has the codes and blocks, `Control`
-- the USB exchanges, `Registers` and `BringUp` the register access, `Status` the polling of a transfer,
-- `Firmware` and `Registered` the two pipelines, `Endpoints` the descriptor walk.
pub mod Wire
pub mod Endpoints
pub mod Control
pub mod Status
pub mod Registers
pub mod BringUp
pub mod Firmware
pub mod Reading
pub mod Registered
pub mod Operations
pub mod Delivery
use darwin_gpib.Prelude.{ℕ, Bool}

-- The members of `KUSB488BTransport` that its operations change.
pub record Session (W : Type 0) : Type 0 where
  pub ren_asserted : Bool
  pub rfd_holdoff_pending : Bool
  pub max_data_chunk : ℕ
  pub world : W

-- The members that a session leaves alone: the device with its owner, the buffers, the pipes.
pub record Ends : Type 0 where
  pub device_ready : Bool
  pub ctrl_ready : Bool
  pub out_buffer : Bool
  pub in_buffer : Bool
  pub data_out_ready : Bool
  pub cmd_out_ready : Bool
  pub data_in_ready : Bool

-- A step of the transport.
abbrev pub K : Type 0 → Type 0 → Type 0
K W A = Session W → A × Session W

-- A call of the device.
abbrev pub dev : {W A : Type 0} → (W → A × W) → K W A
dev f s = let (a, w) = f s.world in (a, record s { world = w })

-- A call whose result is dropped.
abbrev pub dev_ : {W A : Type 0} → (W → A × W) → K W (Unit {0})
dev_ f s = let (a, w) = f s.world in (tt, record s { world = w })

abbrev pub get_session : {W : Type 0} → K W (Session W)
get_session s = (s, s)
