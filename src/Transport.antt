-- ===== src/Transport.antt =====
-- driver/core/GPIBTransport.h: the interface through which the board drives an adapter.
-- `W` is the state of everything beyond the board: the adapter, the bus, the instruments, the
-- clock. A call returns its results and the next state, so an adapter may answer in any way.
use darwin_gpib.Prelude.{ℕ, Bool, List, length, ◌≤◌, ◌==◌, if◌then◌else◌}
-- `enum GPIBTransportError`; a return code is a number, as in the source, and 0 is success.
pub mod Rc

-- What `writeData` returns, with its out-parameter.
pub record Written : Type 0 where
  pub rc : ℕ
  pub count : ℕ

-- What `readData` returns: the bytes put into the buffer and the END flag.
pub record Received : Type 0 where
  pub rc : ℕ
  pub bytes : List ℕ
  pub count : ℕ
  pub end_flag : ℕ

-- A count is within its bytes, and the bytes within a buffer of `n`.
abbrev pub Within : ℕ → Received → Type 0
Within n r = (r.count ≤ length r.bytes) × (length r.bytes ≤ n)

-- A return code with the value of an out-parameter.
pub record Answer : Type 0 where
  pub rc : ℕ
  pub value : ℕ

-- `class IGPIBTransport`, the operations that the board calls.
pub record Transport (W : Type 0) : Type 0 where
  pub pulse_interface_clear : W → ℕ × W
  pub set_remote_enable : Bool → W → ℕ × W
  pub send_command_bytes : List ℕ → W → ℕ × W
  pub write_data : List ℕ → Bool → ℕ → W → Written × W
  pub read_data : ℕ → ℕ → ℕ → ℕ → W → Received × W
  pub read_bus_lines : W → Answer × W
  pub take_control : Bool → W → ℕ × W
  pub release_atn : W → ℕ × W
  pub read_raw_register : ℕ → W → Answer × W
  pub soft_reset : W → ℕ × W
  pub reset_device : W → ℕ × W
  pub set_max_data_chunk : ℕ → W → ℕ × W
  pub write_raw_register : ℕ → ℕ → W → ℕ × W

-- The pure virtual operations, which every adapter has to provide.
pub record Required (W : Type 0) : Type 0 where
  pub pulse_interface_clear : W → ℕ × W
  pub set_remote_enable : Bool → W → ℕ × W
  pub send_command_bytes : List ℕ → W → ℕ × W
  pub write_data : List ℕ → Bool → ℕ → W → Written × W
  pub read_data : ℕ → ℕ → ℕ → ℕ → W → Received × W

-- An adapter that overrides none of the optional operations: the default bodies of the class.
unfoldable pub with_defaults : {W : Type 0} → Required W → Transport W
with_defaults r = record {
  pulse_interface_clear = r.pulse_interface_clear;
  set_remote_enable = r.set_remote_enable;
  send_command_bytes = r.send_command_bytes;
  write_data = r.write_data;
  read_data = r.read_data;
  read_bus_lines = λ w. (record { rc = Rc.err_io; value = 0 }, w);
  take_control = λ synchronous w. (Rc.success, w);
  release_atn = λ w. (Rc.err_io, w);
  read_raw_register = λ reg w. (record { rc = Rc.err_io; value = 0 }, w);
  soft_reset = λ w. (Rc.err_not_ready, w);
  reset_device = λ w. (Rc.err_not_ready, w);
  set_max_data_chunk = λ bytes w. (Rc.err_not_ready, w);
  write_raw_register = λ reg value w. (Rc.err_io, w);
}
