-- ===== src/Kusb/Operations.antt =====
-- KUSB488BTransport.cpp: the choice of the pipeline, and the transport as the board uses it.
pub mod Recording
pub mod Chunks
pub mod Sends
pub mod Writes
pub mod Commands
pub mod Fuel
pub mod Rounds
pub mod Reads
pub mod Stuck
pub mod Waits
pub mod Bytewise
pub mod Lines
use darwin_gpib.Prelude.{ℕ, Bool, true, false, List, Option, none, some, if◌then◌else◌}
use darwin_gpib.Transport.{Written, Received, Transport}
use darwin_gpib.Usb.{Device, ◌>>=◌, pure}
use darwin_gpib.Kusb.{Session, Ends, K}
use darwin_gpib.Kusb.BringUp.{soft_reset}
use darwin_gpib.Kusb.Registers.{
  pulse_interface_clear, set_remote_enable, read_bus_lines, take_control, release_atn,
  read_raw_register, reset_device, set_max_data_chunk, write_raw_register,
}
use darwin_gpib.Kusb.Firmware.{send_command_bytes_via_firmware, write_data_via_firmware}
use darwin_gpib.Kusb.Reading.{read_data_via_firmware}
use darwin_gpib.Kusb.Registered.{
  send_command_bytes_via_registers, write_data_via_registers, read_data_via_registers,
}

-- `kUseFirmwarePipeline`.
abbrev pub use_firmware_pipeline : Bool
use_firmware_pipeline = true

module _ {W : Type 0} (v : Device W) (e : Ends) where
  unfoldable pub send_command_bytes : List ℕ → K W ℕ
  send_command_bytes cmds =
      if use_firmware_pipeline
      then send_command_bytes_via_firmware v e cmds
      else send_command_bytes_via_registers v e cmds

  unfoldable pub write_data : List ℕ → Bool → ℕ → K W Written
  write_data buf send_eoi timeout_us =
      if use_firmware_pipeline
      then write_data_via_firmware v e buf send_eoi timeout_us
      else write_data_via_registers v e buf send_eoi timeout_us

  unfoldable pub read_data : ℕ → ℕ → ℕ → ℕ → ℕ → K W (Option Received)
  read_data fuel request_count eos_char eos_flags timeout_us =
      if use_firmware_pipeline
      then read_data_via_firmware v e fuel request_count eos_char eos_flags timeout_us
      else (do
        r ← read_data_via_registers v e request_count eos_char eos_flags timeout_us
        pure (some r))

  -- The transport, with `fuel` for a read. `never` stands where a read has not come back by then.
  unfoldable pub kusb_transport : ℕ → Received → Transport (Session W)
  kusb_transport fuel never = record {
    pulse_interface_clear = pulse_interface_clear v e;
    set_remote_enable = set_remote_enable v e;
    send_command_bytes = send_command_bytes;
    write_data = write_data;
    read_data = λ request_count eos_char eos_flags timeout_us. (do
      r ← read_data fuel request_count eos_char eos_flags timeout_us
      pure (elim r [ none ↦ never | some x ↦ x ]));
    read_bus_lines = read_bus_lines v e;
    take_control = take_control v e;
    release_atn = release_atn v e;
    read_raw_register = read_raw_register v e;
    soft_reset = soft_reset v e;
    reset_device = reset_device v e;
    set_max_data_chunk = set_max_data_chunk v e;
    write_raw_register = write_raw_register v e;
  }
