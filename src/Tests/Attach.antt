-- ===== src/Tests/Attach.antt =====
-- Adapters that are attached.
use darwin_gpib.Prelude.{
  ℕ, ◌≡◌, ◌⊎◌, refl, true, false, [], ◌∷◌, some, length, get_or, ◌==◌, if◌then◌else◌,
}
use darwin_gpib.Transport.Rc
use darwin_gpib.Usb.{Kern, Device, map_io_return}
use darwin_gpib.Agilent.Operations.{run_init_sequence}
use darwin_gpib.Agilent.Exchange.{write_registers, read_registers, bulk_out, bulk_in}
use darwin_gpib.Agilent.Wire.{write_regs_packet, read_regs_packet, map_agilent_fw_error}
use darwin_gpib.Kusb.Endpoints.{resolve_endpoints, walk_descriptors, visit}
use darwin_gpib.Kusb.BringUp.{run_bring_up_sequence, apply_settings, apply_setting}
use darwin_gpib.Kusb.Registers.{write_command_block, write_raw_register}
use darwin_gpib.Kusb.Control.{control_out, abort_transfer, recover_firmware_engine}
use darwin_gpib.Lifecycle.{
  Host, Held, nothing_held, acquire, acquire_device, unless_returned, acquire_interrupt,
}
use darwin_gpib.Lifecycle.Agilent
use darwin_gpib.Lifecycle.Kusb
use darwin_gpib.Lifecycle.Laws.{kusb_attached, Lacks}
use darwin_gpib.Tests.Wired.{device, configuration, interface}

-- A host that grants every call.
abbrev host : Host ℕ
host = record {
  copy_device = λ w. ((Kern.success, true), w);
  open_device = λ w. (Kern.success, w);
  close_device = λ w. (tt, w);
  copy_pipe = λ number w. (Kern.success, w);
  create_buffer = λ size w. (Kern.success, w);
}

-- An Agilent adapter; the world is the number of the packet that it was sent last.
abbrev answering : Device ℕ
answering = record device {
  io_out =
      λ pipe bytes ms w. (record { code = Kern.success; count = length bytes }, get_or bytes 0 0);
  io_in = λ pipe capacity ms w. (
    record {
      code = Kern.success;
      bytes = if w == 0x04 then (0xfb ∷ 0 ∷ []) else (0xfa ∷ 0 ∷ 0x80 ∷ []);
    },
    w,
  );
  sleep_ms = λ ms w. (tt, w);
}

abbrev uncached : Agilent.Cached ℕ
uncached = record { hw_control_bits = 0; world = 0 }

agilent_well : (Agilent.attach host answering 0x0718 (nothing_held, uncached)).0 ≡ Rc.success
unfolding Agilent.attach unless_returned acquire_device map_io_return Agilent.open_pipes acquire
    Agilent.initialise run_init_sequence write_registers bulk_out acquire_interrupt
    write_regs_packet bulk_in map_agilent_fw_error read_registers read_regs_packet
agilent_well = refl

kusb_well :
    (Kusb.attach host device (some (configuration, interface)) (nothing_held, Kusb.init 0)).0
    ≡ Rc.success
unfolding Kusb.attach unless_returned Kusb.init acquire_device map_io_return Kusb.resolve
    resolve_endpoints walk_descriptors visit Kusb.open_pipes Kusb.pipe acquire Kusb.buffers
    Kusb.buffer Kusb.bring_up run_bring_up_sequence apply_settings apply_setting write_command_block
    control_out abort_transfer recover_firmware_engine write_raw_register
kusb_well = refl

kusb_attached_example :
    let start : Held × Kusb.Wired ℕ = (nothing_held, Kusb.init 0) in
    let s = (Kusb.attach host device (some (configuration, interface)) start).1 in
    ((Kusb.ends_of s.0 ≡ record {
      device_ready = true;
      ctrl_ready = true;
      out_buffer = true;
      in_buffer = true;
      data_out_ready = true;
      cmd_out_ready = true;
      data_in_ready = true;
    })
      × (s.1.session.rfd_holdoff_pending ≡ false))
    ⊎ (Lacks host.copy_device (Kusb.init 0).session.world
        × (s.0 ≡ record nothing_held { device = false }))
kusb_attached_example =
    kusb_attached host device (some (configuration, interface)) (nothing_held, Kusb.init 0)
      kusb_well
