-- ===== src/Agilent/Operations.antt =====
-- Agilent82357Transport.cpp: the transport's operations, `detach` and `runInitSequence`.
use darwin_gpib.Prelude.{
  ℕ, ◌+◌, Bool, true, false, List, [], ◌∷◌, ◌==◌, if◌then◌else◌, leb, length, get_or, min, take,
  bit_and, bit_or,
}
use darwin_gpib.Transport.{Written, Received, Answer, Transport, with_defaults}
use darwin_gpib.Transport.Rc
use darwin_gpib.Usb.{
  Kern, Device, Incoming, map_io_return, U, ◌>>=◌, pure, and_then, Reply, le32_at,
}
use darwin_gpib.Agilent.Regs.{
  tms_imr0, tms_imr1, tms_auxcr, tms_adr, tms_spmr, tms_ppr, tms_bsr, aux_cs, aux_chip_reset,
  aux_inval, aux_hlde, aux_nbaf, aux_lon, aux_ton, aux_rpp, aux_sic, aux_sre, aux_rqc, aux_stdl,
  aux_vstdl, aux_rsv2, fw_hw_control, fw_led_control, fw_reset_to_powerup, fw_protocol_control,
  fw_fast_talker_t1, hwc_not_ti_reset, hwc_system_controller, hwc_not_parallel_poll,
}
use darwin_gpib.Agilent.Wire.{
  RegPair, nanos_to_fast_talker, max_payload, command_packet, write_packet, read_packet,
  read_result, bsr_lines,
}
use darwin_gpib.Agilent.Exchange.{
  Ends, bulk_out, bulk_in, send_abort, write_registers, read_registers, write_reg,
}

-- A register pair `{ address, value }`.
abbrev reg : ℕ → ℕ → RegPair
reg address value = record { address = address; value = value }

-- The verdict on the transfer status after a write of `len` bytes: the adapter's count where it sent
-- one, none where the buffer could not be mapped, and `len` where there was no answer.
unfoldable pub write_status : ℕ → Incoming → Kern → Written
write_status len r mapped = elim r.code [
  | Kern.success ↦
      if leb 6 (length r.bytes)
      then elim mapped [
        | Kern.success ↦ record { rc = Rc.success; count = le32_at r.bytes 2 }
        | k ↦ record { rc = Rc.success; count = 0 }
      ]
      else record { rc = Rc.success; count = len }
  | k ↦ record { rc = Rc.success; count = len }
]

-- The second batch of `runInitSequence`: 18 register writes.
abbrev chip_setup : ℕ → List RegPair
chip_setup t1_bits =
    reg tms_auxcr aux_nbaf
    ∷ reg tms_auxcr aux_hlde
    ∷ reg tms_auxcr aux_ton
    ∷ reg tms_auxcr aux_lon
    ∷ reg tms_auxcr aux_rsv2
    ∷ reg tms_auxcr aux_inval
    ∷ reg tms_auxcr aux_rpp
    ∷ reg tms_auxcr aux_stdl
    ∷ reg tms_auxcr aux_vstdl
    ∷ reg fw_fast_talker_t1 t1_bits
    ∷ reg tms_adr 0
    ∷ reg tms_ppr 0
    ∷ reg tms_spmr 0
    ∷ reg fw_protocol_control 1
    ∷ reg tms_imr0 0x30
    ∷ reg tms_imr1 0x02
    ∷ reg tms_auxcr aux_chip_reset
    ∷ reg fw_led_control 0x01
    ∷ []

-- `(rd.value & ~0x07)` with the three bits of a system controller.
unfoldable pub controller_bits : ℕ → ℕ
controller_bits value =
    bit_or (bit_or (bit_or (bit_and value 0xf8) hwc_not_ti_reset) hwc_not_parallel_poll)
      hwc_system_controller

module _ {W : Type 0} (v : Device W) (e : Ends) where
  unfoldable pub pulse_interface_clear : U W ℕ
  pulse_interface_clear = do
    rc ← write_reg v e tms_auxcr (bit_or aux_cs aux_sic)
    and_then rc (do slept ← v.sleep_ms 1; write_reg v e tms_auxcr aux_sic)

  unfoldable pub set_remote_enable : Bool → U W ℕ
  set_remote_enable enable =
      write_reg v e tms_auxcr (if enable then bit_or aux_sre aux_cs else aux_sre)

  -- The status request whose buffer is not there is skipped.
  status_after : U W ℕ
  status_after =
      if e.device_ready
      then (do
        made ← v.create_buffer 8
        elim made [
          | Kern.success ↦ (do r ← v.request_in 0x04 0xb0 0 8; pure (map_io_return r.code))
          | k ↦ pure Rc.success
        ])
      else pure Rc.success

  unfoldable pub send_command_bytes : List ℕ → U W ℕ
  unfolding status_after
  send_command_bytes cmds = if length cmds == 0 then pure Rc.success else (do
    rc ← bulk_out v e (command_packet (take max_payload cmds)) 1000000
    if rc == Rc.success then status_after else (do stopped ← send_abort v e false; pure rc))

  -- `buf` is the part that was sent.
  written_after : List ℕ → U W Written
  unfolding write_status
  written_after buf =
      if e.device_ready
      then (do
        made ← v.create_buffer 8
        let asked = do
          r ← v.request_in 0x04 0xb0 0 8
          let read = do mapped ← v.map_buffer; pure (write_status (length buf) r mapped)
          elim r.code [
            | Kern.success ↦
                if leb 6 (length r.bytes)
                then read
                else pure (write_status (length buf) r Kern.success)
            | k ↦ pure (write_status (length buf) r Kern.success)
          ]
        elim made [
          | Kern.success ↦ asked
          | k ↦ pure (record { rc = Rc.success; count = length buf })
        ])
      else pure (record { rc = Rc.success; count = length buf })

  unfoldable pub write_data : List ℕ → Bool → ℕ → U W Written
  unfolding written_after
  write_data buf send_eoi timeout_us =
      if length buf == 0 then pure (record { rc = Rc.success; count = 0 }) else (do
        rc ← bulk_out v e (write_packet (take max_payload buf) send_eoi) timeout_us
        if rc == Rc.success
            then written_after (take max_payload buf)
            else (do stopped ← send_abort v e false; pure (record { rc = rc; count = 0 })))

  -- After a time-out the adapter is flushed and asked for the rest, whose code is dropped.
  read_flushed : ℕ → U W Received
  read_flushed request = do
    flushed ← send_abort v e true
    extra ← bulk_in v e (request + 1) 100000
    pure (read_result request extra.bytes)

  read_after : ℕ → Reply → U W Received
  unfolding read_flushed
  read_after request r =
      if r.rc == Rc.err_timeout
      then read_flushed request
      else if r.rc == Rc.success
      then pure (read_result request r.bytes)
      else (do
        stopped ← send_abort v e false
        pure (record { rc = r.rc; bytes = []; count = 0; end_flag = 0 }))

  -- `kMaxRead` is 4064. The end-of-string flags are not used.
  unfoldable pub read_data : ℕ → ℕ → ℕ → ℕ → U W Received
  unfolding read_after
  read_data request_count eos_char eos_flags timeout_us =
      if request_count == 0
      then pure (record { rc = Rc.success; bytes = []; count = 0; end_flag = 0 })
      else (do
        let request = min request_count 4064
        rc ← bulk_out v e (read_packet request eos_char) timeout_us
        if rc == Rc.success
            then (do r ← bulk_in v e (request + 1) timeout_us; read_after request r)
            else (do
              stopped ← send_abort v e false
              pure (record { rc = rc; bytes = []; count = 0; end_flag = 0 })))

  unfoldable pub read_bus_lines : U W Answer
  read_bus_lines = do
    r ← read_registers v e (tms_bsr ∷ [])
    pure (
        if r.rc == Rc.success
        then record { rc = Rc.success; value = bsr_lines (get_or r.bytes 0 0) }
        else record { rc = r.rc; value = 0 })

  -- The required operations and `readBusLines`.
  unfoldable pub agilent_transport : Transport W
  agilent_transport =
      record (with_defaults (record {
        pulse_interface_clear = pulse_interface_clear;
        set_remote_enable = set_remote_enable;
        send_command_bytes = send_command_bytes;
        write_data = write_data;
        read_data = read_data;
      })) { read_bus_lines = read_bus_lines }

  -- The last step of `runInitSequence`: the hardware control bits are kept, and written back.
  take_the_bus : Reply → U W Reply
  unfolding controller_bits
  take_the_bus r =
      if r.rc == Rc.success
      then (do
        let bits = controller_bits (get_or r.bytes 0 0)
        rc ←
            write_registers v e
              (reg tms_auxcr (bit_or aux_cs aux_rqc) ∷ reg fw_hw_control bits ∷ [])
        pure (record { rc = rc; bytes = bits ∷ [] }))
      else pure (record { rc = r.rc; bytes = [] })

  -- The code, and the new `hwControlBits_` once they are set.
  unfoldable pub run_init_sequence : U W Reply
  unfolding take_the_bus
  run_init_sequence = do
    first ← write_registers v e (reg fw_led_control 0x20 ∷ reg fw_reset_to_powerup 0x01 ∷ [])
    let setup = do
      slept ← v.sleep_ms 3
      second ← write_registers v e (chip_setup (nanos_to_fast_talker 800).0)
      let control = do r ← read_registers v e (fw_hw_control ∷ []); take_the_bus r
      if second == Rc.success then control else pure (record { rc = second; bytes = [] })
    if first == Rc.success then setup else pure (record { rc = first; bytes = [] })

  -- `detach` up to `closePipes`: the chip is left in reset; the new `hwControlBits_`.
  unfoldable pub detach : ℕ → U W ℕ
  detach hw_control_bits = do
    let bits = bit_and hw_control_bits 0xfe
    done ← write_registers v e (
        reg tms_auxcr (bit_or aux_cs aux_chip_reset)
        ∷ reg fw_hw_control bits
        ∷ reg fw_protocol_control 0
        ∷ reg tms_imr0 0
        ∷ reg tms_imr1 0
        ∷ reg fw_led_control 0
        ∷ [])
    pure bits
