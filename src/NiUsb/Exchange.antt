-- ===== src/NiUsb/Exchange.antt =====
-- NIUSBTransport.cpp: `bulkOut` to `runInitSequence`. A packet goes out, a response comes back.
use darwin_gpib.Prelude.{
  ℕ, ◌-◌, ◌/◌, Bool, List, [], ◌∷◌, ◌==◌, ◌&&◌, if◌then◌else◌, ltb, leb, length, get_or, min, take,
}
use darwin_gpib.Transport.{Written, Received, Transport, with_defaults}
use darwin_gpib.Transport.Rc
use darwin_gpib.Usb.{Kern, Pipes, map_io_return, U, ◌>>=◌, pure, and_then, Reply}
use darwin_gpib.NiUsb.Wire.{
  reg_read_id, reg_write_id, term_id, register_data_id, nec_to_tnt, auxmr, parse_status_block,
  map_ni_error, command_packet, write_packet, read_packet,
}
use darwin_gpib.NiUsb.Receive.{parse_response}

-- `kBulkBufferSize`.
abbrev pub bulk_buffer_size : ℕ
bulk_buffer_size = 4096

-- The pointers of `NIUSBTransport` that an exchange tests: pipe and buffer, out and in.
pub record Ends : Type 0 where
  pub out_ready : Bool
  pub in_ready : Bool

-- Microseconds to the pipe's milliseconds: 0 for no timeout, otherwise at least 1.
unfoldable pub timeout_ms : ℕ → ℕ
timeout_ms us =
    if us == 0xffff_ffff then 0 else (let ms : ℕ = us / 1000 in if ms == 0 then 1 else ms)

-- What the status block says of a write of `len` bytes.
unfoldable pub write_verdict : ℕ → Reply → Written
write_verdict len r =
    if r.rc == Rc.success
    then (if ltb (length r.bytes) 8
        then record { rc = Rc.err_io; count = 0 }
        else (let st = parse_status_block r.bytes in
            record {
              rc = map_ni_error st.error_code;
              count = if leb st.count len then len - st.count else 0;
            }))
    else record { rc = r.rc; count = 0 }

unfoldable pub read_verdict : ℕ → Reply → Received
read_verdict request r =
    if r.rc == Rc.success
    then parse_response request r.bytes
    else record { rc = r.rc; bytes = []; count = 0; end_flag = 0 }

module _ {W : Type 0} (q : Pipes W) (e : Ends) where
  unfoldable pub bulk_out : List ℕ → ℕ → U W ℕ
  bulk_out bytes timeout_us =
      if e.out_ready
      then (if ltb bulk_buffer_size (length bytes) then pure Rc.err_io else (do
        mapped ← q.map_out
        let sent = do code ← q.io_out bytes (timeout_ms timeout_us); pure (map_io_return code)
        elim mapped [ Kern.success ↦ sent | k ↦ pure (map_io_return k) ]))
      else pure Rc.err_not_ready

  -- The pipe delivers at most the capacity that it is given.
  delivered : ℕ → ℕ → U W Reply
  delivered capacity timeout_us = do
    r ← q.io_in capacity (timeout_ms timeout_us)
    let copied = do
      mapped ← q.map_in
      pure (elim mapped [
        | Kern.success ↦ record { rc = Rc.success; bytes = r.bytes }
        | k ↦ record { rc = map_io_return k; bytes = [] }
      ])
    elim r.code [ Kern.success ↦ copied | k ↦ pure (record { rc = map_io_return k; bytes = [] }) ]

  unfoldable pub bulk_in : ℕ → ℕ → U W Reply
  unfolding delivered
  bulk_in capacity timeout_us =
      if e.in_ready
      then delivered (min capacity bulk_buffer_size) timeout_us
      else pure (record { rc = Rc.err_not_ready; bytes = [] })

  -- The response to a register write is read and dropped.
  unfoldable pub write_register : ℕ → ℕ → U W ℕ
  write_register nec_reg value = do
    rc ← bulk_out (reg_write_id ∷ 1 ∷ nec_to_tnt nec_reg ∷ value ∷ term_id ∷ 0 ∷ 0 ∷ 0 ∷ []) 100000
    and_then rc (do r ← bulk_in 64 100000; pure Rc.success)

  -- The value of a register, `bytes[0]`, or an error.
  register_value : Reply → Reply
  register_value r =
      if r.rc == Rc.success
      then (if leb 3 (length r.bytes) && (get_or r.bytes 0 0 == register_data_id)
          then record { rc = Rc.success; bytes = get_or r.bytes 2 0 ∷ [] }
          else record { rc = Rc.err_io; bytes = [] })
      else record { rc = r.rc; bytes = [] }

  unfoldable pub read_register : ℕ → U W Reply
  unfolding register_value
  read_register nec_reg = do
    rc ← bulk_out (reg_read_id ∷ 1 ∷ nec_to_tnt nec_reg ∷ term_id ∷ 0 ∷ 0 ∷ 0 ∷ 0 ∷ []) 100000
    if rc == Rc.success
        then (do r ← bulk_in 64 100000; pure (register_value r))
        else pure (record { rc = rc; bytes = [] })

  unfoldable pub write_aux_cmd : ℕ → U W ℕ
  write_aux_cmd = write_register auxmr

  -- AUX_SIFC, a millisecond, AUX_CIFC.
  unfoldable pub pulse_interface_clear : U W ℕ
  pulse_interface_clear = do
    rc ← write_aux_cmd 0x1e
    and_then rc (do slept ← q.sleep_ms 1; write_aux_cmd 0x16)

  -- AUX_SREN or AUX_CREN.
  unfoldable pub set_remote_enable : Bool → U W ℕ
  set_remote_enable enable = write_aux_cmd (if enable then 0x1f else 0x17)

  -- AUX_CR, two milliseconds, AUX_PON.
  unfoldable pub run_init_sequence : U W ℕ
  run_init_sequence = do
    rc ← write_aux_cmd 0x02
    and_then rc (do slept ← q.sleep_ms 2; write_aux_cmd 0x00)

  -- The verdict of a status block that has to be there.
  command_verdict : Reply → ℕ
  command_verdict r =
      if r.rc == Rc.success
      then (if ltb (length r.bytes) 8
          then Rc.err_io
          else map_ni_error (parse_status_block r.bytes).error_code)
      else r.rc

  -- More than 16 bytes are cut down to 16.
  unfoldable pub send_command_bytes : List ℕ → U W ℕ
  unfolding command_verdict
  send_command_bytes cmds = if length cmds == 0 then pure Rc.success else (do
    rc ← bulk_out (command_packet (take 16 cmds)) 3000000
    and_then rc (do r ← bulk_in 32 3000000; pure (command_verdict r)))

  -- `kMaxPayload` is 4080.
  unfoldable pub write_data : List ℕ → Bool → ℕ → U W Written
  unfolding write_verdict
  write_data buf send_eoi timeout_us =
      if length buf == 0 then pure (record { rc = Rc.success; count = 0 }) else (do
        let part = take (bulk_buffer_size - 16) buf
        rc ← bulk_out (write_packet part send_eoi timeout_us) timeout_us
        if rc == Rc.success
            then (do r ← bulk_in 32 timeout_us; pure (write_verdict (length part) r))
            else pure (record { rc = rc; count = 0 }))

  -- `kMaxRead` is 4032.
  unfoldable pub read_data : ℕ → ℕ → ℕ → ℕ → U W Received
  unfolding read_verdict
  read_data request_count eos_char eos_flags timeout_us =
      if request_count == 0
      then pure (record { rc = Rc.success; bytes = []; count = 0; end_flag = 0 })
      else (do
        let request = min request_count (bulk_buffer_size - 64)
        rc ← bulk_out (read_packet request eos_char eos_flags timeout_us) timeout_us
        if rc == Rc.success
            then (do r ← bulk_in bulk_buffer_size timeout_us; pure (read_verdict request r))
            else pure (record { rc = rc; bytes = []; count = 0; end_flag = 0 }))

  -- The transport overrides the required operations and no other.
  unfoldable pub ni_transport : Transport W
  ni_transport = with_defaults (record {
    pulse_interface_clear = pulse_interface_clear;
    set_remote_enable = set_remote_enable;
    send_command_bytes = send_command_bytes;
    write_data = write_data;
    read_data = read_data;
  })
