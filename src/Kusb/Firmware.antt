-- ===== src/Kusb/Firmware.antt =====
-- KUSB488BTransport.cpp: `sendCommandBytesViaFirmware` and `writeDataViaFirmware`. A chunk is armed, goes
-- out on its pipe and is polled to its end.
use darwin_gpib.Prelude.{
  ◌%◌, ◌^◌, ℕ, zero, suc, ◌+◌, Bool, List, [], ◌∷◌, ◌==◌, ◌&&◌, not, if◌then◌else◌, ltb, length,
  take, drop,
}
use darwin_gpib.Transport.{Written}
use darwin_gpib.Transport.Rc
use darwin_gpib.Usb.{Device, ◌>>=◌, pure}
use darwin_gpib.Kusb.{Ends, K, get_session}
use darwin_gpib.Kusb.Wire.{req_begin_cmd, req_begin_write}
use darwin_gpib.Kusb.Control.{
  bulk_out, begin_transfer, recover_firmware_engine, data_out_pipe, cmd_out_pipe,
}
use darwin_gpib.Kusb.Status.{Polled, unset, poll_status}
use darwin_gpib.Kusb.Registers.{release_rfd_holdoff_if_pending}

-- A chunk's code, and the count that the device reports.
abbrev pub Chunk : Type 0
Chunk = Polled

-- The size of the next chunk: 0 stands for no limit.
unfoldable pub chunk_of : ℕ → List ℕ → List ℕ
chunk_of limit rest = if not (limit == 0) && ltb limit (length rest) then take limit rest else rest

-- The value of KUSB_REQ_BEGIN_WRITE: bit 8 asks for EOI, and only the last chunk may.
unfoldable pub write_value : Bool → Bool → ℕ
write_value send_eoi last = if send_eoi && last then 256 else 0

module _ {W : Type 0} (v : Device W) (e : Ends) where
  -- Arm, send, poll. A send that fails is followed by the recovery.
  unfoldable pub transfer_chunk : ℕ → ℕ → Bool → ℕ → ℕ → ℕ → ℕ → List ℕ → K W Chunk
  transfer_chunk request value ready pipe status_len count_width timeout_us chunk = do
    armed ← begin_transfer v e request value 0 (length chunk) timeout_us
    let polled = poll_status v e status_len count_width timeout_us
    let sent = (do
      rc ← bulk_out v e ready pipe chunk timeout_us
      let recovered = do r ← recover_firmware_engine v e; pure (unset rc)
      if rc == Rc.success then polled else recovered)
    if armed == Rc.success then sent else pure (unset armed)

  unfoldable pub command_chunk : List ℕ → K W Chunk
  command_chunk chunk =
      transfer_chunk req_begin_cmd 1 e.cmd_out_ready cmd_out_pipe 7 2 3000000 chunk

  -- The loop over the bytes that are left, on fuel: a chunk takes one at least. KUSB_MAX_CMD_BYTES is 512.
  unfoldable pub command_loop : ℕ → List ℕ → K W ℕ
  command_loop fuel [] s = (Rc.success, s)
  command_loop zero (c ∷ cs) s = (Rc.err_io, s)
  command_loop (suc fuel) (c ∷ cs) s =
      let (p, s') = command_chunk (take 512 (c ∷ cs)) s in
      let more = command_loop fuel (drop 512 (c ∷ cs)) s' in
      if not (p.rc == Rc.success)
      then (p.rc, s')
      else if p.count == length (take 512 (c ∷ cs))
      then more
      else (Rc.err_no_listener, s')

  unfoldable pub send_command_bytes_via_firmware : List ℕ → K W ℕ
  send_command_bytes_via_firmware cmds =
      if length cmds == 0
      then pure Rc.success
      else (do released ← release_rfd_holdoff_if_pending v e; command_loop (length cmds) cmds)

  unfoldable pub write_chunk : Bool → Bool → ℕ → List ℕ → K W Chunk
  write_chunk send_eoi last timeout_us chunk =
      transfer_chunk req_begin_write (write_value send_eoi last) e.data_out_ready data_out_pipe 6 4
        timeout_us chunk

  -- `done` bytes are behind. The count of a chunk that came up short is added all the same, in
  -- 32 bits.
  unfoldable pub write_loop : ℕ → ℕ → Bool → ℕ → ℕ → List ℕ → K W Written
  write_loop fuel limit send_eoi timeout_us done [] s =
      (record { rc = Rc.success; count = done }, s)
  write_loop zero limit send_eoi timeout_us done (x ∷ xs) s =
      (record { rc = Rc.err_io; count = done }, s)
  write_loop (suc fuel) limit send_eoi timeout_us done (x ∷ xs) s =
      let chunk = chunk_of limit (x ∷ xs) in
      let (p, s') = write_chunk send_eoi (length chunk == length (x ∷ xs)) timeout_us chunk s in
      let more =
        write_loop fuel limit send_eoi timeout_us (done + length chunk)
          (drop (length chunk) (x ∷ xs)) s' in
      if not (p.rc == Rc.success)
      then (record { rc = p.rc; count = done }, s')
      else if p.count == length chunk
      then more
      else (record { rc = Rc.err_no_listener; count = (done + p.count) % 2 ^ 32 }, s')

  unfoldable pub write_data_via_firmware : List ℕ → Bool → ℕ → K W Written
  write_data_via_firmware buf send_eoi timeout_us =
      if length buf == 0 then pure (record { rc = Rc.success; count = 0 }) else (do
        released ← release_rfd_holdoff_if_pending v e
        s ← get_session
        write_loop (length buf) s.max_data_chunk send_eoi timeout_us 0 buf)
