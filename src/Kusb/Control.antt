-- ===== src/Kusb/Control.antt =====
-- KUSB488BTransport.cpp: control requests, bulk transfers, `beginTransfer`, `abortTransfer` and
-- `recoverFirmwareEngine`.
use darwin_gpib.Prelude.{
  ℕ, zero, suc, Bool, List, [], ◌∷◌, ◌==◌, ◌&&◌, ◌||◌, if◌then◌else◌, ltb, length, min, take, drop,
}
use darwin_gpib.Transport.Rc
use darwin_gpib.Usb.{Kern, Device, map_io_return, ◌>>=◌, pure, Reply}
use darwin_gpib.Kusb.{Ends, K, dev, dev_}
use darwin_gpib.Kusb.Wire.{ms_from_usec, transfer_header, req_abort}

-- The pipes by number.
abbrev pub data_out_pipe : ℕ
data_out_pipe = 2

abbrev pub cmd_out_pipe : ℕ
cmd_out_pipe = 3

abbrev pub data_in_pipe : ℕ
data_in_pipe = 4

abbrev pub bulk_buffer_size : ℕ
bulk_buffer_size = 4096

-- An exchange that failed, with no bytes.
abbrev pub nothing : ℕ → Reply
nothing rc = record { rc = rc; bytes = [] }

-- What a bulk transfer came to.
pub data Part : Type 0 where
  failed : ℕ → Part
  sent : ℕ → Part

module _ {W : Type 0} (v : Device W) (e : Ends) where
  requested : ℕ → ℕ → ℕ → List ℕ → K W ℕ
  requested request value index payload = do
    r ← dev (v.request_out request value index payload)
    pure (elim r.code [
      | Kern.success ↦ if r.count == length payload then Rc.success else Rc.err_io
      | k ↦ map_io_return k
    ])

  unfoldable pub control_out : ℕ → ℕ → ℕ → List ℕ → K W ℕ
  unfolding requested
  control_out request value index payload =
      let filled = (do
        mapped ← dev v.map_buffer
        elim mapped [
          | Kern.success ↦ requested request value index payload
          | k ↦ pure (map_io_return k)
        ]) in
      if e.device_ready
      then (if length payload == 0
          then requested request value index payload
          else (if e.ctrl_ready
              then (if ltb 64 (length payload) then pure Rc.err_io else filled)
              else pure Rc.err_io))
      else pure Rc.err_not_ready

  answered : ℕ → ℕ → ℕ → ℕ → K W Reply
  answered request value index size = do
    r ← dev (v.request_in request value index size)
    let copied = do
      mapped ← dev v.map_buffer
      pure (elim mapped [
        | Kern.success ↦ record { rc = Rc.success; bytes = take size r.bytes }
        | k ↦ nothing (map_io_return k)
      ])
    elim r.code [ Kern.success ↦ copied | k ↦ pure (nothing (map_io_return k)) ]

  unfoldable pub control_in : ℕ → ℕ → ℕ → ℕ → K W Reply
  unfolding answered
  control_in request value index size =
      if e.device_ready && e.ctrl_ready
      then (if ltb 64 size then pure (nothing Rc.err_io) else answered request value index size)
      else pure (nothing Rc.err_not_ready)

  -- One transfer of `bulkOut`: the bytes that went, or the code that ends the loop.
  unfoldable pub send_part : ℕ → ℕ → List ℕ → K W Part
  send_part pipe ms part = do
    mapped ← dev v.map_buffer
    let sent = do
      r ← dev (v.io_out pipe part ms)
      pure (elim r.code [ Kern.success ↦ Part.sent r.count | k ↦ Part.failed (map_io_return k) ])
    elim mapped [ Kern.success ↦ sent | k ↦ pure (Part.failed (map_io_return k)) ]

  -- The loop of `bulkOut` over the bytes that are left, on fuel: a round that goes on sends a byte at
  -- least. No byte ends the loop short, and a device that claims more than is left ends it beyond.
  unfoldable pub bulk_loop : ℕ → ℕ → ℕ → List ℕ → K W ℕ
  bulk_loop fuel pipe ms [] s = (Rc.success, s)
  bulk_loop zero pipe ms (x ∷ xs) s = (Rc.err_io, s)
  bulk_loop (suc fuel) pipe ms (x ∷ xs) s =
      let (part, s') = send_part pipe ms (take bulk_buffer_size (x ∷ xs)) s in
      elim part [
        | failed rc ↦ (rc, s')
        | sent count ↦
            let more = bulk_loop fuel pipe ms (drop count (x ∷ xs)) s' in
            if (count == 0) || ltb (length (x ∷ xs)) count then (Rc.err_io, s') else more
      ]

  -- `ready` says that the pipe is there.
  unfoldable pub bulk_out : Bool → ℕ → List ℕ → ℕ → K W ℕ
  bulk_out ready pipe bytes timeout_us =
      if ready && e.out_buffer
      then bulk_loop (length bytes) pipe (ms_from_usec timeout_us) bytes
      else pure Rc.err_not_ready

  received : ℕ → ℕ → K W Reply
  received capacity timeout_us = do
    r ← dev (v.io_in data_in_pipe capacity (ms_from_usec timeout_us))
    let copied = do
      mapped ← dev v.map_buffer
      pure (elim mapped [
        | Kern.success ↦ record { rc = Rc.success; bytes = r.bytes }
        | k ↦ nothing (map_io_return k)
      ])
    elim r.code [ Kern.success ↦ copied | k ↦ pure (nothing (map_io_return k)) ]

  -- The only pipe that is read is data-in.
  unfoldable pub bulk_in : ℕ → ℕ → K W Reply
  unfolding received
  bulk_in capacity timeout_us =
      if e.data_in_ready && e.in_buffer
      then received (min capacity bulk_buffer_size) timeout_us
      else pure (nothing Rc.err_not_ready)

  unfoldable pub begin_transfer : ℕ → ℕ → ℕ → ℕ → ℕ → K W ℕ
  begin_transfer request value index size timeout_us =
      control_out request value index (transfer_header (ms_from_usec timeout_us) size)

  unfoldable pub abort_transfer : K W ℕ
  abort_transfer = control_out req_abort 0 0 []

  clear_if : Bool → ℕ → K W (Unit {0})
  clear_if ready pipe = if ready then dev_ (v.clear_stall pipe) else pure tt

  unfoldable pub recover_firmware_engine : K W (Unit {0})
  unfolding clear_if
  recover_firmware_engine = do
    aborted ← abort_transfer
    out ← clear_if e.data_out_ready data_out_pipe
    cmd ← clear_if e.cmd_out_ready cmd_out_pipe
    clear_if e.data_in_ready data_in_pipe
