-- ===== src/Kusb/Operations/Sends.antt =====
-- One armed transfer of the firmware pipeline against the log of the device.
use darwin_gpib.Prelude.{
  ℕ, zero, suc, ◌^◌, ◌<◌, ◌≤◌, ◌≡◌, ◌≢◌, refl, ap, sym, ◌∙◌, arith, Bool, List, [], ◌∷◌, ◌++◌,
  append-nil, append_assoc, ◌==◌, ◌||◌, length, length-take, take, drop, take-take,
  take-append-drop, ◌⊎◌, inl, inr, ltb, if◌then◌else◌,
}
use darwin_gpib.Transport.Rc
use darwin_gpib.Usb.{Device, le32_at, map_io_return}
use darwin_gpib.Kusb.{Session, Ends}
use darwin_gpib.Kusb.Wire.{req_begin_cmd, req_begin_write, transfer_header, ms_from_usec}
use darwin_gpib.Kusb.Control.{
  Part, failed, sent, bulk_buffer_size, control_out, send_part, bulk_loop, bulk_out, begin_transfer,
}
use darwin_gpib.Kusb.Firmware.{transfer_chunk}
use darwin_gpib.Kusb.Operations.Recording.{
  Event, Log, recorded, arming, going, Honest, bytes_on, bytes_on-append, chunk_log,
  le32_at-transfer_header,
}
use darwin_gpib.Kusb.Operations.Chunks.{log_of, poll_status-Keeps}

pub Part-cases :
    (p : Part) → ((rc : ℕ) × (p ≡ Part.failed rc)) ⊎ ((count : ℕ) × (p ≡ Part.sent count))
Part-cases (failed rc) = inl (rc, refl)
Part-cases (sent count) = inr (count, refl)

-- The log of a list in two pieces.
split_log :
    (pipe n : ℕ) (xs : List ℕ) (l : Log)
    → (l ++ bytes_on pipe (take n xs)) ++ bytes_on pipe (drop n xs) ≡ l ++ bytes_on pipe xs
split_log pipe n xs l =
    append_assoc l (bytes_on pipe (take n xs)) (bytes_on pipe (drop n xs))
    ∙ ap (λ t. l ++ t) (sym (bytes_on-append pipe (take n xs) (drop n xs)))
    ∙ ap (λ t. l ++ bytes_on pipe t) (take-append-drop n xs)

length-transfer_header : (ms size : ℕ) → length (transfer_header ms size) ≡ 8
unfolding transfer_header
length-transfer_header ms size = refl

module _ {W : Type 0} (v : Device W) (honest : Honest v) (e : Ends) where
  send_part-log :
      (pipe ms : ℕ) (part : List ℕ) (s : Session (Log × W)) (count : ℕ)
      → (send_part (recorded v) e pipe ms part s).0 ≡ Part.sent count
      → (count ≤ length part)
        × (log_of (send_part (recorded v) e pipe ms part s).1
            ≡ log_of s ++ bytes_on pipe (take count part))
  unfolding send_part recorded going
  send_part-log pipe ms part s count done =
      let w = (v.map_buffer s.world.1).1 in ground (arith, honest pipe part ms w)

  send_part-failed :
      (pipe ms : ℕ) (part : List ℕ) (s : Session (Log × W)) (rc : ℕ)
      → (send_part (recorded v) e pipe ms part s).0 ≡ Part.failed rc
      → rc ≢ Rc.success
  unfolding send_part recorded map_io_return
  send_part-failed pipe ms part s rc done = ground arith

  -- A request that arms a transfer, with a block that is not empty.
  control_out-log :
      (request value : ℕ) (payload : List ℕ) (s : Session (Log × W))
      → length payload ≡ 8
      → (request ≡ req_begin_cmd) ⊎ (request ≡ req_begin_write)
      → (control_out (recorded v) e request value 0 payload s).0 ≡ Rc.success
      → log_of (control_out (recorded v) e request value 0 payload s).1
        ≡ log_of s ++ Event.arm request value (le32_at payload 4) ∷ []
  unfolding control_out recorded arming map_io_return
  control_out-log request value payload s eight (inl e1) done = ground arith
  control_out-log request value payload s eight (inr e1) done = ground arith

  begin_transfer-log :
      (request value size timeout_us : ℕ) (s : Session (Log × W))
      → size < 2 ^ 32
      → (request ≡ req_begin_cmd) ⊎ (request ≡ req_begin_write)
      → (begin_transfer (recorded v) e request value 0 size timeout_us s).0 ≡ Rc.success
      → log_of (begin_transfer (recorded v) e request value 0 size timeout_us s).1
        ≡ log_of s ++ Event.arm request value size ∷ []
  unfolding begin_transfer
  begin_transfer-log request value size timeout_us s small which done =
      let block = transfer_header (ms_from_usec timeout_us) size in
      control_out-log request value block s (length-transfer_header (ms_from_usec timeout_us) size)
        which done
      ∙ ap (λ n. log_of s ++ Event.arm request value n ∷ [])
          (le32_at-transfer_header (ms_from_usec timeout_us) size small)

  -- A round of the loop, by what its transfer came to.
  bulk_loop-failed :
      (fuel pipe ms x : ℕ) (xs : List ℕ) (s : Session (Log × W)) (rc : ℕ)
      → (send_part (recorded v) e pipe ms (take bulk_buffer_size (x ∷ xs)) s).0 ≡ Part.failed rc
      → (bulk_loop (recorded v) e (suc fuel) pipe ms (x ∷ xs) s).0 ≡ rc
  unfolding bulk_loop
  bulk_loop-failed fuel pipe ms x xs s rc is = rw (bulk_loop, is) refl

  bulk_loop-sent :
      (fuel pipe ms x : ℕ) (xs : List ℕ) (s : Session (Log × W)) (count : ℕ)
      → (send_part (recorded v) e pipe ms (take bulk_buffer_size (x ∷ xs)) s).0 ≡ Part.sent count
      → let s' = (send_part (recorded v) e pipe ms (take bulk_buffer_size (x ∷ xs)) s).1 in
        bulk_loop (recorded v) e (suc fuel) pipe ms (x ∷ xs) s ≡ (
          if (count == 0) || ltb (length (x ∷ xs)) count
          then (Rc.err_io, s')
          else bulk_loop (recorded v) e fuel pipe ms (drop count (x ∷ xs)) s')
  unfolding bulk_loop
  bulk_loop-sent fuel pipe ms x xs s count is = rw (bulk_loop, is) refl

  -- A bulk transfer that succeeds has handed over its bytes, all of them and in order.
  bulk_loop-log :
      (fuel pipe ms : ℕ) (bytes : List ℕ) (s : Session (Log × W))
      → (bulk_loop (recorded v) e fuel pipe ms bytes s).0 ≡ Rc.success
      → log_of (bulk_loop (recorded v) e fuel pipe ms bytes s).1 ≡ log_of s ++ bytes_on pipe bytes
  unfolding bulk_loop
  bulk_loop-log fuel pipe ms [] s done = sym (append-nil (log_of s))
  bulk_loop-log zero pipe ms (x ∷ xs) s done = absurd (cc)
  bulk_loop-log (suc fuel) pipe ms (x ∷ xs) s done =
      let part = take bulk_buffer_size (x ∷ xs) in
      let s' = (send_part (recorded v) e pipe ms part s).1 in
      elim (Part-cases (send_part (recorded v) e pipe ms part s).0) [
        | inl (rc, is) ↦ absurd (
            send_part-failed pipe ms part s rc is
              (sym (bulk_loop-failed fuel pipe ms x xs s rc is) ∙ done))
        | inr (count, is) ↦
            let (fits, went) = send_part-log pipe ms part s count is in
            let rest = drop count (x ∷ xs) in
            ground (
              arith,
              bulk_loop-sent fuel pipe ms x xs s count is,
              bulk_loop-log fuel pipe ms rest s',
              split_log pipe count (x ∷ xs) (log_of s),
              length-take bulk_buffer_size (x ∷ xs),
              take-take count bulk_buffer_size (x ∷ xs),
            )
      ]

  bulk_out-log :
      (ready : Bool) (pipe : ℕ) (bytes : List ℕ) (timeout_us : ℕ) (s : Session (Log × W))
      → (bulk_out (recorded v) e ready pipe bytes timeout_us s).0 ≡ Rc.success
      → log_of (bulk_out (recorded v) e ready pipe bytes timeout_us s).1
        ≡ log_of s ++ bytes_on pipe bytes
  unfolding bulk_out
  bulk_out-log ready pipe bytes timeout_us s done =
      ground (arith, bulk_loop-log (length bytes) pipe (ms_from_usec timeout_us) bytes s)

  -- A chunk that succeeds was armed with its length, and its bytes went out on the pipe in order.
  pub transfer_chunk-log :
      (request value : ℕ) (ready : Bool) (pipe status_len count_width timeout_us : ℕ)
      (chunk : List ℕ) (s : Session (Log × W))
      → length chunk < 2 ^ 32
      → (request ≡ req_begin_cmd) ⊎ (request ≡ req_begin_write)
      → (transfer_chunk
          (recorded v)
          e
          request
          value
          ready
          pipe
          status_len
          count_width
          timeout_us
          chunk
          s).0.rc
        ≡ Rc.success
      → log_of
          (transfer_chunk
            (recorded v)
            e
            request
            value
            ready
            pipe
            status_len
            count_width
            timeout_us
            chunk
            s).1
        ≡ log_of s ++ chunk_log request value pipe chunk
  unfolding transfer_chunk
  transfer_chunk-log request value ready pipe status_len count_width timeout_us chunk s small which
        done =
      let armed = begin_transfer (recorded v) e request value 0 (length chunk) timeout_us s in
      let out = bulk_out (recorded v) e ready pipe chunk timeout_us armed.1 in
      ground (
        arith,
        begin_transfer-log request value (length chunk) timeout_us s small which,
        bulk_out-log ready pipe chunk timeout_us armed.1,
        poll_status-Keeps v e status_len count_width timeout_us out.1,
        append_assoc (log_of s) (Event.arm request value (length chunk) ∷ []) (bytes_on pipe chunk),
      )
