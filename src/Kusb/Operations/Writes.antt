-- ===== src/Kusb/Operations/Writes.antt =====
-- The firmware pipeline's data transfers against the log of the device.
use darwin_gpib.Prelude.{
  ℕ, zero, suc, true, false, ◌+◌, ◌^◌, ◌<◌, ◌≡◌, ◌≢◌, refl, ap, sym, ◌∙◌, subst, arith, Bool, false,
  List, [], ◌∷◌, ◌++◌, ◌==◌, length, drop, length-drop, inr,
}
use darwin_gpib.Transport.Rc
use darwin_gpib.Usb.{Device}
use darwin_gpib.Kusb.{Session, Ends}
use darwin_gpib.Kusb.Wire.{req_begin_write}
use darwin_gpib.Kusb.Control.{control_out, data_out_pipe}
use darwin_gpib.Kusb.Firmware.{
  chunk_of, write_value, write_chunk, write_loop, write_data_via_firmware,
}
use darwin_gpib.Kusb.Operations.Recording.{
  eoi_if, Log, recorded, Honest, chunk_log, Carried, Carried-nil, Carried-chunk, chunk_of-Sized,
}
use darwin_gpib.Kusb.Operations.Chunks.{log_of, release-Keeps}
use darwin_gpib.Kusb.Operations.Sends.{transfer_chunk-log}
use darwin_gpib.Kusb.Operations.{write_data}
use darwin_gpib.Kusb.Registers.{release_rfd_holdoff_if_pending, write_raw_register}

module _ {W : Type 0} (v : Device W) (honest : Honest v) (e : Ends) where
  write_value-eq-eoi_if : (send_eoi last : Bool) → write_value send_eoi last ≡ eoi_if send_eoi last
  unfolding write_value
  write_value-eq-eoi_if true true = refl
  write_value-eq-eoi_if true false = refl
  write_value-eq-eoi_if false last = refl

  write_chunk-log :
      (send_eoi last : Bool) (timeout_us : ℕ) (chunk : List ℕ) (s : Session (Log × W))
      → length chunk < 2 ^ 32
      → (write_chunk (recorded v) e send_eoi last timeout_us chunk s).0.rc ≡ Rc.success
      → log_of (write_chunk (recorded v) e send_eoi last timeout_us chunk s).1
        ≡ log_of s ++ chunk_log req_begin_write (eoi_if send_eoi last) data_out_pipe chunk
  unfolding write_chunk
  write_chunk-log send_eoi last timeout_us chunk s small ok =
      transfer_chunk-log v honest e req_begin_write (write_value send_eoi last) e.data_out_ready
        data_out_pipe 6 4 timeout_us chunk s small (inr refl) ok
      ∙ ap (λ n. log_of s ++ chunk_log req_begin_write n data_out_pipe chunk)
          (write_value-eq-eoi_if send_eoi last)

  write_loop-nil :
      (fuel limit : ℕ) (send_eoi : Bool) (timeout_us done : ℕ) (s : Session (Log × W))
      → write_loop (recorded v) e fuel limit send_eoi timeout_us done [] s
        ≡ (record { rc = Rc.success; count = done }, s)
  unfolding write_loop
  write_loop-nil zero limit send_eoi timeout_us done s = refl
  write_loop-nil (suc fuel) limit send_eoi timeout_us done s = refl

  write_loop-zero :
      (limit : ℕ) (send_eoi : Bool) (timeout_us done x : ℕ) (xs : List ℕ) (s : Session (Log × W))
      → (write_loop (recorded v) e 0 limit send_eoi timeout_us done (x ∷ xs) s).0.rc ≢ Rc.success
  unfolding write_loop
  write_loop-zero limit send_eoi timeout_us done x xs s = ground arith

  write_loop-step :
      (fuel limit : ℕ) (send_eoi : Bool) (timeout_us done x : ℕ) (xs : List ℕ)
      (s : Session (Log × W))
      → let chunk = chunk_of limit (x ∷ xs) in
        let r =
          write_chunk
            (recorded v)
            e
            send_eoi
            (length chunk == length (x ∷ xs))
            timeout_us
            chunk
            s in
        let whole =
          write_loop (recorded v) e (suc fuel) limit send_eoi timeout_us done (x ∷ xs) s in
        whole.0.rc ≡ Rc.success
        → (r.0.rc ≡ Rc.success)
          × (whole
              ≡ write_loop
                  (recorded v)
                  e
                  fuel
                  limit
                  send_eoi
                  timeout_us
                  (done + length chunk)
                  (drop (length chunk) (x ∷ xs))
                  r.1)
  unfolding write_loop
  write_loop-step fuel limit send_eoi timeout_us done x xs s ok = ground arith

  write_loop-log :
      (fuel limit : ℕ) (send_eoi : Bool) (timeout_us done : ℕ) (buf : List ℕ)
      (s : Session (Log × W))
      → length buf < 2 ^ 32
      → (write_loop (recorded v) e fuel limit send_eoi timeout_us done buf s).0.rc ≡ Rc.success
      → ((write_loop (recorded v) e fuel limit send_eoi timeout_us done buf s).0.count
          ≡ done + length buf)
        × Carried req_begin_write
            (eoi_if send_eoi)
            data_out_pipe
            limit
            buf
            (log_of s)
            (log_of (write_loop (recorded v) e fuel limit send_eoi timeout_us done buf s).1)
  write_loop-log fuel limit send_eoi timeout_us done [] s small ok =
      rw (write_loop-nil fuel limit send_eoi timeout_us done s)
        (omega arith, Carried-nil req_begin_write (eoi_if send_eoi) data_out_pipe limit (log_of s))
  write_loop-log zero limit send_eoi timeout_us done (x ∷ xs) s small ok =
      absurd (write_loop-zero limit send_eoi timeout_us done x xs s ok)
  write_loop-log (suc fuel) limit send_eoi timeout_us done (x ∷ xs) s small ok =
      let chunk = chunk_of limit (x ∷ xs) in
      let last = length chunk == length (x ∷ xs) in
      let r = write_chunk (recorded v) e send_eoi last timeout_us chunk s in
      let (fine, tail) = write_loop-step fuel limit send_eoi timeout_us done x xs s ok in
      let (small_chunk, fits) = chunk_of-Sized limit x xs in
      let left = length-drop (length chunk) (x ∷ xs) in
      let (count, carried) =
        write_loop-log fuel limit send_eoi timeout_us (done + length chunk)
          (drop (length chunk) (x ∷ xs)) r.1 (omega (arith, left))
          (ap (λ t. t.0.rc) (sym tail) ∙ ok) in
      let first = write_chunk-log send_eoi last timeout_us chunk s (omega arith) fine in
      rw tail (
        omega (arith, count, left),
        Carried-chunk req_begin_write (eoi_if send_eoi) data_out_pipe limit x xs (log_of s)
            (log_of r.1)
            (log_of
              (write_loop (recorded v) e fuel limit send_eoi timeout_us (done + length chunk)
                (drop (length chunk) (x ∷ xs)) r.1).1)
            first carried,
      )

  -- A release of the holdoff changes no chunk size.
  release-max_data_chunk :
      (s : Session (Log × W))
      → (release_rfd_holdoff_if_pending (recorded v) e s).1.max_data_chunk ≡ s.max_data_chunk
  unfolding release_rfd_holdoff_if_pending write_raw_register control_out
  release-max_data_chunk s = ground arith

  write_data-nil :
      (send_eoi : Bool) (timeout_us : ℕ) (s : Session (Log × W))
      → write_data (recorded v) e [] send_eoi timeout_us s
        ≡ (record { rc = Rc.success; count = 0 }, s)
  unfolding write_data write_data_via_firmware
  write_data-nil send_eoi timeout_us s = refl

  write_data-cons :
      (x : ℕ) (xs : List ℕ) (send_eoi : Bool) (timeout_us : ℕ) (s : Session (Log × W))
      → write_data (recorded v) e (x ∷ xs) send_eoi timeout_us s
        ≡ write_loop
            (recorded v)
            e
            (suc (length xs))
            s.max_data_chunk
            send_eoi
            timeout_us
            0
            (x ∷ xs)
            (release_rfd_holdoff_if_pending (recorded v) e s).1
  unfolding write_data write_data_via_firmware
  write_data-cons x xs send_eoi timeout_us s =
      let some_bytes : (length (x ∷ xs) == 0) ≡ false = ground arith in
      let s' = (release_rfd_holdoff_if_pending (recorded v) e s).1 in
      rw some_bytes (
        ap (λ n. write_loop (recorded v) e (suc (length xs)) n send_eoi timeout_us 0 (x ∷ xs) s')
          (release-max_data_chunk s))

  -- On a device that reports no more bytes than it was given, a write of fewer than 2^32 bytes that
  -- succeeds reports them all. They went out on the data pipe, each once and in order, in transfers of
  -- one byte up to the largest chunk, where one is set; each transfer was armed with its length, and the
  -- request for EOI stood on the last one and on no other.
  pub write_data-Carried :
      (buf : List ℕ) (send_eoi : Bool) (timeout_us : ℕ) (s : Session (Log × W))
      → length buf < 2 ^ 32
      → (write_data (recorded v) e buf send_eoi timeout_us s).0.rc ≡ Rc.success
      → ((write_data (recorded v) e buf send_eoi timeout_us s).0.count ≡ length buf)
        × Carried req_begin_write
            (eoi_if send_eoi)
            data_out_pipe
            s.max_data_chunk
            buf
            (log_of s)
            (log_of (write_data (recorded v) e buf send_eoi timeout_us s).1)
  write_data-Carried [] send_eoi timeout_us s small ok = rw (write_data-nil send_eoi timeout_us s) (
    refl,
    Carried-nil req_begin_write (eoi_if send_eoi) data_out_pipe s.max_data_chunk (log_of s),
  )
  write_data-Carried (x ∷ xs) send_eoi timeout_us s small ok =
      let s' = (release_rfd_holdoff_if_pending (recorded v) e s).1 in
      let whole = write_data-cons x xs send_eoi timeout_us s in
      let (count, carried) =
        write_loop-log (suc (length xs)) s.max_data_chunk send_eoi timeout_us 0 (x ∷ xs) s' small
          (ap (λ t. t.0.rc) (sym whole) ∙ ok) in
      let after =
        log_of
          (write_loop (recorded v) e (suc (length xs)) s.max_data_chunk send_eoi timeout_us 0
            (x ∷ xs) s').1 in
      rw whole (
        omega (arith, count),
        subst
            (λ l.
              Carried req_begin_write (eoi_if send_eoi) data_out_pipe s.max_data_chunk (x ∷ xs) l
                after)
            (release-Keeps v e s) carried,
      )
