-- ===== src/Kusb/Operations/Bytewise.antt =====
-- The register pipeline: what a byte-wise read and write report.
use darwin_gpib.Prelude.{
  ℕ, zero, suc, ◌+◌, ◌≤◌, ◌≡◌, ap, arith, Bool, false, List, [], ◌∷◌, ◌==◌, ◌&&◌, not, length,
  length-append, ltb, if◌then◌else◌, inl, inr, Option-cases,
}
use darwin_gpib.Transport.{Within}
use darwin_gpib.Transport.Rc
use darwin_gpib.Usb.{Device}
use darwin_gpib.Kusb.{Session, Ends}
use darwin_gpib.Kusb.Registers.{read_raw_register, release_rfd_holdoff_if_pending}
use darwin_gpib.Kusb.Wire.{poll_iterations_for}
use darwin_gpib.Kusb.Registered.{
  Gathered, cdor, isr1, takes, stalled, byte_out, listening, gathered, take_role, has_bit,
  wait_until, gather, bytes_out, read_data_via_registers, write_data_via_registers,
}

module _ {W : Type 0} (v : Device W) (e : Ends) where
  -- One more byte at most.
  takes-grows :
      (end_unusable : Bool) (eos_char eos_flags status x : ℕ) (g : Gathered)
      → length (takes v e end_unusable eos_char eos_flags status x g).0.bytes ≡ suc (length g.bytes)
  unfolding takes
  takes-grows end_unusable eos_char eos_flags status x g =
      ground (arith, length-append g.bytes (x ∷ []))

  stalled_bytes : (g : Gathered) (s : Session W) → (stalled v e g s).0.bytes ≡ g.bytes
  unfolding stalled
  stalled_bytes g s = ground arith

  gather-grows :
      (left spins : ℕ) (end_unusable : Bool) (eos_char eos_flags : ℕ) (g : Gathered) (s : Session W)
      → length (gather v e left spins end_unusable eos_char eos_flags g s).0.bytes
        ≤ left + length g.bytes
  unfolding gather
  gather-grows zero spins end_unusable eos_char eos_flags g s = omega arith
  gather-grows (suc left) spins end_unusable eos_char eos_flags g s =
      let ready =
        wait_until v e (if length g.bytes == 0 then spins else 250) isr1 (has_bit 0x01) s in
      let a = read_raw_register v e cdor ready.1 in
      elim (Option-cases ready.0) [
        | inl silent ↦
            rw (gather, silent) (omega (arith, ap (λ t. length t) (stalled_bytes g ready.1)))
        | inr (status, there) ↦
            let took = takes v e end_unusable eos_char eos_flags status a.0.value g in
            rw (gather, there)
              (ground (
                arith,
                takes-grows end_unusable eos_char eos_flags status a.0.value g,
                gather-grows left spins end_unusable eos_char eos_flags took.0 a.1,
              ))
      ]

  bytes_out-count :
      (spins : ℕ) (send_eoi : Bool) (done : ℕ) (xs : List ℕ) (s : Session W)
      → let r = (bytes_out v e spins send_eoi done xs s).0 in
        (done ≤ r.count)
        × (r.count ≤ done + length xs)
        × ((r.rc == Rc.success) ≡ (r.count == done + length xs))
  unfolding bytes_out
  bytes_out-count spins send_eoi done [] s = ground arith
  bytes_out-count spins send_eoi done (x ∷ xs) s =
      let out = byte_out v e spins send_eoi x xs s in
      ground (arith, bytes_out-count spins send_eoi (suc done) xs out.1)

  -- A byte-wise read, whatever the adapter answers: it brings no more bytes than were asked for, and
  -- its count is exactly what it brought. When it reports success and a byte came, the holdoff is
  -- recorded.
  read_data_via_registers-Within :
      (request_count eos_char eos_flags timeout_us : ℕ) (s : Session W)
      → let r = read_data_via_registers v e request_count eos_char eos_flags timeout_us s in
        Within request_count r.0
        × (r.0.count ≡ length r.0.bytes)
        × ((ltb 0 (length r.0.bytes) && not r.1.rfd_holdoff_pending) ≡ false)
  unfolding read_data_via_registers listening gathered
  read_data_via_registers-Within request_count eos_char eos_flags timeout_us s =
      let held = (release_rfd_holdoff_if_pending v e s).1 in
      let role = take_role v e 0x40 held in
      let start = read_raw_register v e isr1 role.1 in
      let nothing_yet : Gathered = record {
        bytes = [];
        saw_end = false;
        end_flag = 0;
        timed_out = false;
      } in
      ground (
        arith,
        gather-grows request_count (poll_iterations_for timeout_us) (has_bit 0x10 start.0.value)
            eos_char eos_flags nothing_yet start.1,
      )

  -- A byte-wise write, whatever the adapter answers: it reports no more bytes than it was given, and it
  -- reports all of them exactly when it succeeds.
  write_data_via_registers-count :
      (buf : List ℕ) (send_eoi : Bool) (timeout_us : ℕ) (s : Session W)
      → let r = (write_data_via_registers v e buf send_eoi timeout_us s).0 in
        (r.count ≤ length buf) × ((r.rc == Rc.success) ≡ (r.count == length buf))
  unfolding write_data_via_registers
  write_data_via_registers-count buf send_eoi timeout_us s =
      let role = take_role v e 0x80 s in
      ground (arith, bytes_out-count (poll_iterations_for timeout_us) send_eoi 0 buf role.1)
