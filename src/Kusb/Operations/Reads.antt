-- ===== src/Kusb/Operations/Reads.antt =====
-- `readDataViaFirmware`: what it reports, and when it comes back.
use darwin_gpib.Prelude.{
  ℕ, zero, suc, ◌*◌, ◌≤◌, ◌<◌, ◌≡◌, ◌≢◌, refl, sym, ap, ◌∙◌, arith, true, [], none, some, inl, inr,
  length,
}
use darwin_gpib.Transport.{Received, Within}
use darwin_gpib.Usb.{Device}
use darwin_gpib.Kusb.{Session, Ends}
use darwin_gpib.Kusb.Control.{begin_transfer}
use darwin_gpib.Kusb.Wire.{req_begin_read}
use darwin_gpib.Kusb.Reading.{
  Progress, Round, read_round, read_loop, read_index, read_data_via_firmware,
}
use darwin_gpib.Kusb.Operations.{read_data}
use darwin_gpib.Kusb.Operations.Rounds.{
  FitsBuffer, Bringing, Round-cases, Going, left_to_do, round-ends, round-goes_on, goes_on-fits,
}

module _ {W : Type 0} (v : Device W) (e : Ends) (request timeout_us : ℕ) where
  loop_ends :
      (fuel : ℕ) (g : Progress) (s : Session W)
      → FitsBuffer v
      → Bringing v
      → Going v e request timeout_us g
      → left_to_do v e request timeout_us g < fuel
      → (read_loop v e request timeout_us fuel g s).0 ≢ none
  unfolding read_loop
  loop_ends zero g s fits brings going enough = absurd (omega arith)
  loop_ends (suc fuel) g s fits brings going enough =
      let r = read_round v e request timeout_us g s in
      elim (Round-cases r.0) [
        | inl (out, is) ↦ rw (read_loop, is) (λ h. absurd (cc))
        | inr (g', is) ↦
            let (on, less) = round-goes_on v e request timeout_us g g' s fits brings going is in
            rw (read_loop, is) (loop_ends fuel g' r.1 fits brings on (omega (arith, less)))
      ]

  loop-step :
      (fuel : ℕ) (g g' : Progress) (s : Session W)
      → (read_round v e request timeout_us g s).0 ≡ Round.goes_on g'
      → read_loop v e request timeout_us (suc fuel) g s
        ≡ read_loop v e request timeout_us fuel g' (read_round v e request timeout_us g s).1
  unfolding read_loop
  loop-step fuel g g' s is = rw (read_loop, is) refl

  loop-last :
      (fuel : ℕ) (g : Progress) (s : Session W) (out : Received)
      → (read_round v e request timeout_us g s).0 ≡ Round.ends out
      → (read_loop v e request timeout_us (suc fuel) g s).0 ≡ some out
  unfolding read_loop
  loop-last fuel g s out is = rw (read_loop, is) refl

  loop-Within :
      (fuel : ℕ) (g : Progress) (s : Session W) (out : Received)
      → FitsBuffer v
      → length g.bytes ≤ request
      → (read_loop v e request timeout_us fuel g s).0 ≡ some out
      → Within request out
  unfolding read_loop
  loop-Within zero g s out fits h is = absurd (cc)
  loop-Within (suc fuel) g s out fits h is =
      elim (Round-cases (read_round v e request timeout_us g s).0) [
        | inl (last, at) ↦
            let same : some last ≡ some out = sym (loop-last fuel g s last at) ∙ is in
            ground (arith, round-ends v e request timeout_us g s last fits h at)
        | inr (g', at) ↦
            let s' = (read_round v e request timeout_us g s).1 in
            loop-Within fuel g' s' out fits (goes_on-fits v e request timeout_us g g' s fits h at)
              (ap (λ t. t.0) (sym (loop-step fuel g g' s at)) ∙ is)
      ]

-- The loop's variables at its start.
abbrev fresh : Progress
fresh = record { bytes = []; need_data = true; glitches = 0 }

module _ {W : Type 0} (v : Device W) (e : Ends) where
  -- On a device whose bulk-in transfers bring no more bytes than their buffer holds: a read that comes
  -- back reports no more bytes than it brought, and has brought no more than were asked for, however
  -- many status requests failed on the way and whatever count the device claims.
  read_data_fits :
      (fuel request_count eos_char eos_flags timeout_us : ℕ) (s : Session W) (out : Received)
      → FitsBuffer v
      → (read_data v e fuel request_count eos_char eos_flags timeout_us s).0 ≡ some out
      → Within request_count out
  unfolding read_data read_data_via_firmware
  read_data_fits fuel request_count eos_char eos_flags timeout_us s out fits is =
      let armed =
        begin_transfer v e req_begin_read 0x0100 (read_index eos_char eos_flags) request_count
          timeout_us s in
      ground (arith, loop-Within v e request_count timeout_us fuel fresh armed.1 out fits)

  -- On a device whose bulk-in transfers fit their buffer and bring a byte at least when they succeed, a
  -- read of `n` bytes comes back within 7 * n + 1 rounds, whatever the status requests answer.
  pub read_data_ends :
      (fuel request_count eos_char eos_flags timeout_us : ℕ) (s : Session W)
      → FitsBuffer v
      → Bringing v
      → 7 * request_count < fuel
      → (read_data v e fuel request_count eos_char eos_flags timeout_us s).0 ≢ none
  unfolding read_data read_data_via_firmware
  read_data_ends fuel request_count eos_char eos_flags timeout_us s fits brings enough =
      let armed =
        begin_transfer v e req_begin_read 0x0100 (read_index eos_char eos_flags) request_count
          timeout_us s in
      let ends_here : 1 ≤ request_count
          → (read_loop v e request_count timeout_us fuel fresh armed.1).0 ≢ none =
        λ some_bytes.
          loop_ends v e request_count timeout_us fuel fresh armed.1 fits brings
            (omega arith, omega arith, λ h. some_bytes) (omega arith) in
      ground (arith, ends_here)
