-- ===== src/Agilent/Laws.antt =====
-- The Agilent transport: its packets, the values it hands on, its reads.
use darwin_gpib.Prelude.{
  ℕ, ◌+◌, ◌-◌, ◌*◌, ◌%◌, ◌^◌, ◌≤◌, ◌<◌, ◌≡◌, ◌⊎◌, inl, inr, refl, arith, Bool, true, List, ◌∷◌,
  ◌++◌, if◌then◌else◌, ltb, length, length-append, length-take, take, drop, take-length_append,
  get_or, min, Bool-cases,
}
use darwin_gpib.Transport.{Within}
use darwin_gpib.Transport.Rc
use darwin_gpib.Usb.{Device, le32_at}
use darwin_gpib.Agilent.Wire.{ms_from_usec, write_packet, command_packet, read_packet, read_result}
use darwin_gpib.Agilent.Exchange.{Ends, bulk_out, bulk_in, read_regs_verdict, send_abort}
use darwin_gpib.Agilent.Operations.{read_data}

-- A time limit from 1 to 2^32 - 2 microseconds becomes at least a millisecond. Up to 2^32 - 1000 it
-- is the time asked for, rounded up to a millisecond; the 998 limits above that become one millisecond.
ms_from_usec_bounds :
    (timeout_us : ℕ)
    → 1 ≤ timeout_us
    → timeout_us < 0xffff_ffff
    → ((timeout_us ≤ 4294966296)
        × (timeout_us ≤ ms_from_usec timeout_us * 1000)
        × ((ms_from_usec timeout_us - 1) * 1000 < timeout_us))
      ⊎ ((4294966296 < timeout_us) × (ms_from_usec timeout_us ≡ 1))
unfolding ms_from_usec
ms_from_usec_bounds timeout_us some_time h = elim (Bool-cases (ltb 4294966296 timeout_us)) [
  | inl above ↦ inr (ground arith, ground arith)
  | inr within ↦ inl (ground arith, ground arith, ground arith)
]

-- What a reader of a write packet finds: the flags, the length in its field, the bytes behind it.
abbrev pub flags_of : List ℕ → ℕ
flags_of p = get_or p 3 0

-- For fewer than 2^32 bytes: the length field of a data packet and of a command packet gives back the
-- number of bytes, the payload gives back the bytes themselves, and the EOI flag, bit 0, is set on a data
-- packet exactly when EOI was asked for. Each packet is eight bytes longer than
-- its payload.
packets_carry :
    (buf : List ℕ) (send_eoi : Bool)
    → length buf < 2 ^ 32
    → let w = write_packet buf send_eoi in
      let c = command_packet buf in
      (le32_at w 4 ≡ length buf)
      × (drop 8 w ≡ buf)
      × (flags_of w % 2 ≡ (if send_eoi then 1 else 0))
      × (le32_at c 4 ≡ length buf)
      × (drop 8 c ≡ buf)
      × (length w ≡ 8 + length buf)
      × (length c ≡ 8 + length buf)
unfolding write_packet command_packet
packets_carry buf send_eoi h =
    (ground arith, refl, ground arith, ground arith, refl, ground arith, ground arith)

-- A response that begins as the adapter's answer to register reads and has a value for every register
-- gives back the values, in order; trailing bytes are dropped.
read_regs_verdict_lem :
    (values trailing : List ℕ)
    → read_regs_verdict (length values) (0xfa ∷ 0 ∷ (values ++ trailing))
      ≡ record { rc = Rc.success; bytes = values }
unfolding read_regs_verdict
read_regs_verdict_lem values trailing =
    ground (arith, length-append values trailing, take-length_append values trailing)

-- The payload of a response is all of its bytes but the last, where they fit.
read_result-Within : (request : ℕ) (resp : List ℕ) → Within request (read_result request resp)
unfolding read_result
read_result-Within request resp =
    let kept = take (request + 1) resp in
    ground (arith, length-take (request + 1) resp, length-take (length kept - 1) kept)

module _ {W : Type 0} (v : Device W) (e : Ends) where
  -- Whatever the adapter sends back, a read puts no more bytes into the buffer than were asked for,
  -- 4064 at most, and reports no more bytes than it put there.
  read_data-Bounded :
      (request_count eos_char eos_flags timeout_us : ℕ) (w : W)
      → Within
          (min request_count 4064)
          (read_data v e request_count eos_char eos_flags timeout_us w).0
  unfolding read_data
  read_data-Bounded request_count eos_char eos_flags timeout_us w =
      let n : ℕ = min request_count 4064 in
      let out = bulk_out v e (read_packet n eos_char) timeout_us w in
      let r = bulk_in v e (n + 1) timeout_us out.1 in
      let flushed = send_abort v e true r.1 in
      ground (
        arith,
        read_result-Within n r.0.bytes,
        read_result-Within n (bulk_in v e (n + 1) 100000 flushed.1).0.bytes,
      )

  -- When the request goes out and the adapter's answer does not come in time, a read of at least one
  -- byte reports success all the same, whatever the flush and the second try bring.
  pub read_data_timeout :
      (request_count eos_char eos_flags timeout_us : ℕ) (w : W)
      → 1 ≤ request_count
      → let n : ℕ = min request_count 4064 in
        let out = bulk_out v e (read_packet n eos_char) timeout_us w in
        out.0 ≡ Rc.success
        → (bulk_in v e (n + 1) timeout_us out.1).0.rc ≡ Rc.err_timeout
        → (read_data v e request_count eos_char eos_flags timeout_us w).0.rc ≡ Rc.success
  unfolding read_data read_result
  read_data_timeout request_count eos_char eos_flags timeout_us w some_bytes went late =
      ground arith
