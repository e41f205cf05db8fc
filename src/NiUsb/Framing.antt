-- ===== src/NiUsb/Framing.antt =====
-- The packets and codes of NIUSBTransport.cpp: lengths, padding, what a reader of the packet gets back.
use darwin_gpib.Prelude.{
  ℕ, zero, suc, ◌+◌, ◌-◌, ◌*◌, ◌%◌, ◌≤◌, ◌<◌, ◌≡◌, refl, sym, ◌∙◌, arith, Bool, true, false, List,
  [], ◌∷◌, ◌++◌, ◌==◌, ==_iff, if◌then◌else◌, ltb, length, length-append, get_or, replicate,
  length-replicate, append_assoc, append-nil, take, drop, take-length_append,
}
use darwin_gpib.Prelude.Bits.{every, every-at}
use darwin_gpib.Board.Timeout.{timeout_code_to_micros}
use darwin_gpib.NiUsb.Wire.{
  ni_timeout_code, pad_loop, pad_to_boundary, append_termination, command_packet, write_packet,
  read_packet, command_body, write_body, read_body, framed, neg16, term_id,
}

-- The adapter's codes for the board's timeouts: 0xf0 for TNONE up to 0xff for T100s, then 1 and 2.
abbrev pub code_for : ℕ → ℕ
code_for c = if ltb c 16 then 0xf0 + c else c - 15

code_table : every 17 (λ c. ni_timeout_code (timeout_code_to_micros c) == code_for c) ≡ true
unfolding every ni_timeout_code timeout_code_to_micros
code_table = refl

-- Every timeout code of the library, 0 to 17, taken to microseconds by the board and on to a code of
-- the adapter by the transport, arrives as the adapter's code for the same timeout.
ni_timeout_code-timeout_code_to_micros :
    (c : ℕ) → c < 18 → ni_timeout_code (timeout_code_to_micros c) ≡ code_for c
ni_timeout_code-timeout_code_to_micros c h =
    (==_iff _ _).0 (every-at 17 c _ (omega arith) code_table)

-- The microseconds for which an adapter's code stands.
abbrev pub code_micros : ℕ → ℕ
code_micros code = timeout_code_to_micros (if ltb code 0xf0 then code + 15 else code - 0xf0)

-- The adapter is never given less time than was asked for, from 1 us up to 1000 s, the longest time
-- that it has a code for.
ni_timeout_code_bounds :
    (usec : ℕ) → 1 ≤ usec → usec ≤ 1000000000 → (usec ≤ code_micros (ni_timeout_code usec))
unfolding ni_timeout_code timeout_code_to_micros
ni_timeout_code_bounds usec lo hi = ground arith

pad_loop_four :
    (f n : ℕ) (buf : List ℕ)
    → 3 * length buf % 4 ≡ n
    → n ≤ f
    → pad_loop f 4 buf ≡ buf ++ replicate n 0
unfolding pad_loop
pad_loop_four zero zero buf e h = sym (append-nil buf)
pad_loop_four zero (suc n) buf e h = absurd (omega arith)
pad_loop_four (suc f) zero buf e h =
    let full : (length buf % 4 == 0) ≡ true = (==_iff _ _).1 (omega arith) in
    rw full (sym (append-nil buf))
pad_loop_four (suc f) (suc n) buf e h =
    let short : (length buf % 4 == 0) ≡ false = ground arith in
    let more = length-append buf (0 ∷ []) in
    rw short (
      pad_loop_four f n (buf ++ 0 ∷ []) (omega (arith, more)) (omega arith)
      ∙ append_assoc buf (0 ∷ []) (replicate n 0))

-- Padding adds the fewest zeros that make the length a multiple of 4.
pad_four : (buf : List ℕ) → pad_to_boundary buf 4 ≡ buf ++ replicate (3 * length buf % 4) 0
unfolding pad_to_boundary
pad_four buf = pad_loop_four 4 (3 * length buf % 4) buf refl (omega arith)

-- A packet: what was written, up to three zeros, the terminator.
framed_lem :
    (body : List ℕ)
    → framed body ≡ body ++ (replicate (3 * length body % 4) 0 ++ (term_id ∷ 0 ∷ 0 ∷ 0 ∷ []))
unfolding framed append_termination
framed_lem body = rw (pad_four body) (append_assoc body (replicate (3 * length body % 4) 0) _)

framed_fits :
    (body : List ℕ) (room : ℕ)
    → length body + 7 ≤ room
    → (length (framed body) % 4 ≡ 0) × (length (framed body) ≤ room)
framed_fits body room h =
    let zeros = length-replicate {A = ℕ} (3 * length body % 4) 0 in
    let tail = length-append (replicate (3 * length body % 4) 0) (term_id ∷ 0 ∷ 0 ∷ 0 ∷ []) in
    let whole =
      length-append body (replicate (3 * length body % 4) 0 ++ (term_id ∷ 0 ∷ 0 ∷ 0 ∷ [])) in
    rw (framed_lem body) (omega arith, omega arith)

-- For at most 16 command bytes and at most 4080 bytes of data, every packet that the transport builds is a whole number of 32-bit words and fits the array that it
-- is built in: 64 bytes for commands and read requests, 4096 for data.
packets_fit :
    (cmds buf : List ℕ) (send_eoi : Bool) (timeout_us request eos_char eos_flags : ℕ)
    → length cmds ≤ 16
    → length buf ≤ 4080
    → let c = length (command_packet cmds) in
      let w = length (write_packet buf send_eoi timeout_us) in
      let r = length (read_packet request eos_char eos_flags timeout_us) in
      (c % 4 ≡ 0) × (c ≤ 64) × (w % 4 ≡ 0) × (w ≤ 4096) × (r % 4 ≡ 0) × (r ≤ 64)
unfolding command_packet write_packet read_packet
packets_fit cmds buf send_eoi timeout_us request eos_char eos_flags hc hb =
    let (c, c') = framed_fits (command_body cmds) 64 (omega arith) in
    let (w, w') = framed_fits (write_body buf send_eoi timeout_us) 4096 (omega arith) in
    let (r, r') = framed_fits (read_body request eos_char eos_flags timeout_us) 64 (omega arith) in
    (c, c', w, w', r, r')

-- What the adapter reads from the header of a data packet: the length, and that many bytes after it.
abbrev pub payload_of : List ℕ → List ℕ
payload_of packet = take (neg16 (get_or packet 1 0 + get_or packet 2 0 * 256)) (drop 8 packet)

take-append_framed : (n : ℕ) (xs ys : List ℕ) → n ≡ length xs → take n (xs ++ ys) ≡ xs
take-append_framed n xs ys e = rw e (take-length_append xs ys)

-- For 1 to 4080 bytes, the length field of a data packet and its payload give back the bytes that were
-- to be written.
payload_of-write_packet :
    (buf : List ℕ) (send_eoi : Bool) (timeout_us : ℕ)
    → 1 ≤ length buf
    → length buf ≤ 4080
    → payload_of (write_packet buf send_eoi timeout_us) ≡ buf
unfolding write_packet
payload_of-write_packet buf send_eoi timeout_us lo hi =
    rw (framed_lem (write_body buf send_eoi timeout_us)) (take-append_framed _ buf _ (omega arith))
