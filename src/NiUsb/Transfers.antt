-- ===== src/NiUsb/Transfers.antt =====
-- `writeData` and `readData` of NIUSBTransport.cpp against what the board takes their results for.
use darwin_gpib.Prelude.{
  ℕ, zero, suc, ◌≤◌, ◌≡◌, refl, arith, Bool, false, List, [], ◌∷◌, ◌++◌, Option, ◌==◌, length,
  length-append, length-take, take, drop, min, ltb, Bool-cases, inl, inr,
}
use darwin_gpib.Transport.{Within, with_defaults}
use darwin_gpib.Board.{Descriptor}
use darwin_gpib.Board.Monad.{State}
use darwin_gpib.Board.Recover.{recover_bus}
use darwin_gpib.Usb.{Pipes, Reply}
use darwin_gpib.NiUsb.Wire.{read_packet, write_packet}
use darwin_gpib.NiUsb.Receive.{accept, walk, Blocks, trimmed, final_count, finish, parse_response}
use darwin_gpib.NiUsb.Exchange.{
  Ends, write_data, read_data, ni_transport, read_verdict, write_verdict, bulk_out, bulk_in,
  bulk_buffer_size,
}

accept_fits :
    (request : ℕ) (out xs : List ℕ)
    → length out ≤ request
    → length (accept request out xs) ≤ request
unfolding accept
accept_fits request out [] room = room
accept_fits request out (x ∷ xs) room = elim (Bool-cases (ltb (length out) request)) [
  | inl more ↦
      rw more (accept_fits request (out ++ x ∷ []) xs (ground (arith, length-append out (x ∷ []))))
  | inr full ↦ rw full (accept_fits request out xs room)
]

walk_fits :
    (fuel request : ℕ) (b : Blocks)
    → length b.out ≤ request
    → length (walk fuel request b).out ≤ request
unfolding walk
walk_fits zero request b room = room
walk_fits (suc fuel) request b room =
    let first = accept_fits request b.out (take 15 (drop 1 b.rest)) room in
    let second = accept_fits request b.out (take 30 (drop 1 (drop 1 b.rest))) room in
    ground (
      arith,
      walk_fits fuel request
          (record {
            rest = drop 15 (drop 1 b.rest);
            out = accept request b.out (take 15 (drop 1 b.rest));
            payload = 15;
          })
          first,
      walk_fits fuel request
          (record {
            rest = drop 30 (drop 1 (drop 1 b.rest));
            out = accept request b.out (take 30 (drop 1 (drop 1 b.rest)));
            payload = 30;
          })
          second,
    )

finish-Within : (n : ℕ) (b : Blocks) → length b.out ≤ n → Within n (finish b)
unfolding finish final_count trimmed
finish-Within n b room = ground arith

parse_response-Within : (request : ℕ) (resp : List ℕ) → Within request (parse_response request resp)
unfolding parse_response
parse_response-Within request resp =
    finish-Within request _ (walk_fits (length resp) request _ (omega arith))

read_verdict-Within : (request : ℕ) (r : Reply) → Within request (read_verdict request r)
unfolding read_verdict
read_verdict-Within request r = ground (arith, parse_response-Within request r.bytes)

write_verdict_bounds : (len : ℕ) (r : Reply) → (write_verdict len r).count ≤ len
unfolding write_verdict
write_verdict_bounds len r = ground arith

module _ {W : Type 0} (q : Pipes W) (e : Ends) where
  -- Whatever the adapter sends back, a read puts no more bytes into the buffer than were asked for,
  -- and reports no more bytes than it put there.
  pub read_data-Within :
      (request_count eos_char eos_flags timeout_us : ℕ) (w : W)
      → Within request_count (read_data q e request_count eos_char eos_flags timeout_us w).0
  unfolding read_data
  read_data-Within request_count eos_char eos_flags timeout_us w =
      let request : ℕ = min request_count 4032 in
      let out = bulk_out q e (read_packet request eos_char eos_flags timeout_us) timeout_us w in
      let (counted, fits) =
        read_verdict-Within request (bulk_in q e bulk_buffer_size timeout_us out.1).0 in
      elim (Bool-cases (request_count == 0)) [
        | inl nothing ↦ rw nothing (omega arith, omega arith)
        | inr some_bytes ↦ elim (Bool-cases (out.0 == 0)) [
          | inl went ↦ rw (some_bytes, went) (counted, omega arith)
          | inr stuck ↦ rw (some_bytes, stuck) (omega arith, omega arith)
        ]
      ]

  -- Whatever the adapter sends back, a write reports no more bytes than it was given.
  write_data_bounds :
      (buf : List ℕ) (send_eoi : Bool) (timeout_us : ℕ) (w : W)
      → (write_data q e buf send_eoi timeout_us w).0.count ≤ min (length buf) 4080
  unfolding write_data
  write_data_bounds buf send_eoi timeout_us w =
      let part = take 4080 buf in
      let out = bulk_out q e (write_packet part send_eoi timeout_us) timeout_us w in
      let counted = write_verdict_bounds (length part) (bulk_in q e 32 timeout_us out.1).0 in
      elim (Bool-cases (length buf == 0)) [
        | inl nothing ↦ rw nothing (omega arith)
        | inr some_bytes ↦ elim (Bool-cases (out.0 == 0)) [
          | inl went ↦ rw (some_bytes, went) (omega (arith, length-take 4080 buf))
          | inr stuck ↦ rw (some_bytes, stuck) (omega arith)
        ]
      ]

  -- On this adapter, which has no reset, a recovery never succeeds and changes nothing.
  recover_bus-ni_transport :
      (desc : Option Descriptor) (s : State W) → recover_bus (ni_transport q e) desc s ≡ (false, s)
  unfolding recover_bus ni_transport with_defaults
  recover_bus-ni_transport desc s = elim (Bool-cases s.board.has_transport) [
    | inl has ↦ elim (Bool-cases s.board.recovery_in_progress) [
      | inl busy ↦ rw (has, busy) refl
      | inr idle ↦ rw (has, idle) refl
    ]
    | inr none_there ↦ rw none_there refl
  ]
