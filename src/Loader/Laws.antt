-- ===== src/Loader/Laws.antt =====
-- The download of the firmware against the log of the device.
use darwin_gpib.Prelude.{
  ℕ, zero, suc, ◌+◌, ◌%◌, ◌^◌, ◌≡◌, refl, sym, ap, ◌∙◌, arith, true, false, List, [], ◌∷◌, ◌++◌,
  append-nil, append_assoc, All, length, length-drop, length-append, length-take, drop,
  take-append-drop, ltb→lt, ltb, if◌then◌else◌, inl, inr, Bool-cases,
}
use darwin_gpib.Usb.{Kern, Device}
use darwin_gpib.Kusb.Firmware.{chunk_of}
use darwin_gpib.Kusb.Operations.Recording.{concat, Sized, chunk_of-take, chunk_of-Sized}
use darwin_gpib.Loader.{
  Code, is_success, Ends, fw_chunk, req_fpga, vendor_write, chunked_loop, bitstream_loop,
}
use darwin_gpib.Loader.Log.{Request, req, watched, placed, streamed}

-- The bytes lie in the log as one image: chunks of 1 to 4096 bytes, each where the one before it ended.
abbrev pub Placed : ℕ → ℕ → ℕ → List ℕ → List Request → List Request → Type 0
Placed number base_addr offset bytes before after =
    (chunks : List (List ℕ)) × (concat chunks ≡ bytes)
    × All (Sized fw_chunk) chunks
    × (after ≡ before ++ placed number base_addr offset chunks)

-- The bytes lie in the log as a bitstream, with the flag on the last chunk only.
abbrev pub Streamed : List ℕ → List Request → List Request → Type 0
Streamed bytes before after =
    (chunks : List (List ℕ)) × (concat chunks ≡ bytes)
    × All (Sized fw_chunk) chunks
    × (after ≡ before ++ streamed chunks)

chunk_first :
    (x : ℕ) (xs : List ℕ)
    → let chunk = chunk_of fw_chunk (x ∷ xs) in chunk ++ drop (length chunk) (x ∷ xs) ≡ x ∷ xs
chunk_first x xs =
    let chunk = chunk_of fw_chunk (x ∷ xs) in
    ap (λ t. t ++ drop (length chunk) (x ∷ xs)) (chunk_of-take fw_chunk (x ∷ xs))
    ∙ take-append-drop (length chunk) (x ∷ xs)

length-chunk_of :
    (x : ℕ) (xs : List ℕ)
    → length (chunk_of fw_chunk (x ∷ xs))
      ≡ (if ltb fw_chunk (length (x ∷ xs)) then fw_chunk else length (x ∷ xs))
unfolding chunk_of
length-chunk_of x xs = elim (Bool-cases (ltb fw_chunk (length (x ∷ xs)))) [
  | inl more ↦
      rw more (omega (arith, length-take fw_chunk (x ∷ xs), ltb→lt fw_chunk (length (x ∷ xs)) more))
  | inr all ↦ rw all refl
]

-- The flag of the source is the one that the chunks behind it call for.
streamed_first :
    (x : ℕ) (xs : List ℕ) (cs : List (List ℕ))
    → let chunk = chunk_of fw_chunk (x ∷ xs) in
      concat cs ≡ drop (length chunk) (x ∷ xs)
      → All (Sized fw_chunk) cs
      → streamed (chunk ∷ cs)
        ≡ req req_fpga 1 (if ltb fw_chunk (length (x ∷ xs)) then 0 else 1) chunk ∷ streamed cs
streamed_first x xs [] same sized =
    let chunk = chunk_of fw_chunk (x ∷ xs) in
    let flag : 1 ≡ (if ltb fw_chunk (length (x ∷ xs)) then 0 else 1) =
      ground (
        arith,
        length-chunk_of x xs,
        ap (λ t. length t) same,
        length-drop (length chunk) (x ∷ xs),
      ) in
    ap (λ n. req req_fpga 1 n chunk ∷ []) flag
streamed_first x xs (d ∷ ds) same sized =
    let chunk = chunk_of fw_chunk (x ∷ xs) in
    let flag : 0 ≡ (if ltb fw_chunk (length (x ∷ xs)) then 0 else 1) = ground (
      arith,
      length-chunk_of x xs,
      ap (λ t. length t) same,
      length-append d (concat ds),
      length-drop (length chunk) (x ∷ xs),
      sized.0.0,
    ) in
    ap (λ n. req req_fpga 1 n chunk ∷ streamed (d ∷ ds)) flag

module _ {W : Type 0} (v : Device W) (e : Ends) where
  pub vendor_write-log :
      (number value index : ℕ) (bytes : List ℕ) (w : List Request × W)
      → is_success (vendor_write (watched v) e number value index bytes w).0 ≡ true
      → (vendor_write (watched v) e number value index bytes w).1.0
        ≡ w.0 ++ req number value index bytes ∷ []
  unfolding vendor_write watched
  vendor_write-log number value index bytes w ok = ground arith

  chunked_loop-step :
      (fuel number base_addr offset x : ℕ) (xs : List ℕ) (w : List Request × W)
      → let chunk = chunk_of fw_chunk (x ∷ xs) in
        let r = vendor_write (watched v) e number ((base_addr + offset) % 2 ^ 16) 0 chunk w in
        let whole = chunked_loop (watched v) e (suc fuel) number base_addr offset (x ∷ xs) w in
        is_success whole.0 ≡ true
        → (is_success r.0 ≡ true)
          × (whole
              ≡ chunked_loop
                  (watched v)
                  e
                  fuel
                  number
                  base_addr
                  (offset + length chunk)
                  (drop (length chunk) (x ∷ xs))
                  r.1)
  unfolding chunked_loop
  chunked_loop-step fuel number base_addr offset x xs w ok = ground arith

  chunked_loop-nil :
      (fuel number base_addr offset : ℕ) (w : List Request × W)
      → chunked_loop (watched v) e fuel number base_addr offset [] w
        ≡ (Code.returned Kern.success, w)
  unfolding chunked_loop
  chunked_loop-nil zero number base_addr offset w = refl
  chunked_loop-nil (suc fuel) number base_addr offset w = refl

  chunked_loop-zero :
      (number base_addr offset x : ℕ) (xs : List ℕ) (w : List Request × W)
      → is_success (chunked_loop (watched v) e 0 number base_addr offset (x ∷ xs) w).0 ≡ false
  unfolding chunked_loop
  chunked_loop-zero number base_addr offset x xs w = refl

  pub chunked_loop-Placed :
      (fuel number base_addr offset : ℕ) (bytes : List ℕ) (w : List Request × W)
      → let r = chunked_loop (watched v) e fuel number base_addr offset bytes w in
        is_success r.0 ≡ true → Placed number base_addr offset bytes w.0 r.1.0
  chunked_loop-Placed fuel number base_addr offset [] w ok =
      rw (chunked_loop-nil fuel number base_addr offset w) ([], refl, tt, sym (append-nil w.0))
  chunked_loop-Placed zero number base_addr offset (x ∷ xs) w ok =
      absurd (ground (arith, chunked_loop-zero number base_addr offset x xs w))
  chunked_loop-Placed (suc fuel) number base_addr offset (x ∷ xs) w ok =
      let chunk = chunk_of fw_chunk (x ∷ xs) in
      let at = (base_addr + offset) % 2 ^ 16 in
      let r = vendor_write (watched v) e number at 0 chunk w in
      let (fine, tail) = chunked_loop-step fuel number base_addr offset x xs w ok in
      let (cs, same, sized, log) =
        chunked_loop-Placed fuel number base_addr (offset + length chunk)
          (drop (length chunk) (x ∷ xs)) r.1 (ap (λ t. is_success t.0) (sym tail) ∙ ok) in
      rw tail (
        chunk ∷ cs,
        ap (λ t. chunk ++ t) same ∙ chunk_first x xs,
        ((chunk_of-Sized fw_chunk x xs).0, sized),
        log
            ∙ ap (λ t. t ++ placed number base_addr (offset + length chunk) cs)
                (vendor_write-log number at 0 chunk w fine)
            ∙ append_assoc w.0 (req number at 0 chunk ∷ [])
                (placed number base_addr (offset + length chunk) cs),
      )

  bitstream_loop-step :
      (fuel x : ℕ) (xs : List ℕ) (w : List Request × W)
      → let chunk = chunk_of fw_chunk (x ∷ xs) in
        let last : ℕ = if ltb fw_chunk (length (x ∷ xs)) then 0 else 1 in
        let r = vendor_write (watched v) e req_fpga 1 last chunk w in
        let whole = bitstream_loop (watched v) e (suc fuel) (x ∷ xs) w in
        is_success whole.0 ≡ true
        → (is_success r.0 ≡ true)
          × (whole ≡ bitstream_loop (watched v) e fuel (drop (length chunk) (x ∷ xs)) r.1)
  unfolding bitstream_loop
  bitstream_loop-step fuel x xs w ok = ground arith

  bitstream_loop-nil :
      (fuel : ℕ) (w : List Request × W)
      → bitstream_loop (watched v) e fuel [] w ≡ (Code.returned Kern.success, w)
  unfolding bitstream_loop
  bitstream_loop-nil zero w = refl
  bitstream_loop-nil (suc fuel) w = refl

  bitstream_loop-zero :
      (x : ℕ) (xs : List ℕ) (w : List Request × W)
      → is_success (bitstream_loop (watched v) e 0 (x ∷ xs) w).0 ≡ false
  unfolding bitstream_loop
  bitstream_loop-zero x xs w = refl

  pub bitstream_loop-Streamed :
      (fuel : ℕ) (bytes : List ℕ) (w : List Request × W)
      → let r = bitstream_loop (watched v) e fuel bytes w in
        is_success r.0 ≡ true → Streamed bytes w.0 r.1.0
  bitstream_loop-Streamed fuel [] w ok =
      rw (bitstream_loop-nil fuel w) ([], refl, tt, sym (append-nil w.0))
  bitstream_loop-Streamed zero (x ∷ xs) w ok = absurd (ground (arith, bitstream_loop-zero x xs w))
  bitstream_loop-Streamed (suc fuel) (x ∷ xs) w ok =
      let chunk = chunk_of fw_chunk (x ∷ xs) in
      let last : ℕ = if ltb fw_chunk (length (x ∷ xs)) then 0 else 1 in
      let r = vendor_write (watched v) e req_fpga 1 last chunk w in
      let (fine, tail) = bitstream_loop-step fuel x xs w ok in
      let (cs, same, sized, log) =
        bitstream_loop-Streamed fuel (drop (length chunk) (x ∷ xs)) r.1
          (ap (λ t. is_success t.0) (sym tail) ∙ ok) in
      rw tail (
        chunk ∷ cs,
        ap (λ t. chunk ++ t) same ∙ chunk_first x xs,
        ((chunk_of-Sized fw_chunk x xs).0, sized),
        log
            ∙ ap (λ t. t ++ streamed cs) (vendor_write-log req_fpga 1 last chunk w fine)
            ∙ append_assoc w.0 (req req_fpga 1 last chunk ∷ []) (streamed cs)
            ∙ ap (λ t. w.0 ++ t) (sym (streamed_first x xs cs same sized)),
      )
