-- ===== src/Library/Reads.antt =====
-- libgpib/src/ib_traditional.c, `ibrd`: what gets into the caller's buffer.
use darwin_gpib.Prelude.{
  ℕ, zero, suc, ◌+◌, ◌-◌, ◌≤◌, ◌≡◌, refl, ap, ◌∙◌, arith, List, [], ◌∷◌, ◌++◌, append_assoc, Option,
  none, some, All, length, length-append, length-take, length-replicate, take, drop, replicate, min,
  take-take_append, drop-append_of_eq,
}
use darwin_gpib.Prelude.Int.{ℤ, pos, to_u32}
use darwin_gpib.Board.Transfer.{GotBytes}
use darwin_gpib.UserClient.{Outcome, word}
use darwin_gpib.UserClient.Handlers.{read_out}
use darwin_gpib.Library.{Lib, Agent, packed}
use darwin_gpib.Library.Client.{Called}
use darwin_gpib.Library.Traditional.{driver_call}
use darwin_gpib.Library.Transfers.{read_bytes, read_answer, ibrd, max_inline}
use darwin_gpib.Library.Packing.{IsWord, word-packed, length-packed}

take-append_of_le : (n : ℕ) (xs ys : List ℕ) → n ≤ length xs → take n (xs ++ ys) ≡ take n xs
take-append_of_le zero xs ys h = refl
take-append_of_le (suc n) [] ys h = absurd (omega arith)
take-append_of_le (suc n) (x ∷ xs) ys h = ap (λ t. x ∷ t) (take-append_of_le n xs ys (omega arith))

-- The output structure of a call as bytes.
abbrev pub out_bytes : Outcome → List ℕ
out_bytes o = packed o.fields ++ o.payload

-- For a read that brought at most `request` bytes and counts no more than it brought, with status,
-- error, count and END flag of 32 bits: out of the driver's output structure the library takes the
-- bytes that were counted, all of them and nothing else.
pub read_bytes-read_out :
    (request : ℕ) (r : GotBytes)
    → r.count ≤ length r.bytes
    → length r.bytes ≤ request
    → All IsWord (r.reply.sta ∷ r.reply.iberr ∷ r.count ∷ r.end_flag ∷ [])
    → read_bytes request (out_bytes (read_out request r)) ≡ take r.count r.bytes
unfolding read_bytes read_out
read_bytes-read_out request r counted within words =
    let fields : List ℕ = r.reply.sta ∷ r.reply.iberr ∷ r.count ∷ r.end_flag ∷ [] in
    let room = replicate (request - length r.bytes) 0 in
    let payload = take r.count (r.bytes ++ room) in
    let got : min (word (packed fields ++ payload) 2) request ≡ r.count =
      omega (arith, word-packed fields payload 2 words (omega arith)) in
    rw
      (
        got,
        drop-append_of_eq 16 (packed fields) payload (length-packed fields),
        take-take_append r.count (r.bytes ++ room) (replicate r.count 0),
      )
      (ap (take r.count) (append_assoc r.bytes room (replicate r.count 0))
        ∙ take-append_of_le r.count r.bytes (room ++ replicate r.count 0) counted)

length-read_bytes :
    (cnt : ℕ) (bytes : List ℕ) → length (read_bytes cnt bytes) ≡ min (word bytes 2) cnt
unfolding read_bytes
length-read_bytes cnt bytes =
    let got : ℕ = min (word bytes 2) cnt in
    omega (
      arith,
      length-take got (drop 16 bytes ++ replicate got 0),
      length-append (drop 16 bytes) (replicate got 0),
      length-replicate {A = ℕ} got 0,
    )

module _ {W : Type 0} (agent : Agent W) where
  read_answer_fits :
      (cnt : ℕ) (r : Option Called) (s : Lib W) (bytes : List ℕ)
      → (read_answer agent cnt r s).0.value ≡ some bytes
      → length bytes ≤ cnt
  unfolding read_answer
  read_answer_fits cnt none s bytes e = absurd (cc)
  read_answer_fits cnt (some r) s bytes e = ground (arith, length-read_bytes cnt r.bytes)

  -- Whatever the broker answers: `ibrd` puts no more bytes into the caller's buffer than the count it
  -- was given, nor more than 4080.
  pub ibrd_fits :
      (ud : ℤ) (cnt : ℕ) (s : Lib W) (bytes : List ℕ)
      → (ibrd agent ud (pos cnt) s).0.value ≡ some bytes
      → (length bytes ≤ cnt) × (length bytes ≤ max_inline)
  unfolding ibrd
  ibrd_fits ud cnt s bytes e =
      let (r, t) =
        driver_call agent ud 5 (λ h. packed (to_u32 h ∷ min cnt max_inline ∷ []))
          (16 + min cnt max_inline) s in
      omega (arith, read_answer_fits (min cnt max_inline) r t bytes e)
