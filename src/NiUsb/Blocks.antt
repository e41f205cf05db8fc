-- ===== src/NiUsb/Blocks.antt =====
-- `readData` of NIUSBTransport.cpp on a well-formed response: full 15-byte blocks, the status block,
-- and the count of valid bytes in the last block.
use darwin_gpib.Prelude.{
  ℕ, zero, suc, ◌+◌, ◌*◌, ◌≤◌, ◌<◌, ◌≡◌, ◌⊎◌, inl, inr, refl, sym, ap, ◌∙◌, arith, List, [], ◌∷◌,
  ◌++◌, ◌==◌, ltb, if◌then◌else◌, length, length-append, append_assoc, append-nil, take, min, All,
  Bool-cases, bit_and, length-take, take_all, take-append_of_eq, drop-append_of_eq,
  take-take_append,
}
use darwin_gpib.Gpib.Sta
use darwin_gpib.NiUsb.Wire.{data_id, status_id, map_ni_error, parse_status_block}
use darwin_gpib.NiUsb.Receive.{accept, walk, trimmed, final_count, finish, parse_response}

-- Blocks of 15 bytes, each behind its id, then the rest of the response.
abbrev pub in_blocks : List (List ℕ) → List ℕ → List ℕ
in_blocks [] rest = rest
in_blocks (b ∷ bs) rest = data_id ∷ (b ++ in_blocks bs rest)

abbrev pub joined : List (List ℕ) → List ℕ
joined [] = []
joined (b ∷ bs) = b ++ joined bs

abbrev pub IsBlock : List ℕ → Type 0
IsBlock b = length b ≡ 15

-- The buffer takes what fits, and drops the rest.
accept-take :
    (request : ℕ) (out xs : List ℕ)
    → length out ≤ request
    → accept request out xs ≡ take request (out ++ xs)
unfolding accept
accept-take request out [] h = sym (rw (append-nil out) (take_all request out h))
accept-take request out (x ∷ xs) h = elim (Bool-cases (ltb (length out) request)) [
  | inl room ↦
      let grown = length-append out (x ∷ []) in
      rw room (
        accept-take request (out ++ x ∷ []) xs (ground (arith, grown))
        ∙ ap (take request) (append_assoc out (x ∷ []) xs))
  | inr full ↦
      let filled : length out ≡ request = ground arith in
      rw full (
        accept-take request out xs h
        ∙ take-append_of_eq request out xs filled
        ∙ sym (take-append_of_eq request out (x ∷ xs) filled))
]

abbrev pub payload_after : List (List ℕ) → ℕ → ℕ
payload_after [] p = p
payload_after (b ∷ bs) p = 15

payload_after-same : (bs : List (List ℕ)) → payload_after bs 15 ≡ 15
payload_after-same [] = refl
payload_after-same (b ∷ bs) = refl

-- One block of the walk.
walk_block :
    (fuel request payload : ℕ) (b rest out : List ℕ)
    → IsBlock b
    → length out ≤ request
    → walk
        (suc fuel)
        request
        (record { rest = data_id ∷ (b ++ rest); out = out; payload = payload })
      ≡ walk fuel request (record { rest = rest; out = take request (out ++ b); payload = 15 })
unfolding walk
walk_block fuel request payload b rest out full room = rw (
  drop-append_of_eq 15 b rest full,
  take-append_of_eq 15 b rest full,
  accept-take request out b room,
)

-- The walk takes every block off, fills the buffer up to the request, and stops at the status block.
walk-in_blocks :
    (bs : List (List ℕ)) (fuel request payload : ℕ) (rest out : List ℕ)
    → All IsBlock bs
    → length bs ≤ fuel
    → length out ≤ request
    → walk fuel request
        (record { rest = in_blocks bs (status_id ∷ rest); out = out; payload = payload })
      ≡ record {
        rest = status_id ∷ rest;
        out = take request (out ++ joined bs);
        payload = payload_after bs payload;
      }
unfolding walk
walk-in_blocks [] zero request payload rest out full fuel room =
    λ i. record { rest = status_id ∷ rest; out = same i; payload = payload }
  where
    same : out ≡ take request (out ++ [])
    same = sym (rw (append-nil out) (take_all request out room))
walk-in_blocks [] (suc f) request payload rest out full fuel room =
    λ i. record { rest = status_id ∷ rest; out = same i; payload = payload }
  where
    same : out ≡ take request (out ++ [])
    same = sym (rw (append-nil out) (take_all request out room))
walk-in_blocks (b ∷ bs) zero request payload rest out full fuel room = absurd (omega arith)
walk-in_blocks (b ∷ bs) (suc f) request payload rest out full fuel room =
    walk_block f request payload b (in_blocks bs (status_id ∷ rest)) out full.0 room
    ∙ walk-in_blocks bs f request 15 rest (take request (out ++ b)) full.1 (omega arith)
        (omega (arith, length-take request (out ++ b)))
    ∙ (λ i. record { rest = status_id ∷ rest; out = taken i; payload = payload_after-same bs i })
  where
    taken :
        take request (take request (out ++ b) ++ joined bs) ≡ take request (out ++ (b ++ joined bs))
    taken =
        take-take_append request (out ++ b) (joined bs)
        ∙ ap (take request) (append_assoc out b (joined bs))

length-joined : (bs : List (List ℕ)) → All IsBlock bs → length (joined bs) ≡ 15 * length bs
length-joined [] full = refl
length-joined (b ∷ bs) full =
    omega (arith, length-append b (joined bs), length-joined bs full.1, full.0)

length-in_blocks : (bs : List (List ℕ)) (rest : List ℕ) → length bs ≤ length (in_blocks bs rest)
length-in_blocks [] rest = omega arith
length-in_blocks (b ∷ bs) rest =
    omega (arith, length-append b (in_blocks bs rest), length-in_blocks bs rest)

-- A status block, and the byte behind it.
abbrev pub status_bytes : ℕ → ℕ → ℕ → ℕ → List ℕ
status_bytes hi lo error tail = status_id ∷ hi ∷ lo ∷ error ∷ 0 ∷ 0 ∷ 0 ∷ 0 ∷ tail ∷ []

-- The buffer after a response of full blocks, and its count of valid bytes.
parse_response_lem :
    (request : ℕ) (bs : List (List ℕ)) (hi lo error tail : ℕ)
    → All IsBlock bs
    → 1 ≤ request
    → 1 ≤ length bs
    → let r = parse_response request (in_blocks bs (status_bytes hi lo error tail)) in
      (r.bytes ≡ take request (joined bs))
      × (r.count ≡ trimmed (min request (15 * length bs)) 15 tail)
      × (r.rc ≡ map_ni_error error)
      × (r.end_flag ≡ (if bit_and (hi * 256 + lo) Sta.end_bit == 0 then 0 else 1))
unfolding parse_response finish final_count parse_status_block
parse_response_lem request [] hi lo error tail full some_room some_block = absurd (omega arith)
parse_response_lem request (b ∷ bs) hi lo error tail full some_room some_block =
    rw (walk-in_blocks (b ∷ bs) _ request 0 _ [] full (length-in_blocks (b ∷ bs) _) (omega arith))
      (refl, counted, refl, refl)
  where
    size : length (take request (b ++ joined bs)) ≡ min request (15 * suc (length bs))
    size = omega (arith, length-take request (b ++ joined bs), length-joined (b ∷ bs) full)

    counted :
        (if ltb 0 (length (take request (b ++ joined bs)))
          then trimmed (length (take request (b ++ joined bs))) 15 tail
          else length (take request (b ++ joined bs)))
        ≡ trimmed (min request (15 * suc (length bs))) 15 tail
    counted = rw size (ground arith)

trimmed_room :
    (request m tail : ℕ)
    → ((15 * suc m ≤ request) ⊎ ((m ≡ 0) × (tail ≤ request)))
    → tail ≤ 15
    → trimmed (min request (15 * suc m)) 15 tail ≡ 15 * m + tail
unfolding trimmed
trimmed_room request m tail (inl room) tail_le = ground arith
trimmed_room request m tail (inr room) tail_le = ground arith

trimmed_cut :
    (request m tail : ℕ)
    → 15 * suc m + tail ≤ request
    → request < 15 * suc (suc m)
    → trimmed (min request (15 * suc (suc m))) 15 tail + 15 ≡ 15 * suc m + tail
unfolding trimmed
trimmed_cut request m tail room cut = ground arith

-- An adapter that answers a read with `m + 1` full blocks, a successful status block and the count
-- `tail` of valid bytes in the last block: when the request has room for all the blocks, or when
-- there is one block only, the count is exact, and the buffer begins with the blocks' bytes.
pub parse_response-in_blocks :
    (request m tail : ℕ) (bs : List (List ℕ)) (hi lo error : ℕ)
    → All IsBlock bs
    → length bs ≡ suc m
    → 1 ≤ tail
    → tail ≤ 15
    → ((15 * suc m ≤ request) ⊎ ((m ≡ 0) × (tail ≤ request)))
    → let r = parse_response request (in_blocks bs (status_bytes hi lo error tail)) in
      (r.bytes ≡ take request (joined bs))
      × (r.count ≡ 15 * m + tail)
      × (r.count ≤ length r.bytes)
      × (r.rc ≡ map_ni_error error)
      × (r.end_flag ≡ (if bit_and (hi * 256 + lo) Sta.end_bit == 0 then 0 else 1))
parse_response-in_blocks request m tail bs hi lo error full size tail_pos tail_le room =
    let r = parse_response_lem request bs hi lo error tail full (omega arith) (omega arith) in
    let answer = parse_response request (in_blocks bs (status_bytes hi lo error tail)) in
    let counted : answer.count ≡ 15 * m + tail =
      r.1 ∙ rw size (trimmed_room request m tail room tail_le) in
    let cut = ap length r.0 ∙ length-take request (joined bs) in
    (r.0, counted, ground (arith, counted, cut, length-joined bs full), r.2, r.3)

-- The same answer when the request ends inside the last block, with at least one block before it:
-- the bytes are in the buffer, but the count falls short by 15.
pub parse_response-in_blocks_cut :
    (request m tail : ℕ) (bs : List (List ℕ)) (hi lo error : ℕ)
    → All IsBlock bs
    → length bs ≡ suc (suc m)
    → 15 * suc m + tail ≤ request
    → request < 15 * suc (suc m)
    → let r = parse_response request (in_blocks bs (status_bytes hi lo error tail)) in
      (r.bytes ≡ take request (joined bs)) × (r.count + 15 ≡ 15 * suc m + tail)
parse_response-in_blocks_cut request m tail bs hi lo error full size room cut =
    let r = parse_response_lem request bs hi lo error tail full (omega arith) (omega arith) in
    (r.0, ap (λ c. c + 15) r.1 ∙ rw size (trimmed_cut request m tail room cut))
