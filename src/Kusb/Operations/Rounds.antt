-- ===== src/Kusb/Operations/Rounds.antt =====
-- One round of `readDataViaFirmware`: what it ends with, and how far it goes on.
use darwin_gpib.Prelude.{
  ℕ, suc, ◌+◌, ◌-◌, ◌*◌, ◌≤◌, ◌<◌, ◌≡◌, refl, ap, arith, true, false, List, ◌++◌, ◌&&◌, ◌⊎◌, inl,
  inr, length, length-append, min, if◌then◌else◌, ltb, Bool-cases,
}
use darwin_gpib.Transport.{Received, Within}
use darwin_gpib.Transport.Rc
use darwin_gpib.Usb.{Kern, Device, map_io_return}
use darwin_gpib.Kusb.{Session, Ends}
use darwin_gpib.Kusb.Control.{bulk_in, data_in_pipe, bulk_buffer_size}
use darwin_gpib.Kusb.Wire.{ms_from_usec}
use darwin_gpib.Kusb.Reading.{Progress, Round, ends, goes_on, read_done, asked, read_round}

-- `IO` on a bulk-in pipe brings no more bytes than its buffer holds.
abbrev pub FitsBuffer : {W : Type 0} → Device W → Type 0
FitsBuffer {W} v =
    (pipe capacity ms : ℕ) (w : W) → length (v.io_in pipe capacity ms w).0.bytes ≤ capacity

-- `IO` that succeeds brings a byte at least, where the buffer has room.
abbrev pub Bringing : {W : Type 0} → Device W → Type 0
Bringing {W} v =
    (pipe capacity ms : ℕ) (w : W)
    → 1 ≤ capacity
    → (v.io_in pipe capacity ms w).0.code ≡ Kern.success
    → 1 ≤ length (v.io_in pipe capacity ms w).0.bytes

pub Round-cases :
    (r : Round)
    → ((out : Received) × (r ≡ Round.ends out)) ⊎ ((g : Progress) × (r ≡ Round.goes_on g))
Round-cases (ends out) = inl (out, refl)
Round-cases (goes_on g) = inr (g, refl)

-- How a loop goes on after its status request: BUSY and more is wanted, or one more failure.
abbrev Onward : ℕ → List ℕ → ℕ → Progress → Type 0
Onward request bytes glitches g =
    (g.bytes ≡ bytes)
    × (((g.need_data ≡ true) × (g.glitches ≡ 0) × (length bytes < request))
        ⊎ ((g.need_data ≡ false) × (g.glitches ≡ suc glitches) × (glitches < 5)))

read_done-Within :
    (request : ℕ) (bytes status : List ℕ)
    → length bytes ≤ request
    → Within request (read_done request bytes status)
unfolding read_done
read_done-Within request bytes status h = ground arith

module _ {W : Type 0} (v : Device W) (e : Ends) (request timeout_us : ℕ) where
  asked-ends :
      (bytes : List ℕ) (glitches : ℕ) (s : Session W) (out : Received)
      → length bytes ≤ request
      → (asked v e request timeout_us bytes glitches s).0 ≡ Round.ends out
      → Within request out
  unfolding asked read_done
  asked-ends bytes glitches s out h is = ground arith

  asked-goes_on :
      (bytes : List ℕ) (glitches : ℕ) (s : Session W) (g : Progress)
      → (asked v e request timeout_us bytes glitches s).0 ≡ Round.goes_on g
      → Onward request bytes glitches g
  unfolding asked
  asked-goes_on bytes glitches s g is = ground arith

  -- What holds between the rounds, and what every round takes down.
  abbrev pub Going : Progress → Type 0
  Going g =
      (length g.bytes ≤ request)
      × (g.glitches ≤ 5)
      × ((g.need_data ≡ true) → (length g.bytes < request))

  abbrev pub left_to_do : Progress → ℕ
  left_to_do g = 7 * (request - length g.bytes) + (if g.need_data then 0 else 6 - g.glitches)

  Onward-Going :
      (bytes : List ℕ) (glitches : ℕ) (g : Progress)
      → length bytes ≤ request
      → Onward request bytes glitches g
      → Going g × (left_to_do g ≤ 7 * (request - length bytes) + (5 - glitches))
  Onward-Going bytes glitches g h (same, inl (need, none_yet, more)) =
      ground (arith, ap (λ t. length t) same)
  Onward-Going bytes glitches g h (same, inr (rest, one_more, few)) =
      ground (arith, ap (λ t. length t) same)

  bulk_in-fits :
      (capacity : ℕ) (s : Session W)
      → FitsBuffer v
      → length (bulk_in v e capacity timeout_us s).0.bytes ≤ capacity
  unfolding bulk_in
  bulk_in-fits capacity s fits =
      ground
        (arith, fits data_in_pipe (min capacity bulk_buffer_size) (ms_from_usec timeout_us) s.world)

  pub round-ends :
      (g : Progress) (s : Session W) (out : Received)
      → FitsBuffer v
      → length g.bytes ≤ request
      → (read_round v e request timeout_us g s).0 ≡ Round.ends out
      → Within request out
  unfolding read_round
  round-ends g s out fits h is =
      let r = bulk_in v e (request - length g.bytes) timeout_us s in
      ground (
        arith,
        bulk_in-fits (request - length g.bytes) s fits,
        length-append g.bytes r.0.bytes,
        asked-ends (g.bytes ++ r.0.bytes) g.glitches r.1 out,
        asked-ends g.bytes g.glitches s out,
      )

  bulk_in-brings :
      (capacity : ℕ) (s : Session W)
      → Bringing v
      → 1 ≤ capacity
      → (bulk_in v e capacity timeout_us s).0.rc ≡ Rc.success
      → 1 ≤ length (bulk_in v e capacity timeout_us s).0.bytes
  unfolding bulk_in map_io_return
  bulk_in-brings capacity s brings room ok =
      ground (
        arith,
        brings data_in_pipe (min capacity bulk_buffer_size) (ms_from_usec timeout_us) s.world,
      )

  -- A round that goes on either brought bytes that were due, or only asked.
  round-Onward :
      (g g' : Progress) (s : Session W)
      → (read_round v e request timeout_us g s).0 ≡ Round.goes_on g'
      → let r = bulk_in v e (request - length g.bytes) timeout_us s in
        ((g.need_data ≡ true)
          × (length g.bytes < request)
          × (r.0.rc ≡ Rc.success)
          × Onward request (g.bytes ++ r.0.bytes) g.glitches g')
        ⊎ (((g.need_data && ltb (length g.bytes) request) ≡ false)
            × Onward request g.bytes g.glitches g')
  unfolding read_round
  round-Onward g g' s is =
      let r = bulk_in v e (request - length g.bytes) timeout_us s in
      elim (Bool-cases (g.need_data && ltb (length g.bytes) request)) [
        | inl due ↦ inl (ground (arith, asked-goes_on (g.bytes ++ r.0.bytes) g.glitches r.1 g'))
        | inr idle ↦ inr (idle, ground (arith, asked-goes_on g.bytes g.glitches s g'))
      ]

  pub round-goes_on :
      (g g' : Progress) (s : Session W)
      → FitsBuffer v
      → Bringing v
      → Going g
      → (read_round v e request timeout_us g s).0 ≡ Round.goes_on g'
      → Going g' × (left_to_do g' < left_to_do g)
  round-goes_on g g' s fits brings going is =
      let r = bulk_in v e (request - length g.bytes) timeout_us s in
      elim (round-Onward g g' s is) [
        | inl (need, more, ok, on) ↦
            let some_bytes = bulk_in-brings (request - length g.bytes) s brings (omega arith) ok in
            let longer = length-append g.bytes r.0.bytes in
            let (going', few) =
              Onward-Going (g.bytes ++ r.0.bytes) g.glitches g'
                (omega (arith, longer, bulk_in-fits (request - length g.bytes) s fits)) on in
            (going', rw need (omega (arith, few, longer, some_bytes)))
        | inr (idle, on) ↦
            let (going', few) = Onward-Going g.bytes g.glitches g' going.0 on in
            (going', ground (arith, few))
      ]

  pub goes_on-fits :
      (g g' : Progress) (s : Session W)
      → FitsBuffer v
      → length g.bytes ≤ request
      → (read_round v e request timeout_us g s).0 ≡ Round.goes_on g'
      → length g'.bytes ≤ request
  goes_on-fits g g' s fits h is =
      let r = bulk_in v e (request - length g.bytes) timeout_us s in
      let room = bulk_in-fits (request - length g.bytes) s fits in
      elim (round-Onward g g' s is) [
        | inl (need, more, ok, on) ↦
            omega (arith, ap (λ t. length t) on.0, length-append g.bytes r.0.bytes, room)
        | inr (idle, on) ↦ omega (arith, ap (λ t. length t) on.0)
      ]
