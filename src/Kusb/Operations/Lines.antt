-- ===== src/Kusb/Operations/Lines.antt =====
-- The descriptor walk and the bus lines.
use darwin_gpib.Prelude.{
  ℕ, zero, suc, ◌+◌, ◌-◌, ◌*◌, ◌≤◌, ◌<◌, ◌≡◌, refl, arith, true, false, List, [], ◌∷◌, ◌==◌, ==_iff,
  length, length-append, get_or, bit_and,
}
use darwin_gpib.Prelude.Bits.{every, every-at}
use darwin_gpib.Transport.Rc
use darwin_gpib.Agilent.Wire.{bsr_lines}
use darwin_gpib.Kusb.Wire.{kusb_lines}
use darwin_gpib.Kusb.Endpoints.{Walk, visit, walk_descriptors, Endpoints, resolve_endpoints}

-- Two endpoints go out, and one comes in.
abbrev pub Directed : Endpoints → Type 0
Directed e =
    (bit_and e.data_out 0x80 ≡ 0)
    × (bit_and e.cmd_out 0x80 ≡ 0)
    × ((bit_and e.data_in 0x80 == 0) ≡ false)

lines_table : every 255 (λ v. bsr_lines v == kusb_lines (255 - v)) ≡ true
unfolding every bsr_lines kusb_lines
lines_table = refl

-- For a register value below 256: the Agilent adapter reports the lines that the KUSB-488B reports for
-- the value with every bit inverted.
pub bsr_lines-kusb_lines : (v : ℕ) → v < 256 → bsr_lines v ≡ kusb_lines (255 - v)
bsr_lines-kusb_lines v h = (==_iff _ _).0 (every-at 255 v _ (omega arith) lines_table)

visit_grows :
    (raw : List ℕ) (i a : ℕ) (w : Walk)
    → (length (visit raw i a w).addrs ≤ 8 + (length w.addrs - 8))
      × ((visit raw i a w).off ≡ w.off + get_or raw w.off 0)
unfolding visit
visit_grows raw i a w = ground (arith, length-append w.addrs (get_or raw (w.off + 2) 0 ∷ []))

walk_fits :
    (fuel : ℕ) (raw : List ℕ) (total i a : ℕ) (w : Walk)
    → length w.addrs ≤ 8
    → length (walk_descriptors fuel raw total i a w) ≤ 8
unfolding walk_descriptors
walk_fits zero raw total i a w h = h
walk_fits (suc fuel) raw total i a w h =
    let more =
      walk_fits fuel raw total i a (visit raw i a w) (omega (arith, (visit_grows raw i a w).0)) in
    ground arith

walk_ends :
    (f g : ℕ) (raw : List ℕ) (total i a : ℕ) (w : Walk)
    → total ≤ f + w.off
    → total ≤ g + w.off
    → walk_descriptors f raw total i a w ≡ walk_descriptors g raw total i a w
unfolding walk_descriptors
walk_ends zero zero raw total i a w hf hg = refl
walk_ends (suc f) zero raw total i a w hf hg = ground arith
walk_ends zero (suc g) raw total i a w hf hg = ground arith
walk_ends (suc f) (suc g) raw total i a w hf hg =
    let moved = (visit_grows raw i a w).1 in
    ground (arith, walk_ends f g raw total i a (visit raw i a w), moved)

-- The walk over a configuration descriptor, whatever its bytes are, ends: its total length bounds the
-- steps, so that more fuel finds the same. It finds at most eight endpoints.
walk_descriptors_ends :
    (raw ifraw : List ℕ) (extra : ℕ)
    → let total : ℕ = get_or raw 2 0 + get_or raw 3 0 * 256 in
      let start : Walk = record { off = 0; addrs = []; in_our_interface = false } in
      let found = walk_descriptors total raw total (get_or ifraw 2 0) (get_or ifraw 3 0) start in
      (walk_descriptors (total + extra) raw total (get_or ifraw 2 0) (get_or ifraw 3 0) start
        ≡ found)
      × (length found ≤ 8)
walk_descriptors_ends raw ifraw extra =
    let total : ℕ = get_or raw 2 0 + get_or raw 3 0 * 256 in
    let start : Walk = record { off = 0; addrs = []; in_our_interface = false } in
    (
      walk_ends (total + extra) total raw total (get_or ifraw 2 0) (get_or ifraw 3 0) start
          (omega arith) (omega arith),
      walk_fits total raw total (get_or ifraw 2 0) (get_or ifraw 3 0) start (omega arith),
    )

-- When the endpoints of a configuration descriptor are accepted, the walk found five to eight, the
-- pipes for data and for commands go out, and the pipe that is read comes in.
resolve_endpoints-Directed :
    (raw ifraw : List ℕ) (before : Endpoints)
    → (resolve_endpoints raw ifraw before).0 ≡ Rc.success
    → let total : ℕ = get_or raw 2 0 + get_or raw 3 0 * 256 in
      let start : Walk = record { off = 0; addrs = []; in_our_interface = false } in
      let found = walk_descriptors total raw total (get_or ifraw 2 0) (get_or ifraw 3 0) start in
      (5 ≤ length found) × (length found ≤ 8) × Directed (resolve_endpoints raw ifraw before).1
unfolding resolve_endpoints
resolve_endpoints-Directed raw ifraw before ok =
    ground (arith, (walk_descriptors_ends raw ifraw 0).1)
