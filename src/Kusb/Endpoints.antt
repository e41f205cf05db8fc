-- ===== src/Kusb/Endpoints.antt =====
-- KUSB488BTransport.cpp, `resolveEndpoints`: the walk over the configuration descriptor. The descriptor
-- is the list of its bytes.
use darwin_gpib.Prelude.{
  ℕ, zero, suc, ◌+◌, ◌*◌, Bool, false, List, [], ◌∷◌, ◌++◌, ◌==◌, ◌&&◌, ◌||◌, not, if◌then◌else◌,
  ltb, leb, length, get_or, bit_and,
}
use darwin_gpib.Transport.Rc

pub record Walk : Type 0 where
  pub off : ℕ
  pub addrs : List ℕ
  pub in_our_interface : Bool

-- The descriptor at `off`: an interface descriptor says whether it is ours, an endpoint descriptor of
-- our interface adds its address, up to eight of them.
unfoldable pub visit : List ℕ → ℕ → ℕ → Walk → Walk
visit raw want_iface want_alt w =
    let b_length : ℕ = get_or raw w.off 0 in
    let b_type : ℕ = get_or raw (w.off + 1) 0 in
    let ours =
      leb 4 b_length
      && ((get_or raw (w.off + 2) 0 == want_iface) && (get_or raw (w.off + 3) 0 == want_alt)) in
    let taken = leb 3 b_length && ltb (length w.addrs) 8 in
    let added = if taken then w.addrs ++ get_or raw (w.off + 2) 0 ∷ [] else w.addrs in
    record {
      off = w.off + b_length;
      addrs = if (b_type == 5) && w.in_our_interface then added else w.addrs;
      in_our_interface = if b_type == 4 then ours else w.in_our_interface;
    }

-- The loop on fuel: each descriptor takes two bytes at least.
unfoldable pub walk_descriptors : ℕ → List ℕ → ℕ → ℕ → ℕ → Walk → List ℕ
walk_descriptors zero raw total want_iface want_alt w = w.addrs
walk_descriptors (suc fuel) raw total want_iface want_alt w =
    let b_length : ℕ = get_or raw w.off 0 in
    let rest =
      walk_descriptors fuel raw total want_iface want_alt (visit raw want_iface want_alt w) in
    if leb (w.off + 2) total
    then (if ltb b_length 2 || ltb total (w.off + b_length) then w.addrs else rest)
    else w.addrs

-- The three endpoints that the transport uses.
pub record Endpoints : Type 0 where
  pub data_out : ℕ
  pub cmd_out : ℕ
  pub data_in : ℕ

-- The code, and the endpoints as they are left: at least five, in the directions expected.
unfoldable pub chosen : List ℕ → Endpoints → ℕ × Endpoints
chosen addrs before =
    let e : Endpoints = record {
      data_out = get_or addrs 2 0;
      cmd_out = get_or addrs 3 0;
      data_in = get_or addrs 4 0;
    } in
    if ltb (length addrs) 5
    then (Rc.err_not_ready, before)
    else if not (bit_and e.data_out 0x80 == 0)
        || (not (bit_and e.cmd_out 0x80 == 0) || (bit_and e.data_in 0x80 == 0))
    then (Rc.err_not_ready, e)
    else (Rc.success, e)

-- `raw` are the configuration descriptor's bytes, `ifraw` those of our interface descriptor.
unfoldable pub resolve_endpoints : List ℕ → List ℕ → Endpoints → ℕ × Endpoints
unfolding chosen
resolve_endpoints raw ifraw before =
    let total : ℕ = get_or raw 2 0 + get_or raw 3 0 * 256 in
    chosen
      (walk_descriptors total raw total (get_or ifraw 2 0) (get_or ifraw 3 0)
        (record { off = 0; addrs = []; in_our_interface = false }))
      before
