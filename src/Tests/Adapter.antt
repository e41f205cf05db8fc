-- ===== src/Tests/Adapter.antt =====
-- The NI USB-HS transport, on small packets.
use darwin_gpib.Prelude.{
  ℕ, ◌+◌, ◌*◌, ◌≤◌, ◌≡◌, inl, refl, arith, List, [], ◌∷◌, length, take, replicate, bit_and, ◌==◌,
  if◌then◌else◌,
}
use darwin_gpib.Gpib.Sta
use darwin_gpib.Transport.{Within}
use darwin_gpib.NiUsb.Wire.{map_ni_error}
use darwin_gpib.NiUsb.Receive.{parse_response}
use darwin_gpib.NiUsb.Exchange.{read_data}
use darwin_gpib.NiUsb.Blocks.{
  in_blocks, joined, status_bytes, parse_response-in_blocks, parse_response-in_blocks_cut,
}
use darwin_gpib.NiUsb.Transfers.{read_data-Within}
use darwin_gpib.Tests.Bench.{pipes, ends}

-- Two blocks, the second with five valid bytes.
abbrev two_blocks : List (List ℕ)
two_blocks = replicate 15 65 ∷ replicate 15 66 ∷ []

parse_response-in_blocks_example :
    let r = parse_response 64 (in_blocks two_blocks (status_bytes 0x21 0x00 0 5)) in
    (r.bytes ≡ take 64 (joined two_blocks))
    × (r.count ≡ 20)
    × (r.count ≤ length r.bytes)
    × (r.rc ≡ map_ni_error 0)
    × (r.end_flag ≡ (if bit_and (0x21 * 256 + 0x00) Sta.end_bit == 0 then 0 else 1))
parse_response-in_blocks_example =
    parse_response-in_blocks 64 1 5 two_blocks 0x21 0x00 0 (refl, (refl, tt)) refl (omega arith)
      (omega arith) (inl (omega arith))

parse_response-in_blocks_cut_example :
    let r = parse_response 20 (in_blocks two_blocks (status_bytes 0x21 0x00 0 5)) in
    (r.bytes ≡ take 20 (joined two_blocks)) × (r.count + 15 ≡ 20)
parse_response-in_blocks_cut_example =
    parse_response-in_blocks_cut 20 0 5 two_blocks 0x21 0x00 0 (refl, (refl, tt)) refl (omega arith)
      (omega arith)

read_data-Within_example : Within 64 (read_data pipes ends 64 10 0 3000000 7).0
read_data-Within_example = read_data-Within pipes ends 64 10 0 3000000 7
