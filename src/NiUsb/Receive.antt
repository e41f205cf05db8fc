-- ===== src/NiUsb/Receive.antt =====
-- NIUSBTransport.cpp, `readData`: taking the adapter's response apart. The index `p` is the list of
-- the bytes that are left, and the buffer with its fill count `bytesOut` is the list of its bytes.
use darwin_gpib.Prelude.{
  ℕ, zero, suc, ◌+◌, ◌-◌, ◌*◌, ◌/◌, List, [], ◌∷◌, ◌++◌, bit_and, ◌==◌, ◌&&◌, not, if◌then◌else◌,
  ltb, length, get_or, take, drop, min,
}
use darwin_gpib.Gpib.Sta
use darwin_gpib.Transport.{Received}
use darwin_gpib.Transport.Rc
use darwin_gpib.NiUsb.Wire.{parse_status_block, map_ni_error, data_id, extended_data_id, status_id}

-- The inner loop: each byte goes into the buffer while there is room for it.
unfoldable pub accept : ℕ → List ℕ → List ℕ → List ℕ
accept request out [] = out
accept request out (x ∷ xs) =
    accept request (if ltb (length out) request then out ++ x ∷ [] else out) xs

pub record Blocks : Type 0 where
  pub rest : List ℕ
  pub out : List ℕ
  pub payload : ℕ

-- The walk over the data blocks, on fuel: each block takes a byte at least.
unfoldable pub walk : ℕ → ℕ → Blocks → Blocks
walk zero request b = b
walk (suc fuel) request b = elim b.rest [
  | [] ↦ b
  | x ∷ xs ↦
      let small =
        walk fuel request
          (record { rest = drop 15 xs; out = accept request b.out (take 15 xs); payload = 15 }) in
      let large = walk fuel request (record {
        rest = drop 30 (drop 1 xs);
        out = accept request b.out (take 30 (drop 1 xs));
        payload = 30;
      }) in
      if x == data_id then small else if x == extended_data_id then large else b
]

-- The count of valid bytes, from the byte behind the status block.
unfoldable pub trimmed : ℕ → ℕ → ℕ → ℕ
trimmed bytes_out payload tail =
    let complete : ℕ = bytes_out / payload in
    let actual : ℕ = if complete == 0 then tail else (complete - 1) * payload + tail in
    min actual bytes_out

-- `blockPayload && p < respLen && bytesOut > 0`.
unfoldable pub final_count : Blocks → ℕ
final_count b =
    if not (b.payload == 0) && (ltb 8 (length b.rest) && ltb 0 (length b.out))
    then trimmed (length b.out) b.payload (get_or b.rest 8 0)
    else length b.out

unfoldable pub finish : Blocks → Received
finish b =
    let st = parse_status_block b.rest in
    if ltb (length b.rest) 8
    then record { rc = Rc.err_io; bytes = b.out; count = length b.out; end_flag = 0 }
    else if st.id == status_id
    then record {
      rc = map_ni_error st.error_code;
      bytes = b.out;
      count = final_count b;
      end_flag = if bit_and st.ibsta Sta.end_bit == 0 then 0 else 1;
    }
    else record { rc = Rc.err_io; bytes = b.out; count = length b.out; end_flag = 0 }

unfoldable pub parse_response : ℕ → List ℕ → Received
parse_response request resp =
    finish (walk (length resp) request (record { rest = resp; out = []; payload = 0 }))
