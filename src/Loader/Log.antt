-- ===== src/Loader/Log.antt =====
-- A device with a log of the vendor requests that reached it, and what a download should leave there.
use darwin_gpib.Prelude.{ℕ, ◌+◌, ◌%◌, ◌^◌, List, [], ◌∷◌, ◌++◌, length}
use darwin_gpib.Usb.{Device}
use darwin_gpib.Loader.{req_fpga}

-- A vendor request: its number, value and index, and the bytes that it carries.
pub record Request : Type 0 where
  pub number : ℕ
  pub value : ℕ
  pub index : ℕ
  pub bytes : List ℕ

abbrev pub req : ℕ → ℕ → ℕ → List ℕ → Request
req number value index bytes = record {
  number = number;
  value = value;
  index = index;
  bytes = bytes;
}

abbrev silent : {W A : Type 0} → (W → A × W) → List Request × W → A × (List Request × W)
silent f w = ((f w.1).0, (w.0, (f w.1).1))

unfoldable pub watched : {W : Type 0} → Device W → Device (List Request × W)
watched v = record {
  map_buffer = silent v.map_buffer;
  create_buffer = λ n. silent (v.create_buffer n);
  io_out = λ pipe bytes ms. silent (v.io_out pipe bytes ms);
  io_in = λ pipe capacity ms. silent (v.io_in pipe capacity ms);
  request_out = λ number value index bytes w.
      let r = v.request_out number value index bytes w.1 in
      (r.0, (w.0 ++ req number value index bytes ∷ [], r.1));
  request_in = λ number value index size. silent (v.request_in number value index size);
  clear_stall = λ pipe. silent (v.clear_stall pipe);
  reset = silent v.reset;
  uptime_ns = λ w. v.uptime_ns w.1;
  sleep_ms = λ ms. silent (v.sleep_ms ms);
}

-- Chunks written one behind the other, from `offset` beyond the base address, in 16 bits.
abbrev pub placed : ℕ → ℕ → ℕ → List (List ℕ) → List Request
placed number base_addr offset [] = []
placed number base_addr offset (c ∷ cs) =
    req number ((base_addr + offset) % 2 ^ 16) 0 c ∷ placed number base_addr (offset + length c) cs

-- Chunks of the bitstream; the index flags the last one.
abbrev pub streamed : List (List ℕ) → List Request
streamed [] = []
streamed (c ∷ []) = req req_fpga 1 1 c ∷ []
streamed (c ∷ d ∷ cs) = req req_fpga 1 0 c ∷ streamed (d ∷ cs)
