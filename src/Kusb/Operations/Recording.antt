-- ===== src/Kusb/Operations/Recording.antt =====
-- A device with a log of what it took: the transfers that were armed and the bytes that went out.
use darwin_gpib.Prelude.{
  ℕ, suc, ◌^◌, ◌<◌, ◌≤◌, ◌≡◌, refl, ap, sym, ◌∙◌, arith, Bool, true, false, append-nil,
  append_assoc, All, take_all, length-take, length-drop, length-append, take-append-drop, List, [],
  ◌∷◌, ◌++◌, ◌==◌, ◌||◌, if◌then◌else◌, length, take, drop,
}
use darwin_gpib.Usb.{Kern, Device, Outgoing, le32_at}
use darwin_gpib.Kusb.Wire.{req_begin_cmd, req_begin_write, transfer_header}
use darwin_gpib.Kusb.Firmware.{chunk_of}

-- A transfer armed with a request, its value and the length in its header, or a byte on a pipe.
pub data Event : Type 0 where
  arm : ℕ → ℕ → ℕ → Event
  byte : ℕ → ℕ → Event

abbrev pub Log : Type 0
Log = List Event

abbrev pub bytes_on : ℕ → List ℕ → Log
bytes_on pipe [] = []
bytes_on pipe (x ∷ xs) = Event.byte pipe x ∷ bytes_on pipe xs

-- What a control request leaves in the log: an arming that succeeded.
unfoldable pub arming : ℕ → ℕ → List ℕ → Kern → Log
arming request value payload code = elim code [
  | Kern.success ↦
      if (request == req_begin_cmd) || (request == req_begin_write)
      then Event.arm request value (le32_at payload 4) ∷ []
      else []
  | k ↦ []
]

-- What `IO` on a bulk-out pipe leaves: the bytes that the device says it took.
unfoldable pub going : ℕ → List ℕ → Outgoing → Log
going pipe bytes r = elim r.code [ Kern.success ↦ bytes_on pipe (take r.count bytes) | k ↦ [] ]

abbrev silent : {W A : Type 0} → (W → A × W) → Log × W → A × (Log × W)
silent f w = ((f w.1).0, (w.0, (f w.1).1))

unfoldable pub recorded : {W : Type 0} → Device W → Device (Log × W)
recorded v = record {
  map_buffer = silent v.map_buffer;
  create_buffer = λ n. silent (v.create_buffer n);
  io_out = λ pipe bytes ms w.
      let r = v.io_out pipe bytes ms w.1 in (r.0, (w.0 ++ going pipe bytes r.0, r.1));
  io_in = λ pipe capacity ms. silent (v.io_in pipe capacity ms);
  request_out = λ request value index payload w.
      let r = v.request_out request value index payload w.1 in
      (r.0, (w.0 ++ arming request value payload r.0.code, r.1));
  request_in = λ request value index size. silent (v.request_in request value index size);
  clear_stall = λ pipe. silent (v.clear_stall pipe);
  reset = silent v.reset;
  uptime_ns = λ w. v.uptime_ns w.1;
  sleep_ms = λ ms. silent (v.sleep_ms ms);
}

-- `IO` on a bulk-out pipe reports no more bytes than it was given.
abbrev pub Honest : {W : Type 0} → Device W → Type 0
Honest {W} v =
    (pipe : ℕ) (bytes : List ℕ) (ms : ℕ) (w : W) → (v.io_out pipe bytes ms w).0.count ≤ length bytes

-- The log of a chunk: armed with its length, then its bytes in order.
abbrev pub chunk_log : ℕ → ℕ → ℕ → List ℕ → Log
chunk_log request value pipe chunk = Event.arm request value (length chunk) ∷ bytes_on pipe chunk

pub bytes_on-append :
    (pipe : ℕ) (xs ys : List ℕ) → bytes_on pipe (xs ++ ys) ≡ bytes_on pipe xs ++ bytes_on pipe ys
bytes_on-append pipe [] ys = refl
bytes_on-append pipe (x ∷ xs) ys = ap (λ t. Event.byte pipe x ∷ t) (bytes_on-append pipe xs ys)

pub le32_at-transfer_header :
    (ms size : ℕ) → size < 2 ^ 32 → le32_at (transfer_header ms size) 4 ≡ size
unfolding transfer_header
le32_at-transfer_header ms size h = omega arith

abbrev pub concat : List (List ℕ) → List ℕ
concat [] = []
concat (c ∷ cs) = c ++ concat cs

abbrev pub is_nil : List (List ℕ) → Bool
is_nil [] = true
is_nil (c ∷ cs) = false

-- The value that asks for EOI: where it was wanted, and with the last chunk.
abbrev pub eoi_if : Bool → Bool → ℕ
eoi_if true true = 256
eoi_if true false = 0
eoi_if false last = 0

-- A chunk has a byte at least, and no more than the limit where there is one.
abbrev pub Sized : ℕ → List ℕ → Type 0
Sized limit c = (1 ≤ length c) × (1 ≤ limit → length c ≤ limit)

-- The log of some chunks, one transfer each. The value of a request says whether its chunk is the last.
unfoldable pub transfers_log : ℕ → (Bool → ℕ) → ℕ → List (List ℕ) → Log
transfers_log request value_of pipe [] = []
transfers_log request value_of pipe (c ∷ cs) =
    chunk_log request (value_of (is_nil cs)) pipe c ++ transfers_log request value_of pipe cs

-- The bytes went out between two logs: cut into chunks within the limit, each in one transfer, in order.
abbrev pub Carried : ℕ → (Bool → ℕ) → ℕ → ℕ → List ℕ → Log → Log → Type 0
Carried request value_of pipe limit buf before after =
    (chunks : List (List ℕ)) × (concat chunks ≡ buf)
    × All (Sized limit) chunks
    × (after ≡ before ++ transfers_log request value_of pipe chunks)

-- A chunk is the beginning of what is left, and has a byte of it.
pub chunk_of-take :
    (limit : ℕ) (rest : List ℕ) → chunk_of limit rest ≡ take (length (chunk_of limit rest)) rest
unfolding chunk_of
chunk_of-take limit rest =
    ground (arith, length-take limit rest, take_all (length rest) rest (omega arith))

pub chunk_of-Sized :
    (limit x : ℕ) (xs : List ℕ)
    → Sized limit (chunk_of limit (x ∷ xs)) × (length (chunk_of limit (x ∷ xs)) ≤ suc (length xs))
unfolding chunk_of
chunk_of-Sized limit x xs = ground (arith, length-take limit (x ∷ xs))

last_chunk :
    (limit n : ℕ) (buf : List ℕ) (cs : List (List ℕ))
    → n ≤ length buf
    → concat cs ≡ drop n buf
    → All (Sized limit) cs
    → is_nil cs ≡ (n == length buf)
last_chunk limit n buf [] fits same sized =
    ground (arith, length-drop n buf, ap (λ xs. length xs) same)
last_chunk limit n buf (c ∷ cs) fits same sized =
    ground
      (arith, length-drop n buf, ap (λ xs. length xs) same, length-append c (concat cs), sized.0.0)

pub Carried-nil :
    (request : ℕ) (value_of : Bool → ℕ) (pipe limit : ℕ) (l : Log)
    → Carried request value_of pipe limit [] l l
unfolding transfers_log
Carried-nil request value_of pipe limit l = ([], refl, tt, sym (append-nil l))

-- One chunk, then the rest.
pub Carried-chunk :
    (request : ℕ) (value_of : Bool → ℕ) (pipe limit x : ℕ) (xs : List ℕ) (l l1 l2 : Log)
    → let chunk = chunk_of limit (x ∷ xs) in
      l1 ≡ l ++ chunk_log request (value_of (length chunk == length (x ∷ xs))) pipe chunk
      → Carried request value_of pipe limit (drop (length chunk) (x ∷ xs)) l1 l2
      → Carried request value_of pipe limit (x ∷ xs) l l2
unfolding transfers_log
Carried-chunk request value_of pipe limit x xs l l1 l2 first (cs, same, sized, rest) =
    let chunk = chunk_of limit (x ∷ xs) in
    let (small, fits) = chunk_of-Sized limit x xs in
    let last = last_chunk limit (length chunk) (x ∷ xs) cs fits same sized in
    (
      chunk ∷ cs,
      ap (λ t. chunk ++ t) same
          ∙ ap (λ t. t ++ drop (length chunk) (x ∷ xs)) (chunk_of-take limit (x ∷ xs))
          ∙ take-append-drop (length chunk) (x ∷ xs),
      (small, sized),
      rest
          ∙ ap (λ t. t ++ transfers_log request value_of pipe cs) first
          ∙ append_assoc l
              (chunk_log request (value_of (length chunk == length (x ∷ xs))) pipe chunk)
              (transfers_log request value_of pipe cs)
          ∙ ap
              (λ b.
                l
                ++ (chunk_log request (value_of b) pipe chunk
                    ++ transfers_log request value_of pipe cs))
              (sym last),
    )
