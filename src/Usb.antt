-- ===== src/Usb.antt =====
-- What the transports take from IOKit and USBDriverKit: return codes, the calls on bulk pipes and the
-- control requests. Their behaviour is a parameter; the world `W` is where they act.
use darwin_gpib.Prelude.{ℕ, List, [], ◌∷◌, ◌==◌, if◌then◌else◌, ◌+◌, ◌*◌, ◌%◌, ◌/◌, get_or}
use darwin_gpib.Transport.Rc

-- A `kern_return_t`, as far as the driver tells them apart: kIOReturnSuccess, kIOReturnTimeout,
-- kIOReturnAborted, kIOReturnNotOpen and any other.
pub data Kern : Type 0 where
  success timeout aborted not_open other : Kern

-- `mapIOReturn`, which both USB transports declare alike.
unfoldable pub map_io_return : Kern → ℕ
map_io_return Kern.success = Rc.success
map_io_return Kern.timeout = Rc.err_timeout
map_io_return Kern.aborted = Rc.err_aborted
map_io_return Kern.not_open = Rc.err_not_ready
map_io_return Kern.other = Rc.err_io

-- `IO` on a bulk-in pipe: the code and the bytes that came.
pub record Incoming : Type 0 where
  pub code : Kern
  pub bytes : List ℕ

-- The pipes with their buffers. `map_out` and `map_in` are `Map` on the buffers; the number given to
-- `io_out` and `io_in` last is the completion timeout in milliseconds, 0 for none.
pub record Pipes (W : Type 0) : Type 0 where
  pub map_out : W → Kern × W
  pub map_in : W → Kern × W
  pub io_out : List ℕ → ℕ → W → Kern × W
  pub io_in : ℕ → ℕ → W → Incoming × W
  pub sleep_ms : ℕ → W → Unit {0} × W

-- `IO` on a bulk-out pipe and a control request that sends: the code and the bytes that went.
pub record Outgoing : Type 0 where
  pub code : Kern
  pub count : ℕ

-- A device with its pipes, control requests and clock. Pipes go by number. A number of milliseconds
-- stands last among the numbers, 0 for no timeout. `map_buffer` is `Map` on a buffer, `create_buffer`
-- makes one of that many bytes, `request_out` and `request_in` are `DeviceRequest` with request, value
-- and index.
pub record Device (W : Type 0) : Type 0 where
  pub map_buffer : W → Kern × W
  pub create_buffer : ℕ → W → Kern × W
  pub io_out : ℕ → List ℕ → ℕ → W → Outgoing × W
  pub io_in : ℕ → ℕ → ℕ → W → Incoming × W
  pub request_out : ℕ → ℕ → ℕ → List ℕ → W → Outgoing × W
  pub request_in : ℕ → ℕ → ℕ → ℕ → W → Incoming × W
  pub clear_stall : ℕ → W → Unit {0} × W
  pub reset : W → Kern × W
  pub uptime_ns : W → ℕ
  pub sleep_ms : ℕ → W → Unit {0} × W

-- A step of the transport over the world.
abbrev pub U : Type 0 → Type 0 → Type 0
U W A = W → A × W

infixl 5 ◌>>=◌
abbrev pub ◌>>=◌ : {W A B : Type 0} → U W A → (A → U W B) → U W B
◌>>=◌ m f w = let (a, w') = m w in f a w'

abbrev pub pure : {W A : Type 0} → A → U W A
pure a w = (a, w)

-- `rc != GPIBT_OK` ends the operation with `rc`.
abbrev pub and_then : {W : Type 0} → ℕ → U W ℕ → U W ℕ
and_then rc m = if rc == Rc.success then m else pure rc

-- A return code with the response's bytes.
pub record Reply : Type 0 where
  pub rc : ℕ
  pub bytes : List ℕ

-- The four bytes of a `uint32_t`, the lowest first, and back. Shifted bytes below 256 share no bit, so
-- their `|` is their sum.
abbrev pub le32_bytes : ℕ → List ℕ
le32_bytes n = (n % 256) ∷ (n / 256 % 256) ∷ (n / 65536 % 256) ∷ (n / 16777216 % 256) ∷ []

abbrev pub le32_at : List ℕ → ℕ → ℕ
le32_at bytes i =
    get_or bytes i 0
    + get_or bytes (i + 1) 0 * 256
    + get_or bytes (i + 2) 0 * 65536
    + get_or bytes (i + 3) 0 * 16777216
