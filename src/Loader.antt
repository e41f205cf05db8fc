-- ===== src/Loader.antt =====
-- driver/devices/kusb_488b/KUSB488BLoader.cpp: the download of the firmware into a KUSB-488B. The images
-- are parameters, as they are not part of the repository.
pub mod Log
pub mod Laws
pub mod Download
pub mod Spares
use darwin_gpib.Prelude.{
  ℕ, zero, suc, ◌+◌, ◌%◌, ◌^◌, Bool, true, false, List, [], ◌∷◌, ◌==◌, ◌&&◌, if◌then◌else◌, ltb,
  leb, length, drop,
}
use darwin_gpib.Usb.{Kern, success, Device, U, ◌>>=◌, pure}
use darwin_gpib.Kusb.Firmware.{chunk_of}

-- A `kern_return_t` of the loader: the device's, or one of its own.
pub data Code : Type 0 where
  returned : Kern → Code
  not_ready bad_argument underrun unsupported : Code

abbrev pub is_success : Code → Bool
is_success (returned success) = true
is_success (returned k) = false
is_success c = false

-- The pointers that `vendorWrite` tests: the device with its owner, and the buffer.
pub record Ends : Type 0 where
  pub device_ready : Bool
  pub buffer_ready : Bool

-- What `free` leaves.
abbrev pub no_ends : Ends
no_ends = record { device_ready = false; buffer_ready = false }

-- The images of kusb_488b_firmware_data.h, which says that there are any.
pub record Images : Type 0 where
  pub available : Bool
  pub bitstream : List ℕ
  pub ext_ram : List ℕ
  pub main : List ℕ

-- KUSB_FW_REQ_RAM, KUSB_FW_REQ_EXTRAM, KUSB_FW_REQ_FPGA, KUSB_FW_CPUCS_ADDR, KUSB_FW_CHUNK and
-- KUSB_LEGACY_BCD_DEVICE.
abbrev pub req_ram : ℕ
req_ram = 0xa0

abbrev pub req_ext_ram : ℕ
req_ext_ram = 0xa3

abbrev pub req_fpga : ℕ
req_fpga = 0xa4

abbrev pub cpucs_addr : ℕ
cpucs_addr = 0xe600

abbrev pub fw_chunk : ℕ
fw_chunk = 0x1000

abbrev pub legacy_bcd_device : ℕ
legacy_bcd_device = 0x0004

-- `kr != kIOReturnSuccess` ends the download with `kr`.
abbrev pub and_then : {W : Type 0} → Code → U W Code → U W Code
and_then c m = if is_success c then m else pure c

-- `init`, where `given` says that neither pointer is null: what it answers, and the pointers as it leaves
-- them.
unfoldable pub init : {W : Type 0} → Device W → Bool → U W (Bool × Ends)
init v given =
    if given
    then (do
      made ← v.create_buffer fw_chunk
      pure (elim made [
        | Kern.success ↦ (true, record { device_ready = true; buffer_ready = true })
        | k ↦ (false, record { device_ready = true; buffer_ready = false })
      ]))
    else pure (false, no_ends)

module _ {W : Type 0} (v : Device W) (e : Ends) where
  requested : ℕ → ℕ → ℕ → List ℕ → U W Code
  requested request value index payload = do
    r ← v.request_out request value index payload
    pure (elim r.code [
      | Kern.success ↦
          if r.count == length payload then Code.returned Kern.success else Code.underrun
      | k ↦ Code.returned k
    ])

  unfoldable pub vendor_write : ℕ → ℕ → ℕ → List ℕ → U W Code
  unfolding requested
  vendor_write request value index payload =
      let filled = (do
        mapped ← v.map_buffer
        elim mapped [
          | Kern.success ↦ requested request value index payload
          | k ↦ pure (Code.returned k)
        ]) in
      if e.device_ready
      then (if length payload == 0
          then requested request value index payload
          else (if e.buffer_ready && leb (length payload) fw_chunk
              then filled
              else pure Code.bad_argument))
      else pure Code.not_ready

  unfoldable pub set_cpu_reset : Bool → U W Code
  set_cpu_reset hold = vendor_write req_ram cpucs_addr 0 ((if hold then 1 else 0) ∷ [])

  -- The loop of `downloadChunked`, at `offset` with the bytes that are left, on fuel: a chunk has a byte
  -- at least.
  unfoldable pub chunked_loop : ℕ → ℕ → ℕ → ℕ → List ℕ → U W Code
  chunked_loop fuel request base_addr offset [] w = (Code.returned Kern.success, w)
  chunked_loop zero request base_addr offset (x ∷ xs) w = (Code.underrun, w)
  chunked_loop (suc fuel) request base_addr offset (x ∷ xs) w =
      let chunk = chunk_of fw_chunk (x ∷ xs) in
      let (kr, w') = vendor_write request ((base_addr + offset) % 2 ^ 16) 0 chunk w in
      let more =
        chunked_loop fuel request base_addr (offset + length chunk) (drop (length chunk) (x ∷ xs))
          w' in
      if is_success kr then more else (kr, w')

  unfoldable pub download_chunked : ℕ → ℕ → List ℕ → U W Code
  download_chunked request base_addr bytes = chunked_loop (length bytes) request base_addr 0 bytes

  -- The loop of `downloadBitstream`: the index flags the last chunk.
  unfoldable pub bitstream_loop : ℕ → List ℕ → U W Code
  bitstream_loop fuel [] w = (Code.returned Kern.success, w)
  bitstream_loop zero (x ∷ xs) w = (Code.underrun, w)
  bitstream_loop (suc fuel) (x ∷ xs) w =
      let chunk = chunk_of fw_chunk (x ∷ xs) in
      let last = if ltb fw_chunk (length (x ∷ xs)) then 0 else 1 in
      let (kr, w') = vendor_write req_fpga 1 last chunk w in
      let more = bitstream_loop fuel (drop (length chunk) (x ∷ xs)) w' in
      if is_success kr then more else (kr, w')

  unfoldable pub download_bitstream : List ℕ → U W Code
  download_bitstream bytes = do
    begun ← vendor_write req_fpga 0 0 []
    and_then begun (bitstream_loop (length bytes) bytes)

  -- The main firmware goes in while the processor is held; one that fails lets it go again.
  unfoldable pub load_main : List ℕ → U W Code
  load_main main = do
    held ← set_cpu_reset true
    and_then held (do
      loaded ← download_chunked req_ram 0 main
      let released = do done ← set_cpu_reset false; pure loaded
      if is_success loaded then set_cpu_reset false else released)

  unfoldable pub download_firmware : Images → ℕ → U W Code
  download_firmware images bcd_device =
      if images.available
      then (if ltb bcd_device legacy_bcd_device then pure Code.unsupported else (do
        configured ← download_bitstream images.bitstream
        and_then configured (do
          filled ← download_chunked req_ext_ram 0x4000 images.ext_ram
          and_then filled (load_main images.main))))
      else pure Code.unsupported
