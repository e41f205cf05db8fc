-- ===== src/Loader/Spares.antt =====
-- A download never writes the EEPROM, however it goes.
use darwin_gpib.Prelude.{
  ℕ, zero, suc, ◌+◌, ◌%◌, ◌^◌, ◌≡◌, refl, sym, ap, ◌∙◌, arith, Bool, true, false, List, [], ◌∷◌,
  ◌++◌, append-nil, append_assoc, All, All-append, length, drop, ltb, if◌then◌else◌, ◌==◌, ◌⊎◌, inl,
  inr, Bool-cases,
}
use darwin_gpib.Usb.{Device, ◌>>=◌, pure}
use darwin_gpib.Kusb.Firmware.{chunk_of}
use darwin_gpib.Loader.{
  Code, is_success, and_then, Ends, Images, fw_chunk, req_ram, req_ext_ram, req_fpga, cpucs_addr,
  vendor_write, set_cpu_reset, chunked_loop, download_chunked, bitstream_loop, download_bitstream,
  load_main, download_firmware, legacy_bcd_device,
}
use darwin_gpib.Loader.Log.{Request, req, watched}

-- A request that is not the EEPROM write, 0xa2.
abbrev pub SparesEeprom : Request → Type 0
SparesEeprom r = (r.number == 0xa2) ≡ false

-- What a step of the loader has done to the log: some requests more, none of them to the EEPROM.
abbrev pub Spares : List Request → List Request → Type 0
Spares before after = (more : List Request) × (after ≡ before ++ more) × All SparesEeprom more

Spares-refl : (l : List Request) → Spares l l
Spares-refl l = ([], sym (append-nil l), tt)

Spares-trans : (a b c : List Request) → Spares a b → Spares b c → Spares a c
Spares-trans a b c (xs, ab, hx) (ys, bc, hy) = (
  xs ++ ys,
  bc ∙ ap (λ t. t ++ ys) ab ∙ append_assoc a xs ys,
  All-append SparesEeprom xs ys hx hy,
)

-- A second step that is only taken after a first that succeeded.
and_then-Spares :
    {W : Type 0} (a : List Request) (c : Code) (m : List Request × W → Code × (List Request × W))
    (w : List Request × W)
    → Spares a w.0
    → Spares w.0 (m w).1.0
    → Spares a (and_then c m w).1.0
and_then-Spares a c m w first second = elim (Bool-cases (is_success c)) [
  | inl ok ↦ rw ok (Spares-trans a w.0 (m w).1.0 first second)
  | inr stop ↦ rw stop first
]

if-Spares :
    {W : Type 0} (a : List Request) (b : Bool) (x y : Code × (List Request × W))
    → Spares a x.1.0
    → Spares a y.1.0
    → Spares a (if b then x else y).1.0
if-Spares a true x y hx hy = hx
if-Spares a false x y hx hy = hy

module _ {W : Type 0} (v : Device W) (e : Ends) where
  vendor_write-either :
      (number value index : ℕ) (bytes : List ℕ) (w : List Request × W)
      → let after = (vendor_write (watched v) e number value index bytes w).1.0 in
        (after ≡ w.0) ⊎ (after ≡ w.0 ++ req number value index bytes ∷ [])
  unfolding vendor_write watched
  vendor_write-either number value index bytes w = ground arith

  vendor_write-Spares :
      (number value index : ℕ) (bytes : List ℕ) (w : List Request × W)
      → (number == 0xa2) ≡ false
      → Spares w.0 (vendor_write (watched v) e number value index bytes w).1.0
  vendor_write-Spares number value index bytes w other =
      elim (vendor_write-either number value index bytes w) [
        | inl same ↦ ([], same ∙ sym (append-nil w.0), tt)
        | inr more ↦ (req number value index bytes ∷ [], more, (other, tt))
      ]

  chunked_loop-Spares :
      (fuel number base_addr offset : ℕ) (bytes : List ℕ) (w : List Request × W)
      → (number == 0xa2) ≡ false
      → Spares w.0 (chunked_loop (watched v) e fuel number base_addr offset bytes w).1.0
  unfolding chunked_loop
  chunked_loop-Spares zero number base_addr offset [] w other = Spares-refl w.0
  chunked_loop-Spares (suc fuel) number base_addr offset [] w other = Spares-refl w.0
  chunked_loop-Spares zero number base_addr offset (x ∷ xs) w other = Spares-refl w.0
  chunked_loop-Spares (suc fuel) number base_addr offset (x ∷ xs) w other =
      let chunk = chunk_of fw_chunk (x ∷ xs) in
      let r = vendor_write (watched v) e number ((base_addr + offset) % 2 ^ 16) 0 chunk w in
      let rest =
        chunked_loop (watched v) e fuel number base_addr (offset + length chunk)
          (drop (length chunk) (x ∷ xs)) r.1 in
      let first = vendor_write-Spares number ((base_addr + offset) % 2 ^ 16) 0 chunk w other in
      let second =
        chunked_loop-Spares fuel number base_addr (offset + length chunk)
          (drop (length chunk) (x ∷ xs)) r.1 other in
      if-Spares w.0 (is_success r.0) rest r (Spares-trans w.0 r.1.0 rest.1.0 first second) first

  bitstream_loop-Spares :
      (fuel : ℕ) (bytes : List ℕ) (w : List Request × W)
      → Spares w.0 (bitstream_loop (watched v) e fuel bytes w).1.0
  unfolding bitstream_loop
  bitstream_loop-Spares zero [] w = Spares-refl w.0
  bitstream_loop-Spares (suc fuel) [] w = Spares-refl w.0
  bitstream_loop-Spares zero (x ∷ xs) w = Spares-refl w.0
  bitstream_loop-Spares (suc fuel) (x ∷ xs) w =
      let chunk = chunk_of fw_chunk (x ∷ xs) in
      let last : ℕ = if ltb fw_chunk (length (x ∷ xs)) then 0 else 1 in
      let r = vendor_write (watched v) e req_fpga 1 last chunk w in
      let rest = bitstream_loop (watched v) e fuel (drop (length chunk) (x ∷ xs)) r.1 in
      let first = vendor_write-Spares req_fpga 1 last chunk w refl in
      let second = bitstream_loop-Spares fuel (drop (length chunk) (x ∷ xs)) r.1 in
      if-Spares w.0 (is_success r.0) rest r (Spares-trans w.0 r.1.0 rest.1.0 first second) first

  set_cpu_reset-Spares :
      (hold : Bool) (w : List Request × W) → Spares w.0 (set_cpu_reset (watched v) e hold w).1.0
  unfolding set_cpu_reset
  set_cpu_reset-Spares hold w =
      vendor_write-Spares req_ram cpucs_addr 0 ((if hold then 1 else 0) ∷ []) w refl

  loaded-Spares :
      (loaded : Code) (w : List Request × W)
      → Spares w.0
          ((if is_success loaded
              then set_cpu_reset (watched v) e false
              else (do done ← set_cpu_reset (watched v) e false; pure loaded))
            w).1.0
  loaded-Spares loaded w = elim (Bool-cases (is_success loaded)) [
    | inl ok ↦ rw ok (set_cpu_reset-Spares false w)
    | inr bad ↦ rw bad (set_cpu_reset-Spares false w)
  ]

  load_main-Spares :
      (main : List ℕ) (w : List Request × W) → Spares w.0 (load_main (watched v) e main w).1.0
  unfolding load_main download_chunked
  load_main-Spares main w =
      let held = set_cpu_reset (watched v) e true w in
      let loaded = chunked_loop (watched v) e (length main) req_ram 0 0 main held.1 in
      and_then-Spares w.0 held.0 _ held.1 (set_cpu_reset-Spares true w) (
        Spares-trans held.1.0 loaded.1.0 _
          (chunked_loop-Spares (length main) req_ram 0 0 main held.1 refl)
          (loaded-Spares loaded.0 loaded.1))

  download_bitstream-Spares :
      (bytes : List ℕ) (w : List Request × W)
      → Spares w.0 (download_bitstream (watched v) e bytes w).1.0
  unfolding download_bitstream
  download_bitstream-Spares bytes w =
      let begun = vendor_write (watched v) e req_fpga 0 0 [] w in
      and_then-Spares w.0 begun.0 _ begun.1 (vendor_write-Spares req_fpga 0 0 [] w refl)
        (bitstream_loop-Spares (length bytes) bytes begun.1)

  -- The three images, one after the other.
  abbrev stages : Images → List Request × W → Code × (List Request × W)
  stages images = do
    configured ← download_bitstream (watched v) e images.bitstream
    and_then configured (do
      filled ← download_chunked (watched v) e req_ext_ram 0x4000 images.ext_ram
      and_then filled (load_main (watched v) e images.main))

  stages-Spares : (images : Images) (w : List Request × W) → Spares w.0 (stages images w).1.0
  unfolding download_chunked
  stages-Spares images w =
      let configured = download_bitstream (watched v) e images.bitstream w in
      let filled =
        chunked_loop (watched v) e (length images.ext_ram) req_ext_ram 0x4000 0 images.ext_ram
          configured.1 in
      let second =
        chunked_loop-Spares (length images.ext_ram) req_ext_ram 0x4000 0 images.ext_ram configured.1
          refl in
      and_then-Spares w.0 configured.0 _ configured.1 (download_bitstream-Spares images.bitstream w)
        (and_then-Spares configured.1.0 filled.0 _ filled.1 second
          (load_main-Spares images.main filled.1))

  -- A call for a download, whatever it is given and however it goes, has added requests to what reached
  -- the device, and none of them is the EEPROM write.
  download_firmware-Spares :
      (images : Images) (bcd_device : ℕ) (w : List Request × W)
      → Spares w.0 (download_firmware (watched v) e images bcd_device w).1.0
  unfolding download_firmware
  download_firmware-Spares images bcd_device w = elim (Bool-cases images.available) [
    | inr nothing_there ↦ rw nothing_there (Spares-refl w.0)
    | inl there ↦ elim (Bool-cases (ltb bcd_device legacy_bcd_device)) [
      | inl legacy ↦ rw (there, legacy) (Spares-refl w.0)
      | inr recent ↦ rw (there, recent) (stages-Spares images w)
    ]
  ]
