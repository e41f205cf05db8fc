-- ===== src/Loader/Download.antt =====
-- The whole download against the log of the device.
use darwin_gpib.Prelude.{ℕ, ◌≤◌, ◌≡◌, ◌∙◌, subst, arith, true, List, [], ◌∷◌, ◌++◌, length}
use darwin_gpib.Usb.{Device}
use darwin_gpib.Loader.{
  is_success, Ends, Images, req_ram, req_ext_ram, req_fpga, cpucs_addr, vendor_write, set_cpu_reset,
  chunked_loop, download_chunked, bitstream_loop, download_bitstream, load_main, download_firmware,
  legacy_bcd_device,
}
use darwin_gpib.Loader.Log.{Request, req, watched}
use darwin_gpib.Loader.Laws.{
  Placed, Streamed, vendor_write-log, chunked_loop-Placed, bitstream_loop-Streamed,
}

-- The log of a whole download: the bitstream after its opening request, the external RAM from 0x4000, and
-- between holding the processor and letting it go the main firmware from 0.
abbrev pub Downloaded : Images → List Request → List Request → Type 0
Downloaded images before after =
    (l1 l2 l3 : List Request) × Streamed images.bitstream (before ++ req req_fpga 0 0 [] ∷ []) l1
    × Placed req_ext_ram 0x4000 0 images.ext_ram l1 l2
    × Placed req_ram 0 0 images.main (l2 ++ req req_ram cpucs_addr 0 (1 ∷ []) ∷ []) l3
    × (after ≡ l3 ++ req req_ram cpucs_addr 0 (0 ∷ []) ∷ [])

module _ {W : Type 0} (v : Device W) (e : Ends) where
  load_main-steps :
      (main : List ℕ) (w : List Request × W)
      → let held = vendor_write (watched v) e req_ram cpucs_addr 0 (1 ∷ []) w in
        let loaded = chunked_loop (watched v) e (length main) req_ram 0 0 main held.1 in
        let released = vendor_write (watched v) e req_ram cpucs_addr 0 (0 ∷ []) loaded.1 in
        let whole = load_main (watched v) e main w in
        is_success whole.0 ≡ true
        → (is_success held.0 ≡ true)
          × (is_success loaded.0 ≡ true)
          × (is_success released.0 ≡ true)
          × (whole.1.0 ≡ released.1.0)
  unfolding load_main set_cpu_reset download_chunked
  load_main-steps main w ok = ground arith

  download_firmware-steps :
      (images : Images) (bcd_device : ℕ) (w : List Request × W)
      → let begun = vendor_write (watched v) e req_fpga 0 0 [] w in
        let configured =
          bitstream_loop (watched v) e (length images.bitstream) images.bitstream begun.1 in
        let filled =
          chunked_loop
            (watched v)
            e
            (length images.ext_ram)
            req_ext_ram
            0x4000
            0
            images.ext_ram
            configured.1 in
        let loaded = load_main (watched v) e images.main filled.1 in
        let whole = download_firmware (watched v) e images bcd_device w in
        is_success whole.0 ≡ true
        → (is_success begun.0 ≡ true)
          × (is_success configured.0 ≡ true)
          × (is_success filled.0 ≡ true)
          × (is_success loaded.0 ≡ true)
          × (whole.1.0 ≡ loaded.1.0)
          × (images.available ≡ true)
          × (legacy_bcd_device ≤ bcd_device)
  unfolding download_firmware download_bitstream download_chunked
  download_firmware-steps images bcd_device w ok = ground arith

  -- A download of the firmware that reports success was asked for a device that is not a legacy one, with
  -- images to load, and has made exactly the requests of a whole download, in their order: the bitstream,
  -- opened by an empty request and with the flag on its last chunk; the external RAM from 0x4000; and the
  -- main firmware from 0, between the request that holds the processor and the one that lets it go. Each
  -- image is there byte for byte, in chunks of 1 to 4096 bytes.
  pub download_firmware-Downloaded :
      (images : Images) (bcd_device : ℕ) (w : List Request × W)
      → is_success (download_firmware (watched v) e images bcd_device w).0 ≡ true
      → Downloaded images w.0 (download_firmware (watched v) e images bcd_device w).1.0
        × (images.available ≡ true)
        × (legacy_bcd_device ≤ bcd_device)
  download_firmware-Downloaded images bcd_device w ok =
      let begun = vendor_write (watched v) e req_fpga 0 0 [] w in
      let configured =
        bitstream_loop (watched v) e (length images.bitstream) images.bitstream begun.1 in
      let filled =
        chunked_loop (watched v) e (length images.ext_ram) req_ext_ram 0x4000 0 images.ext_ram
          configured.1 in
      let held = vendor_write (watched v) e req_ram cpucs_addr 0 (1 ∷ []) filled.1 in
      let loaded = chunked_loop (watched v) e (length images.main) req_ram 0 0 images.main held.1 in
      let (b, c, f, m, log, there, recent) = download_firmware-steps images bcd_device w ok in
      let (h, l, r, last) = load_main-steps images.main filled.1 m in
      (
        (
          configured.1.0,
          filled.1.0,
          loaded.1.0,
          subst (λ t. Streamed images.bitstream t configured.1.0)
              (vendor_write-log v e req_fpga 0 0 [] w b)
              (bitstream_loop-Streamed v e (length images.bitstream) images.bitstream begun.1 c),
          chunked_loop-Placed v e (length images.ext_ram) req_ext_ram 0x4000 0 images.ext_ram
              configured.1 f,
          subst (λ t. Placed req_ram 0 0 images.main t loaded.1.0)
              (vendor_write-log v e req_ram cpucs_addr 0 (1 ∷ []) filled.1 h)
              (chunked_loop-Placed v e (length images.main) req_ram 0 0 images.main held.1 l),
          log ∙ last ∙ vendor_write-log v e req_ram cpucs_addr 0 (0 ∷ []) loaded.1 r,
        ),
        there,
        recent,
      )
