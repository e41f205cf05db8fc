-- ===== src/Tests/Firmware.antt =====
-- A small download of firmware.
use darwin_gpib.Prelude.{ℕ, ◌≤◌, ◌≡◌, refl, true, List, [], ◌∷◌}
use darwin_gpib.Kusb.Firmware.{chunk_of}
use darwin_gpib.Loader.{
  Ends, Images, is_success, download_firmware, download_bitstream, download_chunked, load_main,
  chunked_loop, bitstream_loop, set_cpu_reset, vendor_write,
}
use darwin_gpib.Loader.Log.{Request, watched}
use darwin_gpib.Loader.Download.{Downloaded, download_firmware-Downloaded}
use darwin_gpib.Tests.Wired.{device}

abbrev images : Images
images = record {
  available = true;
  bitstream = 1 ∷ 2 ∷ [];
  ext_ram = 3 ∷ [];
  main = 4 ∷ 5 ∷ 6 ∷ [];
}

abbrev ends : Ends
ends = record { device_ready = true; buffer_ready = true }

abbrev at_start : List Request × ℕ
at_start = ([], 0)

downloaded_well : is_success (download_firmware (watched device) ends images 4 at_start).0 ≡ true
unfolding download_firmware download_bitstream vendor_write watched bitstream_loop chunk_of
    download_chunked chunked_loop load_main set_cpu_reset
downloaded_well = refl

download_firmware-Downloaded_example :
    Downloaded images [] (download_firmware (watched device) ends images 4 at_start).1.0
    × (true ≡ true)
    × (4 ≤ 4)
download_firmware-Downloaded_example =
    download_firmware-Downloaded device ends images 4 at_start downloaded_well
