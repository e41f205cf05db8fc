-- ===== src/Tests/Agilent.antt =====
-- The Agilent transport: its packets, and a read that the adapter does not answer.
use darwin_gpib.Prelude.{ℕ, ◌+◌, ◌*◌, ◌≡◌, refl, arith, true, [], ◌∷◌, length}
use darwin_gpib.Transport.Rc
use darwin_gpib.Usb.{Kern, Device, map_io_return}
use darwin_gpib.Agilent.Wire.{read_packet}
use darwin_gpib.Agilent.Exchange.{Ends, bulk_out, bulk_in}
use darwin_gpib.Agilent.Operations.{read_data}
use darwin_gpib.Agilent.Laws.{read_data_timeout}

-- A device that takes every packet and answers none in time.
abbrev late : Device ℕ
late = record {
  map_buffer = λ w. (Kern.success, w);
  create_buffer = λ n w. (Kern.success, w);
  io_out = λ pipe bytes ms w. (record { code = Kern.success; count = length bytes }, w);
  io_in = λ pipe capacity ms w. (record { code = Kern.timeout; bytes = [] }, w + ms * 1000000);
  request_out =
      λ request value index payload w. (record { code = Kern.success; count = length payload }, w);
  request_in =
      λ request value index size w. (record { code = Kern.success; bytes = 0x5f ∷ 0 ∷ [] }, w);
  clear_stall = λ pipe w. (tt, w);
  reset = λ w. (Kern.success, w);
  uptime_ns = λ w. w;
  sleep_ms = λ ms w. (tt, w + ms * 1000000);
}

abbrev ready : Ends
ready = record { out_ready = true; in_ready = true; device_ready = true }

went_out : (bulk_out late ready (read_packet 64 10) 3000000 0).0 ≡ Rc.success
unfolding bulk_out read_packet
went_out = refl

came_late :
    (bulk_in late ready 65 3000000 (bulk_out late ready (read_packet 64 10) 3000000 0).1).0.rc
    ≡ Rc.err_timeout
unfolding bulk_in bulk_out map_io_return
came_late = refl

read_data_timeout_example : (read_data late ready 64 10 0 3000000 0).0.rc ≡ Rc.success
read_data_timeout_example =
    read_data_timeout late ready 64 10 0 3000000 0 (omega arith) went_out came_late
