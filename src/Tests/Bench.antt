-- ===== src/Tests/Bench.antt =====
-- The bench that the examples run on: an adapter that takes every call, a clock that only sleeping
-- moves, a bus at rest, and a board with one device, handle 1 at address 5.
use darwin_gpib.Prelude.{
  ℕ, ◌+◌, ◌*◌, ◌<◌, ◌≡◌, refl, inl, arith, true, false, List, [], ◌∷◌, none, some, length,
}
use darwin_gpib.Prelude.Int.{pos, negsuc}
use darwin_gpib.Transport.{Transport, Required}
use darwin_gpib.Usb.{Kern, Pipes}
use darwin_gpib.NiUsb.Exchange.{Ends}
use darwin_gpib.Bus.{Bus, neither}
use darwin_gpib.Board.{Board, Descriptor, init}
use darwin_gpib.Board.Monad.{State}
use darwin_gpib.Board.Platform.{Platform}
use darwin_gpib.Board.Table.{descriptor_for, open_descriptor, free_slot, allocate_handle}
use darwin_gpib.Board.Table.Laws.{IsValid}
use darwin_gpib.Board.Table.Calls.{opens, table_run, table_step, table_run-init-IsValid}
use darwin_gpib.Board.Address.Laws.{IsAddress}
use darwin_gpib.Board.Trace.{Event}

-- The world is the time in nanoseconds.
abbrev pub required : Required ℕ
required = record {
  pulse_interface_clear = λ w. (0, w);
  set_remote_enable = λ on w. (0, w);
  send_command_bytes = λ cmds w. (0, w);
  write_data = λ buf eoi us w. (record { rc = 0; count = length buf }, w);
  read_data = λ n c f us w. (record { rc = 0; bytes = 65 ∷ []; count = 1; end_flag = 1 }, w);
}

abbrev pub adapter : Transport ℕ
adapter = record {
  pulse_interface_clear = λ w. (0, w);
  set_remote_enable = λ on w. (0, w);
  send_command_bytes = λ cmds w. (0, w);
  write_data = λ buf eoi us w. (record { rc = 0; count = length buf }, w);
  read_data = λ n c f us w. (record { rc = 0; bytes = 65 ∷ []; count = 1; end_flag = 1 }, w);
  read_bus_lines = λ w. (record { rc = 0; value = 0 }, w);
  take_control = λ synchronous w. (0, w);
  release_atn = λ w. (0, w);
  read_raw_register = λ reg w. (record { rc = 0; value = 0 }, w);
  soft_reset = λ w. (0, w);
  reset_device = λ w. (0, w);
  set_max_data_chunk = λ bytes w. (0, w);
  write_raw_register = λ reg value w. (0, w);
}

abbrev pub clock : Platform ℕ
clock = record { uptime_ns = λ w. w; sleep_ms = λ ms w. (tt, w + ms * 1000000) }

-- Pipes that take every packet and bring back an empty response.
abbrev pub pipes : Pipes ℕ
pipes = record {
  map_out = λ w. (Kern.success, w);
  map_in = λ w. (Kern.success, w);
  io_out = λ bytes ms w. (Kern.success, w);
  io_in = λ capacity ms w. (record { code = Kern.success; bytes = [] }, w);
  sleep_ms = λ ms w. (tt, w);
}

abbrev pub ends : Ends
ends = record { out_ready = true; in_ready = true }

abbrev pub quiet_bus : Bus
quiet_bus = record {
  talker = none;
  listeners = [];
  polling = false;
  orders = [];
  pending = neither;
}

-- The device that the bench opens.
abbrev pub meter : Descriptor
meter = record {
  handle = pos 1;
  is_board = 0;
  pad = 5;
  sad = negsuc 0;
  eot = 1;
  eos_char = 10;
  eos_flags = 0;
  timeout_us = 1000000;
}

abbrev pub bench : Board
bench = table_run init (opens 5 (negsuc 0) false 1000000 10 0 true ∷ [])

pub bench-IsValid : IsValid bench
bench-IsValid = table_run-init-IsValid (opens 5 (negsuc 0) false 1000000 10 0 true ∷ [])

pub bench_found : descriptor_for bench (pos 1) ≡ some meter
unfolding descriptor_for table_run table_step open_descriptor free_slot allocate_handle init
bench_found = refl

pub bench_pad : bench.board_pad < 31
unfolding table_run table_step open_descriptor free_slot allocate_handle init
bench_pad = omega arith

pub bench_ready : bench.has_transport ≡ true
unfolding table_run table_step open_descriptor free_slot allocate_handle init
bench_ready = refl

pub meter-IsAddress : IsAddress 5 (negsuc 0)
meter-IsAddress = record { primary_range = omega arith; secondary_range = inl refl }

-- The bench at one second of uptime, and the same with a log.
abbrev pub at_work : State ℕ
at_work = record { board = bench; world = 1000000000 }

abbrev pub logged : State (ℕ × List Event)
logged = record { board = bench; world = (1000000000, []) }
