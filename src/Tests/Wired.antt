-- ===== src/Tests/Wired.antt =====
-- The devices that the examples of the KUSB-488B run on: one that takes everything, one that stays busy.
use darwin_gpib.Prelude.{
  ℕ, ◌+◌, ◌*◌, ◌≡◌, refl, arith, true, false, List, [], ◌∷◌, some, length, ◌==◌, if◌then◌else◌,
}
use darwin_gpib.Prelude.Int.{pos}
use darwin_gpib.Transport.{Received}
use darwin_gpib.Transport.Rc
use darwin_gpib.Board.{init}
use darwin_gpib.Board.Address.{
  write_addressing, mta_byte, mla_byte, then_secondary, address_for_write, addressed,
}
use darwin_gpib.Board.Transfer.{write, with_retry}
use darwin_gpib.Board.Recover.{recover_bus}
use darwin_gpib.Board.Table.{descriptor_for, open_descriptor, free_slot, allocate_handle}
use darwin_gpib.Board.Table.Calls.{table_run, table_step}
use darwin_gpib.Board.Monad.{State}
use darwin_gpib.Usb.{Kern, Device}
use darwin_gpib.Kusb.{Session, Ends}
use darwin_gpib.Kusb.Status.{poll_status, poll_round, poll_loop, poll_limit, poll_deadline}
use darwin_gpib.Kusb.Registers.{release_rfd_holdoff_if_pending}
use darwin_gpib.Kusb.Endpoints.{Endpoints, walk_descriptors, visit, resolve_endpoints}
use darwin_gpib.Kusb.Control.{
  bulk_loop, bulk_out, bulk_in, begin_transfer, control_out, control_in, send_part,
}
use darwin_gpib.Kusb.Firmware.{
  chunk_of, transfer_chunk, write_chunk, command_chunk, write_data_via_firmware,
  send_command_bytes_via_firmware, write_loop, command_loop,
}
use darwin_gpib.Kusb.Reading.{read_loop, read_round, asked, read_done, read_data_via_firmware}
use darwin_gpib.Kusb.Operations.{send_command_bytes, write_data, read_data, kusb_transport}
use darwin_gpib.Kusb.Operations.Recording.{Log, arming, going, recorded, Honest}
use darwin_gpib.Kusb.Operations.Rounds.{FitsBuffer, Bringing}
use darwin_gpib.Kusb.Wire.{transfer_header, status_count}
use darwin_gpib.Tests.Bench.{bench, meter}

abbrev pub done_with_four : List ℕ
done_with_four = 2 ∷ 0 ∷ 4 ∷ 0 ∷ 0 ∷ 0 ∷ 1 ∷ 0 ∷ 0 ∷ 0 ∷ 0 ∷ []

abbrev pub busy_block : List ℕ
busy_block = 1 ∷ 0 ∷ 0 ∷ 0 ∷ 0 ∷ 0 ∷ 0 ∷ 0 ∷ 0 ∷ 0 ∷ 0 ∷ []

-- A device that takes every byte; its status is DONE with a count of 4, and a read brings an `A` a time.
abbrev pub device : Device ℕ
device = record {
  map_buffer = λ w. (Kern.success, w);
  create_buffer = λ n w. (Kern.success, w);
  io_out = λ pipe bytes ms w. (record { code = Kern.success; count = length bytes }, w);
  io_in = λ pipe capacity ms w.
      (record { code = Kern.success; bytes = if capacity == 0 then [] else (65 ∷ []) }, w);
  request_out =
      λ request value index payload w. (record { code = Kern.success; count = length payload }, w);
  request_in =
      λ request value index size w. (record { code = Kern.success; bytes = done_with_four }, w);
  clear_stall = λ pipe w. (tt, w);
  reset = λ w. (Kern.success, w);
  uptime_ns = λ w. w;
  sleep_ms = λ ms w. (tt, w + ms * 1000000);
}

-- One that is always busy and brings nothing.
abbrev pub busy_device : Device ℕ
busy_device = record device {
  io_in = λ pipe capacity ms w. (record { code = Kern.success; bytes = [] }, w);
  request_in =
      λ request value index size w. (record { code = Kern.success; bytes = busy_block }, w);
}

abbrev pub all_ready : Ends
all_ready = record {
  device_ready = true;
  ctrl_ready = true;
  out_buffer = true;
  in_buffer = true;
  data_out_ready = true;
  cmd_out_ready = true;
  data_in_ready = true;
}

abbrev pub fresh_session : {W : Type 0} → W → Session W
fresh_session w = record {
  ren_asserted = false;
  rfd_holdoff_pending = false;
  max_data_chunk = 4;
  world = w;
}

pub device-Honest : Honest device
device-Honest pipe bytes ms w = omega arith

pub device-FitsBuffer : FitsBuffer device
device-FitsBuffer pipe capacity ms w = ground arith

pub device-Bringing : Bringing device
device-Bringing pipe capacity ms w room ok = ground arith

abbrev pub four : List ℕ
four = 42 ∷ 73 ∷ 68 ∷ 78 ∷ []

abbrev pub unlogged : ℕ → Log × ℕ
unlogged w = ([], w)

-- A read of four bytes from the device, as it comes back.
abbrev pub got_four : Received
got_four = record { rc = 0; bytes = 65 ∷ []; count = 1; end_flag = 1 }

pub four_come : (read_data device all_ready 100 4 10 0 3000000 (fresh_session 0)).0 ≡ some got_four
unfolding read_data read_data_via_firmware begin_transfer control_out transfer_header read_loop
    read_round bulk_in asked control_in read_done
four_come = refl

pub polled_well : (poll_status device all_ready 6 4 3000000 (fresh_session 0)).0.rc ≡ Rc.success
unfolding poll_status poll_loop poll_limit poll_round poll_deadline control_in
polled_well = refl

abbrev pub eight : List ℕ
eight = 42 ∷ 73 ∷ 68 ∷ 78 ∷ 63 ∷ 59 ∷ 42 ∷ 10 ∷ []

pub written_well :
    (write_data (recorded device) all_ready eight true 3000000 (fresh_session (unlogged 0))).0.rc
    ≡ Rc.success
unfolding write_data write_data_via_firmware write_loop write_chunk transfer_chunk begin_transfer
    control_out transfer_header recorded bulk_out bulk_loop chunk_of release_rfd_holdoff_if_pending
    send_part poll_status poll_loop poll_limit poll_round control_in poll_deadline arming going
    status_count
written_well = refl

-- A configuration descriptor with one interface of five endpoints.
abbrev pub configuration : List ℕ
configuration =
    9 ∷ 2 ∷ 53 ∷ 0 ∷ 1 ∷ 1 ∷ 0 ∷ 0x80 ∷ 50 ∷ 9 ∷ 4 ∷ 0 ∷ 0 ∷ 5 ∷ 255 ∷ 0 ∷ 0 ∷ 0 ∷ 7 ∷ 5 ∷ 0x81 ∷ 3
    ∷ 8 ∷ 0 ∷ 1 ∷ 7 ∷ 5 ∷ 0x82 ∷ 2 ∷ 64 ∷ 0 ∷ 0 ∷ 7 ∷ 5 ∷ 0x02 ∷ 2 ∷ 64 ∷ 0 ∷ 0 ∷ 7 ∷ 5 ∷ 0x04 ∷ 2
    ∷ 64 ∷ 0 ∷ 0 ∷ 7 ∷ 5 ∷ 0x88 ∷ 2 ∷ 64 ∷ 0 ∷ 0 ∷ []

abbrev pub interface : List ℕ
interface = 9 ∷ 4 ∷ 0 ∷ 0 ∷ 5 ∷ 255 ∷ 0 ∷ 0 ∷ 0 ∷ []

abbrev pub no_endpoints : Endpoints
no_endpoints = record { data_out = 0; cmd_out = 0; data_in = 0 }

pub endpoints_accepted : (resolve_endpoints configuration interface no_endpoints).0 ≡ Rc.success
unfolding resolve_endpoints walk_descriptors visit
endpoints_accepted = refl

-- The bench's board on this adapter.
abbrev pub wired : State (Session (Log × ℕ))
wired = record { board = record bench { online = true }; world = fresh_session (unlogged 0) }

pub wired_found : descriptor_for wired.board (pos 1) ≡ some meter
unfolding descriptor_for table_run table_step open_descriptor free_slot allocate_handle init
wired_found = refl

pub wired_ready : wired.board.has_transport ≡ true
unfolding table_run table_step open_descriptor free_slot allocate_handle init
wired_ready = refl

-- Where no read comes back, which a write never asks about.
abbrev pub nothing_came : Received
nothing_came = record { rc = 0; bytes = []; count = 0; end_flag = 0 }

pub addressed_well :
    (send_command_bytes
      (recorded device)
      all_ready
      (write_addressing wired.board meter)
      wired.world).0
    ≡ Rc.success
unfolding send_command_bytes send_command_bytes_via_firmware command_loop command_chunk write_data
    write_data_via_firmware write_loop write_chunk transfer_chunk begin_transfer control_out
    transfer_header recorded bulk_out bulk_loop chunk_of release_rfd_holdoff_if_pending send_part
    poll_status poll_loop poll_limit poll_round control_in poll_deadline arming going status_count
    table_run table_step open_descriptor free_slot allocate_handle init write_addressing mta_byte
    mla_byte then_secondary
addressed_well = refl

pub delivered_well :
    (write
      (kusb_transport (recorded device) all_ready 0 nothing_came)
      (pos 1)
      eight
      true
      wired).0.reply.iberr
    ≡ 0
unfolding send_command_bytes send_command_bytes_via_firmware command_loop command_chunk write_data
    write_data_via_firmware write_loop write_chunk transfer_chunk begin_transfer control_out
    transfer_header recorded bulk_out bulk_loop chunk_of release_rfd_holdoff_if_pending send_part
    poll_status poll_loop poll_limit poll_round control_in poll_deadline arming going status_count
    table_run table_step open_descriptor free_slot allocate_handle init write_addressing mta_byte
    mla_byte then_secondary write with_retry address_for_write addressed kusb_transport
    descriptor_for recover_bus
delivered_well = refl
