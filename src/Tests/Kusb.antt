-- ===== src/Tests/Kusb.antt =====
-- The theorems of the KUSB-488B transport at work.
use darwin_gpib.Prelude.{◌≡◌, ◌≢◌, refl, arith, true, [], none}
use darwin_gpib.Prelude.Int.{pos}
use darwin_gpib.Board.Address.{write_addressing}
use darwin_gpib.Board.Transfer.{write}
use darwin_gpib.Kusb.Control.{data_out_pipe, cmd_out_pipe}
use darwin_gpib.Kusb.Reading.{read_loop}
use darwin_gpib.Kusb.Operations.{send_command_bytes, write_data, read_data, kusb_transport}
use darwin_gpib.Kusb.Operations.Recording.{Carried, eoi_if, recorded}
use darwin_gpib.Kusb.Wire.{kusb_lines, req_begin_cmd, req_begin_write}
use darwin_gpib.Agilent.Wire.{bsr_lines}
use darwin_gpib.Kusb.Operations.Reads.{read_data_ends}
use darwin_gpib.Kusb.Operations.Lines.{bsr_lines-kusb_lines}
use darwin_gpib.Kusb.Operations.Writes.{write_data-Carried}
use darwin_gpib.Kusb.Operations.Chunks.{log_of}
use darwin_gpib.Kusb.Delivery.{write_reaches_pipes}
use darwin_gpib.Kusb.Operations.Stuck.{waiting, read_loop_forever}
use darwin_gpib.Tests.Bench.{meter}
use darwin_gpib.Tests.Wired.{
  busy_block, device, busy_device, all_ready, fresh_session, device-Honest, device-FitsBuffer,
  device-Bringing, unlogged, eight, written_well, wired, wired_found, wired_ready, nothing_came,
  addressed_well, delivered_well,
}

read_loop_forever_example :
    (read_loop busy_device all_ready 8 3000000 1000 waiting (fresh_session 0)).0 ≡ none
read_loop_forever_example =
    read_loop_forever busy_device all_ready 8 3000000 busy_block 1000 (fresh_session 0)
      (λ w. refl, λ pipe capacity ms w. refl, λ w. refl) (refl, refl) refl refl (omega arith)

read_data_ends_example : (read_data device all_ready 29 4 10 0 3000000 (fresh_session 0)).0 ≢ none
read_data_ends_example =
    read_data_ends device all_ready 29 4 10 0 3000000 (fresh_session 0) device-FitsBuffer
      device-Bringing (omega arith)

bsr_lines-kusb_lines_example : bsr_lines 0x84 ≡ kusb_lines 0x7b
bsr_lines-kusb_lines_example = bsr_lines-kusb_lines 0x84 (omega arith)

write_data-Carried_example :
    let r =
      write_data (recorded device) all_ready eight true 3000000 (fresh_session (unlogged 0)) in
    (r.0.count ≡ 8) × Carried req_begin_write (eoi_if true) data_out_pipe 4 eight [] (log_of r.1)
write_data-Carried_example =
    write_data-Carried device device-Honest all_ready eight true 3000000
      (fresh_session (unlogged 0)) (omega arith) written_well

write_reaches_pipes_example :
    let t = kusb_transport (recorded device) all_ready 0 nothing_came in
    let mid =
      (send_command_bytes
        (recorded device)
        all_ready
        (write_addressing wired.board meter)
        wired.world).1 in
    let r = write t (pos 1) eight true wired in
    (r.0.count ≡ 8)
    × Carried req_begin_cmd
        (λ last. 1)
        cmd_out_pipe
        512
        (write_addressing wired.board meter)
        []
        (log_of mid)
    × Carried req_begin_write
        (eoi_if true)
        data_out_pipe
        mid.max_data_chunk
        eight
        (log_of mid)
        (log_of r.1.world)
write_reaches_pipes_example =
    write_reaches_pipes device device-Honest all_ready 0 nothing_came (pos 1) wired meter
      wired_found wired_ready refl eight true (omega arith) addressed_well delivered_well
