-- ===== src/Tests/Library.antt =====
-- The C library on a broker that answers every message alike.
use darwin_gpib.Prelude.{
  ℕ, ◌≤◌, ◌≡◌, refl, arith, true, false, List, [], ◌∷◌, none, some, leb, if◌then◌else◌, All, get_or,
  replicate, take,
}
use darwin_gpib.Prelude.Int.{pos, negsuc, to_u32}
use darwin_gpib.Gpib.Sta
use darwin_gpib.Board.Transfer.{write, GotBytes}
use darwin_gpib.UserClient.{answered, word}
use darwin_gpib.UserClient.Handlers.{handle_write, read_out}
use darwin_gpib.Broker.{err_no_board, op_probe, Server}
use darwin_gpib.Broker.Session.{same_int}
use darwin_gpib.Broker.Boards.{connection_for_board}
use darwin_gpib.Library.{Lib, Agent, packed, is_board_ud, board_of}
use darwin_gpib.Library.Client.{
  Called, broker_call, outcome_of, is_gone, call_struct, conn_for_board, board_handle, handle_of,
}
use darwin_gpib.Library.Traditional.{driver_call, call_on}
use darwin_gpib.Library.Transfers.{write_in, read_bytes, ibwrt, ibrd, read_answer, max_inline}
use darwin_gpib.Library.Files.{ibwrtf}
use darwin_gpib.Library.Helpers.{listed, addr_valid, no_addr}
use darwin_gpib.Library.Writes.{handle_write-write_in, IsKnown, refused, ibwrtf-eq-ibwrt}
use darwin_gpib.Library.Reads.{out_bytes, read_bytes-read_out, ibrd_fits}
use darwin_gpib.Library.Handles.{call_struct_gone}
use darwin_gpib.Library.Brokered.{brokered, Settled, conn_for_board-brokered}
use darwin_gpib.Tests.Bench.{adapter, at_work}
use darwin_gpib.Tests.Broker.{kit, answer, idle}

-- CMPL, no error, a count of 2 and the bytes "AB".
abbrev two_bytes : List ℕ
two_bytes = 0 ∷ 1 ∷ 0 ∷ 0 ∷ 0 ∷ 0 ∷ 0 ∷ 0 ∷ 2 ∷ 0 ∷ 0 ∷ 0 ∷ 0 ∷ 0 ∷ 0 ∷ 0 ∷ b'A' ∷ b'B' ∷ []

abbrev friendly : Agent ℕ
friendly = record { send = λ r w. (some (record { code = pos 0; output = some two_bytes }), w) }

-- The adapter is gone.
abbrev deserted : Agent ℕ
deserted = record { send = λ r w. (some (record { code = err_no_board; output = none }), w) }

-- Board 0 is known to be there, and its descriptor has handle 3.
abbrev ready : Lib ℕ
ready = record {
  reachable = true ∷ replicate 15 false;
  handles = pos 3 ∷ replicate 15 (negsuc 0);
  status = record { sta = 0; iberr = 0; cnt = 0 };
  world = 0;
}

handle_write-write_in_example :
    handle_write adapter (some (write_in (b'A' ∷ []) (pos 1))) at_work ≡ (
      let (r, s') = write adapter (pos 1) (b'A' ∷ []) true at_work in
      (answered (r.reply.sta ∷ r.reply.iberr ∷ r.count ∷ 0 ∷ []), s'))
handle_write-write_in_example =
    handle_write-write_in adapter at_work (b'A' ∷ []) (pos 1) (omega arith) (omega arith)

abbrev got : GotBytes
got = record {
  reply = record { sta = 0x2100; iberr = 0 };
  bytes = b'A' ∷ b'B' ∷ [];
  count = 2;
  end_flag = 1;
}

read_bytes-read_out_example : read_bytes 10 (out_bytes (read_out 10 got)) ≡ b'A' ∷ b'B' ∷ []
read_bytes-read_out_example = read_bytes-read_out 10 got (omega arith) (omega arith) (omega arith)

zero_board : board_of (pos 0) ≡ pos 0
unfolding board_of is_board_ud
zero_board = refl

ready-IsKnown : IsKnown ready (pos 0)
ready-IsKnown = record { board = 0; at = zero_board; inside = omega arith; known = refl }

ibwrtf-eq-ibwrt_example : ibwrtf friendly (pos 0) (some (some (b'A' ∷ b'B' ∷ []))) ready ≡ (
    if leb 2 max_inline
    then ibwrt friendly (pos 0) (b'A' ∷ b'B' ∷ []) (pos 2) ready
    else (pos Sta.err, refused ready))
ibwrtf-eq-ibwrt_example = ibwrtf-eq-ibwrt friendly (pos 0) ready ready-IsKnown b'A' (b'B' ∷ [])

read_two : (ibrd friendly (pos 0) (pos 2) ready).0.value ≡ some (b'A' ∷ b'B' ∷ [])
unfolding ibrd driver_call call_on conn_for_board board_of is_board_ud handle_of board_handle
    call_struct broker_call outcome_of is_gone same_int read_answer read_bytes word packed
read_two = refl

ibrd_fits_example : (2 ≤ 2) × (2 ≤ max_inline)
ibrd_fits_example = ibrd_fits friendly (pos 0) 2 ready (b'A' ∷ b'B' ∷ []) read_two

board_gone : is_gone (broker_call deserted 0 6 (some []) 16 ready).0.kr ≡ true
unfolding broker_call outcome_of is_gone same_int
board_gone = refl

call_struct_gone_example :
    (let (r, t) = call_struct deserted 0 6 [] 16 ready in
      (r.ok ≡ false)
      × (get_or t.reachable 0 false ≡ false)
      × ((conn_for_board deserted (pos 0) t).0 ≡ (
          if same_int (broker_call deserted 0 op_probe none 0 t).0.kr (pos 0)
          then some 0
          else none))
      × (board_handle deserted (pos 0) t ≡ (pos 3, t)))
call_struct_gone_example = call_struct_gone deserted 0 6 16 3 [] ready (omega arith) refl board_gone

abbrev called : Called
called = record { ok = true; bytes = take 16 two_bytes }

clear_called :
    (driver_call friendly (pos 0) 6 (λ h. packed (to_u32 h ∷ 0 ∷ [])) 16 ready).0 ≡ some called
unfolding driver_call call_on conn_for_board board_of is_board_ud handle_of board_handle call_struct
    broker_call outcome_of is_gone same_int packed
clear_called = refl

only_small : All (λ a. a ≤ no_addr) (listed (1 ∷ 2 ∷ no_addr ∷ []))
unfolding listed addr_valid
only_small = omega arith

abbrev unprobed : Lib (Server ℕ)
unprobed = record {
  reachable = replicate 16 false;
  handles = replicate 16 (negsuc 0);
  status = record { sta = 0; iberr = 0; cnt = 0 };
  world = idle;
}

conn_for_board-brokered_example :
    Settled 0 unprobed
      (connection_for_board (kit answer) (pos 0) idle).0
      (conn_for_board (brokered (kit answer)) (pos 0) unprobed)
conn_for_board-brokered_example = conn_for_board-brokered (kit answer) 0 unprobed (omega arith) refl
