-- ===== src/Tests/Broker.antt =====
-- A broker with one adapter: the second service of the registry is a KUSB-488B.
use darwin_gpib.Prelude.{
  ◌++◌, ℕ, ◌+◌, ◌^◌, ◌<◌, ◌≤◌, ◌≡◌, ◌≢◌, refl, arith, true, ◌&&◌, List, [], ◌∷◌, none, some, ◌==◌,
  leb, if◌then◌else◌, length, All, get_elem?, get_or, replicate,
}
use darwin_gpib.Prelude.Int.{pos}
use darwin_gpib.UserClient.{i32_of, int_word, word}
use darwin_gpib.Broker.Session.{same_int, session_add_desc, get_descs, add_to, put_descs}
use darwin_gpib.Broker.{
  Called, Desc, IoKit, Server, op_list_boards, err_bad_request, err_no_board, err_open_failed,
}
use darwin_gpib.Broker.Boards.{
  kusb_488b, connection_is_dead, enumerate_boards, copy_service_for_board, board_list, session_reap,
  connection_for_board, cached, open_board, open_found, nth_service, our_class, same_text,
  keep_conn, drop_board, put_conn,
}
use darwin_gpib.Broker.Requests.{
  Request, board_of, handle_request, list_boards, on_board, output_buffer, exchange, reply_of,
  retry_stale, ask_driver, ask_again, drop_if_dead, track, track_close, track_open,
}
use darwin_gpib.Broker.Registry.{shown, enumerate_boards-copy_service_for_board}
use darwin_gpib.Broker.Replies.{Bounded}
use darwin_gpib.Broker.Told.{told, after_open, opened_by, is_ok}
use darwin_gpib.Broker.Account.{Told, handle_request-Told}
use darwin_gpib.Broker.Isolation.{Apart, handle_request-Apart}
use darwin_gpib.Broker.Recording.{Recorded, recording}
use darwin_gpib.Broker.Resends.{Sends, handle_request-Sends}
use darwin_gpib.Broker.Reaping.{Online, close_calls}
use darwin_gpib.Broker.Departure.{serve, told_all, session_reap-serve}
use darwin_gpib.Broker.Stale.{Codes, handle_request_clears}

-- An open answers with handle 3; any other call succeeds with nothing.
pub answer : ℕ → ℕ → Called
answer selector cap =
    if (selector == 1) && leb 16 cap
    then record { kr = 0; written = 3 ∷ replicate 15 0; size = 16 }
    else record { kr = 0; written = []; size = 0 }

-- `kIOReturnNoDevice`, `kIOReturnNotAttached`, `MACH_SEND_INVALID_DEST`, `MACH_SEND_INVALID_REPLY`.
abbrev pub kit : (ℕ → ℕ → Called) → IoKit ℕ
kit answers = record {
  matching_services = λ w. (
    some (
        record { port = 5; user_class = none }
        ∷ record { port = 6; user_class = some kusb_488b }
        ∷ []),
    w,
  );
  open_service = λ port w. (record { kr = 0; conn = port }, w);
  close_service = λ conn w. (tt, w);
  call_struct = λ conn selector input cap w. (answers selector cap, w + 1);
  allocate = λ n w. (true, w);
  no_device = 0xe00002c0;
  not_attached = 0xe00002d9;
  invalid_dest = 0x10000003;
  invalid_reply = 0x10000009;
}

abbrev pub idle : Server ℕ
idle = record { conns = replicate 16 0; descs = some []; world = 0 }

abbrev open_request : Request
open_request = record { op = 1; board = 0; cap = 16; input = some (replicate 32 0) }

answer_fits :
    (selector cap : ℕ)
    → (length (answer selector cap).written ≤ cap) × ((answer selector cap).size ≤ cap)
unfolding answer
answer_fits selector cap = ground arith

kit-Bounded : Bounded (kit answer)
kit-Bounded = record {
  written_fits = λ conn selector cap input w. (answer_fits selector cap).0;
  size_fits = λ conn selector cap input w. (answer_fits selector cap).1;
}

enumerate_boards-copy_service_for_board_example :
    get_elem? (enumerate_boards (kit answer) idle).0 0
    ≡ shown 0 (copy_service_for_board (kit answer) 0 idle).0
enumerate_boards-copy_service_for_board_example =
    enumerate_boards-copy_service_for_board (kit answer) idle 0 (omega arith)

handle_request-Told_example :
    (after : List Desc) × ((handle_request (kit answer) open_request idle).1.descs ≡ some after)
    × Told open_request (handle_request (kit answer) open_request idle).0 [] after
handle_request-Told_example =
    handle_request-Told (kit answer) open_request kit-Bounded (λ n w. refl) [] idle refl

handle_request-Apart_example :
    Apart
      (board_of open_request)
      (replicate 16 0)
      (handle_request (kit answer) open_request idle).1.conns
handle_request-Apart_example = handle_request-Apart (kit answer) open_request idle

abbrev list_request : Request
list_request = record { op = op_list_boards; board = 0; cap = 1092; input = none }

abbrev all_boards : List ℕ
all_boards = board_list (enumerate_boards (kit answer) idle).0

listed_boards : (handle_request (kit answer) list_request idle).0.output ≡ some all_boards
unfolding handle_request list_boards
listed_boards = refl

abbrev recorded : Server (Recorded ℕ)
recorded = record {
  conns = 6 ∷ replicate 15 0;
  descs =
      some
        (record { board = pos 0; handle = pos 4 } ∷ record { board = pos 0; handle = pos 3 } ∷ []);
  world = record { log = []; inner = 0 };
}

handle_request-Sends_example :
    Sends open_request 2 []
      (handle_request (recording (kit answer)) open_request recorded).1.world.log
handle_request-Sends_example = handle_request-Sends (kit answer) open_request recorded

recording-Bounded : Bounded (recording (kit answer))
recording-Bounded = record {
  written_fits = λ conn selector cap input w. (answer_fits selector cap).0;
  size_fits = λ conn selector cap input w. (answer_fits selector cap).1;
}

abbrev fresh : Server (Recorded ℕ)
fresh = record { conns = replicate 16 0; descs = some []; world = record { log = []; inner = 0 } }

abbrev history : List Request
history = open_request ∷ []

history-Online :
    All
      (λ d. Online (serve (recording (kit answer)) history fresh).1.conns d.board)
      (told_all history (serve (recording (kit answer)) history fresh).0 [])
unfolding serve told_all told after_open opened_by is_ok handle_request i32_of on_board
    connection_for_board board_of cached open_board open_found copy_service_for_board nth_service
    our_class same_text keep_conn output_buffer exchange reply_of retry_stale connection_is_dead
    ask_driver drop_board put_conn ask_again drop_if_dead track track_close track_open
    session_add_desc get_descs add_to put_descs answer int_word word same_int
history-Online = omega arith

session_reap-serve_example :
    (let (replies, t) = serve (recording (kit answer)) history fresh in
      let u = (session_reap (recording (kit answer)) t).1 in
      (u.world.log ≡ t.world.log ++ close_calls t.conns (told_all history replies []))
      × (u.conns ≡ t.conns)
      × (u.descs ≡ none))
session_reap-serve_example =
    session_reap-serve (kit answer) recording-Bounded (λ n w. refl) history fresh refl
      history-Online

-- An adapter that was unplugged: every call finds the port dead.
abbrev gone : ℕ → ℕ → Called
gone selector cap = record { kr = 0x10000003; written = []; size = 0 }

dead_codes :
    (e : ℕ)
    → connection_is_dead (kit gone) e ≡ true
    → (e < 2 ^ 32)
      × (i32_of e ≢ pos 0)
      × (i32_of e ≢ err_bad_request)
      × (i32_of e ≢ err_no_board)
      × (i32_of e ≢ err_open_failed)
unfolding connection_is_dead i32_of
dead_codes e dead = (
  ground arith,
  λ same. ground arith,
  λ same. ground arith,
  λ same. ground arith,
  λ same. ground arith,
)

gone-Codes : Codes (kit gone)
gone-Codes = record {
  words = λ conn selector cap input w. omega arith;
  dead_words = λ e dead. (dead_codes e dead).0;
  dead-ne-success = λ e dead. (dead_codes e dead).1;
  dead-ne-bad_request = λ e dead. (dead_codes e dead).2;
  dead-ne-no_board = λ e dead. (dead_codes e dead).3;
  dead-ne-open_failed = λ e dead. (dead_codes e dead).4;
}

-- The adapter answers nothing, on the second try either.
gone_reply : (handle_request (kit gone) open_request idle).0.code ≡ i32_of 0x10000003
unfolding handle_request i32_of on_board connection_for_board board_of cached open_board open_found
    copy_service_for_board nth_service our_class same_text keep_conn output_buffer exchange reply_of
    retry_stale connection_is_dead ask_driver drop_board put_conn ask_again drop_if_dead track
    track_close track_open
gone_reply = refl

board_zero : board_of open_request ≡ pos 0
unfolding board_of i32_of
board_zero = refl

gone_dead : connection_is_dead (kit gone) 0x10000003 ≡ true
unfolding connection_is_dead
gone_dead = refl

handle_request_clears_example : get_or (handle_request (kit gone) open_request idle).1.conns 0 0 ≡ 0
handle_request_clears_example =
    handle_request_clears (kit gone) open_request 0 board_zero (omega arith) gone-Codes 0x10000003
      idle gone_dead gone_reply

-- A client that opens a descriptor, and what the broker then knows of it.
opened : Server ℕ
opened = record {
  conns = 6 ∷ replicate 15 0;
  descs = some (record { board = pos 0; handle = pos 3 } ∷ []);
  world = 1;
}

open_request_run : (handle_request (kit answer) open_request idle).1 ≡ opened
unfolding handle_request i32_of on_board connection_for_board board_of cached open_board open_found
    copy_service_for_board nth_service our_class same_text keep_conn output_buffer exchange reply_of
    retry_stale connection_is_dead ask_driver drop_board put_conn ask_again drop_if_dead track
    track_close track_open session_add_desc get_descs add_to put_descs answer int_word word opened
open_request_run = refl

-- A close for which no output is asked succeeds, and the descriptor stays on the list.
close_request : Request
close_request = record { op = 2; board = 0; cap = 0; input = some (3 ∷ replicate 7 0) }

close_request_run : (handle_request (kit answer) close_request opened).1.descs ≡ opened.descs
unfolding handle_request i32_of on_board connection_for_board board_of cached open_board open_found
    copy_service_for_board nth_service our_class same_text keep_conn output_buffer exchange reply_of
    retry_stale connection_is_dead ask_driver drop_board put_conn ask_again drop_if_dead track
    track_close track_open answer opened close_request
close_request_run = refl
