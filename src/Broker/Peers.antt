-- ===== src/Broker/Peers.antt =====
-- gpibd.c: `handle_peer_event` and `queue_for_board`. What an event leads to is a job: a request runs
-- on the queue of its board, the reaping of a session on a queue of the system.
use darwin_gpib.Prelude.{ℕ, Bool, Option, none, some, leb, if◌then◌else◌}
use darwin_gpib.Prelude.Int.{ℤ, pos, negsuc}
use darwin_gpib.Broker.{IoKit, M, ◌>>=◌, ◌>>◌, pure, max_boards}
use darwin_gpib.Broker.Boards.{session_reap}
use darwin_gpib.Broker.Requests.{Request, Reply, board_of, handle_request}

-- `XPC_ERROR_CONNECTION_INVALID`, another error, a dictionary, and anything else.
pub data Event : Type 0 where
  invalid : Event
  other_error : Event
  message : Request → Event
  other : Event

pub data Job : Type 0 where
  serve : ℕ → Request → Job
  reap : Job

-- The number of the serial queue; a board out of range has that of board 0.
unfoldable pub queue_for_board : ℤ → ℕ
queue_for_board (negsuc n) = 0
queue_for_board (pos b) = if leb max_boards b then 0 else b

-- Whether the peer has a session decides about the reaping.
unfoldable pub handle_peer_event : Bool → Event → Option Job
handle_peer_event has_session invalid = if has_session then some reap else none
handle_peer_event has_session other_error = none
handle_peer_event has_session (message r) = some (serve (queue_for_board (board_of r)) r)
handle_peer_event has_session other = none

-- A job at work, with the reply of a request.
unfoldable pub run_job : {W : Type 0} → IoKit W → Job → M W (Option Reply)
run_job k (serve queue r) = do reply ← handle_request k r; pure (some reply)
run_job k reap = do session_reap k; pure none
