-- ===== src/Tests/Client.antt =====
-- Calls of a client, on the bench.
use darwin_gpib.Prelude.{ℕ, ◌≡◌, ◌≢◌, refl, true, List, [], ◌∷◌, some}
use darwin_gpib.Board.Table.Laws.{IsValid}
use darwin_gpib.UserClient.{Memory, Code, bare, with_input}
use darwin_gpib.UserClient.Handlers.{handle_write}
use darwin_gpib.UserClient.Dispatch.{dispatch, handle}
use darwin_gpib.UserClient.Laws.{dispatch-IsValid}
use darwin_gpib.UserClient.Refusals.{dispatch_refused}
use darwin_gpib.Tests.Bench.{adapter, clock, at_work, bench-IsValid}

abbrev plenty : Memory
plenty = record { has_capacity = λ n. true; has_scratch = λ n. true }

-- Closing handle 1, by its structure's bytes.
abbrev close_one : List ℕ
close_one = 1 ∷ 0 ∷ 0 ∷ 0 ∷ 0 ∷ 0 ∷ 0 ∷ 0 ∷ []

dispatch-IsValid_example :
    IsValid (dispatch adapter clock plenty 10 true 2 (some close_one) at_work).1.board
dispatch-IsValid_example =
    dispatch-IsValid adapter clock plenty 10 at_work bench-IsValid (some close_one) true 2

-- Four bytes are too few for a write.
too_short :
    (dispatch adapter clock plenty 10 true 4 (some (1 ∷ 0 ∷ 0 ∷ 0 ∷ [])) at_work).0
    ≡ some (bare Code.bad_argument)
unfolding dispatch handle handle_write with_input
too_short = refl

bad_argument-success : Code.bad_argument ≢ Code.success
bad_argument-success = λ same. cc

dispatch_refused_example :
    (dispatch adapter clock plenty 10 true 4 (some (1 ∷ 0 ∷ 0 ∷ 0 ∷ [])) at_work).1 ≡ at_work
dispatch_refused_example =
    dispatch_refused adapter clock plenty 10 at_work (some (1 ∷ 0 ∷ 0 ∷ 0 ∷ [])) true 4
      (bare Code.bad_argument) too_short bad_argument-success
