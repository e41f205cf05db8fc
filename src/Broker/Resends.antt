-- ===== src/Broker/Resends.antt =====
-- gpibd.c, `handle_request`: how often a request reaches the driver.
use darwin_gpib.Prelude.{
  ℕ, ◌+◌, ◌%◌, ◌^◌, ◌≤◌, ◌≡◌, refl, sym, ap, ◌∙◌, arith, Bool, true, false, List, [], ◌∷◌, ◌++◌,
  Option, if◌then◌else◌, length, length-append, append_assoc, append-nil, All, All-append,
}
use darwin_gpib.Prelude.Int.{pos}
use darwin_gpib.Broker.{IoKit, Server, Called, Desc, M, ◌>>=◌, pure, err_bad_request}
use darwin_gpib.Broker.Session.{put_descs}
use darwin_gpib.Broker.Boards.{
  Resolved, connected, failed, connection_for_board, drop_board, put_conn,
}
use darwin_gpib.Broker.Requests.{
  Request, bare, board_of, ask_driver, ask_again, retry_stale, track, exchange, reply_of,
  output_buffer, on_board, handle_request, list_boards,
}
use darwin_gpib.Broker.Effects.{
  Order, Moves, Calls, list_boards-Moves, connection_here, drop_here, drop_if_dead-Moves,
  output_buffer-Moves, track-Moves,
}
use darwin_gpib.Broker.Recording.{Sent, Recorded, recording}

-- The selector, the input and the room for the output are the request's.
abbrev pub Copy : Request → Sent → Type 0
Copy r c = (c.selector ≡ r.op % 2 ^ 32) × (c.input ≡ r.input) × (c.cap ≡ r.cap)

-- At most `n` calls were added, all of them copies of the request.
pub record Sends (r : Request) (n : ℕ) (before after : List Sent) : Type 0 where
  pub calls : List Sent
  pub added : after ≡ before ++ calls
  pub few : length calls ≤ n
  pub copies : All (Copy r) calls

nothing : (r : Request) (n : ℕ) (log : List Sent) → Sends r n log log
nothing r n log = record {
  calls = [];
  added = sym (append-nil log);
  few = omega arith;
  copies = tt;
}

joined :
    (r : Request) (m n : ℕ) (a b c : List Sent)
    → Sends r m a b
    → Sends r n b c
    → Sends r (m + n) a c
joined r m n a b c p q = record {
  calls = p.calls ++ q.calls;
  added = q.added ∙ ap (λ t. t ++ q.calls) p.added ∙ append_assoc a p.calls q.calls;
  few = omega (arith, p.few, q.few, length-append p.calls q.calls);
  copies = All-append (Copy r) p.calls q.calls p.copies q.copies;
}

widened : (r : Request) (m n : ℕ) (a b : List Sent) → m ≤ n → Sends r m a b → Sends r n a b
widened r m n a b h p = record {
  calls = p.calls;
  added = p.added;
  few = omega (arith, p.few);
  copies = p.copies;
}

abbrev SendsFew : {W : Type 0} → Request → ℕ → Server (Recorded W) → Server (Recorded W) → Type 0
SendsFew r n s t = Sends r n s.world.log t.world.log

quiet : {W : Type 0} (r : Request) → Order {W = Recorded W} (SendsFew r 0)
quiet r = record {
  still = λ s. nothing r 0 s.world.log;
  chain = λ s t u p q. joined r 0 0 s.world.log t.world.log u.world.log p q;
}

module _ {W : Type 0} (k : IoKit W) (r : Request) where
  silent-Calls : Calls (SendsFew r 0) (recording k)
  silent-Calls = record {
    services = record { run = λ s. nothing r 0 s.world.log };
    opens = λ port. record { run = λ s. nothing r 0 s.world.log };
    closes = λ conn. record { run = λ s. nothing r 0 s.world.log };
    allocates = λ n. record { run = λ s. nothing r 0 s.world.log };
  }

  conn_set :
      (b : ℕ) → board_of r ≡ pos b → (v : ℕ) → Moves {W = Recorded W} (SendsFew r 0) (put_conn b v)
  unfolding put_conn
  conn_set b at v = record { run = λ s. nothing r 0 s.world.log }

  descs_set : (ds : Option (List Desc)) → Moves {W = Recorded W} (SendsFew r 0) (put_descs ds)
  unfolding put_descs
  descs_set ds = record { run = λ s. nothing r 0 s.world.log }

  bind-Sends :
      {A B : Type 0} (m n : ℕ) (p : M (Recorded W) A) (f : A → M (Recorded W) B)
      → Moves (SendsFew r m) p
      → ((a : A) → Moves (SendsFew r n) (f a))
      → Moves (SendsFew r (m + n)) (p >>= f)
  bind-Sends m n p f first later = record {
    run = λ s. joined r m n _ _ _ (first.run s) ((later (p s).0).run (p s).1);
  }

  pure-Sends : {A : Type 0} (n : ℕ) (a : A) → Moves {W = Recorded W} (SendsFew r n) (pure a)
  pure-Sends n a = record { run = λ s. nothing r n s.world.log }

  if-Sends :
      {A : Type 0} (n : ℕ) (b : Bool) (p q : M (Recorded W) A)
      → Moves (SendsFew r n) p
      → Moves (SendsFew r n) q
      → Moves (SendsFew r n) (if b then p else q)
  if-Sends n true p q met missed = met
  if-Sends n false p q met missed = missed

  ask_driver-Sends : (conn : ℕ) → Moves (SendsFew r 1) (ask_driver (recording k) r conn)
  unfolding ask_driver
  ask_driver-Sends conn = record {
    run = λ s. record {
      calls = record { conn = conn; selector = r.op % 2 ^ 32; input = r.input; cap = r.cap } ∷ [];
      added = refl;
      few = omega arith;
      copies = ((refl, refl, refl), tt);
    };
  }

  ask_again-Sends :
      (first : Called) (c : Resolved) → Moves (SendsFew r 1) (ask_again (recording k) r first c)
  unfolding ask_again
  ask_again-Sends first (failed code) = pure-Sends 1 first
  ask_again-Sends first (connected conn) = ask_driver-Sends conn

  retry_stale-Sends : (first : Called) → Moves (SendsFew r 1) (retry_stale (recording k) r first)
  unfolding retry_stale
  retry_stale-Sends first =
      if-Sends 1 _ _ _
        (bind-Sends 0 1 (drop_board (recording k) (board_of r)) _
          (drop_here (quiet r) (recording k) silent-Calls r conn_set)
          (λ x.
            bind-Sends 0 1 (connection_for_board (recording k) (board_of r)) _
              (connection_here (quiet r) (recording k) silent-Calls r conn_set)
              (λ c.
                bind-Sends 1 0 (ask_again (recording k) r first c) _ (ask_again-Sends first c)
                  (λ last.
                    drop_if_dead-Moves (quiet r) (recording k) silent-Calls r conn_set last))))
        (pure-Sends 1 first)

  exchange-Sends : (conn : ℕ) → Moves (SendsFew r 2) (exchange (recording k) r conn)
  unfolding exchange
  exchange-Sends conn =
      bind-Sends 1 1 (ask_driver (recording k) r conn) _ (ask_driver-Sends conn) (λ first.
        bind-Sends 1 0 (retry_stale (recording k) r first) _ (retry_stale-Sends first) (λ last.
          bind-Sends 0 0 (track (recording k) r last) _
            (track-Moves (quiet r) (recording k) silent-Calls r descs_set last)
            (λ x. pure-Sends 0 (reply_of (recording k) r last))))

  on_board-Sends : (c : Resolved) → Moves (SendsFew r 2) (on_board (recording k) r c)
  unfolding on_board
  on_board-Sends (failed code) = pure-Sends 2 (bare code)
  on_board-Sends (connected conn) = if-Sends 2 _ _ _ (pure-Sends 2 (bare (pos 0))) (
      bind-Sends 0 2 (output_buffer (recording k) r) _
        (output_buffer-Moves (quiet r) (recording k) silent-Calls r conn_set)
        (λ had. if-Sends 2 had _ _ (exchange-Sends conn) (pure-Sends 2 (bare err_bad_request))))

  all_of_it : Moves (SendsFew r 2) (handle_request (recording k) r)
  unfolding handle_request
  all_of_it = if-Sends 2 _ _ _ (pure-Sends 2 (bare err_bad_request)) (
      if-Sends 2 _ _ _
        (bind-Sends 0 2 (list_boards (recording k) r) _
          (list_boards-Moves (quiet r) (recording k) silent-Calls r conn_set) (λ a. pure-Sends 2 a))
        (bind-Sends 0 2 (connection_for_board (recording k) (board_of r)) _
          (connection_here (quiet r) (recording k) silent-Calls r conn_set) on_board-Sends))

  -- Whatever the request and whatever IOKit answers: at most two calls reach the driver, and each of
  -- them carries the request's own selector (its low 32 bits), input and room for the output. The
  -- calls that were recorded before stand in front of them.
  pub handle_request-Sends :
      (s : Server (Recorded W))
      → Sends r 2 s.world.log (handle_request (recording k) r s).1.world.log
  handle_request-Sends s = all_of_it.run s
