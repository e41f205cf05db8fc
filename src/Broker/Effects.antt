-- ===== src/Broker/Effects.antt =====
-- gpibd.c: what can be said of each function of the broker by looking at its writes alone, for a
-- relation between the state before and the state after.
use darwin_gpib.Prelude.{
  ℕ, ◌%◌, ◌^◌, ◌≡◌, refl, Bool, true, false, List, Option, none, some, if◌then◌else◌,
}
use darwin_gpib.Prelude.Int.{ℤ, pos, negsuc}
use darwin_gpib.Broker.{IoKit, Server, Called, OpenedService, Service, Desc, M, ◌>>=◌, pure, call}
use darwin_gpib.Broker.Session.{
  session_add_desc, session_forget_desc, put_descs, get_descs, add_to, forget_in, without,
}
use darwin_gpib.Broker.Boards.{
  Resolved, connected, failed, cached, put_conn, keep_conn, open_found, open_board,
  connection_for_board, copy_service_for_board, drop_board, enumerate_boards,
}
use darwin_gpib.Broker.Requests.{
  Request, board_of, ask_driver, ask_again, drop_if_dead, retry_stale, track_open, track_close,
  track, exchange, output_buffer, on_board, handle_request, list_boards,
}

-- A reflexive and transitive relation.
pub record Order {W : Type 0} (R : Server W → Server W → Type 0) : Type 0 where
  pub still : (s : Server W) → R s s
  pub chain : (s t u : Server W) → R s t → R t u → R s u

-- Each run of `m` is a step of `R`.
pub record Moves {W A : Type 0} (R : Server W → Server W → Type 0) (m : M W A) : Type 0 where
  pub run : (s : Server W) → R s (m s).1

-- The calls of IOKit and of the allocator, a call of the driver apart.
pub record Calls {W : Type 0} (R : Server W → Server W → Type 0) (k : IoKit W) : Type 0 where
  pub services : Moves R (call k.matching_services)
  pub opens : (port : ℕ) → Moves R (call (k.open_service port))
  pub closes : (conn : ℕ) → Moves R (call (k.close_service conn))
  pub allocates : (n : ℕ) → Moves R (call (k.allocate n))

-- A relation that does not look at the world.
pub worldly :
    {W : Type 0} {R : Server W → Server W → Type 0} (k : IoKit W)
    → ((s : Server W) (w : W) → R s (record s { world = w }))
    → Calls R k
worldly k keep = record {
  services = record { run = λ s. keep s (k.matching_services s.world).1 };
  opens = λ port. record { run = λ s. keep s (k.open_service port s.world).1 };
  closes = λ conn. record { run = λ s. keep s (k.close_service conn s.world).1 };
  allocates = λ n. record { run = λ s. keep s (k.allocate n s.world).1 };
}

pub worldly_ask :
    {W : Type 0} {R : Server W → Server W → Type 0} (k : IoKit W) (r : Request)
    → ((s : Server W) (w : W) → R s (record s { world = w }))
    → (conn : ℕ) → Moves R (ask_driver k r conn)
unfolding ask_driver
worldly_ask k r keep conn = record {
  run = λ s. keep s (k.call_struct conn (r.op % 2 ^ 32) r.input r.cap s.world).1;
}

module _ {W : Type 0} {R : Server W → Server W → Type 0} (o : Order R) where
  pure-Moves : {A : Type 0} (a : A) → Moves R (pure a)
  pure-Moves a = record { run = λ s. o.still s }

  bind-Moves :
      {A B : Type 0} (m : M W A) (f : A → M W B)
      → Moves R m
      → ((a : A) → Moves R (f a))
      → Moves R (m >>= f)
  bind-Moves m f first later = record {
    run = λ s. o.chain s (m s).1 _ (first.run s) ((later (m s).0).run (m s).1);
  }

  if-Moves :
      {A : Type 0} (b : Bool) (m n : M W A) → Moves R m → Moves R n → Moves R (if b then m else n)
  if-Moves true m n met missed = met
  if-Moves false m n met missed = missed

  cached-Moves : (b : ℕ) → Moves R (cached b)
  unfolding cached
  cached-Moves b = record { run = λ s. o.still s }

  get_descs-Moves : Moves R get_descs
  unfolding get_descs
  get_descs-Moves = record { run = λ s. o.still s }

  ruleset steps = (pure-Moves, bind-Moves, if-Moves, cached-Moves, get_descs-Moves)

  module _ (k : IoKit W) (calls : Calls R k) (r : Request)
      (descs_set : (ds : Option (List Desc)) → Moves R (put_descs ds)) where
    add_to-Moves : (board handle : ℤ) (ds : Option (List Desc)) → Moves R (add_to k board handle ds)
    unfolding add_to
    add_to-Moves board handle none = search steps
    add_to-Moves board handle (some ds) = search (steps, calls.allocates, descs_set)

    forget_in-Moves :
        (board handle : ℤ) (ds : Option (List Desc)) → Moves R (forget_in board handle ds)
    unfolding forget_in
    forget_in-Moves board handle none = search steps
    forget_in-Moves board handle (some ds) = descs_set (some (without board handle ds))

    track_open-Moves : (c : Called) → Moves R (track_open k r c)
    unfolding track_open session_add_desc
    track_open-Moves c = search (steps, add_to-Moves)

    track_close-Moves : (input : Option (List ℕ)) → Moves R (track_close k r input)
    unfolding track_close session_forget_desc
    track_close-Moves none = search steps
    track_close-Moves (some bytes) = search (steps, forget_in-Moves)

    pub track-Moves : (c : Called) → Moves R (track k r c)
    unfolding track
    track-Moves c = search (steps, track_open-Moves, track_close-Moves)

  module _ (k : IoKit W) (calls : Calls R k) (r : Request)
      (conn_set : (b : ℕ) → board_of r ≡ pos b → (v : ℕ) → Moves R (put_conn b v)) where
    keep_conn-Moves : (b : ℕ) (c : OpenedService) → board_of r ≡ pos b → Moves R (keep_conn k b c)
    unfolding keep_conn
    keep_conn-Moves b c at = search (steps, conn_set)

    open_found-Moves :
        (b : ℕ) (service : Option Service) → board_of r ≡ pos b → Moves R (open_found k b service)
    unfolding open_found
    open_found-Moves b none at = pure-Moves _
    open_found-Moves b (some s) at = search (steps, calls.opens, keep_conn-Moves)

    copy_service_for_board-Moves : (b : ℕ) → Moves R (copy_service_for_board k b)
    unfolding copy_service_for_board
    copy_service_for_board-Moves b = search (steps, calls.services)

    open_board-Moves : (b : ℕ) → board_of r ≡ pos b → Moves R (open_board k b)
    unfolding open_board
    open_board-Moves b at = search (steps, copy_service_for_board-Moves, open_found-Moves)

    connection-Moves : (z : ℤ) → board_of r ≡ z → Moves R (connection_for_board k z)
    unfolding connection_for_board
    connection-Moves (negsuc n) at = search steps
    connection-Moves (pos b) at = search (steps, open_board-Moves)

    drop-Moves : (z : ℤ) → board_of r ≡ z → Moves R (drop_board k z)
    unfolding drop_board
    drop-Moves (negsuc n) at = search steps
    drop-Moves (pos b) at = search (steps, calls.closes, conn_set)

    pub drop_here : Moves R (drop_board k (board_of r))
    drop_here = drop-Moves (board_of r) refl

    pub connection_here : Moves R (connection_for_board k (board_of r))
    connection_here = connection-Moves (board_of r) refl

    pub drop_if_dead-Moves : (last : Called) → Moves R (drop_if_dead k r last)
    unfolding drop_if_dead
    drop_if_dead-Moves last = search (steps, drop_here)

    pub output_buffer-Moves : Moves R (output_buffer k r)
    unfolding output_buffer
    output_buffer-Moves = search (steps, calls.allocates)

    pub list_boards-Moves : Moves R (list_boards k r)
    unfolding list_boards enumerate_boards
    list_boards-Moves = search (steps, calls.services)

    module _ (ask : (conn : ℕ) → Moves R (ask_driver k r conn)) where
      ask_again-Moves : (first : Called) (c : Resolved) → Moves R (ask_again k r first c)
      unfolding ask_again
      ask_again-Moves first (failed code) = search steps
      ask_again-Moves first (connected conn) = ask conn

      -- Everything of a call but the bookkeeping of the session.
      pub retry_stale-Moves : (first : Called) → Moves R (retry_stale k r first)
      unfolding retry_stale
      retry_stale-Moves first =
          search (steps, drop_here, connection_here, ask_again-Moves, drop_if_dead-Moves)

      module _ (descs_set : (ds : Option (List Desc)) → Moves R (put_descs ds)) where
        track_here : (c : Called) → Moves R (track k r c)
        track_here = track-Moves k calls r descs_set

        exchange-Moves : (conn : ℕ) → Moves R (exchange k r conn)
        unfolding exchange
        exchange-Moves conn = search (steps, ask, retry_stale-Moves, track_here)

        on_board-Moves : (c : Resolved) → Moves R (on_board k r c)
        unfolding on_board
        on_board-Moves (failed code) = search steps
        on_board-Moves (connected conn) = search (steps, output_buffer-Moves, exchange-Moves)

        pub handle_request-Moves : Moves R (handle_request k r)
        unfolding handle_request
        handle_request-Moves = search (steps, list_boards-Moves, connection_here, on_board-Moves)
