-- ===== src/Broker/Reaping.antt =====
-- gpibd.c, `session_reap`: what the driver is told when a client is gone.
use darwin_gpib.Prelude.{
  ℕ, ◌≡◌, ◌≢◌, ◌<◌, refl, sym, ap, ◌∙◌, arith, subst, List, [], ◌∷◌, ◌++◌, none, some, append_assoc,
  append-nil, All, get_or,
}
use darwin_gpib.Prelude.Int.{ℤ, pos, negsuc}
use darwin_gpib.Broker.{IoKit, Server, Desc, max_boards, sel_close_descriptor}
use darwin_gpib.Broker.Boards.{
  connected, cached, connection_for_board, close_on, reap_one, reap_all, session_reap, handle_in,
}
use darwin_gpib.Broker.Recording.{Sent, Recorded, recording}

-- The connection that is cached for a board.
abbrev conn_of : List ℕ → ℤ → ℕ
conn_of conns (negsuc n) = 0
conn_of conns (pos b) = get_or conns b 0

-- The board has a number below 16 and a cached connection.
abbrev pub Online : List ℕ → ℤ → Type 0
Online conns (negsuc n) = ⊥
Online conns (pos b) = (b < max_boards) × (get_or conns b 0 ≢ 0)

-- The close of one descriptor.
abbrev pub close_call : List ℕ → Desc → Sent
close_call conns d = record {
  conn = conn_of conns d.board;
  selector = sel_close_descriptor;
  input = some (handle_in d.handle);
  cap = 0;
}

abbrev pub close_calls : List ℕ → List Desc → List Sent
close_calls conns [] = []
close_calls conns (d ∷ ds) = close_call conns d ∷ close_calls conns ds

module _ {W : Type 0} (k : IoKit W) where
  connection-Online :
      (z : ℤ) (s : Server W)
      → Online s.conns z
      → connection_for_board k z s ≡ (connected (conn_of s.conns z), s)
  unfolding connection_for_board cached
  connection-Online (negsuc n) s online = elim online [ ]
  connection-Online (pos b) s online = ground arith

  reap_one-Online :
      (d : Desc) (s : Server W)
      → Online s.conns d.board
      → reap_one k d s ≡ close_on k d.handle (connected (conn_of s.conns d.board)) s
  unfolding reap_one
  reap_one-Online d s online = rw (connection-Online d.board s online) refl

-- One close for each descriptor was recorded, and nothing else has changed.
abbrev Reaped : {W : Type 0} → Server (Recorded W) → List Desc → Server (Recorded W) → Type 0
Reaped s ds t =
    (t.world.log ≡ s.world.log ++ close_calls s.conns ds)
    × (t.conns ≡ s.conns)
    × (t.descs ≡ s.descs)

module _ {W : Type 0} (k : IoKit W) where
  reap_all_log :
      (ds : List Desc) (s : Server (Recorded W))
      → All (λ d. Online s.conns d.board) ds
      → Reaped s ds (reap_all (recording k) ds s).1
  unfolding reap_all close_on
  reap_all_log [] s online = (sym (append-nil s.world.log), refl, refl)
  reap_all_log (d ∷ ds) s online =
      let t = (close_on (recording k) d.handle (connected (conn_of s.conns d.board)) s).1 in
      let (later, conns_kept, descs_kept) = reap_all_log ds t online.1 in
      let e : (reap_one (recording k) d s).1 ≡ t =
        ap (λ p. p.1) (reap_one-Online (recording k) d s online.0) in
      subst (λ u. Reaped s (d ∷ ds) (reap_all (recording k) ds u).1) (sym e)
        (
          later ∙ append_assoc s.world.log (close_call s.conns d ∷ []) (close_calls s.conns ds),
          conns_kept,
          descs_kept,
        )

  -- A client whose boards are all reachable by a cached connection, each with a number below 16: when
  -- it is gone the driver gets one close for each descriptor of its session, the latest first, on the
  -- connection of that descriptor's board, and nothing else; the connections stay as they are, and
  -- the session is gone.
  pub session_reap_log :
      (ds : List Desc) (s : Server (Recorded W))
      → s.descs ≡ some ds
      → All (λ d. Online s.conns d.board) ds
      → ((session_reap (recording k) s).1.world.log ≡ s.world.log ++ close_calls s.conns ds)
        × ((session_reap (recording k) s).1.conns ≡ s.conns)
        × ((session_reap (recording k) s).1.descs ≡ none)
  unfolding session_reap
  session_reap_log ds s had online =
      rw (had, session_reap) (reap_all_log ds (record s { descs = none }) online)
