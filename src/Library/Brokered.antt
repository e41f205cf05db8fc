-- ===== src/Library/Brokered.antt =====
-- The library over the broker: libgpib/src/client.c with gpibd/gpibd.c behind it.
use darwin_gpib.Prelude.{
  ℕ, ◌%◌, ◌^◌, ◌<◌, ◌≡◌, refl, sym, ap, ◌∙◌, arith, true, false, [], subst, Option, none, some,
  get_or, set,
}
use darwin_gpib.Prelude.Int.{ℤ, pos}
use darwin_gpib.Gpib.Sta
use darwin_gpib.Gpib.Iberr
use darwin_gpib.UserClient.{i32_of}
use darwin_gpib.Broker.{IoKit, Server, op_probe}
use darwin_gpib.Broker.Session.{same_int}
use darwin_gpib.Broker.Boards.{Resolved, connected, failed, connection_for_board}
use darwin_gpib.Broker.Replies.{Fails, connection_for_board-Fails}
use darwin_gpib.Broker.Requests.{Request, bare, board_of, on_board, handle_request}
use darwin_gpib.Library.{Lib, Agent, max_boards}
use darwin_gpib.Library.Handles.{not_beyond}
use darwin_gpib.Library.Client.{broker_call, outcome_of, probed, conn_for_board}

-- The broker as the library's agent; the world is the broker's state.
abbrev pub brokered : {W : Type 0} → IoKit W → Agent (Server W)
brokered k = record { send = λ r s. let (reply, s') = handle_request k r s in (some reply, s') }

-- The message of a probe.
abbrev probe : ℕ → Request
probe b = record { op = op_probe; board = b; cap = 0; input = none }

small_board : (b : ℕ) → b < max_boards → i32_of (b % 2 ^ 32) ≡ pos b
unfolding i32_of
small_board b inside = ground arith

-- The code of a probe's reply.
abbrev probe_code : Resolved → ℤ
probe_code (connected conn) = pos 0
probe_code (failed code) = code

-- What the library makes of the broker's resolution of a board.
abbrev pub Settled :
    {W : Type 0} → ℕ → Lib (Server W) → Resolved → Option ℕ × Lib (Server W) → Type 0
Settled b s (connected conn) (c, t) =
    (c ≡ some b) × (t.reachable ≡ set s.reachable b true) × (t.status ≡ s.status)
Settled b s (failed code) (c, t) =
    (c ≡ none)
    × (t.reachable ≡ s.reachable)
    × (t.status ≡ record { sta = Sta.err; iberr = Iberr.eneb; cnt = 0 })

module _ {W : Type 0} (k : IoKit W) where
  on_board-probe :
      (b : ℕ) (c : Resolved) (s : Server W) → on_board k (probe b) c s ≡ (bare (probe_code c), s)
  unfolding on_board
  on_board-probe b (connected conn) s = refl
  on_board-probe b (failed code) s = refl

  handle_request-probe :
      (b : ℕ) (s : Server W)
      → b < max_boards
      → handle_request k (probe b) s
        ≡ (let (c, t) = connection_for_board k (pos b) s in (bare (probe_code c), t))
  unfolding handle_request board_of
  handle_request-probe b s inside =
      let (c, t) = connection_for_board k (pos b) s in
      rw (small_board b inside) (on_board-probe b c t)

  unknown_board :
      (b : ℕ) (s : Lib (Server W))
      → b < max_boards
      → get_or s.reachable b false ≡ false
      → conn_for_board (brokered k) (pos b) s
        ≡ (let (r, t) = broker_call (brokered k) b op_probe none 0 s in probed (brokered k) b r t)
  unfolding conn_for_board
  unknown_board b s inside unknown = rw (not_beyond b inside, unknown) refl

  probed_settles :
      (b : ℕ) (s : Lib (Server W)) (c : Resolved) (w : Server W)
      → Fails (λ code. same_int code (pos 0) ≡ false) c
      → Settled b s c (
          probed (brokered k) b (record { kr = probe_code c; bytes = [] }) (record s { world = w }))
  unfolding probed Fails same_int
  probed_settles b s (connected conn) w fails = (refl, refl, refl)
  probed_settles b s (failed code) w fails = rw fails (refl, refl, refl)

  broker_call_probe :
      (b : ℕ) (s : Lib (Server W))
      → b < max_boards
      → broker_call (brokered k) b op_probe none 0 s ≡ (
          let (c, t) = connection_for_board k (pos b) s.world in
          (record { kr = probe_code c; bytes = [] }, record s { world = t }))
  unfolding broker_call outcome_of
  broker_call_probe b s inside =
      ap (λ p. (outcome_of 0 (some p.0), record s { world = p.1 }))
        (handle_request-probe b s.world inside)

  -- With the broker behind the library, for a board from 0 to 15 that is not yet taken for reachable:
  -- where the broker gets a connection to it, the board is found and remembered and the status stays;
  -- where it does not, nothing is found or remembered, and the status is ERR with ENEB.
  pub conn_for_board-brokered :
      (b : ℕ) (s : Lib (Server W))
      → b < max_boards
      → get_or s.reachable b false ≡ false
      → Settled b s
          (connection_for_board k (pos b) s.world).0
          (conn_for_board (brokered k) (pos b) s)
  unfolding conn_for_board same_int
  conn_for_board-brokered b s inside unknown =
      let (c, t) = connection_for_board k (pos b) s.world in
      subst (λ p. Settled b s c p)
        (sym (
          unknown_board b s inside unknown
          ∙ ap (λ p. probed (brokered k) b p.0 p.1) (broker_call_probe b s inside)))
        (probed_settles b s c t (connection_for_board-Fails k _ refl refl refl (pos b) s.world))
