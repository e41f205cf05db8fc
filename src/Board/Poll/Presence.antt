-- ===== src/Board/Poll/Presence.antt =====
-- `listenerPresent` of GPIBBoard.cpp: what it concludes from the bus lines, what it leaves behind.
use darwin_gpib.Prelude.{
  ℕ, ◌≡◌, ◌≢◌, ◌↔◌, ◌⊎◌, inl, inr, ap, ◌∙◌, arith, true, false, List, ◌∷◌, none, some, drop,
  bit_and,
}
use darwin_gpib.Prelude.Int.{ℤ}
use darwin_gpib.Gpib.Line
use darwin_gpib.Bus.{Bus, bus_run}
use darwin_gpib.Bus.Laws.{run_nil, run_unl, run_unt}
use darwin_gpib.Board.Address.Laws.{IsAddress, run-listener}
use darwin_gpib.Transport.{Transport, Required, Answer, with_defaults}
use darwin_gpib.Board.Monad.{State}
use darwin_gpib.Board.Platform.{Platform}
use darwin_gpib.Board.Poll.{listener_present, lines_verdict, probe_addressing, teardown}
use darwin_gpib.Board.Poll.Laws.{bus_run-teardown}
use darwin_gpib.Board.Trace.{Event, traced, sent, read_lines, released_atn, bus_of}

-- The bus lines say that a listener is there exactly when they were read, some line is asserted, and
-- NDAC is valid and asserted; they decide nothing exactly when they could not be read or none of the
-- eight lines is asserted.
lines_verdict_lem :
    (a : Answer)
    → ((lines_verdict a ≡ some true) ↔ (
        (a.rc ≡ 0)
        × (bit_and a.value 0xff00 ≢ 0)
        × (bit_and a.value Line.valid_ndac ≢ 0)
        × (bit_and a.value Line.bus_ndac ≢ 0)))
      × ((lines_verdict a ≡ none) ↔ ((a.rc ≢ 0) ⊎ (bit_and a.value 0xff00 ≡ 0)))
unfolding lines_verdict
lines_verdict_lem a =
    ((λ e. ground arith, λ e. ground arith), (λ e. ground arith, λ e. ground arith))

-- On an adapter that overrides none of the optional calls `listenerPresent` never finds a device.
listener_present-with_defaults :
    {W : Type 0} (q : Required W) (p : Platform W) (pad : ℕ) (sad : ℤ) (s : State W)
    → (listener_present (with_defaults q) p pad sad s).0.present ≡ false
unfolding listener_present with_defaults
listener_present-with_defaults q p pad sad s = ground arith

bus_run-probe_addressing :
    (u : Bus) (pad : ℕ) (sad : ℤ)
    → IsAddress pad sad
    → (bus_run u (probe_addressing pad sad)).polling ≡ u.polling
unfolding probe_addressing
bus_run-probe_addressing u pad sad v =
    ap (λ b. b.polling) (run_unl u _ ∙ run_unt _ _ ∙ run-listener _ pad sad _ v ∙ run_nil _)

-- The platform has no part in what the board sends.
abbrev pub beside : {W : Type 0} → Platform W → Platform (W × List Event)
beside p = record {
  uptime_ns = λ s. p.uptime_ns s.0;
  sleep_ms = λ n s. let (a, w) = p.sleep_ms n s.0 in (a, (w, s.1));
}

-- The calls of `listenerPresent`, newest first: the last thing sent is the candidate's address, or a
-- probe follows, which ends with the teardown.
listener_present_log :
    {W : Type 0} (t : Transport W) (p : Platform W) (pad : ℕ) (sad : ℤ) (s : State (W × List Event))
    → s.board.has_transport ≡ true
    → let r = listener_present (traced t) (beside p) pad sad s in
      let asked = sent (probe_addressing pad sad) ∷ s.world.1 in
      ((r.1.world.1 ≡ asked) × (r.0.present ≡ false))
      ⊎ (((r.1.world.1 ≡ released_atn ∷ asked) × (r.0.present ≡ false))
          ⊎ ((r.1.world.1 ≡ read_lines ∷ released_atn ∷ asked)
              ⊎ (r.1.world.1 ≡ sent teardown ∷ drop 1 r.1.world.1)))
unfolding listener_present
listener_present_log t p pad sad s here = ground arith

-- On a board with a transport and for an address in 0..30: whatever the adapter answers, a presence
-- check that starts with no serial poll on ends with none on.
listener_present_polling :
    {W : Type 0} (t : Transport W) (p : Platform W) (pad : ℕ) (sad : ℤ) (s : State (W × List Event))
    (u : Bus)
    → s.board.has_transport ≡ true
    → IsAddress pad sad
    → (bus_of u s.world.1).polling ≡ false
    → (bus_of u (listener_present (traced t) (beside p) pad sad s).1.world.1).polling ≡ false
listener_present_polling t p pad sad s u here v off =
    let asked = bus_run-probe_addressing (bus_of u s.world.1) pad sad v ∙ off in
    elim (listener_present_log t p pad sad s here) [
      | inl (log, _) ↦ ap (λ l. (bus_of u l).polling) log ∙ asked
      | inr (inl (log, _)) ↦ ap (λ l. (bus_of u l).polling) log ∙ asked
      | inr (inr (inl log)) ↦ ap (λ l. (bus_of u l).polling) log ∙ asked
      | inr (inr (inr log)) ↦
          ap (λ l. (bus_of u l).polling) log
          ∙ (bus_run-teardown
              (bus_of u (drop 1 (listener_present (traced t) (beside p) pad sad s).1.world.1))).0
    ]
