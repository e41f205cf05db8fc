-- ===== src/Board/Poll/Laws.antt =====
-- `serialPoll` and `serialPollProbe` of GPIBBoard.cpp on the bus of IEEE 488.1: every poll that starts
-- is ended again.
use darwin_gpib.Prelude.{
  ℕ, ◌<◌, ◌≡◌, ◌⊎◌, inl, inr, ap, ◌∙◌, arith, true, false, List, [], ◌∷◌, ◌++◌, ◌≢◌, none, some,
}
use darwin_gpib.Prelude.Int.{ℤ}
use darwin_gpib.Gpib.Iberr
use darwin_gpib.Gpib.Sta
use darwin_gpib.Bus.{Bus, plain, bus_run}
use darwin_gpib.Bus.Laws.{run_nil, run_unl, run_unt, run_spe, run_spd}
use darwin_gpib.Transport.{Transport}
use darwin_gpib.Board.{Board, Descriptor}
use darwin_gpib.Board.Table.{descriptor_for}
use darwin_gpib.Board.Monad.{State}
use darwin_gpib.Board.Address.Laws.{IsAddress, party, run-talker, run_board_listens}
use darwin_gpib.Board.Poll.{
  serial_poll, poll_addressing, teardown, serial_poll_probe, probe_timeout_us,
}
use darwin_gpib.Board.Trace.{Event, traced, sent, received, bus_of}

-- After the bytes that open a serial poll the device talks, the board listens, the poll is on.
bus_run-poll_addressing :
    (u : Bus) (b : Board) (pad : ℕ) (sad : ℤ)
    → IsAddress pad sad
    → b.board_pad < 31
    → let r = bus_run u (poll_addressing b pad sad) in
      (r.talker ≡ some (party pad sad))
      × (r.listeners ≡ plain b.board_pad ∷ [])
      × (r.polling ≡ true)
unfolding poll_addressing
bus_run-poll_addressing u b pad sad v h =
    let path =
      run_unl u _
      ∙ run-talker _ pad sad _ v
      ∙ run_board_listens _ b _ h
      ∙ run_spe _ _
      ∙ run_nil _ in
    (ap (λ b. b.talker) path, ap (λ b. b.listeners) path, ap (λ b. b.polling) path)

-- The teardown ends the poll and silences the talker.
pub bus_run-teardown :
    (u : Bus) → let r = bus_run u teardown in (r.polling ≡ false) × (r.talker ≡ none)
bus_run-teardown u =
    let path = run_spd u _ ∙ run_unt _ _ ∙ run_nil _ in
    (ap (λ b. b.polling) path, ap (λ b. b.talker) path)

-- The adapter's answers in a serial poll: to the addressing bytes, to the read behind them and to the
-- teardown behind that.
module _ {W : Type 0} (t : Transport W) (b : Board) (d : Descriptor) (w : W) where
  abbrev pub opening : ℕ × W
  opening = t.send_command_bytes (poll_addressing b d.pad d.sad) w

  abbrev pub closing : ℕ × W
  closing = t.send_command_bytes teardown (t.read_data 1 0 0 d.timeout_us opening.1).1

-- The calls of `serialPoll`, newest first: none, the addressing alone, or the whole exchange.
serial_poll_log :
    {W : Type 0} (t : Transport W) (handle : ℤ) (s : State (W × List Event)) (d : Descriptor)
    → descriptor_for s.board handle ≡ some d
    → let r = serial_poll (traced t) handle s in
      let opened = sent (poll_addressing s.board d.pad d.sad) ∷ s.world.1 in
      ((r.1.world.1 ≡ s.world.1) × (r.0.status_byte ≡ none) × (r.0.reply.sta ≡ Sta.err))
      ⊎ (((r.1.world.1 ≡ opened)
            × (r.0.status_byte ≡ none)
            × (r.0.reply.iberr ≡ Iberr.ebus)
            × ((opening t s.board d s.world.0).0 ≢ 0))
          ⊎ ((r.1.world.1 ≡ sent teardown ∷ received 1 d.timeout_us ∷ opened)
              × (r.1.world.0 ≡ (closing t s.board d s.world.0).1)
              × ((opening t s.board d s.world.0).0 ≡ 0)))
unfolding serial_poll
serial_poll_log t handle s d found = ground arith

module _ {W : Type 0} (t : Transport W) (handle : ℤ) (s : State (W × List Event)) (d : Descriptor)
    (u : Bus) (found : descriptor_for s.board handle ≡ some d) (v : IsAddress d.pad d.sad)
    (h : s.board.board_pad < 31) where
  -- For a descriptor in use with an address in 0..30, and a board address below 31, whatever was on
  -- the bus: `serialPoll` ends in one of three ways. It refuses without a call. The adapter refuses
  -- the addressing bytes, EBUS is reported, and nothing more is sent or read. Or the adapter takes
  -- them, a byte is asked for at a moment when exactly the device talks, the board alone listens and
  -- the poll is on, and then, whether or not the read brought a byte, the adapter is handed the bytes
  -- that end the poll; if it takes these too, the poll is off afterwards and nobody talks.
  pub serial_poll_ends :
      let r = serial_poll (traced t) handle s in
      let opened = sent (poll_addressing s.board d.pad d.sad) ∷ [] in
      ((r.1.world.1 ≡ s.world.1) × (r.0.status_byte ≡ none) × (r.0.reply.sta ≡ Sta.err))
      ⊎ (((r.1.world.1 ≡ opened ++ s.world.1)
            × (r.0.status_byte ≡ none)
            × (r.0.reply.iberr ≡ Iberr.ebus)
            × ((opening t s.board d s.world.0).0 ≢ 0))
          ⊎ ((r.1.world.1 ≡ sent teardown ∷ received 1 d.timeout_us ∷ opened ++ s.world.1)
              × (r.1.world.0 ≡ (closing t s.board d s.world.0).1)
              × ((opening t s.board d s.world.0).0 ≡ 0)
              × ((bus_of u opened).talker ≡ some (party d.pad d.sad))
              × ((bus_of u opened).listeners ≡ plain s.board.board_pad ∷ [])
              × ((bus_of u opened).polling ≡ true)
              × ((closing t s.board d s.world.0).0 ≡ 0
                  → ((bus_of u (sent teardown ∷ received 1 d.timeout_us ∷ opened)).polling ≡ false)
                    × ((bus_of u (sent teardown ∷ received 1 d.timeout_us ∷ opened)).talker
                        ≡ none))))
  serial_poll_ends =
      let opened = sent (poll_addressing s.board d.pad d.sad) ∷ [] in
      let (talks, listens, on) = bus_run-poll_addressing u s.board d.pad d.sad v h in
      elim (serial_poll_log t handle s d found) [
        | inl refused ↦ inl refused
        | inr (inl unheard) ↦ inr (inl unheard)
        | inr (inr (log, world, heard)) ↦ inr (
            inr
              (log, world, heard, talks, listens, on, λ taken. bus_run-teardown (bus_of u opened)))
      ]

-- On a board with a transport, the last thing that a probe sends is the teardown, also when the addressing bytes were refused.
serial_poll_probe_log :
    {W : Type 0} (t : Transport W) (pad : ℕ) (sad : ℤ) (s : State (W × List Event))
    → s.board.has_transport ≡ true
    → let r = serial_poll_probe (traced t) pad sad s in
      let opened = sent (poll_addressing s.board pad sad) ∷ s.world.1 in
      (r.1.world.1 ≡ sent teardown ∷ received 1 probe_timeout_us ∷ opened)
      ⊎ ((r.1.world.1 ≡ sent teardown ∷ opened) × (r.0 ≡ false))
unfolding serial_poll_probe
serial_poll_probe_log t pad sad s here = ground arith
