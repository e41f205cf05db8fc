-- ===== src/Kusb/Status.antt =====
-- KUSB488BTransport.cpp, `pollStatus`: waiting for a transfer to end.
use darwin_gpib.Prelude.{
  ℕ, zero, suc, ◌+◌, ◌-◌, ◌*◌, ◌%◌, ◌^◌, Bool, List, ◌==◌, ◌&&◌, not, if◌then◌else◌, ltb, leb,
  length, get_or,
}
use darwin_gpib.Transport.Rc
use darwin_gpib.Usb.{Device, ◌>>=◌, pure}
use darwin_gpib.Kusb.{Ends, K, dev_}
use darwin_gpib.Kusb.Wire.{req_status, state_busy, state_done, status_count, failed_state}
use darwin_gpib.Kusb.Control.{control_in, abort_transfer}

-- A code with the out-parameters; they are set only where the status block came in whole.
pub record Polled : Type 0 where
  pub rc : ℕ
  pub count : ℕ
  pub end_flag : ℕ

abbrev pub unset : ℕ → Polled
unset rc = record { rc = rc; count = 0; end_flag = 0 }

-- `kStatusPollLimit`, `kFastPolls`, `kStatusGlitchBudgetNs`.
unfoldable pub poll_limit : ℕ
poll_limit = 100000

abbrev pub fast_polls : ℕ
fast_polls = 32

abbrev pub glitch_budget_ns : ℕ
glitch_budget_ns = 500000000

-- A round ends the polling, or leaves the time at which the present run of glitches began, 0 for none.
pub data Round : Type 0 where
  ends : Polled → Round
  goes_on : ℕ → Round

-- The clock has passed a deadline that is set.
abbrev pub overdue : ℕ → ℕ → Bool
overdue deadline now = not (deadline == 0) && ltb deadline now

-- The limit in microseconds, 0 for none, as a deadline in 64 bits.
unfoldable pub poll_deadline : ℕ → ℕ → ℕ
poll_deadline now timeout_us = if timeout_us == 0 then 0 else (now + timeout_us * 1000) % 2 ^ 64

-- The outcome of a status block whose state is not BUSY.
unfoldable pub finished : ℕ → ℕ → List ℕ → Polled
finished status_len count_width buf = record {
  rc = if get_or buf 0 0 == state_done then Rc.success else failed_state buf;
  count = status_count status_len count_width buf;
  end_flag = if ltb 6 status_len then get_or buf 6 0 else 0;
}

module _ {W : Type 0} (v : Device W) (e : Ends) (status_len count_width : ℕ) where
  gives_up : K W Round
  gives_up = do stopped ← abort_transfer v e; pure (Round.ends (unset Rc.err_timeout))

  -- A status request that failed or came back short.
  glitched : ℕ → K W Round
  glitched glitch s =
      let now = v.uptime_ns s.world in
      let waits = λ (since : ℕ). (do slept ← dev_ (v.sleep_ms 2); pure (Round.goes_on since)) in
      if glitch == 0
      then waits now s
      else (if ltb glitch_budget_ns (now - glitch)
          then (Round.ends (unset Rc.err_io), s)
          else waits glitch s)

  -- A status block that came in whole.
  judged : ℕ → List ℕ → K W Round
  unfolding finished
  judged spins buf =
      let backs_off = (do slept ← dev_ (v.sleep_ms 1); pure (Round.goes_on 0)) in
      if get_or buf 0 0 == state_busy
      then (if leb fast_polls spins then backs_off else pure (Round.goes_on 0))
      else pure (Round.ends (finished status_len count_width buf))

  asked : ℕ → ℕ → K W Round
  unfolding glitched judged
  asked spins glitch = do
    r ← control_in v e req_status 0 0 status_len
    if (r.rc == Rc.success) && leb status_len (length r.bytes)
        then judged spins r.bytes
        else glitched glitch

  unfoldable pub poll_round : ℕ → ℕ → ℕ → K W Round
  unfolding gives_up asked
  poll_round deadline spins glitch s =
      if overdue deadline (v.uptime_ns s.world) then gives_up s else asked spins glitch s

  -- The rounds that are left bound the loop, as in the source.
  unfoldable pub poll_loop : ℕ → ℕ → ℕ → ℕ → K W Polled
  poll_loop zero deadline spins glitch s =
      let (stopped, s') = abort_transfer v e s in (unset Rc.err_timeout, s')
  poll_loop (suc rounds) deadline spins glitch s =
      let (r, s') = poll_round deadline spins glitch s in
      elim r [ ends p ↦ (p, s') | goes_on since ↦ poll_loop rounds deadline (suc spins) since s' ]

  unfoldable pub poll_status : ℕ → K W Polled
  poll_status timeout_us s =
      if ltb 16 status_len
      then (unset Rc.err_io, s)
      else poll_loop poll_limit (poll_deadline (v.uptime_ns s.world) timeout_us) 0 0 s
