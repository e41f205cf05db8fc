-- ===== src/Kusb/Operations/Waits.antt =====
-- The end of a polled transfer, and the register pipeline.
use darwin_gpib.Prelude.{
  ℕ, zero, suc, ◌≤◌, ◌≡◌, ◌≢◌, refl, sym, ap, ◌∙◌, arith, false, length, get_or, ltb, inl, inr,
  Bool-cases,
}
use darwin_gpib.Transport.Rc
use darwin_gpib.Usb.{Device}
use darwin_gpib.Kusb.{Session, Ends}
use darwin_gpib.Kusb.Wire.{req_status, state_done, failed_state}
use darwin_gpib.Kusb.Control.{control_in}
use darwin_gpib.Kusb.Status.{
  Polled, Round, finished, poll_round, poll_loop, poll_limit, poll_deadline, poll_status,
}
use darwin_gpib.Kusb.Operations.Chunks.{Round-cases}

-- The answer of a finished transfer, out of what the device answered to a status request: a block that
-- came in whole and says DONE.
abbrev pub SaidDone : {W : Type 0} → Device W → Ends → ℕ → ℕ → Polled → Type 0
SaidDone {W} v e status_len count_width p =
    (s : Session W) × ((control_in v e req_status 0 0 status_len s).0.rc ≡ Rc.success)
    × (status_len ≤ length (control_in v e req_status 0 0 status_len s).0.bytes)
    × (get_or (control_in v e req_status 0 0 status_len s).0.bytes 0 0 ≡ state_done)
    × (p ≡ finished status_len count_width (control_in v e req_status 0 0 status_len s).0.bytes)

module _ {W : Type 0} (v : Device W) (e : Ends) (status_len count_width : ℕ) where
  round-SaidDone :
      (deadline spins glitch : ℕ) (s : Session W) (p : Polled)
      → (poll_round v e status_len count_width deadline spins glitch s).0 ≡ Round.ends p
      → p.rc ≡ Rc.success
      → SaidDone v e status_len count_width p
  unfolding poll_round finished failed_state
  round-SaidDone deadline spins glitch s p is ok =
      (s, ground arith, ground arith, ground arith, ground arith)

  loop-step :
      (rounds deadline spins glitch since : ℕ) (s : Session W)
      → (poll_round v e status_len count_width deadline spins glitch s).0 ≡ Round.goes_on since
      → poll_loop v e status_len count_width (suc rounds) deadline spins glitch s
        ≡ poll_loop v e status_len count_width rounds deadline
            (suc spins)
            since
            (poll_round v e status_len count_width deadline spins glitch s).1
  unfolding poll_loop
  loop-step rounds deadline spins glitch since s is = rw (poll_loop, is) refl

  loop-last :
      (rounds deadline spins glitch : ℕ) (s : Session W) (p : Polled)
      → (poll_round v e status_len count_width deadline spins glitch s).0 ≡ Round.ends p
      → (poll_loop v e status_len count_width (suc rounds) deadline spins glitch s).0 ≡ p
  unfolding poll_loop
  loop-last rounds deadline spins glitch s p is = rw (poll_loop, is) refl

  loop-gives_up :
      (deadline spins glitch : ℕ) (s : Session W)
      → (poll_loop v e status_len count_width 0 deadline spins glitch s).0.rc ≢ Rc.success
  unfolding poll_loop
  loop-gives_up deadline spins glitch s = ground arith

  loop-SaidDone :
      (rounds deadline spins glitch : ℕ) (s : Session W)
      → let p = (poll_loop v e status_len count_width rounds deadline spins glitch s).0 in
        p.rc ≡ Rc.success → SaidDone v e status_len count_width p
  loop-SaidDone zero deadline spins glitch s ok = absurd (loop-gives_up deadline spins glitch s ok)
  loop-SaidDone (suc rounds) deadline spins glitch s ok =
      let r = poll_round v e status_len count_width deadline spins glitch s in
      elim (Round-cases r.0) [
        | inl (p, over) ↦
            let last = loop-last rounds deadline spins glitch s p over in
            rw last (round-SaidDone deadline spins glitch s p over (ap (λ q. q.rc) (sym last) ∙ ok))
        | inr (since, on) ↦
            let step = loop-step rounds deadline spins glitch since s on in
            rw step (
              loop-SaidDone rounds deadline (suc spins) since r.1
                (ap (λ q. q.0.rc) (sym step) ∙ ok))
      ]

  short_poll :
      (timeout_us : ℕ) (s : Session W)
      → ltb 16 status_len ≡ false
      → poll_status v e status_len count_width timeout_us s
        ≡ poll_loop v e status_len count_width poll_limit
            (poll_deadline (v.uptime_ns s.world) timeout_us)
            0
            0
            s
  unfolding poll_status
  short_poll timeout_us s short = rw short refl

  -- A poll that reports success hands back the count and the END flag of a status block with which the
  -- device answered a status request, which came in whole and said DONE: neither the time limit, nor a run of failing requests, nor the limit
  -- on the number of requests ends a poll with success.
  poll_status-SaidDone :
      (timeout_us : ℕ) (s : Session W)
      → (poll_status v e status_len count_width timeout_us s).0.rc ≡ Rc.success
      → SaidDone v e status_len count_width (poll_status v e status_len count_width timeout_us s).0
  unfolding poll_status
  poll_status-SaidDone timeout_us s ok = elim (Bool-cases (ltb 16 status_len)) [
    | inl long ↦ absurd (ground arith)
    | inr short ↦
        let deadline = poll_deadline (v.uptime_ns s.world) timeout_us in
        let step = short_poll timeout_us s short in
        rw step (loop-SaidDone poll_limit deadline 0 0 s (ap (λ q. q.0.rc) (sym step) ∙ ok))
  ]
