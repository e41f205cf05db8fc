-- ===== src/Board/Wait/Laws.antt =====
-- `waitForStatus` of GPIBBoard.cpp ends within its time limit, and only SRQ ends a wait without one.
use darwin_gpib.Prelude.{
  ℕ, zero, suc, ◌+◌, ◌*◌, ◌^◌, ◌≤◌, ◌<◌, ◌≡◌, ◌≢◌, ◌⊎◌, inl, inr, refl, ap, ◌∙◌, arith, Bool, true,
  false, Option, none, some, bit_and, bit_or, Bool-cases, min, max,
}
use darwin_gpib.Prelude.Int.{ℤ, to_u32}
use darwin_gpib.Prelude.Digits.{digit, digit-bit_and, digit-bit_or}
use darwin_gpib.Gpib.Sta
use darwin_gpib.Gpib.Line
use darwin_gpib.Transport.{Transport, Answer}
use darwin_gpib.Board.{Board, Descriptor}
use darwin_gpib.Board.Table.{descriptor_for}
use darwin_gpib.Board.Monad.{State, Reply}
use darwin_gpib.Board.Platform.{Platform}
use darwin_gpib.Board.Timeout.{no_timeout}
use darwin_gpib.Board.Wait.{
  wait_for_status, wait_loop, round, look, check, past, srq_status, expired_status,
  effective_timeout, deadline_from, srq_asserted, complement,
}

-- The clock: sleeping takes at least the time asked for, and reading the lines does not turn it back.
pub record Clocks {W : Type 0} (t : Transport W) (p : Platform W) : Type 0 where
  pub sleeps : (n : ℕ) (w : W) → p.uptime_ns w + n * 1000000 ≤ p.uptime_ns (p.sleep_ms n w).1
  pub reads : (w : W) → p.uptime_ns w ≤ p.uptime_ns (t.read_bus_lines w).1

-- An answer of the bus lines that shows SRQ: it was read, the line is valid and asserted.
abbrev pub ShowsSrq : Answer → Type 0
ShowsSrq a = (a.rc ≡ 0) × (bit_and a.value Line.valid_srq ≢ 0) × (bit_and a.value Line.bus_srq ≢ 0)

-- The two ways in which a wait for SRQ ends, with the error code 0 and CMPL: with SRQI and without TIMO
-- at once after the bus lines showed SRQ, or with TIMO and without SRQI when the clock has passed the
-- deadline. The status is stored, and the rest of the board stays. SRQI is digit 12 of the status, TIMO
-- digit 14, CMPL digit 8.
abbrev pub Ended :
    {W : Type 0} → Transport W → Platform W → ℕ → State W → Option Reply × State W → Type 0
Ended {W = W} t p deadline s r =
    (a : Reply) × (r.0 ≡ some a)
    × (a.iberr ≡ 0)
    × (r.1.board ≡ record s.board { ibsta = a.sta })
    × (digit 8 a.sta ≡ 1)
    × (((digit 12 a.sta ≡ 1)
          × (digit 14 a.sta ≡ 0)
          × (w : W) × ShowsSrq (t.read_bus_lines w).0
          × (r.1.world ≡ (t.read_bus_lines w).1))
        ⊎ ((digit 12 a.sta ≡ 0) × (digit 14 a.sta ≡ 1) × (deadline < p.uptime_ns r.1.world)))

-- A digit of a status from which one bit was taken and to which two were added.
digit-status :
    (k sta off on cmpl : ℕ)
    → digit k (bit_or (bit_or (bit_and sta off) on) cmpl)
      ≡ max (max (min (digit k sta) (digit k off)) (digit k on)) (digit k cmpl)
digit-status k sta off on cmpl =
    digit-bit_or k (bit_or (bit_and sta off) on) cmpl
    ∙ ap (λ x. max x (digit k cmpl))
        (digit-bit_or k (bit_and sta off) on
          ∙ ap (λ x. max x (digit k on)) (digit-bit_and k sta off))

-- The limit that a wait is to keep: that of the call, and the descriptor's where the call says 0.
abbrev pub Limit : ℕ → Descriptor → ℕ → Type 0
Limit timeout_us d limit =
    ((timeout_us ≢ 0) × (limit ≡ timeout_us)) ⊎ ((timeout_us ≡ 0) × (limit ≡ d.timeout_us))

srq_status_digits :
    (sta : ℕ)
    → (digit 8 (srq_status sta) ≡ 1)
      × (digit 12 (srq_status sta) ≡ 1)
      × (digit 14 (srq_status sta) ≡ 0)
unfolding srq_status
srq_status_digits sta =
    let of = λ (k : ℕ). digit-status k sta (complement Sta.timo) Sta.srqi Sta.cmpl in
    (of 8 ∙ omega arith, of 12 ∙ omega arith, of 14 ∙ omega arith)

expired_status_digits :
    (sta : ℕ)
    → (digit 8 (expired_status sta) ≡ 1)
      × (digit 12 (expired_status sta) ≡ 0)
      × (digit 14 (expired_status sta) ≡ 1)
unfolding expired_status
expired_status_digits sta =
    let of = λ (k : ℕ). digit-status k sta (complement Sta.srqi) Sta.timo Sta.cmpl in
    (of 8 ∙ omega arith, of 12 ∙ omega arith, of 14 ∙ omega arith)

deadline_within :
    (now effective : ℕ)
    → effective ≢ no_timeout
    → now + effective * 1000 < 2 ^ 64
    → deadline_from now effective ≡ now + effective * 1000
unfolding deadline_from
deadline_within now effective limited fits = ground arith

module _ {W : Type 0} (t : Transport W) (p : Platform W) where
  -- The state in which the next round starts.
  abbrev next : State W → State W
  next z = record z { world = (p.sleep_ms 20 z.world).1 }

  wait_loop-some :
      (fuel deadline : ℕ) (s : State W) (r : Reply)
      → (round t p deadline s).0 ≡ some r
      → wait_loop t p (suc fuel) deadline s ≡ (some r, (round t p deadline s).1)
  unfolding wait_loop
  wait_loop-some fuel deadline s r e = ground (arith, e)

  wait_loop-none :
      (fuel deadline : ℕ) (s : State W)
      → (round t p deadline s).0 ≡ none
      → wait_loop t p (suc fuel) deadline s
        ≡ wait_loop t p fuel deadline (next (round t p deadline s).1)
  unfolding wait_loop
  wait_loop-none fuel deadline s e = ground (arith, e)

  quiet_round :
      (s : State W) → srq_asserted (t.read_bus_lines s.world).0 ≡ false → (round t p 0 s).0 ≡ none
  unfolding round look check past
  quiet_round s quiet = ground arith

  -- Without a limit nothing but SRQ ends the wait: while every look at the lines finds none, no number
  -- of rounds brings an answer.
  pub wait_loop_forever :
      (fuel : ℕ) (s : State W)
      → ((w : W) → srq_asserted (t.read_bus_lines w).0 ≡ false)
      → (wait_loop t p fuel 0 s).0 ≡ none
  wait_loop_forever zero s quiet = unfold wait_loop in refl
  wait_loop_forever (suc fuel) s quiet =
      ap (λ q. q.0) (wait_loop-none fuel 0 s (quiet_round s (quiet s.world)))
      ∙ wait_loop_forever fuel (next (round t p 0 s).1) quiet

module _ {W : Type 0} (t : Transport W) (p : Platform W) (k : Clocks t p) where
  -- A look leaves the board alone and the clock not behind; SRQ is what the lines show.
  look_law :
      (s : State W)
      → let r = look t p s in
        (r.1.board ≡ s.board)
        × (p.uptime_ns s.world ≤ p.uptime_ns r.1.world)
        × (r.0 ≡ true
            → ShowsSrq (t.read_bus_lines s.world).0 × (r.1.world ≡ (t.read_bus_lines s.world).1))
  unfolding look srq_asserted
  look_law s = ground (arith, k.reads s.world)

  -- What a round makes of a look at the lines that began in `w`.
  check_cases :
      (deadline : ℕ) (srq : Bool) (w : W) (z : State W)
      → (srq ≡ true → ShowsSrq (t.read_bus_lines w).0 × (z.world ≡ (t.read_bus_lines w).1))
      → let r = check t p deadline srq z in
        Ended t p deadline z r
        ⊎ ((r.0 ≡ none) × (r.1 ≡ z) × (past deadline (p.uptime_ns z.world) ≡ false))
  unfolding check past
  check_cases deadline true w z seen =
      let (done, on, off) = srq_status_digits z.board.ibsta in
      inl (
        record { sta = srq_status z.board.ibsta; iberr = 0 },
        refl,
        refl,
        refl,
        done,
        inl (on, off, w, (seen refl).0, (seen refl).1),
      )
  check_cases deadline false w z seen =
      let (done, off, on) = expired_status_digits z.board.ibsta in
      elim (Bool-cases (past deadline (p.uptime_ns z.world))) [
        | inl over ↦ inl (
          record { sta = expired_status z.board.ibsta; iberr = 0 },
          rw over refl,
          refl,
          rw over refl,
          done,
          inr (off, on, rw over (ground arith)),
        )
        | inr ahead ↦ inr (rw ahead refl, rw ahead refl, ahead)
      ]

  -- A round ends the wait, or leaves the board alone with the deadline still ahead.
  round_cases :
      (deadline : ℕ) (s : State W)
      → let r = round t p deadline s in
        Ended t p deadline s r
        ⊎ ((r.0 ≡ none)
            × (r.1.board ≡ s.board)
            × (past deadline (p.uptime_ns r.1.world) ≡ false)
            × (p.uptime_ns s.world ≤ p.uptime_ns r.1.world))
  unfolding round
  round_cases deadline s =
      let (same, later, seen) = look_law s in
      let z = (look t p s).1 in
      elim (check_cases deadline (look t p s).0 s.world z seen) [
        | inl (r, e, ok, board, done, how) ↦
            inl (r, e, ok, board ∙ ap {A = Board} (λ b. record b { ibsta = r.sta }) same, done, how)
        | inr (e, stays, ahead) ↦
            inr (e, ap (λ q. q.board) stays ∙ same, rw stays ahead, rw stays later)
      ]

  not_past : (deadline now : ℕ) → deadline ≢ 0 → past deadline now ≡ false → now ≤ deadline
  unfolding past
  not_past deadline now set e = ground arith

  Ended-carry :
      (deadline : ℕ) (s s' : State W) (o o' : Option Reply × State W)
      → o' ≡ o
      → s.board ≡ s'.board
      → Ended t p deadline s o
      → Ended t p deadline s' o'
  Ended-carry deadline s s' o o' e same (r, f, ok, board, done, how) =
      rw e (r, f, ok, board ∙ ap {A = Board} (λ b. record b { ibsta = r.sta }) same, done, how)

  -- One round for every 20 ms up to the deadline is enough, and one more.
  wait_loop_ends :
      (fuel deadline : ℕ) (s : State W)
      → deadline ≢ 0
      → deadline < p.uptime_ns s.world + fuel * 20000000
      → Ended t p deadline s (wait_loop t p (suc fuel) deadline s)
  wait_loop_ends zero deadline s set enough = elim (round_cases deadline s) [
    | inl (r, e, ok, board, done, how) ↦
        rw (wait_loop-some t p 0 deadline s r e) (r, refl, ok, board, done, how)
    | inr (e, same, ahead, later) ↦ absurd (omega (arith, not_past deadline _ set ahead))
  ]
  wait_loop_ends (suc fuel) deadline s set enough = elim (round_cases deadline s) [
    | inl (r, e, ok, board, done, how) ↦
        rw (wait_loop-some t p (suc fuel) deadline s r e) (r, refl, ok, board, done, how)
    | inr (e, same, ahead, later) ↦
        let z = next t p (round t p deadline s).1 in
        let slept = k.sleeps 20 (round t p deadline s).1.world in
        Ended-carry deadline z s _ _ (wait_loop-none t p (suc fuel) deadline s e) same
          (wait_loop_ends fuel deadline z set (omega arith))
  ]

  waits :
      (fuel timeout_us limit : ℕ) (handle mask : ℤ) (s : State W) (d : Descriptor)
      → descriptor_for s.board handle ≡ some d
      → bit_and (to_u32 mask) (bit_or Sta.srqi Sta.rqs) ≢ 0
      → Limit timeout_us d limit
      → wait_for_status t p fuel handle mask timeout_us s
        ≡ wait_loop t p fuel (deadline_from (p.uptime_ns s.world) limit) s
  unfolding wait_for_status effective_timeout
  waits fuel timeout_us limit handle mask s d found srq of = ground arith

  -- For a handle in use and a mask with SRQI or RQS, a limit of the call's own timeout, or the
  -- descriptor's where that is 0, which is not the code for none, and a clock that sleeping moves on, that
  -- has started and that the limit does not take past 2^64: `waitForStatus` ends, with one round for
  -- every 20 ms of the limit, and two more, and with the error code 0 and CMPL. Either the status has SRQI
  -- and not TIMO, and the last thing done was a look at the bus lines that showed SRQ; or it has TIMO and
  -- not SRQI, and the clock has passed the limit. The board keeps the status and is otherwise the same.
  pub wait_for_status_ends :
      (fuel timeout_us limit : ℕ) (handle mask : ℤ) (s : State W) (d : Descriptor)
      → descriptor_for s.board handle ≡ some d
      → bit_and (to_u32 mask) (bit_or Sta.srqi Sta.rqs) ≢ 0
      → Limit timeout_us d limit
      → limit ≢ no_timeout
      → 0 < p.uptime_ns s.world
      → p.uptime_ns s.world + limit * 1000 < 2 ^ 64
      → limit < fuel * 20000
      → Ended t p
          (p.uptime_ns s.world + limit * 1000)
          s
          (wait_for_status t p (suc fuel) handle mask timeout_us s)
  wait_for_status_ends fuel timeout_us limit handle mask s d found srq of limited started fits
        enough =
      rw
        (
          waits (suc fuel) timeout_us limit handle mask s d found srq of,
          deadline_within _ _ limited fits,
        )
        (wait_loop_ends fuel _ s (omega arith) (omega arith))
