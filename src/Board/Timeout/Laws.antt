-- ===== src/Board/Timeout/Laws.antt =====
-- The table of timeouts of GPIBBoard.cpp grows with the code.
use darwin_gpib.Prelude.{ℕ, ◌+◌, ◌*◌, ◌≤◌, ◌<◌, ◌≡◌, refl, arith, true, leb, leb→le}
use darwin_gpib.Prelude.Bits.{every, every-at}
use darwin_gpib.Board.Timeout.{timeout_code_to_micros}

growth_table :
    every 15 (λ c. leb (3 * timeout_code_to_micros (c + 1)) (timeout_code_to_micros (c + 1 + 1)))
    ≡ true
unfolding every timeout_code_to_micros
growth_table = refl

growth : (c : ℕ) → c < 16 → 3 * timeout_code_to_micros (c + 1) ≤ timeout_code_to_micros (c + 1 + 1)
growth c h = leb→le _ _ (every-at 15 c _ (omega arith) growth_table)

-- From T10us (1) to T1000s (17) each code stands for at least three times the time of the code
-- before it, so no two of them stand for one time.
timeout_code_to_micros-grows :
    (code : ℕ)
    → code < 16
    → 3 * timeout_code_to_micros (code + 1) ≤ timeout_code_to_micros (code + 2)
timeout_code_to_micros-grows code hi =
    let same : code + 1 + 1 ≡ code + 2 = omega arith in rw (← same) (growth code hi)
