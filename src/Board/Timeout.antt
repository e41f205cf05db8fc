-- ===== src/Board/Timeout.antt =====
-- GPIBBoard.cpp, `timeoutCodeToMicros`: the timeout codes of `enum gpib_timeout`, 0 to 17.
pub mod Laws
use darwin_gpib.Prelude.{ℕ, ◌==◌, if◌then◌else◌}

-- TNONE, no deadline.
abbrev pub no_timeout : ℕ
no_timeout = 0xffff_ffff

unfoldable pub timeout_code_to_micros : ℕ → ℕ
timeout_code_to_micros code =
    if code == 0
    then no_timeout
    else if code == 1
    then 10
    else if code == 2
    then 30
    else if code == 3
    then 100
    else if code == 4
    then 300
    else if code == 5
    then 1000
    else if code == 6
    then 3000
    else if code == 7
    then 10000
    else if code == 8
    then 30000
    else if code == 9
    then 100000
    else if code == 10
    then 300000
    else if code == 11
    then 1000000
    else if code == 12
    then 3000000
    else if code == 13
    then 10000000
    else if code == 14
    then 30000000
    else if code == 15
    then 100000000
    else if code == 16
    then 300000000
    else if code == 17
    then 1000000000
    else 3000000
