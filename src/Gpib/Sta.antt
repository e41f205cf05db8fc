-- ===== src/Gpib/Sta.antt =====
-- gpib_user.h, `enum ibsta_bits`: the bits of the status word, and its 32-bit complement.
use Prim.Native.Nat.{ℕ}

abbrev pub cic : ℕ
cic = 0x20

abbrev pub rem : ℕ
rem = 0x40

abbrev pub lok : ℕ
lok = 0x80

abbrev pub cmpl : ℕ
cmpl = 0x100

abbrev pub rqs : ℕ
rqs = 0x800

abbrev pub srqi : ℕ
srqi = 0x1000

abbrev pub end_bit : ℕ
end_bit = 0x2000

abbrev pub timo : ℕ
timo = 0x4000

abbrev pub err : ℕ
err = 0x8000
