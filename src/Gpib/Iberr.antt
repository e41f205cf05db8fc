-- ===== src/Gpib/Iberr.antt =====
-- gpib_user.h, `enum iberr_code`: the error codes that the board returns beside the status word.
use Prim.Native.Nat.{ℕ}

abbrev pub edvr : ℕ
edvr = 0

abbrev pub ecic : ℕ
ecic = 1

abbrev pub enol : ℕ
enol = 2

abbrev pub earg : ℕ
earg = 4

abbrev pub eabo : ℕ
eabo = 6

abbrev pub eneb : ℕ
eneb = 7

abbrev pub ecap : ℕ
ecap = 11

abbrev pub efso : ℕ
efso = 12

abbrev pub ebus : ℕ
ebus = 14

abbrev pub etab : ℕ
etab = 20
