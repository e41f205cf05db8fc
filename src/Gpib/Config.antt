-- ===== src/Gpib/Config.antt =====
-- gpib_user.h: the options of `ibconfig` (`IbcPAD` is `pad`; `IbaPAD` is the same number) and the
-- end-of-string modes `enum eos_flags`.
use Prim.Native.Nat.{ℕ}

abbrev pub pad : ℕ
pad = 0x1

abbrev pub sad : ℕ
sad = 0x2

abbrev pub tmo : ℕ
tmo = 0x3

abbrev pub eot : ℕ
eot = 0x4

abbrev pub eos_rd : ℕ
eos_rd = 0xc

abbrev pub eos_wrt : ℕ
eos_wrt = 0xd

abbrev pub eos_cmp : ℕ
eos_cmp = 0xe

abbrev pub eos_char : ℕ
eos_char = 0xf

abbrev pub reos : ℕ
reos = 0x400

abbrev pub xeos : ℕ
xeos = 0x800

abbrev pub bin : ℕ
bin = 0x1000
