-- ===== src/Gpib/Cmd.antt =====
-- gpib_user.h, `enum cmd_byte`: the interface messages that are sent with ATN asserted.
use Prim.Native.Nat.{ℕ}

abbrev pub gtl : ℕ
gtl = 0x1

abbrev pub sdc : ℕ
sdc = 0x4

abbrev pub get : ℕ
get = 0x8

abbrev pub llo : ℕ
llo = 0x11

abbrev pub dcl : ℕ
dcl = 0x14

abbrev pub spe : ℕ
spe = 0x18

abbrev pub spd : ℕ
spd = 0x19

abbrev pub lad : ℕ
lad = 0x20

abbrev pub unl : ℕ
unl = 0x3f

abbrev pub tad : ℕ
tad = 0x40

abbrev pub unt : ℕ
unt = 0x5f

abbrev pub sad : ℕ
sad = 0x60
