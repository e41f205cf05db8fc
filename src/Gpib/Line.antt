-- ===== src/Gpib/Line.antt =====
-- gpib_user.h, `enum bus_control_line`: the masks of the bus-line word.
use Prim.Native.Nat.{ℕ}

abbrev pub valid_ndac : ℕ
valid_ndac = 0x02

abbrev pub valid_srq : ℕ
valid_srq = 0x20

abbrev pub bus_ndac : ℕ
bus_ndac = 0x0200

abbrev pub bus_srq : ℕ
bus_srq = 0x2000
