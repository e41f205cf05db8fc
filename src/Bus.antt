-- ===== src/Bus.antt =====
-- An IEEE 488.1 bus as the interface messages of gpib_user.h drive it, independent of the driver:
-- who talks, who listens, whether a serial poll is on, which addressed commands reached whom.
-- It is what the byte sequences that the board sends are held against.
pub mod Laws
use darwin_gpib.Prelude.{
  ℕ, ◌-◌, Bool, true, false, List, [], ◌∷◌, Option, none, some, ◌==◌, ◌&&◌, if◌then◌else◌, ltb, leb,
}
use darwin_gpib.Gpib.Cmd

-- An address: primary, and secondary where the device has one.
pub record Party : Type 0 where
  pub primary : ℕ
  pub secondary : Option ℕ

-- What a secondary address that comes next would qualify.
pub data Pending : Type 0 where
  talk listen neither : Pending

-- An addressed command, with those that were listening to it.
pub record Order : Type 0 where
  pub command : ℕ
  pub receivers : List Party

pub record Bus : Type 0 where
  pub talker : Option Party
  pub listeners : List Party
  pub polling : Bool
  pub orders : List Order
  pub pending : Pending

qualify_listener : ℕ → List Party → List Party
qualify_listener s [] = []
qualify_listener s (l ∷ ls) = record l { secondary = some s } ∷ ls

qualify_talker : ℕ → Option Party → Option Party
qualify_talker s none = none
qualify_talker s (some x) = some (record x { secondary = some s })

pub qualify : ℕ → Pending → Bus → Bus
unfolding qualify_listener qualify_talker
qualify s talk u = record u { talker = qualify_talker s u.talker; pending = neither }
qualify s listen u = record u { listeners = qualify_listener s u.listeners; pending = neither }
qualify s neither u = u

abbrev pub plain : ℕ → Party
plain n = record { primary = n; secondary = none }

-- One byte with ATN asserted.
unfoldable pub bus_step : Bus → ℕ → Bus
unfolding qualify
bus_step u c =
    if c == Cmd.unl
    then record u { listeners = []; pending = neither }
    else if c == Cmd.unt
    then record u { talker = none; pending = neither }
    else if c == Cmd.spe
    then record u { polling = true; pending = neither }
    else if c == Cmd.spd
    then record u { polling = false; pending = neither }
    else if ltb c 0x10
    then record u {
      orders = record { command = c; receivers = u.listeners } ∷ u.orders;
      pending = neither;
    }
    else if ltb c Cmd.lad
    then record u { pending = neither }
    else if ltb c Cmd.tad
    then record u { listeners = plain (c - Cmd.lad) ∷ u.listeners; pending = listen }
    else if ltb c Cmd.sad
    then record u { talker = some (plain (c - Cmd.tad)); pending = talk }
    else qualify (c - Cmd.sad) u.pending u

unfoldable pub bus_run : Bus → List ℕ → Bus
bus_run u [] = u
bus_run u (c ∷ cs) = bus_run (bus_step u c) cs
