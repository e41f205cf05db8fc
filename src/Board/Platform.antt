-- ===== src/Board/Platform.antt =====
-- What the driver takes from DriverKit: the uptime clock, in nanoseconds, and `IOSleep`. The world
-- is where they act: other processes and instruments go on while a call sleeps.
use darwin_gpib.Prelude.{ℕ}

pub record Platform (W : Type 0) : Type 0 where
  pub uptime_ns : W → ℕ
  pub sleep_ms : ℕ → W → Unit {0} × W
