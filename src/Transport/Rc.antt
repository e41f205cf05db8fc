-- ===== src/Transport/Rc.antt =====
-- GPIBTransport.h, `enum GPIBTransportError`: `GPIBT_OK` is `success`, `GPIBT_ERR_IO` is `err_io`.
use Prim.Native.Nat.{ℕ}

abbrev pub success : ℕ
success = 0

abbrev pub err_io : ℕ
err_io = 1

abbrev pub err_timeout : ℕ
err_timeout = 2

abbrev pub err_no_listener : ℕ
err_no_listener = 3

abbrev pub err_aborted : ℕ
err_aborted = 4

abbrev pub err_not_ready : ℕ
err_not_ready = 5
