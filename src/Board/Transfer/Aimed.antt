-- ===== src/Board/Transfer/Aimed.antt =====
-- `write` and `read` of GPIBBoard.cpp on the bus of IEEE 488.1: who talks and who listens at the
-- moment of a transfer.
use darwin_gpib.Gpib.Sta
use darwin_gpib.Bus.{Bus}
use darwin_gpib.Transport.{Transport}
