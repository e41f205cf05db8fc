-- ===== src/Agilent.antt =====
-- driver/devices/agilent_82357: the transport for the 82357A and 82357B adapters. `Regs` has the
-- registers and commands, `Wire` the packets and codes, `Exchange` the USB exchanges, `Operations` the
-- transport's operations.
pub mod Regs
pub mod Wire
pub mod Exchange
pub mod Operations
pub mod Laws
