-- ===== src/NiUsb.antt =====
-- driver/devices/ni_usb: the NI USB-HS transport of NIUSBTransport.cpp. `Wire` has the byte formats,
-- `Receive` the walk over a response, `Exchange` the USB exchanges and the transport's operations.
pub mod Wire
pub mod Receive
pub mod Exchange
pub mod Framing
pub mod Blocks
pub mod Transfers
