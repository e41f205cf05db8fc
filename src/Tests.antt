-- ===== src/Tests.antt =====
-- Examples: a bench with one instrument on the bus, and the theorems of the library at work on it.
mod Bench
mod Table
mod Bus
mod Adapter
mod Client
mod Broker
mod Library
mod Text
mod Wired
mod Kusb
mod Agilent
mod Firmware
mod Attach
