-- ===== src/Gpib.antt =====
-- driver/gpib/gpib_user.h: the status bits, error codes, command bytes and options that the driver
-- shares with linux-gpib, with the header's inline helpers on addresses and command bytes.
-- A constant keeps the header's name in small letters: `ERR` is `Sta.err`, `ECAP` is `Iberr.ecap`.
pub mod Sta
pub mod Iberr
pub mod Cmd
pub mod Line
pub mod Config
use darwin_gpib.Prelude.{ℕ, bit_and, bit_or, Bool, ◌==◌, ◌||◌, if◌then◌else◌}

-- Confine an address to 0..30.
unfoldable pub gpib_address_restrict : ℕ → ℕ
gpib_address_restrict addr = let a : ℕ = bit_and addr 0x1f in if a == 0x1f then 0 else a

unfoldable pub mla : ℕ → ℕ
mla addr = bit_or (gpib_address_restrict addr) Cmd.lad

pub mta : ℕ → ℕ
mta addr = bit_or (gpib_address_restrict addr) Cmd.tad

pub msa : ℕ → ℕ
msa addr = bit_or (gpib_address_restrict addr) Cmd.sad

pub in_addressed_command_group : ℕ → Bool
in_addressed_command_group command = bit_and command 0x70 == 0x0

pub in_universal_command_group : ℕ → Bool
in_universal_command_group command = bit_and command 0x70 == 0x10

pub in_listen_address_group : ℕ → Bool
in_listen_address_group command = bit_and command 0x60 == 0x20

pub in_talk_address_group : ℕ → Bool
in_talk_address_group command = bit_and command 0x60 == 0x40

pub in_primary_command_group : ℕ → Bool
in_primary_command_group command =
    in_addressed_command_group command
    || (in_universal_command_group command
        || (in_listen_address_group command || in_talk_address_group command))
