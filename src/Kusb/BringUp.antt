-- ===== src/Kusb/BringUp.antt =====
-- KUSB488BTransport.cpp: `runBringUpSequence`, `softReset` and the end of `detach`.
use darwin_gpib.Prelude.{ℕ, false, List, [], ◌∷◌, ◌==◌, if◌then◌else◌}
use darwin_gpib.Transport.Rc
use darwin_gpib.Usb.{Device}
use darwin_gpib.Kusb.{Ends, K}
use darwin_gpib.Kusb.Control.{recover_firmware_engine}
use darwin_gpib.Kusb.Registers.{write_command_block, write_raw_register, auxmr, aux_pon}

-- A write of the bring-up: a block of register writes, or one register.
pub data Setting : Type 0 where
  block : List ℕ → Setting
  register : ℕ → ℕ → Setting

-- The blocks A, B and C, the online block, the board address, the addressing mode, the release from
-- power-on.
abbrev pub bring_up : List Setting
bring_up =
    Setting.block (0x05 ∷ 0x02 ∷ 0x01 ∷ 0x00 ∷ 0x02 ∷ 0x00 ∷ 0x03 ∷ 0x00 ∷ [])
    ∷ Setting.block (0x05 ∷ 0x01 ∷ 0x02 ∷ [])
    ∷ Setting.block (
        0x05 ∷ 0x70 ∷ 0x05 ∷ 0x82 ∷ 0x05 ∷ 0xc0 ∷ 0x05 ∷ 0xa8 ∷ 0x05 ∷ 0xc0 ∷ 0x05 ∷ 0xd0 ∷ 0x05
        ∷ 0x49 ∷ 0x05 ∷ 0xe1 ∷ [])
    ∷ Setting.block (auxmr ∷ 0x20 ∷ [])
    ∷ Setting.register 0x06 0xe0
    ∷ Setting.register 0x06 0x00
    ∷ Setting.register 0x04 0x31
    ∷ Setting.register auxmr aux_pon
    ∷ []

module _ {W : Type 0} (v : Device W) (e : Ends) where
  unfoldable pub apply_setting : Setting → K W ℕ
  apply_setting (block bytes) = write_command_block v e bytes
  apply_setting (register which value) = write_raw_register v e which value

  -- One write after the other; the first that fails ends the sequence.
  unfoldable pub apply_settings : List Setting → K W ℕ
  apply_settings [] s = (Rc.success, s)
  apply_settings (x ∷ xs) s =
      let (rc, s') = apply_setting x s in
      let rest = apply_settings xs s' in if rc == Rc.success then rest else (rc, s')

  unfoldable pub run_bring_up_sequence : K W ℕ
  run_bring_up_sequence s =
      let (recovered, s0) = recover_firmware_engine v e s in
      let (rc, s') = apply_settings bring_up s0 in
      if rc == Rc.success then (Rc.success, record s' { rfd_holdoff_pending = false }) else (rc, s')

  unfoldable pub soft_reset : K W ℕ
  soft_reset = run_bring_up_sequence
