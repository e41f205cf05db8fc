-- ===== src/Kusb/Registers.antt =====
-- KUSB488BTransport.cpp: the registers of the chip, and the operations that only write registers.
use darwin_gpib.Prelude.{
  ℕ, Bool, false, List, [], ◌∷◌, Option, none, some, ◌==◌, ◌&&◌, ◌||◌, if◌then◌else◌, ltb, leb,
  length, get_or,
}
use darwin_gpib.Transport.{Answer}
use darwin_gpib.Transport.Rc
use darwin_gpib.Usb.{Device, ◌>>=◌, pure, and_then, map_io_return}
use darwin_gpib.Kusb.{Ends, K, dev, dev_}
use darwin_gpib.Kusb.Wire.{
  req_status, req_cmdblock, req_pulse_ifc, req_gts, req_reg, state_done, kusb_lines,
}
use darwin_gpib.Kusb.Control.{control_in, control_out}

-- KUSB_CMD_AUXMR and the commands written to it.
abbrev pub auxmr : ℕ
auxmr = 0x05

abbrev pub aux_pon : ℕ
aux_pon = 0x00

abbrev pub aux_fh : ℕ
aux_fh = 0x03

abbrev pub aux_seoi : ℕ
aux_seoi = 0x06

abbrev pub aux_gts : ℕ
aux_gts = 0x10

abbrev pub aux_tca : ℕ
aux_tca = 0x11

abbrev pub aux_tcs : ℕ
aux_tcs = 0x12

abbrev pub aux_cifc : ℕ
aux_cifc = 0x16

abbrev pub aux_sifc : ℕ
aux_sifc = 0x1e

module _ {W : Type 0} (v : Device W) (e : Ends) where
  -- `readRawRegister`, and `readRegister` with a shorter argument.
  unfoldable pub read_raw_register : ℕ → K W Answer
  read_raw_register which = do
    r ← control_in v e req_reg which 0 1
    pure (
        if r.rc == Rc.success
        then (if ltb (length r.bytes) 1
            then record { rc = Rc.err_io; value = 0 }
            else record { rc = Rc.success; value = get_or r.bytes 0 0 })
        else record { rc = r.rc; value = 0 })

  unfoldable pub write_command_block : List ℕ → K W ℕ
  write_command_block block =
      if (length block == 0) || ltb 64 (length block)
      then pure Rc.err_io
      else control_out v e req_cmdblock 0 0 block

  unfoldable pub write_raw_register : ℕ → ℕ → K W ℕ
  write_raw_register which value = control_out v e req_reg which 0 (value ∷ [])

  unfoldable pub write_aux : ℕ → K W ℕ
  write_aux value = write_raw_register auxmr value

  unfoldable pub take_control : Bool → K W ℕ
  take_control synchronous =
      write_command_block (auxmr ∷ (if synchronous then aux_tcs else aux_tca) ∷ [])

  -- One attempt of `goToStandby`: a code that ends it, or none.
  standby_once : K W (Option ℕ)
  standby_once = do
    rc ← control_out v e req_gts 0 0 []
    let checked = do
      r ← control_in v e req_status 0 0 2
      pure (
          if (r.rc == Rc.success) && (leb 1 (length r.bytes) && (get_or r.bytes 0 0 == state_done))
          then some Rc.success
          else none)
    if rc == Rc.success then checked else pure (some rc)

  unfoldable pub go_to_standby : K W ℕ
  unfolding standby_once
  go_to_standby = do
    first ← standby_once
    let again = do second ← standby_once; pure (elim second [ some rc ↦ rc | none ↦ Rc.err_io ])
    elim first [ some rc ↦ pure rc | none ↦ again ]

  unfoldable pub release_atn : K W ℕ
  release_atn = do
    rc ← go_to_standby
    if rc == Rc.success then pure rc else write_raw_register auxmr aux_gts

  unfoldable pub pulse_interface_clear_via_aux : K W ℕ
  pulse_interface_clear_via_aux = do
    rc ← write_raw_register auxmr aux_sifc
    and_then rc (do slept ← dev_ (v.sleep_ms 1); write_raw_register auxmr aux_cifc)

  -- The firmware's pulse: its code, and the state byte, 0 where none came.
  pulsed : K W Answer
  pulsed = do
    rc ← control_out v e req_pulse_ifc 0 0 []
    let state = do
      r ← control_in v e req_status 0 0 1
      pure (record { rc = r.rc; value = get_or r.bytes 0 0 })
    if rc == Rc.success then state else pure (record { rc = rc; value = 0 })

  -- A second pulse whose status brings no byte leaves the state byte of the first, which is not DONE.
  pulsed_twice : K W ℕ
  unfolding pulsed
  pulsed_twice = do
    first ← pulsed
    let again = do
      second ← pulsed
      pure (
          if second.rc == Rc.success
          then (if second.value == state_done then Rc.success else Rc.err_io)
          else second.rc)
    if first.rc == Rc.success
        then (if first.value == state_done then pure Rc.success else again)
        else pure first.rc

  unfoldable pub pulse_interface_clear : K W ℕ
  unfolding pulsed_twice
  pulse_interface_clear = do
    aux ← pulse_interface_clear_via_aux
    if aux == Rc.success then pure Rc.success else pulsed_twice

  -- The record of REN follows a write that succeeded.
  unfoldable pub set_remote_enable : Bool → K W ℕ
  set_remote_enable enable s =
      let (rc, s') = write_aux (if enable then 0x1f else 0x17) s in
      (rc, if rc == Rc.success then record s' { ren_asserted = enable } else s')

  released : K W (Unit {0})
  released s =
      let (rc, s') = write_raw_register auxmr aux_fh s in
      (tt, record s' { rfd_holdoff_pending = false })

  unfoldable pub release_rfd_holdoff_if_pending : K W (Unit {0})
  unfolding released
  release_rfd_holdoff_if_pending s = if s.rfd_holdoff_pending then released s else (tt, s)

  unfoldable pub set_max_data_chunk : ℕ → K W ℕ
  set_max_data_chunk bytes s = (Rc.success, record s { max_data_chunk = bytes })

  -- The bus-line register is 0x107.
  unfoldable pub read_bus_lines : K W Answer
  read_bus_lines = do
    a ← read_raw_register 0x0107
    pure (
        if a.rc == Rc.success
        then record { rc = Rc.success; value = kusb_lines a.value }
        else record { rc = a.rc; value = 0 })

  unfoldable pub reset_device : K W ℕ
  reset_device =
      if e.device_ready then (do k ← dev v.reset; pure (map_io_return k)) else pure Rc.err_not_ready
