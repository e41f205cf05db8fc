-- ===== src/Kusb/Registered.antt =====
-- KUSB488BTransport.cpp: the register pipeline, a byte at a time: `sendCommandBytesViaRegisters`,
-- `writeDataViaRegisters`, `readDataViaRegisters`.
use darwin_gpib.Prelude.{
  ℕ, zero, suc, Bool, true, false, List, [], ◌∷◌, ◌++◌, Option, none, some, ◌==◌, ◌&&◌, ◌||◌, not,
  if◌then◌else◌, ltb, length, bit_and, bit_or,
}
use darwin_gpib.Gpib.Config
use darwin_gpib.Transport.{Written, Received}
use darwin_gpib.Transport.Rc
use darwin_gpib.Usb.{Device, ◌>>=◌, pure, and_then}
use darwin_gpib.Kusb.{Session, Ends, K, dev_}
use darwin_gpib.Kusb.Wire.{poll_iterations_for}
use darwin_gpib.Kusb.Registers.{
  read_raw_register, write_raw_register, release_rfd_holdoff_if_pending, auxmr, aux_tca, aux_gts,
  aux_seoi,
}

-- The registers CDOR and DIR, ISR1, ISR2, ADMR and ADSR.
abbrev pub cdor : ℕ
cdor = 0x00

abbrev pub isr1 : ℕ
isr1 = 0x01

abbrev isr2 : ℕ
isr2 = 0x02

abbrev admr : ℕ
admr = 0x04

abbrev adsr : ℕ
adsr = 0x04

-- KUSB_ADMR_TRM.
abbrev trm : ℕ
trm = 0x30

-- A bit of a register value.
abbrev pub has_bit : ℕ → ℕ → Bool
has_bit bit value = not (bit_and value bit == 0)

-- The variables of the read loop: what has come, whether END was seen, whether END or EOS ended it, and
-- whether the wait for the first byte ran out.
pub record Gathered : Type 0 where
  pub bytes : List ℕ
  pub saw_end : Bool
  pub end_flag : ℕ
  pub timed_out : Bool

module _ {W : Type 0} (v : Device W) (e : Ends) where
  -- `for (spin = 0; spin < n; ++spin)`: read the register until its value passes the test, a
  -- millisecond apart. A read that fails ends the wait.
  unfoldable pub wait_until : ℕ → ℕ → (ℕ → Bool) → K W (Option ℕ)
  wait_until zero which test s = (none, s)
  wait_until (suc spins) which test s =
      let (a, s1) = read_raw_register v e which s in
      let (slept, s2) = dev_ (v.sleep_ms 1) s1 in
      let again = wait_until spins which test s2 in
      if not (a.rc == Rc.success)
      then (none, s1)
      else if test a.value
      then (some a.value, s1)
      else again

  unfoldable pub commands_out : List ℕ → K W ℕ
  commands_out [] s = (Rc.success, s)
  commands_out (c ∷ cs) s =
      let (rc, s1) = write_raw_register v e cdor c s in
      let (accepted, s2) = wait_until 200 isr2 (has_bit 0x08) s1 in
      let rest = commands_out cs s2 in
      let waited : ℕ × Session W = elim accepted [
        | none ↦ (Rc.err_no_listener, s2)
        | some x ↦ rest
      ] in
      if rc == Rc.success then waited else (rc, s1)

  -- ATN, and neither talker nor listener.
  commanding : K W ℕ
  commanding = do
    rc ← write_raw_register v e auxmr aux_tca
    and_then rc (do
      asserted ← wait_until 200 adsr (λ x. bit_and x 0x40 == 0)
      elim asserted [ none ↦ pure Rc.err_timeout | some x ↦ write_raw_register v e admr trm ])

  unfoldable pub send_command_bytes_via_registers : List ℕ → K W ℕ
  unfolding commanding
  send_command_bytes_via_registers cmds = if length cmds == 0 then pure Rc.success else (do
    released ← release_rfd_holdoff_if_pending v e
    rc ← commanding
    and_then rc (commands_out cmds))

  -- The role, then ATN off; ABORTED, and no role, where ATN stays on.
  unfoldable pub take_role : ℕ → K W ℕ
  take_role role = do
    rc ← write_raw_register v e admr (bit_or role trm)
    and_then rc (do
      gone ← write_raw_register v e auxmr aux_gts
      and_then gone (do
        off ← wait_until 500 adsr (has_bit 0x40)
        elim off [
          | some x ↦ pure Rc.success
          | none ↦ (do neutral ← write_raw_register v e admr trm; pure Rc.err_aborted)
        ]))

  -- EOI goes with the last byte.
  eoi_before : Bool → List ℕ → K W ℕ
  eoi_before send_eoi rest =
      if send_eoi && (length rest == 0)
      then write_raw_register v e auxmr aux_seoi
      else pure Rc.success

  unfoldable pub byte_out : ℕ → Bool → ℕ → List ℕ → K W ℕ
  unfolding eoi_before
  byte_out spins send_eoi x rest = do
    marked ← eoi_before send_eoi rest
    and_then marked (do
      put ← write_raw_register v e cdor x
      and_then put (do
        ready ← wait_until spins isr1 (has_bit 0x02)
        elim ready [
          | some y ↦ pure Rc.success
          | none ↦ (do neutral ← write_raw_register v e admr trm; pure Rc.err_no_listener)
        ]))

  unfoldable pub bytes_out : ℕ → Bool → ℕ → List ℕ → K W Written
  bytes_out spins send_eoi done [] s = (record { rc = Rc.success; count = done }, s)
  bytes_out spins send_eoi done (x ∷ xs) s =
      let (rc, s') = byte_out spins send_eoi x xs s in
      let rest = bytes_out spins send_eoi (suc done) xs s' in
      if rc == Rc.success then rest else (record { rc = rc; count = done }, s')

  unfoldable pub write_data_via_registers : List ℕ → Bool → ℕ → K W Written
  write_data_via_registers buf send_eoi timeout_us =
      if length buf == 0 then pure (record { rc = Rc.success; count = 0 }) else (do
        rc ← take_role 0x80
        if rc == Rc.success
            then bytes_out (poll_iterations_for timeout_us) send_eoi 0 buf
            else pure (record { rc = rc; count = 0 }))

  -- What a byte with its ISR1 value ends: END where it can be used, or the end-of-string character.
  unfoldable pub takes : Bool → ℕ → ℕ → ℕ → ℕ → Gathered → Gathered × Bool
  takes end_unusable eos_char eos_flags status x g =
      let with_byte = record g { bytes = g.bytes ++ x ∷ [] } in
      if not end_unusable && has_bit 0x10 status
      then (record with_byte { saw_end = true; end_flag = 1 }, true)
      else (if has_bit Config.reos eos_flags && (x == eos_char)
          then (record with_byte { end_flag = 1 }, true)
          else (with_byte, false))

  -- Patience ran out: the board stops being a listener.
  unfoldable pub stalled : Gathered → K W Gathered
  stalled g = do
    neutral ← write_raw_register v e admr trm
    pure (if length g.bytes == 0 then record g { timed_out = true } else g)

  -- The rounds that are left are the bytes that are still asked for.
  unfoldable pub gather : ℕ → ℕ → Bool → ℕ → ℕ → Gathered → K W Gathered
  gather zero spins end_unusable eos_char eos_flags g s = (g, s)
  gather (suc left) spins end_unusable eos_char eos_flags g s =
      let (ready, s1) =
        wait_until (if length g.bytes == 0 then spins else 250) isr1 (has_bit 0x01) s in
      let (a, s2) = read_raw_register v e cdor s1 in
      elim ready [
        | none ↦ stalled g s1
        | some status ↦
            let (g', over) = takes end_unusable eos_char eos_flags status a.value g in
            let more = gather left spins end_unusable eos_char eos_flags g' s2 in
            if not (a.rc == Rc.success) then (g, s2) else if over then (g', s2) else more
      ]

  -- The holdoff is recorded when anything came.
  unfoldable pub gathered : Gathered → K W Received
  gathered g s = (
    record {
      rc = if g.timed_out && (length g.bytes == 0) then Rc.err_timeout else Rc.success;
      bytes = g.bytes;
      count = length g.bytes;
      end_flag = g.end_flag;
    },
    if g.saw_end || ltb 0 (length g.bytes) then record s { rfd_holdoff_pending = true } else s,
  )

  unfoldable pub listening : ℕ → ℕ → ℕ → ℕ → K W Received
  listening request eos_char eos_flags timeout_us = do
    start ← read_raw_register v e isr1
    g ←
        gather request (poll_iterations_for timeout_us) (has_bit 0x10 start.value) eos_char
          eos_flags (record { bytes = []; saw_end = false; end_flag = 0; timed_out = false })
    gathered g

  unfoldable pub read_data_via_registers : ℕ → ℕ → ℕ → ℕ → K W Received
  read_data_via_registers request_count eos_char eos_flags timeout_us =
      if request_count == 0
      then pure (record { rc = Rc.success; bytes = []; count = 0; end_flag = 0 })
      else (do
        released ← release_rfd_holdoff_if_pending v e
        rc ← take_role 0x40
        if rc == Rc.success
            then listening request_count eos_char eos_flags timeout_us
            else pure (record { rc = rc; bytes = []; count = 0; end_flag = 0 }))
