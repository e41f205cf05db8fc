-- ===== src/Board/Transfer/Phases.antt =====
-- `write` and `read` of GPIBBoard.cpp phase by phase: guards, addressing, transfer and report.
use darwin_gpib.Prelude.{
  ℕ, ◌≡◌, ◌≢◌, ◌⊎◌, inl, inr, arith, Bool, true, false, List, [], ◌∷◌, none, some, bit_or,
  Option-cases, Bool-cases,
}
use darwin_gpib.Prelude.Int.{ℤ}
use darwin_gpib.Gpib.Sta
use darwin_gpib.Gpib.Iberr
use darwin_gpib.Transport.{Transport}
use darwin_gpib.Transport.Rc
use darwin_gpib.Board.{Descriptor}
use darwin_gpib.Board.Monad.{State, Reply}
use darwin_gpib.Board.Table.{descriptor_for}
use darwin_gpib.Board.Address.{
  write_addressing, read_addressing, address_for_write, address_for_read, addressed, failed,
}
use darwin_gpib.Board.Transfer.{
  write, read, use_eoi, write_to, read_from, transfer_iberr, with_retry, transfer_failure,
}
use darwin_gpib.Board.Trace.{Event, traced, wrote, received}

-- The report on a transfer, from the adapter's return code and its END flag: CMPL, with END where it
-- was seen; EABO with TIMO for a timeout; ECIC for an abort; EBUS for anything else.
abbrev pub Reports : ℕ → ℕ → Reply → Type 0
Reports rc end_flag r =
    ((rc ≡ 0)
      → (r.iberr ≡ 0)
        × ((end_flag ≡ 0) → r.sta ≡ Sta.cmpl)
        × ((end_flag ≢ 0) → r.sta ≡ bit_or Sta.cmpl Sta.end_bit))
    × ((rc ≡ Rc.err_timeout) → (r.iberr ≡ Iberr.eabo) × (r.sta ≡ bit_or Sta.err Sta.timo))
    × ((rc ≡ Rc.err_aborted) → (r.iberr ≡ Iberr.ecic) × (r.sta ≡ Sta.err))
    × ((rc ≢ 0)
        → (rc ≢ Rc.err_timeout)
        → (rc ≢ Rc.err_aborted)
        → (r.iberr ≡ Iberr.ebus) × (r.sta ≡ Sta.err))

-- Why there is no transfer: no descriptor or no transport, a board that is offline, or an adapter that
-- did not take the addressing bytes.
abbrev pub Refused : {W : Type 0} → State W → ℤ → (Descriptor → ℕ) → Reply → Type 0
Refused s handle first r =
    (r.sta ≡ Sta.err)
    × (((r.iberr ≡ Iberr.earg)
          × ((descriptor_for s.board handle ≡ none) ⊎ (s.board.has_transport ≡ false)))
        ⊎ (((r.iberr ≡ Iberr.eneb) × (s.board.online ≡ false))
            ⊎ (((r.iberr ≡ Iberr.eabo) ⊎ (r.iberr ≡ Iberr.enol))
                × (d : Descriptor) × (descriptor_for s.board handle ≡ some d)
                × (first d ≢ 0))))

module _ {W : Type 0} (t : Transport W) (d : Descriptor) (s : State (W × List Event)) where
  abbrev pub asked_to_listen : ℕ × W
  asked_to_listen = t.send_command_bytes (write_addressing s.board d) s.world.0

  abbrev pub asked_to_talk : ℕ × W
  asked_to_talk = t.send_command_bytes (read_addressing s.board d) s.world.0

  pub write_phase :
      let a = with_retry (traced t) d (address_for_write (traced t) d) s in
      ((failed a.0 ≡ true)
        → ((a.0.iberr ≡ Iberr.eabo) ⊎ (a.0.iberr ≡ Iberr.enol)) × (asked_to_listen.0 ≢ 0))
      × (asked_to_listen.0 ≡ 0 → a.1.world.0 ≡ asked_to_listen.1)
  unfolding with_retry address_for_write addressed
  write_phase = ground arith

  pub write_to_ends :
      (buf : List ℕ) (send_eoi : Bool)
      → let a = with_retry (traced t) d (address_for_write (traced t) d) s in
        let r = write_to (traced t) d buf send_eoi s in
        let x = t.write_data buf (use_eoi send_eoi d) d.timeout_us a.1.world.0 in
        ((failed a.0 ≡ true)
          × (r.1.world ≡ a.1.world)
          × (r.0.count ≡ 0)
          × (r.0.reply.sta ≡ Sta.err)
          × (r.0.reply.iberr ≡ a.0.iberr))
        ⊎ ((failed a.0 ≡ false)
            × (r.1.world.1 ≡ wrote buf (use_eoi send_eoi d) d.timeout_us ∷ a.1.world.1)
            × (r.1.world.0 ≡ x.1)
            × (r.0.count ≡ x.0.count)
            × Reports x.0.rc 0 r.0.reply)
  unfolding write_to transfer_iberr transfer_failure
  write_to_ends buf send_eoi = ground arith

  pub read_phase :
      let a = with_retry (traced t) d (address_for_read (traced t) d) s in
      ((failed a.0 ≡ true)
        → ((a.0.iberr ≡ Iberr.eabo) ⊎ (a.0.iberr ≡ Iberr.enol)) × (asked_to_talk.0 ≢ 0))
      × (asked_to_talk.0 ≡ 0 → a.1.world.0 ≡ asked_to_talk.1)
  unfolding with_retry address_for_read addressed
  read_phase = ground arith

  pub read_from_ends :
      (n : ℕ)
      → let a = with_retry (traced t) d (address_for_read (traced t) d) s in
        let r = read_from (traced t) d n s in
        let x = t.read_data n d.eos_char d.eos_flags d.timeout_us a.1.world.0 in
        ((failed a.0 ≡ true)
          × (r.1.world ≡ a.1.world)
          × (r.0.bytes ≡ [])
          × (r.0.count ≡ 0)
          × (r.0.end_flag ≡ 0)
          × (r.0.reply.sta ≡ Sta.err)
          × (r.0.reply.iberr ≡ a.0.iberr))
        ⊎ ((failed a.0 ≡ false)
            × (r.1.world.1 ≡ received n d.timeout_us ∷ a.1.world.1)
            × (r.1.world.0 ≡ x.1)
            × (r.0.bytes ≡ x.0.bytes)
            × (r.0.count ≡ x.0.count)
            × (r.0.end_flag ≡ x.0.end_flag)
            × Reports x.0.rc x.0.end_flag r.0.reply)
  unfolding read_from transfer_iberr transfer_failure
  read_from_ends n = ground arith

module _ {W : Type 0} (t : Transport W) (handle : ℤ) (s : State W) where
  pub write_guards :
      (buf : List ℕ) (send_eoi : Bool) (first : Descriptor → ℕ)
      → let r = write t handle buf send_eoi s in
        ((d : Descriptor) × (descriptor_for s.board handle ≡ some d)
          × (r ≡ write_to t d buf send_eoi s))
        ⊎ ((r.1.world ≡ s.world) × (r.0.count ≡ 0) × Refused s handle first r.0.reply)
  unfolding write
  write_guards buf send_eoi first = elim (Option-cases (descriptor_for s.board handle)) [
    | inl missing ↦ ground arith
    | inr (d, found) ↦ elim (Bool-cases s.board.has_transport) [
      | inl here ↦ elim (Bool-cases s.board.online) [
        | inl online ↦ inl (d, found, ground arith)
        | inr offline ↦ ground arith
      ]
      | inr bare ↦ ground arith
    ]
  ]

  pub read_guards :
      (n : ℕ) (first : Descriptor → ℕ)
      → let r = read t handle n s in
        ((d : Descriptor) × (descriptor_for s.board handle ≡ some d) × (r ≡ read_from t d n s))
        ⊎ ((r.1.world ≡ s.world)
            × (r.0.bytes ≡ [])
            × (r.0.count ≡ 0)
            × (r.0.end_flag ≡ 0)
            × Refused s handle first r.0.reply)
  unfolding read
  read_guards n first = elim (Option-cases (descriptor_for s.board handle)) [
    | inl missing ↦ ground arith
    | inr (d, found) ↦ elim (Bool-cases s.board.has_transport) [
      | inl here ↦ elim (Bool-cases s.board.online) [
        | inl online ↦ inl (d, found, ground arith)
        | inr offline ↦ ground arith
      ]
      | inr bare ↦ ground arith
    ]
  ]
