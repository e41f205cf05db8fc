-- ===== src/Kusb/Operations/Chunks.antt =====
-- The firmware pipeline's transfers against the log of the device: which operations leave it alone.
use darwin_gpib.Prelude.{
  ℕ, zero, suc, ◌≡◌, refl, ◌∙◌, arith, false, List, [], ◌∷◌, append-nil, ◌==◌, ◌⊎◌, inl, inr,
}
use darwin_gpib.Usb.{Device}
use darwin_gpib.Kusb.{Session, Ends, K}
use darwin_gpib.Kusb.Wire.{req_begin_cmd, req_begin_write, req_abort, req_status, req_reg}
use darwin_gpib.Kusb.Status.{
  Round, ends, goes_on, Polled, poll_round, poll_loop, poll_status, poll_limit, poll_deadline,
}
use darwin_gpib.Kusb.Registers.{release_rfd_holdoff_if_pending, write_raw_register, aux_fh}
use darwin_gpib.Kusb.Control.{control_in, control_out, abort_transfer, recover_firmware_engine}
use darwin_gpib.Kusb.Operations.Recording.{Log, recorded, arming}

abbrev pub log_of : {W : Type 0} → Session (Log × W) → Log
log_of s = s.world.0

-- A step that leaves the log alone.
abbrev pub Keeps : {W A : Type 0} → K (Log × W) A → Type 0
Keeps {W} m = (s : Session (Log × W)) → log_of (m s).1 ≡ log_of s

pub Round-cases :
    (r : Round) → ((p : Polled) × (r ≡ Round.ends p)) ⊎ ((since : ℕ) × (r ≡ Round.goes_on since))
Round-cases (ends p) = inl (p, refl)
Round-cases (goes_on since) = inr (since, refl)

module _ {W : Type 0} (v : Device W) (e : Ends) where
  control_in-Keeps :
      (request value index size : ℕ) → Keeps (control_in (recorded v) e request value index size)
  unfolding control_in recorded
  control_in-Keeps request value index size s = ground arith

  -- A control request that is none of the two that arm a transfer.
  control_out-Keeps :
      (request value index : ℕ) (payload : List ℕ)
      → (request == req_begin_cmd) ≡ false
      → (request == req_begin_write) ≡ false
      → Keeps (control_out (recorded v) e request value index payload)
  unfolding control_out recorded arming
  control_out-Keeps request value index payload h k s = ground (arith, append-nil (log_of s))

  abort_transfer-Keeps : Keeps (abort_transfer (recorded v) e)
  unfolding abort_transfer
  abort_transfer-Keeps s = control_out-Keeps req_abort 0 0 [] refl refl s

  recover_firmware_engine-Keeps : Keeps (recover_firmware_engine (recorded v) e)
  unfolding recover_firmware_engine recorded
  recover_firmware_engine-Keeps s = ground (arith, abort_transfer-Keeps s)

  pub release-Keeps : Keeps (release_rfd_holdoff_if_pending (recorded v) e)
  unfolding release_rfd_holdoff_if_pending write_raw_register
  release-Keeps s = ground (arith, control_out-Keeps req_reg 5 0 (aux_fh ∷ []) refl refl s)

  module _ (status_len count_width : ℕ) where
    poll_round-Keeps :
        (deadline spins glitch : ℕ)
        → Keeps (poll_round (recorded v) e status_len count_width deadline spins glitch)
    unfolding poll_round recorded
    poll_round-Keeps deadline spins glitch s =
        ground (arith, abort_transfer-Keeps s, control_in-Keeps req_status 0 0 status_len s)

    poll_loop-Keeps :
        (rounds deadline spins glitch : ℕ)
        → Keeps (poll_loop (recorded v) e status_len count_width rounds deadline spins glitch)
    unfolding poll_loop
    poll_loop-Keeps zero deadline spins glitch s = abort_transfer-Keeps s
    poll_loop-Keeps (suc rounds) deadline spins glitch s =
        let kept = poll_round-Keeps deadline spins glitch s in
        let s' = (poll_round (recorded v) e status_len count_width deadline spins glitch s).1 in
        elim (Round-cases
          (poll_round (recorded v) e status_len count_width deadline spins glitch s).0) [
            | inl (p, over) ↦ rw (log_of, over) kept
            | inr (since, on) ↦
                rw (log_of, on) (poll_loop-Keeps rounds deadline (suc spins) since s' ∙ kept)
          ]

    pub poll_status-Keeps :
        (timeout_us : ℕ) → Keeps (poll_status (recorded v) e status_len count_width timeout_us)
    unfolding poll_status
    poll_status-Keeps timeout_us s = ground (
      arith,
      poll_loop-Keeps poll_limit (poll_deadline ((recorded v).uptime_ns s.world) timeout_us) 0 0 s,
    )
