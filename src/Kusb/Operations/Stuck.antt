-- ===== src/Kusb/Operations/Stuck.antt =====
-- `readDataViaFirmware` on a device that stays busy and brings nothing.
use darwin_gpib.Prelude.{
  ℕ, zero, suc, ◌≤◌, ◌≡◌, refl, arith, true, List, [], none, length, get_or, ◌&&◌, min, take_all,
}
use darwin_gpib.Usb.{Kern, Device}
use darwin_gpib.Kusb.{Session, Ends}
use darwin_gpib.Kusb.Wire.{req_status, state_busy, ms_from_usec}
use darwin_gpib.Kusb.Control.{control_in, bulk_in, data_in_pipe, bulk_buffer_size}
use darwin_gpib.Kusb.Reading.{Progress, Round, asked, read_round, read_loop}

-- The device answers every status request with `status`, and every bulk-in transfer with no bytes.
abbrev pub Stuck : {W : Type 0} → Device W → List ℕ → Type 0
Stuck {W} v status =
    ((w : W) → (v.map_buffer w).0 ≡ Kern.success)
    × ((pipe capacity ms : ℕ) (w : W)
        → (v.io_in pipe capacity ms w).0 ≡ record { code = Kern.success; bytes = [] })
    × ((w : W)
        → (v.request_in req_status 0 0 0x0b w).0 ≡ record { code = Kern.success; bytes = status })

-- The endpoints that a read tests are there.
abbrev pub CanRead : Ends → Type 0
CanRead e = ((e.device_ready && e.ctrl_ready) ≡ true) × ((e.data_in_ready && e.in_buffer) ≡ true)

abbrev pub waiting : Progress
waiting = record { bytes = []; need_data = true; glitches = 0 }

module _ {W : Type 0} (v : Device W) (e : Ends) (request timeout_us : ℕ) where
  busy_status :
      (status : List ℕ) (s : Session W)
      → Stuck v status
      → CanRead e
      → length status ≡ 11
      → ((control_in v e req_status 0 0 0x0b s).0.rc ≡ 0)
        × ((control_in v e req_status 0 0 0x0b s).0.bytes ≡ status)
  unfolding control_in
  busy_status status s stuck ready eleven = ground (
    arith,
    stuck.0 (v.request_in req_status 0 0 0x0b s.world).1,
    stuck.2 s.world,
    take_all 0x0b status,
  )

  empty_packet :
      (status : List ℕ) (capacity : ℕ) (s : Session W)
      → Stuck v status
      → CanRead e
      → ((bulk_in v e capacity timeout_us s).0.rc ≡ 0)
        × ((bulk_in v e capacity timeout_us s).0.bytes ≡ [])
  unfolding bulk_in
  empty_packet status capacity s stuck ready = ground (
    arith,
    stuck.0
        (v.io_in data_in_pipe (min capacity bulk_buffer_size) (ms_from_usec timeout_us) s.world).1,
    stuck.1 data_in_pipe (min capacity bulk_buffer_size) (ms_from_usec timeout_us) s.world,
  )

  busy_round :
      (status : List ℕ) (s : Session W)
      → Stuck v status
      → CanRead e
      → length status ≡ 11
      → get_or status 0 0 ≡ state_busy
      → 1 ≤ request
      → (read_round v e request timeout_us waiting s).0 ≡ Round.goes_on waiting
  unfolding read_round asked
  busy_round status s stuck ready eleven busy some_bytes =
      let r = bulk_in v e request timeout_us s in
      ground (
        arith,
        empty_packet status request s stuck ready,
        busy_status status r.1 stuck ready eleven,
      )

  -- A device that is there with its data-in pipe and its buffers, whose buffers can be mapped, that answers
  -- every status request with the same 11 bytes, which say BUSY, and every bulk-in transfer with success
  -- and no bytes, keeps the loop of a read of at least one byte, begun as the source begins it,
  -- going for ever: no number of rounds ends it, whatever the time limit.
  pub read_loop_forever :
      (status : List ℕ) (fuel : ℕ) (s : Session W)
      → Stuck v status
      → CanRead e
      → length status ≡ 11
      → get_or status 0 0 ≡ state_busy
      → 1 ≤ request
      → (read_loop v e request timeout_us fuel waiting s).0 ≡ none
  unfolding read_loop
  read_loop_forever status zero s stuck ready eleven busy some_bytes = refl
  read_loop_forever status (suc fuel) s stuck ready eleven busy some_bytes =
      let r = read_round v e request timeout_us waiting s in
      rw (read_loop, busy_round status s stuck ready eleven busy some_bytes)
        (read_loop_forever status fuel r.1 stuck ready eleven busy some_bytes)
