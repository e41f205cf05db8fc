-- ===== src/Kusb/Reading.antt =====
-- KUSB488BTransport.cpp, `readDataViaFirmware`. Its loop takes fuel; `none` says that the fuel ran out.
use darwin_gpib.Prelude.{
  ℕ, zero, suc, ◌-◌, Bool, true, false, List, [], ◌++◌, Option, none, some, ◌==◌, ◌&&◌, not,
  if◌then◌else◌, ltb, leb, length, get_or, min, bit_and,
}
use darwin_gpib.Gpib.Config
use darwin_gpib.Transport.{Received}
use darwin_gpib.Transport.Rc
use darwin_gpib.Usb.{Device, ◌>>=◌, pure, le32_at}
use darwin_gpib.Kusb.{Ends, K, dev_}
use darwin_gpib.Kusb.Wire.{req_status, req_begin_read, state_busy, state_done, failed_state}
use darwin_gpib.Kusb.Control.{control_in, bulk_in, begin_transfer, recover_firmware_engine}

-- A read that ended with nothing.
abbrev pub no_bytes : ℕ → Received
no_bytes rc = record { rc = rc; bytes = []; count = 0; end_flag = 0 }

-- The variables of the loop: what has come, whether to ask for more, the status requests that failed in
-- a row.
pub record Progress : Type 0 where
  pub bytes : List ℕ
  pub need_data : Bool
  pub glitches : ℕ

pub data Round : Type 0 where
  ends : Received → Round
  goes_on : Progress → Round

-- The end-of-string character that is sent; the flags are a byte, as the board passes them.
unfoldable pub read_index : ℕ → ℕ → ℕ
read_index eos_char eos_flags = if bit_and eos_flags Config.reos == 0 then 10 else eos_char

-- After the loop: the adapter's count, no more than was asked for and than came.
unfoldable pub read_done : ℕ → List ℕ → List ℕ → Received
read_done request bytes status = record {
  rc = Rc.success;
  bytes = bytes;
  count = min (min (le32_at status 2) request) (length bytes);
  end_flag = if get_or status 6 0 == 1 then 1 else 0;
}

module _ {W : Type 0} (v : Device W) (e : Ends) (request timeout_us : ℕ) where
  stops : Received → K W Round
  stops r = do recovered ← recover_firmware_engine v e; pure (Round.ends r)

  -- A status block of at least seven bytes.
  judged : List ℕ → List ℕ → K W Round
  unfolding stops
  judged bytes status =
      if get_or status 0 0 == state_done
      then pure (Round.ends (read_done request bytes status))
      else if not (get_or status 0 0 == state_busy)
      then stops (no_bytes (failed_state status))
      else if leb request (length bytes)
      then stops (read_done request bytes status)
      else pure (Round.goes_on (record { bytes = bytes; need_data = true; glitches = 0 }))

  -- Five failures in a row are waited for.
  glitched : List ℕ → ℕ → K W Round
  unfolding stops
  glitched bytes glitches =
      if ltb glitches 5
      then (do
        slept ← dev_ (v.sleep_ms 2)
        pure (Round.goes_on (record { bytes = bytes; need_data = false; glitches = suc glitches })))
      else stops (no_bytes Rc.err_io)

  unfoldable pub asked : List ℕ → ℕ → K W Round
  unfolding judged glitched
  asked bytes glitches = do
    r ← control_in v e req_status 0 0 0x0b
    if (r.rc == Rc.success) && leb 7 (length r.bytes)
        then judged bytes r.bytes
        else glitched bytes glitches

  -- More bytes, if they are due, then the status.
  unfoldable pub read_round : Progress → K W Round
  unfolding stops
  read_round g =
      if g.need_data && ltb (length g.bytes) request
      then (do
        r ← bulk_in v e (request - length g.bytes) timeout_us
        if r.rc == Rc.success then asked (g.bytes ++ r.bytes) g.glitches else stops (no_bytes r.rc))
      else asked g.bytes g.glitches

  unfoldable pub read_loop : ℕ → Progress → K W (Option Received)
  read_loop zero g s = (none, s)
  read_loop (suc fuel) g s =
      let (r, s') = read_round g s in
      elim r [ ends out ↦ (some out, s') | goes_on g' ↦ read_loop fuel g' s' ]

module _ {W : Type 0} (v : Device W) (e : Ends) (fuel : ℕ) where
  unfoldable pub read_data_via_firmware : ℕ → ℕ → ℕ → ℕ → K W (Option Received)
  read_data_via_firmware request_count eos_char eos_flags timeout_us =
      if request_count == 0 then pure (some (no_bytes Rc.success)) else (do
        armed ←
            begin_transfer v e req_begin_read 0x0100 (read_index eos_char eos_flags) request_count
              timeout_us
        if armed == Rc.success
            then read_loop v e request_count timeout_us fuel
                (record { bytes = []; need_data = true; glitches = 0 })
            else pure (some (no_bytes armed)))
