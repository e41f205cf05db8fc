-- ===== src/Agilent/Exchange.antt =====
-- Agilent82357Transport.cpp: `bulkOut` to `writeReg`. A packet goes out and its response comes back.
use darwin_gpib.Prelude.{
  ℕ, ◌+◌, Bool, List, [], ◌∷◌, ◌==◌, not, if◌then◌else◌, ltb, length, get_or, min, take, drop,
}
use darwin_gpib.Transport.Rc
use darwin_gpib.Usb.{Kern, Device, Incoming, map_io_return, U, ◌>>=◌, pure, and_then, Reply}
use darwin_gpib.Agilent.Wire.{
  RegPair, map_agilent_fw_error, ms_from_usec, write_regs_packet, read_regs_packet,
}

-- The pointers that an exchange tests: each pipe with its buffer, and the device with its owner.
pub record Ends : Type 0 where
  pub out_ready : Bool
  pub in_ready : Bool
  pub device_ready : Bool

-- The pipes by number.
abbrev pub bulk_out_pipe : ℕ
bulk_out_pipe = 0

abbrev pub bulk_in_pipe : ℕ
bulk_in_pipe = 1

abbrev pub bulk_buffer_size : ℕ
bulk_buffer_size = 4096

-- `kControlTimeoutMs` is the device's; `kRegOpTimeoutMs * 1000`.
abbrev pub reg_op_timeout_us : ℕ
reg_op_timeout_us = 1000000

-- The verdict on the two bytes that the abort request returns. A request that succeeds with fewer
-- bytes is mapped like any success.
unfoldable pub abort_verdict : Incoming → Kern → ℕ
abort_verdict r mapped = elim r.code [
  | Kern.success ↦ if ltb (length r.bytes) 2 then Rc.success else elim mapped [
    | Kern.success ↦
        if get_or r.bytes 0 0 == 0x5f then map_agilent_fw_error (get_or r.bytes 1 0) else Rc.err_io
    | k ↦ Rc.success
  ]
  | k ↦ map_io_return k
]

-- The verdicts on the responses to register writes and reads.
unfoldable pub write_regs_verdict : List ℕ → ℕ
write_regs_verdict resp =
    if ltb (length resp) 2
    then Rc.err_io
    else if get_or resp 0 0 == 0xfb
    then map_agilent_fw_error (get_or resp 1 0)
    else Rc.err_io

unfoldable pub read_regs_verdict : ℕ → List ℕ → Reply
read_regs_verdict count resp =
    if ltb (length resp) (2 + count)
    then record { rc = Rc.err_io; bytes = [] }
    else if not (get_or resp 0 0 == 0xfa)
    then record { rc = Rc.err_io; bytes = [] }
    else if not (get_or resp 1 0 == 0)
    then record { rc = map_agilent_fw_error (get_or resp 1 0); bytes = [] }
    else record { rc = Rc.success; bytes = take count (drop 2 resp) }

module _ {W : Type 0} (v : Device W) (e : Ends) where
  unfoldable pub bulk_out : List ℕ → ℕ → U W ℕ
  bulk_out bytes timeout_us =
      if e.out_ready
      then (if ltb bulk_buffer_size (length bytes) then pure Rc.err_io else (do
        mapped ← v.map_buffer
        let sent = do
          r ← v.io_out bulk_out_pipe bytes (ms_from_usec timeout_us)
          pure (elim r.code [
            | Kern.success ↦ if r.count == length bytes then Rc.success else Rc.err_io
            | k ↦ map_io_return k
          ])
        elim mapped [ Kern.success ↦ sent | k ↦ pure (map_io_return k) ]))
      else pure Rc.err_not_ready

  delivered : ℕ → ℕ → U W Reply
  delivered capacity timeout_us = do
    r ← v.io_in bulk_in_pipe capacity (ms_from_usec timeout_us)
    let copied = do
      mapped ← v.map_buffer
      pure (elim mapped [
        | Kern.success ↦ record { rc = Rc.success; bytes = r.bytes }
        | k ↦ record { rc = map_io_return k; bytes = [] }
      ])
    elim r.code [ Kern.success ↦ copied | k ↦ pure (record { rc = map_io_return k; bytes = [] }) ]

  unfoldable pub bulk_in : ℕ → ℕ → U W Reply
  unfolding delivered
  bulk_in capacity timeout_us =
      if e.in_ready
      then delivered (min capacity bulk_buffer_size) timeout_us
      else pure (record { rc = Rc.err_not_ready; bytes = [] })

  -- The reply is only mapped after a request that succeeded with both bytes.
  aborted : Bool → U W ℕ
  unfolding abort_verdict
  aborted flush = do
    r ← v.request_in 0x04 0xa0 (if flush then 1 else 0) 2
    let checked = do mapped ← v.map_buffer; pure (abort_verdict r mapped)
    elim r.code [
      | Kern.success ↦
          if ltb (length r.bytes) 2 then pure (abort_verdict r Kern.success) else checked
      | k ↦ pure (map_io_return k)
    ]

  unfoldable pub send_abort : Bool → U W ℕ
  unfolding aborted
  send_abort flush =
      if e.device_ready
      then (do
        made ← v.create_buffer 2
        elim made [ Kern.success ↦ aborted flush | k ↦ pure (map_io_return k) ])
      else pure Rc.err_not_ready

  unfoldable pub write_registers : List RegPair → U W ℕ
  unfolding write_regs_verdict
  write_registers writes =
      if length writes == 0
      then pure Rc.success
      else if ltb 31 (length writes)
      then pure Rc.err_io
      else (do
        rc ← bulk_out (write_regs_packet writes) reg_op_timeout_us
        and_then rc (do
          r ← bulk_in 0x20 reg_op_timeout_us
          pure (if r.rc == Rc.success then write_regs_verdict r.bytes else r.rc)))

  -- The values of the registers, in order.
  unfoldable pub read_registers : List ℕ → U W Reply
  unfolding read_regs_verdict
  read_registers addresses =
      if length addresses == 0
      then pure (record { rc = Rc.success; bytes = [] })
      else if ltb 62 (length addresses)
      then pure (record { rc = Rc.err_io; bytes = [] })
      else (do
        rc ← bulk_out (read_regs_packet addresses) reg_op_timeout_us
        let answer = do
          r ← bulk_in 0x40 10000000
          pure (
              if r.rc == Rc.success
              then read_regs_verdict (length addresses) r.bytes
              else record { rc = r.rc; bytes = [] })
        if rc == Rc.success then answer else pure (record { rc = rc; bytes = [] }))

  unfoldable pub write_reg : ℕ → ℕ → U W ℕ
  write_reg address value = write_registers (record { address = address; value = value } ∷ [])
