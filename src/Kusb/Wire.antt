-- ===== src/Kusb/Wire.antt =====
-- KUSB488BTransport.cpp, the helpers at its top and the blocks that its requests carry; the numbers are
-- those of kusb_488b_protocol.h.
use darwin_gpib.Prelude.{
  ℕ, ◌+◌, ◌*◌, ◌/◌, ◌%◌, List, ◌∷◌, ◌==◌, ◌&&◌, if◌then◌else◌, ltb, leb, get_or, bit_and, bit_or,
  not,
}
use darwin_gpib.Transport.Rc
use darwin_gpib.Usb.{le32_bytes, le32_at}

-- Requests: KUSB_REQ_X is `req_x`.
abbrev pub req_status : ℕ
req_status = 0xb0

abbrev pub req_cmdblock : ℕ
req_cmdblock = 0xb1

abbrev pub req_begin_cmd : ℕ
req_begin_cmd = 0xb3

abbrev pub req_pulse_ifc : ℕ
req_pulse_ifc = 0xb4

abbrev pub req_gts : ℕ
req_gts = 0xb7

abbrev pub req_begin_write : ℕ
req_begin_write = 0xb9

abbrev pub req_begin_read : ℕ
req_begin_read = 0xba

abbrev pub req_abort : ℕ
req_abort = 0xbb

abbrev pub req_reg : ℕ
req_reg = 0xbd

-- KUSB_STATE_BUSY and KUSB_STATE_DONE.
abbrev pub state_busy : ℕ
state_busy = 1

abbrev pub state_done : ℕ
state_done = 2

-- `msFromUsec`.
unfoldable pub ms_from_usec : ℕ → ℕ
ms_from_usec timeout_us =
    if timeout_us == 0xffff_ffff
    then 0
    else (let ms : ℕ = timeout_us / 1000 in if not (timeout_us == 0) && (ms == 0) then 1 else ms)

-- `pollIterationsFor`: the rounds of a millisecond that a time limit is worth.
unfoldable pub poll_iterations_for : ℕ → ℕ
poll_iterations_for timeout_us =
    if timeout_us == 0xffff_ffff
    then 30000
    else (let ms : ℕ = timeout_us / 1000 in
        let floored : ℕ = if ltb ms 100 then 100 else ms in
        if ltb 30000 floored then 30000 else floored)

-- The block of `beginTransfer`: three bytes of milliseconds, a zero, four bytes of length.
unfoldable pub transfer_header : ℕ → ℕ → List ℕ
transfer_header ms size = (ms % 256) ∷ (ms / 256 % 256) ∷ (ms / 65536 % 256) ∷ 0 ∷ le32_bytes size

-- The count in a status block: two bytes, or four where the operation has them.
unfoldable pub status_count : ℕ → ℕ → List ℕ → ℕ
status_count status_len count_width buf =
    if (count_width == 4) && leb 6 status_len
    then le32_at buf 2
    else get_or buf 2 0 + get_or buf 3 0 * 256

-- The code for a transfer that ended in another state than DONE, from KUSB_ERR_ABORTED.
unfoldable pub failed_state : List ℕ → ℕ
failed_state buf = if get_or buf 1 0 == 5 then Rc.err_timeout else Rc.err_io

abbrev pub line_set : ℕ → ℕ → ℕ → ℕ → ℕ
line_set value bit line v = if bit_and value bit == 0 then v else bit_or v line

-- `readBusLines`: REN, IFC, SRQ, EOI, NRFD, NDAC, DAV, ATN, each set when its bit is.
unfoldable pub kusb_lines : ℕ → ℕ
kusb_lines value = line_set value 0x80 0x4000 (
    line_set value 0x40 0x0100 (
      line_set value 0x20 0x0200 (
        line_set value 0x10 0x0400 (
          line_set value 0x08 0x8000 (
            line_set value 0x04 0x2000
              (line_set value 0x02 0x0800 (line_set value 0x01 0x1000 0x00ff)))))))
