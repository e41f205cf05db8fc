-- ===== src/Agilent/Wire.antt =====
-- Agilent82357Transport.cpp: the helpers at its top, the packets that it builds and the reading of bus
-- lines; the numbers are those of agilent_82357_protocol.h. A register pair is an address and a value.
use darwin_gpib.Prelude.{
  ℕ, ◌+◌, ◌-◌, ◌*◌, ◌/◌, ◌%◌, ◌^◌, Bool, List, [], ◌∷◌, ◌++◌, ◌==◌, ◌||◌, if◌then◌else◌, ltb,
  length, take, get_or, bit_and, bit_or,
}
use darwin_gpib.Transport.{Received}
use darwin_gpib.Transport.Rc
use darwin_gpib.Usb.{le32_bytes}

-- `mapAgilentFwError`.
unfoldable pub map_agilent_fw_error : ℕ → ℕ
map_agilent_fw_error code =
    if code == 0
    then Rc.success
    else if (code == 6) || (code == 7)
    then Rc.err_aborted
    else Rc.err_io

-- `msFromUsec`: rounded up, in 32 bits, 0 for no timeout.
unfoldable pub ms_from_usec : ℕ → ℕ
ms_from_usec timeout_us =
    if timeout_us == 0xffff_ffff
    then 0
    else (let ms : ℕ = (timeout_us + 999) % 2 ^ 32 / 1000 in if ms == 0 then 1 else ms)

-- `nanosToFastTalker`: the code, and the time that it stands for.
unfoldable pub nanos_to_fast_talker : ℕ → ℕ × ℕ
nanos_to_fast_talker nanosec =
    let bits : ℕ = (nanosec + 10) / 21 in
    let low : ℕ = if ltb bits 0x11 then 0x11 else bits in
    let code : ℕ = if ltb 0x72 low then 0x72 else low in (code, code * 21)

pub record RegPair : Type 0 where
  pub address : ℕ
  pub value : ℕ

abbrev pub pair_bytes : List RegPair → List ℕ
pair_bytes [] = []
pair_bytes (r ∷ rs) = r.address ∷ r.value ∷ pair_bytes rs

-- AGILENT_CMD_WR_REGS and AGILENT_CMD_RD_REGS.
unfoldable pub write_regs_packet : List RegPair → List ℕ
write_regs_packet writes = 0x04 ∷ length writes ∷ pair_bytes writes

unfoldable pub read_regs_packet : List ℕ → List ℕ
read_regs_packet addresses = 0x05 ∷ length addresses ∷ addresses

-- `kBulkBufferSize - 16`.
abbrev pub max_payload : ℕ
max_payload = 4080

-- AGILENT_CMD_WRITE with command bytes: NO_ADDRESS, ATN and the two fast talker bits.
unfoldable pub command_packet : List ℕ → List ℕ
command_packet cmds = 0x01 ∷ 0 ∷ 0 ∷ 0x1e ∷ (le32_bytes (length cmds) ++ cmds)

-- AGILENT_CMD_WRITE with data bytes.
unfoldable pub write_packet : List ℕ → Bool → List ℕ
write_packet buf send_eoi =
    0x01 ∷ 0 ∷ 0 ∷ (if send_eoi then 0x0b else 0x0a) ∷ (le32_bytes (length buf) ++ buf)

-- AGILENT_CMD_READ: NO_ADDRESS and END_ON_EOI, whatever the end-of-string flags are.
unfoldable pub read_packet : ℕ → ℕ → List ℕ
read_packet request_count eos_char =
    0x03 ∷ 0 ∷ 0 ∷ 0x03 ∷ (le32_bytes request_count ++ eos_char ∷ [])

-- The end of `readData`: the payload and, in the last byte, the trailing flags EOI and EOS.
unfoldable pub read_result : ℕ → List ℕ → Received
read_result request_count resp =
    let kept = take (request_count + 1) resp in
    if length kept == 0
    then record { rc = Rc.success; bytes = []; count = 0; end_flag = 0 }
    else record {
      rc = Rc.success;
      bytes = take (length kept - 1) kept;
      count = length kept - 1;
      end_flag = if bit_and (get_or kept (length kept - 1) 0) 0x09 == 0 then 0 else 1;
    }

-- A bus line in `readBusLines`: its bit is set when the register's bit is clear.
abbrev pub line_of : ℕ → ℕ → ℕ → ℕ → ℕ
line_of value bit line v = if bit_and value bit == 0 then bit_or v line else v

-- The lines from the bus status register: REN, IFC, SRQ, EOI, NRFD, NDAC, DAV, ATN.
unfoldable pub bsr_lines : ℕ → ℕ
bsr_lines value = line_of value 0x80 0x4000 (
    line_of value 0x40 0x0100 (
      line_of value 0x20 0x0200 (
        line_of value 0x10 0x0400 (
          line_of value 0x08 0x8000 (
            line_of value 0x04 0x2000
              (line_of value 0x02 0x0800 (line_of value 0x01 0x1000 0x00ff)))))))
