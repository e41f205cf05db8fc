-- ===== src/NiUsb/Wire.antt =====
-- NIUSBTransport.cpp, the helpers at its top, and ni_usb_protocol.h: timeout codes, padding, the
-- status block, error codes. A buffer under construction is the list of its bytes.
use darwin_gpib.Prelude.{
  ℕ, zero, suc, ◌+◌, ◌-◌, ◌*◌, ◌/◌, ◌%◌, ◌^◌, Bool, List, [], ◌∷◌, ◌++◌, ◌==◌, ◌||◌, if◌then◌else◌,
  leb, length, get_or,
}
use darwin_gpib.Transport.Rc

abbrev pub term_id : ℕ
term_id = 0x04

abbrev pub reg_read_id : ℕ
reg_read_id = 0x08

abbrev pub reg_write_id : ℕ
reg_write_id = 0x09

abbrev pub data_id : ℕ
data_id = 0x36

abbrev pub extended_data_id : ℕ
extended_data_id = 0x37

abbrev pub status_id : ℕ
status_id = 0x38

abbrev pub register_data_id : ℕ
register_data_id = 0x34

-- The board timeout codes of the adapter.
unfoldable pub ni_timeout_code : ℕ → ℕ
ni_timeout_code usec =
    if (usec == 0xffff_ffff) || (usec == 0)
    then 0xf0
    else if leb usec 10
    then 0xf1
    else if leb usec 30
    then 0xf2
    else if leb usec 100
    then 0xf3
    else if leb usec 300
    then 0xf4
    else if leb usec 1000
    then 0xf5
    else if leb usec 3000
    then 0xf6
    else if leb usec 10000
    then 0xf7
    else if leb usec 30000
    then 0xf8
    else if leb usec 100000
    then 0xf9
    else if leb usec 300000
    then 0xfa
    else if leb usec 1000000
    then 0xfb
    else if leb usec 3000000
    then 0xfc
    else if leb usec 10000000
    then 0xfd
    else if leb usec 30000000
    then 0xfe
    else if leb usec 100000000
    then 0xff
    else if leb usec 300000000
    then 0x01
    else 0x02

unfoldable pub append_termination : List ℕ → List ℕ
append_termination buf = buf ++ term_id ∷ 0 ∷ 0 ∷ 0 ∷ []

-- The rounds of `while (i % boundary) buf[i++] = 0x00;`; `boundary` of them are enough.
unfoldable pub pad_loop : ℕ → ℕ → List ℕ → List ℕ
pad_loop zero boundary buf = buf
pad_loop (suc fuel) boundary buf =
    let padded = pad_loop fuel boundary (buf ++ 0 ∷ []) in
    if length buf % boundary == 0 then buf else padded

unfoldable pub pad_to_boundary : List ℕ → ℕ → List ℕ
unfolding pad_loop
pad_to_boundary buf boundary = pad_loop boundary boundary buf

pub record StatusBlock : Type 0 where
  pub id : ℕ
  pub ibsta : ℕ
  pub error_code : ℕ
  pub count : ℕ

-- `(uint16_t)~x` and `(uint16_t)(~x + 1)`, for x below 2^16.
abbrev pub not16 : ℕ → ℕ
not16 x = 2 ^ 16 - 1 - x

abbrev pub neg16 : ℕ → ℕ
neg16 x = (not16 x + 1) % 2 ^ 16

-- `ibsta` is big-endian, the count little-endian and negated.
unfoldable pub parse_status_block : List ℕ → StatusBlock
parse_status_block buf = record {
  id = get_or buf 0 0;
  ibsta = get_or buf 1 0 * 256 + get_or buf 2 0;
  error_code = get_or buf 3 0;
  count = neg16 (get_or buf 4 0 + get_or buf 5 0 * 256);
}

unfoldable pub map_ni_error : ℕ → ℕ
map_ni_error code =
    if code == 0
    then Rc.success
    else if code == 1
    then Rc.err_aborted
    else if code == 10
    then Rc.err_timeout
    else if code == 8
    then Rc.err_no_listener
    else if code == 5
    then Rc.err_no_listener
    else Rc.err_io

-- `(uint16_t)~((uint16_t)(len - 1))`, for len at least 1.
abbrev pub complement : ℕ → ℕ
complement len = not16 ((len - 1) % 2 ^ 16)

-- `pad + terminator`, as every packet ends.
unfoldable pub framed : List ℕ → List ℕ
framed body = append_termination (pad_to_boundary body 4)

-- `sendCommandBytes`: the packet for at most 16 command bytes.
abbrev pub command_body : List ℕ → List ℕ
command_body cmds = 0x0c ∷ (complement (length cmds) % 256) ∷ 0 ∷ ni_timeout_code 3000000 ∷ cmds

unfoldable pub command_packet : List ℕ → List ℕ
command_packet cmds = framed (command_body cmds)

-- `writeData`: the packet for at most 4080 data bytes.
abbrev pub write_body : List ℕ → Bool → ℕ → List ℕ
write_body buf send_eoi timeout_us =
    0x0d
    ∷ (complement (length buf) % 256)
    ∷ (complement (length buf) / 256 % 256)
    ∷ ni_timeout_code timeout_us
    ∷ 0
    ∷ 0
    ∷ (if send_eoi then 0x08 else 0)
    ∷ 0
    ∷ buf

unfoldable pub write_packet : List ℕ → Bool → ℕ → List ℕ
write_packet buf send_eoi timeout_us = framed (write_body buf send_eoi timeout_us)

-- `NEC_TO_TNT`.
unfoldable pub nec_to_tnt : ℕ → ℕ
nec_to_tnt reg = reg * 2 % 256

abbrev pub auxmr : ℕ
auxmr = 0x05

-- `readData`: the request, with the two auxiliary commands AUX_HLDI and AUX_CLEAR_END.
abbrev pub read_body : ℕ → ℕ → ℕ → ℕ → List ℕ
read_body request_count eos_char eos_flags timeout_us =
    0x0a
    ∷ (eos_flags / 256 % 256)
    ∷ eos_char
    ∷ ni_timeout_code timeout_us
    ∷ (complement request_count % 256)
    ∷ (complement request_count / 256 % 256)
    ∷ 0
    ∷ 0
    ∷ reg_write_id
    ∷ 2
    ∷ 0
    ∷ 1
    ∷ nec_to_tnt auxmr
    ∷ 0x05
    ∷ 1
    ∷ nec_to_tnt auxmr
    ∷ 0x04
    ∷ []

unfoldable pub read_packet : ℕ → ℕ → ℕ → ℕ → List ℕ
read_packet request_count eos_char eos_flags timeout_us =
    framed (read_body request_count eos_char eos_flags timeout_us)
