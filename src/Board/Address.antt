-- ===== src/Board/Address.antt =====
-- GPIBBoard.cpp: the address bytes, `addressForWrite` and `addressForRead`.
use darwin_gpib.Prelude.{ℕ, Bool, true, false, List, [], ◌∷◌, bit_and, bit_or, ◌==◌, if◌then◌else◌}
use darwin_gpib.Prelude.Int.{ℤ, is_neg, to_u8}
pub mod Laws
use darwin_gpib.Gpib.Cmd
use darwin_gpib.Gpib.Iberr
use darwin_gpib.Gpib.Sta
use darwin_gpib.Transport.{Transport}
use darwin_gpib.Transport.Rc
use darwin_gpib.Board.{Board, Descriptor}
use darwin_gpib.Board.Monad.{M, Reply, ◌>>=◌, pure, call, get_board}

unfoldable pub mla_byte : ℕ → ℕ
mla_byte pad = bit_or (bit_and pad 0x1f) Cmd.lad

unfoldable pub mta_byte : ℕ → ℕ
mta_byte pad = bit_or (bit_and pad 0x1f) Cmd.tad

unfoldable pub msa_byte : ℤ → ℕ
msa_byte sad = bit_or (bit_and (to_u8 sad) 0x1f) Cmd.sad

-- `if (sad >= 0) cmds[n++] = MSA_byte(sad);` with the bytes that follow it.
unfoldable pub then_secondary : ℤ → List ℕ → List ℕ
then_secondary sad rest = if is_neg sad then rest else (msa_byte sad ∷ rest)

-- The bytes that make the board talk and the device listen.
unfoldable pub write_addressing : Board → Descriptor → List ℕ
write_addressing b d =
    Cmd.unl ∷ Cmd.unt ∷ mta_byte b.board_pad ∷ mla_byte d.pad ∷ then_secondary d.sad []

-- The bytes that make the device talk and the board listen.
unfoldable pub read_addressing : Board → Descriptor → List ℕ
read_addressing b d =
    Cmd.unl ∷ Cmd.unt ∷ mla_byte b.board_pad ∷ mta_byte d.pad ∷ then_secondary d.sad []

-- The outcome of an addressing sequence: a status of 0 is success, and leaves `*outIberr` to the
-- caller, which always writes it.
unfoldable pub addressed : ℕ → Reply
addressed rc =
    if rc == 0
    then record { sta = 0; iberr = 0 }
    else if rc == Rc.err_timeout
    then record { sta = bit_or Sta.err Sta.timo; iberr = Iberr.eabo }
    else record { sta = Sta.err; iberr = Iberr.enol }

-- `addrRc & ERR`.
abbrev pub failed : Reply → Bool
failed r = if bit_and r.sta Sta.err == 0 then false else true

module _ {W : Type 0} (t : Transport W) (d : Descriptor) where
  unfoldable pub address_for_write : M W Reply
  unfolding addressed write_addressing
  address_for_write = do
    b ← get_board
    rc ← call (t.send_command_bytes (write_addressing b d))
    pure (addressed rc)

  unfoldable pub address_for_read : M W Reply
  unfolding addressed read_addressing
  address_for_read = do
    b ← get_board
    rc ← call (t.send_command_bytes (read_addressing b d))
    pure (addressed rc)
