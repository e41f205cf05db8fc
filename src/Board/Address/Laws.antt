-- ===== src/Board/Address/Laws.antt =====
-- The address bytes and addressing sequences of GPIBBoard.cpp, read by the bus of IEEE 488.1.
use darwin_gpib.Prelude.{
  ℕ, ◌+◌, ◌%◌, ◌<◌, ◌≡◌, ◌↔◌, ◌⊎◌, inl, inr, Bool-cases, ◌∙◌, arith, true, List, [], ◌∷◌, none,
  some, if◌then◌else◌,
}
use darwin_gpib.Prelude.Bits.{bit_and_1f, bit_or_groups}
use darwin_gpib.Prelude.Int.{ℤ, is_neg, to_u8}
use darwin_gpib.Gpib.Cmd
use darwin_gpib.Gpib.{mla, gpib_address_restrict}
use darwin_gpib.Bus.{Bus, Party, bus_run, plain, talk, listen, neither, Pending}
use darwin_gpib.Bus.Laws.{
  run_nil, run_unl, run_unt, run_listen, run_talk, run_listen_extended, run_talk_extended,
}
use darwin_gpib.Board.{Board, Descriptor}
use darwin_gpib.Board.Address.{
  mla_byte, mta_byte, msa_byte, then_secondary, write_addressing, read_addressing,
}

mla_byte_lem : (pad : ℕ) → mla_byte pad ≡ pad % 32 + 32
unfolding mla_byte
mla_byte_lem pad = rw (bit_and_1f pad) ((bit_or_groups (pad % 32) (omega arith)).0)

mta_byte_lem : (pad : ℕ) → mta_byte pad ≡ pad % 32 + 64
unfolding mta_byte
mta_byte_lem pad = rw (bit_and_1f pad) ((bit_or_groups (pad % 32) (omega arith)).1)

msa_byte_lem : (sad : ℤ) → msa_byte sad ≡ to_u8 sad % 32 + 96
unfolding msa_byte
msa_byte_lem sad = rw (bit_and_1f (to_u8 sad)) ((bit_or_groups (to_u8 sad % 32) (omega arith)).2)

-- The address that a descriptor's settings stand for.
abbrev pub party : ℕ → ℤ → Party
party pad sad = record {
  primary = pad;
  secondary = if is_neg sad then none else some (to_u8 sad % 32);
}

-- A device address in the range 0..30 of the standard, with a secondary address in the same range
-- or none.
pub record IsAddress (pad : ℕ) (sad : ℤ) : Type 0 where
  pub primary_range : pad < 31
  pub secondary_range : (is_neg sad ≡ true) ⊎ (to_u8 sad % 32 < 31)

-- The board's listen-address byte is that of the header's `MLA` exactly when the address is not 31
-- modulo 32, and at 31 it is the message UNL.
pub mla_byte-eq-mla :
    (pad : ℕ)
    → ((mla_byte pad ≡ Cmd.unl) ↔ (pad % 32 ≡ 31)) × ((mla_byte pad ≡ mla pad) ↔ (pad % 32 < 31))
unfolding mla gpib_address_restrict
mla_byte-eq-mla pad =
    ground (arith, mla_byte_lem pad, bit_and_1f pad, (bit_or_groups (pad % 32) (omega arith)).0)

-- What a secondary address that follows would qualify: nothing, once there was one.
abbrev pub still : Pending → ℤ → Pending
still p sad = if is_neg sad then p else neither

module _ (u : Bus) (pad : ℕ) (sad : ℤ) (rest : List ℕ) (v : IsAddress pad sad) where
  -- A device's listen address, with its secondary address if it has one, makes it one more listener.
  pub run-listener :
      bus_run u (mla_byte pad ∷ then_secondary sad rest)
      ≡ bus_run
          (record u { listeners = party pad sad ∷ u.listeners; pending = still listen sad })
          rest
  unfolding then_secondary
  run-listener =
      let byte : mla_byte pad ≡ pad + 32 = omega (arith, mla_byte_lem pad) in
      elim (Bool-cases (is_neg sad)) [
        | inl neg ↦ rw (neg, byte) (run_listen u rest pad v.primary_range)
        | inr nonneg ↦
            rw (nonneg, byte, msa_byte_lem sad)
              (run_listen_extended u rest pad (to_u8 sad % 32) v.primary_range (ground arith))
      ]

  pub run-talker :
      bus_run u (mta_byte pad ∷ then_secondary sad rest)
      ≡ bus_run (record u { talker = some (party pad sad); pending = still talk sad }) rest
  unfolding then_secondary
  run-talker =
      let byte : mta_byte pad ≡ pad + 64 = omega (arith, mta_byte_lem pad) in
      elim (Bool-cases (is_neg sad)) [
        | inl neg ↦ rw (neg, byte) (run_talk u rest pad v.primary_range)
        | inr nonneg ↦
            rw (nonneg, byte, msa_byte_lem sad)
              (run_talk_extended u rest pad (to_u8 sad % 32) v.primary_range (ground arith))
      ]

-- The board itself has no secondary address on the bus.
module _ (u : Bus) (b : Board) (rest : List ℕ) (h : b.board_pad < 31) where
  run_board_talks :
      bus_run u (mta_byte b.board_pad ∷ rest)
      ≡ bus_run (record u { talker = some (plain b.board_pad); pending = talk }) rest
  run_board_talks =
      let byte : mta_byte b.board_pad ≡ b.board_pad + 64 =
        omega (arith, mta_byte_lem b.board_pad) in
      rw byte (run_talk u rest b.board_pad h)

  pub run_board_listens :
      bus_run u (mla_byte b.board_pad ∷ rest)
      ≡ bus_run (record u { listeners = plain b.board_pad ∷ u.listeners; pending = listen }) rest
  run_board_listens =
      let byte : mla_byte b.board_pad ≡ b.board_pad + 32 =
        omega (arith, mla_byte_lem b.board_pad) in
      rw byte (run_listen u rest b.board_pad h)

module _ (u : Bus) (b : Board) (d : Descriptor) (h : b.board_pad < 31)
    (v : IsAddress d.pad d.sad) where
  -- For a device address in 0..30 and a board address below 31, whatever the bus was doing: the bytes of
  -- `addressForWrite` leave the board talking to exactly the
  -- device's address, and touch neither serial polling nor the instruments.
  pub bus_run-write_addressing : bus_run u (write_addressing b d) ≡ record u {
    talker = some (plain b.board_pad);
    listeners = party d.pad d.sad ∷ [];
    pending = still listen d.sad;
  }
  unfolding write_addressing
  bus_run-write_addressing =
      run_unl u _
      ∙ run_unt _ _
      ∙ run_board_talks _ b _ h
      ∙ run-listener _ d.pad d.sad [] v
      ∙ run_nil _

  -- For a device address in 0..30 and a board address below 31, whatever the bus was doing: the bytes of
  -- `addressForRead` leave exactly the device's address talking to the board alone.
  pub bus_run-read_addressing : bus_run u (read_addressing b d) ≡ record u {
    talker = some (party d.pad d.sad);
    listeners = plain b.board_pad ∷ [];
    pending = still talk d.sad;
  }
  unfolding read_addressing
  bus_run-read_addressing =
      run_unl u _
      ∙ run_unt _ _
      ∙ run_board_listens _ b _ h
      ∙ run-talker _ d.pad d.sad [] v
      ∙ run_nil _
