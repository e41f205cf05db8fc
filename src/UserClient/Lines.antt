-- ===== src/UserClient/Lines.antt =====
-- GPIBUserClient.cpp, `handleLineStatus`: the bus lines, or a diagnostic call by the tag in the handle.
use darwin_gpib.Prelude.{
  ℕ, ◌/◌, ◌%◌, ◌^◌, List, [], ◌∷◌, Option, ◌==◌, bit_or, bit_and, if◌then◌else◌,
}
use darwin_gpib.Transport.{Transport}
use darwin_gpib.Board.Monad.{M, ◌>>=◌, pure}
use darwin_gpib.Board.Recover.{
  soft_reset_diag, reset_device_diag, set_max_data_chunk_diag, read_raw_register_diag,
  write_raw_register_diag,
}
use darwin_gpib.Board.Command.{bus_line_status}
use darwin_gpib.UserClient.{Outcome, answered, word, with_input}

-- The report of a diagnostic call: bit 15 for success, the code as error code, CMPL as status.
unfoldable pub diagnosed : ℕ → ℕ → Outcome
diagnosed rc value = answered ((if rc == 0 then bit_or 0x8000 value else 0) ∷ 0x0100 ∷ rc ∷ 0 ∷ [])

module _ {W : Type 0} (t : Transport W) where
  read_lines : M W Outcome
  read_lines = do
    r ← bus_line_status t
    pure (answered (r.lines ∷ r.reply.sta ∷ r.reply.iberr ∷ 0 ∷ []))

  -- By the handle as a `uint32_t`.
  unfoldable pub line_status : ℕ → M W Outcome
  unfolding diagnosed read_lines
  line_status h =
      if h == 0x10000000
      then (do rc ← soft_reset_diag t; pure (diagnosed rc 0))
      else if h == 0x18000000
      then (do rc ← reset_device_diag t; pure (diagnosed rc 0))
      else if bit_and h 0xf0000000 == 0x50000000
      then (do rc ← set_max_data_chunk_diag t (h % 2 ^ 16); pure (diagnosed rc 0))
      else if bit_and h 0xf0000000 == 0x20000000
      then (do rc ← write_raw_register_diag t (h / 256 % 4096) (h % 256); pure (diagnosed rc 0))
      else if bit_and h 0xf0000000 == 0x40000000
      then (do a ← read_raw_register_diag t (h % 2 ^ 16); pure (diagnosed a.rc a.value))
      else read_lines

  unfoldable pub handle_line_status : Option (List ℕ) → M W Outcome
  handle_line_status input = with_input 8 input (λ b. line_status (word b 0))
