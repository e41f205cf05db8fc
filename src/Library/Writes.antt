-- ===== src/Library/Writes.antt =====
-- libgpib/src/ib_traditional.c, `ibwrt`, `ibcmd` and `ibwrtf`, down to the handlers of the driver.
use darwin_gpib.Prelude.{
  ℕ, zero, suc, ◌+◌, ◌^◌, ◌<◌, ◌≤◌, ◌≡◌, refl, ap, ◌∙◌, arith, inl, inr, true, false, List, [], ◌∷◌,
  ◌++◌, some, ltb, leb, if◌then◌else◌, All, length, length-append, length-take, get_or, take, drop,
  take_all, drop_all, drop-append_of_eq, Bool-cases,
}
use native.Mathlib.Decide.{dec_le}
use darwin_gpib.Prelude.Int.{ℤ, pos, negsuc, to_u32}
use darwin_gpib.Gpib.Sta
use darwin_gpib.Gpib.Iberr
use darwin_gpib.Transport.{Transport}
use darwin_gpib.Board.Monad.{State}
use darwin_gpib.Board.Transfer.{write}
use darwin_gpib.Board.Command.{send_commands}
use darwin_gpib.UserClient.{answered, word, i32_of, int_word, with_input}
use darwin_gpib.UserClient.Handlers.{handle_write, handle_send_command}
use darwin_gpib.Library.{M, pure, Lib, Agent, packed, board_of, max_boards}
use darwin_gpib.Library.Client.{conn_for_board}
use darwin_gpib.Library.Transfers.{write_in, command_in, ibwrt, bad_count, refuse_count, max_inline}
use darwin_gpib.Library.Files.{ibwrtf, write_rounds, write_round, has_err, chunk}
use darwin_gpib.Library.Packing.{IsWord, IsInt, word-packed, length-packed, i32_of-to_u32}

le→leb : (a b : ℕ) → a ≤ b → leb a b ≡ true
le→leb a b h = ground arith

not_leb : (a b : ℕ) → ¬ (a ≤ b) → leb a b ≡ false
not_leb a b h = ground arith

lt→ltb : (a b : ℕ) → a < b → ltb a b ≡ true
lt→ltb a b h = ground arith

not_short : (n m : ℕ) → ltb (n + m) n ≡ false
not_short n m = ground arith

not_less : (n : ℕ) → ltb n n ≡ false
not_less n = ground arith

to_u32-IsWord : (z : ℤ) → to_u32 z < 2 ^ 32
to_u32-IsWord (pos n) = omega arith
to_u32-IsWord (negsuc n) = omega arith

module _ {W : Type 0} (t : Transport W) (s : State W) where
  -- The handler on any bytes that carry a handle, the request for EOI, a length and the payload.
  handle_write_on :
      (b bytes : List ℕ) (h : ℤ)
      → length b ≡ 16 + length bytes
      → int_word b 0 ≡ h
      → word b 1 ≡ 1
      → word b 2 ≡ length bytes
      → drop 16 b ≡ bytes
      → handle_write t (some b) s ≡ (
          let (r, s') = write t h bytes true s in
          (answered (r.reply.sta ∷ r.reply.iberr ∷ r.count ∷ 0 ∷ []), s'))
  unfolding handle_write with_input
  handle_write_on b bytes h whole handle eoi count rest =
      rw
        (
          whole,
          handle,
          eoi,
          count,
          rest,
          take_all (length bytes) bytes (omega arith),
          not_short 16 (length bytes),
          not_less (16 + length bytes),
        )
        refl

  -- For a handle that is an `int` and fewer than 2^32 bytes: the driver's handler takes the structure
  -- that `ibwrt` sends as a write of exactly these bytes to this handle, with EOI at the end, and
  -- answers with the status, the error and the count of that write.
  pub handle_write-write_in :
      (bytes : List ℕ) (h : ℤ)
      → IsInt h
      → IsWord (length bytes)
      → handle_write t (some (write_in bytes h)) s ≡ (
          let (r, s') = write t h bytes true s in
          (answered (r.reply.sta ∷ r.reply.iberr ∷ r.count ∷ 0 ∷ []), s'))
  unfolding write_in int_word
  handle_write-write_in bytes h int small =
      let fields : List ℕ = to_u32 h ∷ 1 ∷ length bytes ∷ 0 ∷ [] in
      let words : All IsWord fields = omega (arith, to_u32-IsWord h) in
      handle_write_on (packed fields ++ bytes) bytes h
        (omega (arith, length-append (packed fields) bytes, length-packed fields))
        (ap i32_of (word-packed fields bytes 0 words (omega arith)) ∙ i32_of-to_u32 h int)
        (word-packed fields bytes 1 words (omega arith))
        (word-packed fields bytes 2 words (omega arith))
        (drop-append_of_eq 16 (packed fields) bytes (length-packed fields))

  handle_send_command_on :
      (b bytes : List ℕ)
      → length b ≡ 8 + length bytes
      → word b 1 ≡ length bytes
      → drop 8 b ≡ bytes
      → handle_send_command t (some b) s ≡ (
          let (r, s') = send_commands t bytes s in
          (answered (r.reply.sta ∷ r.reply.iberr ∷ r.count ∷ 0 ∷ []), s'))
  unfolding handle_send_command with_input
  handle_send_command_on b bytes whole count rest =
      rw
        (
          whole,
          count,
          rest,
          take_all (length bytes) bytes (omega arith),
          not_short 8 (length bytes),
          not_less (8 + length bytes),
        )
        refl

  -- For fewer than 2^32 bytes: the driver's handler takes the structure that `ibcmd` sends as these
  -- command bytes, and answers with the status, the error and the count of their transfer.
  handle_send_command-command_in :
      (bytes : List ℕ) (h : ℤ)
      → IsWord (length bytes)
      → handle_send_command t (some (command_in bytes h)) s ≡ (
          let (r, s') = send_commands t bytes s in
          (answered (r.reply.sta ∷ r.reply.iberr ∷ r.count ∷ 0 ∷ []), s'))
  unfolding command_in
  handle_send_command-command_in bytes h small =
      let fields : List ℕ = to_u32 h ∷ length bytes ∷ [] in
      let words : All IsWord fields = omega (arith, to_u32-IsWord h) in
      handle_send_command_on (packed fields ++ bytes) bytes
        (omega (arith, length-append (packed fields) bytes, length-packed fields))
        (word-packed fields bytes 1 words (omega arith))
        (drop-append_of_eq 8 (packed fields) bytes (length-packed fields))

-- ERR with EARG, and all else as before.
abbrev pub refused : {W : Type 0} → Lib W → Lib W
refused s = record s { status = record { sta = Sta.err; iberr = Iberr.earg; cnt = 0 } }

-- The board of a descriptor is known to be there.
pub record IsKnown {W : Type 0} (s : Lib W) (ud : ℤ) : Type 0 where
  pub board : ℕ
  pub at : board_of ud ≡ pos board
  pub inside : board < max_boards
  pub known : get_or s.reachable board false ≡ true

module _ {W : Type 0} (agent : Agent W) (ud : ℤ) (s : Lib W) (k : IsKnown s ud) where
  conn_for_board_known : conn_for_board agent (board_of ud) s ≡ (some k.board, s)
  unfolding conn_for_board
  conn_for_board_known = rw k.at (ground (arith, k.inside, k.known))

  bad_count_known : bad_count agent ud s ≡ (pos Sta.err, refused s)
  unfolding bad_count refuse_count
  bad_count_known = ap (λ p. refuse_count agent p.0 p.1) conn_for_board_known

  write_rounds_end :
      (fuel : ℕ) (last : ℤ) (u : Lib W) → write_rounds agent ud fuel [] last u ≡ (last, u)
  unfolding write_rounds
  write_rounds_end zero last u = refl
  write_rounds_end (suc fuel) last u = refl

  last_round :
      (fuel : ℕ) (piece : List ℕ) (u : Lib W)
      → write_round agent ud (write_rounds agent ud fuel) piece [] u
        ≡ ibwrt agent ud piece (pos (length piece)) u
  unfolding write_round
  last_round fuel piece u =
      let (sta, v) = ibwrt agent ud piece (pos (length piece)) u in
      elim (Bool-cases (has_err sta)) [
        | inl failed ↦ rw failed refl
        | inr fine ↦ rw fine (write_rounds_end fuel sta v)
      ]

  too_long :
      (piece : List ℕ)
      → max_inline < length piece
      → ibwrt agent ud piece (pos (length piece)) s ≡ (pos Sta.err, refused s)
  unfolding ibwrt
  too_long piece large = rw (lt→ltb max_inline (length piece) large) bad_count_known

  failed_round :
      (later : List ℕ → ℤ → M W ℤ) (piece rest : List ℕ)
      → max_inline < length piece
      → write_round agent ud later piece rest s ≡ (pos Sta.err, refused s)
  unfolding write_round has_err
  failed_round later piece rest large =
      ap (λ (p : ℤ × Lib W). (if has_err p.0 then pure p.0 else later rest p.0) p.1)
        (too_long piece large)

  -- A file that is not empty, for a descriptor whose board is known to be there: up to 4080 bytes it
  -- is written as `ibwrt` writes its bytes; a longer one is refused with ERR and EARG, and nothing of
  -- it is sent.
  pub ibwrtf-eq-ibwrt :
      (x : ℕ) (xs : List ℕ)
      → ibwrtf agent ud (some (some (x ∷ xs))) s ≡ (
          if leb (length (x ∷ xs)) max_inline
          then ibwrt agent ud (x ∷ xs) (pos (length (x ∷ xs))) s
          else (pos Sta.err, refused s))
  unfolding ibwrtf write_rounds
  ibwrtf-eq-ibwrt x xs = elim (dec_le (length (x ∷ xs)) max_inline) [
    | yes small ↦
        rw
          (
            take_all chunk (x ∷ xs) (omega arith),
            drop_all chunk (x ∷ xs) (omega arith),
            le→leb _ _ small,
          )
          (last_round (length xs) (x ∷ xs) s)
    | no large ↦ rw (not_leb _ _ large) (
        failed_round (write_rounds agent ud (length xs)) (take chunk (x ∷ xs)) (drop chunk (x ∷ xs))
          (omega (arith, length-take chunk (x ∷ xs))))
  ]
