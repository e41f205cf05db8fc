-- ===== src/Library/Files.antt =====
-- libgpib/src/ib_traditional.c: `ibwrtf` and `ibrdf`. A file is the bytes that are read from it or
-- that were written to it; `none` is one that cannot be opened.
use darwin_gpib.Prelude.{
  ℕ, zero, suc, Bool, true, false, not, List, [], ◌∷◌, ◌++◌, Option, none, some, ◌==◌,
  if◌then◌else◌, bit_and, length, take, drop, replicate,
}
use darwin_gpib.Prelude.Int.{ℤ, pos, to_u32}
use darwin_gpib.Gpib.Sta
use darwin_gpib.Gpib.Iberr
use darwin_gpib.Library.{Agent, M, ◌>>=◌, pure, return_err, get_status}
use darwin_gpib.Library.Transfers.{ibwrt, ibrd}

-- The size of the buffer.
abbrev pub chunk : ℕ
chunk = 4096

-- `sta & ERR` and `sta & END`.
unfoldable pub has_err : ℤ → Bool
has_err sta = not (bit_and (to_u32 sta) Sta.err == 0)

unfoldable pub has_end : ℤ → Bool
has_end sta = not (bit_and (to_u32 sta) Sta.end_bit == 0)

module _ {W : Type 0} (agent : Agent W) (ud : ℤ) where
  -- One round of `ibwrtf` with a piece of the file, and the rounds for the rest of it.
  unfoldable pub write_round : (List ℕ → ℤ → M W ℤ) → List ℕ → List ℕ → M W ℤ
  write_round later piece rest = do
    sta ← ibwrt agent ud piece (pos (length piece))
    if has_err sta then pure sta else later rest sta

  -- One round for each unit of fuel; the length of the file is enough.
  unfoldable pub write_rounds : ℕ → List ℕ → ℤ → M W ℤ
  write_rounds zero rest last = pure last
  write_rounds (suc fuel) [] last = pure last
  write_rounds (suc fuel) (x ∷ xs) last =
      write_round (write_rounds fuel) (take chunk (x ∷ xs)) (drop chunk (x ∷ xs))

  -- `none` for the path, then `none` for a file that cannot be opened.
  unfoldable pub ibwrtf : Option (Option (List ℕ)) → M W ℤ
  ibwrtf none = return_err Iberr.earg
  ibwrtf (some none) = return_err Iberr.efso
  ibwrtf (some (some content)) = write_rounds (length content) content (pos Sta.cmpl)

  -- What `ibrdf` has in hand between its rounds: the buffer and the file so far.
  unfoldable pub read_rounds : ℕ → List ℕ → List ℕ → M W (Option (ℤ × List ℕ))
  read_rounds zero buf file = pure none
  read_rounds (suc fuel) buf file = do
    r ← ibrd agent ud (pos chunk)
    st ← get_status
    let got : List ℕ = elim r.value [ none ↦ [] | some bytes ↦ bytes ]
    let buf' = got ++ drop (length got) buf
    let file' = file ++ take st.cnt buf'
    if has_err r.result
        then pure (some (r.result, file))
        else if has_end r.result
        then pure (some (r.result, file'))
        else read_rounds fuel buf' file'

  -- The loop ends at END or ERR only: the fuel is the number of rounds that are looked at, and `none`
  -- says that they were not enough. The file comes with the result where it was opened.
  unfoldable pub ibrdf : ℕ → Option Bool → M W (Option (ℤ × List ℕ))
  ibrdf fuel none = do sta ← return_err Iberr.earg; pure (some (sta, []))
  ibrdf fuel (some false) = do sta ← return_err Iberr.efso; pure (some (sta, []))
  ibrdf fuel (some true) = read_rounds fuel (replicate chunk 0) []
