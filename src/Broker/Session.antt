-- ===== src/Broker/Session.antt =====
-- gpibd.c: `session_add_desc`, `session_forget_desc` and the board's connection behind
-- `connection_for_board`, on which `session_reap` stands.
use darwin_gpib.Prelude.{Bool, false, ◌&&◌, List, [], ◌∷◌, Option, none, some, ◌==◌, if◌then◌else◌}
use darwin_gpib.Prelude.Int.{ℤ, pos, negsuc, is_neg}
use darwin_gpib.Broker.{IoKit, Desc, M, ◌>>=◌, pure, call}

-- `==` on two numbers of type `int`.
unfoldable pub same_int : ℤ → ℤ → Bool
same_int (pos a) (pos b) = a == b
same_int (negsuc a) (negsuc b) = a == b
same_int a b = false

unfoldable pub same_desc : ℤ → ℤ → Desc → Bool
same_desc board handle d = same_int d.board board && same_int d.handle handle

unfoldable pub put_descs : {W : Type 0} → Option (List Desc) → M W (Unit {0})
put_descs descs s = (tt, record s { descs = descs })

unfoldable pub get_descs : {W : Type 0} → M W (Option (List Desc))
get_descs s = (s.descs, s)

module _ {W : Type 0} (k : IoKit W) (board handle : ℤ) where
  -- A `gpibd_desc` takes 16 bytes. Where they cannot be had the descriptor is not recorded.
  unfoldable pub add_to : Option (List Desc) → M W (Unit {0})
  add_to none = pure tt
  add_to (some ds) = if is_neg handle then pure tt else (do
    had ← call (k.allocate 16)
    if had then put_descs (some (record { board = board; handle = handle } ∷ ds)) else pure tt)

  unfoldable pub session_add_desc : M W (Unit {0})
  session_add_desc = do descs ← get_descs; add_to descs

-- The list without the first entry for that handle of that board.
unfoldable pub without : ℤ → ℤ → List Desc → List Desc
without board handle [] = []
without board handle (d ∷ ds) = if same_desc board handle d then ds else d ∷ without board handle ds

unfoldable pub forget_in : {W : Type 0} → ℤ → ℤ → Option (List Desc) → M W (Unit {0})
forget_in board handle none = pure tt
forget_in board handle (some ds) = put_descs (some (without board handle ds))

unfoldable pub session_forget_desc : {W : Type 0} → ℤ → ℤ → M W (Unit {0})
session_forget_desc board handle = do descs ← get_descs; forget_in board handle descs
