-- ===== src/Board/Monad.antt =====
-- The methods of the board as state passing: the board beside the world that its transport acts on.
use darwin_gpib.Prelude.{ℕ}
use darwin_gpib.Board.{Board}

pub record State (W : Type 0) : Type 0 where
  pub board : Board
  pub world : W

abbrev pub M : Type 0 → Type 0 → Type 0
M W A = State W → A × State W

abbrev pub pure : {W A : Type 0} → A → M W A
pure a s = (a, s)

infixl 5 ◌>>=◌ ◌>>◌
abbrev pub ◌>>=◌ : {W A B : Type 0} → M W A → (A → M W B) → M W B
◌>>=◌ m f s = let (a, s') = m s in f a s'

abbrev pub ◌>>◌ : {W B : Type 0} → M W (Unit {0}) → M W B → M W B
m >> k = m >>= λ _. k

-- A call of the transport or of the platform.
abbrev pub call : {W A : Type 0} → (W → A × W) → M W A
call f s = let (a, w) = f s.world in (a, record s { world = w })

-- A call whose result the source drops.
abbrev pub call_ : {W A : Type 0} → (W → A × W) → M W (Unit {0})
call_ f s = let (a, w) = f s.world in (tt, record s { world = w })

abbrev pub get_board : {W : Type 0} → M W Board
get_board s = (s.board, s)

abbrev pub put_board : {W : Type 0} → Board → M W (Unit {0})
put_board b s = (tt, record s { board = b })

-- The status word and the error code that a method hands back.
pub record Reply : Type 0 where
  pub sta : ℕ
  pub iberr : ℕ

-- `*outIberr = iberr; ibsta_ = sta; return ibsta_;`
abbrev pub reply : {W : Type 0} → ℕ → ℕ → M W Reply
reply iberr sta s =
    (record { sta = sta; iberr = iberr }, record s { board = record s.board { ibsta = sta } })
