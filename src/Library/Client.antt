-- ===== src/Library/Client.antt =====
-- libgpib/src/client.c: the calls of the broker and what is remembered about each board.
use darwin_gpib.Prelude.{
  ℕ, zero, suc, drop, replicate, Bool, true, false, not, ◌||◌, List, [], ◌∷◌, Option, none, some,
  ◌==◌, ltb, leb, if◌then◌else◌, get_or, set, take, min, length,
}
use darwin_gpib.Prelude.Int.{ℤ, pos, negsuc, is_neg, to_u32}
use darwin_gpib.Gpib.Sta
use darwin_gpib.Gpib.Iberr
use darwin_gpib.UserClient.{word, int_word}
use darwin_gpib.Broker.Boards.{BoardInfo}
use darwin_gpib.Broker.{op_probe, op_list_boards, err_no_board, err_open_failed, err_bad_request}
use darwin_gpib.Broker.Session.{same_int}
use darwin_gpib.Broker.Requests.{Reply}
use darwin_gpib.Library.{
  Lib, Agent, M, ◌>>=◌, ◌>>◌, pure, max_boards, packed, set_status, is_board_ud, device_handle,
}

-- The code of a call and the bytes that came into the output; `*outSize` is their number.
pub record Outcome : Type 0 where
  pub kr : ℤ
  pub bytes : List ℕ

-- Whether the code is `KERN_SUCCESS`, which is all that the callers ask, and the bytes.
pub record Called : Type 0 where
  pub ok : Bool
  pub bytes : List ℕ

abbrev pub reachable : {W : Type 0} → ℕ → M W Bool
reachable b s = (get_or s.reachable b false, s)

abbrev pub set_reachable : {W : Type 0} → ℕ → Bool → M W (Unit {0})
set_reachable b known s = (tt, record s { reachable = set s.reachable b known })

abbrev pub cached_handle : {W : Type 0} → ℕ → M W ℤ
cached_handle b s = (get_or s.handles b (negsuc 0), s)

-- `gpib_lib_set_board_handle`, for a board in range.
abbrev pub set_board_handle : {W : Type 0} → ℕ → ℤ → M W (Unit {0})
set_board_handle b handle s = (tt, record s { handles = set s.handles b handle })

unfoldable pub outcome_of : ℕ → Option Reply → Outcome
outcome_of cap none = record { kr = err_bad_request; bytes = [] }
outcome_of cap (some a) = record {
  kr = a.code;
  bytes = elim a.output [ none ↦ [] | some out ↦ take cap out ];
}

-- `(kern_return_t)kr == KERN_SUCCESS`, and never for the two codes of a board that is gone.
unfoldable pub is_gone : ℤ → Bool
is_gone kr = same_int kr err_no_board || same_int kr err_open_failed

-- The bytes before the first 0.
unfoldable pub until_nul : List ℕ → List ℕ
until_nul [] = []
until_nul (x ∷ xs) = if x == 0 then [] else x ∷ until_nul xs

-- That many entries of a `GPIBDBoardList`, each of 68 bytes.
unfoldable pub boards_in : ℕ → List ℕ → List BoardInfo
boards_in zero bytes = []
boards_in (suc n) bytes =
    record { index = word bytes 0; model = until_nul (take 64 (drop 4 bytes)) }
    ∷ boards_in n (drop 68 bytes)

-- `(int)list.count`, at most 16 and at most the room of the caller.
unfoldable pub listed_count : ℕ → List ℕ → ℤ
listed_count room bytes = elim (int_word bytes 0) [
  | pos n ↦ pos (min (min n 16) room)
  | negsuc n ↦ negsuc n
]

-- As many entries; a negative count has none.
unfoldable pub boards_counted : ℤ → List ℕ → List BoardInfo
boards_counted (pos n) bytes = boards_in n bytes
boards_counted (negsuc n) bytes = []

module _ {W : Type 0} (agent : Agent W) where
  unfoldable pub broker_call : ℕ → ℕ → Option (List ℕ) → ℕ → M W Outcome
  broker_call board selector input cap s =
      let (reply, w) =
        agent.send (record { op = selector; board = board; cap = cap; input = input }) s.world in
      (outcome_of cap reply, record s { world = w })

  -- What the answer to a probe leads to.
  unfoldable pub probed : ℕ → Outcome → M W (Option ℕ)
  probed b r =
      if same_int r.kr (pos 0)
      then (do set_reachable b true; pure (some b))
      else (do set_status Sta.err Iberr.eneb 0; pure none)

  -- `gpib_lib_conn_for_board`; the connection is the board's index.
  unfoldable pub conn_for_board : ℤ → M W (Option ℕ)
  conn_for_board (negsuc n) = do set_status Sta.err Iberr.edvr 0; pure none
  conn_for_board (pos b) =
      if leb max_boards b then (do set_status Sta.err Iberr.edvr 0; pure none) else (do
        known ← reachable b
        if known then pure (some b) else (do r ← broker_call b op_probe none 0; probed b r))

  -- `gpib_lib_call_struct` and `gpib_lib_call_struct_var`, on the connection of a board.
  unfoldable pub call_struct : ℕ → ℕ → List ℕ → ℕ → M W Called
  call_struct board selector input cap = do
    r ← broker_call board selector (some input) cap
    if is_gone r.kr
        then (do set_reachable board false; pure (record { ok = false; bytes = r.bytes }))
        else pure (record { ok = to_u32 r.kr == 0; bytes = r.bytes })

  -- `open_board` after its call of `gpib_lib_conn_for_board`: a T3s timeout, and EOT on.
  unfoldable pub bring_up : ℕ → M W ℤ
  bring_up b = do
    online ← call_struct b 0 (packed (1 ∷ 0 ∷ [])) 16
    if not online.ok then (do set_status Sta.err Iberr.edvr 0; pure (negsuc 0)) else (do
      opened ← call_struct b 1 (packed (0 ∷ 0xffffffff ∷ 1 ∷ 12 ∷ 0 ∷ 0 ∷ 1 ∷ 0 ∷ [])) 16
      let handle = int_word opened.bytes 0
      if not opened.ok
          then (do set_status Sta.err Iberr.edvr 0; pure (negsuc 0))
          else if is_neg handle
          then (do set_status (word opened.bytes 1) (word opened.bytes 2) 0; pure (negsuc 0))
          else (do set_board_handle b handle; pure handle))

  unfoldable pub open_board : ℕ → M W ℤ
  open_board b = do
    c ← conn_for_board (pos b)
    elim c [ none ↦ pure (negsuc 0) | some conn ↦ bring_up b ]

  -- `gpib_lib_board_handle`.
  unfoldable pub board_handle : ℤ → M W ℤ
  board_handle (negsuc n) = pure (negsuc 0)
  board_handle (pos b) =
      if leb max_boards b
      then pure (negsuc 0)
      else (do handle ← cached_handle b; if is_neg handle then open_board b else pure handle)

  -- `gpib_lib_handle_of`.
  unfoldable pub handle_of : ℤ → M W ℤ
  handle_of ud = if is_board_ud ud then board_handle ud else pure (pos (device_handle ud))

  -- `gpib_list_boards`, which puts the entries of a `GPIBDBoardList` of 1092 bytes into an array: the
  -- result and what is put there. Each model is cut at its end mark.
  unfoldable pub list_boards : Bool → ℤ → M W (ℤ × List BoardInfo)
  list_boards given (negsuc n) = pure (negsuc 0, [])
  list_boards given (pos room) = if not given || (room == 0) then pure (negsuc 0, []) else (do
    r ← broker_call 0 op_list_boards none 1092
    if not (same_int r.kr (pos 0)) || ltb (length r.bytes) 4
        then pure (negsuc 0, [])
        else (let count = listed_count room r.bytes in
            pure (count, boards_counted count (drop 4 r.bytes))))

-- `gpib_lib_close_board`, which nothing calls.
pub close_board : {W : Type 0} → ℤ → M W (Unit {0})
close_board (negsuc n) = pure tt
close_board (pos b) =
    if leb max_boards b then pure tt else (do set_reachable b false; set_board_handle b (negsuc 0))

-- `gpib_lib_init` over a world, with the status that error.c starts with.
unfoldable pub init : {W : Type 0} → W → Lib W
init w = record {
  reachable = replicate max_boards false;
  handles = replicate max_boards (negsuc 0);
  status = record { sta = 0; iberr = 0; cnt = 0 };
  world = w;
}
