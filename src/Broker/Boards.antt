-- ===== src/Broker/Boards.antt =====
-- gpibd.c: `kUserClasses`, `copy_service_for_board`, `enumerate_boards`, `connection_for_board`,
-- `drop_board` and `session_reap`, with the board list of gpibd_protocol.h.
use darwin_gpib.Prelude.{
  ℕ, ◌+◌, ◌*◌, ◌-◌, Bool, true, false, not, ◌&&◌, ◌||◌, List, [], ◌∷◌, ◌++◌, Option, none, some,
  ◌==◌, ltb, leb, if◌then◌else◌, length, get_or, set, take, replicate,
}
use darwin_gpib.Prelude.Int.{ℤ, pos, negsuc, to_u32}
use darwin_gpib.Usb.{le32_bytes}
use darwin_gpib.Broker.{
  Service, OpenedService, IoKit, Desc, M, ◌>>=◌, ◌>>◌, pure, call, max_boards, sel_close_descriptor,
  err_no_board, err_open_failed, err_bad_request,
}

-- "kusb_488b", "ni_usb" and "agilent_82357".
abbrev pub kusb_488b : List ℕ
kusb_488b = b'k' ∷ b'u' ∷ b's' ∷ b'b' ∷ b'_' ∷ b'4' ∷ b'8' ∷ b'8' ∷ b'b' ∷ []

abbrev pub ni_usb : List ℕ
ni_usb = b'n' ∷ b'i' ∷ b'_' ∷ b'u' ∷ b's' ∷ b'b' ∷ []

abbrev pub agilent_82357 : List ℕ
agilent_82357 =
    b'a' ∷ b'g' ∷ b'i' ∷ b'l' ∷ b'e' ∷ b'n' ∷ b't' ∷ b'_' ∷ b'8' ∷ b'2' ∷ b'3' ∷ b'5' ∷ b'7' ∷ []

-- `strcmp(a, b) == 0`.
unfoldable pub same_text : List ℕ → List ℕ → Bool
same_text [] [] = true
same_text (x ∷ xs) (y ∷ ys) = (x == y) && same_text xs ys
same_text xs ys = false

-- The name of a service's class, where it is one of ours.
unfoldable pub our_class : Service → Option (List ℕ)
our_class s = elim s.user_class [
  | none ↦ none
  | some name ↦
      if same_text name kusb_488b || (same_text name ni_usb || same_text name agilent_82357)
      then some name
      else none
]

-- "Keithley KUSB-488B", "NI GPIB-USB-HS" and "Agilent 82357".
unfoldable pub model_for_user_class : List ℕ → List ℕ
model_for_user_class name =
    if same_text name kusb_488b
    then b'K' ∷ b'e' ∷ b'i' ∷ b't' ∷ b'h' ∷ b'l' ∷ b'e' ∷ b'y' ∷ b' ' ∷ b'K' ∷ b'U' ∷ b'S' ∷ b'B'
      ∷ b'-' ∷ b'4' ∷ b'8' ∷ b'8' ∷ b'B' ∷ []
    else if same_text name ni_usb
    then b'N' ∷ b'I' ∷ b' ' ∷ b'G' ∷ b'P' ∷ b'I' ∷ b'B' ∷ b'-' ∷ b'U' ∷ b'S' ∷ b'B' ∷ b'-' ∷ b'H'
      ∷ b'S' ∷ []
    else if same_text name agilent_82357
    then b'A' ∷ b'g' ∷ b'i' ∷ b'l' ∷ b'e' ∷ b'n' ∷ b't' ∷ b' ' ∷ b'8' ∷ b'2' ∷ b'3' ∷ b'5' ∷ b'7'
      ∷ []
    else name

-- The loop of `copy_service_for_board`: `n` services of ours have gone by.
unfoldable pub nth_service : ℕ → ℕ → List Service → Option Service
nth_service board n [] = none
nth_service board n (s ∷ ss) = elim (our_class s) [
  | none ↦ nth_service board n ss
  | some name ↦ elim (n == board) [ true ↦ some s | false ↦ nth_service board (n + 1) ss ]
]

unfoldable pub copy_service_for_board : {W : Type 0} → IoKit W → ℕ → M W (Option Service)
copy_service_for_board k board = do
  found ← call k.matching_services
  pure (elim found [ none ↦ none | some services ↦ nth_service board 0 services ])

-- `GPIBDBoardInfo`; the model goes out cut to 63 bytes.
pub record BoardInfo : Type 0 where
  pub index : ℕ
  pub model : List ℕ

-- The loop of `enumerate_boards`: the entries from the count `n` on.
unfoldable pub entries : ℕ → List Service → List BoardInfo
entries n [] = []
entries n (s ∷ ss) = elim (ltb n max_boards) [
  | false ↦ []
  | true ↦ elim (our_class s) [
    | none ↦ entries n ss
    | some name ↦ record { index = n; model = model_for_user_class name } ∷ entries (n + 1) ss
  ]
]

unfoldable pub enumerate_boards : {W : Type 0} → IoKit W → M W (List BoardInfo)
enumerate_boards k = do
  found ← call k.matching_services
  pure (elim found [ none ↦ [] | some services ↦ entries 0 services ])

-- A field of 64 bytes that `snprintf` fills.
unfoldable pub model_field : List ℕ → List ℕ
model_field model = let kept = take 63 model in kept ++ replicate (64 - length kept) 0

unfoldable pub info_bytes : List BoardInfo → List ℕ
info_bytes [] = []
info_bytes (i ∷ is) = le32_bytes i.index ++ (model_field i.model ++ info_bytes is)

-- `GPIBDBoardList`, with room for 16 boards.
unfoldable pub board_list : List BoardInfo → List ℕ
board_list is = le32_bytes (length is) ++ (info_bytes is ++ replicate (68 * (16 - length is)) 0)

-- `GPIBHandleIn`.
abbrev pub handle_in : ℤ → List ℕ
handle_in handle = le32_bytes (to_u32 handle) ++ le32_bytes 0

-- What `connection_for_board` gives: a connection, or its error.
pub data Resolved : Type 0 where
  connected : ℕ → Resolved
  failed : ℤ → Resolved

-- The connection of a board; `IO_OBJECT_NULL` where none is cached.
unfoldable pub cached : {W : Type 0} → ℕ → M W ℕ
cached b s = (get_or s.conns b 0, s)

unfoldable pub put_conn : {W : Type 0} → ℕ → ℕ → M W (Unit {0})
put_conn b conn s = (tt, record s { conns = set s.conns b conn })

module _ {W : Type 0} (k : IoKit W) where
  unfoldable pub keep_conn : ℕ → OpenedService → M W Resolved
  keep_conn b o =
      if not (o.kr == 0) || (o.conn == 0)
      then pure (failed err_open_failed)
      else (do put_conn b o.conn; pure (connected o.conn))

  unfoldable pub open_found : ℕ → Option Service → M W Resolved
  open_found b none = pure (failed err_no_board)
  open_found b (some s) = do o ← call (k.open_service s.port); keep_conn b o

  unfoldable pub open_board : ℕ → M W Resolved
  open_board b = do service ← copy_service_for_board k b; open_found b service

  unfoldable pub connection_for_board : ℤ → M W Resolved
  connection_for_board (negsuc n) = pure (failed err_bad_request)
  connection_for_board (pos b) =
      if leb max_boards b
      then pure (failed err_bad_request)
      else (do conn ← cached b; if conn == 0 then open_board b else pure (connected conn))

  unfoldable pub connection_is_dead : ℕ → Bool
  connection_is_dead kr =
      (kr == k.no_device)
      || ((kr == k.not_attached) || ((kr == k.invalid_dest) || (kr == k.invalid_reply)))

  unfoldable pub drop_board : ℤ → M W (Unit {0})
  drop_board (negsuc n) = pure tt
  drop_board (pos b) = if leb max_boards b then pure tt else (do
    conn ← cached b
    if conn == 0 then pure tt else (do call (k.close_service conn); put_conn b 0))

  -- One entry of a departed client. The code of the call is not looked at.
  unfoldable pub close_on : ℤ → Resolved → M W (Unit {0})
  close_on handle (failed code) = pure tt
  close_on handle (connected conn) = do
    r ← call (k.call_struct conn sel_close_descriptor (some (handle_in handle)) 0)
    pure tt

  unfoldable pub reap_one : Desc → M W (Unit {0})
  reap_one d = do c ← connection_for_board d.board; close_on d.handle c

  unfoldable pub reap_all : List Desc → M W (Unit {0})
  reap_all [] = pure tt
  reap_all (d ∷ ds) = do reap_one d; reap_all ds

  -- `session_reap`: the list is taken away first, and the session is freed in the end.
  unfoldable pub session_reap : M W (Unit {0})
  session_reap s = elim s.descs [
    | none ↦ (tt, s)
    | some ds ↦ reap_all ds (record s { descs = none })
  ]
