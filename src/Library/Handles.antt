-- ===== src/Library/Handles.antt =====
-- libgpib/src/client.c: what is remembered about a board, and for how long.
use darwin_gpib.Prelude.{
  ℕ, zero, suc, ◌<◌, ◌≡◌, refl, sym, ap, ◌∙◌, arith, subst, inl, inr, Bool, true, false, List, [],
  ◌∷◌, Option, none, some, leb, if◌then◌else◌, get_or, set, Bool-cases,
}
use darwin_gpib.Prelude.Int.{ℤ, pos, negsuc, is_neg, to_u32}
use darwin_gpib.Gpib.Sta
use darwin_gpib.UserClient.{word, int_word}
use darwin_gpib.Broker.{op_probe}
use darwin_gpib.Broker.Session.{same_int}
use darwin_gpib.Library.{Lib, Agent, max_boards, packed, is_board_ud, board_of, make_ud}
use darwin_gpib.Library.Client.{
  Called, broker_call, is_gone, probed, conn_for_board, call_struct, board_handle, handle_of,
}
use darwin_gpib.Library.Traditional.{
  open_device_for, ensure_board_open, driver_call, call_on, concluded, simple_handle_call,
  close_answer, ibonl, open_device_on, ibdev, device_in,
}

get_or-set-false : (xs : List Bool) (b : ℕ) → get_or (set xs b false) b false ≡ false
get_or-set-false [] b = refl
get_or-set-false (x ∷ xs) zero = refl
get_or-set-false (x ∷ xs) (suc b) = get_or-set-false xs b

make_ud_board :
    (b : ℕ) (h : ℤ)
    → b < max_boards
    → (board_of (make_ud b h) ≡ pos b) × (is_board_ud (make_ud b h) ≡ false)
unfolding make_ud board_of is_board_ud
make_ud_board b h inside = (ground arith, ground arith)

pub not_beyond : (b : ℕ) → b < max_boards → leb max_boards b ≡ false
not_beyond b inside = ground arith

module _ {W : Type 0} (agent : Agent W) where
  call_struct-handles :
      (b selector cap : ℕ) (input : List ℕ) (s : Lib W)
      → (call_struct agent b selector input cap s).1.handles ≡ s.handles
  unfolding call_struct broker_call
  call_struct-handles b selector cap input s = ground arith

  conn_for_board-handles : (z : ℤ) (s : Lib W) → (conn_for_board agent z s).1.handles ≡ s.handles
  unfolding conn_for_board broker_call probed
  conn_for_board-handles (negsuc n) s = refl
  conn_for_board-handles (pos b) s = ground arith

  conn_for_board_asks :
      (b : ℕ) (s : Lib W)
      → b < max_boards
      → get_or s.reachable b false ≡ false
      → (conn_for_board agent (pos b) s).0
        ≡ (if same_int (broker_call agent b op_probe none 0 s).0.kr (pos 0) then some b else none)
  unfolding conn_for_board probed
  conn_for_board_asks b s inside unknown =
      rw (not_beyond b inside, unknown)
        (elim (Bool-cases (same_int (broker_call agent b op_probe none 0 s).0.kr (pos 0))) [
          | inl there ↦ rw there refl
          | inr missing ↦ rw missing refl
        ])

  board_handle_cached :
      (b h : ℕ) (s : Lib W)
      → b < max_boards
      → get_or s.handles b (negsuc 0) ≡ pos h
      → board_handle agent (pos b) s ≡ (pos h, s)
  unfolding board_handle
  board_handle_cached b h s inside cached = ground (arith, cached)

  handle_of_cached :
      (b h : ℕ) (s : Lib W)
      → b < max_boards
      → get_or s.handles b (negsuc 0) ≡ pos h
      → handle_of agent (pos b) s ≡ (pos h, s)
  unfolding handle_of is_board_ud
  handle_of_cached b h s inside cached = ground (arith, board_handle_cached b h s inside cached)

  call_on-handles :
      (b h selector cap : ℕ) (input : ℤ → List ℕ) (c : Option ℕ) (s : Lib W)
      → b < max_boards
      → get_or s.handles b (negsuc 0) ≡ pos h
      → (call_on agent (pos b) selector input cap c s).1.handles ≡ s.handles
  unfolding call_on
  call_on-handles b h selector cap input none s inside cached = refl
  call_on-handles b h selector cap input (some conn) s inside cached =
      call_struct-handles conn selector cap _ _
      ∙ ap (λ p. p.1.handles) (handle_of_cached b h s inside cached)

  driver_call-handles :
      (b h selector cap : ℕ) (input : ℤ → List ℕ) (s : Lib W)
      → b < max_boards
      → get_or s.handles b (negsuc 0) ≡ pos h
      → (driver_call agent (pos b) selector input cap s).1.handles ≡ s.handles
  unfolding driver_call
  driver_call-handles b h selector cap input s inside cached =
      let (c, t) = conn_for_board agent (board_of (pos b)) s in
      let kept : t.handles ≡ s.handles = conn_for_board-handles (board_of (pos b)) s in
      call_on-handles b h selector cap input c t inside
        (ap (λ hs. get_or hs b (negsuc 0)) kept ∙ cached)
      ∙ kept

  close_answer-handles :
      (r : Option Called) (s : Lib W) → (close_answer agent r s).1.handles ≡ s.handles
  unfolding close_answer
  close_answer-handles none s = refl
  close_answer-handles (some r) s = refl

  ibonl-handles :
      (b h : ℕ) (s : Lib W)
      → b < max_boards
      → get_or s.handles b (negsuc 0) ≡ pos h
      → (ibonl agent (pos b) (pos 0) s).1.handles ≡ s.handles
  unfolding ibonl
  ibonl-handles b h s inside cached =
      let (r, t) = driver_call agent (pos b) 2 (λ z. packed (to_u32 z ∷ 0 ∷ [])) 16 s in
      close_answer-handles r t
      ∙ driver_call-handles b h 2 16 (λ z. packed (to_u32 z ∷ 0 ∷ [])) s inside cached

  -- For a board from 0 to 15 whose descriptor is open, with the handle `h`: when the broker answers a
  -- call that the board is not there or cannot be opened, the call fails and the board is no longer
  -- taken for reachable, so that the next use of it asks the broker again; but the handle stays, and
  -- is given out again without asking.
  pub call_struct_gone :
      (b selector cap h : ℕ) (input : List ℕ) (s : Lib W)
      → b < max_boards
      → get_or s.handles b (negsuc 0) ≡ pos h
      → is_gone (broker_call agent b selector (some input) cap s).0.kr ≡ true
      → (let (r, t) = call_struct agent b selector input cap s in
          (r.ok ≡ false)
          × (get_or t.reachable b false ≡ false)
          × ((conn_for_board agent (pos b) t).0 ≡ (
              if same_int (broker_call agent b op_probe none 0 t).0.kr (pos 0)
              then some b
              else none))
          × (board_handle agent (pos b) t ≡ (pos h, t)))
  unfolding call_struct broker_call
  call_struct_gone b selector cap h input s inside cached gone =
      let u = (broker_call agent b selector (some input) cap s).1 in
      let t : Lib W = record u { reachable = set u.reachable b false } in
      let forgotten : get_or t.reachable b false ≡ false = get_or-set-false u.reachable b in
      let kept : get_or t.handles b (negsuc 0) ≡ pos h = cached in
      rw gone (
        refl,
        forgotten,
        conn_for_board_asks b t inside forgotten,
        board_handle_cached b h t inside kept,
      )

  -- `ibonl(ud, 0)` on the number of a board from 0 to 15 whose descriptor is open closes that
  -- descriptor and still keeps its handle: the next use of the board has the same handle, whatever
  -- the broker answered.
  ibonl_keeps_handle :
      (b h : ℕ) (s : Lib W)
      → b < max_boards
      → get_or s.handles b (negsuc 0) ≡ pos h
      → (board_handle agent (pos b) (ibonl agent (pos b) (pos 0) s).1).0 ≡ pos h
  ibonl_keeps_handle b h s inside cached =
      let t = (ibonl agent (pos b) (pos 0) s).1 in
      ap (λ p. p.0)
        (board_handle_cached b h t inside
          (ap (λ hs. get_or hs b (negsuc 0)) (ibonl-handles b h s inside cached) ∙ cached))

  open_device_on_board :
      (b : ℕ) (input : List ℕ) (s : Lib W)
      → b < max_boards
      → is_neg (open_device_on agent b input s).0 ≡ false
      → (board_of (open_device_on agent b input s).0 ≡ pos b)
        × (is_board_ud (open_device_on agent b input s).0 ≡ false)
  unfolding open_device_on
  open_device_on_board b input s inside given =
      let (r, t) = call_struct agent b 1 input 16 s in
      ground (arith, make_ud_board b (int_word r.bytes 0) inside)

  conn_for_board-some : (b c : ℕ) (s : Lib W) → (conn_for_board agent (pos b) s).0 ≡ some c → c ≡ b
  unfolding conn_for_board probed
  conn_for_board-some b c s e = ground arith

  open_device_for_board :
      (b : ℕ) (input : List ℕ) (c : Option ℕ) (s : Lib W)
      → b < max_boards
      → ((n : ℕ) → c ≡ some n → n ≡ b)
      → is_neg (open_device_for agent input c s).0 ≡ false
      → (board_of (open_device_for agent input c s).0 ≡ pos b)
        × (is_board_ud (open_device_for agent input c s).0 ≡ false)
  unfolding open_device_for
  open_device_for_board b input none s inside here given = absurd (cc)
  open_device_for_board b input (some n) s inside here given =
      subst
        (λ m.
          is_neg (open_device_on agent m input s).0 ≡ false
          → (board_of (open_device_on agent m input s).0 ≡ pos b)
            × (is_board_ud (open_device_on agent m input s).0 ≡ false))
        (sym (here n refl)) (open_device_on_board b input s inside) given

  -- A descriptor that `ibdev` gives out for a board from 0 to 15, that is a result that is not
  -- negative, is the number of a device and not of a board, and the board that is read back from it
  -- is that board, whatever the broker answered.
  ibdev-board_of :
      (b : ℕ) (pad sad timo send_eoi eosmode : ℤ) (s : Lib W)
      → b < max_boards
      → is_neg (ibdev agent (pos b) pad sad timo send_eoi eosmode s).0 ≡ false
      → (board_of (ibdev agent (pos b) pad sad timo send_eoi eosmode s).0 ≡ pos b)
        × (is_board_ud (ibdev agent (pos b) pad sad timo send_eoi eosmode s).0 ≡ false)
  unfolding ibdev
  ibdev-board_of b pad sad timo send_eoi eosmode s inside given =
      let (up, t) = ensure_board_open agent (pos b) s in
      let (c, u) = conn_for_board agent (pos b) t in
      let opened =
        open_device_for_board b (device_in pad sad timo send_eoi eosmode) c u inside
          (λ n e. conn_for_board-some b n t e) in
      ground (arith, opened)

  -- Where the driver was called for a device clear, an interface clear, a trigger or a local message:
  -- afterwards `iberr` is 0, whatever error the driver answered, and `ibsta` is the driver's, or ERR
  -- if the call failed.
  pub simple_handle_call_status :
      (ud : ℤ) (selector : ℕ) (c : Called) (s : Lib W)
      → (driver_call agent ud selector (λ h. packed (to_u32 h ∷ 0 ∷ [])) 16 s).0 ≡ some c
      → (let st = (simple_handle_call agent ud selector s).1.status in
          (st.iberr ≡ 0) × (st.sta ≡ (if c.ok then word c.bytes 0 else Sta.err)))
  unfolding simple_handle_call concluded
  simple_handle_call_status ud selector c s e = ground arith
