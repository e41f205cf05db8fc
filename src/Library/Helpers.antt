-- ===== src/Library/Helpers.antt =====
-- libgpib/src/ib_488_2.c: the IEEE-488.2 functions, built on the traditional ones. A list of
-- addresses ends at its first address that is not valid; a null list is as an empty one but where
-- the source tells them apart. `addressed` and the loops are the bodies that the functions share.
use darwin_gpib.Prelude.{
  ℕ, zero, suc, ◌+◌, ◌/◌, ◌%◌, Bool, true, not, List, [], ◌∷◌, ◌++◌, Option, none, some, ◌==◌, ltb,
  if◌then◌else◌, bit_and, bit_or, length,
}
use darwin_gpib.Prelude.Int.{ℤ, pos, negsuc, is_neg, to_u32}
use darwin_gpib.Gpib.Cmd
use darwin_gpib.Gpib.Sta
use darwin_gpib.Gpib.Line
use darwin_gpib.Gpib.Iberr
use darwin_gpib.UserClient.{word}
use darwin_gpib.Library.{Agent, M, ◌>>=◌, ◌>>◌, pure, packed, set_status, board_of}
use darwin_gpib.Library.Traditional.{
  Returned, driver_call, ibdev, ibonl, ibclr, ibsic, ibtrg, ibloc, ibsre, ibrsp, iblines, ibln,
}
use darwin_gpib.Library.Transfers.{ibwrt, ibrd, ibcmd}

-- An `Addr4882_t` has 16 bits, and `NOADDR` is all ones.
abbrev pub no_addr : ℕ
no_addr = 0xffff

unfoldable pub addr_valid : ℕ → Bool
addr_valid a = not (a == no_addr)

-- driver/gpib/ib.h, `GetPAD` and `GetSAD`.
unfoldable pub get_pad : ℕ → ℕ
get_pad a = a % 256

unfoldable pub get_sad : ℕ → ℕ
get_sad a = a / 256 % 256

-- The addresses before the first that is not valid.
unfoldable pub listed : List ℕ → List ℕ
listed [] = []
listed (a ∷ more) = if addr_valid a then a ∷ listed more else []

-- One pass over the addresses.
unfoldable pub for_each : {W : Type 0} → (ℕ → M W (Unit {0})) → List ℕ → M W (Unit {0})
for_each act [] = pure tt
for_each act (a ∷ more) = do act a; for_each act more

-- The command bytes that make an address a listener: its secondary goes with it, unless it is 0.
abbrev pub listen_bytes : ℕ → List ℕ
listen_bytes a =
    bit_or (bit_and (get_pad a) 0x1f) Cmd.lad
    ∷ (if get_sad a == 0 then [] else bit_or (bit_and (get_sad a) 0x1f) Cmd.sad ∷ [])

-- The loop of `SendSetup`, with the bytes in `cmd` so far; it stops at 30 of them.
unfoldable pub setup_bytes : List ℕ → List ℕ → List ℕ
setup_bytes cmd [] = cmd
setup_bytes cmd (a ∷ more) =
    let rest = setup_bytes (cmd ++ listen_bytes a) more in if ltb (length cmd) 30 then rest else cmd

module _ {W : Type 0} (agent : Agent W) (board_desc : ℤ) where
  -- A descriptor for an address, with a limit of T3s and EOI.
  unfoldable pub open_device : ℕ → M W ℤ
  open_device address =
      let sad = if get_sad address == 0 then negsuc 0 else pos (get_sad address) in
      ibdev agent (board_of board_desc) (pos (get_pad address)) sad (pos 12) (pos 1) (pos 0)

  -- The descriptor is closed again; without one nothing is done, and there is no value.
  unfoldable pub addressed : {A : Type 0} → (ℤ → M W A) → ℕ → M W (Option A)
  addressed act address = do
    ud ← open_device address
    if is_neg ud then pure none else (do a ← act ud; closed ← ibonl agent ud (pos 0); pure (some a))

  unfoldable pub send_ifc : M W (Unit {0})
  send_ifc = do sta ← ibsic agent board_desc; pure tt

  unfoldable pub send_llo : M W (Unit {0})
  send_llo = do
    r ← driver_call agent board_desc 14 (λ h. packed (to_u32 h ∷ 0 ∷ [])) 16
    elim r [ none ↦ pure tt | some c ↦ set_status (word c.bytes 0) (word c.bytes 1) 0 ]

  unfoldable pub dev_clear : ℕ → M W (Unit {0})
  dev_clear address = do r ← addressed (ibclr agent) address; pure tt

  pub dev_clear_list : List ℕ → M W (Unit {0})
  dev_clear_list addresses = for_each dev_clear (listed addresses)

  pub enable_local : List ℕ → M W (Unit {0})
  enable_local addresses =
      for_each (λ a. do r ← addressed (ibloc agent) a; pure tt) (listed addresses)

  unfoldable pub enable_remote : M W (Unit {0})
  enable_remote = do sta ← ibsre agent board_desc (pos 1); pure tt

  unfoldable pub trigger : ℕ → M W (Unit {0})
  trigger address = do r ← addressed (ibtrg agent) address; pure tt

  pub trigger_list : List ℕ → M W (Unit {0})
  trigger_list addresses = for_each trigger (listed addresses)

  -- `Send`, where the byte for NLend can be allocated.
  unfoldable pub send : List ℕ → Bool → ℕ → M W (Unit {0})
  send bytes nl_end address =
      let out = if nl_end then bytes ++ b'\n' ∷ [] else bytes in
      (do r ← addressed (λ ud. ibwrt agent ud out (pos (length out))) address; pure tt)

  unfoldable pub send_list : List ℕ → List ℕ → Bool → M W (Unit {0})
  send_list addresses bytes nl_end = for_each (send bytes nl_end) (listed addresses)

  pub send_data_bytes : List ℕ → ℤ → M W ℤ
  send_data_bytes buffer count = ibwrt agent board_desc buffer count

  pub send_cmds : List ℕ → ℤ → M W ℤ
  send_cmds cmds count = ibcmd agent board_desc cmds count

  unfoldable pub send_setup : List ℕ → M W ℤ
  send_setup addresses =
      let cmd = setup_bytes (Cmd.unl ∷ []) (listed addresses) in
      ibcmd agent board_desc cmd (pos (length cmd))

  pub receive : ℤ → ℕ → M W (Option (Returned (List ℕ)))
  receive count address = addressed (λ ud. ibrd agent ud count) address

  unfoldable pub receive_setup : ℕ → M W ℤ
  receive_setup address =
      let secondary =
        if get_sad address == 0 then [] else bit_or (bit_and (get_sad address) 0x1f) Cmd.sad ∷ [] in
      let cmd = Cmd.unl ∷ bit_or (bit_and (get_pad address) 0x1f) Cmd.tad ∷ secondary in
      ibcmd agent board_desc cmd (pos (length cmd))

  pub rcv_resp_msg : ℤ → M W (Returned (List ℕ))
  rcv_resp_msg count = ibrd agent board_desc count

  -- The byte is 0 where the poll brings none.
  unfoldable pub read_status_byte : ℕ → M W ℕ
  read_status_byte address = do
    r ← addressed (ibrsp agent) address
    pure (elim r [ none ↦ 0 | some p ↦ elim p.value [ none ↦ 0 | some stb ↦ stb ] ])

  unfoldable pub poll_each : List ℕ → M W (List ℕ)
  poll_each [] = pure []
  poll_each (a ∷ more) = do stb ← read_status_byte a; rest ← poll_each more; pure (stb ∷ rest)

  pub all_spoll : List ℕ → M W (List ℕ)
  all_spoll addresses = poll_each (listed addresses)

  -- The lines, 0 where they cannot be had.
  unfoldable pub lines_now : M W ℕ
  lines_now = do r ← iblines agent board_desc; pure (elim r.value [ none ↦ 0 | some lines ↦ lines ])

  unfoldable pub srq_now : M W Bool
  srq_now = do lines ← lines_now; pure (not (bit_and lines Line.bus_srq == 0))

  unfoldable pub test_srq : M W ℕ
  test_srq = do srq ← srq_now; pure (if srq then 1 else 0)

  -- The rounds of `WaitSRQ`; `nap` is the `nanosleep` of 10 ms.
  unfoldable pub wait_rounds : (W → W) → ℕ → M W ℕ
  wait_rounds nap zero = pure 0
  wait_rounds nap (suc n) = do
    srq ← srq_now
    if srq then pure 1 else (λ s. wait_rounds nap n (record s { world = nap s.world }))

  unfoldable pub wait_srq : (W → W) → M W ℕ
  wait_srq nap = wait_rounds nap 300

  -- The loop of `FindRQS`, at the index `i`.
  unfoldable pub find_from : ℕ → List ℕ → M W ℤ
  find_from i [] = pure (negsuc 0)
  find_from i (a ∷ more) = do
    stb ← read_status_byte a
    if bit_and stb 0x40 == 0 then find_from (i + 1) more else pure (pos i)

  unfoldable pub find_rqs : List ℕ → M W ℤ
  find_rqs addresses = find_from 0 (listed addresses)

  -- The loop of `FindLstn` with room for `n` more results.
  unfoldable pub listeners : ℕ → List ℕ → M W (List ℕ)
  listeners zero more = pure []
  listeners (suc n) [] = pure []
  listeners (suc n) (a ∷ more) = do
    r ← ibln agent board_desc (pos (get_pad a)) (pos (get_sad a))
    let present : ℕ = elim r.value [ none ↦ 0 | some p ↦ p ]
    if present == 0 then listeners (suc n) more else (do rest ← listeners n more; pure (a ∷ rest))

  -- The results that are written: those found, and the end mark if there is room for it. A negative
  -- room is 0 here, and `none` is a null list.
  unfoldable pub find_lstn : Option (List ℕ) → ℕ → M W (List ℕ)
  find_lstn none room = pure []
  find_lstn (some addresses) room = do
    found ← listeners room (listed addresses)
    pure (if ltb (length found) room then found ++ no_addr ∷ [] else found)

  -- `PassControl`, `PPoll`, `PPollConfig` and `PPollUnconfig`.
  pub no_capability : M W (Unit {0})
  no_capability = set_status Sta.err Iberr.ecap 0

  -- "*RST" goes to each of the devices.
  pub reset_sys : List ℕ → M W (Unit {0})
  reset_sys addresses = do
    send_ifc
    remote ← ibsre agent board_desc (pos 1)
    cleared ← ibcmd agent board_desc (Cmd.dcl ∷ []) (pos 1)
    send_list addresses (b'*' ∷ b'R' ∷ b'S' ∷ b'T' ∷ []) true

  pub set_rwls : M W (Unit {0})
  set_rwls = do remote ← ibsre agent board_desc (pos 1); send_llo
