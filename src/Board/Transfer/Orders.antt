-- ===== src/Board/Transfer/Orders.antt =====
-- `write` and `read` of GPIBBoard.cpp on the bus of IEEE 488.1: which addressed commands they send, the
-- recovery included.
use darwin_gpib.Prelude.{
  ℕ, ◌<◌, ◌≡◌, ◌⊎◌, inl, inr, refl, ap, ◌∙◌, Bool, List, [], ◌∷◌, some, Bool-cases,
}
use darwin_gpib.Prelude.Int.{ℤ}
use darwin_gpib.Gpib.Cmd
use darwin_gpib.Bus.{Bus, Order, bus_run}
use darwin_gpib.Transport.{Transport}
use darwin_gpib.Board.{Board, Descriptor}
use darwin_gpib.Board.Monad.{State, M, Reply}
use darwin_gpib.Board.Table.{descriptor_for}
use darwin_gpib.Board.Address.{
  write_addressing, read_addressing, address_for_write, address_for_read, failed,
}
use darwin_gpib.Board.Address.Laws.{
  IsAddress, party, bus_run-write_addressing, bus_run-read_addressing,
}
use darwin_gpib.Board.Recover.{recover_bus}
use darwin_gpib.Board.Recover.Laws.{recover_bus-board, recover_bus_orders}
use darwin_gpib.Board.Transfer.{write, read, with_retry}
use darwin_gpib.Board.Transfer.Phases.{write_guards, read_guards, write_to_ends, read_from_ends}
use darwin_gpib.Board.Trace.{Event, traced, sent, bus_of}

-- What a call may add to the addressed commands on the bus: nothing, or one selected device clear that
-- exactly the device receives.
abbrev pub ClearsOnly : Descriptor → List Order → List Order → Type 0
ClearsOnly d before after =
    (after ≡ before)
    ⊎ (after ≡ record { command = Cmd.sdc; receivers = party d.pad d.sad ∷ [] } ∷ before)

abbrev pub orders_of : {W : Type 0} → Bus → State (W × List Event) → List Order
orders_of u s = (bus_of u s.world.1).orders

module _ {W : Type 0} (t : Transport W) (d : Descriptor) (u : Bus) (v : IsAddress d.pad d.sad)
    (bytes : Board → List ℕ) (address : M (W × List Event) Reply)
    (one : (s : State (W × List Event)) → (address s).1.board ≡ s.board)
    (two : (s : State (W × List Event))
      → (address s).1.world.1 ≡ sent (bytes s.board) ∷ s.world.1) where
  address_orders :
      (s : State (W × List Event))
      → ((x : Bus) → (bus_run x (bytes s.board)).orders ≡ x.orders)
      → orders_of u (address s).1 ≡ orders_of u s
  address_orders s plainly = ap (λ l. (bus_of u l).orders) (two s) ∙ plainly (bus_of u s.world.1)

  with_retry_orders :
      (s : State (W × List Event))
      → ((x : Bus) → (bus_run x (bytes s.board)).orders ≡ x.orders)
      → ClearsOnly d (orders_of u s) (orders_of u (with_retry (traced t) d address s).1)
  unfolding with_retry
  with_retry_orders s plainly =
      let s1 = (address s).1 in
      let s2 = (recover_bus (traced t) (some d) s1).1 in
      let first : orders_of u s1 ≡ orders_of u s = address_orders s plainly in
      let same : s2.board ≡ s.board = recover_bus-board (traced t) (some d) s1 ∙ one s in
      let again : orders_of u (address s2).1 ≡ orders_of u s2 =
        address_orders s2 (λ x. ap (λ b. (bus_run x (bytes b)).orders) same ∙ plainly x) in
      let recovered : ClearsOnly d (orders_of u s) (orders_of u s2) =
        elim (recover_bus_orders t d s1 u v) [
          | inl quiet ↦ inl (quiet ∙ first)
          | inr (done, clear) ↦ inr (
              clear
              ∙ ap (λ os. record { command = Cmd.sdc; receivers = party d.pad d.sad ∷ [] } ∷ os)
                  first)
        ] in
      elim (Bool-cases (failed (address s).0)) [
        | inl bad ↦ elim (Bool-cases (recover_bus (traced t) (some d) s1).0) [
          | inl ready ↦ rw (bad, ready, again) recovered
          | inr stuck ↦ rw (bad, stuck) recovered
        ]
        | inr good ↦ rw good (inl first)
      ]

module _ {W : Type 0} (t : Transport W) (handle : ℤ) (s : State (W × List Event)) (d : Descriptor)
    (u : Bus) (found : descriptor_for s.board handle ≡ some d) (v : IsAddress d.pad d.sad)
    (h : s.board.board_pad < 31) where
  addressed_to_write :
      ClearsOnly d
        (orders_of u s)
        (orders_of u (with_retry (traced t) d (address_for_write (traced t) d) s).1)
  unfolding address_for_write
  addressed_to_write =
      with_retry_orders t d u v (λ b. write_addressing b d) (address_for_write (traced t) d)
        (λ s. refl) (λ s. refl) s
        (λ x. ap (λ b. b.orders) (bus_run-write_addressing x s.board d h v))

  addressed_to_read :
      ClearsOnly d
        (orders_of u s)
        (orders_of u (with_retry (traced t) d (address_for_read (traced t) d) s).1)
  unfolding address_for_read
  addressed_to_read =
      with_retry_orders t d u v (λ b. read_addressing b d) (address_for_read (traced t) d)
        (λ s. refl) (λ s. refl) s
        (λ x. ap (λ b. b.orders) (bus_run-read_addressing x s.board d h v))

  write_orders :
      (buf : List ℕ) (send_eoi : Bool)
      → ClearsOnly d (orders_of u s) (orders_of u (write (traced t) handle buf send_eoi s).1)
  write_orders buf send_eoi = elim (write_guards (traced t) handle s buf send_eoi (λ d. 0)) [
    | inr (still, _, _) ↦ inl (ap (λ w. (bus_of u w.1).orders) still)
    | inl (x, at, run) ↦
        let same : x ≡ d = cc in
        rw (run, same)
          (elim (write_to_ends t d s buf send_eoi) [
            | inl (_, world, _, _, _) ↦
                rw (ap (λ w. (bus_of u w.1).orders) world) addressed_to_write
            | inr (_, log, _, _, _) ↦ rw (ap (λ l. (bus_of u l).orders) log) addressed_to_write
          ])
  ]

  read_orders : (n : ℕ) → ClearsOnly d (orders_of u s) (orders_of u (read (traced t) handle n s).1)
  read_orders n = elim (read_guards (traced t) handle s n (λ d. 0)) [
    | inr (still, _, _, _, _) ↦ inl (ap (λ w. (bus_of u w.1).orders) still)
    | inl (x, at, run) ↦
        let same : x ≡ d = cc in
        rw (run, same)
          (elim (read_from_ends t d s n) [
            | inl (_, world, _, _, _, _, _) ↦
                rw (ap (λ w. (bus_of u w.1).orders) world) addressed_to_read
            | inr (_, log, _, _, _, _, _) ↦ rw (ap (λ l. (bus_of u l).orders) log) addressed_to_read
          ])
  ]

  -- For a descriptor in use with an address in 0..30, and a board address below 31, whatever the adapter
  -- answers and whatever was on the bus, where it puts the bytes on the bus that it is handed: `write`
  -- and `read`, recovery and second try included, send no addressed command to any device, or one, a
  -- selected device clear, which exactly the descriptor's device receives.
  pub transfer_orders :
      ((buf : List ℕ) (send_eoi : Bool)
        → ClearsOnly d (orders_of u s) (orders_of u (write (traced t) handle buf send_eoi s).1))
      × ((n : ℕ) → ClearsOnly d (orders_of u s) (orders_of u (read (traced t) handle n s).1))
  transfer_orders = (write_orders, read_orders)
