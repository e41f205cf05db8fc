-- ===== src/Board/Recover/Laws.antt =====
-- `recoverBus` and `setOnline` of GPIBBoard.cpp.
use darwin_gpib.Prelude.{
  ℕ, ◌≡◌, ◌⊎◌, inl, inr, ap, ◌∙◌, refl, arith, Bool, true, false, List, [], ◌∷◌, ◌++◌, Option, none,
  some, if◌then◌else◌,
}
use darwin_gpib.Gpib.Cmd
use darwin_gpib.Transport.{Transport}
use darwin_gpib.Bus.{Bus, bus_run}
use darwin_gpib.Bus.Laws.{run_nil, run_unl, run_sdc}
use darwin_gpib.Board.{Descriptor}
use darwin_gpib.Board.Address.Laws.{IsAddress, party, run-listener}
use darwin_gpib.Board.Monad.{State}
use darwin_gpib.Board.Recover.{recover_bus, to_listener}
use darwin_gpib.Board.Trace.{
  Event, traced, transfers, bus_of, sent, did_soft_reset, pulsed_ifc, took_control, set_ren,
}

-- Recovery leaves the board as it was: the flag against recovery inside a recovery is down again.
pub recover_bus-board :
    {W : Type 0} (t : Transport W) (desc : Option Descriptor) (s : State W)
    → (recover_bus t desc s).1.board ≡ s.board
unfolding recover_bus
recover_bus-board t none s = ground arith
recover_bus-board t (some d) s = ground arith

-- The bytes at the end of a recovery are one order on the bus: a selected device clear, which exactly
-- the device receives.
bus_run-to_listener :
    (u : Bus) (d : Descriptor)
    → IsAddress d.pad d.sad
    → (bus_run u (to_listener d Cmd.sdc)).orders
      ≡ record { command = Cmd.sdc; receivers = party d.pad d.sad ∷ [] } ∷ u.orders
unfolding to_listener
bus_run-to_listener u d v =
    ap (λ b. b.orders)
      (run_unl u _ ∙ run-listener _ d.pad d.sad (Cmd.sdc ∷ []) v ∙ run_sdc _ [] ∙ run_nil _)

recover_bus-log :
    {W : Type 0} (t : Transport W) (d : Descriptor) (s : State (W × List Event))
    → let r = recover_bus (traced t) (some d) s in
      ((r.0 ≡ true)
        × (r.1.world.1
            ≡ sent (to_listener d Cmd.sdc)
                ∷ (if s.board.ren_requested then set_ren true ∷ [] else [])
              ++ (took_control false ∷ pulsed_ifc ∷ did_soft_reset ∷ s.world.1)))
      ⊎ ((r.0 ≡ false) × ((r.1.world.1 ≡ s.world.1) ⊎ (r.1.world.1 ≡ did_soft_reset ∷ s.world.1)))
unfolding recover_bus
recover_bus-log t d s = ground arith

-- For a device with an address in 0..30: a recovery that succeeds resets the adapter, clears the
-- interface, takes control and sets REN if it was on, in this order, and then sends bytes that are one
-- addressed command on the bus, whatever was on it: a selected device clear, which exactly the device
-- receives whose call failed. One that fails made no call, or the reset alone.
pub recover_bus_clears :
    {W : Type 0} (t : Transport W) (d : Descriptor) (s : State (W × List Event))
    → IsAddress d.pad d.sad
    → let r = recover_bus (traced t) (some d) s in
      ((r.0 ≡ true)
        × (bytes : List ℕ) × (r.1.world.1
            ≡ sent bytes ∷ (if s.board.ren_requested then set_ren true ∷ [] else [])
              ++ (took_control false ∷ pulsed_ifc ∷ did_soft_reset ∷ s.world.1))
        × ((u : Bus)
            → (bus_run u bytes).orders
              ≡ record { command = Cmd.sdc; receivers = party d.pad d.sad ∷ [] } ∷ u.orders))
      ⊎ ((r.0 ≡ false) × ((r.1.world.1 ≡ s.world.1) ⊎ (r.1.world.1 ≡ did_soft_reset ∷ s.world.1)))
recover_bus_clears t d s v = elim (recover_bus-log t d s) [
  | inl (done, log) ↦ inl (done, to_listener d Cmd.sdc, log, λ u. bus_run-to_listener u d v)
  | inr stuck ↦ inr stuck
]

bus_of-ren :
    (u : Bus) (ren : Bool) (es : List Event)
    → bus_of u ((if ren then set_ren true ∷ [] else []) ++ es) ≡ bus_of u es
bus_of-ren u true es = refl
bus_of-ren u false es = refl

-- What a recovery adds to the addressed commands on the bus: nothing, or the clear of the device.
pub recover_bus_orders :
    {W : Type 0} (t : Transport W) (d : Descriptor) (s : State (W × List Event)) (u : Bus)
    → IsAddress d.pad d.sad
    → let r = recover_bus (traced t) (some d) s in
      ((bus_of u r.1.world.1).orders ≡ (bus_of u s.world.1).orders)
      ⊎ ((r.0 ≡ true)
          × ((bus_of u r.1.world.1).orders
              ≡ record { command = Cmd.sdc; receivers = party d.pad d.sad ∷ [] }
                ∷ (bus_of u s.world.1).orders))
recover_bus_orders t d s u v = elim (recover_bus_clears t d s v) [
  | inl (done, bytes, log, clears) ↦ inr (
    done,
    ap (λ l. (bus_of u l).orders) log
        ∙ clears _
        ∙ ap (λ b. record { command = Cmd.sdc; receivers = party d.pad d.sad ∷ [] } ∷ b.orders)
            (bus_of-ren u s.board.ren_requested _),
  )
  | inr (failed, inl still) ↦ inl (ap (λ l. (bus_of u l).orders) still)
  | inr (failed, inr reset) ↦ inl (ap (λ l. (bus_of u l).orders) reset)
]

-- After a recovery the transfers on record are the same.
pub recover_bus-transfers :
    {W : Type 0} (t : Transport W) (desc : Option Descriptor) (s : State (W × List Event))
    → transfers (recover_bus (traced t) desc s).1.world.1 ≡ transfers s.world.1
unfolding recover_bus
recover_bus-transfers t none s = ground arith
recover_bus-transfers t (some d) s = ground arith
