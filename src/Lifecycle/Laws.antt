-- ===== src/Lifecycle/Laws.antt =====
-- What a transport holds after `attach`, `detach` and `free`.
use darwin_gpib.Prelude.{
  ℕ, ◌≡◌, ◌⊎◌, inl, inr, refl, arith, Bool, true, false, List, Option, none, some, Option-cases,
}
use darwin_gpib.Transport.Rc
use darwin_gpib.Usb.{Kern, Device, Pipes, map_io_return}
use darwin_gpib.Kusb.BringUp.{run_bring_up_sequence}
use darwin_gpib.Lifecycle.{Host, Held, acquire, acquire_device, unless_returned, acquire_interrupt}
use darwin_gpib.Lifecycle.Ni
use darwin_gpib.Lifecycle.Agilent
use darwin_gpib.Lifecycle.Kusb

acquired :
    {S : Type 0} (f : S → Kern × S) (grant : Held → Held) (s : Held × S)
    → (acquire f grant s).0 ≡ Rc.success
    → (acquire f grant s).1.0 ≡ grant s.0
unfolding acquire map_io_return
acquired f grant s ok = ground arith

-- A copy that succeeds and leaves no device.
abbrev pub Lacks : {S : Type 0} → (S → (Kern × Bool) × S) → S → Type 0
Lacks copy c = (copy c).0 ≡ (Kern.success, false)

-- The way on is with a device; success at once is a copy that left none.
device_acquired :
    {S : Type 0} (copy : S → (Kern × Bool) × S) (open_it : S → Kern × S) (s : Held × S)
    → ((acquire_device copy open_it s).0 ≡ none → (acquire_device copy open_it s).1.0.device ≡ true)
      × ((acquire_device copy open_it s).0 ≡ some Rc.success
          → Lacks copy s.1 × ((acquire_device copy open_it s).1.0 ≡ record s.0 { device = false }))
unfolding acquire_device map_io_return
device_acquired copy open_it s = ground arith

-- The pointers that the optional pipe leaves alone.
abbrev SameButInterrupt : Held → Held → Type 0
SameButInterrupt h k =
    (h.device ≡ k.device)
    × (h.out_pipe ≡ k.out_pipe)
    × (h.in_pipe ≡ k.in_pipe)
    × (h.out_buffer ≡ k.out_buffer)
    × (h.in_buffer ≡ k.in_buffer)

interrupt_acquired :
    {S : Type 0} (f : S → Kern × S) (s : Held × S)
    → SameButInterrupt (acquire_interrupt f s).1.0 s.0
unfolding acquire_interrupt
interrupt_acquired f s = (refl, refl, refl, refl, refl)

-- What a transport with two pipes has after opening them: the device as it was.
abbrev Opened : Held → Held → Type 0
Opened h before =
    (h.device ≡ before.device)
    × (h.out_pipe ≡ true)
    × (h.in_pipe ≡ true)
    × (h.out_buffer ≡ true)
    × (h.in_buffer ≡ true)

module _ {W : Type 0} (n : Host W) where
  ni_opened :
      (q : Pipes W) (s : Held × W)
      → (Ni.open_pipes n q s).0 ≡ Rc.success
      → Opened (Ni.open_pipes n q s).1.0 s.0
  unfolding Ni.open_pipes acquire acquire_interrupt map_io_return
  ni_opened q s ok = ground arith

  agilent_opened :
      (v : Device W) (product_id : ℕ) (s : Held × Agilent.Cached W)
      → (Agilent.open_pipes n v product_id s).0 ≡ Rc.success
      → Opened (Agilent.open_pipes n v product_id s).1.0 s.0
  unfolding Agilent.open_pipes acquire acquire_interrupt map_io_return
  agilent_opened v product_id s ok = ground arith

  -- An Agilent 82357 that attaches, whatever it held before, has its device, its two pipes and their
  -- buffers, or `CopyDevice` succeeded and left no device, and then it has none and stopped there.
  agilent_attached :
      (v : Device W) (product_id : ℕ) (s : Held × Agilent.Cached W)
      → (Agilent.attach n v product_id s).0 ≡ Rc.success
      → let h = (Agilent.attach n v product_id s).1.0 in
        (Agilent.ends_of h ≡ record { out_ready = true; in_ready = true; device_ready = true })
        ⊎ (Lacks n.copy_device s.1.world × (h ≡ record s.0 { device = false }))
  unfolding Agilent.attach Agilent.initialise unless_returned
  agilent_attached v product_id s ok =
      let copy = Agilent.on_world n.copy_device in
      let open_it = Agilent.on_world n.open_device in
      let held = acquire_device copy open_it s in
      let (on, early) = device_acquired copy open_it s in
      elim (Option-cases held.0) [
        | inl went ↦ inl (ground (arith, on went, agilent_opened v product_id held.1))
        | inr (rc, stopped) ↦ inr (ground (arith, stopped, early))
      ]

  ni_attached :
      (q : Pipes W) (s : Held × W)
      → (Ni.attach n q s).0 ≡ Rc.success
      → Ni.ends_of (Ni.attach n q s).1.0 ≡ record { out_ready = true; in_ready = true }
  unfolding Ni.attach
  ni_attached q s ok = ground (arith, ni_opened q s)

  -- The buffers of the KUSB-488B: the pipes as they were.
  kusb_buffers :
      (v : Device W) (descriptors : Option (List ℕ × List ℕ)) (s : Held × Kusb.Wired W)
      → (Kusb.buffers n v descriptors s).0 ≡ Rc.success
      → let h = (Kusb.buffers n v descriptors s).1.0 in
        ((h.device ≡ s.0.device)
          × (h.out_pipe ≡ s.0.out_pipe)
          × (h.command_pipe ≡ s.0.command_pipe)
          × (h.in_pipe ≡ s.0.in_pipe))
        × ((h.out_buffer ≡ true) × (h.in_buffer ≡ true) × (h.control_buffer ≡ true))
  unfolding Kusb.buffers Kusb.buffer acquire map_io_return
  kusb_buffers v descriptors s ok = ground arith

  piped :
      (v : Device W) (descriptors : Option (List ℕ × List ℕ)) (number : ℕ) (grant : Held → Held)
      (s : Held × Kusb.Wired W)
      → (Kusb.pipe n v descriptors number grant s).0 ≡ Rc.success
      → (Kusb.pipe n v descriptors number grant s).1.0 ≡ grant s.0
  unfolding Kusb.pipe
  piped v descriptors number grant s ok = acquired (Kusb.on_world (n.copy_pipe number)) grant s ok

  kusb_opened :
      (v : Device W) (descriptors : Option (List ℕ × List ℕ)) (s : Held × Kusb.Wired W)
      → (Kusb.open_pipes n v descriptors s).0 ≡ Rc.success
      → let h = (Kusb.open_pipes n v descriptors s).1.0 in
        ((h.device ≡ s.0.device)
          × (h.out_pipe ≡ true)
          × (h.command_pipe ≡ true)
          × (h.in_pipe ≡ true))
        × ((h.out_buffer ≡ true) × (h.in_buffer ≡ true) × (h.control_buffer ≡ true))
  unfolding Kusb.open_pipes
  kusb_opened v descriptors s ok =
      let eps = s.1.endpoints in
      let d = descriptors in
      let out = λ (h : Held). record h { out_pipe = true } in
      let command = λ (h : Held). record h { command_pipe = true } in
      let inward = λ (h : Held). record h { in_pipe = true } in
      let a = Kusb.pipe n v d eps.data_out out s in
      let b = Kusb.pipe n v d eps.cmd_out command a.1 in
      let c = Kusb.pipe n v d eps.data_in inward b.1 in
      ground (
        arith,
        piped v d eps.data_out out s,
        piped v d eps.cmd_out command a.1,
        piped v d eps.data_in inward b.1,
        kusb_buffers v d c.1,
      )

  kusb_resolved :
      (v : Device W) (descriptors : Option (List ℕ × List ℕ)) (s : Held × Kusb.Wired W)
      → (Kusb.resolve n v descriptors s).1.0 ≡ s.0
  unfolding Kusb.resolve
  kusb_resolved v descriptors s = ground arith

  kusb_brought_up :
      (v : Device W) (descriptors : Option (List ℕ × List ℕ)) (s : Held × Kusb.Wired W)
      → (Kusb.bring_up n v descriptors s).0 ≡ Rc.success
      → ((Kusb.bring_up n v descriptors s).1.0 ≡ s.0)
        × ((Kusb.bring_up n v descriptors s).1.1.session.rfd_holdoff_pending ≡ false)
  unfolding Kusb.bring_up run_bring_up_sequence
  kusb_brought_up v descriptors s ok = ground arith

  -- A KUSB-488B whose `attach` succeeds, whatever it held before: either it has its device, its three
  -- pipes and its three buffers, and no holdoff is pending; or `CopyDevice` succeeded and left no device,
  -- and then `attach` went no further, and the transport has no device and otherwise what it had before.
  pub kusb_attached :
      (v : Device W) (descriptors : Option (List ℕ × List ℕ)) (s : Held × Kusb.Wired W)
      → (Kusb.attach n v descriptors s).0 ≡ Rc.success
      → let s' = (Kusb.attach n v descriptors s).1 in
        ((Kusb.ends_of s'.0 ≡ record {
          device_ready = true;
          ctrl_ready = true;
          out_buffer = true;
          in_buffer = true;
          data_out_ready = true;
          cmd_out_ready = true;
          data_in_ready = true;
        })
          × (s'.1.session.rfd_holdoff_pending ≡ false))
        ⊎ (Lacks n.copy_device s.1.session.world × (s'.0 ≡ record s.0 { device = false }))
  unfolding Kusb.attach unless_returned
  kusb_attached v descriptors s ok =
      let copy = Kusb.on_world n.copy_device in
      let open_it = Kusb.on_world n.open_device in
      let held = acquire_device copy open_it s in
      let resolved = Kusb.resolve n v descriptors held.1 in
      let opened = Kusb.open_pipes n v descriptors resolved.1 in
      let (on, early) = device_acquired copy open_it s in
      elim (Option-cases held.0) [
        | inl went ↦ inl (
            ground (
              arith,
              on went,
              kusb_resolved v descriptors held.1,
              kusb_opened v descriptors resolved.1,
              kusb_brought_up v descriptors opened.1,
            ))
        | inr (rc, stopped) ↦ inr (ground (arith, stopped, early))
      ]
