-- ===== src/Lifecycle.antt =====
-- `init`, `attach`, `detach` and `free` of the three transports: the pipes, buffers and the device that a
-- transport holds. `Ni`, `Agilent` and `Kusb` have one transport each, `Laws` what they share.
pub mod Ni
pub mod Agilent
pub mod Kusb
pub mod Laws
use darwin_gpib.Prelude.{ℕ, Bool, true, false, ◌&&◌, Option, none, some, if◌then◌else◌}
use darwin_gpib.Usb.{Kern, map_io_return, U}

-- What a transport calls of its interface: `CopyDevice` with `Open`, `Close`, `CopyPipe` on an endpoint,
-- and `Create` on a buffer of that many bytes.
-- `CopyDevice` also says whether it left a device behind the pointer: the transports look at both. The
-- other calls bring an object when they succeed and none when they fail.
pub record Host (W : Type 0) : Type 0 where
  pub copy_device : W → (Kern × Bool) × W
  pub open_device : W → Kern × W
  pub close_device : W → Unit {0} × W
  pub copy_pipe : ℕ → W → Kern × W
  pub create_buffer : ℕ → W → Kern × W

-- The pointers of a transport that are not null. The second pipe out is the KUSB-488B's for commands, the
-- interrupt pipe is not, and the control buffer is its own.
pub record Held : Type 0 where
  pub device : Bool
  pub out_pipe : Bool
  pub command_pipe : Bool
  pub in_pipe : Bool
  pub interrupt_pipe : Bool
  pub out_buffer : Bool
  pub in_buffer : Bool
  pub control_buffer : Bool

-- After `init`, and after `free`.
abbrev pub nothing_held : Held
nothing_held = record {
  device = false;
  out_pipe = false;
  command_pipe = false;
  in_pipe = false;
  interrupt_pipe = false;
  out_buffer = false;
  in_buffer = false;
  control_buffer = false;
}

-- `closePipes`.
unfoldable pub close_pipes : Held → Held
close_pipes h = record h {
  out_pipe = false;
  command_pipe = false;
  in_pipe = false;
  interrupt_pipe = false;
}

-- A step over the pointers and the rest of the state, which has the world in it.
abbrev pub H : Type 0 → Type 0 → Type 0
H S A = Held × S → A × (Held × S)

-- A call that brings an object: the pointer is set when it succeeds.
unfoldable pub acquire : {S : Type 0} → (S → Kern × S) → (Held → Held) → H S ℕ
acquire f grant s =
    let r = f s.1 in (map_io_return r.0, (elim r.0 [ Kern.success ↦ grant s.0 | k ↦ s.0 ], r.1))

-- The device is copied and opened; it is let go again when it does not open. `none` is the way on, and
-- `some` what `attach` returns at once: also where the copy succeeds and leaves no device, and then it is
-- the code of that success.
unfoldable pub acquire_device :
    {S : Type 0} → (S → (Kern × Bool) × S) → (S → Kern × S) → H S (Option ℕ)
acquire_device copy open_it s =
    let c = copy s.1 in
    let o = open_it c.1 in
    elim c.0.0 [
      | Kern.success ↦
          if c.0.1
          then elim o.0 [
            | Kern.success ↦ (none, (record s.0 { device = true }, o.1))
            | k ↦ (some (map_io_return o.0), (record s.0 { device = false }, o.1))
          ]
          else (some (map_io_return c.0.0), (record s.0 { device = false }, c.1))
      | k ↦ (some (map_io_return c.0.0), (s.0, c.1))
    ]

-- The rest of `attach`, unless it has returned.
unfoldable pub unless_returned : {S : Type 0} → H S ℕ → Option ℕ → H S ℕ
unless_returned rest none s = rest s
unless_returned rest (some rc) s = (rc, s)

-- The interrupt pipe, which a transport does without.
unfoldable pub acquire_interrupt : {S : Type 0} → (S → Kern × S) → H S (Unit {0})
acquire_interrupt f s =
    let r = f s.1 in
    (tt, (record s.0 { interrupt_pipe = elim r.0 [ Kern.success ↦ true | k ↦ false ] }, r.1))
