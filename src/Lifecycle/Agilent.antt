-- ===== src/Lifecycle/Agilent.antt =====
-- Agilent82357Transport.cpp: `init`, `openPipes`, `attach`, `detach` and `free`. The state beside the
-- pointers is the cached control register with the world.
use darwin_gpib.Prelude.{ℕ, ◌+◌, true, false, ◌&&◌, ◌==◌, if◌then◌else◌, get_or}
use darwin_gpib.Usb.{Device, ◌>>=◌, and_then}
use darwin_gpib.Agilent.Exchange.{Ends, bulk_buffer_size}
use darwin_gpib.Agilent.Operations
use darwin_gpib.Lifecycle.{
  Host, Held, H, acquire, acquire_device, unless_returned, acquire_interrupt, close_pipes,
}

-- The world with `hwControlBits_`.
pub record Cached (W : Type 0) : Type 0 where
  pub hw_control_bits : ℕ
  pub world : W

abbrev pub on_world : {W A : Type 0} → (W → A × W) → Cached W → A × Cached W
on_world f c = let (a, w) = f c.world in (a, record c { world = w })

-- The bulk-out and the interrupt endpoint of a product: the 82357A's, or else the 82357B's.
unfoldable pub endpoints_of : ℕ → ℕ × ℕ
endpoints_of product_id = if product_id == 0x0107 then (0x04, 0x06) else (0x06, 0x08)

abbrev pub ends_of : Held → Ends
ends_of h = record {
  out_ready = h.out_pipe && h.out_buffer;
  in_ready = h.in_pipe && h.in_buffer;
  device_ready = h.device;
}

module _ {W : Type 0} (n : Host W) (v : Device W) (product_id : ℕ) where
  -- The bulk-in endpoint is 0x02, with the bit for input.
  unfoldable pub open_pipes : H (Cached W) ℕ
  unfolding endpoints_of
  open_pipes = do
    a ←
        acquire (on_world (n.copy_pipe (endpoints_of product_id).0))
          (λ h. record h { out_pipe = true })
    and_then a (do
      b ← acquire (on_world (n.copy_pipe 0x82)) (λ h. record h { in_pipe = true })
      and_then b (do
        i ← acquire_interrupt (on_world (n.copy_pipe (0x80 + (endpoints_of product_id).1)))
        c ←
            acquire (on_world (n.create_buffer bulk_buffer_size))
              (λ h. record h { out_buffer = true })
        and_then c (
            acquire (on_world (n.create_buffer bulk_buffer_size))
              (λ h. record h { in_buffer = true }))))

  -- The cached bits are set once the register was read.
  unfoldable pub initialise : H (Cached W) ℕ
  initialise s =
      let (r, w) = Operations.run_init_sequence v (ends_of s.0) s.1.world in
      (r.rc, (s.0, record { hw_control_bits = get_or r.bytes 0 s.1.hw_control_bits; world = w }))

  unfoldable pub attach : H (Cached W) ℕ
  attach = do
    returned ← acquire_device (on_world n.copy_device) (on_world n.open_device)
    unless_returned (do opened ← open_pipes; and_then opened initialise) returned

  unfoldable pub detach : H (Cached W) (Unit {0})
  detach s =
      let (bits, w) = Operations.detach v (ends_of s.0) s.1.hw_control_bits s.1.world in
      (tt, (close_pipes s.0, record { hw_control_bits = bits; world = w }))

  unfoldable pub free : H (Cached W) (Unit {0})
  free s =
      let (closed, c) = on_world n.close_device s.1 in
      (
        tt,
        (
          record (close_pipes s.0) { out_buffer = false; in_buffer = false; device = false },
          if s.0.device then c else s.1,
        ),
      )
