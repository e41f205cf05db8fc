-- ===== src/Lifecycle/Ni.antt =====
-- NIUSBTransport.cpp: `openPipes`, `attach`, `detach` and `free`.
use darwin_gpib.Prelude.{ℕ, true, false, ◌&&◌, ◌==◌, if◌then◌else◌}
use darwin_gpib.Transport.Rc
use darwin_gpib.Usb.{Pipes, ◌>>=◌, and_then}
use darwin_gpib.NiUsb.Exchange.{Ends, bulk_buffer_size, run_init_sequence}
use darwin_gpib.Lifecycle.{Host, Held, H, acquire, acquire_interrupt, close_pipes}

-- The endpoints: NIUSB_HS_BULK_OUT_EP, and NIUSB_HS_BULK_IN_EP and NIUSB_HS_INTERRUPT_IN_EP with the bit
-- for input.
abbrev bulk_out_ep : ℕ
bulk_out_ep = 0x06

abbrev bulk_in_ep : ℕ
bulk_in_ep = 0x88

abbrev interrupt_in_ep : ℕ
interrupt_in_ep = 0x81

abbrev pub ends_of : Held → Ends
ends_of h = record { out_ready = h.out_pipe && h.out_buffer; in_ready = h.in_pipe && h.in_buffer }

module _ {W : Type 0} (n : Host W) (q : Pipes W) where
  unfoldable pub open_pipes : H W ℕ
  open_pipes = do
    a ← acquire (n.copy_pipe bulk_out_ep) (λ h. record h { out_pipe = true })
    and_then a (do
      b ← acquire (n.copy_pipe bulk_in_ep) (λ h. record h { in_pipe = true })
      and_then b (do
        i ← acquire_interrupt (n.copy_pipe interrupt_in_ep)
        c ← acquire (n.create_buffer bulk_buffer_size) (λ h. record h { out_buffer = true })
        and_then c
            (acquire (n.create_buffer bulk_buffer_size) (λ h. record h { in_buffer = true }))))

  unfoldable pub attach : H W ℕ
  attach s =
      let (rc, s') = open_pipes s in
      let (started, w) = run_init_sequence q (ends_of s'.0) s'.1 in
      if rc == Rc.success then (started, (s'.0, w)) else (rc, s')

  unfoldable pub detach : H W (Unit {0})
  detach s = (tt, (close_pipes s.0, s.1))

  -- `free` closes the pipes and lets the buffers go.
  unfoldable pub free : H W (Unit {0})
  free s = (tt, (record (close_pipes s.0) { out_buffer = false; in_buffer = false }, s.1))
