-- ===== src/Lifecycle/Kusb.antt =====
-- KUSB488BTransport.cpp: `init`, `openPipes`, `attach`, `detach` and `free`. The state beside the pointers
-- is the session with the endpoints.
use darwin_gpib.Prelude.{ℕ, true, false, List, Option, none, some, if◌then◌else◌}
use darwin_gpib.Transport.Rc
use darwin_gpib.Usb.{Device, ◌>>=◌, and_then}
use darwin_gpib.Kusb.{Session, Ends}
use darwin_gpib.Kusb.Control.{bulk_buffer_size, abort_transfer}
use darwin_gpib.Kusb.Endpoints.{Endpoints, resolve_endpoints}
use darwin_gpib.Kusb.BringUp.{run_bring_up_sequence}
use darwin_gpib.Lifecycle.{Host, Held, H, acquire, acquire_device, unless_returned, close_pipes}

-- The session with `dataOutEP_`, `cmdOutEP_` and `dataInEP_`.
pub record Wired (W : Type 0) : Type 0 where
  pub endpoints : Endpoints
  pub session : Session W

abbrev pub on_world : {W A : Type 0} → (W → A × W) → Wired W → A × Wired W
on_world f c =
    let (a, w) = f c.session.world in (a, record c { session = record c.session { world = w } })

-- The session after `init`; KUSB_MAX_DATA_CHUNK is 64.
unfoldable pub init : {W : Type 0} → W → Wired W
init w = record {
  endpoints = record { data_out = 0; cmd_out = 0; data_in = 0 };
  session = record {
    ren_asserted = false;
    rfd_holdoff_pending = false;
    max_data_chunk = 64;
    world = w;
  };
}

abbrev pub ends_of : Held → Ends
ends_of h = record {
  device_ready = h.device;
  ctrl_ready = h.control_buffer;
  out_buffer = h.out_buffer;
  in_buffer = h.in_buffer;
  data_out_ready = h.out_pipe;
  cmd_out_ready = h.command_pipe;
  data_in_ready = h.in_pipe;
}

module _ {W : Type 0} (n : Host W) (v : Device W) (descriptors : Option (List ℕ × List ℕ)) where
  -- `descriptors` are those of the configuration and of our interface, where both are there.
  unfoldable pub resolve : H (Wired W) ℕ
  resolve s = elim descriptors [
    | none ↦ (Rc.err_not_ready, s)
    | some d ↦
        let r = resolve_endpoints d.0 d.1 s.1.endpoints in
        (r.0, (s.0, record s.1 { endpoints = r.1 }))
  ]

  unfoldable pub pipe : ℕ → (Held → Held) → H (Wired W) ℕ
  pipe number grant = acquire (on_world (n.copy_pipe number)) grant

  unfoldable pub buffer : ℕ → (Held → Held) → H (Wired W) ℕ
  buffer size grant = acquire (on_world (n.create_buffer size)) grant

  unfoldable pub buffers : H (Wired W) ℕ
  buffers = do
    d ← buffer bulk_buffer_size (λ h. record h { out_buffer = true })
    and_then d (do
      f ← buffer bulk_buffer_size (λ h. record h { in_buffer = true })
      and_then f (buffer 64 (λ h. record h { control_buffer = true })))

  unfoldable pub open_pipes : H (Wired W) ℕ
  open_pipes s =
      let (a, s1) = pipe s.1.endpoints.data_out (λ h. record h { out_pipe = true }) s in
      let rest = (do
        b ← pipe s.1.endpoints.cmd_out (λ h. record h { command_pipe = true })
        and_then b (do
          c ← pipe s.1.endpoints.data_in (λ h. record h { in_pipe = true })
          and_then c buffers)) in
      and_then a rest s1

  unfoldable pub bring_up : H (Wired W) ℕ
  bring_up s =
      let (rc, session) = run_bring_up_sequence v (ends_of s.0) s.1.session in
      (rc, (s.0, record s.1 { session = session }))

  unfoldable pub attach : H (Wired W) ℕ
  attach = do
    returned ← acquire_device (on_world n.copy_device) (on_world n.open_device)
    let rest = (do
      resolved ← resolve
      and_then resolved (do opened ← open_pipes; and_then opened bring_up))
    unless_returned rest returned

  unfoldable pub detach : H (Wired W) (Unit {0})
  detach s =
      let (rc, session) = abort_transfer v (ends_of s.0) s.1.session in
      (tt, (close_pipes s.0, if s.0.device then record s.1 { session = session } else s.1))

  unfoldable pub free : H (Wired W) (Unit {0})
  free s =
      let (closed, c) = on_world n.close_device s.1 in
      (
        tt,
        (
          record (close_pipes s.0) {
            out_buffer = false;
            in_buffer = false;
            control_buffer = false;
            device = false;
          },
          if s.0.device then c else s.1,
        ),
      )
