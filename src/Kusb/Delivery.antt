-- ===== src/Kusb/Delivery.antt =====
-- The board's `write` over the KUSB-488B transport, down to the bytes on the pipes.
use darwin_gpib.Prelude.{
  ℕ, ◌^◌, ◌<◌, ◌≡◌, sym, subst, ◌∙◌, arith, Bool, true, List, some, length, ◌==◌, if◌then◌else◌,
}
use darwin_gpib.Prelude.Int.{ℤ}
use darwin_gpib.Transport.{Received}
use darwin_gpib.Transport.Rc
use darwin_gpib.Board.{Descriptor}
use darwin_gpib.Board.Monad.{State}
use darwin_gpib.Board.Table.{descriptor_for}
use darwin_gpib.Board.Address.{write_addressing, then_secondary}
use darwin_gpib.Board.Transfer.{write, use_eoi, transfer_iberr}
use darwin_gpib.Board.Transfer.Taken.{write_taken}
use darwin_gpib.Usb.{Device}
use darwin_gpib.Kusb.{Session, Ends}
use darwin_gpib.Kusb.Wire.{req_begin_cmd, req_begin_write}
use darwin_gpib.Kusb.Control.{data_out_pipe, cmd_out_pipe}
use darwin_gpib.Kusb.Operations.{send_command_bytes, write_data, kusb_transport}
use darwin_gpib.Kusb.Operations.Recording.{Log, eoi_if, recorded, Honest, Carried}
use darwin_gpib.Kusb.Operations.Chunks.{log_of}
use darwin_gpib.Kusb.Operations.Writes.{write_data-Carried}
use darwin_gpib.Kusb.Operations.Commands.{send_command_bytes-Carried}

no_error : (rc : ℕ) → (if rc == 0 then 0 else transfer_iberr rc) ≡ 0 → rc ≡ Rc.success
unfolding transfer_iberr
no_error rc h = ground arith

module _ {W : Type 0} (v : Device W) (honest : Honest v) (e : Ends) (fuel : ℕ) (never : Received)
    (handle : ℤ) (s : State (Session (Log × W))) (d : Descriptor)
    (found : descriptor_for s.board handle ≡ some d) (here : s.board.has_transport ≡ true)
    (online : s.board.online ≡ true) where
  few_bytes : length (write_addressing s.board d) < 2 ^ 32
  unfolding write_addressing then_secondary
  few_bytes = ground arith

  -- `write` over this transport, in the transport's own operations.
  delivered_by :
      (buf : List ℕ) (send_eoi : Bool)
      → let mid = send_command_bytes (recorded v) e (write_addressing s.board d) s.world in
        let r = write (kusb_transport (recorded v) e fuel never) handle buf send_eoi s in
        let x = write_data (recorded v) e buf (use_eoi send_eoi d) d.timeout_us mid.1 in
        mid.0 ≡ Rc.success
        → (r.0.count ≡ x.0.count)
          × (r.1.world ≡ x.1)
          × (r.0.reply.iberr ≡ (if x.0.rc == 0 then 0 else transfer_iberr x.0.rc))
  unfolding kusb_transport
  delivered_by buf send_eoi taken =
      write_taken (kusb_transport (recorded v) e fuel never) handle s d found here online buf
        send_eoi taken

  -- For a descriptor in use on a board that is online and has this transport, whose device reports no
  -- more bytes than it was given: when the adapter takes the addressing bytes and `write` reports no
  -- error, for a buffer of fewer than 2^32 bytes, then the count is the whole buffer, the addressing
  -- bytes of the descriptor went out on the command pipe, and after them, on the data pipe, exactly
  -- the bytes of the buffer, in order and in chunks, with EOI on the last chunk only, where it was
  -- asked for.
  pub write_reaches_pipes :
      (buf : List ℕ) (send_eoi : Bool)
      → length buf < 2 ^ 32
      → let t = kusb_transport (recorded v) e fuel never in
        let mid = (send_command_bytes (recorded v) e (write_addressing s.board d) s.world).1 in
        let r = write t handle buf send_eoi s in
        (send_command_bytes (recorded v) e (write_addressing s.board d) s.world).0 ≡ Rc.success
        → r.0.reply.iberr ≡ 0
        → (r.0.count ≡ length buf)
          × Carried req_begin_cmd
              (λ last. 1)
              cmd_out_pipe
              512
              (write_addressing s.board d)
              (log_of s.world)
              (log_of mid)
          × Carried req_begin_write
              (eoi_if (use_eoi send_eoi d))
              data_out_pipe
              mid.max_data_chunk
              buf
              (log_of mid)
              (log_of r.1.world)
  write_reaches_pipes buf send_eoi small taken fine =
      let t = kusb_transport (recorded v) e fuel never in
      let mid = (send_command_bytes (recorded v) e (write_addressing s.board d) s.world).1 in
      let x = write_data (recorded v) e buf (use_eoi send_eoi d) d.timeout_us mid in
      let delivered = delivered_by buf send_eoi taken in
      let ok : x.0.rc ≡ Rc.success = no_error x.0.rc (sym delivered.2 ∙ fine) in
      let (count, carried) =
        write_data-Carried v honest e buf (use_eoi send_eoi d) d.timeout_us mid small ok in
      (
        delivered.0 ∙ count,
        send_command_bytes-Carried v honest e (write_addressing s.board d) s.world few_bytes taken,
        subst
            (λ w.
              Carried req_begin_write (eoi_if (use_eoi send_eoi d)) data_out_pipe mid.max_data_chunk
                buf (log_of mid) (log_of w))
            (sym delivered.1) carried,
      )
