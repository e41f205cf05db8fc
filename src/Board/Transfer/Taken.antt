-- ===== src/Board/Transfer/Taken.antt =====
-- `write` of GPIBBoard.cpp where the adapter takes the addressing bytes at once, in the transport's calls.
use darwin_gpib.Prelude.{ℕ, ◌≡◌, arith, Bool, true, List, some, ◌==◌, if◌then◌else◌}
use darwin_gpib.Prelude.Int.{ℤ}
use darwin_gpib.Transport.{Transport}
use darwin_gpib.Board.{Descriptor}
use darwin_gpib.Board.Monad.{State}
use darwin_gpib.Board.Table.{descriptor_for}
use darwin_gpib.Board.Address.{write_addressing, address_for_write, addressed}
use darwin_gpib.Board.Transfer.{write, use_eoi, transfer_iberr, with_retry}

pub write_taken :
    {W : Type 0} (t : Transport W) (handle : ℤ) (s : State W) (d : Descriptor)
    → descriptor_for s.board handle ≡ some d
    → s.board.has_transport ≡ true
    → s.board.online ≡ true
    → (buf : List ℕ) (send_eoi : Bool)
    → (t.send_command_bytes (write_addressing s.board d) s.world).0 ≡ 0
    → let r = write t handle buf send_eoi s in
      let w = (t.send_command_bytes (write_addressing s.board d) s.world).1 in
      let x = t.write_data buf (use_eoi send_eoi d) d.timeout_us w in
      (r.0.count ≡ x.0.count)
      × (r.1.world ≡ x.1)
      × (r.0.reply.iberr ≡ (if x.0.rc == 0 then 0 else transfer_iberr x.0.rc))
unfolding write address_for_write with_retry addressed
write_taken t handle s d found here online buf send_eoi taken = ground arith
