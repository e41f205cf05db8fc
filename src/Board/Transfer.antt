-- ===== src/Board/Transfer.antt =====
-- GPIBBoard.cpp: `write` and `read`.
pub mod Laws
pub mod Aimed
pub mod Phases
pub mod Delivered
pub mod Orders
pub mod Taken
use darwin_gpib.Prelude.{
  ℕ, Bool, true, false, List, [], Option, none, some, bit_or, ◌==◌, ◌&&◌, not, if◌then◌else◌,
}
use darwin_gpib.Prelude.Int.{ℤ}
use darwin_gpib.Gpib.Iberr
use darwin_gpib.Gpib.Sta
use darwin_gpib.Transport.{Transport, Written, Received}
use darwin_gpib.Transport.Rc
use darwin_gpib.Board.{Board, Descriptor}
use darwin_gpib.Board.Table.{descriptor_for}
use darwin_gpib.Board.Monad.{M, Reply, ◌>>=◌, ◌>>◌, pure, call, get_board, reply}
use darwin_gpib.Board.Address.{address_for_write, address_for_read, failed}
use darwin_gpib.Board.Recover.{recover_bus}

-- What `write` hands back: the status, the error code and the byte count.
pub record Wrote : Type 0 where
  pub reply : Reply
  pub count : ℕ

-- What `read` hands back, with the bytes that it left in the buffer.
pub record GotBytes : Type 0 where
  pub reply : Reply
  pub bytes : List ℕ
  pub count : ℕ
  pub end_flag : ℕ

-- Error code and status of a transfer that the transport refused with `rc`.
unfoldable pub transfer_iberr : ℕ → ℕ
transfer_iberr rc =
    if rc == Rc.err_timeout
    then Iberr.eabo
    else if rc == Rc.err_aborted
    then Iberr.ecic
    else Iberr.ebus

unfoldable pub transfer_failure : ℕ → ℕ
transfer_failure rc = if rc == Rc.err_timeout then bit_or Sta.err Sta.timo else Sta.err

-- `send_eoi && d->eot`.
abbrev pub use_eoi : Bool → Descriptor → Bool
use_eoi send_eoi d = send_eoi && not (d.eot == 0)

-- `CMPL | (endFlag ? END : 0)`.
abbrev pub end_status : ℕ → ℕ
end_status end_flag = if end_flag == 0 then Sta.cmpl else bit_or Sta.cmpl Sta.end_bit

module _ {W : Type 0} (t : Transport W) where
  -- Addressing, and once more after a recovery when it fails.
  unfoldable pub with_retry : Descriptor → M W Reply → M W Reply
  with_retry d address = do
    first ← address
    if failed first
        then (do recovered ← recover_bus t (some d); if recovered then address else pure first)
        else pure first

  refuse_write : ℕ → M W Wrote
  refuse_write iberr = do r ← reply iberr Sta.err; pure (record { reply = r; count = 0 })

  data_out : Descriptor → List ℕ → Bool → M W Wrote
  unfolding transfer_iberr transfer_failure
  data_out d buf send_eoi = do
    r ← call (t.write_data buf (use_eoi send_eoi d) d.timeout_us)
    let done =
        if r.rc == 0 then reply 0 Sta.cmpl else reply (transfer_iberr r.rc) (transfer_failure r.rc)
    out ← done
    pure (record { reply = out; count = r.count })

  pub write_to : Descriptor → List ℕ → Bool → M W Wrote
  unfolding refuse_write data_out
  write_to d buf send_eoi = do
    a ← with_retry d (address_for_write t d)
    if failed a then refuse_write a.iberr else data_out d buf send_eoi

  unfoldable pub write : ℤ → List ℕ → Bool → M W Wrote
  unfolding refuse_write write_to
  write handle buf send_eoi = do
    b ← get_board
    elim (descriptor_for b handle) [
      | none ↦ refuse_write Iberr.earg
      | some d ↦
          if b.has_transport
          then (if b.online then write_to d buf send_eoi else refuse_write Iberr.eneb)
          else refuse_write Iberr.earg
    ]

  refuse_read : ℕ → M W GotBytes
  refuse_read iberr = do
    r ← reply iberr Sta.err
    pure (record { reply = r; bytes = []; count = 0; end_flag = 0 })

  data_in : Descriptor → ℕ → M W GotBytes
  unfolding transfer_iberr transfer_failure
  data_in d request_count = do
    r ← call (t.read_data request_count d.eos_char d.eos_flags d.timeout_us)
    out ←
        if r.rc == 0
        then reply 0 (end_status r.end_flag)
        else reply (transfer_iberr r.rc) (transfer_failure r.rc)
    pure (record { reply = out; bytes = r.bytes; count = r.count; end_flag = r.end_flag })

  pub read_from : Descriptor → ℕ → M W GotBytes
  unfolding refuse_read data_in
  read_from d request_count = do
    a ← with_retry d (address_for_read t d)
    if failed a then refuse_read a.iberr else data_in d request_count

  unfoldable pub read : ℤ → ℕ → M W GotBytes
  unfolding refuse_read read_from
  read handle request_count = do
    b ← get_board
    elim (descriptor_for b handle) [
      | none ↦ refuse_read Iberr.earg
      | some d ↦
          if b.has_transport
          then (if b.online then read_from d request_count else refuse_read Iberr.eneb)
          else refuse_read Iberr.earg
    ]
