-- ===== src/Board/Transfer/Delivered.antt =====
-- `write` and `read` of GPIBBoard.cpp from the guards to the report: every way in which they end.
use darwin_gpib.Prelude.{
  ℕ, ◌≡◌, ◌≢◌, ◌⊎◌, ◌↔◌, inl, inr, ap, ◌∙◌, arith, Bool, true, List, [], ◌∷◌, some,
}
use darwin_gpib.Prelude.Int.{ℤ}
use darwin_gpib.Transport.{Transport}
use darwin_gpib.Board.{Descriptor}
use darwin_gpib.Board.Monad.{State}
use darwin_gpib.Board.Table.{descriptor_for}
use darwin_gpib.Board.Address.{address_for_write, address_for_read}
use darwin_gpib.Board.Transfer.{write, read, use_eoi, with_retry}
use darwin_gpib.Board.Transfer.Laws.{with_retry-write, with_retry-read}
use darwin_gpib.Board.Trace.{Event, traced, transfers, wrote, received}
use darwin_gpib.Board.Transfer.Phases.{
  Reports, Refused, asked_to_listen, asked_to_talk, write_phase, read_phase, write_to_ends,
  read_from_ends, write_guards, read_guards,
}

module _ {W : Type 0} (t : Transport W) (handle : ℤ) (s : State (W × List Event)) where
  -- Whatever the handle, the board and the adapter's answers, `write` ends in one of two ways. There is
  -- no transfer, and it reports a count of 0 and ERR with EARG without a descriptor or a transport, with
  -- ENEB on a board that is offline, or with EABO or ENOL when the adapter did not take the addressing
  -- bytes at first. Or it makes one transfer as its last call, of the whole buffer with the descriptor's
  -- time limit, with EOI exactly when it was asked for and the descriptor has it on; if the adapter took
  -- the addressing bytes at first, nothing came in between. Then it reports the adapter's count, and
  -- CMPL for success, EABO with TIMO for a timeout, ECIC for an abort, EBUS for any other code.
  pub write_delivered :
      (buf : List ℕ) (send_eoi : Bool)
      → let r = write (traced t) handle buf send_eoi s in
        ((transfers r.1.world.1 ≡ transfers s.world.1)
          × (r.0.count ≡ 0)
          × Refused s handle (λ d. (asked_to_listen t d s).0) r.0.reply)
        ⊎ ((d : Descriptor) × (eoi : Bool) × (w : W) × (before : List Event) × (descriptor_for
                s.board handle
              ≡ some d)
            × (r.1.world.1 ≡ wrote buf eoi d.timeout_us ∷ before)
            × (transfers before ≡ transfers s.world.1)
            × ((eoi ≡ true) ↔ ((send_eoi ≡ true) × (d.eot ≢ 0)))
            × ((asked_to_listen t d s).0 ≡ 0 → w ≡ (asked_to_listen t d s).1)
            × (let x = t.write_data buf eoi d.timeout_us w in
                (r.1.world.0 ≡ x.1) × (r.0.count ≡ x.0.count) × Reports x.0.rc 0 r.0.reply))
  write_delivered buf send_eoi =
      elim (write_guards (traced t) handle s buf send_eoi (λ d. (asked_to_listen t d s).0)) [
        | inr (still, count, why) ↦ inl (ap (λ w. transfers w.1) still, count, why)
        | inl (d, found, run) ↦
            let a = with_retry (traced t) d (address_for_write (traced t) d) s in
            let (_, quiet, _) = with_retry-write t d s in
            let (refused, taken) = write_phase t d s in
            rw run (elim (write_to_ends t d s buf send_eoi) [
              | inl (bad, world, count, sta, code) ↦ inl (
                ap (λ w. transfers w.1) world ∙ quiet,
                count,
                (sta, inr (inr (rw code ((refused bad).0), d, found, (refused bad).1))),
              )
              | inr (good, log, world, count, reports) ↦ inr (
                d,
                use_eoi send_eoi d,
                a.1.world.0,
                a.1.world.1,
                found,
                log,
                quiet,
                ground arith,
                taken,
                (world, count, reports),
              )
            ])
      ]

  -- Whatever the handle, the board and the adapter's answers, `read` ends in one of two ways. There is
  -- no transfer and there are no bytes, and it reports a count of 0 and ERR with EARG without a
  -- descriptor or a transport, with ENEB on a board that is offline, or with EABO or ENOL when the
  -- adapter did not take the addressing bytes at first. Or its last call asks the adapter for the bytes,
  -- once, with the descriptor's EOS settings and time limit; if the adapter took the addressing bytes
  -- at first, nothing came in between. Then it hands back the adapter's bytes, count and END flag, and
  -- reports CMPL for success, with END where it was seen, EABO with TIMO for a timeout, ECIC for an
  -- abort, EBUS for any other code.
  pub read_delivered :
      (n : ℕ)
      → let r = read (traced t) handle n s in
        ((transfers r.1.world.1 ≡ transfers s.world.1)
          × (r.0.bytes ≡ [])
          × (r.0.count ≡ 0)
          × (r.0.end_flag ≡ 0)
          × Refused s handle (λ d. (asked_to_talk t d s).0) r.0.reply)
        ⊎ ((d : Descriptor) × (w : W) × (before : List Event) × (descriptor_for s.board handle
              ≡ some d)
            × (r.1.world.1 ≡ received n d.timeout_us ∷ before)
            × (transfers before ≡ transfers s.world.1)
            × ((asked_to_talk t d s).0 ≡ 0 → w ≡ (asked_to_talk t d s).1)
            × (let x = t.read_data n d.eos_char d.eos_flags d.timeout_us w in
                (r.1.world.0 ≡ x.1)
                × (r.0.bytes ≡ x.0.bytes)
                × (r.0.count ≡ x.0.count)
                × (r.0.end_flag ≡ x.0.end_flag)
                × Reports x.0.rc x.0.end_flag r.0.reply))
  read_delivered n = elim (read_guards (traced t) handle s n (λ d. (asked_to_talk t d s).0)) [
    | inr (still, bytes, count, flag, why) ↦
        inl (ap (λ w. transfers w.1) still, bytes, count, flag, why)
    | inl (d, found, run) ↦
        let a = with_retry (traced t) d (address_for_read (traced t) d) s in
        let (_, quiet, _) = with_retry-read t d s in
        let (refused, taken) = read_phase t d s in
        rw run (elim (read_from_ends t d s n) [
          | inl (bad, world, bytes, count, flag, sta, code) ↦ inl (
            ap (λ w. transfers w.1) world ∙ quiet,
            bytes,
            count,
            flag,
            (sta, inr (inr (rw code ((refused bad).0), d, found, (refused bad).1))),
          )
          | inr (good, log, world, bytes, count, flag, reports) ↦ inr (
            d,
            a.1.world.0,
            a.1.world.1,
            found,
            log,
            quiet,
            taken,
            (world, bytes, count, flag, reports),
          )
        ])
  ]
