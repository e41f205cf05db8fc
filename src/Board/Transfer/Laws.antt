-- ===== src/Board/Transfer/Laws.antt =====
-- `write` and `read` of GPIBBoard.cpp: the addressing phase with its one retry.
use darwin_gpib.Prelude.{ℕ, ◌≡◌, ◌⊎◌, inl, inr, refl, ap, ◌∙◌, true, List, ◌∷◌, some, Bool-cases}
use darwin_gpib.Transport.{Transport}
use darwin_gpib.Board.{Board, Descriptor}
use darwin_gpib.Board.Monad.{State, M, Reply}
use darwin_gpib.Board.Address.{
  address_for_write, address_for_read, failed, write_addressing, read_addressing,
}
use darwin_gpib.Board.Recover.{recover_bus}
use darwin_gpib.Board.Recover.Laws.{recover_bus-board, recover_bus-transfers}
use darwin_gpib.Board.Transfer.{with_retry}
use darwin_gpib.Board.Trace.{Event, traced, transfers, sent}

-- What an addressing phase has to do: `bytes` are the last thing sent, unless it failed.
abbrev pub Aims :
    {W : Type 0} → List ℕ → State (W × List Event) → Reply × State (W × List Event) → Type 0
Aims bytes s r =
    (r.1.board ≡ s.board)
    × (transfers r.1.world.1 ≡ transfers s.world.1)
    × ((failed r.0 ≡ true)
        ⊎ ((before : List Event) × (r.1.world.1 ≡ sent bytes ∷ before)
            × (transfers before ≡ transfers s.world.1)))

module _ {W : Type 0} (t : Transport W) (d : Descriptor) (bytes : Board → List ℕ)
    (address : M (W × List Event) Reply)
    (one : (s : State (W × List Event)) → (address s).1.board ≡ s.board)
    (two : (s : State (W × List Event))
      → (address s).1.world.1 ≡ sent (bytes s.board) ∷ s.world.1) where
  -- Where the addressing phase succeeds, the addressing bytes are the last thing sent; it makes no
  -- transfer and leaves the board alone.
  with_retry-Aims :
      (s : State (W × List Event)) → Aims (bytes s.board) s (with_retry (traced t) d address s)
  unfolding with_retry
  with_retry-Aims s =
      let s2 = (recover_bus (traced t) (some d) (address s).1).1 in
      let same : s2.board ≡ s.board = recover_bus-board (traced t) (some d) (address s).1 ∙ one s in
      let quiet : transfers s2.world.1 ≡ transfers s.world.1 =
        recover_bus-transfers t (some d) (address s).1 ∙ ap transfers (two s) in
      elim (Bool-cases (failed (address s).0)) [
        | inl bad ↦ elim (Bool-cases (recover_bus (traced t) (some d) (address s).1).0) [
          | inl again ↦
              rw (bad, again)
                (
                  one s2 ∙ same,
                  ap transfers (two s2) ∙ quiet,
                  inr (s2.world.1, two s2 ∙ ap (λ b. sent (bytes b) ∷ s2.world.1) same, quiet),
                )
          | inr stuck ↦ rw (bad, stuck) (same, quiet, inl bad)
        ]
        | inr good ↦ rw good (one s, ap transfers (two s), inr (s.world.1, two s, refl))
      ]

module _ {W : Type 0} (t : Transport W) (d : Descriptor) (s : State (W × List Event)) where
  pub with_retry-write :
      Aims
        (write_addressing s.board d)
        s
        (with_retry (traced t) d (address_for_write (traced t) d) s)
  unfolding address_for_write
  with_retry-write =
      with_retry-Aims t d (λ b. write_addressing b d) (address_for_write (traced t) d) (λ s. refl)
        (λ s. refl) s

  pub with_retry-read :
      Aims (read_addressing s.board d) s (with_retry (traced t) d (address_for_read (traced t) d) s)
  unfolding address_for_read
  with_retry-read =
      with_retry-Aims t d (λ b. read_addressing b d) (address_for_read (traced t) d) (λ s. refl)
        (λ s. refl) s
