-- ===== src/Kusb/Operations/Fuel.antt =====
-- The loops of the transport that run on fuel: as much fuel as there are bytes is enough.
use darwin_gpib.Prelude.{
  ℕ, zero, suc, ◌+◌, ◌≤◌, ◌≡◌, refl, arith, Bool, List, [], ◌∷◌, ◌==◌, ◌||◌, ltb, length,
  length-drop, take, drop, Bool-cases, inl, inr,
}
use darwin_gpib.Usb.{Device}
use darwin_gpib.Kusb.{Session, Ends}
use darwin_gpib.Kusb.Control.{send_part, bulk_loop, bulk_buffer_size}
use darwin_gpib.Kusb.Firmware.{chunk_of, write_chunk, write_loop, command_chunk, command_loop}
use darwin_gpib.Kusb.Operations.Recording.{chunk_of-Sized}
use darwin_gpib.Kusb.Operations.Sends.{Part-cases}

module _ {W : Type 0} (v : Device W) (e : Ends) where
  bulk_loop-fuel :
      (f g pipe ms : ℕ) (bytes : List ℕ) (s : Session W)
      → length bytes ≤ f
      → length bytes ≤ g
      → bulk_loop v e f pipe ms bytes s ≡ bulk_loop v e g pipe ms bytes s
  unfolding bulk_loop
  bulk_loop-fuel zero zero pipe ms bytes s hf hg = refl
  bulk_loop-fuel (suc f) zero pipe ms [] s hf hg = refl
  bulk_loop-fuel zero (suc g) pipe ms [] s hf hg = refl
  bulk_loop-fuel (suc f) (suc g) pipe ms [] s hf hg = refl
  bulk_loop-fuel (suc f) zero pipe ms (x ∷ xs) s hf hg = absurd (omega arith)
  bulk_loop-fuel zero (suc g) pipe ms (x ∷ xs) s hf hg = absurd (omega arith)
  bulk_loop-fuel (suc f) (suc g) pipe ms (x ∷ xs) s hf hg =
      let r = send_part v e pipe ms (take bulk_buffer_size (x ∷ xs)) s in
      elim (Part-cases r.0) [
        | inl (rc, is) ↦ rw (bulk_loop, is) refl
        | inr (count, is) ↦ elim (Bool-cases ((count == 0) || ltb (length (x ∷ xs)) count)) [
          | inl over ↦ rw (bulk_loop, is, over) refl
          | inr on ↦
              let left = length-drop count (x ∷ xs) in
              let fewer : length (drop count (x ∷ xs)) ≤ length xs = ground (arith, left) in
              let rest =
                bulk_loop-fuel f g pipe ms (drop count (x ∷ xs)) r.1 (omega arith) (omega arith) in
              rw (bulk_loop, is, on) rest
        ]
      ]

  write_loop-fuel :
      (f g limit : ℕ) (send_eoi : Bool) (timeout_us done : ℕ) (buf : List ℕ) (s : Session W)
      → length buf ≤ f
      → length buf ≤ g
      → write_loop v e f limit send_eoi timeout_us done buf s
        ≡ write_loop v e g limit send_eoi timeout_us done buf s
  unfolding write_loop
  write_loop-fuel zero zero limit send_eoi timeout_us done buf s hf hg = refl
  write_loop-fuel (suc f) zero limit send_eoi timeout_us done [] s hf hg = refl
  write_loop-fuel zero (suc g) limit send_eoi timeout_us done [] s hf hg = refl
  write_loop-fuel (suc f) (suc g) limit send_eoi timeout_us done [] s hf hg = refl
  write_loop-fuel (suc f) zero limit send_eoi timeout_us done (x ∷ xs) s hf hg =
      absurd (omega arith)
  write_loop-fuel zero (suc g) limit send_eoi timeout_us done (x ∷ xs) s hf hg =
      absurd (omega arith)
  write_loop-fuel (suc f) (suc g) limit send_eoi timeout_us done (x ∷ xs) s hf hg =
      let chunk = chunk_of limit (x ∷ xs) in
      let (small, fits) = chunk_of-Sized limit x xs in
      let left = length-drop (length chunk) (x ∷ xs) in
      let s' = (write_chunk v e send_eoi (length chunk == length (x ∷ xs)) timeout_us chunk s).1 in
      let rest =
        write_loop-fuel f g limit send_eoi timeout_us (done + length chunk)
          (drop (length chunk) (x ∷ xs)) s' (omega (arith, small.0)) (omega (arith, small.0)) in
      ground arith

  command_loop-fuel :
      (f g : ℕ) (cmds : List ℕ) (s : Session W)
      → length cmds ≤ f
      → length cmds ≤ g
      → command_loop v e f cmds s ≡ command_loop v e g cmds s
  unfolding command_loop
  command_loop-fuel zero zero cmds s hf hg = refl
  command_loop-fuel (suc f) zero [] s hf hg = refl
  command_loop-fuel zero (suc g) [] s hf hg = refl
  command_loop-fuel (suc f) (suc g) [] s hf hg = refl
  command_loop-fuel (suc f) zero (c ∷ cs) s hf hg = absurd (omega arith)
  command_loop-fuel zero (suc g) (c ∷ cs) s hf hg = absurd (omega arith)
  command_loop-fuel (suc f) (suc g) (c ∷ cs) s hf hg =
      let s' = (command_chunk v e (take 512 (c ∷ cs)) s).1 in
      let left = length-drop 512 (c ∷ cs) in
      let rest =
        command_loop-fuel f g (drop 512 (c ∷ cs)) s' (omega (arith, left)) (omega (arith, left)) in
      ground arith

  -- The three loops that cut a buffer up, over a bulk pipe, in data transfers and in command transfers,
  -- end within as many rounds as there are bytes, whatever the device does: rounds beyond those change
  -- neither the result nor what was done.
  loops_end :
      (extra pipe ms limit : ℕ) (send_eoi : Bool) (timeout_us done : ℕ) (bytes : List ℕ)
      (s : Session W)
      → let n : ℕ = length bytes in
        (bulk_loop v e (n + extra) pipe ms bytes s ≡ bulk_loop v e n pipe ms bytes s)
        × (write_loop v e (n + extra) limit send_eoi timeout_us done bytes s
            ≡ write_loop v e n limit send_eoi timeout_us done bytes s)
        × (command_loop v e (n + extra) bytes s ≡ command_loop v e n bytes s)
  loops_end extra pipe ms limit send_eoi timeout_us done bytes s =
      let n : ℕ = length bytes in
      (
        bulk_loop-fuel (n + extra) n pipe ms bytes s (omega arith) (omega arith),
        write_loop-fuel (n + extra) n limit send_eoi timeout_us done bytes s (omega arith)
            (omega arith),
        command_loop-fuel (n + extra) n bytes s (omega arith) (omega arith),
      )
