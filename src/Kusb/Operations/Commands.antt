-- ===== src/Kusb/Operations/Commands.antt =====
-- The firmware pipeline's commands against the log of the device.
use darwin_gpib.Prelude.{
  ℕ, zero, suc, ◌^◌, ◌<◌, ◌≡◌, ◌≢◌, refl, ap, sym, ◌∙◌, subst, arith, false, List, [], ◌∷◌, ◌++◌,
  ◌==◌, length, length-take, take, drop, take_all, drop_all, ltb→lt, length-drop, Bool-cases, inl,
  inr, ltb,
}
use darwin_gpib.Transport.Rc
use darwin_gpib.Usb.{Device}
use darwin_gpib.Kusb.{Session, Ends}
use darwin_gpib.Kusb.Wire.{req_begin_cmd}
use darwin_gpib.Kusb.Control.{cmd_out_pipe}
use darwin_gpib.Kusb.Firmware.{
  chunk_of, command_chunk, command_loop, send_command_bytes_via_firmware,
}
use darwin_gpib.Kusb.Operations.Recording.{
  Log, recorded, Honest, chunk_log, Carried, Carried-nil, Carried-chunk,
}
use darwin_gpib.Kusb.Operations.Chunks.{log_of, release-Keeps}
use darwin_gpib.Kusb.Operations.Sends.{transfer_chunk-log}
use darwin_gpib.Kusb.Operations.{send_command_bytes}
use darwin_gpib.Kusb.Registers.{release_rfd_holdoff_if_pending}

module _ {W : Type 0} (v : Device W) (honest : Honest v) (e : Ends) where
  command_chunk-log :
      (chunk : List ℕ) (s : Session (Log × W))
      → length chunk < 2 ^ 32
      → (command_chunk (recorded v) e chunk s).0.rc ≡ Rc.success
      → log_of (command_chunk (recorded v) e chunk s).1
        ≡ log_of s ++ chunk_log req_begin_cmd 1 cmd_out_pipe chunk
  unfolding command_chunk
  command_chunk-log chunk s small ok =
      transfer_chunk-log v honest e req_begin_cmd 1 e.cmd_out_ready cmd_out_pipe 7 2 3000000 chunk s
        small (inl refl) ok

  command_loop-nil :
      (fuel : ℕ) (s : Session (Log × W)) → command_loop (recorded v) e fuel [] s ≡ (Rc.success, s)
  unfolding command_loop
  command_loop-nil zero s = refl
  command_loop-nil (suc fuel) s = refl

  command_loop-zero :
      (c : ℕ) (cs : List ℕ) (s : Session (Log × W))
      → (command_loop (recorded v) e 0 (c ∷ cs) s).0 ≢ Rc.success
  unfolding command_loop
  command_loop-zero c cs s = ground arith

  command_loop-step :
      (fuel c : ℕ) (cs : List ℕ) (s : Session (Log × W))
      → let r = command_chunk (recorded v) e (take 512 (c ∷ cs)) s in
        let whole = command_loop (recorded v) e (suc fuel) (c ∷ cs) s in
        whole.0 ≡ Rc.success
        → (r.0.rc ≡ Rc.success) × (whole ≡ command_loop (recorded v) e fuel (drop 512 (c ∷ cs)) r.1)
  unfolding command_loop
  command_loop-step fuel c cs s ok = ground arith

  take_512 : (cs : List ℕ) → take 512 cs ≡ chunk_of 512 cs
  unfolding chunk_of
  take_512 cs = elim (Bool-cases (ltb 512 (length cs))) [
    | inl more ↦ rw more refl
    | inr all ↦ rw all (take_all 512 cs (ground arith))
  ]

  drop_512 : (cs : List ℕ) → drop 512 cs ≡ drop (length (chunk_of 512 cs)) cs
  unfolding chunk_of
  drop_512 cs = elim (Bool-cases (ltb 512 (length cs))) [
    | inl more ↦
        let cut : 512 ≡ length (take 512 cs) =
          omega (arith, length-take 512 cs, ltb→lt 512 (length cs) more) in
        rw more (ap (λ n. drop n cs) cut)
    | inr all ↦
        rw all (drop_all 512 cs (ground arith) ∙ sym (drop_all (length cs) cs (omega arith)))
  ]

  command_loop-log :
      (fuel : ℕ) (cmds : List ℕ) (s : Session (Log × W))
      → length cmds < 2 ^ 32
      → (command_loop (recorded v) e fuel cmds s).0 ≡ Rc.success
      → Carried req_begin_cmd
          (λ last. 1)
          cmd_out_pipe
          512
          cmds
          (log_of s)
          (log_of (command_loop (recorded v) e fuel cmds s).1)
  command_loop-log fuel [] s small ok =
      rw (command_loop-nil fuel s)
        (Carried-nil req_begin_cmd (λ last. 1) cmd_out_pipe 512 (log_of s))
  command_loop-log zero (c ∷ cs) s small ok = absurd (command_loop-zero c cs s ok)
  command_loop-log (suc fuel) (c ∷ cs) s small ok =
      let chunk = chunk_of 512 (c ∷ cs) in
      let r = command_chunk (recorded v) e (take 512 (c ∷ cs)) s in
      let (fine, tail) = command_loop-step fuel c cs s ok in
      let rest = drop 512 (c ∷ cs) in
      let same : rest ≡ drop (length chunk) (c ∷ cs) = drop_512 (c ∷ cs) in
      let carried =
        command_loop-log fuel rest r.1 (omega (arith, length-drop 512 (c ∷ cs)))
          (ap (λ t. t.0) (sym tail) ∙ ok) in
      let first =
        command_chunk-log (take 512 (c ∷ cs)) s (omega (arith, length-take 512 (c ∷ cs))) fine in
      let after = log_of (command_loop (recorded v) e fuel rest r.1).1 in
      rw tail (
        Carried-chunk req_begin_cmd (λ last. 1) cmd_out_pipe 512 c cs (log_of s) (log_of r.1) after
          (first
            ∙ ap (λ t. log_of s ++ chunk_log req_begin_cmd 1 cmd_out_pipe t) (take_512 (c ∷ cs)))
          (subst (λ t. Carried req_begin_cmd (λ last. 1) cmd_out_pipe 512 t (log_of r.1) after) same
            carried))

  send_command_bytes-nil :
      (s : Session (Log × W)) → send_command_bytes (recorded v) e [] s ≡ (Rc.success, s)
  unfolding send_command_bytes send_command_bytes_via_firmware
  send_command_bytes-nil s = refl

  send_command_bytes-cons :
      (c : ℕ) (cs : List ℕ) (s : Session (Log × W))
      → send_command_bytes (recorded v) e (c ∷ cs) s
        ≡ command_loop
            (recorded v)
            e
            (suc (length cs))
            (c ∷ cs)
            (release_rfd_holdoff_if_pending (recorded v) e s).1
  unfolding send_command_bytes send_command_bytes_via_firmware
  send_command_bytes-cons c cs s =
      let some_bytes : (length (c ∷ cs) == 0) ≡ false = ground arith in rw some_bytes refl

  -- On a device that reports no more bytes than it was given, sending fewer than 2^32 command bytes,
  -- when it succeeds, has sent them all on the command pipe, each once and in order, in transfers of 1 to
  -- 512 bytes that were each armed with their length.
  pub send_command_bytes-Carried :
      (cmds : List ℕ) (s : Session (Log × W))
      → length cmds < 2 ^ 32
      → (send_command_bytes (recorded v) e cmds s).0 ≡ Rc.success
      → Carried req_begin_cmd
          (λ last. 1)
          cmd_out_pipe
          512
          cmds
          (log_of s)
          (log_of (send_command_bytes (recorded v) e cmds s).1)
  send_command_bytes-Carried [] s small ok =
      rw (send_command_bytes-nil s)
        (Carried-nil req_begin_cmd (λ last. 1) cmd_out_pipe 512 (log_of s))
  send_command_bytes-Carried (c ∷ cs) s small ok =
      let s' = (release_rfd_holdoff_if_pending (recorded v) e s).1 in
      let whole = send_command_bytes-cons c cs s in
      let carried =
        command_loop-log (suc (length cs)) (c ∷ cs) s' small (ap (λ t. t.0) (sym whole) ∙ ok) in
      rw whole (
        subst
          (λ l.
            Carried req_begin_cmd (λ last. 1) cmd_out_pipe 512 (c ∷ cs) l
              (log_of (command_loop (recorded v) e (suc (length cs)) (c ∷ cs) s').1))
          (release-Keeps v e s) carried)
