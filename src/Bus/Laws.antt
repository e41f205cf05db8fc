-- ===== src/Bus/Laws.antt =====
-- What the groups of messages that open an exchange do to the bus, whatever its state before.
use darwin_gpib.Prelude.{ℕ, ◌+◌, ◌<◌, ◌≡◌, refl, arith, true, false, List, [], ◌∷◌, none, some}
use darwin_gpib.Gpib.Cmd
use darwin_gpib.Bus.{Bus, talk, listen, neither, bus_step, bus_run, qualify, plain}

abbrev pub after_listen : Bus → ℕ → Bus
after_listen u n = record u { listeners = plain n ∷ u.listeners; pending = listen }

abbrev pub after_talk : Bus → ℕ → Bus
after_talk u n = record u { talker = some (plain n); pending = talk }

pub run_nil : (u : Bus) → bus_run u [] ≡ u
unfolding bus_run
run_nil u = refl

module _ (u : Bus) (rest : List ℕ) where
  pub run_unl :
      bus_run u (Cmd.unl ∷ rest) ≡ bus_run (record u { listeners = []; pending = neither }) rest
  unfolding bus_run bus_step
  run_unl = refl

  pub run_unt :
      bus_run u (Cmd.unt ∷ rest) ≡ bus_run (record u { talker = none; pending = neither }) rest
  unfolding bus_run bus_step
  run_unt = refl

  pub run_spe :
      bus_run u (Cmd.spe ∷ rest) ≡ bus_run (record u { polling = true; pending = neither }) rest
  unfolding bus_run bus_step
  run_spe = refl

  pub run_spd :
      bus_run u (Cmd.spd ∷ rest) ≡ bus_run (record u { polling = false; pending = neither }) rest
  unfolding bus_run bus_step
  run_spd = refl

  pub run_sdc :
      bus_run u (Cmd.sdc ∷ rest)
      ≡ bus_run
          (record u {
            orders = record { command = Cmd.sdc; receivers = u.listeners } ∷ u.orders;
            pending = neither;
          })
          rest
  unfolding bus_run bus_step
  run_sdc = refl

  pub run_listen : (n : ℕ) → n < 31 → bus_run u ((n + 32) ∷ rest) ≡ bus_run (after_listen u n) rest
  unfolding bus_run bus_step
  run_listen n h = ground arith

  pub run_talk : (n : ℕ) → n < 31 → bus_run u ((n + 64) ∷ rest) ≡ bus_run (after_talk u n) rest
  unfolding bus_run bus_step
  run_talk n h = ground arith

  pub run_listen_extended :
      (n s : ℕ)
      → n < 31
      → s < 31
      → bus_run u ((n + 32) ∷ (s + 96) ∷ rest)
        ≡ bus_run
            (record u {
              listeners = record { primary = n; secondary = some s } ∷ u.listeners;
              pending = neither;
            })
            rest
  unfolding bus_run bus_step qualify
  run_listen_extended n s h k = ground arith

  pub run_talk_extended :
      (n s : ℕ)
      → n < 31
      → s < 31
      → bus_run u ((n + 64) ∷ (s + 96) ∷ rest)
        ≡ bus_run
            (record u {
              talker = some (record { primary = n; secondary = some s });
              pending = neither;
            })
            rest
  unfolding bus_run bus_step qualify
  run_talk_extended n s h k = ground arith
