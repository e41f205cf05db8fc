-- ===== src/Board/Trace.antt =====
-- The calls that the board makes of its transport, recorded: a transport that does what another does
-- and keeps a log, newest call first. Theorems about `traced t` say what GPIBBoard.cpp sends, in
-- which order, whatever the adapter answers.
use darwin_gpib.Prelude.{ℕ, Bool, List, [], ◌∷◌}
use darwin_gpib.Transport.{Transport}
use darwin_gpib.Bus.{Bus, bus_run}

pub data Event : Type 0 where
  pulsed_ifc : Event
  set_ren : Bool → Event
  sent : List ℕ → Event
  wrote : List ℕ → Bool → ℕ → Event
  received : ℕ → ℕ → Event
  read_lines : Event
  took_control : Bool → Event
  released_atn : Event
  did_soft_reset : Event
  other : Event

abbrev note : {W A : Type 0} → Event → (W → A × W) → W × List Event → A × (W × List Event)
note e f s = let (a, w) = f s.0 in (a, (w, e ∷ s.1))

abbrev pub traced : {W : Type 0} → Transport W → Transport (W × List Event)
traced t = record {
  pulse_interface_clear = note pulsed_ifc t.pulse_interface_clear;
  set_remote_enable = λ enable. note (set_ren enable) (t.set_remote_enable enable);
  send_command_bytes = λ cmds. note (sent cmds) (t.send_command_bytes cmds);
  write_data = λ buf eoi us. note (wrote buf eoi us) (t.write_data buf eoi us);
  read_data = λ n c f us. note (received n us) (t.read_data n c f us);
  read_bus_lines = note read_lines t.read_bus_lines;
  take_control = λ sync. note (took_control sync) (t.take_control sync);
  release_atn = note released_atn t.release_atn;
  read_raw_register = λ reg. note other (t.read_raw_register reg);
  soft_reset = note did_soft_reset t.soft_reset;
  reset_device = note other t.reset_device;
  set_max_data_chunk = λ n. note other (t.set_max_data_chunk n);
  write_raw_register = λ reg v. note other (t.write_raw_register reg v);
}

-- The data transfers of a log, newest first.
abbrev pub transfers : List Event → List Event
transfers [] = []
transfers (wrote buf eoi us ∷ es) = wrote buf eoi us ∷ transfers es
transfers (received n us ∷ es) = received n us ∷ transfers es
transfers (e ∷ es) = transfers es

-- The bus that the command bytes of a log lead to, from `u`, where the adapter puts every byte on the bus
-- that it is handed; the log does not say whether it took them.
abbrev pub bus_of : Bus → List Event → Bus
bus_of u [] = u
bus_of u (sent cmds ∷ es) = bus_run (bus_of u es) cmds
bus_of u (e ∷ es) = bus_of u es
