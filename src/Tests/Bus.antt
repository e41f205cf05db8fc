-- ===== src/Tests/Bus.antt =====
-- The calls that drive the bus, on the bench.
use darwin_gpib.Prelude.{
  ℕ, ◌≡◌, ◌⊎◌, refl, arith, true, false, List, [], ◌∷◌, ◌++◌, none, some, if◌then◌else◌, ◌≢◌, ◌+◌,
  ◌*◌, inl, ◌↔◌, Bool,
}
use darwin_gpib.Prelude.Int.{pos, negsuc}
use darwin_gpib.Gpib.Sta
use darwin_gpib.Gpib.Iberr
use darwin_gpib.Bus.{Bus, bus_run, plain}
use darwin_gpib.Gpib.Cmd
use darwin_gpib.Board.Address.Laws.{party}
use darwin_gpib.Board.Trace.{
  Event, traced, transfers, bus_of, sent, wrote, received, did_soft_reset, set_ren, took_control,
  pulsed_ifc,
}
use darwin_gpib.Board.Transfer.{write, read}
use darwin_gpib.Board.Transfer.Delivered.{write_delivered, read_delivered}
use darwin_gpib.Board.Transfer.Phases.{Refused, Reports, asked_to_listen, asked_to_talk}
use darwin_gpib.Board.Table.{descriptor_for}
use darwin_gpib.Board.{Descriptor}
use darwin_gpib.Board.Monad.{State}
use darwin_gpib.Board.Transfer.Orders.{transfer_orders, ClearsOnly, orders_of}
use darwin_gpib.Board.Calls.{writes, bus_call, bus_call-Good, Good}
use darwin_gpib.Board.Poll.{serial_poll, poll_addressing, teardown}
use darwin_gpib.Board.Poll.Laws.{serial_poll_ends, opening, closing}
use darwin_gpib.Board.Recover.{recover_bus}
use darwin_gpib.Board.Recover.Laws.{recover_bus_clears}
use darwin_gpib.Board.Wait.{srq_asserted, wait_loop, wait_for_status}
use darwin_gpib.Board.Wait.Laws.{wait_loop_forever, wait_for_status_ends, Ended, Clocks}
use darwin_gpib.Tests.Bench.{
  adapter, clock, quiet_bus, meter, bench, bench_found, bench_pad, meter-IsAddress, at_work, logged,
}

-- The bench after going online.
abbrev online_now : State (ℕ × List Event)
online_now = record { board = record bench { online = true }; world = (1000000000, []) }

write_delivered_example :
    let r = write (traced adapter) (pos 1) (72 ∷ 105 ∷ []) true online_now in
    ((transfers r.1.world.1 ≡ [])
      × (r.0.count ≡ 0)
      × Refused online_now (pos 1) (λ d. (asked_to_listen adapter d online_now).0) r.0.reply)
    ⊎ ((d : Descriptor) × (eoi : Bool) × (w : ℕ) × (before : List Event) × (descriptor_for
            online_now.board
            (pos 1)
          ≡ some d)
        × (r.1.world.1 ≡ wrote (72 ∷ 105 ∷ []) eoi d.timeout_us ∷ before)
        × (transfers before ≡ [])
        × ((eoi ≡ true) ↔ ((true ≡ true) × (d.eot ≢ 0)))
        × ((asked_to_listen adapter d online_now).0 ≡ 0
            → w ≡ (asked_to_listen adapter d online_now).1)
        × ((r.1.world.0 ≡ w) × (r.0.count ≡ 2) × Reports 0 0 r.0.reply))
write_delivered_example = write_delivered adapter (pos 1) online_now (72 ∷ 105 ∷ []) true

read_delivered_example :
    let r = read (traced adapter) (pos 1) 64 online_now in
    ((transfers r.1.world.1 ≡ [])
      × (r.0.bytes ≡ [])
      × (r.0.count ≡ 0)
      × (r.0.end_flag ≡ 0)
      × Refused online_now (pos 1) (λ d. (asked_to_talk adapter d online_now).0) r.0.reply)
    ⊎ ((d : Descriptor) × (w : ℕ) × (before : List Event) × (descriptor_for online_now.board (pos 1)
          ≡ some d)
        × (r.1.world.1 ≡ received 64 d.timeout_us ∷ before)
        × (transfers before ≡ [])
        × ((asked_to_talk adapter d online_now).0 ≡ 0 → w ≡ (asked_to_talk adapter d online_now).1)
        × ((r.1.world.0 ≡ w)
            × (r.0.bytes ≡ 65 ∷ [])
            × (r.0.count ≡ 1)
            × (r.0.end_flag ≡ 1)
            × Reports 0 1 r.0.reply))
read_delivered_example = read_delivered adapter (pos 1) online_now 64

bus_call-Good_example :
    Good at_work (bus_call adapter clock (writes (pos 1) (72 ∷ []) true) at_work)
bus_call-Good_example = bus_call-Good adapter clock at_work (writes (pos 1) (72 ∷ []) true)

serial_poll_ends_example :
    let r = serial_poll (traced adapter) (pos 1) logged in
    let opened = sent (poll_addressing bench 5 (negsuc 0)) ∷ [] in
    ((r.1.world.1 ≡ []) × (r.0.status_byte ≡ none) × (r.0.reply.sta ≡ Sta.err))
    ⊎ (((r.1.world.1 ≡ opened)
          × (r.0.status_byte ≡ none)
          × (r.0.reply.iberr ≡ Iberr.ebus)
          × ((opening adapter bench meter logged.world.0).0 ≢ 0))
        ⊎ ((r.1.world.1 ≡ sent teardown ∷ received 1 1000000 ∷ opened)
            × (r.1.world.0 ≡ (closing adapter bench meter logged.world.0).1)
            × ((opening adapter bench meter logged.world.0).0 ≡ 0)
            × ((bus_of quiet_bus opened).talker ≡ some (party 5 (negsuc 0)))
            × ((bus_of quiet_bus opened).listeners ≡ plain bench.board_pad ∷ [])
            × ((bus_of quiet_bus opened).polling ≡ true)
            × ((closing adapter bench meter logged.world.0).0 ≡ 0
                → ((bus_of quiet_bus (sent teardown ∷ received 1 1000000 ∷ opened)).polling ≡ false)
                  × ((bus_of quiet_bus (sent teardown ∷ received 1 1000000 ∷ opened)).talker
                      ≡ none))))
serial_poll_ends_example =
    serial_poll_ends adapter (pos 1) logged meter quiet_bus bench_found meter-IsAddress bench_pad

recover_bus_clears_example :
    let r = recover_bus (traced adapter) (some meter) logged in
    ((r.0 ≡ true)
      × (bytes : List ℕ) × (r.1.world.1
          ≡ sent bytes ∷ (if bench.ren_requested then set_ren true ∷ [] else [])
            ++ (took_control false ∷ pulsed_ifc ∷ did_soft_reset ∷ []))
      × ((u : Bus)
          → (bus_run u bytes).orders
            ≡ record { command = Cmd.sdc; receivers = party 5 (negsuc 0) ∷ [] } ∷ u.orders))
    ⊎ ((r.0 ≡ false) × ((r.1.world.1 ≡ []) ⊎ (r.1.world.1 ≡ did_soft_reset ∷ [])))
recover_bus_clears_example = recover_bus_clears adapter meter logged meter-IsAddress

-- The lines of the bench's adapter show no SRQ.
no_srq : (w : ℕ) → srq_asserted (adapter.read_bus_lines w).0 ≡ false
unfolding srq_asserted
no_srq w = refl

clocks : Clocks adapter clock
clocks = record { sleeps = λ n w. omega arith; reads = λ w. omega arith }

wait_loop_forever_example : (wait_loop adapter clock 1000 0 at_work).0 ≡ none
wait_loop_forever_example = wait_loop_forever adapter clock 1000 at_work no_srq

wait_for_status_ends_example :
    Ended adapter clock
      (1000000000 + 1000 * 1000)
      at_work
      (wait_for_status adapter clock 51 (pos 1) (pos 0x1000) 1000 at_work)
wait_for_status_ends_example =
    wait_for_status_ends adapter clock clocks 50 1000 1000 (pos 1) (pos 0x1000) at_work meter
      bench_found (ground arith) (inl (ground arith, refl)) (ground arith) (ground arith)
      (ground arith) (ground arith)

transfer_orders_example :
    ((buf : List ℕ) (send_eoi : Bool)
      → ClearsOnly meter []
          (orders_of quiet_bus (write (traced adapter) (pos 1) buf send_eoi logged).1))
    × ((n : ℕ)
        → ClearsOnly meter [] (orders_of quiet_bus (read (traced adapter) (pos 1) n logged).1))
transfer_orders_example =
    transfer_orders adapter (pos 1) logged meter quiet_bus bench_found meter-IsAddress bench_pad
