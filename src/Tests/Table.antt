-- ===== src/Tests/Table.antt =====
-- The descriptor table, on the bench.
use darwin_gpib.Prelude.{
  ◌%◌, ◌<◌, ◌≤◌, ◌≡◌, ◌≢◌, ◌↔◌, ◌⊎◌, inl, refl, true, false, [], ◌∷◌, none, some, replicate,
}
use darwin_gpib.Prelude.Int.{pos, negsuc}
use darwin_gpib.Gpib.Sta
use darwin_gpib.Gpib.Config
use darwin_gpib.Gpib.Cmd
use darwin_gpib.Gpib.{mla}
use darwin_gpib.Board.{Board, init, max_descriptors}
use darwin_gpib.Board.Address.{mla_byte}
use darwin_gpib.Board.Address.Laws.{mla_byte-eq-mla}
use darwin_gpib.Board.Table.{
  descriptor_for, open_descriptor, close_descriptor, configure, free_slot, allocate_handle,
}
use darwin_gpib.Board.Table.Laws.{IsValid, fresh}
use darwin_gpib.Board.Table.Calls.{opens, closes, table_run, table_step, table_run-init-IsValid}
use darwin_gpib.Board.Table.Opening.{
  descriptor_for-open_descriptor, descriptor_for-close_descriptor,
}
use darwin_gpib.Board.Table.Options.{configure_eos_flags}
use darwin_gpib.Tests.Bench.{bench, bench-IsValid, bench_found, meter}

table_run-init-IsValid_example : IsValid (
    table_run init
      (opens 5 (negsuc 0) false 1000000 10 0 true ∷ closes (pos 1) ∷ closes (pos 1) ∷ []))
table_run-init-IsValid_example =
    table_run-init-IsValid
      (opens 5 (negsuc 0) false 1000000 10 0 true ∷ closes (pos 1) ∷ closes (pos 1) ∷ [])

-- A second descriptor gets handle 2.
opened_second : (open_descriptor bench 7 (pos 96) false 1000 0 0 true).0.handle ≡ pos 2
unfolding table_run table_step open_descriptor free_slot allocate_handle init
opened_second = refl

descriptor_for-open_descriptor_example :
    let r = open_descriptor bench 7 (pos 96) false 1000 0 0 true in
    (1 ≤ 2)
    × (2 < max_descriptors)
    × (r.0.sta ≡ Sta.cmpl)
    × (r.0.iberr ≡ 0)
    × (descriptor_for bench (pos 2) ≡ none)
    × ((pos 1 ≡ pos 2)
          × (descriptor_for r.1 (pos 1) ≡ some (fresh 7 (pos 96) false 1000 0 0 true 2))
        ⊎ (pos 1 ≢ pos 2) × (descriptor_for r.1 (pos 1) ≡ descriptor_for bench (pos 1)))
descriptor_for-open_descriptor_example =
    descriptor_for-open_descriptor bench 7 (pos 96) false 1000 0 0 true bench-IsValid 2 (pos 1)
      opened_second

-- A table whose 63 handles are all in use.
abbrev full : Board
full = table_run init (replicate 63 (opens 5 (negsuc 0) false 1000 0 0 true))

full_answer : (open_descriptor full 7 (pos 96) false 1000 0 0 true).0.handle ≡ negsuc 0
unfolding table_run table_step open_descriptor free_slot allocate_handle init
full_answer = refl

descriptor_for-close_descriptor_example :
    let r = close_descriptor bench (pos 1) in
    (r.0.sta ≡ Sta.cmpl)
    × (r.0.iberr ≡ 0)
    × ((pos 1 ≡ pos 1) × (descriptor_for r.1 (pos 1) ≡ none)
        ⊎ (pos 1 ≢ pos 1) × (descriptor_for r.1 (pos 1) ≡ descriptor_for bench (pos 1)))
descriptor_for-close_descriptor_example =
    descriptor_for-close_descriptor bench (pos 1) (pos 1) bench-IsValid meter bench_found

-- Setting the primary address is accepted.
pad_accepted : (configure bench (pos 1) Config.pad (pos 9)).0.sta ≡ Sta.cmpl
unfolding configure descriptor_for table_run table_step open_descriptor free_slot allocate_handle
    init
pad_accepted = refl

configure_eos_flags_example :
    (descriptor_for (configure bench (pos 1) Config.eos_rd (pos 0x400)).1 (pos 1)
      ≡ some (record meter { eos_flags = 0 }))
    × ((configure bench (pos 1) Config.eos_rd (pos 0x400)).0.sta ≡ Sta.cmpl)
configure_eos_flags_example =
    configure_eos_flags bench (pos 1) meter bench-IsValid bench_found Config.eos_rd (pos 0x400)
      (inl refl)

mla_byte-eq-mla_example :
    ((mla_byte 31 ≡ Cmd.unl) ↔ (31 % 32 ≡ 31)) × ((mla_byte 31 ≡ mla 31) ↔ (31 % 32 < 31))
mla_byte-eq-mla_example = mla_byte-eq-mla 31
