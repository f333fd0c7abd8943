-- ===== src/Syscalls/Tests.antt =====
-- Runs of src/timers/pit.cpp and src/userspace/syscalls.cpp.
use littlevisor.Base.{ℕ, min, some, ◌/◌, ◌≡◌, refl, arith, [], ◌∷◌}
use littlevisor.Syscalls.{
  Pit, init_pit, sleep, sleep_from, finale_tick_count, after_ticks, count_tick, Woken, sleep-Woken,
}

abbrev started : Pit
started = record { tick_counter = 7; time_between_ticks_ms = 5; frequency = 200 }

divisor_bytes : (init_pit started).0 ≡ (0x43, 0x36) ∷ (0x40, 77) ∷ (0x40, 23) ∷ []
unfolding init_pit
divisor_bytes = refl

-- A tick comes before every second read.
abbrev every_second : ℕ → ℕ
every_second i = min (i / 2) 1000

woken_at_six : sleep 9 every_second started 19 ≡ some 6
unfolding sleep sleep_from finale_tick_count after_ticks count_tick
woken_at_six = refl

sleep-Woken_example : Woken every_second (19 / 5) 7 (sleep 9 every_second started 19)
sleep-Woken_example =
    sleep-Woken every_second started 19 7 9 (omega arith) (λ i. omega arith) (omega arith)
      (omega arith)
