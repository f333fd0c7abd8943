-- ===== src/Syscalls.antt =====
-- src/userspace/syscalls.cpp: the system calls of a program, over the open files and the timer of
-- src/timers/pit.cpp.
pub mod Tests
use littlevisor.Base.{
  ℕ, zero, suc, ◌+◌, ◌-◌, ◌*◌, ◌/◌, ◌%◌, ◌^◌, ◌≤◌, ◌<◌, min, max, bit_and, bit_or, ◌≡◌, refl, sym,
  ap, fun_ext, ◌∙◌, ◌≢◌, ◌⊎◌, inl, inr, Bool, true, false, not, ◌&&◌, ◌||◌, Option, none, some,
  List, [], ◌∷◌, ◌++◌, length, get_or, get_elem?, set, length-set, get_or-set_self, get_or-set_ne,
  map, ltb, leb, ◌==◌, if◌then◌else◌, arith, Bool-cases, Option-cases, ltb→lt, lt→ltb, leb→le,
  ==_iff,
}
use littlevisor.Common.{Memory}
use littlevisor.Vfs.{FileSystem, Descriptor, vopen_file, vread_file, vwrite_file, vseekp}

-- The statics of pit.cpp.
pub record Pit : Type 0 where
  pub tick_counter : ℕ
  pub time_between_ticks_ms : ℕ
  pub frequency : ℕ

abbrev pub pit_frequency : ℕ
pit_frequency = 200

-- `init_pit`: the bytes for the ports 0x43 and 0x40, in order, and the statics.
unfoldable pub init_pit : Pit → List (ℕ × ℕ) × Pit
init_pit p =
    let divisor = 1193182 / pit_frequency in
    (
      (0x43, 0x36) ∷ (0x40, bit_and divisor 0xFF) ∷ (0x40, bit_and (divisor / 2 ^ 8) 0xFF) ∷ [],
      record p { frequency = pit_frequency; time_between_ticks_ms = 1000 / pit_frequency },
    )

-- The count of `pit_handler`, which then calls `round_robin`.
unfoldable pub count_tick : Pit → Pit
count_tick p = record p { tick_counter = (p.tick_counter + 1) % 2 ^ 64 }

-- The count that `sleep` waits for; a time between ticks of 0 divides by 0 in the source.
unfoldable pub finale_tick_count : Pit → ℕ → ℕ
finale_tick_count p ms = (p.tick_counter + ms / p.time_between_ticks_ms) % 2 ^ 64

-- The statics of the timer after some interrupts.
unfoldable pub after_ticks : ℕ → Pit → Pit
unfolding count_tick
after_ticks zero p = p
after_ticks (suc k) p = after_ticks k (count_tick p)

-- The loop of `sleep` only reads the counter: `ticks i` is the number of interrupts of the timer
-- before its read `i`, while other tasks may run. The answer is the first read at which the count is
-- reached, and `none` if the loop goes on after the reads that are left.
unfoldable pub sleep_from : ℕ → (ℕ → ℕ) → Pit → ℕ → ℕ → Option ℕ
unfolding after_ticks
sleep_from zero ticks p goal i = none
sleep_from (suc left) ticks p goal i =
    let rest = sleep_from left ticks p goal (i + 1) in
    if ltb (after_ticks (ticks i) p).tick_counter goal then rest else some i

unfoldable pub sleep : ℕ → (ℕ → ℕ) → Pit → ℕ → Option ℕ
unfolding sleep_from finale_tick_count
sleep reads ticks p ms = sleep_from reads ticks p (finale_tick_count p ms) 0

-- What the system calls change: the disk, the open files, the memory of the program, the texts that
-- are printed, by their addresses, and the timer, which runs while a program sleeps.
pub record Kernel (Disk : Type 0) : Type 0 where
  pub disk : Disk
  pub table : List Descriptor
  pub memory : Memory
  pub printed : List ℕ
  pub pit : Pit

module _ (fs : FileSystem) where
  open fs use {Disk}

  -- A pointer of the program is the memory from its address on.
  abbrev pub from_address : Kernel Disk → ℕ → Memory
  from_address k at i = k.memory (at + i)

  -- `dispatch_syscall`: the vectors are those of `syscall_vectors_e`, and PUTS goes on with SLEEP.
  -- `reads` and `ticks` are those of `sleep`, and `none` is a sleep that goes on after the reads.
  unfoldable pub dispatch_syscall :
      ℕ → (ℕ → ℕ) → Kernel Disk → ℕ → ℕ → ℕ → ℕ → Option (ℕ × Kernel Disk)
  unfolding vopen_file vread_file vwrite_file vseekp sleep after_ticks
  dispatch_syscall reads ticks k vector arg1 arg2 arg3 =
      let opened = vopen_file fs k.disk k.table (from_address k arg1) in
      let read =
        vread_file fs k.disk k.table (arg1 % 2 ^ 32) (from_address k arg2) (arg2 % 2 ^ 32) in
      let written =
        vwrite_file fs k.disk k.table (arg1 % 2 ^ 32) (from_address k arg2) (arg3 % 2 ^ 32) in
      let moved = vseekp k.table (arg1 % 2 ^ 32) (arg2 % 2 ^ 32) in
      let slept : Kernel Disk → Option (ℕ × Kernel Disk) = λ k'.
        elim (sleep reads ticks k.pit arg1) [
          | none ↦ none
          | some i ↦ some (0, record k' { pit = after_ticks (ticks i) k.pit })
        ] in
      if vector == 0
      then some (opened.0, record k { table = opened.1 })
      else if vector == 1
      then some (0, record k { memory = λ a. if leb arg2 a then read.1 (a - arg2) else k.memory a })
      else if vector == 2
      then some (0, record k { disk = written.1 })
      else if vector == 3
      then some (0, record k { table = moved.1 })
      else if vector == 4
      then slept (record k { printed = arg1 ∷ k.printed })
      else if vector == 5
      then slept k
      else some (0, k)

tick_counter-after_ticks :
    (k : ℕ) (p : Pit)
    → p.tick_counter + k < 2 ^ 64
    → (after_ticks k p).tick_counter ≡ p.tick_counter + k
unfolding after_ticks count_tick
tick_counter-after_ticks zero p small = omega arith
tick_counter-after_ticks (suc k) p small =
    let next : (p.tick_counter + 1) % 2 ^ 64 ≡ p.tick_counter + 1 = omega (arith, small) in
    tick_counter-after_ticks k (count_tick p) (omega (arith, next, small)) ∙ omega (arith, next)

-- The sleep ends at the first read before which `whole` interrupts have come.
pub record Woken (ticks : ℕ → ℕ) (whole last : ℕ) (r : Option ℕ) : Type 0 where
  pub read : ℕ
  pub result : r ≡ some read
  pub in_time : read ≤ last
  pub reached : whole ≤ ticks read
  pub first : (j : ℕ) → j < read → ticks j < whole

module _ (ticks : ℕ → ℕ) (p : Pit) (whole : ℕ)
    (small : (i : ℕ) → p.tick_counter + ticks i < 2 ^ 64) where
  sleep_from-Woken :
      (left i last : ℕ)
      → i ≤ last
      → last < i + left
      → whole ≤ ticks last
      → ((j : ℕ) → j < i → ticks j < whole)
      → Woken ticks whole last (sleep_from left ticks p (p.tick_counter + whole) i)
  unfolding sleep_from
  sleep_from-Woken zero i last lo hi comes before = absurd (omega (arith, lo, hi))
  sleep_from-Woken (suc left) i last lo hi comes before =
      let now = tick_counter-after_ticks (ticks i) p (small i) in
      elim (Bool-cases (ltb (after_ticks (ticks i) p).tick_counter (p.tick_counter + whole))) [
        | inl on ↦
            let waits : ticks i < whole = ground (arith, on, now) in
            let later : i ≢ last = λ e. ground (arith, waits, comes, ap ticks e) in
            rw on (
              sleep_from-Woken left (i + 1) last (ground (arith, lo, later)) (omega (arith, hi))
                comes
                (λ j h. elim (Bool-cases (j == i)) [
                  | inl e ↦ ground (arith, waits, ap ticks ((==_iff j i).0 e))
                  | inr ne ↦ before j (ground (arith, h, ne))
                ]))
        | inr off ↦ rw off (record {
          read = i;
          result = refl;
          in_time = lo;
          reached = ground (arith, off, now);
          first = before;
        })
      ]

-- If the timer has a period, its counter does not wrap around, and the whole ticks of the time have
-- come before some read of the loop, then `sleep` ends: not later than at that read, at the first
-- read before which they have come, and never before.
pub sleep-Woken :
    (ticks : ℕ → ℕ) (p : Pit) (ms last reads : ℕ)
    → 0 < p.time_between_ticks_ms
    → ((i : ℕ) → p.tick_counter + ticks i < 2 ^ 64)
    → ms / p.time_between_ticks_ms ≤ ticks last
    → last < reads
    → Woken ticks (ms / p.time_between_ticks_ms) last (sleep reads ticks p ms)
unfolding sleep finale_tick_count
sleep-Woken ticks p ms last reads period small comes enough =
    let goal : (p.tick_counter + ms / p.time_between_ticks_ms) % 2 ^ 64
        ≡ p.tick_counter + ms / p.time_between_ticks_ms =
      omega (arith, small last, comes) in
    rw goal (
      sleep_from-Woken ticks p (ms / p.time_between_ticks_ms) small reads 0 last (omega arith)
        (omega (arith, enough)) comes (λ j h. absurd (omega (arith, h))))

-- If the whole ticks never come, the loop does not end.
pub sleep-masked :
    (ticks : ℕ → ℕ) (p : Pit) (whole reads i : ℕ)
    → ((j : ℕ) → p.tick_counter + ticks j < 2 ^ 64)
    → ((j : ℕ) → ticks j < whole)
    → sleep_from reads ticks p (p.tick_counter + whole) i ≡ none
unfolding sleep_from
sleep-masked ticks p whole zero i small never = refl
sleep-masked ticks p whole (suc left) i small never =
    let now = tick_counter-after_ticks (ticks i) p (small i) in
    let on : ltb (after_ticks (ticks i) p).tick_counter (p.tick_counter + whole) ≡ true =
      ground (arith, now, never i) in
    rw on (sleep-masked ticks p whole left (i + 1) small never)
