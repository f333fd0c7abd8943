-- ===== src/Scheduler/Tick.antt =====
-- The timer tick: when a switch happens, and what it saves and loads.
use native.Mathlib.Decide.{ℕ_discrete}
use littlevisor.Base.{
  ℕ, zero, suc, ◌+◌, ◌-◌, ◌%◌, ◌^◌, ◌≤◌, ◌<◌, ◌≡◌, refl, sym, ◌∙◌, true, false, ◌&&◌, List, length,
  get_or, set, length-set, get_or-set_self, get_or-set_ne, ltb, leb, ◌==◌, if◌then◌else◌, arith,
}
use littlevisor.Scheduler.{
  Task, Stack, Scheduler, zero_task, quantom, task_at, find_next_task, decrement_from,
  decrement_delays, jump_to_userland, switch_context, round_robin,
}

-- A task after a tick: one tick less to wait, if it waits.
abbrev pub ticked : Task → Task
ticked t =
    if t.alive && ltb 0 t.delay_ticks then record t { delay_ticks = t.delay_ticks - 1 } else t

module _ (tasks : List Task) (i : ℕ) (inside : i < length tasks) where
  tick_at : List Task
  tick_at =
      let t = task_at tasks i in
      if t.alive && ltb 0 t.delay_ticks
      then set tasks i (record t { delay_ticks = t.delay_ticks - 1 })
      else tasks

  length-tick_at : length tick_at ≡ length tasks
  unfolding tick_at
  length-tick_at =
      let t = task_at tasks i in
      ground (arith, length-set tasks i (record t { delay_ticks = t.delay_ticks - 1 }))

  task_at-tick_at :
      (n : ℕ) → task_at tick_at n ≡ (if n == i then ticked (task_at tasks n) else task_at tasks n)
  unfolding tick_at task_at
  task_at-tick_at n = elim (ℕ_discrete n i) [
    | yes e ↦ rw e (
        let t = get_or tasks i zero_task in
        ground (
          arith,
          get_or-set_self tasks i (record t { delay_ticks = t.delay_ticks - 1 }) zero_task inside,
        ))
    | no ne ↦
        let t = get_or tasks i zero_task in
        ground (
          arith,
          get_or-set_ne tasks i n (record t { delay_ticks = t.delay_ticks - 1 }) zero_task
              (λ e. ne (sym e)),
        )
  ]

decrement_from-task :
    (left i n : ℕ) (tasks : List Task)
    → i + left ≤ length tasks
    → task_at (decrement_from left i tasks) n
      ≡ (if leb i n && ltb n (i + left) then ticked (task_at tasks n) else task_at tasks n)
unfolding decrement_from tick_at
decrement_from-task zero i n tasks h = ground arith
decrement_from-task (suc left) i n tasks h =
    let inside : i < length tasks = omega arith in
    decrement_from-task left (i + 1) n (tick_at tasks i inside)
      (omega (arith, length-tick_at tasks i inside))
    ∙ rw (task_at-tick_at tasks i inside n) (ground arith)

-- If the count of tasks is within the table, a tick takes one from the delay of each living task
-- below the count that waits, and changes no other task.
pub decrement_delays_lem :
    (s : Scheduler) (n : ℕ)
    → s.last_task_idx ≤ length s.tasks_list
    → task_at (decrement_delays s).tasks_list n
      ≡ (if ltb n s.last_task_idx then ticked (task_at s.tasks_list n) else task_at s.tasks_list n)
unfolding decrement_delays
decrement_delays_lem s n h =
    decrement_from-task s.last_task_idx 0 n s.tasks_list (omega arith) ∙ ground arith

-- `k` ticks in a row, each with the frame that it interrupts.
pub ticks : ℕ → (ℕ → Stack) → Scheduler → Scheduler
ticks zero frames s = s
ticks (suc k) frames s = ticks k (λ i. frames (i + 1)) (round_robin s (frames 0)).1

-- A tick within the quantum gives back the frame and counts.
record Quiet (s s' : Scheduler) : Type 0 where
  on : s'.scheduler_initialized ≡ true
  counter : s'.quantom_counter ≡ s.quantom_counter + 1
  curr : s'.curr_task_idx ≡ s.curr_task_idx
  prev : s'.prev_task_idx ≡ s.prev_task_idx
  map : s'.page_map ≡ s.page_map

tick-Quiet :
    (s : Scheduler) (frame : Stack)
    → s.scheduler_initialized ≡ true
    → s.quantom_counter + 1 < quantom
    → ((round_robin s frame).0 ≡ frame) × Quiet s (round_robin s frame).1
unfolding round_robin decrement_delays
tick-Quiet s frame on h =
    let count : (s.quantom_counter + 1) % 2 ^ 32 ≡ s.quantom_counter + 1 = omega arith in
    let early : ltb ((s.quantom_counter + 1) % 2 ^ 32) quantom ≡ true = ground arith in
    rw (on, early)
      (refl, record { on = refl; counter = count; curr = refl; prev = refl; map = refl })

-- Ticks of an initialised scheduler that do not reach the end of the quantum switch no task: the
-- indices and the page map stay, and each tick counts.
pub ticks_quiet :
    (k : ℕ) (frames : ℕ → Stack) (s : Scheduler)
    → s.scheduler_initialized ≡ true
    → s.quantom_counter + k < quantom
    → ((ticks k frames s).curr_task_idx ≡ s.curr_task_idx)
      × ((ticks k frames s).prev_task_idx ≡ s.prev_task_idx)
      × ((ticks k frames s).page_map ≡ s.page_map)
      × ((ticks k frames s).quantom_counter ≡ s.quantom_counter + k)
      × ((ticks k frames s).scheduler_initialized ≡ true)
unfolding ticks
ticks_quiet zero frames s on h = (refl, refl, refl, omega arith, on)
ticks_quiet (suc k) frames s on h =
    let q = (tick-Quiet s (frames 0) on (omega arith)).1 in
    let next = (round_robin s (frames 0)).1 in
    let (a, b, c, d, e) =
      ticks_quiet k (λ i. frames (i + 1)) next q.on (omega (arith, q.counter)) in
    (a ∙ q.curr, b ∙ q.prev, c ∙ q.map, omega (arith, d, q.counter), e)

-- The tick of an initialised scheduler that ends the quantum, with a counter that does not wrap,
-- makes the task current that `find_next_task` picks from the table after its delays are counted
-- down, and starts a new quantum.
pub quantum_over :
    (s : Scheduler) (frame : Stack)
    → s.scheduler_initialized ≡ true
    → quantom ≤ s.quantom_counter + 1
    → s.quantom_counter < 2 ^ 32 - 1
    → ((round_robin s frame).1.curr_task_idx
        ≡ find_next_task (decrement_delays s).tasks_list s.curr_task_idx)
      × ((round_robin s frame).1.quantom_counter ≡ 0)
unfolding round_robin decrement_delays switch_context jump_to_userland
quantum_over s frame on h small =
    let late : ltb ((s.quantom_counter + 1) % 2 ^ 32) quantom ≡ false = ground arith in
    rw (on, late) (ground arith, ground arith)
