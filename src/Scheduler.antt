-- ===== src/Scheduler.antt =====
-- src/scheduler/scheduler.cpp and task.h: the table of tasks, the choice of the next one, and the
-- switch on the timer tick.
pub mod Next
pub mod Tick
pub mod Switch
pub mod Create
pub mod Users
pub mod Programs
pub mod ProgramTests
pub mod Tests
use littlevisor.Base.{
  ℕ, zero, suc, ◌+◌, ◌-◌, ◌*◌, ◌/◌, ◌%◌, ◌^◌, ◌≤◌, ◌<◌, min, max, bit_and, bit_or, ◌≡◌, refl, sym,
  ap, fun_ext, ◌∙◌, ◌≢◌, ◌⊎◌, inl, inr, Bool, true, false, not, ◌&&◌, ◌||◌, Option, none, some,
  List, [], ◌∷◌, ◌++◌, length, get_or, get_elem?, set, length-set, get_or-set_self, get_or-set_ne,
  map, ltb, leb, ◌==◌, if◌then◌else◌, arith, Bool-cases, Option-cases, ltb→lt, lt→ltb, leb→le,
  ==_iff,
}
use littlevisor.Gdt.{Tss, switch_tss_userstack, switch_tss_kernelstack}

-- `struct Stack`, the registers that an interrupt pushes.
pub record Stack : Type 0 where
  pub r15 : ℕ
  pub r14 : ℕ
  pub r13 : ℕ
  pub r12 : ℕ
  pub r11 : ℕ
  pub r10 : ℕ
  pub r9 : ℕ
  pub r8 : ℕ
  pub rsi : ℕ
  pub rdi : ℕ
  pub rbp : ℕ
  pub rdx : ℕ
  pub rcx : ℕ
  pub rbx : ℕ
  pub rax : ℕ
  pub isr_number : ℕ
  pub err_code : ℕ
  pub rip : ℕ
  pub cs : ℕ
  pub rflags : ℕ
  pub rsp : ℕ
  pub ss : ℕ

abbrev pub zero_stack : Stack
zero_stack = record {
  r15 = 0;
  r14 = 0;
  r13 = 0;
  r12 = 0;
  r11 = 0;
  r10 = 0;
  r9 = 0;
  r8 = 0;
  rsi = 0;
  rdi = 0;
  rbp = 0;
  rdx = 0;
  rcx = 0;
  rbx = 0;
  rax = 0;
  isr_number = 0;
  err_code = 0;
  rip = 0;
  cs = 0;
  rflags = 0;
  rsp = 0;
  ss = 0;
}

-- `task_context_s`
pub record Task : Type 0 where
  pub stack : Stack
  pub mem_map : ℕ
  pub userland : Bool
  pub alive : Bool
  pub delay_ticks : ℕ

-- What `kmemset(&tasks_list[i], 0x0, sizeof(task_context_s))` leaves.
abbrev pub zero_task : Task
zero_task = record {
  stack = zero_stack;
  mem_map = 0;
  userland = false;
  alive = false;
  delay_ticks = 0;
}

abbrev pub max_number_of_tasks : ℕ
max_number_of_tasks = 100

abbrev pub quantom : ℕ
quantom = 10

-- The statics of scheduler.cpp, the processor's page map and task state segment, and the last jump
-- to user mode (`jump_to_userland_asm`, which is assembly), as instruction, stack and flags.
pub record Scheduler : Type 0 where
  pub quantom_counter : ℕ
  pub tasks_list : List Task
  pub last_task_idx : ℕ
  pub curr_task_idx : ℕ
  pub prev_task_idx : ℕ
  pub scheduler_initialized : Bool
  pub kernel_stack : ℕ
  pub page_map : ℕ
  pub tss : Tss
  pub jumped : Option (ℕ × ℕ × ℕ)

unfoldable pub task_at : List Task → ℕ → Task
task_at tasks i = get_or tasks i zero_task

-- The test of both loops of `find_next_task`.
unfoldable pub is_ready : List Task → ℕ → Bool
unfolding task_at
is_ready tasks i = (task_at tasks i).alive && (task_at tasks i).delay_ticks == 0

-- A loop of `find_next_task` over `left` tasks from `next_task` on.
unfoldable pub first_ready : List Task → ℕ → ℕ → Option ℕ
first_ready tasks zero next_task = none
first_ready tasks (suc left) next_task =
    let rest = first_ready tasks left (next_task + 1) in
    if is_ready tasks next_task then some next_task else rest

unfoldable pub find_next_task : List Task → ℕ → ℕ
find_next_task tasks curr_task =
    elim (first_ready tasks (max_number_of_tasks - (curr_task + 1)) (curr_task + 1)) [
      | some next_task ↦ next_task
      | none ↦ elim (first_ready tasks (curr_task - 1) 1) [ some next_task ↦ next_task | none ↦ 0 ]
    ]

unfoldable pub decrement_from : ℕ → ℕ → List Task → List Task
decrement_from zero i tasks = tasks
decrement_from (suc left) i tasks =
    let t = task_at tasks i in
    let tasks' =
      if t.alive && ltb 0 t.delay_ticks
      then set tasks i (record t { delay_ticks = t.delay_ticks - 1 })
      else tasks in
    decrement_from left (i + 1) tasks'

unfoldable pub decrement_delays : Scheduler → Scheduler
decrement_delays s = record s { tasks_list = decrement_from s.last_task_idx 0 s.tasks_list }

unfoldable pub jump_to_userland : Scheduler → ℕ → Scheduler
jump_to_userland s next_task_idx =
    let t = task_at s.tasks_list next_task_idx in
    record s {
      tss = switch_tss_userstack s.tss t.stack.rsp;
      jumped = some (t.stack.rip, t.stack.rsp, t.stack.rflags);
    }

-- The interrupt frame at `stack_addr` is passed in, and the one that is left there is returned.
unfoldable pub switch_context : Scheduler → Stack → ℕ → Stack × Scheduler
switch_context s frame next_task_idx =
    let prev = task_at s.tasks_list s.prev_task_idx in
    let tasks = set s.tasks_list s.prev_task_idx (record prev { stack = frame }) in
    let next = task_at tasks next_task_idx in
    let s' = record s {
      tasks_list = tasks;
      page_map = next.mem_map;
      prev_task_idx = s.curr_task_idx;
      curr_task_idx = next_task_idx;
    } in
    let tss' =
      switch_tss_kernelstack (switch_tss_userstack s.tss next.stack.rsp)
        ((s.kernel_stack + 0x1000) % 2 ^ 64) in
    (
      next.stack,
      if next.userland then jump_to_userland (record s' { tss = tss' }) next_task_idx else s',
    )

unfoldable pub round_robin : Scheduler → Stack → Stack × Scheduler
round_robin s frame =
    let s' = decrement_delays (record s { quantom_counter = (s.quantom_counter + 1) % 2 ^ 32 }) in
    if not s.scheduler_initialized
    then (frame, s)
    else if ltb s'.quantom_counter quantom
    then (frame, s')
    else switch_context (record s' { quantom_counter = 0 }) frame
        (find_next_task s'.tasks_list s'.curr_task_idx)

-- `none` is the division by zero before the timer is set up.
unfoldable pub delay_task : ℕ → Scheduler → ℕ → Stack → Option (Stack × Scheduler)
delay_task ms_per_tick s ms frame =
    let t = task_at s.tasks_list s.curr_task_idx in
    let tasks = set s.tasks_list s.curr_task_idx (record t { delay_ticks = ms / ms_per_tick }) in
    if ms_per_tick == 0
    then none
    else some (round_robin (record s { tasks_list = tasks; quantom_counter = quantom }) frame)
