-- ===== src/Scheduler/Tests.antt =====
-- Runs of src/scheduler/scheduler.cpp on a table with the idle task and two others.
use littlevisor.Base.{
  ℕ, zero, suc, ◌≤◌, ◌≡◌, refl, true, none, List, [], ◌∷◌, ◌==◌, if◌then◌else◌, arith, some,
}
use littlevisor.Common.{getbit, getbit_val, load, write, clearbit}
use littlevisor.Pmm.{kpalloc, find_page, find_bit, take_page}
use littlevisor.Common.{to_higher_half}
use littlevisor.Paging.{
  Machine, slot, target, present, index, zero_page, add_table, keep_table, map_level, map_page,
}
use littlevisor.Paging.Ranges.{allocate_page}
use littlevisor.Scheduler.Create.{create_kernel_task, create_stack_frame}
use littlevisor.Scheduler.{
  Stack, Task, Scheduler, zero_stack, zero_task, task_at, is_ready, first_ready, find_next_task,
  switch_context,
}
use littlevisor.Scheduler.Next.{Picked, find_next_task-Picked, turns, no_starvation}
use littlevisor.Scheduler.Switch.{switch_back}

abbrev ready : Task
ready = record zero_task { alive = true; mem_map = 0x7000 }

abbrev waiting : Task
waiting = record zero_task { alive = true; delay_ticks = 3 }

abbrev dead : ℕ → List Task
dead zero = []
dead (suc k) = zero_task ∷ dead k

abbrev three : List Task
three = zero_task ∷ ready ∷ waiting ∷ ready ∷ dead 96

abbrev pub scheduler : Scheduler
scheduler = record {
  quantom_counter = 2;
  tasks_list = three;
  last_task_idx = 4;
  curr_task_idx = 1;
  prev_task_idx = 0;
  scheduler_initialized = true;
  kernel_stack = 0;
  page_map = 0;
  tss = record { rsp0_low = 0; rsp0_high = 0; rsp2_low = 0; rsp2_high = 0 };
  jumped = none;
}

abbrev frame : Stack
frame = record zero_stack { rip = 0x1234 }

skips_waiting : find_next_task three 1 ≡ 3
unfolding find_next_task first_ready is_ready task_at
skips_waiting = refl

three-is_ready : is_ready three 3 ≡ true
unfolding is_ready task_at
three-is_ready = refl

wraps_around : find_next_task three 3 ≡ 1
unfolding find_next_task first_ready is_ready task_at
wraps_around = refl

find_next_task-Picked_example : Picked three 1 (find_next_task three 1)
find_next_task-Picked_example = find_next_task-Picked three 1 (omega arith)

no_starvation_example : (k : ℕ) × (k ≤ 99) × (turns k three 1 ≡ 3)
no_starvation_example =
    no_starvation three 1 3 (omega arith) (omega arith) (omega arith) three-is_ready

switch_back_example :
    (switch_context (switch_context scheduler frame 3).1 zero_stack 1).0 ≡ zero_stack
switch_back_example = switch_back scheduler frame zero_stack 3 (omega arith)

-- Four free pages, and a page map at 0x7000 with no entry.
abbrev machine : Machine
machine = record {
  words = λ a. 0;
  pmm = record {
    bytes = λ a. if a == 0 then 0x1E else 0;
    bitmap_size = 1;
    last_allocated_idx = 0;
    number_of_avail_pages = 4;
  };
  cr3_val = 0x7000;
}

abbrev created : ℕ × Scheduler × Machine
created = elim (create_kernel_task 0x7000 machine scheduler 0x1234) [
  | some r ↦ r
  | none ↦ (0, scheduler, machine)
]

create_kernel_task_runs : create_kernel_task 0x7000 machine scheduler 0x1234 ≡ some created
unfolding create_kernel_task create_stack_frame allocate_page map_page map_level add_table
    keep_table kpalloc find_page find_bit getbit getbit_val load write clearbit take_page target
    present index slot to_higher_half zero_page
create_kernel_task_runs = refl
