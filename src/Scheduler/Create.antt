-- ===== src/Scheduler/Create.antt =====
-- src/scheduler/scheduler.cpp: the making of kernel tasks.

use mathlib.Core.Path.{subst}
use littlevisor.Base.{
  ℕ, ◌+◌, ◌%◌, ◌^◌, ◌≤◌, ◌<◌, ◌≡◌, refl, sym, ap, ◌≢◌, Bool, true, false, Option, none, some,
  length, set, get_or-set_self, get_or-set_ne, if◌then◌else◌, arith,
}
use littlevisor.Paging.{Machine, ◌>>=◌}
use littlevisor.Paging.Ranges.{allocate_page}
use littlevisor.Scheduler.{Task, Scheduler, zero_task, zero_stack, task_at, is_ready}

-- The top of a new page for a stack.
unfoldable pub create_stack_frame : ℕ → Machine → ℕ → Bool → Option (ℕ × Machine)
create_stack_frame host_cr3 m mem_map is_user = do
  ((virt_addr, phys_addr), m') ← allocate_page host_cr3 m (if is_user then 7 else 3) mem_map
  some ((virt_addr + 0x1000) % 2 ^ 64, m')

-- The task that `create_kernel_task` fills in: code and data selectors of the kernel, interrupts on.
abbrev pub kernel_task : ℕ → ℕ → ℕ → Task
kernel_task start_rip rsp mem_map = record {
  stack = record zero_stack { cs = 0x28; rsp = rsp; rip = start_rip; ss = 0x30; rflags = 2 + 512 };
  mem_map = mem_map;
  userland = false;
  alive = true;
  delay_ticks = 0;
}

-- `get_host_pageMap` answers the page map in use. A task number has 8 bits. `none` is a panic for want
-- of a page.
unfoldable pub create_kernel_task : ℕ → Machine → Scheduler → ℕ → Option (ℕ × Scheduler × Machine)
unfolding create_stack_frame
create_kernel_task host_cr3 m s start_rip = do
  (rsp, m') ← create_stack_frame host_cr3 m s.page_map false
  some (
    s.last_task_idx % 256,
    record s {
      tasks_list = set s.tasks_list s.last_task_idx (kernel_task start_rip rsp s.page_map);
      last_task_idx = (s.last_task_idx + 1) % 2 ^ 32;
    },
    m',
  )

-- What a new kernel task is: ready, at its start, in the first entry that was not in use; the other
-- entries are as they were.
pub record Created (s : Scheduler) (start_rip : ℕ) (r : ℕ × Scheduler × Machine) : Type 0 where
  pub number : r.0 ≡ s.last_task_idx
  pub ready : is_ready r.1.tasks_list s.last_task_idx ≡ true
  pub start : (task_at r.1.tasks_list s.last_task_idx).stack.rip ≡ start_rip
  pub next : r.1.last_task_idx ≡ s.last_task_idx + 1
  pub others : (n : ℕ) → n ≢ s.last_task_idx → task_at r.1.tasks_list n ≡ task_at s.tasks_list n

-- If there is an entry left in a table of at most 100 tasks and `create_kernel_task` does not panic,
-- then it makes a ready task with the given start in that entry, and changes no other entry.
pub create_kernel_task-Created :
    (host_cr3 : ℕ) (m : Machine) (s : Scheduler) (start_rip : ℕ) {r : ℕ × Scheduler × Machine}
    → length s.tasks_list ≤ 100
    → s.last_task_idx < length s.tasks_list
    → create_kernel_task host_cr3 m s start_rip ≡ some r
    → Created s start_rip r
unfolding create_kernel_task is_ready task_at
create_kernel_task-Created host_cr3 m s start_rip {r} size room ran =
    from (create_stack_frame host_cr3 m s.page_map false) ran
  where
    same : (a b : ℕ × Scheduler × Machine) → some a ≡ some b → a ≡ b
    same a b e = ap (λ o. elim o [ some x ↦ x | none ↦ a ]) e

    from :
        (o : Option (ℕ × Machine))
        → (o >>= (λ p. some (
          s.last_task_idx % 256,
          record s {
            tasks_list = set s.tasks_list s.last_task_idx (kernel_task start_rip p.0 s.page_map);
            last_task_idx = (s.last_task_idx + 1) % 2 ^ 32;
          },
          p.1,
        )))
          ≡ some r
        → Created s start_rip r
    from none e = absurd (ground arith)
    from (some (rsp, m')) e =
        let self =
          get_or-set_self s.tasks_list s.last_task_idx (kernel_task start_rip rsp s.page_map)
            zero_task room in
        subst (Created s start_rip) (same _ r e) (record {
          number = omega (arith, size, room);
          ready = rw self refl;
          start = rw self refl;
          next = omega (arith, size, room);
          others =
              λ n ne. get_or-set_ne s.tasks_list s.last_task_idx n _ zero_task (λ e. ne (sym e));
        })
