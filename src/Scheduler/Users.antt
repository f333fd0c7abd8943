-- ===== src/Scheduler/Users.antt =====
-- src/scheduler/scheduler.cpp: the start of the scheduler, and the making of user tasks.
use littlevisor.Base.{
  ℕ, ◌+◌, ◌-◌, ◌*◌, ◌%◌, ◌^◌, bit_or, true, false, Option, some, set, ◌==◌, if◌then◌else◌,
}
use littlevisor.Common.{Memory, store}
use littlevisor.Vfs.{FileSystem}
use littlevisor.Paging.{Machine, ◌>>=◌}
use littlevisor.Paging.Ranges.{allocate_page}
use littlevisor.Paging.Kernel.{Vmm, create_clean_virtual_space, init_user_mappings}
use littlevisor.Elf.{Heap, Loader, load_elf_to_memory}
use littlevisor.Scheduler.{Task, Scheduler, zero_task, zero_stack}
use littlevisor.Scheduler.Create.{create_stack_frame, kernel_task}

-- The model-specific registers, and what `enable_syscalls` writes to them.
unfoldable pub enable_syscalls : Memory → Memory
enable_syscalls msr =
    store (store msr 0xC0000080 (bit_or (msr 0xC0000080) 1)) 0xC0000081
      ((0x38 - 16) * 2 ^ 48 % 2 ^ 64)

-- `idle` is the address of `idle_task`.
unfoldable pub init_scheduler :
    ℕ → Vmm → Memory → Machine → Scheduler → Option (Memory × Machine × Scheduler)
unfolding create_stack_frame allocate_page enable_syscalls
init_scheduler idle vmm msr m s = do
  (rsp, m1) ← create_stack_frame vmm.host_cr3 m s.page_map false
  ((virt_addr, phys_addr), m2) ← allocate_page vmm.host_cr3 m1 3 0
  some (
    enable_syscalls msr,
    m2,
    record s {
      tasks_list = set s.tasks_list 0 (kernel_task idle rsp s.page_map);
      kernel_stack = virt_addr;
      scheduler_initialized = true;
    },
  )

-- The task that `create_user_task` fills in: code and data selectors of a program, interrupts on.
abbrev pub user_task : ℕ → ℕ → ℕ → Task
user_task start_rip rsp mem_map = record {
  stack = record zero_stack { cs = 0x38; rsp = rsp; rip = start_rip; ss = 0x40; rflags = 2 + 512 };
  mem_map = mem_map;
  userland = true;
  alive = true;
  delay_ticks = 0;
}

-- The entry is cleared first, and stays clear if the file is no program.
abbrev pub cleared : Scheduler → Scheduler
cleared s = record s { tasks_list = set s.tasks_list s.last_task_idx zero_task }

module _ (fs : FileSystem) (heap : Heap) (disk : fs.Disk) (fresh : Memory) where
  -- The page map of a new program, before anything is loaded.
  unfoldable pub program_map : Vmm → Loader heap.State → ℕ × Loader heap.State
  program_map vmm l =
      let (memmap, m) = create_clean_virtual_space l.machine in
      (memmap, record l { machine = init_user_mappings vmm m memmap })

  -- The entry in the table, once the program is loaded.
  unfoldable pub add_user_task :
      Vmm → Loader heap.State → Scheduler → ℕ → ℕ → Option (ℕ × Scheduler × Loader heap.State)
  unfolding create_stack_frame
  add_user_task vmm l s start_rip memmap = if start_rip == 0 then some (0, s, l) else do
    (rsp, m) ← create_stack_frame vmm.host_cr3 l.machine memmap true
    some (
      s.last_task_idx % 256,
      record s {
        tasks_list = set s.tasks_list s.last_task_idx (user_task start_rip rsp memmap);
        last_task_idx = (s.last_task_idx + 1) % 2 ^ 32;
      },
      record l { machine = m },
    )

  unfoldable pub create_user_task :
      Vmm → Loader heap.State → Scheduler → ℕ → Option (ℕ × Scheduler × Loader heap.State)
  unfolding program_map add_user_task
  create_user_task vmm l s elf_fd =
      let (memmap, l1) = program_map vmm l in
      do
        (start_rip, l2) ← load_elf_to_memory fs heap disk fresh l1 elf_fd memmap
        add_user_task vmm l2 (cleared s) start_rip memmap
