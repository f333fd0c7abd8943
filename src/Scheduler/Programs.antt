-- ===== src/Scheduler/Programs.antt =====
-- What `create_user_task` promises: the task is ready, and its page map shows the program.
use littlevisor.Base.{
  ℕ, suc, ◌+◌, ◌*◌, ◌%◌, ◌^◌, ◌≤◌, ◌<◌, ◌≡◌, refl, sym, ap, ◌∙◌, ◌≢◌, true, false, some, [], length,
  set, length-set, get_or-set_self, get_or-set_ne, ◌==◌, arith,
}
use littlevisor.Common.{Memory}
use littlevisor.Common.Bitops.{Bytes}
use littlevisor.Pmm.{kpalloc}
use littlevisor.Pmm.Progress.{Has, Has-le, kpalloc-Has}
use littlevisor.Vfs.{FileSystem}
use littlevisor.Common.{to_higher_half}
use littlevisor.Paging.{Machine, slot, present, root}
use littlevisor.Paging.Tree.{Labels, IsTree}
use littlevisor.Paging.Tree.Level.{IsFlags}
use littlevisor.Paging.Translate.{Mappable, map_page-Grown, walk_table-map_page_other}
use littlevisor.Paging.Pages.{page_number}
use littlevisor.Paging.Progress.{map_page-Ends}
use littlevisor.Paging.Ranges.{allocate_page}
use littlevisor.Paging.Frames.{without_page, kpalloc-Got, Got-Grown, walk_table-without_page}
use littlevisor.Paging.Kernel.{Vmm, create_clean_virtual_space, init_user_mappings}
use littlevisor.Paging.Programs.{with_root, made, made-IsTree}
use littlevisor.Elf.{Heap, Loader, e_entry, p_vaddr}
use littlevisor.Elf.Progress.{HasRoom}
use littlevisor.Elf.Segments.{seen, Imaged, seen-Grown}
use littlevisor.Elf.Program.{
  IsProgram, header, segment_header, segment_bytes, pages_of, load_elf_to_memory-Imaged,
}
use littlevisor.Scheduler.{Scheduler, zero_task, task_at, is_ready}
use littlevisor.Scheduler.Create.{create_stack_frame}
use littlevisor.Scheduler.Users.{user_task, cleared, program_map, add_user_task, create_user_task}

-- The new task: ready, a program, at its start and with its page map, in the first entry that was not
-- in use. The other entries are as they were.
pub record Started (s : Scheduler) (start_rip memmap : ℕ) (s' : Scheduler) : Type 0 where
  pub ready : is_ready s'.tasks_list s.last_task_idx ≡ true
  pub user : (task_at s'.tasks_list s.last_task_idx).userland ≡ true
  pub start : (task_at s'.tasks_list s.last_task_idx).stack.rip ≡ start_rip
  pub map : (task_at s'.tasks_list s.last_task_idx).mem_map ≡ memmap
  pub next : s'.last_task_idx ≡ s.last_task_idx + 1
  pub others : (n : ℕ) → n ≢ s.last_task_idx → task_at s'.tasks_list n ≡ task_at s.tasks_list n

abbrev with_user_task : Scheduler → ℕ → ℕ → ℕ → Scheduler
with_user_task s start_rip rsp memmap = record s {
  tasks_list = set (cleared s).tasks_list s.last_task_idx (user_task start_rip rsp memmap);
  last_task_idx = (s.last_task_idx + 1) % 2 ^ 32;
}

with_user_task-Started :
    (s : Scheduler) (start_rip rsp memmap : ℕ)
    → length s.tasks_list ≤ 100
    → s.last_task_idx < length s.tasks_list
    → Started s start_rip memmap (with_user_task s start_rip rsp memmap)
unfolding task_at is_ready
with_user_task-Started s start_rip rsp memmap size room =
    let self =
      get_or-set_self (cleared s).tasks_list s.last_task_idx (user_task start_rip rsp memmap)
        zero_task (omega (arith, room, length-set s.tasks_list s.last_task_idx zero_task)) in
    record {
      ready = rw self refl;
      user = rw self refl;
      start = rw self refl;
      map = rw self refl;
      next = omega (arith, size, room);
      others = λ n ne.
          get_or-set_ne (cleared s).tasks_list s.last_task_idx n _ zero_task (λ e. ne (sym e))
          ∙ get_or-set_ne s.tasks_list s.last_task_idx n zero_task zero_task (λ e. ne (sym e));
    }

user-IsFlags : IsFlags 7
unfolding present
user-IsFlags = record { small = omega arith; on = refl }

-- A stack page for a program: it lies in the upper half, and the image stays.
module _ {m0 m : Machine} {label : Labels} {memmap vaddr n : ℕ} {image : Memory}
    (imaged : Imaged m0 label memmap vaddr 0 n image m) (host_cr3 : ℕ) (some_map : memmap ≢ 0)
    (at : imaged.grown.label' (root m memmap) ≡ some []) (has : Has 4 m.pmm)
    (low : vaddr + n * 0x1000 ≤ 2 ^ 47) where
  stack_number :
      (p v : ℕ) → p < 2 ^ 47 → v < 2 ^ 47 → page_number v ≢ page_number (to_higher_half p)
  unfolding to_higher_half
  stack_number p v hp hv same = omega (arith, hp, hv, same)

  pub stack-Imaged :
      (rsp : ℕ) × (m' : Machine) × (create_stack_frame host_cr3 m memmap true ≡ some (rsp, m'))
      × ((d : ℕ) → d < n * 0x1000 → seen m' memmap (vaddr + d) ≡ image (d % 0x1000))
  unfolding create_stack_frame allocate_page
  stack-Imaged =
      let own_root : (memmap == 0) ≡ false = ground (arith, some_map) in
      let (found, has3) = kpalloc-Has has in
      let page = (kpalloc m.pmm).0 in
      let (m', ran, _) =
        map_page-Ends 0 (without_page m) page (to_higher_half page) 7 memmap has3 in
      let got = kpalloc-Got imaged.grown.tree found in
      let able : Mappable (without_page m) imaged.grown.label' page 7 memmap = record {
        tree = got.tree;
        at = at;
        frame = got.own.0;
        ok = user-IsFlags;
      } in
      let grown = Got-Grown got (map_page-Grown (to_higher_half page) able ran) in
      (
        (to_higher_half page + 0x1000) % 2 ^ 64,
        m',
        rw (own_root, ran) refl,
        λ d h.
            let (q, reaches) = imaged.reaches d (omega arith) h in
            seen-Grown d imaged grown
              (walk_table-map_page_other (to_higher_half page) (vaddr + d) able ran reaches
                  (stack_number page (vaddr + d) (omega (arith, got.small)) (omega (arith, low, h)))
                ∙ walk_table-without_page m (vaddr + d) memmap)
              h,
      )

module _ (fs : FileSystem) (heap : Heap) (disk : fs.Disk) (fresh : Memory) where
  -- The page for the new page map.
  abbrev pub map_page_of : Loader heap.State → ℕ
  map_page_of l = (kpalloc l.machine.pmm).0

  -- If the file is a program of one segment in the lower half of the address space, with a start that
  -- is not 0, there are an entry, pages and buffers enough, and the page for the page map holds zeros
  -- in its lower half, on tables that form a tree with the host's page map, then `create_user_task`
  -- makes a ready user task at the program's start in the first entry that was not in use, changes no
  -- other, and under the task's page map every page of the segment shows the first page of the segment
  -- in the file.
  pub create_user_task-Started :
      (vmm : Vmm) (l : Loader heap.State) (s : Scheduler) (elf_fd : ℕ) {label : Labels}
      → let n = pages_of fs heap disk fresh (segment_header fs heap disk fresh l.table elf_fd) in
        let vaddr = p_vaddr (segment_header fs heap disk fresh l.table elf_fd) in
        let start = e_entry (header fs heap disk fresh l.table elf_fd) in
        length s.tasks_list ≤ 100
        → s.last_task_idx < length s.tasks_list
        → IsProgram fs heap disk fresh l.table elf_fd
        → (start == 0) ≡ false
        → vaddr + n * 0x1000 ≤ 2 ^ 47
        → Bytes (segment_bytes fs heap disk fresh l.table elf_fd)
        → IsTree l.machine label
        → label vmm.host_cr3 ≡ some []
        → ((j : ℕ) → j < 256 → l.machine.words (slot (map_page_of l) j) ≡ 0)
        → Has (4 * n + 5) l.machine.pmm
        → HasRoom heap n l.heap
        → (s' : Scheduler) × (l' : Loader heap.State) × (create_user_task fs heap disk fresh vmm l s
              elf_fd
            ≡ some (s.last_task_idx, s', l'))
          × Started s start (map_page_of l) s'
          × ((d : ℕ)
              → d < n * 0x1000
              → seen l'.machine (map_page_of l) (vaddr + d)
                ≡ segment_bytes fs heap disk fresh l.table elf_fd (d % 0x1000))
  unfolding create_user_task program_map add_user_task create_clean_virtual_space init_user_mappings
  create_user_task-Started vmm l s elf_fd {label} size room program entry low bytes tree host clean
        has buffers =
      let n = pages_of fs heap disk fresh (segment_header fs heap disk fresh l.table elf_fd) in
      let start = e_entry (header fs heap disk fresh l.table elf_fd) in
      let memmap = map_page_of l in
      let (found, has1) = kpalloc-Has (Has-le (suc (4 * n + 4)) (4 * n + 5) (omega arith) has) in
      let got = kpalloc-Got tree found in
      let some_map : memmap ≢ 0 = ground (arith, found) in
      let own_root : (k : Machine) → root k memmap ≡ memmap = λ k. rw found refl in
      let labelled : with_root label memmap memmap ≡ some [] = ground arith in
      let m = made vmm got.tree memmap got.own host in
      let l1 = record l { machine = m } in
      let (l2, ran, imaged, has2) =
        load_elf_to_memory-Imaged fs heap disk fresh l1 elf_fd memmap 4 program
          (made-IsTree vmm got.tree memmap got.own host clean) (rw (own_root m) labelled) bytes
          (has1, buffers) in
      let (rsp, m', framed, shows) =
        stack-Imaged imaged vmm.host_cr3 some_map
          (rw (own_root l2.machine) (imaged.grown.extends memmap [] labelled)) has2 low in
      let number : s.last_task_idx % 256 ≡ s.last_task_idx = omega (arith, size, room) in
      let done : Loader heap.State = record l2 { machine = m' } in
      (
        with_user_task s start rsp memmap,
        done,
        rw (ran, entry, framed)
            (ap (λ (k : ℕ). some (k, with_user_task s start rsp memmap, done)) number),
        with_user_task-Started s start rsp memmap size room,
        shows,
      )
