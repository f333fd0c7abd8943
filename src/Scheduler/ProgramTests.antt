-- ===== src/Scheduler/ProgramTests.antt =====
-- A program that becomes the task 2, with the host's page map at page 8.
use littlevisor.Base.{ℕ, ◌+◌, ◌%◌, ◌<◌, ◌≡◌, refl, none, some, [], ◌∷◌, ltb, if◌then◌else◌, arith}
use littlevisor.Bits.{bit}
use littlevisor.Counting.{count}
use littlevisor.Common.{load, getbit}
use littlevisor.Pmm.{kpalloc, find_page, find_bit, take_page}
use littlevisor.Pmm.Progress.{Has}
use littlevisor.Vfs.{vread_file, vseekp, name_pointer}
use littlevisor.KHeap.{KHeap, kmalloc}
use littlevisor.Fat32.Files.{equal_bytes}
use littlevisor.Paging.Empty.{one_root, zeros-IsTree}
use littlevisor.Paging.Tree.{IsTree}
use littlevisor.Paging.Kernel.{Vmm}
use littlevisor.Elf.{
  Loader, kernel_heap, read_bytes, e_entry, e_phoff, e_phentsize, p_type, p_offset, p_vaddr,
  p_memsz, p_align,
}
use littlevisor.Elf.Progress.{HasRoom}
use littlevisor.Elf.Segments.{seen}
use littlevisor.Elf.Program.{segment_bytes}
use littlevisor.Elf.Tests.{one_file, fresh_heap, nothing, program}
use littlevisor.Scheduler.{Scheduler}
use littlevisor.Scheduler.Tests.{scheduler}
use littlevisor.Scheduler.Users.{create_user_task}
use littlevisor.Scheduler.Programs.{Started, map_page_of, create_user_task-Started}

abbrev fresh_loader : Loader KHeap
fresh_loader = record {
  machine = record {
    words = λ a. 0;
    pmm = record {
      bytes = λ a. if ltb a 2 then 0xFE else 0;
      bitmap_size = 2;
      last_allocated_idx = 0;
      number_of_avail_pages = 14;
    };
    cr3_val = 0x8000;
  };
  table = record { filename = []; position = 0; occupied = 1 } ∷ [];
  heap = fresh_heap;
}

abbrev vmm : Vmm
vmm = record { host_cr3 = 0x8000; kernel = none; memmap_response = []; kernel_memory_size = 0 }

fresh_loader-IsTree : IsTree fresh_loader.machine (one_root 0x8000)
unfolding bit
fresh_loader-IsTree =
    zeros-IsTree fresh_loader.machine.pmm fresh_loader.machine.cr3_val 0x8000
      (record { bytes = λ a. ground arith; small = omega arith; start = omega arith })
      (omega arith, refl) refl

many_free : Has 9 fresh_loader.machine.pmm
unfolding count bit
many_free = record { valid = fresh_loader-IsTree.valid; not_zero = refl; enough = omega arith }

buffers : HasRoom (kernel_heap 9) 1 fresh_heap
unfolding kmalloc
buffers = (refl, tt)

first_page : map_page_of one_file (kernel_heap 9) 0 nothing fresh_loader ≡ 0x1000
unfolding kpalloc find_page find_bit getbit load take_page
first_page = refl

create_user_task-Started_example :
    (s' : Scheduler) × (l' : Loader KHeap) × (create_user_task one_file
        (kernel_heap 9)
        0
        nothing
        vmm
        fresh_loader
        scheduler
        0
      ≡ some (4, s', l'))
    × Started scheduler 0x400000 (map_page_of one_file (kernel_heap 9) 0 nothing fresh_loader) s'
    × ((d : ℕ)
        → d < 0x1000
        → seen l'.machine
            (map_page_of one_file (kernel_heap 9) 0 nothing fresh_loader)
            (0x400000 + d)
          ≡ segment_bytes one_file (kernel_heap 9) 0 nothing fresh_loader.table 0 (d % 0x1000))
unfolding equal_bytes read_bytes vread_file vseekp name_pointer e_entry e_phoff e_phentsize p_type
    p_align p_vaddr p_offset p_memsz load
create_user_task-Started_example =
    create_user_task-Started one_file (kernel_heap 9) 0 nothing vmm fresh_loader scheduler 0
      (omega arith) (omega arith) program refl (omega arith) (λ a. ground arith) fresh_loader-IsTree
      refl (λ j h. refl) many_free buffers
