-- ===== src/Elf/Tests.antt =====
-- A program of one page, loaded into a page map with no entries.

use littlevisor.Base.{
  ℕ, ◌+◌, ◌/◌, ◌%◌, ◌^◌, ◌≡◌, refl, true, some, [], ◌∷◌, ltb, ◌==◌, if◌then◌else◌, arith,
}
use littlevisor.Bits.{bit}
use littlevisor.Counting.{count}
use littlevisor.Common.{Memory, load}
use littlevisor.Vfs.{FileSystem, vread_file, vseekp, name_pointer}
use littlevisor.KHeap.{
  KHeap, kmalloc, kfree, release, check_consolidate, find_previous, consolidate,
  update_last_free_chunk,
}
use littlevisor.Fat32.Files.{equal_bytes}
use littlevisor.Paging.Empty.{one_root, zeros-IsTree}
use littlevisor.Paging.Tree.{Labels, IsTree}
use littlevisor.Elf.{
  Loader, kernel_heap, read_bytes, load_elf_to_memory, e_entry, e_phoff, e_phentsize, e_phnum,
  p_type, p_offset, p_vaddr, p_memsz, p_align,
}
use littlevisor.Pmm.Progress.{Has}
use littlevisor.Elf.Progress.{Ready}
use littlevisor.Elf.Segments.{Imaged}
use littlevisor.Elf.Program.{
  IsProgram, segment_header, segment_bytes, pages_of, load_elf_to_memory-Imaged,
}

-- The words of the file that are not 0: the header, one segment header at 64, and code at 0x1000.
abbrev pub file : Memory
file i =
    if ltb i 4
    then 0x464C457F / 256 ^ i % 256
    else if i == 26
    then 0x40
    else if i == 32
    then 64
    else if i == 54
    then 56
    else if i == 56
    then 1
    else if i == 64
    then 1
    else if i == 73
    then 0x10
    else if i == 82
    then 0x40
    else if i == 104
    then 0x10
    else if i == 113
    then 0x10
    else if i == 0x1000
    then 0xC3
    else 0

abbrev pub one_file : FileSystem
one_file = record {
  Disk = ℕ;
  check_file_exists = λ disk name. true;
  read_file = λ disk name buff pos size. (0, λ i. if ltb i size then file (pos + i) else buff i);
  write_file = λ disk name buff pos size. (1, disk);
  get_file_size = λ disk name. 0x1001;
}

-- A heap of one free chunk of four pages.
abbrev pub fresh_heap : KHeap
fresh_heap = record {
  next_chunk = λ a. if a == 0x100000 then 0x104000 else 0;
  state = λ a. 0;
  first_chunk = 0x100000;
  last_free_chunk = 0x100000;
}

abbrev loader : Loader KHeap
loader = record {
  machine = record {
    words = λ a. 0;
    pmm = record {
      bytes = λ a. if a == 0 then 0x1E else 0;
      bitmap_size = 1;
      last_allocated_idx = 0;
      number_of_avail_pages = 4;
    };
    cr3_val = 0x5000;
  };
  table = record { filename = []; position = 0; occupied = 1 } ∷ [];
  heap = fresh_heap;
}

abbrev labels : Labels
labels = one_root 0x5000

loader-IsTree : IsTree loader.machine labels
unfolding bit
loader-IsTree =
    zeros-IsTree loader.machine.pmm loader.machine.cr3_val 0x5000
      (record { bytes = λ a. ground arith; small = omega arith; start = omega arith })
      (omega arith, refl) refl

abbrev pub nothing : Memory
nothing a = 0

pub program : IsProgram one_file (kernel_heap 9) 0 nothing loader.table 0
unfolding equal_bytes read_bytes vread_file vseekp name_pointer e_phoff e_phnum e_phentsize p_type
    p_align p_vaddr p_offset p_memsz load
program = record {
  magic = refl;
  headers = refl;
  one = refl;
  loaded = refl;
  align = refl;
  aligned = refl;
  segment = record { aligned = refl; fits = omega arith; few = omega arith };
}

one_page :
    pages_of one_file
      (kernel_heap 9)
      0
      nothing
      (segment_header one_file (kernel_heap 9) 0 nothing loader.table 0)
    ≡ 1
unfolding equal_bytes read_bytes vread_file vseekp name_pointer e_phoff e_phnum e_phentsize p_type
    p_align p_vaddr p_offset p_memsz load
one_page = refl

ready : Ready one_file (kernel_heap 9) 0 nothing 0 1 loader
unfolding kmalloc kfree release check_consolidate find_previous consolidate update_last_free_chunk
    count bit
ready = (record { valid = loader-IsTree.valid; not_zero = refl; enough = omega arith }, (refl, tt))

load_elf_to_memory-Imaged_example :
    (l' : Loader KHeap) × (load_elf_to_memory one_file (kernel_heap 9) 0 nothing loader 0 0
      ≡ some (0x400000, l'))
    × Imaged loader.machine labels 0 0x400000 0 1
        (segment_bytes one_file (kernel_heap 9) 0 nothing loader.table 0)
        l'.machine
    × Has 0 l'.machine.pmm
unfolding equal_bytes read_bytes vread_file vseekp name_pointer e_entry e_phoff e_phnum e_phentsize
    p_type p_align p_vaddr p_offset p_memsz load
load_elf_to_memory-Imaged_example =
    load_elf_to_memory-Imaged one_file (kernel_heap 9) 0 nothing loader 0 0 0 program loader-IsTree
      refl (λ a. ground arith) ready
