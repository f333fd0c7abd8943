-- ===== src/Elf.antt =====
-- src/elf/elfloader.cpp: the loading of a program from an open file into a page map.
pub mod Pages
pub mod Segments
pub mod Program
pub mod Progress
pub mod Tests
use littlevisor.Base.{
  ℕ, zero, suc, ◌+◌, ◌-◌, ◌*◌, ◌/◌, ◌%◌, ◌^◌, ◌≤◌, ◌<◌, min, max, bit_and, bit_or, ◌≡◌, refl, sym,
  ap, fun_ext, ◌∙◌, ◌≢◌, ◌⊎◌, inl, inr, Bool, true, false, not, ◌&&◌, ◌||◌, Option, none, some,
  List, [], ◌∷◌, ◌++◌, length, get_or, get_elem?, set, length-set, get_or-set_self, get_or-set_ne,
  map, ltb, leb, ◌==◌, if◌then◌else◌, arith, Bool-cases, Option-cases, ltb→lt, lt→ltb, leb→le,
  ==_iff,
}
use littlevisor.Common.{Memory, load}
use littlevisor.Pmm.{kpalloc}
use littlevisor.Vfs.{FileSystem, Descriptor, vread_file, vseekp, vseekr}
use littlevisor.Fat32.Files.{equal_bytes}
use littlevisor.Common.{to_higher_half}
use littlevisor.Paging.{Machine, map_page, ◌>>=◌}
use littlevisor.KHeap.{KHeap, kmalloc, kfree}
use littlevisor.Paging.Bytes.{copy_bytes}

-- What kheap.cpp offers: an address, 0 if there is no room, and the release of one.
pub record Heap : Type 1 where
  pub State : Type 0
  pub kmalloc : State → ℕ → ℕ × State
  pub kfree : State → ℕ → State

-- The heap of src/kheap.cpp; `fuel` bounds the loops of `kfree`.
abbrev pub kernel_heap : ℕ → Heap
kernel_heap fuel = record {
  State = KHeap;
  kmalloc = kmalloc;
  kfree = λ h addr. elim (kfree fuel h addr h.first_chunk) [ some h' ↦ h' | none ↦ h ];
}

-- `ELF_MAGIC_SEQ`, by its bytes
abbrev pub elf_magic_seq : Memory
elf_magic_seq i = 0x464C457F / 256 ^ i % 256

-- The fields of `elf_hdr` and `elf_phdr` in the bytes of a header.
unfoldable pub e_entry : Memory → ℕ
e_entry hdr = load 8 hdr 24

unfoldable pub e_phoff : Memory → ℕ
e_phoff hdr = load 8 hdr 32

unfoldable pub e_phentsize : Memory → ℕ
e_phentsize hdr = load 2 hdr 54

unfoldable pub e_phnum : Memory → ℕ
e_phnum hdr = load 2 hdr 56

unfoldable pub p_type : Memory → ℕ
p_type phdr = load 4 phdr 0

unfoldable pub p_offset : Memory → ℕ
p_offset phdr = load 8 phdr 8

unfoldable pub p_vaddr : Memory → ℕ
p_vaddr phdr = load 8 phdr 16

unfoldable pub p_memsz : Memory → ℕ
p_memsz phdr = load 8 phdr 40

unfoldable pub p_align : Memory → ℕ
p_align phdr = load 8 phdr 48

-- What the loader changes: the memory with its free pages, the positions of the open files, the heap.
pub record Loader (State : Type 0) : Type 0 where
  pub machine : Machine
  pub table : List Descriptor
  pub heap : State

-- `fresh` is what a new buffer or a local variable holds.
module _ (fs : FileSystem) (heap : Heap) (disk : fs.Disk) (fresh : Memory) where
  -- The bytes that `vreadFile` leaves in a new buffer.
  unfoldable pub read_bytes : List Descriptor → ℕ → ℕ → Memory
  read_bytes table fd size = (vread_file fs disk table fd fresh size).1

  -- A new page at `virt_addr`, with `size` bytes of the file from offset `skip` on. `none` is `kpanic`.
  unfoldable pub load_page : Loader heap.State → ℕ → ℕ → ℕ → ℕ → ℕ → Option (Loader heap.State)
  load_page l fd virt_addr skip size memmap =
      let (page, pmm') = kpalloc l.machine.pmm in
      let (buff, heap') = heap.kmalloc l.heap size in
      let read = read_bytes l.table fd (size % 2 ^ 32) in
      if page == 0 then none else do
        m ← map_page (record l.machine { pmm = pmm' }) page virt_addr 7 memmap
        if buff == 0
            then none
            else some (record l {
              machine = record m {
                words =
                    copy_bytes m.words ((to_higher_half page + skip) % 2 ^ 64) read (size % 2 ^ 32);
              };
              heap = heap.kfree heap' buff;
            })

  -- `for(uint32_t i = 0; i < num_of_pages; i++)`, over the pages left
  unfoldable pub load_pages : ℕ → ℕ → Loader heap.State → ℕ → ℕ → ℕ → Option (Loader heap.State)
  load_pages zero i l fd vaddr memmap = some l
  load_pages (suc left) i l fd vaddr memmap = do
    l' ← load_page l fd ((vaddr + i * 0x1000 % 2 ^ 32) % 2 ^ 64) 0 0x1000 memmap
    load_pages left (i + 1) l' fd vaddr memmap

  -- The page that a segment begins in the middle of; an alignment of 0 divides by 0.
  unfoldable pub load_first :
      Loader heap.State → ℕ → Memory → ℕ → ℕ → Option (ℕ × Loader heap.State)
  load_first l fd phdr num_of_pages memmap =
      let skip = p_vaddr phdr % p_align phdr in
      if p_align phdr == 0 then none else if skip == 0 then some (num_of_pages, l) else (do
        l' ← load_page l fd (p_vaddr phdr) skip skip memmap
        some (
          (num_of_pages + 2 ^ 32 - 1) % 2 ^ 32,
          record l' { table = (vseekr l'.table fd (skip % 2 ^ 32)).1 },
        ))

  -- A round of the loop over the headers, for a segment that is loaded.
  unfoldable pub load_segment : Loader heap.State → ℕ → Memory → ℕ → Option (Loader heap.State)
  load_segment l fd phdr memmap =
      let num_of_pages = (p_memsz phdr + 0x1000) % 2 ^ 64 / 0x1000 % 2 ^ 32 in
      let l' = record l { table = (vseekp l.table fd (p_offset phdr % 2 ^ 32)).1 } in
      do
        (pages, l'') ← load_first l' fd phdr num_of_pages memmap
        load_pages pages 0 l'' fd (p_vaddr phdr) memmap

  -- The loop over the headers left, from number `hdr_idx` on.
  unfoldable pub load_headers :
      ℕ → ℕ → Loader heap.State → ℕ → Memory → ℕ → Option (Loader heap.State)
  load_headers zero hdr_idx l fd hdr memmap = some l
  load_headers (suc left) hdr_idx l fd hdr memmap =
      let offset_in_file = (e_phoff hdr + hdr_idx * e_phentsize hdr) % 2 ^ 32 in
      let l' = record l { table = (vseekp l.table fd offset_in_file).1 } in
      let phdr = read_bytes l'.table fd (e_phentsize hdr) in
      do
        l'' ← if p_type phdr == 1 then load_segment l' fd phdr memmap else some l'
        load_headers left (hdr_idx + 1) l'' fd hdr memmap

  -- The start address of the program, 0 for a file that is not one.
  unfoldable pub load_elf_to_memory : Loader heap.State → ℕ → ℕ → Option (ℕ × Loader heap.State)
  load_elf_to_memory l fd memmap =
      let hdr = read_bytes l.table fd 64 in
      let l' = record l { table = (vseekp l.table fd (e_phoff hdr % 2 ^ 32)).1 } in
      if not (equal_bytes 4 hdr 0 elf_magic_seq 0)
      then some (0, l)
      else if e_phoff hdr == 0
      then some (0, l)
      else (do l'' ← load_headers (e_phnum hdr) 0 l' fd hdr memmap; some (e_entry hdr, l''))
