-- ===== src/Elf/Program.antt =====
-- A program with one segment, from the file to what its page map shows.

use littlevisor.Base.{
  ℕ, ◌+◌, ◌*◌, ◌/◌, ◌%◌, ◌^◌, ◌≡◌, refl, ap, ◌∙◌, true, false, Option, none, some, List, [], ◌==◌,
  if◌then◌else◌, arith,
}
use littlevisor.Common.{Memory}
use littlevisor.Common.Bitops.{Bytes}
use littlevisor.Vfs.{FileSystem, Descriptor, vseekp}
use littlevisor.Fat32.Files.{equal_bytes}
use littlevisor.Paging.{root, ◌>>=◌}
use littlevisor.Paging.Tree.{Labels, IsTree}
use littlevisor.Elf.{
  Heap, Loader, read_bytes, load_pages, load_first, load_segment, load_headers, load_elf_to_memory,
  elf_magic_seq, e_entry, e_phoff, e_phentsize, e_phnum, p_type, p_offset, p_vaddr, p_memsz,
  p_align,
}
use littlevisor.Pmm.Progress.{Has, Has-le}
use littlevisor.Elf.Progress.{Ready, load_pages-Ends}
use littlevisor.Elf.Segments.{Imaged, IsSegment, load_pages_lem}

-- A last step that changes nothing.
>>=-some : {A : Type 0} (o : Option A) → (o >>= (λ a. some a)) ≡ o
>>=-some none = refl
>>=-some (some a) = refl

module _ (fs : FileSystem) (heap : Heap) (disk : fs.Disk) (fresh : Memory) where
  -- The header of the program, the one of its segment, and the bytes at the start of the segment.
  abbrev pub header : List Descriptor → ℕ → Memory
  header table fd = read_bytes fs heap disk fresh table fd 64

  abbrev pub at_header : List Descriptor → ℕ → List Descriptor
  at_header table fd =
      (vseekp (vseekp table fd (e_phoff (header table fd) % 2 ^ 32)).1 fd
        (e_phoff (header table fd) % 2 ^ 32)).1

  abbrev pub segment_header : List Descriptor → ℕ → Memory
  segment_header table fd =
      read_bytes fs heap disk fresh (at_header table fd) fd (e_phentsize (header table fd))

  abbrev pub at_segment : List Descriptor → ℕ → List Descriptor
  at_segment table fd =
      (vseekp (at_header table fd) fd (p_offset (segment_header table fd) % 2 ^ 32)).1

  abbrev pub segment_bytes : List Descriptor → ℕ → Memory
  segment_bytes table fd = read_bytes fs heap disk fresh (at_segment table fd) fd 0x1000

  -- The number of pages that the loader gives to a segment.
  abbrev pub pages_of : Memory → ℕ
  pages_of phdr = (p_memsz phdr + 0x1000) % 2 ^ 64 / 0x1000 % 2 ^ 32

  -- A file of one segment that starts with a page.
  pub record IsProgram (table : List Descriptor) (fd : ℕ) : Type 0 where
    pub magic : equal_bytes 4 (header table fd) 0 elf_magic_seq 0 ≡ true
    pub headers : (e_phoff (header table fd) == 0) ≡ false
    pub one : e_phnum (header table fd) ≡ 1
    pub loaded : p_type (segment_header table fd) ≡ 1
    pub align : (p_align (segment_header table fd) == 0) ≡ false
    pub aligned : p_vaddr (segment_header table fd) % p_align (segment_header table fd) ≡ 0
    pub segment : IsSegment (p_vaddr (segment_header table fd)) (pages_of (segment_header table fd))

  load_segment-pages :
      (l : Loader heap.State) (fd cr3 : ℕ) (phdr : Memory)
      → (p_align phdr == 0) ≡ false
      → p_vaddr phdr % p_align phdr ≡ 0
      → load_segment fs heap disk fresh l fd phdr cr3
        ≡ load_pages fs heap disk fresh
            (pages_of phdr)
            0
            (record l { table = (vseekp l.table fd (p_offset phdr % 2 ^ 32)).1 })
            fd
            (p_vaddr phdr)
            cr3
  unfolding load_segment load_first
  load_segment-pages l fd cr3 phdr align aligned = rw (align, aligned) refl

  load_headers_one :
      (l : Loader heap.State) (fd cr3 : ℕ) (hdr : Memory)
      → let table = (vseekp l.table fd (e_phoff hdr % 2 ^ 32)).1 in
        let phdr = read_bytes fs heap disk fresh table fd (e_phentsize hdr) in
        e_phnum hdr ≡ 1
        → p_type phdr ≡ 1
        → load_headers fs heap disk fresh (e_phnum hdr) 0 l fd hdr cr3
          ≡ load_segment fs heap disk fresh (record l { table = table }) fd phdr cr3
  unfolding load_headers
  load_headers_one l fd cr3 hdr one loaded =
      let table : ℕ → List Descriptor = λ o. (vseekp l.table fd o).1 in
      let phdr : ℕ → Memory = λ o. read_bytes fs heap disk fresh (table o) fd (e_phentsize hdr) in
      let round : ℕ → ℕ → Option (Loader heap.State) = λ o t.
        (if t == 1
          then load_segment fs heap disk fresh (record l { table = table o }) fd (phdr o) cr3
          else some (record l { table = table o }))
        >>= (λ l'. some l') in
      let offset : (e_phoff hdr + 0 * e_phentsize hdr) % 2 ^ 32 ≡ e_phoff hdr % 2 ^ 32 =
        omega arith in
      ap (λ n. load_headers fs heap disk fresh n 0 l fd hdr cr3) one
      ∙ ap (λ o. round o (p_type (phdr o))) offset
      ∙ ap (round (e_phoff hdr % 2 ^ 32)) loaded
      ∙ >>=-some _

  -- If a file is a program of one segment that starts with a page, on tables that form a tree,
  -- and for each page of the segment there are four free pages, none of them the page 0, and a buffer
  -- from the heap, and `k` pages more, then the loader does not panic: it answers the entry point of the header, and every page of the
  -- segment shows the first page of the segment in the file. The translations of other addresses whose
  -- tables were there before, and the pages in use for something else, are as they were,
  -- and `k` free pages are left.
  pub load_elf_to_memory-Imaged :
      (l : Loader heap.State) {label : Labels} (fd cr3 k : ℕ)
      → IsProgram l.table fd
      → IsTree l.machine label
      → label (root l.machine cr3) ≡ some []
      → Bytes (segment_bytes l.table fd)
      → Ready fs heap disk fresh k (pages_of (segment_header l.table fd)) l
      → (l' : Loader heap.State) × (load_elf_to_memory fs heap disk fresh l fd cr3
          ≡ some (e_entry (header l.table fd), l'))
        × Imaged l.machine label cr3
            (p_vaddr (segment_header l.table fd))
            0
            (pages_of (segment_header l.table fd))
            (segment_bytes l.table fd)
            l'.machine
        × Has k l'.machine.pmm
  unfolding load_elf_to_memory
  load_elf_to_memory-Imaged l fd cr3 k program tree at bytes ready =
      let hdr = header l.table fd in
      let phdr = segment_header l.table fd in
      let n = pages_of phdr in
      let l0 = record l { table = (vseekp l.table fd (e_phoff hdr % 2 ^ 32)).1 } in
      let l2 = record l { table = at_segment l.table fd } in
      let (l', ran, left) =
        load_pages-Ends fs heap disk fresh k n 0 l2 fd (p_vaddr phdr) cr3 ready in
      let loaded : load_headers fs heap disk fresh (e_phnum hdr) 0 l0 fd hdr cr3 ≡ some l' =
        load_headers_one l0 fd cr3 hdr program.one program.loaded
        ∙ load_segment-pages (record l { table = at_header l.table fd }) fd cr3 phdr program.align
            program.aligned
        ∙ ran in
      (
        l',
        rw (program.magic, program.headers, loaded) refl,
        load_pages_lem fs heap disk fresh l2 fd cr3 program.segment tree at bytes ran,
        Has-le k (4 * 0 + k) (omega arith) left.0,
      )
