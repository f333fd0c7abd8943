-- ===== src/Paging/Kernel.antt =====
-- src/mm/paging.cpp and src/mm/npaging.cpp: the page map of the kernel, and of a new program.
use littlevisor.Base.{
  ℕ, zero, suc, ◌+◌, ◌-◌, ◌*◌, ◌/◌, ◌%◌, ◌&&◌, Option, none, some, List, [], ◌∷◌, ltb, leb, ◌==◌,
  if◌then◌else◌,
}
use littlevisor.Pmm.{kpalloc}
use littlevisor.Pmm.Init.{Region}
use littlevisor.Common.{to_higher_half}
use littlevisor.Paging.{Machine, slot, map_page, ◌>>=◌}
use littlevisor.Paging.Ranges.{map_range}

-- The statics of paging.cpp. `kernel` holds the virtual and the physical address of the kernel, once
-- `kernel_file_ptr` and `kernel_addr_ptr` are set.
pub record Vmm : Type 0 where
  pub host_cr3 : ℕ
  pub kernel : Option (ℕ × ℕ)
  pub memmap_response : List Region
  pub kernel_memory_size : ℕ

-- `PRESENT_FLAG | RW_FLAG`
abbrev pub present_rw : ℕ
present_rw = 3

unfoldable pub map_kernel : Vmm → Machine → ℕ → Option Machine
map_kernel vmm m cr3 = elim vmm.kernel [
  | none ↦ some m
  | some (virtual_base, physical_base) ↦
      map_range m cr3 virtual_base physical_base (vmm.kernel_memory_size / 0x1000 + 1) present_rw
]

-- The loop of `init_mappings` over the entries left.
unfoldable pub map_regions : List Region → Machine → ℕ → Option Machine
map_regions [] m memmap = some m
map_regions (e ∷ entries) m memmap = do
  m' ← map_range m memmap (to_higher_half e.base) e.base (e.length_in_bytes / 0x1000 + 1) present_rw
  map_regions entries m' memmap

unfoldable pub init_mappings : Vmm → Machine → ℕ → Option Machine
init_mappings vmm m memmap = do
  m' ← map_regions vmm.memmap_response m memmap
  map_kernel vmm m' memmap

-- `create_clean_virtual_space`: a page, with whatever it holds.
unfoldable pub create_clean_virtual_space : Machine → ℕ × Machine
create_clean_virtual_space m = let (page, pmm') = kpalloc m.pmm in (page, record m { pmm = pmm' })

abbrev pub switch_page_map : Machine → ℕ → Machine
switch_page_map m cr3 = record m { cr3_val = cr3 }

-- `elf_end_addr - elf_start_addr` comes from the linker.
unfoldable pub init_vmm :
    ℕ → Vmm → Machine → List Region → Option (ℕ × ℕ) → Option (ℕ × Vmm × Machine)
unfolding create_clean_virtual_space init_mappings
init_vmm size vmm m memmap_response kernel =
    let (memmap, m1) = create_clean_virtual_space m in
    let vmm' = record vmm {
      kernel_memory_size = size;
      kernel = kernel;
      memmap_response = memmap_response;
    } in
    do
      m2 ← init_mappings vmm' m1 memmap
      some (memmap, record vmm' { host_cr3 = memmap }, switch_page_map m2 memmap)

-- The upper half of the host's first table, entry by entry.
unfoldable pub init_user_mappings : Vmm → Machine → ℕ → Machine
init_user_mappings vmm m memmap = record m {
  words = λ a.
      let offset = a - slot memmap 256 in
      if leb (slot memmap 256) a && ltb offset (256 * 8) && offset % 8 == 0
      then m.words (slot vmm.host_cr3 256 + offset)
      else m.words a;
}

-- The page map that was in use is the answer.
unfoldable pub switch_to_host_pagemap : Vmm → Machine → ℕ × Machine
switch_to_host_pagemap vmm m = (m.cr3_val, switch_page_map m vmm.host_cr3)

-- The loop of `create_linear_virtual_space`, over the pages left.
unfoldable pub map_linear : ℕ → ℕ → Machine → ℕ → Option Machine
map_linear zero i m flags = some m
map_linear (suc left) i m flags = do
  let (page, pmm') = kpalloc m.pmm
  m' ← map_page (record m { pmm = pmm' }) page i flags 0
  map_linear left (i + 0x1000) m' flags

-- `size` is rounded up to pages.
unfoldable pub create_linear_virtual_space : Machine → ℕ → Option Machine
unfolding map_linear
create_linear_virtual_space m size = map_linear ((size + 0xFFF) / 0x1000) 0 m 7
