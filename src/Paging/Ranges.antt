-- ===== src/Paging/Ranges.antt =====
-- src/mm/npaging.cpp and src/mm/paging.cpp: the mappings of many pages, and of new ones.
use littlevisor.Base.{ℕ, zero, suc, ◌+◌, ◌*◌, ◌%◌, ◌^◌, Option, some, ◌==◌, if◌then◌else◌}
use littlevisor.Pmm.{kpalloc}
use littlevisor.Common.{to_higher_half}
use littlevisor.Paging.{Machine, map_page, walk_table, ◌>>=◌}

-- The loop of `map_range`, over the pages left, from page `i` on.
unfoldable pub map_from : ℕ → ℕ → Machine → ℕ → ℕ → ℕ → ℕ → Option Machine
map_from zero i m cr3 virt_addr phys_addr flags = some m
map_from (suc left) i m cr3 virt_addr phys_addr flags = do
  m' ← map_page m ((phys_addr + i * 0x1000) % 2 ^ 64) ((virt_addr + i * 0x1000) % 2 ^ 64) flags cr3
  map_from left (i + 1) m' cr3 virt_addr phys_addr flags

unfoldable pub map_range : Machine → ℕ → ℕ → ℕ → ℕ → ℕ → Option Machine
unfolding map_from
map_range m cr3 virt_addr phys_addr num_of_pages flags =
    map_from num_of_pages 0 m cr3 virt_addr phys_addr flags

-- For fewer than `2 ^ 31` pages, which the loop counts with an `int`.
unfoldable pub identity_map : Machine → ℕ → ℕ → ℕ → ℕ → Option Machine
unfolding map_from
identity_map m cr3 start_addr num_of_pages flags =
    map_from num_of_pages 0 m cr3 start_addr start_addr flags

-- The virtual address and the physical one. `host_cr3` is the static of paging.cpp.
unfoldable pub allocate_page : ℕ → Machine → ℕ → ℕ → Option ((ℕ × ℕ) × Machine)
unfolding to_higher_half
allocate_page host_cr3 m flags cr3 =
    let (phys_addr, pmm') = kpalloc m.pmm in
    let virt_addr = to_higher_half phys_addr in
    do
      m' ←
          map_page (record m { pmm = pmm' }) phys_addr virt_addr flags
            (if cr3 == 0 then host_cr3 else cr3)
      some ((virt_addr, phys_addr), m')

unfoldable pub map_host_page : ℕ → Machine → ℕ → ℕ → ℕ → Option Machine
map_host_page host_cr3 m virt_addr phys_addr flags = map_page m phys_addr virt_addr flags host_cr3

unfoldable pub walk_host_tables : ℕ → Machine → ℕ → ℕ
walk_host_tables host_cr3 m virt_addr = walk_table m virt_addr host_cr3
