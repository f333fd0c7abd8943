-- ===== src/Pmm/Init.antt =====
-- `init_pmm` of src/pmm.cpp: the place of the bitmap in the boot loader's map of the memory, and the
-- pages that are free at the start.
use littlevisor.Base.{
  ℕ, zero, suc, ◌+◌, ◌/◌, ◌%◌, ◌^◌, Bool, not, ◌&&◌, Option, none, some, List, [], ◌∷◌, ltb, leb,
  ◌==◌, if◌then◌else◌,
}
use littlevisor.Common.{Memory, to_higher_half, to_lower_half, setbit, load, write}
use littlevisor.Pmm.{Pmm}

-- An entry of the boot loader's map of the memory.
pub record Region : Type 0 where
  pub base : ℕ
  pub length_in_bytes : ℕ
  pub usable : Bool

-- The first loop of `init_pmm`: the end of the last usable entry.
unfoldable pub highest_address : List Region → ℕ → ℕ
highest_address [] highest = highest
highest_address (e ∷ entries) highest =
    let end = (e.base + e.length_in_bytes) % 2 ^ 64 in
    highest_address entries (if e.usable && ltb highest end then end else highest)

-- The second loop: the bitmap lies at the start of the first usable entry that is large enough, and
-- the static pointer is 0 if there is none.
unfoldable pub find_place : ℕ → List Region → ℕ
find_place needed_size [] = 0
find_place needed_size (e ∷ entries) =
    let rest = find_place needed_size entries in
    if leb needed_size e.length_in_bytes && e.usable then to_higher_half e.base else rest

-- The inner loop of the third: `left` pages from page `addr` on become free.
unfoldable pub free_pages : Memory × ℕ → ℕ → ℕ → Memory × ℕ
free_pages (bytes, number) addr zero = (bytes, number)
free_pages (bytes, number) addr (suc left) =
    let byte_idx = addr / 8 % 2 ^ 32 in
    let bytes' = write 8 bytes byte_idx (setbit 64 (load 8 bytes byte_idx) (addr % 8)) in
    free_pages (bytes', (number + 1) % 2 ^ 64) (addr + 1) left

-- The third loop: the pages of the usable entries become free, but for the entry with the bitmap.
unfoldable pub free_regions : ℕ → List Region → Memory × ℕ → Memory × ℕ
free_regions bitmap [] s = s
free_regions bitmap (e ∷ entries) s =
    let s' =
      if e.usable && not (e.base == to_lower_half bitmap)
      then free_pages s (e.base / 0x1000) (e.length_in_bytes / 0x1000)
      else s in
    free_regions bitmap entries s'

-- `memory` is the memory before, by virtual address, and `none` the panic. The answer is the pointer
-- `bitmap` with the state of the allocator.
unfoldable pub init_pmm : (ℕ → ℕ) → List Region → Option (ℕ × Pmm)
init_pmm memory entries =
    let needed_size = highest_address entries 0 / 0x1000 / 8 in
    let bitmap = find_place needed_size entries in
    let (bytes, number) = free_regions bitmap entries (λ a. memory (bitmap + a), 0) in
    if bitmap == 0
    then none
    else some (
      bitmap,
      record {
        bytes = bytes;
        bitmap_size = needed_size % 2 ^ 32;
        last_allocated_idx = 0;
        number_of_avail_pages = number;
      },
    )
