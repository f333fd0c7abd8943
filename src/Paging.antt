-- ===== src/Paging.antt =====
-- src/mm/npaging.cpp and src/mm/paging.cpp, the four-level page tables, over the page-frame
-- allocator.
pub mod Entry
pub mod Tree
pub mod Walk
pub mod Map
pub mod Ranges
pub mod Progress
pub mod Bytes
pub mod Translate
pub mod Pages
pub mod Offsets
pub mod Frames
pub mod Kernel
pub mod Mappings
pub mod Users
pub mod Programs
pub mod KernelTests
pub mod Empty
pub mod Tests
use littlevisor.Base.{
  ℕ, zero, suc, ◌+◌, ◌-◌, ◌*◌, ◌/◌, ◌%◌, ◌^◌, ◌≤◌, ◌<◌, min, max, bit_and, bit_or, ◌≡◌, refl, sym,
  ap, fun_ext, ◌∙◌, ◌≢◌, ◌⊎◌, inl, inr, Bool, true, false, not, ◌&&◌, ◌||◌, Option, none, some,
  List, [], ◌∷◌, ◌++◌, length, get_or, get_elem?, set, length-set, get_or-set_self, get_or-set_ne,
  map, ltb, leb, ◌==◌, if◌then◌else◌, arith, Bool-cases, Option-cases, ltb→lt, lt→ltb, leb→le,
  ==_iff,
}
use littlevisor.Common.{to_higher_half, Memory, store, getbit_val}
use littlevisor.Pmm.{Pmm, kpalloc}

-- The memory that the kernel sees, a 64-bit word at the address of each word: every access of these
-- files is to an aligned word, or sets a page to zero. `cr3_val` is the static of npaging.cpp.
pub record Machine : Type 0 where
  pub words : Memory
  pub pmm : Pmm
  pub cr3_val : ℕ

-- The address of `table->entries[i]`, where `table` is the higher-half pointer to a page.
unfoldable pub slot : ℕ → ℕ → ℕ
unfolding to_higher_half
slot page i = (to_higher_half page + 8 * i) % 2 ^ 64

-- `entry & ~0xFFF`
unfoldable pub target : ℕ → ℕ
target entry = bit_and entry (2 ^ 64 - 2 ^ 12)

-- `entry & 1`
unfoldable pub present : ℕ → ℕ
present entry = bit_and entry 1

-- `indexes[k]`: the index into the table of depth `k`.
unfoldable pub index : ℕ → ℕ → ℕ
index virt_addr k = bit_and (virt_addr / 2 ^ (39 - 9 * k)) 0x1FF

-- `kmemset((uint8_t*)TO_HIGHER_HALF(page), 0x0, 0x1000)`
unfoldable pub zero_page : Memory → ℕ → Memory
zero_page words page a =
    if leb (to_higher_half page) a && ltb a (to_higher_half page + 0x1000) then 0 else words a

-- One round of the loop of `mapPage`, at a table with no entry: a new table is allocated. `none` is
-- `kpanic`, which does not return.
unfoldable pub add_table : Machine → ℕ → ℕ → ℕ → Option (ℕ × Machine)
add_table m table i flags =
    let (new_page, pmm') = kpalloc m.pmm in
    let words' = store (zero_page m.words new_page) (slot table i) (bit_or new_page flags) in
    if new_page == 0
    then none
    else some (target (words' (slot table i)), record m { words = words'; pmm = pmm' })

-- The round at a table that has the entry: a user mapping adds its flags.
unfoldable pub keep_table : Machine → ℕ → ℕ → ℕ → Option (ℕ × Machine)
keep_table m table i flags =
    let words' =
      if getbit_val flags 2 == 1
      then store m.words (slot table i) (bit_or (m.words (slot table i)) flags)
      else m.words in
    some (target (words' (slot table i)), record m { words = words' })

unfoldable pub map_level : Machine → ℕ → ℕ → ℕ → Option (ℕ × Machine)
map_level m table i flags =
    if present (m.words (slot table i)) == 0
    then add_table m table i flags
    else keep_table m table i flags

infixl 5 ◌>>=◌
abbrev pub ◌>>=◌ : {A B : Type 0} → Option A → (A → Option B) → Option B
none >>= f = none
some a >>= f = f a

abbrev pub root : Machine → ℕ → ℕ
root m cr3 = if cr3 == 0 then m.cr3_val else cr3

unfoldable pub map_page : Machine → ℕ → ℕ → ℕ → ℕ → Option Machine
map_page m phys_addr virt_addr flags cr3 = do
  (table1, m1) ← map_level m (root m cr3) (index virt_addr 0) flags
  (table2, m2) ← map_level m1 table1 (index virt_addr 1) flags
  (table3, m3) ← map_level m2 table2 (index virt_addr 2) flags
  some (record m3 {
    words = store m3.words (slot table3 (index virt_addr 3)) (bit_or phys_addr flags);
  })

-- A step of `walkTable` down one table; `none` is its early return.
unfoldable pub walk_level : Memory → ℕ → ℕ → Option ℕ
walk_level words table i =
    if present (words (slot table i)) == 0 then none else some (target (words (slot table i)))

-- The last table that a walk reaches.
unfoldable pub walk_to_leaf : Memory → ℕ → ℕ → Option ℕ
walk_to_leaf words table virt_addr = do
  table1 ← walk_level words table (index virt_addr 0)
  table2 ← walk_level words table1 (index virt_addr 1)
  walk_level words table2 (index virt_addr 2)

unfoldable pub walk_table : Machine → ℕ → ℕ → ℕ
walk_table m virt_addr cr3 = elim (walk_to_leaf m.words (root m cr3) virt_addr) [
  | none ↦ 0
  | some table3 ↦
      (target (m.words (slot table3 (index virt_addr 3))) + bit_and virt_addr 0xFFF) % 2 ^ 64
]
