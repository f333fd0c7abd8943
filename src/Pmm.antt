-- ===== src/Pmm.antt =====
-- src/pmm.cpp, the physical page-frame allocator: a bitmap with a set bit for each free page.
pub mod Bitmap
pub mod Search
pub mod Alloc
pub mod Count
pub mod Progress
pub mod Init
pub mod Regions
pub mod Start
pub mod Runs
pub mod Contiguous
pub mod Tests
use littlevisor.Base.{
  ℕ, zero, suc, ◌+◌, ◌-◌, ◌*◌, ◌/◌, ◌%◌, ◌^◌, ◌≤◌, ◌<◌, min, max, bit_and, bit_or, ◌≡◌, refl, sym,
  ap, fun_ext, ◌∙◌, ◌≢◌, ◌⊎◌, inl, inr, Bool, true, false, not, ◌&&◌, ◌||◌, Option, none, some,
  List, [], ◌∷◌, ◌++◌, length, get_or, get_elem?, set, length-set, get_or-set_self, get_or-set_ne,
  map, ltb, leb, ◌==◌, if◌then◌else◌, arith, Bool-cases, Option-cases, ltb→lt, lt→ltb, leb→le,
  ==_iff,
}
use littlevisor.Common.{Memory, getbit, getbit_val, setbit, clearbit, load, write}

-- `page_frame_allocator` and `number_of_avail_pages`. `bytes` is the memory from the pointer
-- `bitmap` on; the field `entry`, which no function reads, is left out.
pub record Pmm : Type 0 where
  pub bytes : Memory
  pub bitmap_size : ℕ
  pub last_allocated_idx : ℕ
  pub number_of_avail_pages : ℕ

-- The inner loop of `kpalloc`: the first set bit of the word at `i` among `left` bits from `j` on.
unfoldable pub find_bit : Memory → ℕ → ℕ → ℕ → Option ℕ
find_bit bytes i zero j = none
find_bit bytes i (suc left) j =
    let rest = find_bit bytes i left (j + 1) in
    if getbit (load 8 bytes i) j == 1 then some j else rest

-- A loop of `kpalloc` over `left` bytes from `i` on.
unfoldable pub find_page : Memory → ℕ → ℕ → Option (ℕ × ℕ)
find_page bytes zero i = none
find_page bytes (suc left) i =
    let rest = find_page bytes left (i + 1) in
    elim (find_bit bytes i 8 0) [ some j ↦ some (i, j) | none ↦ rest ]

-- What both loops do with the bit found: clear it, count, remember the byte, return the address.
unfoldable pub take_page : Pmm → ℕ → ℕ → ℕ × Pmm
take_page s i j = (
  (i * 8 + j) % 2 ^ 32 * 0x1000 % 2 ^ 64,
  record s {
    bytes = write 8 s.bytes i (clearbit 64 (load 8 s.bytes i) j);
    last_allocated_idx = i;
    number_of_avail_pages = (s.number_of_avail_pages + 2 ^ 64 - 1) % 2 ^ 64;
  },
)

unfoldable pub kpalloc : Pmm → ℕ × Pmm
unfolding take_page
kpalloc s = elim (find_page s.bytes (s.bitmap_size - s.last_allocated_idx) s.last_allocated_idx) [
  | some (i, j) ↦ take_page s i j
  | none ↦ elim (find_page s.bytes s.last_allocated_idx 0) [
    | some (i, j) ↦ take_page s i j
    | none ↦ (0, s)
  ]
]

pub kpfree : Pmm → ℕ → Pmm
kpfree s page =
    let byte_idx = page / 0x1000 / 8 % 2 ^ 32 in
    let bit_idx = page / 0x1000 % 8 in
    record s {
      bytes = write 8 s.bytes byte_idx (setbit 64 (load 8 s.bytes byte_idx) bit_idx);
      number_of_avail_pages = (s.number_of_avail_pages + 1) % 2 ^ 64;
    }

-- `kpalloc_contignious` looks at one byte at a time: `getbit(bitmap[i], j)` widens the byte.
-- The run of set bits after `j`, the source's `z` when its loop ends.
pub run_length : ℕ → ℕ → ℕ → ℕ → ℕ
run_length byte j zero z = z
run_length byte j (suc left) z =
    let rest = run_length byte j left (z + 1) in if getbit_val byte (j + z) == 0 then z else rest

-- A run of `count` free pages in byte `i`, from bit `j` on.
pub find_run : ℕ → ℕ → ℕ → ℕ → Option ℕ
find_run byte count zero j = none
find_run byte count (suc left) j =
    let rest = find_run byte count left (j + 1) in
    if getbit_val byte j == 1 && run_length byte j (count - 1) 1 == count then some j else rest

pub find_runs : Memory → ℕ → ℕ → ℕ → Option (ℕ × ℕ)
find_runs bytes count zero i = none
find_runs bytes count (suc left) i =
    let rest = find_runs bytes count left (i + 1) in
    elim (find_run (bytes i) count 8 0) [ some j ↦ some (i, j) | none ↦ rest ]

-- `for(z = 0; z < count; z++) clearbit((uint8_t*)&bitmap[i], j+z);`
pub clear_run : ℕ → ℕ → ℕ → ℕ → ℕ
clear_run byte j zero z = byte
clear_run byte j (suc left) z = clear_run (clearbit 8 byte (j + z)) j left (z + 1)

pub kpalloc_contignious : Pmm → ℕ → ℕ × Pmm
kpalloc_contignious s count = elim (find_runs s.bytes count s.bitmap_size 0) [
  | some (i, j) ↦ (
    (i * 8 + j) * 0x1000 % 2 ^ 32,
    record s {
      bytes = λ b. if b == i then clear_run (s.bytes i) j count 0 else s.bytes b;
      number_of_avail_pages = (s.number_of_avail_pages + 2 ^ 64 - count) % 2 ^ 64;
    },
  )
  | none ↦ (0, s)
]
