-- ===== src/KHeap.antt =====
-- src/kheap.cpp, the kernel's heap: chunks with a header each, in a list.
pub mod Alloc
pub mod Tests
use littlevisor.Base.{
  ℕ, zero, suc, ◌+◌, ◌-◌, ◌*◌, ◌/◌, ◌%◌, ◌^◌, ◌≤◌, ◌<◌, min, max, bit_and, bit_or, ◌≡◌, refl, sym,
  ap, fun_ext, ◌∙◌, ◌≢◌, ◌⊎◌, inl, inr, Bool, true, false, not, ◌&&◌, ◌||◌, Option, none, some,
  List, [], ◌∷◌, ◌++◌, length, get_or, get_elem?, set, length-set, get_or-set_self, get_or-set_ne,
  map, ltb, leb, ◌==◌, if◌then◌else◌, arith, Bool-cases, Option-cases, ltb→lt, lt→ltb, leb→le,
  ==_iff,
}
use littlevisor.Common.{Memory, store}
use littlevisor.Pmm.{Pmm, kpalloc_contignious}
use littlevisor.Common.{to_higher_half}

-- `CHUNK_STATE`
abbrev pub chunk_free : ℕ
chunk_free = 0

abbrev pub chunk_occupied : ℕ
chunk_occupied = 1

-- `sizeof(FREELIST_CHUNK)`
abbrev pub header_size : ℕ
header_size = 16

-- The statics, and the fields of `FREELIST_CHUNK` by the address of the chunk. Headers never overlap:
-- a new chunk begins behind the header of the one before.
pub record KHeap : Type 0 where
  pub next_chunk : Memory
  pub state : Memory
  pub first_chunk : ℕ
  pub last_free_chunk : ℕ

unfoldable pub init_heap : KHeap → Pmm → KHeap × Pmm
unfolding to_higher_half
init_heap h pmm =
    let (pages, pmm') = kpalloc_contignious pmm 4 in
    let heap_space = to_higher_half pages in
    if heap_space == 0 then (h, pmm') else (
      record h {
        next_chunk =
            store h.next_chunk heap_space ((heap_space + 4 * 0x1000 - header_size) % 2 ^ 64);
        first_chunk = heap_space;
        last_free_chunk = heap_space;
      },
      pmm',
    )

unfoldable pub kmalloc : KHeap → ℕ → ℕ × KHeap
kmalloc h size =
    let last = h.last_free_chunk in
    let remaining_size = (h.next_chunk last + 2 ^ 64 - last) % 2 ^ 64 in
    let chunk_addr = (last + header_size) % 2 ^ 64 in
    let new_chunk = (chunk_addr + size) % 2 ^ 64 in
    if ltb remaining_size ((size + header_size) % 2 ^ 64) then (0, h) else (
      chunk_addr,
      record h {
        next_chunk = store (store h.next_chunk new_chunk (h.next_chunk last)) last new_chunk;
        state = store (store h.state new_chunk chunk_free) last chunk_occupied;
        last_free_chunk = new_chunk;
      },
    )

-- The loops over the list take fuel; `none` is fuel that runs out.
unfoldable pub update_last_free_chunk : ℕ → KHeap → ℕ → Option KHeap
update_last_free_chunk zero h curr_chunk = none
update_last_free_chunk (suc fuel) h curr_chunk =
    let h' =
      if h.state curr_chunk == chunk_free then record h { last_free_chunk = curr_chunk } else h in
    let rest = update_last_free_chunk fuel h' (h.next_chunk curr_chunk) in
    if curr_chunk == 0 || h.next_chunk curr_chunk == 0 then some h else rest

-- The chunk before `chunk`, or the last one.
unfoldable pub find_previous : ℕ → KHeap → ℕ → ℕ → Option ℕ
find_previous zero h chunk prev_chunk = none
find_previous (suc fuel) h chunk prev_chunk =
    let next = h.next_chunk prev_chunk in
    let rest = find_previous fuel h chunk next in
    if next == chunk || next == 0 then some prev_chunk else rest

-- What `checkConsolidate` does once it knows the chunk before.
unfoldable pub consolidate : KHeap → ℕ → ℕ → KHeap
consolidate h chunk prev_chunk =
    let next = h.next_chunk chunk in
    let h' =
      if h.state next == chunk_free
      then record h { next_chunk = store h.next_chunk chunk (h.next_chunk next) }
      else h in
    let h'' =
      if h'.state prev_chunk == chunk_free
      then record h' { next_chunk = store h'.next_chunk prev_chunk (h'.next_chunk chunk) }
      else h' in
    if next == 0 || h.next_chunk next == 0 then h else h''

unfoldable pub check_consolidate : ℕ → KHeap → ℕ → Option KHeap
unfolding find_previous consolidate
check_consolidate fuel h chunk =
    if chunk == 0 then some h else elim (find_previous fuel h chunk h.first_chunk) [
      | some prev_chunk ↦ some (consolidate h chunk prev_chunk)
      | none ↦ none
    ]

-- What `kfree` does with the chunk that it finds.
unfoldable pub release : ℕ → KHeap → ℕ → Option KHeap
unfolding check_consolidate update_last_free_chunk
release fuel h chunk =
    elim (check_consolidate fuel (record h { state = store h.state chunk chunk_free }) chunk) [
      | some h' ↦ update_last_free_chunk fuel h' h'.first_chunk
      | none ↦ none
    ]

unfoldable pub kfree : ℕ → KHeap → ℕ → ℕ → Option KHeap
unfolding release
kfree zero h addr curr_chunk = none
kfree (suc fuel) h addr curr_chunk =
    let rest = kfree fuel h addr (h.next_chunk curr_chunk) in
    if curr_chunk == 0
    then some h
    else if (curr_chunk + header_size) % 2 ^ 64 == addr
    then release fuel h curr_chunk
    else rest
