-- ===== src/KHeap/Alloc.antt =====
-- The blocks that `kmalloc` of src/kheap.cpp hands out.
use littlevisor.Base.{
  ℕ, ◌+◌, ◌-◌, ◌%◌, ◌^◌, ◌≤◌, ◌<◌, ◌≡◌, refl, sym, ap, ◌∙◌, ◌≢◌, ◌⊎◌, inl, inr, ltb, arith,
  Bool-cases,
}
use littlevisor.KHeap.{KHeap, kmalloc, header_size, chunk_free, chunk_occupied}

-- The chunk at the end of the list ends at its next chunk, behind its header, in the address space.
pub record IsRoom (h : KHeap) : Type 0 where
  pub header : h.last_free_chunk + header_size ≤ h.next_chunk h.last_free_chunk
  pub address : h.next_chunk h.last_free_chunk < 2 ^ 64

-- `h'` is `h` with a block of `size` bytes at `addr` taken from the chunk at the end.
pub record Block (h : KHeap) (size addr : ℕ) (h' : KHeap) : Type 0 where
  pub behind : addr ≡ h.last_free_chunk + header_size
  pub within : addr + size ≤ h.next_chunk h.last_free_chunk
  pub occupied : h'.state h.last_free_chunk ≡ chunk_occupied
  pub linked : h'.next_chunk h.last_free_chunk ≡ addr + size
  pub rest : h'.last_free_chunk ≡ addr + size
  pub rest_free : h'.state (addr + size) ≡ chunk_free
  pub rest_end : h'.next_chunk (addr + size) ≡ h.next_chunk h.last_free_chunk
  pub others :
      (c : ℕ)
      → c ≢ h.last_free_chunk
      → c ≢ addr + size
      → (h'.next_chunk c ≡ h.next_chunk c) × (h'.state c ≡ h.state c)

-- If the chunk at the end has room, then `kmalloc` of a size below `2 ^ 63` either takes a block of
-- the size from it, inside the chunk and behind its header, marks the chunk, and leaves the rest as the
-- new free chunk at the end; or the chunk is too small, and it answers 0 and changes nothing.
pub kmalloc-Block :
    (h : KHeap) (size : ℕ)
    → IsRoom h
    → size < 2 ^ 63
    → Block h size (kmalloc h size).0 (kmalloc h size).1
      ⊎ ((kmalloc h size ≡ (0, h))
          × (h.next_chunk h.last_free_chunk < h.last_free_chunk + size + header_size))
unfolding kmalloc
kmalloc-Block h size room small =
    let last = h.last_free_chunk in
    let remaining : (h.next_chunk last + 2 ^ 64 - last) % 2 ^ 64 ≡ h.next_chunk last - last =
      omega (arith, room.header, room.address) in
    let needed : (size + header_size) % 2 ^ 64 ≡ size + header_size = omega arith in
    elim (Bool-cases (ltb (h.next_chunk last - last) (size + header_size))) [
      | inl e ↦ rw (remaining, needed, e) (inr (refl, ground (arith, room.header)))
      | inr e ↦
          let fits : last + header_size + size ≤ h.next_chunk last = ground (arith, room.header) in
          let at : (last + header_size) % 2 ^ 64 ≡ last + header_size =
            omega (arith, fits, room.address) in
          let behind : (last + header_size + size) % 2 ^ 64 ≡ last + header_size + size =
            omega (arith, fits, room.address) in
          rw (remaining, needed, e, at, behind)
            (inl (record {
              behind = refl;
              within = fits;
              occupied = ground arith;
              linked = ground arith;
              rest = refl;
              rest_free = ground arith;
              rest_end = ground arith;
              others = λ c a b. (ground arith, ground arith);
            }))
    ]

-- If a size below `2 ^ 63` and a header fill the chunk at the end exactly, then after `kmalloc` the
-- chunk at the end is the old end of the heap, and its link points to itself.
pub kmalloc_exact_lem :
    (h : KHeap) (size : ℕ)
    → IsRoom h
    → size < 2 ^ 63
    → h.last_free_chunk + size + header_size ≡ h.next_chunk h.last_free_chunk
    → let h' = (kmalloc h size).1 in
      (h'.last_free_chunk ≡ h.next_chunk h.last_free_chunk)
      × (h'.next_chunk h'.last_free_chunk ≡ h'.last_free_chunk)
kmalloc_exact_lem h size room small e =
    let h' = (kmalloc h size).1 in
    elim (kmalloc-Block h size room small) [
      | inl b ↦
          let end : h'.last_free_chunk ≡ h.next_chunk h.last_free_chunk =
            omega (arith, e, b.behind, b.rest) in
          (end, ap h'.next_chunk b.rest ∙ b.rest_end ∙ sym end)
      | inr (_, tight) ↦ absurd (omega (arith, e, tight))
    ]
