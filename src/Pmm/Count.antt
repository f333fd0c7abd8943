-- ===== src/Pmm/Count.antt =====
-- `number_of_avail_pages` is the number of free pages.
use littlevisor.Base.{ℕ, ◌*◌, ◌<◌, ◌≡◌, ap, ◌∙◌, inl, inr, false, arith, ==_iff}
use littlevisor.Counting.{count, count-le, count-lose}
use littlevisor.Pmm.{Pmm, kpalloc, kpfree}
use littlevisor.Pmm.Bitmap.{free, IsValid}
use littlevisor.Pmm.Alloc.{kpalloc-Taken, free-kpfree, number-kpfree, size-kpfree}

-- The count that the allocator keeps is the number of free pages that the bitmap covers.
abbrev pub Counted : Pmm → Type 0
Counted s = s.number_of_avail_pages ≡ count (free s.bytes) (s.bitmap_size * 8)

-- On a valid bitmap `kpalloc` keeps the count equal to the number of free pages.
pub kpalloc-Counted : (s : Pmm) → IsValid s → Counted s → Counted (kpalloc s).1
kpalloc-Counted s v c = elim (kpalloc-Taken s v) [
  | inl t ↦
      let one_less =
        count-lose (free s.bytes) (free (kpalloc s).1.bytes) t.page (s.bitmap_size * 8) t.covered
          t.was_free t.marked in
      rw t.size (
        omega (arith, c, t.counted, one_less, v.small, count-le (free s.bytes) (s.bitmap_size * 8)))
  | inr (e, _) ↦ rw e c
]

-- On a valid bitmap `kpfree` of a covered page that is not free keeps the count equal to the number
-- of free pages.
pub kpfree-Counted :
    (s : Pmm) (n : ℕ)
    → IsValid s
    → n < s.bitmap_size * 8
    → free s.bytes n ≡ false
    → Counted s
    → Counted (kpfree s (n * 0x1000))
kpfree-Counted s n v h taken c =
    let after = free (kpfree s (n * 0x1000)).bytes in
    let one_more =
      count-lose after (free s.bytes) n (s.bitmap_size * 8) h (free-kpfree s n n v h ∙ ground arith)
        (λ k.
          ground
            (arith, free-kpfree s n k v h, taken, ==_iff k n, ap (free s.bytes) {x = k} {y = n})) in
    number-kpfree s (n * 0x1000)
    ∙ rw (size-kpfree s (n * 0x1000))
        (omega (arith, c, one_more, v.small, count-le after (s.bitmap_size * 8)))
