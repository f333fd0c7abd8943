-- ===== src/Pmm/Bitmap.antt =====
-- The abstract view of the allocator: the set of free pages, and what the bit operations do to it.
use littlevisor.Base.{
  ℕ, ◌+◌, ◌*◌, ◌/◌, ◌%◌, ◌^◌, ◌≤◌, ◌<◌, ◌≡◌, ap, Bool, true, false, ◌&&◌, ◌==◌, if◌then◌else◌,
  arith,
}
use littlevisor.Bits.{bit}
use littlevisor.Common.{Memory, setbit, clearbit, load, write}
use littlevisor.Common.Bitops.{Bytes, bit-setbit, bit-clearbit, write-setbit, write-clearbit}
use littlevisor.Common.Bitops.{setbit-lt, clearbit-lt}
use littlevisor.Pmm.{Pmm}

-- Page `n` is free in the bitmap: bit `n % 8` of byte `n / 8` is set.
abbrev pub free : Memory → ℕ → Bool
free bytes n = bit (bytes (n / 8)) (n % 8) == 1

-- The representation invariant: the bitmap holds bytes, covers fewer than `2 ^ 32` pages, and the
-- byte where the search starts lies in it.
pub record IsValid (s : Pmm) : Type 0 where
  pub bytes : Bytes s.bytes
  pub small : s.bitmap_size * 8 ≤ 2 ^ 32
  pub start : s.last_allocated_idx ≤ s.bitmap_size

-- The position of a page in the bitmap.
pub position : (n i j : ℕ) → j < 8 → n ≡ i * 8 + j → (n / 8 ≡ i) × (n % 8 ≡ j)
position n i j h e = (omega arith, omega arith)

position_unique : (n i j : ℕ) → j < 8 → (n == i * 8 + j) ≡ (n / 8 == i && n % 8 == j)
position_unique n i j h = ground arith

module _ {m : Memory} (i j : ℕ) (bytes : Bytes m) (inside : j < 8) where
  pub clearbit-Bytes : Bytes (write 8 m i (clearbit 64 (load 8 m i) j))
  clearbit-Bytes b =
      rw (write-clearbit i j b bytes inside)
        (ground (arith, bytes b, clearbit-lt (m i) j (bytes i)))

  pub setbit-Bytes : Bytes (write 8 m i (setbit 64 (load 8 m i) j))
  setbit-Bytes b =
      rw (write-setbit i j b bytes inside) (ground (arith, bytes b, setbit-lt 8 (m i) j (bytes i)))

  -- Clearing bit `j` of byte `i` takes page `i * 8 + j` out of the free pages, and no other.
  pub free-clearbit :
      (n : ℕ)
      → free (write 8 m i (clearbit 64 (load 8 m i) j)) n
        ≡ (if n == i * 8 + j then false else free m n)
  free-clearbit n =
      rw (write-clearbit i j (n / 8) bytes inside, position_unique n i j inside)
        (ground (arith, bit-clearbit 8 (m i) j (n % 8) inside, ap m {x = n / 8} {y = i}))

  -- Setting it puts that page back.
  pub free-setbit :
      (n : ℕ)
      → free (write 8 m i (setbit 64 (load 8 m i) j)) n
        ≡ (if n == i * 8 + j then true else free m n)
  free-setbit n =
      rw (write-setbit i j (n / 8) bytes inside, position_unique n i j inside)
        (ground (arith, bit-setbit 8 (m i) j (n % 8) inside, ap m {x = n / 8} {y = i}))
