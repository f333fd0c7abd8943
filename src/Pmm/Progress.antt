-- ===== src/Pmm/Progress.antt =====
-- Enough free pages: `kpalloc` gives one as long as there is one, and then there is one less.
use littlevisor.Base.{
  ℕ, zero, suc, ◌*◌, ◌≤◌, ◌<◌, ◌≡◌, refl, ap, ◌≢◌, inl, inr, Bool, false, ◌==◌, arith,
}
use littlevisor.Counting.{count, count-lose}
use littlevisor.Pmm.{Pmm, kpalloc}
use littlevisor.Pmm.Bitmap.{free, IsValid}
use littlevisor.Pmm.Alloc.{kpalloc-Taken}

-- At least `k` pages are free, and the page 0, whose address means failure, is not one of them.
pub record Has (k : ℕ) (s : Pmm) : Type 0 where
  pub valid : IsValid s
  pub not_zero : free s.bytes 0 ≡ false
  pub enough : k ≤ count (free s.bytes) (s.bitmap_size * 8)

pub Has-le : (j k : ℕ) {s : Pmm} → j ≤ k → Has k s → Has j s
Has-le j k le h = record {
  valid = h.valid;
  not_zero = h.not_zero;
  enough = omega (arith, le, h.enough);
}

count-none : (f : ℕ → Bool) (n : ℕ) → ((k : ℕ) → k < n → f k ≡ false) → count f n ≡ 0
unfolding count
count-none f zero h = refl
count-none f (suc n) h = ground (arith, h n, count-none f n (λ k p. h k (omega arith)))

pub kpalloc-Has :
    {k : ℕ} {s : Pmm} → Has (suc k) s → (((kpalloc s).0 == 0) ≡ false) × Has k (kpalloc s).1
kpalloc-Has {k} {s} has = elim (kpalloc-Taken s has.valid) [
  | inl t ↦
      let one_less =
        count-lose (free s.bytes) (free (kpalloc s).1.bytes) t.page (s.bitmap_size * 8) t.covered
          t.was_free t.marked in
      let not_first : t.page ≢ 0 = λ e. cc (has.not_zero, t.was_free, ap (free s.bytes) e) in
      (
        ground (arith, t.at, not_first),
        record {
          valid = t.valid;
          not_zero = ground (arith, t.marked 0, has.not_zero);
          enough = rw t.size (omega (arith, one_less, has.enough));
        },
      )
  | inr (_, full) ↦
      absurd (omega (arith, has.enough, count-none (free s.bytes) (s.bitmap_size * 8) full))
]
