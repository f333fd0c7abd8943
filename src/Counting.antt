-- ===== src/Counting.antt =====
-- How many numbers below a bound pass a test: free pages, open files.
use littlevisor.Base.{
  ℕ, zero, suc, ◌+◌, ◌≤◌, ◌<◌, ◌≡◌, refl, ap, ◌∙◌, inl, inr, Bool, true, false, ◌==◌, if◌then◌else◌,
  arith, Bool-cases, ==_iff,
}

-- How many numbers below `n` pass a test.
unfoldable pub count : (ℕ → Bool) → ℕ → ℕ
count f zero = 0
count f (suc n) = (if f n then 1 else 0) + count f n

pub count-same : (f g : ℕ → Bool) (n : ℕ) → ((k : ℕ) → k < n → f k ≡ g k) → count f n ≡ count g n
unfolding count
count-same f g zero h = refl
count-same f g (suc n) h = rw (h n (omega arith), count-same f g n (λ k p. h k (omega arith))) refl

pub count-le : (f : ℕ → Bool) (n : ℕ) → count f n ≤ n
unfolding count
count-le f zero = omega arith
count-le f (suc n) = ground (arith, count-le f n)

-- A test that loses one number counts one less.
pub count-lose :
    (f g : ℕ → Bool) (p n : ℕ)
    → p < n
    → f p ≡ true
    → ((k : ℕ) → g k ≡ (if k == p then false else f k))
    → count f n ≡ count g n + 1
unfolding count
count-lose f g p zero h e lose = absurd (omega arith)
count-lose f g p (suc n) h e lose = elim (Bool-cases (n == p)) [
  | inl here ↦
      let same : n ≡ p = (==_iff n p).0 here in
      let hit : f n ≡ true = ap f same ∙ e in
      ground (arith, lose n, hit, count-same f g n (λ k q. ground (arith, lose k)))
  | inr there ↦ ground (arith, lose n, count-lose f g p n (ground arith) e lose)
]
