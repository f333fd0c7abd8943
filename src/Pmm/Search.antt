-- ===== src/Pmm/Search.antt =====
-- The loops of `kpalloc` find a free page exactly if there is one.
use mathlib.Core.Path.{subst}
use littlevisor.Base.{
  ℕ, zero, suc, ◌+◌, ◌*◌, ◌≤◌, ◌<◌, ◌≡◌, refl, sym, ◌∙◌, inl, inr, true, false, Option, none, some,
  ltb, ◌==◌, arith, Bool-cases, ltb→lt,
}
use littlevisor.Common.{Memory, getbit, load}
use littlevisor.Common.Bitops.{Bytes, getbit-load}
use littlevisor.Pmm.{find_bit, find_page}
use littlevisor.Pmm.Bitmap.{free, position}

-- What a search over the pages from `from` up to `to` answers: a free page of that range, or that
-- it has none.
abbrev pub Found : Memory → ℕ → ℕ → Option (ℕ × ℕ) → Type 0
Found m from to none = (n : ℕ) → from ≤ n → n < to → free m n ≡ false
Found m from to (some (i, j)) =
    (j < 8) × (from ≤ i * 8 + j) × (i * 8 + j < to) × (free m (i * 8 + j) ≡ true)

module _ {m : Memory} (bytes : Bytes m) where
  getbit-free : (i j : ℕ) → j < 8 → (getbit (load 8 m i) j == 1) ≡ free m (i * 8 + j)
  getbit-free i j h =
      let (e, f) = position (i * 8 + j) i j h refl in rw (getbit-load i j bytes h, e, f) refl

  abbrev in_byte : ℕ → Option ℕ → Option (ℕ × ℕ)
  in_byte i none = none
  in_byte i (some j) = some (i, j)

  -- A search goes on from where an unsuccessful one stopped.
  widen :
      (from mid to : ℕ) (r : Option (ℕ × ℕ))
      → from ≤ mid
      → Found m from mid none
      → Found m mid to r
      → Found m from to r
  widen from mid to (some (i, j)) h taken (a, b, c, d) = (a, omega arith, c, d)
  widen from mid to none h taken rest = λ n lo hi. elim (Bool-cases (ltb n mid)) [
    | inl p ↦ taken n lo (ltb→lt n mid p)
    | inr p ↦ rest n (ground arith) hi
  ]

  find_bit-Found :
      (i left j : ℕ)
      → j + left ≡ 8
      → Found m (i * 8 + j) (i * 8 + 8) (in_byte i (find_bit m i left j))
  unfolding find_bit
  find_bit-Found i zero j e = λ n lo hi. absurd (omega arith)
  find_bit-Found i (suc left) j e = elim (Bool-cases (getbit (load 8 m i) j == 1)) [
    | inl hit ↦
        rw hit (omega arith, omega arith, omega arith, sym (getbit-free i j (omega arith)) ∙ hit)
    | inr clear ↦ rw clear (
        widen (i * 8 + j) (i * 8 + (j + 1)) (i * 8 + 8) (in_byte i (find_bit m i left (j + 1)))
          (omega arith)
          (λ n lo hi.
            let here : n ≡ i * 8 + j = omega arith in
            rw here (sym (getbit-free i j (omega arith)) ∙ clear))
          (find_bit-Found i left (j + 1) (omega arith)))
  ]

  pub find_page-Found : (left i : ℕ) → Found m (i * 8) ((i + left) * 8) (find_page m left i)
  unfolding find_page
  find_page-Found zero i = λ n lo hi. absurd (omega arith)
  find_page-Found (suc left) i =
      step (find_bit m i 8 0) (find_bit-Found i 8 0 refl) (find_page-Found left (i + 1))
    where
      step :
          (r : Option ℕ)
          → Found m (i * 8 + 0) (i * 8 + 8) (in_byte i r)
          → Found m ((i + 1) * 8) ((i + 1 + left) * 8) (find_page m left (i + 1))
          → Found m
              (i * 8)
              ((i + suc left) * 8)
              (elim r [ some j ↦ some (i, j) | none ↦ find_page m left (i + 1) ])
      step (some j) (a, b, c, d) rest = (a, omega arith, omega arith, d)
      step none none_here rest =
          let e : (i + 1 + left) * 8 ≡ (i + suc left) * 8 = omega arith in
          widen (i * 8) ((i + 1) * 8) ((i + suc left) * 8) (find_page m left (i + 1)) (omega arith)
            (λ n lo hi. none_here n (omega arith) (omega arith))
            (subst (λ to. Found m ((i + 1) * 8) to (find_page m left (i + 1))) e rest)
