-- ===== src/Pmm/Contiguous.antt =====
-- What `kpalloc_contignious` of src/pmm.cpp does to the set of free pages.
use mathlib.Core.Path.{subst}
use littlevisor.Base.{
  ℕ, zero, suc, ◌+◌, ◌-◌, ◌*◌, ◌/◌, ◌%◌, ◌^◌, ◌≤◌, ◌<◌, ◌≡◌, refl, sym, ap, ◌∙◌, ◌⊎◌, inl, inr,
  true, false, ◌&&◌, Option, none, some, ltb, leb, ◌==◌, if◌then◌else◌, arith, Bool-cases, ==_iff,
}
use littlevisor.Bits.{bit}
use littlevisor.Common.{Memory}
use littlevisor.Common.Bitops.{Bytes}
use littlevisor.Pmm.{Pmm, find_run, find_runs, clear_run, kpalloc_contignious}
use littlevisor.Pmm.Bitmap.{free, IsValid, position}
use littlevisor.Pmm.Runs.{IsRun, FoundRun, find_run-FoundRun, bit-clear_run, clear_run-lt}

-- The `count` pages from `page` on are free, and one byte of the bitmap holds them all.
abbrev pub FreeRun : Memory → ℕ → ℕ → Type 0
FreeRun m page count = (page % 8 + count ≤ 8) × ((k : ℕ) → k < count → free m (page + k) ≡ true)

-- `s'` is `s` with the `count` pages at `address` taken.
pub record RunTaken (s : Pmm) (count address : ℕ) (s' : Pmm) : Type 0 where
  pub page : ℕ
  pub at : address ≡ page * 0x1000
  pub covered : page + count ≤ s.bitmap_size * 8
  pub were_free : FreeRun s.bytes page count
  pub marked :
      (n : ℕ)
      → free s'.bytes n ≡ (if leb page n && ltb n (page + count) then false else free s.bytes n)
  pub counted : s'.number_of_avail_pages ≡ (s.number_of_avail_pages + 2 ^ 64 - count) % 2 ^ 64
  pub size : s'.bitmap_size ≡ s.bitmap_size
  pub valid : IsValid s'

-- No byte of the bitmap has a run of `count` free pages.
abbrev pub NoRun : Pmm → ℕ → Type 0
NoRun s count = (page : ℕ) → page < s.bitmap_size * 8 → ¬ FreeRun s.bytes page count

-- What the search over the bytes from `from` up to `to` finds.
abbrev FoundRuns : Memory → ℕ → ℕ → ℕ → Option (ℕ × ℕ) → Type 0
FoundRuns m count from to none = (i j : ℕ) → from ≤ i → i < to → j < 8 → ¬ IsRun (m i) j count
FoundRuns m count from to (some (i, j)) = (i < to) × (j < 8) × IsRun (m i) j count × (j + count ≤ 8)

find_runs-FoundRuns :
    (m : Memory) (count left i : ℕ)
    → Bytes m
    → 0 < count
    → FoundRuns m count i (i + left) (find_runs m count left i)
unfolding find_runs
find_runs-FoundRuns m count zero i bytes some_page = λ k j a b. absurd (omega arith)
find_runs-FoundRuns m count (suc left) i bytes some_page =
    step (find_run (m i) count 8 0) (find_runs m count left (i + 1))
      (find_run-FoundRun (m i) count 8 0 (bytes i) some_page refl)
      (find_runs-FoundRuns m count left (i + 1) bytes some_page)
  where
    step :
        (r : Option ℕ) (rest : Option (ℕ × ℕ))
        → FoundRun (m i) count 0 r
        → FoundRuns m count (i + 1) (i + 1 + left) rest
        → FoundRuns m count i (i + suc left) (elim r [ some j ↦ some (i, j) | none ↦ rest ])
    step (some j) rest (inside, run, fits) later = (omega arith, inside, run, fits)
    step none (some (k, j)) here (lt, inside, run, fits) = (omega (arith, lt), inside, run, fits)
    step none none here later = λ k j lo hi inside run. elim (Bool-cases (k == i)) [
      | inl same ↦
          here j (omega arith) inside (subst (λ t. IsRun (m t) j count) ((==_iff k i).0 same) run)
      | inr other ↦ later k j (ground (arith, other)) (omega arith) inside run
    ]

-- A run of set bits is a run of free pages.
module _ (m : Memory) (count i j : ℕ) (inside : j < 8) where
  IsRun-FreeRun : IsRun (m i) j count → j + count ≤ 8 → FreeRun m (i * 8 + j) count
  IsRun-FreeRun run fits = (
    omega arith,
    λ k h.
        let (e, f) = position (i * 8 + j + k) i (j + k) (omega arith) (omega arith) in
        rw (e, f, run k h) refl,
  )

  FreeRun-IsRun : FreeRun m (i * 8 + j) count → IsRun (m i) j count
  FreeRun-IsRun (fits, all) = λ k h.
      let (e, f) = position (i * 8 + j + k) i (j + k) (omega arith) (omega arith) in
      (==_iff (bit (m i) (j + k)) 1).0 (
        ap (λ (t : ℕ). bit (m t) (j + k) == 1) (sym e)
        ∙ ap (λ (t : ℕ). bit (m ((i * 8 + j + k) / 8)) t == 1) (sym f)
        ∙ all k h)

-- The bitmap with `count` bits of byte `i` cleared, from bit `j` on.
abbrev cleared : Memory → ℕ → ℕ → ℕ → Memory
cleared m count i j = λ b. if b == i then clear_run (m i) j count 0 else m b

module _ (m : Memory) (count i j : ℕ) where
  cleared-Bytes : Bytes m → Bytes (cleared m count i j)
  cleared-Bytes bytes b = elim (Bool-cases (b == i)) [
    | inl here ↦ rw here (clear_run-lt (m i) j count 0 (bytes i))
    | inr there ↦ rw there (bytes b)
  ]

  free-cleared :
      j + count ≤ 8
      → (n : ℕ)
      → free (cleared m count i j) n
        ≡ (if leb (i * 8 + j) n && ltb n (i * 8 + j + count) then false else free m n)
  free-cleared fits n = elim (Bool-cases (n / 8 == i)) [
    | inl here ↦
        rw (here, bit-clear_run (m i) j count 0 (n % 8) (omega (arith, fits)) (omega arith))
          (ground (arith, here, fits, ap m ((==_iff (n / 8) i).0 here)))
    | inr there ↦ rw there (ground (arith, there, fits))
  ]

-- On a valid bitmap of at most `2 ^ 20` pages `kpalloc_contignious` of a positive count takes that
-- many free pages in a row, all in one byte of the bitmap, marks them and no others, and returns
-- the address of the first. If no byte has such a run, it returns 0 and changes nothing.
pub kpalloc_contignious-RunTaken :
    (s : Pmm) (count : ℕ)
    → IsValid s
    → s.bitmap_size * 8 ≤ 2 ^ 20
    → 0 < count
    → RunTaken s count (kpalloc_contignious s count).0 (kpalloc_contignious s count).1
      ⊎ ((kpalloc_contignious s count ≡ (0, s)) × NoRun s count)
unfolding kpalloc_contignious
kpalloc_contignious-RunTaken s count v low some_page =
    answer (find_runs s.bytes count s.bitmap_size 0)
      (find_runs-FoundRuns s.bytes count s.bitmap_size 0 v.bytes some_page)
  where
    taken : ℕ → ℕ → ℕ × Pmm
    taken i j = (
      (i * 8 + j) * 0x1000 % 2 ^ 32,
      record s {
        bytes = cleared s.bytes count i j;
        number_of_avail_pages = (s.number_of_avail_pages + 2 ^ 64 - count) % 2 ^ 64;
      },
    )

    answer :
        (r : Option (ℕ × ℕ))
        → FoundRuns s.bytes count 0 (0 + s.bitmap_size) r
        → let out : ℕ × Pmm = elim r [ some (i, j) ↦ taken i j | none ↦ (0, s) ] in
          RunTaken s count out.0 out.1 ⊎ ((out ≡ (0, s)) × NoRun s count)
    answer none f = inr (
      refl,
      λ page h run.
          let e : page ≡ page / 8 * 8 + page % 8 = omega arith in
          f (page / 8) (page % 8) (omega arith) (omega (arith, h)) (omega arith) (
            FreeRun-IsRun s.bytes count (page / 8) (page % 8) (omega arith)
              (subst (λ t. FreeRun s.bytes t count) e run)),
    )
    answer (some (i, j)) (lt, inside, run, fits) = inl record {
      page = i * 8 + j;
      at = omega (arith, low, lt, inside);
      covered = omega (arith, lt, fits);
      were_free = IsRun-FreeRun s.bytes count i j inside run fits;
      marked = free-cleared s.bytes count i j fits;
      counted = refl;
      size = refl;
      valid = record {
        bytes = cleared-Bytes s.bytes count i j v.bytes;
        small = v.small;
        start = v.start;
      };
    }
