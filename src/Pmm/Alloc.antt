-- ===== src/Pmm/Alloc.antt =====
-- What `kpalloc` and `kpfree` do to the set of free pages.
use mathlib.Core.Bool.{false≢true}
use littlevisor.Base.{
  ℕ, ◌+◌, ◌-◌, ◌*◌, ◌/◌, ◌%◌, ◌^◌, ◌≤◌, ◌<◌, ◌≡◌, refl, sym, ap, ◌∙◌, ◌≢◌, ◌⊎◌, inl, inr, true,
  false, Option, none, some, ltb, ◌==◌, if◌then◌else◌, arith, Bool-cases, ==_iff,
}
use littlevisor.Pmm.{Pmm, find_page, take_page, kpalloc, kpfree}
use littlevisor.Pmm.Bitmap.{free, IsValid, free-clearbit, free-setbit, clearbit-Bytes, setbit-Bytes}
use littlevisor.Pmm.Search.{Found, find_page-Found}

-- `s'` is `s` with one page taken, and `address` is the address of that page.
pub record Taken (s : Pmm) (address : ℕ) (s' : Pmm) : Type 0 where
  pub page : ℕ
  pub at : address ≡ page * 0x1000
  pub covered : page < s.bitmap_size * 8
  pub was_free : free s.bytes page ≡ true
  pub marked : (n : ℕ) → free s'.bytes n ≡ (if n == page then false else free s.bytes n)
  pub counted : s'.number_of_avail_pages ≡ (s.number_of_avail_pages + 2 ^ 64 - 1) % 2 ^ 64
  pub size : s'.bitmap_size ≡ s.bitmap_size
  pub valid : IsValid s'

-- No page of the bitmap is free.
abbrev pub Full : Pmm → Type 0
Full s = (n : ℕ) → n < s.bitmap_size * 8 → free s.bytes n ≡ false

take_page-Taken :
    (s : Pmm) (i j lo hi : ℕ)
    → IsValid s
    → hi ≤ s.bitmap_size * 8
    → Found s.bytes lo hi (some (i, j))
    → Taken s (take_page s i j).0 (take_page s i j).1
unfolding take_page
take_page-Taken s i j lo hi v within (a, b, c, d) = record {
  page = i * 8 + j;
  at = omega (arith, v.small);
  covered = omega arith;
  was_free = d;
  marked = free-clearbit i j v.bytes a;
  counted = refl;
  size = refl;
  valid = record { bytes = clearbit-Bytes i j v.bytes a; small = v.small; start = omega arith };
}

-- On a valid bitmap `kpalloc` takes a free page and returns its address, and if there is none it
-- returns 0 and changes nothing.
pub kpalloc-Taken :
    (s : Pmm) → IsValid s → Taken s (kpalloc s).0 (kpalloc s).1 ⊎ ((kpalloc s ≡ (0, s)) × Full s)
unfolding kpalloc
kpalloc-Taken s v =
    first (find_page s.bytes (s.bitmap_size - start) start)
      (find_page-Found v.bytes (s.bitmap_size - start) start)
  where
    start : ℕ
    start = s.last_allocated_idx

    again :
        (r : Option (ℕ × ℕ))
        → Found s.bytes (start * 8) ((start + (s.bitmap_size - start)) * 8) none
        → Found s.bytes (0 * 8) ((0 + start) * 8) r
        → let out : ℕ × Pmm = elim r [ some (i, j) ↦ take_page s i j | none ↦ (0, s) ] in
          Taken s out.0 out.1 ⊎ ((out ≡ (0, s)) × Full s)
    again (some (i, j)) above f =
        inl (take_page-Taken s i j (0 * 8) ((0 + start) * 8) v (omega (arith, v.start)) f)
    again none above below = inr (
      refl,
      λ n h. elim (Bool-cases (ltb n (start * 8))) [
        | inl p ↦ below n (omega arith) (ground arith)
        | inr p ↦ above n (ground arith) (omega (arith, v.start))
      ],
    )

    first :
        (r : Option (ℕ × ℕ))
        → Found s.bytes (start * 8) ((start + (s.bitmap_size - start)) * 8) r
        → let out : ℕ × Pmm = elim r [
          | some (i, j) ↦ take_page s i j
          | none ↦ elim (find_page s.bytes start 0) [
            | some (i, j) ↦ take_page s i j
            | none ↦ (0, s)
          ]
        ] in
          Taken s out.0 out.1 ⊎ ((out ≡ (0, s)) × Full s)
    first (some (i, j)) f = inl (
        take_page-Taken s i j (start * 8) ((start + (s.bitmap_size - start)) * 8) v
          (omega (arith, v.start)) f)
    first none above = again (find_page s.bytes start 0) above (find_page-Found v.bytes start 0)

-- On a valid bitmap that has a free page, `kpalloc` takes a free page and returns its address.
pub kpalloc_progress :
    (s : Pmm) (n : ℕ)
    → IsValid s
    → n < s.bitmap_size * 8
    → free s.bytes n ≡ true
    → Taken s (kpalloc s).0 (kpalloc s).1
kpalloc_progress s n v h e = elim (kpalloc-Taken s v) [
  | inl t ↦ t
  | inr (_, full) ↦ absurd (false≢true (sym (full n h) ∙ e))
]

-- On a valid bitmap `kpfree` of a page that the bitmap covers makes that page free, and changes no
-- other.
pub free-kpfree :
    (s : Pmm) (n m : ℕ)
    → IsValid s
    → n < s.bitmap_size * 8
    → free (kpfree s (n * 0x1000)).bytes m ≡ (if m == n then true else free s.bytes m)
unfolding kpfree
free-kpfree s n m v h =
    let byte_idx = n * 0x1000 / 0x1000 / 8 % 2 ^ 32 in
    let bit_idx = n * 0x1000 / 0x1000 % 8 in
    let e : byte_idx * 8 + bit_idx ≡ n = omega (arith, v.small) in
    free-setbit byte_idx bit_idx v.bytes (omega arith) m
    ∙ ap (λ k. if m == k then true else free s.bytes m) e

pub kpfree-IsValid : (s : Pmm) (page : ℕ) → IsValid s → IsValid (kpfree s page)
unfolding kpfree
kpfree-IsValid s page v = record {
  bytes = setbit-Bytes (page / 0x1000 / 8 % 2 ^ 32) (page / 0x1000 % 8) v.bytes (omega arith);
  small = v.small;
  start = v.start;
}

pub number-kpfree :
    (s : Pmm) (page : ℕ)
    → (kpfree s page).number_of_avail_pages ≡ (s.number_of_avail_pages + 1) % 2 ^ 64
unfolding kpfree
number-kpfree s page = refl

pub size-kpfree : (s : Pmm) (page : ℕ) → (kpfree s page).bitmap_size ≡ s.bitmap_size
unfolding kpfree
size-kpfree s page = refl

-- If `kpalloc` took a page, with a count below `2 ^ 64` before, then `kpfree` of that page gives back
-- the set of free pages and the count, and the bitmap is valid.
pub kpfree-kpalloc :
    {s s' : Pmm} {p : ℕ}
    → Taken s p s'
    → s.number_of_avail_pages < 2 ^ 64
    → ((n : ℕ) → free (kpfree s' p).bytes n ≡ free s.bytes n)
      × ((kpfree s' p).number_of_avail_pages ≡ s.number_of_avail_pages)
      × IsValid (kpfree s' p)
kpfree-kpalloc {s} {s'} {p} t fits = (
  λ n.
      rw (t.at, free-kpfree s' t.page n t.valid (omega (arith, t.covered, t.size)), t.marked n)
        (again n (Bool-cases (n == t.page))),
  number-kpfree s' p ∙ omega (arith, t.counted),
  kpfree-IsValid s' p t.valid,
)
  where
    again :
        (n : ℕ)
        → ((n == t.page) ≡ true) ⊎ ((n == t.page) ≡ false)
        → (if n == t.page then true else if n == t.page then false else free s.bytes n)
          ≡ free s.bytes n
    again n (inl here) = rw here (sym (ap (free s.bytes) ((==_iff n t.page).0 here) ∙ t.was_free))
    again n (inr there) = rw there refl

-- Two pages that are taken one after the other are different.
pub kpalloc-kpalloc_ne : {s s' s'' : Pmm} {p q : ℕ} → Taken s p s' → Taken s' q s'' → p ≢ q
kpalloc-kpalloc_ne t u e =
    let same : t.page ≡ u.page = omega (arith, t.at, u.at) in
    ground (arith, u.was_free, t.marked u.page)
