-- ===== src/Pmm/Regions.antt =====
-- What the loops of `init_pmm` of src/pmm.cpp compute: the free pages and the end of the memory.
use littlevisor.Base.{
  All, ℕ, zero, suc, ◌+◌, ◌*◌, ◌/◌, ◌%◌, ◌^◌, ◌≤◌, ◌<◌, ◌≡◌, refl, ap, ◌∙◌, inl, inr, Bool, true,
  false, not, ◌&&◌, ◌||◌, List, [], ◌∷◌, ltb, leb, ◌==◌, if◌then◌else◌, arith, Bool-cases,
}
use littlevisor.Common.{Memory, to_lower_half}
use littlevisor.Common.Bitops.{Bytes}
use littlevisor.Pmm.Init.{Region, highest_address, free_pages, free_regions}
use littlevisor.Pmm.Bitmap.{free, free-setbit, setbit-Bytes}

-- A region in the first `2 ^ 44` bytes.
abbrev pub IsLow : Region → Type 0
IsLow e = e.base + e.length_in_bytes ≤ 2 ^ 44

-- Page `n` lies in a usable region, and that region does not begin with the bitmap.
abbrev gives : ℕ → Region → ℕ → Bool
gives bitmap e n =
    (e.usable && not (e.base == to_lower_half bitmap))
    && (leb (e.base / 0x1000) n && ltb n (e.base / 0x1000 + e.length_in_bytes / 0x1000))

abbrev pub listed : ℕ → List Region → ℕ → Bool
listed bitmap [] n = false
listed bitmap (e ∷ entries) n = gives bitmap e n || listed bitmap entries n

one_more :
    (addr left n : ℕ) (b : Bool)
    → ((leb (addr + 1) n && ltb n (addr + 1 + left)) || (if n == addr then true else b))
      ≡ ((leb addr n && ltb n (addr + suc left)) || b)
one_more addr left n b = ground arith

free_pages-free :
    (left addr number : ℕ) (bytes : Memory) (n : ℕ)
    → Bytes bytes
    → addr + left ≤ 2 ^ 32
    → free (free_pages (bytes, number) addr left).0 n
      ≡ ((leb addr n && ltb n (addr + left)) || free bytes n)
unfolding free_pages
free_pages-free zero addr number bytes n ok h = ground arith
free_pages-free (suc left) addr number bytes n ok h =
    let i = addr / 8 % 2 ^ 32 in
    let here : i * 8 + addr % 8 ≡ addr = omega (arith, h) in
    free_pages-free left (addr + 1) _ _ n (setbit-Bytes i (addr % 8) ok (omega arith)) (omega arith)
    ∙ ap (λ b. (leb (addr + 1) n && ltb n (addr + 1 + left)) || b)
        (free-setbit i (addr % 8) ok (omega arith) n
          ∙ ap (λ t. if n == t then true else free bytes n) here)
    ∙ one_more addr left n (free bytes n)

free_pages-Bytes :
    (left addr number : ℕ) (bytes : Memory)
    → Bytes bytes
    → Bytes (free_pages (bytes, number) addr left).0
unfolding free_pages
free_pages-Bytes zero addr number bytes ok = ok
free_pages-Bytes (suc left) addr number bytes ok =
    free_pages-Bytes left (addr + 1) _ _
      (setbit-Bytes (addr / 8 % 2 ^ 32) (addr % 8) ok (omega arith))

or_chain : (a b c : Bool) → (a || (b || c)) ≡ ((b || a) || c)
or_chain a b c = ground arith

free_region-free :
    (bitmap : ℕ) (e : Region) (s : Memory × ℕ) (n : ℕ)
    → Bytes s.0
    → IsLow e
    → let s' : Memory × ℕ =
        if e.usable && not (e.base == to_lower_half bitmap)
        then free_pages s (e.base / 0x1000) (e.length_in_bytes / 0x1000)
        else s in
      Bytes s'.0 × (free s'.0 n ≡ (gives bitmap e n || free s.0 n))
free_region-free bitmap e s n ok low =
    elim (Bool-cases (e.usable && not (e.base == to_lower_half bitmap))) [
      | inl given ↦
          let addr = e.base / 0x1000 in
          let left = e.length_in_bytes / 0x1000 in
          rw given (
            free_pages-Bytes left addr s.1 s.0 ok,
            free_pages-free left addr s.1 s.0 n ok (omega (arith, low)),
          )
      | inr kept ↦ rw kept (ok, refl)
    ]

-- The third loop frees the listed pages, and keeps the others as they are in the memory.
pub free_regions-free :
    (bitmap : ℕ) (entries : List Region) (s : Memory × ℕ) (n : ℕ)
    → Bytes s.0
    → All IsLow entries
    → Bytes (free_regions bitmap entries s).0
      × (free (free_regions bitmap entries s).0 n ≡ (listed bitmap entries n || free s.0 n))
unfolding free_regions
free_regions-free bitmap [] s n ok low = (ok, refl)
free_regions-free bitmap (e ∷ entries) s n ok (low, lows) =
    let (ok', freed) = free_region-free bitmap e s n ok low in
    let (still, all) = free_regions-free bitmap entries _ n ok' lows in
    (
      still,
      all
          ∙ ap (λ b. listed bitmap entries n || b) freed
          ∙ or_chain (listed bitmap entries n) (gives bitmap e n) (free s.0 n),
    )

-- The larger of two ends, the second of which counts only if its region is usable.
raise :
    (u : Bool) (a b : ℕ)
    → let t : ℕ = if u && ltb a b then b else a in
      (a ≤ t) × (u ≡ true → b ≤ t) × (a ≤ 2 ^ 44 → b ≤ 2 ^ 44 → t ≤ 2 ^ 44)
raise true a b = elim (Bool-cases (ltb a b)) [
  | inl p ↦ rw p (ground (arith, p), λ h. omega arith, λ h k. k)
  | inr p ↦ rw p (omega arith, λ h. ground (arith, p), λ h k. h)
]
raise false a b = (omega arith, λ h. ground (arith, h), λ h k. h)

-- No usable region ends behind the address.
abbrev pub EndsBelow : ℕ → Region → Type 0
EndsBelow highest e = e.usable ≡ true → e.base + e.length_in_bytes ≤ highest

-- The first loop finds an address that no usable region passes.
pub highest_address-le :
    (entries : List Region) (highest : ℕ)
    → All IsLow entries
    → highest ≤ 2 ^ 44
    → (highest ≤ highest_address entries highest)
      × (highest_address entries highest ≤ 2 ^ 44)
      × All (EndsBelow (highest_address entries highest)) entries
unfolding highest_address
highest_address-le [] highest low h = (omega arith, h, tt)
highest_address-le (e ∷ entries) highest (low, lows) h =
    let (up, end, bound) = raise e.usable highest ((e.base + e.length_in_bytes) % 2 ^ 64) in
    let (over, under, all) = highest_address-le entries _ lows (bound h (omega (arith, low))) in
    (omega (arith, up, over), under, (λ u. omega (arith, end u, over, low), all))

-- A listed page belongs to the bitmap, or to the eight pages behind it.
pub listed-near :
    (bitmap highest : ℕ) (entries : List Region) (n : ℕ)
    → All (EndsBelow highest) entries
    → listed bitmap entries n ≡ true
    → n < highest / 0x1000
listed-near bitmap highest [] n below h = ground (arith, h)
listed-near bitmap highest (e ∷ entries) n (end, below) h = elim (Bool-cases (gives bitmap e n)) [
  | inl here ↦
      let usable : e.usable ≡ true = ground (arith, here) in
      let last : n < e.base / 0x1000 + e.length_in_bytes / 0x1000 = ground (arith, here) in
      omega (arith, end usable, last)
  | inr there ↦ listed-near bitmap highest entries n below (ground (arith, h, there))
]
