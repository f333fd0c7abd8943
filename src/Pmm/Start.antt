-- ===== src/Pmm/Start.antt =====
-- The allocator after `init_pmm` of src/pmm.cpp: which pages are free, and where the bitmap lies.
use mathlib.Core.Path.{subst}
use littlevisor.Base.{
  All, ℕ, suc, ◌+◌, ◌*◌, ◌/◌, ◌%◌, ◌^◌, ◌≤◌, ◌<◌, ◌≡◌, refl, sym, ◌⊎◌, inl, inr, true, false, ◌&&◌,
  ◌||◌, none, some, List, [], ◌∷◌, get_elem?, leb, ◌==◌, arith, Bool-cases,
}
use littlevisor.Common.{Memory, to_higher_half}
use littlevisor.Pmm.{Pmm}
use littlevisor.Pmm.Init.{Region, highest_address, find_place, init_pmm}
use littlevisor.Pmm.Bitmap.{free, IsValid}
use littlevisor.Pmm.Regions.{IsLow, listed, free_regions-free, highest_address-le, listed-near}

-- The bitmap lies at the start of a usable region that is large enough for it.
pub record Place (needed_size : ℕ) (entries : List Region) (bitmap : ℕ) : Type 0 where
  pub index : ℕ
  pub region : Region
  pub listed : get_elem? entries index ≡ some region
  pub usable : region.usable ≡ true
  pub room : needed_size ≤ region.length_in_bytes
  pub start : bitmap ≡ to_higher_half region.base

-- A region where the bitmap cannot lie.
abbrev pub IsShort : ℕ → Region → Type 0
IsShort needed_size e = e.usable ≡ true → e.length_in_bytes < needed_size

find_place-Place :
    (needed_size : ℕ) (entries : List Region)
    → All IsLow entries
    → ((find_place needed_size entries == 0) ≡ true) × All (IsShort needed_size) entries
      ⊎ ((find_place needed_size entries == 0) ≡ false)
        × Place needed_size entries (find_place needed_size entries)
unfolding find_place to_higher_half
find_place-Place needed_size [] low = inl (refl, tt)
find_place-Place needed_size (e ∷ entries) (low, lows) =
    elim (Bool-cases (leb needed_size e.length_in_bytes && e.usable)) [
      | inl fits ↦ rw fits (
          inr (
            ground (arith, low),
            record {
              index = 0;
              region = e;
              listed = refl;
              usable = ground (arith, fits);
              room = ground (arith, fits);
              start = refl;
            },
          ))
      | inr short ↦ rw short (elim (find_place-Place needed_size entries lows) [
        | inl (none_left, all) ↦ inl (none_left, ((λ u. ground (arith, short, u)), all))
        | inr (found, p) ↦ inr (
          found,
          record {
            index = suc p.index;
            region = p.region;
            listed = p.listed;
            usable = p.usable;
            room = p.room;
            start = p.start;
          },
        )
      ])
    ]

-- The state of the allocator after `init_pmm`. The pages of usable regions are free, but for the
-- region with the bitmap, and where the memory of the bitmap was not 0, its bits stay.
pub record Started (memory : ℕ → ℕ) (entries : List Region) (bitmap : ℕ) (s : Pmm) : Type 0 where
  pub place : Place s.bitmap_size entries bitmap
  pub freed :
      (n : ℕ) → free s.bytes n ≡ (listed bitmap entries n || free (λ a. memory (bitmap + a)) n)
  pub near : (n : ℕ) → listed bitmap entries n ≡ true → n < s.bitmap_size * 8 + 8
  pub valid : IsValid s

-- For a map of the memory below `2 ^ 44`, `init_pmm` panics if no usable region is large enough for
-- the bitmap. Otherwise it puts the bitmap at the start of such a region and gives a valid
-- allocator, in which a page is free if a usable region other than that one has it, or if its bit
-- was set in the memory before. Such a region has no page more than 8 pages behind the bitmap.
pub init_pmm-Started :
    (memory : ℕ → ℕ) (entries : List Region)
    → ((a : ℕ) → memory a < 256)
    → All IsLow entries
    → (init_pmm memory entries ≡ none)
        × All (IsShort (highest_address entries 0 / 0x1000 / 8)) entries
      ⊎ (bitmap : ℕ) × (s : Pmm) × (init_pmm memory entries ≡ some (bitmap, s))
        × Started memory entries bitmap s
unfolding init_pmm
init_pmm-Started memory entries bytes low =
    let (_, small, ends) = highest_address-le entries 0 low (omega arith) in
    let needed_size = highest_address entries 0 / 0x1000 / 8 in
    let bitmap = find_place needed_size entries in
    let before : Memory × ℕ = (λ a. memory (bitmap + a), 0) in
    let fits : needed_size % 2 ^ 32 ≡ needed_size = omega (arith, small) in
    elim (find_place-Place needed_size entries low) [
      | inl (no_place, all) ↦ rw no_place (inl (refl, all))
      | inr (found, place) ↦ rw found (
          inr (
            bitmap,
            _,
            refl,
            record {
              place = subst (λ t. Place t entries bitmap) (sym fits) place;
              freed =
                  λ n. (free_regions-free bitmap entries before n (λ a. bytes (bitmap + a)) low).1;
              near = λ n h.
                  omega
                    (arith, small, listed-near bitmap (highest_address entries 0) entries n ends h);
              valid = record {
                bytes = (free_regions-free bitmap entries before 0 (λ a. bytes (bitmap + a)) low).0;
                small = omega (arith, small);
                start = omega arith;
              };
            },
          ))
    ]
