-- ===== src/Pmm/Tests.antt =====
-- Runs of src/pmm.cpp on a bitmap of one byte.
use littlevisor.Base.{
  All, List, [], ◌∷◌, none, some, ◌/◌, ℕ, ◌≡◌, refl, ◌⊎◌, true, false, ◌==◌, if◌then◌else◌, arith,
}
use littlevisor.Common.{
  getbit, getbit_val, load, write, setbit, clearbit, to_higher_half, to_lower_half,
}
use littlevisor.Bits.{bit}
use littlevisor.Pmm.{
  Pmm, kpalloc, kpfree, find_page, find_bit, take_page, kpalloc_contignious, find_runs, find_run,
  run_length,
}
use littlevisor.Pmm.Bitmap.{free, IsValid}
use littlevisor.Pmm.Alloc.{Taken, Full, kpalloc-Taken, kpalloc_progress, kpfree-kpalloc}
use littlevisor.Pmm.Init.{Region, highest_address, find_place, free_pages, free_regions, init_pmm}
use littlevisor.Pmm.Start.{IsShort, Started, init_pmm-Started}
use littlevisor.Pmm.Contiguous.{RunTaken, NoRun, kpalloc_contignious-RunTaken}

-- The pages 1 and 2 are free.
abbrev two_free : Pmm
two_free = record {
  bytes = λ a. if a == 0 then 6 else 0;
  bitmap_size = 1;
  last_allocated_idx = 0;
  number_of_avail_pages = 2;
}

two_free-IsValid : IsValid two_free
two_free-IsValid = record { bytes = λ a. ground arith; small = omega arith; start = omega arith }

first_page : (kpalloc two_free).0 ≡ 0x1000
unfolding kpalloc find_page find_bit getbit load write clearbit take_page
first_page = refl

second_page : (kpalloc (kpalloc two_free).1).0 ≡ 0x2000
unfolding kpalloc find_page find_bit getbit load write clearbit take_page
second_page = refl

none_left : (kpalloc (kpalloc (kpalloc two_free).1).1).0 ≡ 0
unfolding kpalloc find_page find_bit getbit load write clearbit take_page
none_left = refl

page_one_free : free two_free.bytes 1 ≡ true
unfolding bit
page_one_free = refl

page_three_taken : free two_free.bytes 3 ≡ false
unfolding bit
page_three_taken = refl

taken : Taken two_free (kpalloc two_free).0 (kpalloc two_free).1
taken = kpalloc_progress two_free 1 two_free-IsValid (omega arith) page_one_free

page_two_free : free (kpalloc two_free).1.bytes 2 ≡ true
unfolding kpalloc find_page find_bit getbit load write clearbit take_page bit
page_two_free = refl

Taken-again :
    Taken (kpalloc two_free).1 (kpalloc (kpalloc two_free).1).0 (kpalloc (kpalloc two_free).1).1
Taken-again =
    kpalloc_progress (kpalloc two_free).1 2 taken.valid (omega (arith, taken.size)) page_two_free

kpalloc-Taken_example :
    Taken two_free (kpalloc two_free).0 (kpalloc two_free).1
    ⊎ ((kpalloc two_free ≡ (0, two_free)) × Full two_free)
kpalloc-Taken_example = kpalloc-Taken two_free two_free-IsValid

kpfree-kpalloc_example :
    ((n : ℕ)
      → free (kpfree (kpalloc two_free).1 (kpalloc two_free).0).bytes n ≡ free two_free.bytes n)
    × ((kpfree (kpalloc two_free).1 (kpalloc two_free).0).number_of_avail_pages ≡ 2)
    × IsValid (kpfree (kpalloc two_free).1 (kpalloc two_free).0)
kpfree-kpalloc_example = kpfree-kpalloc taken (omega arith)

-- The regions 0x1000 to 0x3000 and 0x8000 to 0x11000, where the bitmap of 2 bytes lies in the first.
abbrev two_regions : List Region
two_regions =
    record { base = 0x1000; length_in_bytes = 0x2000; usable = true }
    ∷ record { base = 0x8000; length_in_bytes = 0x9000; usable = true }
    ∷ []

init_pmm-Started_example :
    (init_pmm (λ a. 0) two_regions ≡ none)
      × All (IsShort (highest_address two_regions 0 / 0x1000 / 8)) two_regions
    ⊎ (bitmap : ℕ) × (s : Pmm) × (init_pmm (λ a. 0) two_regions ≡ some (bitmap, s))
      × Started (λ a. 0) two_regions bitmap s
init_pmm-Started_example =
    init_pmm-Started (λ a. 0) two_regions (λ a. omega arith) (omega arith, (omega arith, tt))

abbrev started : Pmm
started = elim (init_pmm (λ a. 0) two_regions) [ some (bitmap, s) ↦ s | none ↦ two_free ]

started_pages :
    (started.number_of_avail_pages ≡ 9)
    × (started.bytes 0 ≡ 0)
    × (started.bytes 1 ≡ 255)
    × (started.bytes 2 ≡ 1)
unfolding init_pmm highest_address find_place free_regions free_pages setbit load write
    to_higher_half to_lower_half
started_pages = (refl, refl, refl, refl)

kpalloc_contignious-RunTaken_example :
    RunTaken two_free 2 (kpalloc_contignious two_free 2).0 (kpalloc_contignious two_free 2).1
    ⊎ ((kpalloc_contignious two_free 2 ≡ (0, two_free)) × NoRun two_free 2)
kpalloc_contignious-RunTaken_example =
    kpalloc_contignious-RunTaken two_free 2 two_free-IsValid (omega arith) (omega arith)

run_of_two : (kpalloc_contignious two_free 2).0 ≡ 0x1000
unfolding kpalloc_contignious find_runs find_run run_length getbit_val
run_of_two = refl

-- No byte has three free pages.
run_of_three : (kpalloc_contignious two_free 3).0 ≡ 0
unfolding kpalloc_contignious find_runs find_run run_length getbit_val
run_of_three = refl
