-- ===== src/Paging/Entry.antt =====
-- The parts of a page-table entry and of an address, as arithmetic.
use littlevisor.Base.{ℕ, ◌-◌, ◌*◌, ◌/◌, ◌%◌, ◌^◌, ◌<◌, max, bit_or, ◌≡◌, sym, ap, ◌∙◌, ◌≢◌, arith}
use littlevisor.Bits.Digits.{or_lowest}
use littlevisor.Bits.Fields.{bit_and-low, bit_and-high, bit_or-div_low, bit_or-lt}
use littlevisor.Common.{Memory}
use littlevisor.Paging.{slot, target, present, index, zero_page}

pub target-eq : (e : ℕ) → e < 2 ^ 64 → target e ≡ e / 2 ^ 12 * 2 ^ 12
unfolding target
target-eq e h = bit_and-high 12 64 e (omega arith) h

pub present-eq : (e : ℕ) → present e ≡ e % 2
unfolding present
present-eq e = bit_and-low 1 e

pub index-lt : (v k : ℕ) → index v k < 512
unfolding index
index-lt v k = omega (arith, bit_and-low 9 (v / 2 ^ (39 - 9 * k)))

pub index-eq : (v k : ℕ) → index v k ≡ v / 2 ^ (39 - 9 * k) % 512
unfolding index
index-eq v k = bit_and-low 9 (v / 2 ^ (39 - 9 * k))

-- Flags below the address bits leave the target of an entry, and an entry stays present.
pub target-bit_or : (e f : ℕ) → e < 2 ^ 64 → f < 2 ^ 12 → target (bit_or e f) ≡ target e
target-bit_or e f he hf =
    target-eq (bit_or e f) (bit_or-lt 64 e f he (omega arith))
    ∙ ap (λ (t : ℕ). t * 2 ^ 12) (bit_or-div_low 12 e f hf)
    ∙ sym (target-eq e he)

pub present-bit_or : (e f : ℕ) → present (bit_or e f) ≡ max (present e) (present f)
present-bit_or e f =
    omega (arith, present-eq (bit_or e f), present-eq e, present-eq f, or_lowest e f)

-- A page address with flags is an entry for that page.
pub target_page : (p f : ℕ) → p < 2 ^ 64 → p % 2 ^ 12 ≡ 0 → f < 2 ^ 12 → target (bit_or p f) ≡ p
target_page p f hp aligned hf = target-bit_or p f hp hf ∙ target-eq p hp ∙ omega arith

-- A page address: a multiple of the page size.
abbrev pub PageAddress : ℕ → Type 0
PageAddress p = (p < 2 ^ 64) × (p % 0x1000 ≡ 0)

-- Entries of different tables, or at different indices, are different words.
pub slot-injective :
    (p q i j : ℕ)
    → PageAddress p
    → PageAddress q
    → i < 512
    → j < 512
    → slot p i ≡ slot q j
    → (p ≡ q) × (i ≡ j)
unfolding slot
slot-injective p q i j hp hq hi hj e = (omega arith, omega arith)

-- A page set to zero has no entry; the words of other tables stay.
pub zero_page_self :
    (words : Memory) (p i : ℕ) → PageAddress p → i < 512 → zero_page words p (slot p i) ≡ 0
unfolding zero_page slot
zero_page_self words p i hp hi = ground arith

pub zero_page-ne :
    (words : Memory) (p q i : ℕ)
    → PageAddress p
    → PageAddress q
    → i < 512
    → p ≢ q
    → zero_page words p (slot q i) ≡ words (slot q i)
unfolding zero_page slot
zero_page-ne words p q i hp hq hi ne = ground arith
