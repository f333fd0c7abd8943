-- ===== src/Pmm/Runs.antt =====
-- The runs of free pages that `kpalloc_contignious` looks for, in one byte of the bitmap.
use mathlib.Core.Path.{subst}
use littlevisor.Base.{
  ℕ, zero, suc, ◌+◌, ◌-◌, ◌≤◌, ◌<◌, ◌≡◌, sym, ap, ◌∙◌, ◌⊎◌, inl, inr, true, false, ◌&&◌, Option,
  none, some, ltb, leb, ◌==◌, if◌then◌else◌, arith, Bool-cases, leb→le, ==_iff,
}
use littlevisor.Bits.{bit}
use littlevisor.Bits.Digits.{bit-lt-two}
use littlevisor.Bits.Fields.{bit-eq-div}
use littlevisor.Common.{getbit_val, clearbit}
use littlevisor.Common.Bitops.{getbit_val-bit, bit-clearbit, clearbit-lt}
use littlevisor.Pmm.{run_length, find_run, clear_run}

-- The `count` bits of a byte from bit `j` on are set.
abbrev pub IsRun : ℕ → ℕ → ℕ → Type 0
IsRun byte j count = (z : ℕ) → z < count → bit byte (j + z) ≡ 1

-- Where the loop over `z` stops: behind set bits, at a clear one or at the end.
abbrev Stops : ℕ → ℕ → ℕ → ℕ → ℕ → Type 0
Stops byte j left z r =
    (z ≤ r)
    × (r ≤ z + left)
    × ((k : ℕ) → z ≤ k → k < r → (getbit_val byte (j + k) == 0) ≡ false)
    × (((r == z + left) ≡ true) ⊎ ((getbit_val byte (j + r) == 0) ≡ true))

run_length-Stops : (byte j left z : ℕ) → Stops byte j left z (run_length byte j left z)
unfolding run_length
run_length-Stops byte j zero z =
    (omega arith, omega arith, λ k a b. absurd (omega arith), inl (ground arith))
run_length-Stops byte j (suc left) z = elim (Bool-cases (getbit_val byte (j + z) == 0)) [
  | inl clear ↦ rw clear (omega arith, omega arith, λ k a b. absurd (omega arith), inr clear)
  | inr on ↦
      let (lo, hi, all, stop) = run_length-Stops byte j left (z + 1) in
      rw on (
        omega (arith, lo),
        omega (arith, hi),
        λ k a b. elim (Bool-cases (k == z)) [
          | inl same ↦ rw ((==_iff k z).0 same) on
          | inr other ↦ all k (ground (arith, other)) b
        ],
        elim stop [ inl e ↦ inl (ground (arith, e)) | inr e ↦ inr e ],
      )
]

-- A byte has no bit above the seventh.
bit-byte : (byte : ℕ) → byte < 256 → bit byte 8 ≡ 0
bit-byte byte h = bit-eq-div 8 byte ∙ omega arith

bit-ne : (v k : ℕ) → k < 64 → (getbit_val v k == 0) ≡ false → bit v k ≡ 1
bit-ne v k h e = ground (arith, getbit_val-bit v k h, bit-lt-two v k)

-- A run that starts in a byte ends in it.
IsRun-inside : (byte j count : ℕ) → byte < 256 → j < 8 → IsRun byte j count → j + count ≤ 8
IsRun-inside byte j count small inside run = elim (Bool-cases (leb (j + count) 8)) [
  | inl h ↦ leb→le (j + count) 8 h
  | inr long ↦
      let eight : j + (8 - j) ≡ 8 = omega (arith, inside) in
      let past = run (8 - j) (ground (arith, long, inside)) in
      absurd (omega (arith, bit-byte byte small, ap (bit byte) eight, past))
]

-- A run that is found lies in the byte.
run_length-IsRun :
    (byte j count : ℕ)
    → byte < 256
    → j < 8
    → 0 < count
    → (getbit_val byte j == 1 && run_length byte j (count - 1) 1 == count) ≡ true
    → IsRun byte j count × (j + count ≤ 8)
run_length-IsRun byte j count small inside some_page e =
    let (lo, hi, all, stop) = run_length-Stops byte j (count - 1) 1 in
    let whole : run_length byte j (count - 1) 1 ≡ count = ground (arith, e) in
    let first : bit byte j ≡ 1 = ground (arith, e, getbit_val-bit byte j (omega arith)) in
    let fits : j + count ≤ 8 = elim (Bool-cases (leb (j + count) 8)) [
      | inl h ↦ leb→le (j + count) 8 h
      | inr long ↦
          let eight : j + (8 - j) ≡ 8 = omega (arith, inside) in
          let past = all (8 - j) (omega (arith, inside)) (ground (arith, long, whole, inside)) in
          absurd (
            omega (
              arith,
              bit-byte byte small,
              ap (bit byte) eight,
              bit-ne byte (j + (8 - j)) (omega (arith, eight)) past,
            ))
    ] in
    (
      λ z h. elim (Bool-cases (z == 0)) [
        | inl start ↦ ap (bit byte) (ground (arith, start)) ∙ first
        | inr later ↦
            bit-ne byte (j + z) (omega (arith, fits, h))
              (all z (ground (arith, later)) (omega (arith, whole, h)))
      ],
      fits,
    )

-- A run in the byte passes the test of the loop.
missed_run :
    (byte j count : ℕ)
    → byte < 256
    → j < 8
    → 0 < count
    → (getbit_val byte j == 1 && run_length byte j (count - 1) 1 == count) ≡ false
    → IsRun byte j count
    → ⊥
missed_run byte j count small inside some_page e run =
    let (lo, hi, all, stop) = run_length-Stops byte j (count - 1) 1 in
    let r = run_length byte j (count - 1) 1 in
    let start : getbit_val byte j ≡ 1 =
      getbit_val-bit byte j (omega (arith, inside))
      ∙ sym (ap (bit byte) (omega arith))
      ∙ run 0 some_page in
    let fits : j + count ≤ 8 = IsRun-inside byte j count small inside run in
    let short : (r == count) ≡ false = ground (arith, e, start) in
    elim stop [
      | inl whole ↦ ground (arith, whole, short, some_page)
      | inr clear ↦
          let r_lt : r < count = ground (arith, short, hi, some_page) in
          ground (arith, clear, run r r_lt, getbit_val-bit byte (j + r) (omega (arith, r_lt, fits)))
    ]

-- What the loop over the bits of a byte finds: a run, or that none starts there.
abbrev pub FoundRun : ℕ → ℕ → ℕ → Option ℕ → Type 0
FoundRun byte count from none = (j : ℕ) → from ≤ j → j < 8 → IsRun byte j count → ⊥
FoundRun byte count from (some j) = (j < 8) × IsRun byte j count × (j + count ≤ 8)

pub find_run-FoundRun :
    (byte count left j : ℕ)
    → byte < 256
    → 0 < count
    → j + left ≡ 8
    → FoundRun byte count j (find_run byte count left j)
unfolding find_run
find_run-FoundRun byte count zero j small some_page e = λ k a b run. absurd (omega arith)
find_run-FoundRun byte count (suc left) j small some_page e =
    elim (Bool-cases (getbit_val byte j == 1 && run_length byte j (count - 1) 1 == count)) [
      | inl hit ↦
          let (run, fits) = run_length-IsRun byte j count small (omega arith) some_page hit in
          rw hit (omega arith, run, fits)
      | inr miss ↦ rw miss (
          later (find_run byte count left (j + 1))
            (missed_run byte j count small (omega arith) some_page miss)
            (find_run-FoundRun byte count left (j + 1) small some_page (omega arith)))
    ]
  where
    later :
        (r : Option ℕ)
        → (IsRun byte j count → ⊥)
        → FoundRun byte count (j + 1) r
        → FoundRun byte count j r
    later (some k) not_here f = f
    later none not_here f = λ k lo hi run. elim (Bool-cases (k == j)) [
      | inl here ↦ not_here (subst (λ t. IsRun byte t count) ((==_iff k j).0 here) run)
      | inr there ↦ f k (ground (arith, there)) hi run
    ]

-- `clear_run` clears the bits of the run and keeps the others, and a byte stays a byte.
pub bit-clear_run :
    (byte j left z k : ℕ)
    → j + z + left ≤ 8
    → k < 8
    → bit (clear_run byte j left z) k
      ≡ (if leb (j + z) k && ltb k (j + z + left) then 0 else bit byte k)
unfolding clear_run
bit-clear_run byte j zero z k fits h = ground arith
bit-clear_run byte j (suc left) z k fits h =
    bit-clear_run (clearbit 8 byte (j + z)) j left (z + 1) k (omega arith) h
    ∙ ground (arith, bit-clearbit 8 byte (j + z) k (omega arith) h)

pub clear_run-lt : (byte j left z : ℕ) → byte < 256 → clear_run byte j left z < 256
unfolding clear_run
clear_run-lt byte j zero z h = h
clear_run-lt byte j (suc left) z h =
    clear_run-lt (clearbit 8 byte (j + z)) j left (z + 1) (clearbit-lt byte (j + z) h)
