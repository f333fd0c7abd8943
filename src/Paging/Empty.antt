-- ===== src/Paging/Empty.antt =====
-- One empty table in a memory of zeros: a tree, for the runs of the paging code and of its clients.
use littlevisor.Base.{
  ℕ, ◌*◌, ◌/◌, ◌≡◌, refl, sym, ap, ◌∙◌, inl, inr, true, false, none, some, [], ◌==◌, if◌then◌else◌,
  arith, Bool-cases, ==_iff,
}
use littlevisor.Pmm.{Pmm}
use littlevisor.Pmm.Bitmap.{free, IsValid}
use littlevisor.Paging.{Machine}
use littlevisor.Paging.Entry.{PageAddress, present-eq}
use littlevisor.Paging.Tree.{Labels, Place, IsTree}

abbrev pub one_root : ℕ → Labels
one_root r p = if p == r then some [] else none

abbrev pub zeros : Pmm → ℕ → Machine
zeros pmm cr3 = record { words = λ a. 0; pmm = pmm; cr3_val = cr3 }

root_only : (r p : ℕ) (place : Place) → one_root r p ≡ some place → p ≡ r
root_only r p place e = ground (arith, e)

pub zeros-IsTree :
    (pmm : Pmm) (cr3 r : ℕ)
    → IsValid pmm
    → PageAddress r
    → free pmm.bytes (r / 0x1000) ≡ false
    → IsTree (zeros pmm cr3) (one_root r)
zeros-IsTree pmm cr3 r valid at used = record {
  valid = valid;
  word = λ a. omega arith;
  page = λ p place e. ground (arith, root_only r p place e, at);
  child = λ p i place e up h on. absurd (on (present-eq 0));
  unlabelled = λ n e. elim (Bool-cases (n * 0x1000 == r)) [
    | inl same ↦
        let here : r / 0x1000 ≡ n = ground (arith, (==_iff (n * 0x1000) r).0 same) in
        absurd (not_both n (ap (free pmm.bytes) (sym here) ∙ used) e)
    | inr other ↦ rw other refl
  ];
}
  where
    not_both : (n : ℕ) → free pmm.bytes n ≡ false → ¬ (free pmm.bytes n ≡ true)
    not_both n e f = cc
