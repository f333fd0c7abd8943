-- ===== src/Paging/Progress.antt =====
-- With enough free pages `mapPage` does not panic.
use littlevisor.Base.{
  ℕ, zero, suc, ◌+◌, ◌*◌, ◌≡◌, refl, inl, inr, Option, some, ◌==◌, arith, Bool-cases,
}
use littlevisor.Pmm.Progress.{Has, Has-le, kpalloc-Has}
use littlevisor.Paging.{
  Machine, slot, present, index, root, add_table, keep_table, map_level, map_page, ◌>>=◌,
}
use littlevisor.Paging.Ranges.{map_from, map_range}

-- A run that ends without a panic, with a property of what it leaves.
abbrev pub Ends : {A : Type 0} → (A → Type 0) → Option A → Type 0
Ends {A} P o = (r : A) × (o ≡ some r) × P r

-- A bind whose parts end ends.
pub >>=-Ends :
    {A B : Type 0} (P : A → Type 0) (Q : B → Type 0) (o : Option A) (next : A → Option B)
    → Ends P o
    → ((a : A) → P a → Ends Q (next a))
    → Ends Q (o >>= next)
>>=-Ends P Q o next (a, e, has) go = rw e (go a has)

-- `k` free pages are left.
abbrev pub Left : ℕ → Machine → Type 0
Left k m = Has k m.pmm

abbrev Down : ℕ → ℕ × Machine → Type 0
Down k r = Has k r.1.pmm

map_level-Ends :
    {k : ℕ} (m : Machine) (table i flags : ℕ)
    → Has (suc k) m.pmm
    → Ends (Down k) (map_level m table i flags)
unfolding map_level add_table keep_table
map_level-Ends {k} m table i flags has = elim (Bool-cases (present (m.words (slot table i)) == 0)) [
  | inl absent ↦ rw absent (rw (kpalloc-Has has).0 (_, refl, (kpalloc-Has has).1))
  | inr here ↦ rw here (_, refl, Has-le k (suc k) (omega arith) has)
]

-- Three pages are enough for a mapping.
pub map_page-Ends :
    (k : ℕ) (m : Machine) (p v flags cr3 : ℕ)
    → Has (suc (suc (suc k))) m.pmm
    → Ends (Left k) (map_page m p v flags cr3)
unfolding map_page
map_page-Ends k m p v flags cr3 has =
    >>=-Ends (Down (suc (suc k))) (Left k) _ _ (map_level-Ends m (root m cr3) (index v 0) flags has)
      (λ (t1, m1) has1.
        >>=-Ends (Down (suc k)) (Left k) _ _ (map_level-Ends m1 t1 (index v 1) flags has1)
          (λ (t2, m2) has2.
            >>=-Ends (Down k) (Left k) _ _ (map_level-Ends m2 t2 (index v 2) flags has2)
              (λ r has3. (_, refl, has3))))

-- Three pages for each page of a run are enough.
map_from-Ends :
    (left i k : ℕ) (m : Machine) (cr3 virt phys flags : ℕ)
    → Has (3 * left + k) m.pmm
    → Ends (Left k) (map_from left i m cr3 virt phys flags)
unfolding map_from
map_from-Ends zero i k m cr3 virt phys flags has = (m, refl, Has-le k (3 * 0 + k) (omega arith) has)
map_from-Ends (suc left) i k m cr3 virt phys flags has =
    >>=-Ends (Left (3 * left + k)) (Left k) _ _
      (map_page-Ends (3 * left + k) m _ _ flags cr3 (Has-le _ (3 * suc left + k) (omega arith) has))
      (λ m1 has1. map_from-Ends left (i + 1) k m1 cr3 virt phys flags has1)

pub map_range-Ends :
    (n k : ℕ) (m : Machine) (cr3 virt phys flags : ℕ)
    → Has (3 * n + k) m.pmm
    → Ends (Left k) (map_range m cr3 virt phys n flags)
unfolding map_range
map_range-Ends n k m cr3 virt phys flags has = map_from-Ends n 0 k m cr3 virt phys flags has
