-- ===== src/Paging/Walk.antt =====
-- A walk down three tables, taken apart and followed from one memory to another.
use littlevisor.Base.{
  ℕ, ◌<◌, ◌≡◌, refl, ap, ◌∙◌, inl, inr, Option, none, some, [], ◌∷◌, ◌==◌, arith, Bool-cases,
}
use littlevisor.Common.{Memory}
use littlevisor.Paging.{Machine, slot, target, present, index, walk_level, walk_to_leaf, ◌>>=◌}
use littlevisor.Paging.Entry.{index-lt}
use littlevisor.Paging.Tree.{Place, Labels, Upper, IsTree, KeepsWalks}

-- The walk of an address from table `r` to its last table `q`.
pub record Walk (words : Memory) (r virt_addr q : ℕ) : Type 0 where
  pub table1 : ℕ
  pub table2 : ℕ
  pub step0 : walk_level words r (index virt_addr 0) ≡ some table1
  pub step1 : walk_level words table1 (index virt_addr 1) ≡ some table2
  pub step2 : walk_level words table2 (index virt_addr 2) ≡ some q

pub Walk-walk_to_leaf :
    {words : Memory} {r v q : ℕ} → Walk words r v q → walk_to_leaf words r v ≡ some q
unfolding walk_to_leaf
Walk-walk_to_leaf w = rw (w.step0, w.step1, w.step2) refl

pub >>=-eq-some :
    {A B : Type 0} (a : Option A) (f : A → Option B) {b : B}
    → (a >>= f) ≡ some b
    → (x : A) × (a ≡ some x) × (f x ≡ some b)
>>=-eq-some none f e = cc
>>=-eq-some (some x) f e = (x, refl, e)

pub walk_to_leaf-Walk :
    (words : Memory) (r v : ℕ) {q : ℕ} → walk_to_leaf words r v ≡ some q → Walk words r v q
unfolding walk_to_leaf
walk_to_leaf-Walk words r v {q} e =
    let (t1, s0, e1) = >>=-eq-some (walk_level words r (index v 0)) _ e in
    let (t2, s1, s2) = >>=-eq-some (walk_level words t1 (index v 1)) _ e1 in
    record { table1 = t1; table2 = t2; step0 = s0; step1 = s1; step2 = s2 }

-- A step down leads to the place below.
walk_level-label :
    {m : Machine} {label : Labels} (p i q : ℕ) (place : Place)
    → IsTree m label
    → label p ≡ some place
    → Upper place
    → i < 512
    → walk_level m.words p i ≡ some q
    → label q ≡ some (i ∷ place)
unfolding walk_level
walk_level-label {m} {label} p i q place tree at up h w =
    elim (Bool-cases (present (m.words (slot p i)) == 0)) [
      | inl absent ↦ absurd (ground arith)
      | inr here ↦
          let there : q ≡ target (m.words (slot p i)) = ground arith in
          ap label there ∙ tree.child p i place at up h (ground arith)
    ]

-- The place of the last table of an address.
abbrev pub leaf_place : ℕ → Place
leaf_place v = index v 2 ∷ index v 1 ∷ index v 0 ∷ []

module _ {m : Machine} {label : Labels} {r v q : ℕ} (tree : IsTree m label) (at : label r ≡ some [])
    (w : Walk m.words r v q) where
  label1 : label w.table1 ≡ some (index v 0 ∷ [])
  label1 = walk_level-label r (index v 0) w.table1 [] tree at (omega arith) (index-lt v 0) w.step0

  label2 : label w.table2 ≡ some (index v 1 ∷ index v 0 ∷ [])
  label2 =
      walk_level-label w.table1 (index v 1) w.table2 (index v 0 ∷ []) tree label1 (omega arith)
        (index-lt v 1) w.step1

  pub label_leaf : label q ≡ some (leaf_place v)
  label_leaf =
      walk_level-label w.table2 (index v 2) q (index v 1 ∷ index v 0 ∷ []) tree label2 (omega arith)
        (index-lt v 2) w.step2

  -- What keeps the steps of walks keeps whole walks.
  pub keeps_Walk : (m' : Machine) → KeepsWalks m m' label → Walk m'.words r v q
  keeps_Walk m' keeps = record {
    table1 = w.table1;
    table2 = w.table2;
    step0 = keeps r (index v 0) w.table1 [] at (omega arith) (index-lt v 0) w.step0;
    step1 =
        keeps w.table1 (index v 1) w.table2 (index v 0 ∷ []) label1 (omega arith) (index-lt v 1)
          w.step1;
    step2 =
        keeps w.table2 (index v 2) q (index v 1 ∷ index v 0 ∷ []) label2 (omega arith)
          (index-lt v 2) w.step2;
  }
