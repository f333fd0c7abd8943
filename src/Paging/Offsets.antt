-- ===== src/Paging/Offsets.antt =====
-- The translation of the addresses of one page by `walkTable` of src/mm/npaging.cpp.
use littlevisor.Base.{ℕ, ◌+◌, ◌%◌, ◌^◌, ◌<◌, ◌≡◌, ap, ◌∙◌, some, arith}
use littlevisor.Paging.{Machine, slot, target, index, root, walk_level, walk_to_leaf, walk_table}
use littlevisor.Paging.Entry.{target-eq}
use littlevisor.Paging.Pages.{page_number, index-same}
use littlevisor.Paging.Walk.{Walk, walk_to_leaf-Walk}
use littlevisor.Paging.Translate.{walk_table-leaf}

module _ (m : Machine) (cr3 v w leaf : ℕ) (same : page_number w ≡ page_number v) where
  Walk-same : Walk m.words (root m cr3) v leaf → Walk m.words (root m cr3) w leaf
  Walk-same walk = record {
    table1 = walk.table1;
    table2 = walk.table2;
    step0 = ap (walk_level m.words (root m cr3)) (index-same w v 0 (omega arith) same) ∙ walk.step0;
    step1 = ap (walk_level m.words walk.table1) (index-same w v 1 (omega arith) same) ∙ walk.step1;
    step2 = ap (walk_level m.words walk.table2) (index-same w v 2 (omega arith) same) ∙ walk.step2;
  }

-- An address further in the page is translated as far behind.
pub walk_table-add :
    (m : Machine) (cr3 v i leaf : ℕ)
    → ((a : ℕ) → m.words a < 2 ^ 64)
    → walk_to_leaf m.words (root m cr3) v ≡ some leaf
    → v % 0x1000 + i < 0x1000
    → walk_table m (v + i) cr3 ≡ walk_table m v cr3 + i
walk_table-add m cr3 v i leaf words reaches inside =
    let same : page_number (v + i) ≡ page_number v = omega (arith, inside) in
    let walk = walk_to_leaf-Walk m.words (root m cr3) v reaches in
    let here = walk_table-leaf m v cr3 leaf walk in
    let there = walk_table-leaf m (v + i) cr3 leaf (Walk-same m cr3 v (v + i) leaf same walk) in
    let entry = m.words (slot leaf (index v 3)) in
    let one : target (m.words (slot leaf (index (v + i) 3))) ≡ target entry =
      ap (λ (k : ℕ). target (m.words (slot leaf k))) (index-same (v + i) v 3 (omega arith) same) in
    omega (
      arith,
      here,
      there,
      one,
      target-eq entry (words (slot leaf (index v 3))),
      words (slot leaf (index v 3)),
      inside,
    )
