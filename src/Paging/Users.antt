-- ===== src/Paging/Users.antt =====
-- The page map of a new program: the upper half is the host's.
use mathlib.Core.Path.{subst}
use littlevisor.Base.{
  ℕ, ◌+◌, ◌-◌, ◌*◌, ◌%◌, ◌^◌, ◌≤◌, ◌<◌, ◌≡◌, refl, sym, ap, ◌∙◌, ◌≢◌, none, some, [], arith,
}
use littlevisor.Common.{Memory}
use littlevisor.Common.{to_higher_half}
use littlevisor.Paging.{
  Machine, slot, target, present, index, root, walk_level, walk_to_leaf, walk_table,
}
use littlevisor.Paging.Entry.{PageAddress, index-lt}
use littlevisor.Paging.Tree.{Labels, Place, IsTree, KeepsWalks}
use littlevisor.Paging.Tree.Level.{walk_level-same}
use littlevisor.Paging.Walk.{
  Walk, walk_to_leaf-Walk, Walk-walk_to_leaf, keeps_Walk, label_leaf, leaf_place,
}
use littlevisor.Paging.Translate.{walk_table-leaf}
use littlevisor.Paging.Kernel.{Vmm, init_user_mappings}

-- A step of a walk depends on the entry that it reads.
walk_level-entry :
    (words words' : Memory) (p p' i : ℕ)
    → words' (slot p' i) ≡ words (slot p i)
    → walk_level words' p' i ≡ walk_level words p i
unfolding walk_level
walk_level-entry words words' p p' i e = rw e refl

-- The upper half of a table.
slot_upper : (p j : ℕ) → PageAddress p → 256 ≤ j → j < 512 → slot p j ≡ slot p 256 + 8 * (j - 256)
unfolding slot to_higher_half
slot_upper p j at lo hi = omega (arith, at, lo, hi)

slot_near :
    (p q j : ℕ)
    → PageAddress p
    → PageAddress q
    → j < 512
    → slot p 256 ≤ slot q j
    → slot q j - slot p 256 < 256 * 8
    → q ≡ p
unfolding slot to_higher_half
slot_near p q j hp hq h above inside = omega (arith, hp, hq, h, above, inside)

module _ (vmm : Vmm) (m : Machine) (memmap : ℕ) (host : PageAddress vmm.host_cr3)
    (own : PageAddress memmap) where
  abbrev pub mapped : Machine
  mapped = init_user_mappings vmm m memmap

  -- The upper half is copied.
  pub copied :
      (j : ℕ) → 256 ≤ j → j < 512 → mapped.words (slot memmap j) ≡ m.words (slot vmm.host_cr3 j)
  unfolding init_user_mappings
  copied j lo hi =
      let offset : slot memmap 256 + 8 * (j - 256) - slot memmap 256 ≡ 8 * (j - 256) =
        omega arith in
      rw (slot_upper memmap j own lo hi, offset, slot_upper vmm.host_cr3 j host lo hi)
        (ground (arith, lo, hi))

  -- The words of other pages stay.
  kept :
      (q j : ℕ)
      → PageAddress q
      → q ≢ memmap
      → j < 512
      → mapped.words (slot q j) ≡ m.words (slot q j)
  unfolding init_user_mappings
  kept q j at ne h = let near = slot_near memmap q j own at h in ground (arith, near, ne)

  module _ {label : Labels} (tree : IsTree m label) (fresh : label memmap ≡ none) where
    pub kept_table :
        (q j : ℕ) (place : Place)
        → label q ≡ some place
        → j < 512
        → mapped.words (slot q j) ≡ m.words (slot q j)
    kept_table q j place e h = kept q j (tree.page q place e) (λ same. cc (fresh, ap label same)) h

    keeps : KeepsWalks m mapped label
    keeps p j q place e up h w =
        let same = kept_table p j place e h in
        walk_level-same m.words mapped.words p j (ap present same) (ap target same) ∙ w

    -- A walk in the upper half goes the host's way.
    upper_Walk :
        {v q : ℕ}
        → label vmm.host_cr3 ≡ some []
        → 256 ≤ index v 0
        → Walk m.words vmm.host_cr3 v q
        → Walk mapped.words memmap v q
    upper_Walk {v} at upper w =
        let kept_walk = keeps_Walk tree at w mapped keeps in
        record {
          table1 = kept_walk.table1;
          table2 = kept_walk.table2;
          step0 =
              walk_level-entry mapped.words mapped.words vmm.host_cr3 memmap (index v 0) (
                copied (index v 0) upper (index-lt v 0)
                ∙ sym (kept_table vmm.host_cr3 (index v 0) [] at (index-lt v 0)))
              ∙ kept_walk.step0;
          step1 = kept_walk.step1;
          step2 = kept_walk.step2;
        }

    root_own : (n : Machine) (cr3 : ℕ) → cr3 ≢ 0 → root n cr3 ≡ cr3
    root_own n cr3 ne = ground (arith, ne)

    -- On tables that form a tree, and for a page that is no table yet, `init_user_mappings` makes the
    -- page show every address of the upper half that the host's page map reaches, and where the host
    -- has it.
    pub init_user_mappings_lem :
        (v : ℕ) {q : ℕ}
        → vmm.host_cr3 ≢ 0
        → memmap ≢ 0
        → label vmm.host_cr3 ≡ some []
        → walk_to_leaf m.words vmm.host_cr3 v ≡ some q
        → 256 ≤ index v 0
        → (walk_to_leaf mapped.words memmap v ≡ some q)
          × (walk_table mapped v memmap ≡ walk_table m v vmm.host_cr3)
    init_user_mappings_lem v {q} host_ne own_ne at reaches upper =
        let w = walk_to_leaf-Walk m.words vmm.host_cr3 v reaches in
        let now = upper_Walk at upper w in
        let leaf = label_leaf tree at w in
        let entry = kept_table q (index v 3) (leaf_place v) leaf (index-lt v 3) in
        (
          Walk-walk_to_leaf now,
          walk_table-leaf mapped v memmap q
                (subst (λ r. Walk mapped.words r v q) (sym (root_own mapped memmap own_ne)) now)
              ∙ ap (λ e. (target e + v % 0x1000) % 2 ^ 64) entry
              ∙ sym (
                  walk_table-leaf m v vmm.host_cr3 q
                    (subst (λ r. Walk m.words r v q) (sym (root_own m vmm.host_cr3 host_ne)) w)),
        )
