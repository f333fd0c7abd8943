-- ===== src/Paging/Programs.antt =====
-- The page map of a new program is a tree beside the host's.
use native.Mathlib.Decide.{ℕ_discrete}
use mathlib.Core.Path.{subst}
use littlevisor.Base.{
  ℕ, ◌+◌, ◌-◌, ◌*◌, ◌/◌, ◌^◌, ◌<◌, ◌≡◌, sym, ap, ◌∙◌, ◌≢◌, inl, inr, none, some, [], ◌∷◌, ltb, ◌==◌,
  if◌then◌else◌, arith, Bool-cases, ltb→lt, ==_iff,
}
use littlevisor.Pmm.Bitmap.{free}
use littlevisor.Common.{to_higher_half}
use littlevisor.Paging.{Machine, slot, target, present}
use littlevisor.Paging.Entry.{PageAddress, present-eq}
use littlevisor.Paging.Tree.{Labels, Place, IsTree, Private}
use littlevisor.Paging.Kernel.{Vmm, init_user_mappings}
use littlevisor.Paging.Users.{mapped, copied, kept_table}

-- The tables, with one more root.
abbrev pub with_root : Labels → ℕ → Labels
with_root label page p = if p == page then some [] else label p

lower_slot : (p j : ℕ) → PageAddress p → j < 256 → slot p j < slot p 256
unfolding slot to_higher_half
lower_slot p j at h = omega (arith, at, h)

module _ (vmm : Vmm) {m : Machine} {label : Labels} (tree : IsTree m label) (memmap : ℕ)
    (own : Private m label memmap) (host : label vmm.host_cr3 ≡ some []) where
  abbrev pub made : Machine
  made = mapped vmm m memmap (tree.page vmm.host_cr3 [] host) own.0

  made-word : (a : ℕ) → made.words a < 2 ^ 64
  unfolding init_user_mappings
  made-word a =
      ground (arith, tree.word a, tree.word (slot vmm.host_cr3 256 + (a - slot memmap 256)))

  lower : (j : ℕ) → j < 256 → made.words (slot memmap j) ≡ m.words (slot memmap j)
  unfolding init_user_mappings
  lower j h = ground (arith, lower_slot memmap j own.0 h)

  with_root-old :
      (p : ℕ) (place : Place) → label p ≡ some place → with_root label memmap p ≡ some place
  with_root-old p place e = elim (Bool-cases (p == memmap)) [
    | inl same ↦ cc (sym (ap label ((==_iff p memmap).0 same) ∙ own.1) ∙ e)
    | inr other ↦ rw other e
  ]

  old_label :
      (p : ℕ) (place : Place)
      → p ≢ memmap
      → with_root label memmap p ≡ some place
      → label p ≡ some place
  old_label p place ne e = ground (arith, ne, e)

  root_self : with_root label memmap memmap ≡ some []
  root_self = ground arith

  root_child :
      (j : ℕ)
      → j < 512
      → ((i : ℕ) → i < 256 → m.words (slot memmap i) ≡ 0)
      → present (made.words (slot memmap j)) ≢ 0
      → with_root label memmap (target (made.words (slot memmap j))) ≡ some (j ∷ [])
  root_child j h clean on = elim (Bool-cases (ltb j 256)) [
    | inl low ↦
        let zero_entry = lower j (ltb→lt j 256 low) ∙ clean j (ltb→lt j 256 low) in
        absurd (on (ap present zero_entry ∙ present-eq 0))
    | inr high ↦
        let same = copied vmm m memmap (tree.page vmm.host_cr3 [] host) own.0 j (ground arith) h in
        ap (λ w. with_root label memmap (target w)) same
        ∙ with_root-old (target (m.words (slot vmm.host_cr3 j))) (j ∷ [])
            (tree.child vmm.host_cr3 j [] host (omega arith) h (λ z. on (ap present same ∙ z)))
  ]

  pub made-IsTree :
      ((j : ℕ) → j < 256 → m.words (slot memmap j) ≡ 0) → IsTree made (with_root label memmap)
  unfolding init_user_mappings
  made-IsTree clean = record {
    valid = tree.valid;
    word = made-word;
    page = λ p place e. elim (ℕ_discrete p memmap) [
      | yes same ↦ subst PageAddress (sym same) own.0
      | no ne ↦ tree.page p place (old_label p place ne e)
    ];
    child = λ p j place e up h on. elim (ℕ_discrete p memmap) [
      | yes same ↦
          let at_root : [] ≡ place =
            ap (λ o. elim o [ some x ↦ x | none ↦ [] ])
              (sym root_self ∙ ap (with_root label memmap) (sym same) ∙ e) in
          ap (λ q. with_root label memmap (target (made.words (slot q j)))) same
          ∙ root_child j h clean (λ z. on (ap (λ q. present (made.words (slot q j))) same ∙ z))
          ∙ ap (λ rest. some (j ∷ rest)) at_root
      | no ne ↦
          let old = old_label p place ne e in
          let kept =
            kept_table vmm m memmap (tree.page vmm.host_cr3 [] host) own.0 tree own.1 p j place old
              h in
          ap (λ w. with_root label memmap (target w)) kept
          ∙ with_root-old (target (m.words (slot p j))) (j ∷ place)
              (tree.child p j place old up h (λ z. on (ap present kept ∙ z)))
    ];
    unlabelled = λ n e.
        let ne : n * 0x1000 ≢ memmap = λ same.
          let here : memmap / 0x1000 ≡ n = omega (arith, same) in
          cc (own.2, e, ap (free m.pmm.bytes) here) in
        ground (arith, ne, tree.unlabelled n e);
  }
