-- ===== src/Paging/Tree/Link.antt =====
-- The round that links a new table into the tree.
use mathlib.Core.Path.{subst}
use mathlib.Core.Path.{ap₂}
use native.Mathlib.Decide.{ℕ_discrete}
use littlevisor.Base.{
  ℕ, ◌*◌, ◌/◌, ◌^◌, ◌<◌, bit_or, ◌≡◌, refl, sym, ap, ◌∙◌, ◌≢◌, inl, inr, true, none, some, ◌∷◌,
  ◌==◌, if◌then◌else◌, arith, Bool-cases, ==_iff,
}
use littlevisor.Bits.Fields.{bit_or-lt}
use littlevisor.Common.{Memory, store}
use littlevisor.Pmm.{Pmm, kpalloc}
use littlevisor.Pmm.Bitmap.{free, IsValid}
use littlevisor.Pmm.Alloc.{kpalloc-Taken}
use littlevisor.Paging.{Machine, slot, target, present, zero_page, add_table, map_level, walk_level}
use littlevisor.Paging.Entry.{
  PageAddress, present-bit_or, target_page, slot-injective, zero_page_self, zero_page-ne,
  present-eq,
}
use littlevisor.Paging.Tree.{Place, Labels, Upper, IsTree, Extends, Private, Private-slot}
use littlevisor.Paging.Tree.Level.{
  IsFlags, Step, Outcome, walk_level-target, walk_level-same, places_differ, slot_other,
  keep_table-Step,
}

module _ {m : Machine} {label : Labels} {place : Place} (tree : IsTree m label) (t i flags : ℕ)
    (at : label t ≡ some place) (upper : Upper place) (inside : i < 512) (ok : IsFlags flags) where
  -- The words after a new table is linked in.
  module _ (new_page : ℕ) (fresh : label new_page ≡ none) (aligned : PageAddress new_page) where
    linked : Memory
    linked = store (zero_page m.words new_page) (slot t i) (bit_or new_page flags)

    link : linked (slot t i) ≡ bit_or new_page flags
    unfolding linked
    link = ground arith

    link_target : target (linked (slot t i)) ≡ new_page
    link_target = ap target link ∙ target_page new_page flags aligned.0 aligned.1 ok.small

    link_present : present (linked (slot t i)) ≢ 0
    link_present z = omega (arith, ap present link, z, present-bit_or new_page flags, ok.on)

    not_new : (p : ℕ) (other : Place) → label p ≡ some other → p ≢ new_page
    not_new p other e same = cc (ap label same)

    -- Of the old tables only one word changes.
    linked-old :
        (p j : ℕ) (other : Place)
        → label p ≡ some other
        → j < 512
        → slot p j ≢ slot t i
        → linked (slot p j) ≡ m.words (slot p j)
    unfolding linked
    linked-old p j other e h ne = ground (
      arith,
      zero_page-ne m.words new_page p j aligned (tree.page p other e) h
          (λ z. not_new p other e (sym z)),
    )

    linked-Private :
        (q j : ℕ)
        → Private m label q
        → q ≢ new_page
        → j < 512
        → linked (slot q j) ≡ m.words (slot q j)
    unfolding linked
    linked-Private q j own ne h =
        let other = Private-slot m label q t j i place own (tree.page t place at) at h inside in
        ground (arith, zero_page-ne m.words new_page q j aligned own.0 h (λ z. ne (sym z)))

    linked-new : (j : ℕ) → j < 512 → linked (slot new_page j) ≡ 0
    unfolding linked
    linked-new j h =
        let ne : slot new_page j ≢ slot t i = λ z.
          not_new t place at
            (sym (slot-injective new_page t j i aligned (tree.page t place at) h inside z).0) in
        ground (arith, zero_page_self m.words new_page j aligned h)

    linked-word : (a : ℕ) → linked a < 2 ^ 64
    unfolding linked zero_page
    linked-word a =
        ground (arith, tree.word a, bit_or-lt 64 new_page flags aligned.0 (omega (arith, ok.small)))

    label_new : Labels
    label_new p = if p == new_page then some (i ∷ place) else label p

    label_new_self : label_new new_page ≡ some (i ∷ place)
    unfolding label_new
    label_new_self = ground arith

    label_new-old : (p : ℕ) → p ≢ new_page → label_new p ≡ label p
    unfolding label_new
    label_new-old p ne = ground arith

    label_new-Extends : Extends label label_new
    label_new-Extends p other e = label_new-old p (not_new p other e) ∙ e

    keeps_child :
        (p j : ℕ) (other : Place)
        → label p ≡ some other
        → Upper other
        → j < 512
        → present (linked (slot p j)) ≢ 0
        → label_new (target (linked (slot p j))) ≡ some (j ∷ other)
    keeps_child p j other e up h on = elim (ℕ_discrete (slot p j) (slot t i)) [
      | yes same ↦
          let (here, there) = slot_other tree t i flags at upper inside ok p j other e h same in
          let place_same : place ≡ other = cc (ap label here) in
          ap (λ a. label_new (target (linked a))) same
          ∙ ap label_new link_target
          ∙ label_new_self
          ∙ ap₂ (λ a b. some (a ∷ b)) (sym there) place_same
      | no other_slot ↦
          let kept = linked-old p j other e h other_slot in
          ap (λ w. label_new (target w)) kept
          ∙ label_new-Extends (target (m.words (slot p j))) (j ∷ other)
              (tree.child p j other e up h (λ z. on (ap present kept ∙ z)))
    ]

    linked-IsTree :
        {pmm' : Pmm}
        → IsValid pmm'
        → ((n : ℕ)
            → free pmm'.bytes n ≡ true
            → (n * 0x1000 ≢ new_page) × (free m.pmm.bytes n ≡ true))
        → IsTree (record m { words = linked; pmm = pmm' }) label_new
    linked-IsTree v frees = record {
      valid = v;
      word = linked-word;
      page = λ p other e. elim (ℕ_discrete p new_page) [
        | yes same ↦ subst PageAddress (sym same) aligned
        | no ne ↦ tree.page p other (sym (label_new-old p ne) ∙ e)
      ];
      child = λ p j other e up h on. elim (ℕ_discrete p new_page) [
        | yes same ↦ absurd (
            on (
              ap (λ q. present (linked (slot q j))) same
              ∙ ap present (linked-new j h)
              ∙ present-eq 0))
        | no ne ↦ keeps_child p j other (sym (label_new-old p ne) ∙ e) up h on
      ];
      unlabelled =
          λ n e. label_new-old (n * 0x1000) (frees n e).0 ∙ tree.unlabelled n (frees n e).1;
    }

    linked-Step :
        {pmm' : Pmm}
        → present (m.words (slot t i)) ≡ 0
        → IsValid pmm'
        → ((n : ℕ)
            → free pmm'.bytes n ≡ true
            → (n * 0x1000 ≢ new_page) × (free m.pmm.bytes n ≡ true))
        → free m.pmm.bytes (new_page / 0x1000) ≡ true
        → Step m label t i place
            (target (linked (slot t i)))
            (record m { words = linked; pmm = pmm' })
    unfolding walk_level
    linked-Step {pmm' = pmm'} absent v frees was_free = record {
      label' = label_new;
      tree = linked-IsTree v frees;
      extends = label_new-Extends;
      arrives = ap label_new link_target ∙ label_new_self;
      walks = walk_level-target linked t i link_present;
      keeps = λ p j q other e up h w.
          let ne : slot p j ≢ slot t i = λ z. ground (arith, ap m.words z) in
          let kept = linked-old p j other e h ne in
          walk_level-same m.words linked p j (ap present kept) (ap target kept) ∙ w;
      leaves = λ p j other e leaf h. linked-old p j other e h (λ s.
          places_differ label t p place other at e upper leaf
            (sym (slot_other tree t i flags at upper inside ok p j other e h s).0));
      frames = λ q own.
          let ne : q ≢ new_page = λ same. cc (ap (λ a. free m.pmm.bytes (a / 0x1000)) same) in
          (
            (
              own.0,
              label_new-old q ne ∙ own.1,
              elim (Bool-cases (free pmm'.bytes (q / 0x1000))) [
                | inl now ↦ cc (frees (q / 0x1000) now).1
                | inr taken ↦ taken
              ],
            ),
            λ j h. linked-Private q j own ne h,
          );
      cr3 = refl;
    }

  -- A round at a table without the entry.
  add_table-Step :
      present (m.words (slot t i)) ≡ 0 → Outcome m label t i place (add_table m t i flags)
  unfolding add_table linked
  add_table-Step absent = elim (Bool-cases ((kpalloc m.pmm).0 == 0)) [
    | inl zero_page ↦ rw zero_page tt
    | inr got ↦ rw got (elim (kpalloc-Taken m.pmm tree.valid) [
      | inl taken ↦
          linked-Step (kpalloc m.pmm).0
            (ap label taken.at ∙ tree.unlabelled taken.page taken.was_free)
            (omega (arith, taken.at, taken.covered, tree.valid.small), omega (arith, taken.at))
            absent taken.valid
            (λ n e. (
              (λ same.
                  let here : n ≡ taken.page = omega (arith, same, taken.at) in
                  ground (arith, taken.marked n, here)),
              ground (arith, taken.marked n, e),
            ))
            (let here : (kpalloc m.pmm).0 / 0x1000 ≡ taken.page = omega (arith, taken.at) in
              ap (free m.pmm.bytes) here ∙ taken.was_free)
      | inr (e, _) ↦ absurd (ground (arith, ap (λ (r : ℕ × Pmm). r.0) e))
    ])
  ]

  pub map_level-Step : Outcome m label t i place (map_level m t i flags)
  unfolding map_level
  map_level-Step = elim (Bool-cases (present (m.words (slot t i)) == 0)) [
    | inl absent ↦ rw absent (add_table-Step ((==_iff _ 0).0 absent))
    | inr here ↦ rw here (keep_table-Step tree t i flags at upper inside ok (ground arith))
  ]
