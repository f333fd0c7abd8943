-- ===== src/Paging/Tree/Level.antt =====
-- One round of the loop of `mapPage` keeps the tree, and leaves an entry for the walk to follow.
use mathlib.Core.Path.{subst}
use littlevisor.Base.{
  ℕ, ◌^◌, ◌<◌, bit_or, ◌≡◌, refl, sym, ap, ◌∙◌, ◌≢◌, inl, inr, Option, none, some, ◌∷◌, ◌==◌, arith,
  Bool-cases,
}
use littlevisor.Bits.Fields.{bit_or-lt}
use littlevisor.Common.{Memory, store, getbit_val}
use littlevisor.Paging.{Machine, slot, target, present, keep_table, walk_level}
use littlevisor.Paging.Entry.{target-bit_or, present-bit_or, slot-injective, present-eq}
use littlevisor.Paging.Tree.{
  Place, Labels, Upper, IsTree, Extends, KeepsWalks, KeepsLeaves, KeepsPrivate, Private-slot,
}

-- Flags that a mapping may carry: below the address bits, and present.
pub record IsFlags (flags : ℕ) : Type 0 where
  pub small : flags < 2 ^ 12
  pub on : present flags ≡ 1

-- What a round does, from table `t` with index `i` to table `t'`.
pub record Step (m : Machine) (label : Labels) (t i : ℕ) (place : Place) (t' : ℕ) (m' : Machine)
    : Type 0 where
  pub label' : Labels
  pub tree : IsTree m' label'
  pub extends : Extends label label'
  pub arrives : label' t' ≡ some (i ∷ place)
  pub walks : walk_level m'.words t i ≡ some t'
  pub keeps : KeepsWalks m m' label
  pub leaves : KeepsLeaves m m' label
  pub frames : KeepsPrivate m label m' label'
  pub cr3 : m'.cr3_val ≡ m.cr3_val

-- The outcome of a round: a step, or a panic for want of a page.
abbrev pub Outcome : Machine → Labels → ℕ → ℕ → Place → Option (ℕ × Machine) → Type 0
Outcome m label t i place none = Unit
Outcome m label t i place (some (t', m')) = Step m label t i place t' m'

-- A walk follows a present entry.
pub walk_level-target :
    (words : Memory) (t i : ℕ)
    → present (words (slot t i)) ≢ 0
    → walk_level words t i ≡ some (target (words (slot t i)))
unfolding walk_level
walk_level-target words t i h = ground arith

-- The walk depends on the target and presence of entries only.
pub walk_level-same :
    (words words' : Memory) (p j : ℕ)
    → present (words' (slot p j)) ≡ present (words (slot p j))
    → target (words' (slot p j)) ≡ target (words (slot p j))
    → walk_level words' p j ≡ walk_level words p j
unfolding walk_level
walk_level-same words words' p j e f = rw (e, f) refl

-- Tables at different places are different pages.
pub places_differ :
    (label : Labels) (p q : ℕ) (a b : Place)
    → label p ≡ some a
    → label q ≡ some b
    → Upper a
    → ¬ Upper b
    → p ≢ q
places_differ label p q a b ha hb up leaf e =
    let same : a ≡ b = cc (ap label e) in leaf (subst Upper same up)

module _ {m : Machine} {label : Labels} {place : Place} (tree : IsTree m label) (t i flags : ℕ)
    (at : label t ≡ some place) (upper : Upper place) (inside : i < 512) (ok : IsFlags flags) where
  pub slot_other :
      (p j : ℕ) (other : Place)
      → label p ≡ some other
      → j < 512
      → slot p j ≡ slot t i
      → (p ≡ t) × (j ≡ i)
  slot_other p j other e h =
      slot-injective p t j i (tree.page p other e) (tree.page t place at) h inside

  -- An entry that only gained flags.
  module _ (words' : Memory) (same_present : (a : ℕ) → present (words' a) ≡ present (m.words a))
      (same_target : (a : ℕ) → target (words' a) ≡ target (m.words a))
      (elsewhere : (a : ℕ) → a ≢ slot t i → words' a ≡ m.words a)
      (word : (a : ℕ) → words' a < 2 ^ 64) where
    flags-Step :
        present (m.words (slot t i)) ≢ 0
        → Step m label t i place (target (words' (slot t i))) (record m { words = words' })
    flags-Step here = record {
      label' = label;
      tree = record {
        valid = tree.valid;
        word = word;
        page = tree.page;
        child = λ p j other e up h on.
            ap label (same_target (slot p j))
            ∙ tree.child p j other e up h (λ z. on (same_present (slot p j) ∙ z));
        unlabelled = tree.unlabelled;
      };
      extends = λ p other e. e;
      arrives = ap label (same_target (slot t i)) ∙ tree.child t i place at upper inside here;
      walks = walk_level-target words' t i (λ z. here (sym (same_present (slot t i)) ∙ z));
      keeps = λ p j q other e up h w.
          walk_level-same m.words words' p j (same_present (slot p j)) (same_target (slot p j)) ∙ w;
      leaves = λ p j other e leaf h. elsewhere (slot p j) (λ s.
          places_differ label t p place other at e upper leaf (sym (slot_other p j other e h s).0));
      frames = λ q own. (
        own,
        λ j h.
            elsewhere (slot q j)
              (Private-slot m label q t j i place own (tree.page t place at) at h inside),
      );
      cr3 = refl;
    }

  -- A round at a table that has the entry.
  pub keep_table-Step :
      present (m.words (slot t i)) ≢ 0 → Outcome m label t i place (keep_table m t i flags)
  unfolding keep_table
  keep_table-Step here = elim (Bool-cases (getbit_val flags 2 == 1)) [
    | inl user ↦ rw user (
        flags-Step (store m.words (slot t i) entry)
          (λ a. ground (arith, shown, ap m.words {x = a} {y = slot t i}))
          (λ a. ground (arith, aims, ap m.words {x = a} {y = slot t i})) (λ a ne. ground arith)
          (λ a. ground (arith, tree.word a, fits)) here)
    | inr kernel ↦
        rw kernel (flags-Step m.words (λ a. refl) (λ a. refl) (λ a ne. refl) tree.word here)
  ]
    where
      entry : ℕ
      entry = bit_or (m.words (slot t i)) flags

      fits : entry < 2 ^ 64
      fits =
          bit_or-lt 64 (m.words (slot t i)) flags (tree.word (slot t i)) (omega (arith, ok.small))

      shown : present entry ≡ present (m.words (slot t i))
      shown = omega (
        arith,
        present-bit_or (m.words (slot t i)) flags,
        ok.on,
        present-eq (m.words (slot t i)),
        here,
      )

      aims : target entry ≡ target (m.words (slot t i))
      aims = target-bit_or (m.words (slot t i)) flags (tree.word (slot t i)) ok.small
