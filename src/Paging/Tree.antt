-- ===== src/Paging/Tree.antt =====
-- The invariant of the page tables: they form trees whose tables lie outside the free pages.
pub mod Level
pub mod Link
use littlevisor.Base.{
  ℕ, zero, suc, ◌+◌, ◌-◌, ◌*◌, ◌/◌, ◌%◌, ◌^◌, ◌≤◌, ◌<◌, min, max, bit_and, bit_or, ◌≡◌, refl, sym,
  ap, fun_ext, ◌∙◌, ◌≢◌, ◌⊎◌, inl, inr, Bool, true, false, not, ◌&&◌, ◌||◌, Option, none, some,
  List, [], ◌∷◌, ◌++◌, length, get_or, get_elem?, set, length-set, get_or-set_self, get_or-set_ne,
  map, ltb, leb, ◌==◌, if◌then◌else◌, arith, Bool-cases, Option-cases, ltb→lt, lt→ltb, leb→le,
  ==_iff,
}
use littlevisor.Common.{Memory}
use littlevisor.Pmm.{Pmm}
use littlevisor.Pmm.Bitmap.{free, IsValid}
use littlevisor.Paging.{Machine, slot, target, present, walk_level}
use littlevisor.Paging.Entry.{PageAddress, slot-injective}

-- The place of a table: the indices that lead to it, the last one first. The root's is `[]`.
abbrev pub Place : Type 0
Place = List ℕ

-- Which pages are tables, and where.
abbrev pub Labels : Type 0
Labels = ℕ → Option Place

-- A table that points at other tables.
abbrev pub Upper : Place → Type 0
Upper place = length place < 3

pub record IsTree (m : Machine) (label : Labels) : Type 0 where
  pub valid : IsValid m.pmm
  pub word : (a : ℕ) → m.words a < 2 ^ 64
  pub page : (p : ℕ) (place : Place) → label p ≡ some place → PageAddress p
  pub child :
      (p i : ℕ) (place : Place)
      → label p ≡ some place
      → Upper place
      → i < 512
      → present (m.words (slot p i)) ≢ 0
      → label (target (m.words (slot p i))) ≡ some (i ∷ place)
  pub unlabelled : (n : ℕ) → free m.pmm.bytes n ≡ true → label (n * 0x1000) ≡ none

-- Tables stay where they are.
abbrev pub Extends : Labels → Labels → Type 0
Extends label label' = (p : ℕ) (place : Place) → label p ≡ some place → label' p ≡ some place

-- Every step that a walk could make it still makes.
abbrev pub KeepsWalks : Machine → Machine → Labels → Type 0
KeepsWalks m m' label =
    (p i q : ℕ) (place : Place)
    → label p ≡ some place
    → Upper place
    → i < 512
    → walk_level m.words p i ≡ some q
    → walk_level m'.words p i ≡ some q

-- The entries of the last tables are as they were.
abbrev pub KeepsLeaves : Machine → Machine → Labels → Type 0
KeepsLeaves m m' label =
    (p i : ℕ) (place : Place)
    → label p ≡ some place
    → ¬ Upper place
    → i < 512
    → m'.words (slot p i) ≡ m.words (slot p i)

-- A page that is in use for something else: it is neither free nor a table.
abbrev pub Private : Machine → Labels → ℕ → Type 0
Private m label q = PageAddress q × (label q ≡ none) × (free m.pmm.bytes (q / 0x1000) ≡ false)

-- Such pages stay in use, with the words that they hold.
abbrev pub KeepsPrivate : Machine → Labels → Machine → Labels → Type 0
KeepsPrivate m label m' label' =
    (q : ℕ)
    → Private m label q
    → Private m' label' q × ((j : ℕ) → j < 512 → m'.words (slot q j) ≡ m.words (slot q j))

-- A private page is no table, so its words are no entries.
pub Private-slot :
    (m : Machine) (label : Labels) (q t j i : ℕ) (place : Place)
    → Private m label q
    → PageAddress t
    → label t ≡ some place
    → j < 512
    → i < 512
    → slot q j ≢ slot t i
Private-slot m label q t j i place own page at h k same =
    let e = (slot-injective q t j i own.0 page h k same).0 in cc (ap label e)
