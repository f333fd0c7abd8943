-- ===== src/Paging/Frames.antt =====
-- Pages in use, beside the page tables: a new one from the allocator, and writes into one.
use littlevisor.Base.{
  ℕ, ◌+◌, ◌-◌, ◌/◌, ◌%◌, ◌^◌, ◌≤◌, ◌<◌, ◌≡◌, refl, sym, ap, ◌∙◌, ◌≢◌, inl, inr, true, false, ◌&&◌,
  some, [], ltb, leb, ◌==◌, if◌then◌else◌, arith,
}
use littlevisor.Common.{Memory}
use littlevisor.Common.Bitops.{Bytes}
use littlevisor.Pmm.{Pmm, kpalloc}
use littlevisor.Pmm.Bitmap.{free}
use littlevisor.Pmm.Alloc.{kpalloc-Taken}
use littlevisor.Common.{to_higher_half}
use littlevisor.Paging.{Machine, slot, target, present, index, root, walk_to_leaf, walk_table}
use littlevisor.Paging.Bytes.{byte_at, copy_bytes, byte_at-copy_bytes, copy_bytes-lt}
use littlevisor.Paging.Entry.{PageAddress, index-lt}
use littlevisor.Paging.Tree.{Labels, Place, IsTree, Private, KeepsPrivate, KeepsWalks}
use littlevisor.Paging.Tree.Level.{walk_level-same}
use littlevisor.Paging.Walk.{
  Walk-walk_to_leaf, walk_to_leaf-Walk, keeps_Walk, label_leaf, leaf_place,
}
use littlevisor.Paging.Map.{Grown}
use littlevisor.Paging.Translate.{walk_table-leaf}

-- The memory after `kpalloc`.
abbrev pub without_page : Machine → Machine
without_page m = record m { pmm = (kpalloc m.pmm).1 }

pub walk_table-without_page :
    (m : Machine) (v cr3 : ℕ) → walk_table (without_page m) v cr3 ≡ walk_table m v cr3
unfolding walk_table
walk_table-without_page m v cr3 = refl

-- What `kpalloc` does beside the page tables: the new page is in use for nothing else.
pub record Got (m : Machine) (label : Labels) (page : ℕ) : Type 0 where
  pub tree : IsTree (without_page m) label
  pub own : Private (without_page m) label page
  pub was_free : free m.pmm.bytes (page / 0x1000) ≡ true
  pub small : page < 2 ^ 44
  pub frames : KeepsPrivate m label (without_page m) label

pub kpalloc-Got :
    {m : Machine} {label : Labels}
    → IsTree m label
    → ((kpalloc m.pmm).0 == 0) ≡ false
    → Got m label (kpalloc m.pmm).0
kpalloc-Got {m} {label} tree got = elim (kpalloc-Taken m.pmm tree.valid) [
  | inl taken ↦
      let page = (kpalloc m.pmm).0 in
      let number : page / 0x1000 ≡ taken.page = omega (arith, taken.at) in
      record {
        tree = record {
          valid = taken.valid;
          word = tree.word;
          page = tree.page;
          child = tree.child;
          unlabelled = λ n e. tree.unlabelled n (ground (arith, taken.marked n, e));
        };
        own = (
          (omega (arith, taken.at, taken.covered, tree.valid.small), omega (arith, taken.at)),
          ap label taken.at ∙ tree.unlabelled taken.page taken.was_free,
          ground (arith, number, taken.marked (page / 0x1000)),
        );
        was_free = ap (free m.pmm.bytes) number ∙ taken.was_free;
        small = omega (arith, taken.at, taken.covered, tree.valid.small);
        frames = λ q own.
            ((own.0, own.1, ground (arith, taken.marked (q / 0x1000), own.2)), λ j h. refl);
      }
  | inr (e, _) ↦ absurd (ground (arith, ap (λ (r : ℕ × Pmm). r.0) e))
]

pub Got-Grown :
    {m m' : Machine} {label : Labels} {page : ℕ}
    → Got m label page
    → Grown (without_page m) label m'
    → Grown m label m'
Got-Grown got g = record {
  label' = g.label';
  tree = g.tree;
  extends = g.extends;
  keeps = g.keeps;
  frames = λ q mine.
      let (mine1, same1) = got.frames q mine in
      let (mine2, same2) = g.frames q mine1 in (mine2, λ j h. same2 j h ∙ same1 j h);
  cr3 = g.cr3;
}

-- The bytes of a page are in its words.
pub byte_at-same :
    (words words' : Memory) (page d : ℕ)
    → PageAddress page
    → ((j : ℕ) → j < 512 → words' (slot page j) ≡ words (slot page j))
    → d < 0x1000
    → byte_at words' (to_higher_half (page + d)) ≡ byte_at words (to_higher_half (page + d))
unfolding byte_at to_higher_half slot
byte_at-same words words' page d at same h =
    let a = to_higher_half (page + d) in
    let word : a - a % 8 ≡ slot page (d / 8) = omega (arith, at) in
    rw word (ap (λ (w : ℕ). w / 256 ^ (a % 8) % 256) (same (d / 8) (omega (arith, h))))

-- A word that a write into one page touches is a word of that page.
slot_touched :
    (page q j skip size : ℕ)
    → PageAddress page
    → PageAddress q
    → j < 512
    → skip < 0x1000
    → skip + size ≤ 0x1000
    → (to_higher_half page + skip) % 2 ^ 64 < slot q j + 8
    → slot q j < (to_higher_half page + skip) % 2 ^ 64 + size
    → q ≡ page
unfolding slot to_higher_half
slot_touched page q j skip size hp hq h starts inside lo hi = omega (arith, hp, hq)

-- Bytes that are written into a page that is in use.
module _ {m : Machine} {label : Labels} (tree : IsTree m label) {page : ℕ}
    (own : Private m label page) (skip size : ℕ) (starts : skip < 0x1000)
    (inside : skip + size ≤ 0x1000) {src : Memory} (bytes : Bytes src) where
  abbrev pub filled : Machine
  filled = record m { words = copy_bytes m.words ((to_higher_half page + skip) % 2 ^ 64) src size }

  -- The words of other pages stay.
  pub filled-other :
      (q j : ℕ) → PageAddress q → q ≢ page → j < 512 → filled.words (slot q j) ≡ m.words (slot q j)
  unfolding copy_bytes
  filled-other q j at ne h =
      let touched = slot_touched page q j skip size own.0 at h starts inside in
      ground (arith, touched, ne)

  pub filled-table :
      (q j : ℕ) (place : Place)
      → label q ≡ some place
      → j < 512
      → filled.words (slot q j) ≡ m.words (slot q j)
  filled-table q j place e h =
      filled-other q j (tree.page q place e) (λ same. cc (own.1, ap label same)) h

  pub filled-IsTree : IsTree filled label
  filled-IsTree = record {
    valid = tree.valid;
    word = copy_bytes-lt ((to_higher_half page + skip) % 2 ^ 64) size bytes tree.word;
    page = tree.page;
    child = λ p i place e up h on.
        let kept = filled-table p i place e h in
        ap (λ w. label (target w)) kept
        ∙ tree.child p i place e up h (λ z. on (ap present kept ∙ z));
    unlabelled = tree.unlabelled;
  }

  pub filled-KeepsWalks : KeepsWalks m filled label
  filled-KeepsWalks p i q place e up h w =
      let kept = filled-table p i place e h in
      walk_level-same m.words filled.words p i (ap present kept) (ap target kept) ∙ w

  -- The translations stay.
  pub walk_table-filled :
      (cr3 v : ℕ) {q : ℕ}
      → label (root m cr3) ≡ some []
      → walk_to_leaf m.words (root m cr3) v ≡ some q
      → (walk_to_leaf filled.words (root m cr3) v ≡ some q)
        × (walk_table filled v cr3 ≡ walk_table m v cr3)
  walk_table-filled cr3 v {q} at e =
      let before = walk_to_leaf-Walk m.words (root m cr3) v e in
      let now = keeps_Walk tree at before filled filled-KeepsWalks in
      let leaf = label_leaf tree at before in
      (
        Walk-walk_to_leaf now,
        walk_table-leaf filled v cr3 q now
            ∙ ap (λ w. (target w + v % 0x1000) % 2 ^ 64)
                (filled-table q (index v 3) (leaf_place v) leaf (index-lt v 3))
            ∙ sym (walk_table-leaf m v cr3 q before),
      )

  -- The bytes of the page.
  pub byte_at-filled :
      (d : ℕ)
      → d < 0x1000
      → byte_at filled.words (to_higher_half (page + d)) ≡ (
          if leb skip d && ltb d (skip + size)
          then src (d - skip)
          else byte_at m.words (to_higher_half (page + d)))
  unfolding to_higher_half
  byte_at-filled d h =
      let base = to_higher_half page in
      let at : to_higher_half (page + d) ≡ base + d = omega (arith, own.0) in
      let dest : (base + skip) % 2 ^ 64 ≡ base + skip = omega (arith, own.0, starts) in
      let from : base + d - (base + skip) ≡ d - skip = omega arith in
      byte_at-copy_bytes ((base + skip) % 2 ^ 64) size bytes tree.word (to_higher_half (page + d))
      ∙ rw (at, dest, from) (ground arith)
