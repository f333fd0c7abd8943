-- ===== src/Paging/Translate.antt =====
-- The last write of `mapPage`, and what `walkTable` then answers.
use mathlib.Core.Path.{subst}
use littlevisor.Base.{
  ℕ, ◌+◌, ◌/◌, ◌%◌, ◌^◌, ◌<◌, bit_or, ◌≡◌, refl, sym, ap, ◌∙◌, ◌≢◌, some, [], arith,
}
use littlevisor.Bits.Fields.{bit_and-low, bit_or-lt}
use littlevisor.Common.{store}
use littlevisor.Paging.{
  Machine, slot, target, present, index, map_level, map_page, root, walk_to_leaf, walk_table,
}
use littlevisor.Paging.Entry.{PageAddress, target_page, slot-injective, index-lt, index-eq}
use littlevisor.Paging.Tree.{Place, Labels, Upper, IsTree, KeepsWalks, Private-slot}
use littlevisor.Paging.Tree.Level.{IsFlags, walk_level-same, places_differ}
use littlevisor.Paging.Walk.{
  Walk, walk_to_leaf-Walk, Walk-walk_to_leaf, >>=-eq-some, leaf_place, label_leaf, keeps_Walk,
}
use littlevisor.Paging.Map.{Grown, Reached, reach}

-- `table3->entries[indexes[3]] = phys_addr | flags`
abbrev set_leaf : Machine → ℕ → ℕ → ℕ → Machine
set_leaf m t3 i entry = record m { words = store m.words (slot t3 i) entry }

pub walk_table-leaf :
    (m : Machine) (v cr3 t3 : ℕ)
    → Walk m.words (root m cr3) v t3
    → walk_table m v cr3 ≡ (target (m.words (slot t3 (index v 3))) + v % 0x1000) % 2 ^ 64
unfolding walk_table
walk_table-leaf m v cr3 t3 w = rw (Walk-walk_to_leaf w, walk_table, bit_and-low 12 v) refl

leaf_not-Upper : (v : ℕ) → ¬ Upper (leaf_place v)
leaf_not-Upper v h = omega arith

module _ {m : Machine} {label : Labels} (tree : IsTree m label) (t3 v entry : ℕ)
    (at : label t3 ≡ some (leaf_place v)) (small : entry < 2 ^ 64) where
  abbrev after : Machine
  after = set_leaf m t3 (index v 3) entry

  Upper-slot :
      (p j : ℕ) (place : Place)
      → label p ≡ some place
      → Upper place
      → j < 512
      → slot p j ≢ slot t3 (index v 3)
  Upper-slot p j place e up h s =
      places_differ label p t3 place (leaf_place v) e at up (leaf_not-Upper v)
        (slot-injective p t3 j (index v 3) (tree.page p place e) (tree.page t3 (leaf_place v) at) h
          (index-lt v 3) s).0

  after-other : (a : ℕ) → a ≢ slot t3 (index v 3) → after.words a ≡ m.words a
  after-other a ne = ground arith

  after_self : after.words (slot t3 (index v 3)) ≡ entry
  after_self = ground arith

  after-KeepsWalks : KeepsWalks m after label
  after-KeepsWalks p j q place e up h w =
      let kept = after-other (slot p j) (Upper-slot p j place e up h) in
      walk_level-same m.words after.words p j (ap present kept) (ap target kept) ∙ w

  after-IsTree : IsTree after label
  after-IsTree = record {
    valid = tree.valid;
    word = λ a. ground (arith, tree.word a);
    page = tree.page;
    child = λ p j place e up h on.
        let kept = after-other (slot p j) (Upper-slot p j place e up h) in
        ap (λ w. label (target w)) kept
        ∙ tree.child p j place e up h (λ z. on (ap present kept ∙ z));
    unlabelled = tree.unlabelled;
  }

-- What makes `mapPage` applicable: the root of the tables is known, and the arguments are those of
-- a mapping.
pub record Mappable (m : Machine) (label : Labels) (phys_addr flags cr3 : ℕ) : Type 0 where
  pub tree : IsTree m label
  pub at : label (root m cr3) ≡ some []
  pub frame : PageAddress phys_addr
  pub ok : IsFlags flags

-- A successful `mapPage` in its parts.
record Ran (m : Machine) (label : Labels) (p v f cr3 : ℕ) (m' : Machine) : Type 0 where
  t3 : ℕ
  m3 : Machine
  reached : Reached m label (root m cr3) v t3 m3
  done : m' ≡ set_leaf m3 t3 (index v 3) (bit_or p f)

module _ {m : Machine} {label : Labels} {p f cr3 : ℕ} (able : Mappable m label p f cr3) (v : ℕ)
    {m' : Machine} (ran : map_page m p v f cr3 ≡ some m') where
  taken_apart : Ran m label p v f cr3 m'
  unfolding map_page
  taken_apart =
      let ((t1, m1), e1, r1) = >>=-eq-some (map_level m (root m cr3) (index v 0) f) _ ran in
      let ((t2, m2), e2, r2) = >>=-eq-some (map_level m1 t1 (index v 1) f) _ r1 in
      let ((t3, m3), e3, r3) = >>=-eq-some (map_level m2 t2 (index v 2) f) _ r2 in
      record {
        t3 = t3;
        m3 = m3;
        reached = reach able.tree (root m cr3) v f able.at able.ok e1 e2 e3;
        done = cc;
      }

  module _ (r : Ran m label p v f cr3 m') where
    open r use {t3, m3, reached, done}
    open reached use {grown, leaves, walk, arrives}

    abbrev entry : ℕ
    entry = bit_or p f

    abbrev final : Machine
    final = set_leaf m3 t3 (index v 3) entry

    small : entry < 2 ^ 64
    small = bit_or-lt 64 p f (able.frame.0) (omega (arith, able.ok.small))

    final-Grown : Grown m label final
    final-Grown = record {
      label' = grown.label';
      tree = after-IsTree grown.tree t3 v entry arrives small;
      extends = grown.extends;
      keeps = λ p i q place e up h w.
          after-KeepsWalks grown.tree t3 v entry arrives small p i q place (grown.extends p place e)
            up h (grown.keeps p i q place e up h w);
      frames = λ q own.
          let (own', same) = grown.frames q own in
          (
            own',
            λ j h.
                after-other grown.tree t3 v entry arrives small (slot q j) (
                  Private-slot m3 grown.label' q t3 j (index v 3) (leaf_place v) own'
                    (grown.tree.page t3 (leaf_place v) arrives) arrives h (index-lt v 3))
                ∙ same j h,
          );
      cr3 = grown.cr3;
    }

    same_root : root final cr3 ≡ root m cr3
    same_root = rw grown.cr3 refl

    final-Walk : Walk final.words (root m cr3) v t3
    final-Walk =
        keeps_Walk grown.tree (grown.extends (root m cr3) [] able.at) walk final
          (after-KeepsWalks grown.tree t3 v entry arrives small)

    final_translates : walk_table final v cr3 ≡ p + v % 0x1000
    final_translates =
        walk_table-leaf final v cr3 t3
          (subst (λ q. Walk final.words q v t3) (sym same_root) final-Walk)
        ∙ rw
            (
              after_self grown.tree t3 v entry arrives small,
              target_page p f able.frame.0 able.frame.1 able.ok.small,
            )
            (omega (arith, able.frame))

    -- Two addresses of different pages have different last entries.
    other_entry :
        (w q : ℕ)
        → w / 2 ^ 12 % 2 ^ 36 ≢ v / 2 ^ 12 % 2 ^ 36
        → label q ≡ some (leaf_place w)
        → slot q (index w 3) ≢ slot t3 (index v 3)
    other_entry w q differ at s =
        let at3 = grown.extends q (leaf_place w) at in
        let (same_page, same_index) =
          slot-injective q t3 (index w 3) (index v 3) (grown.tree.page q (leaf_place w) at3)
            (grown.tree.page t3 (leaf_place v) arrives) (index-lt w 3) (index-lt v 3) s in
        let same_place : some (leaf_place w) ≡ some (leaf_place v) =
          sym at3 ∙ ap grown.label' same_page ∙ arrives in
        let same2 : index w 2 ≡ index v 2 = cc in
        let same1 : index w 1 ≡ index v 1 = cc in
        let same0 : index w 0 ≡ index v 0 = cc in
        differ (
          omega (
            arith,
            same_index,
            same2,
            same1,
            same0,
            index-eq w 0,
            index-eq w 1,
            index-eq w 2,
            index-eq w 3,
            index-eq v 0,
            index-eq v 1,
            index-eq v 2,
            index-eq v 3,
          ))

    final_keeps :
        (w q : ℕ)
        → walk_to_leaf m.words (root m cr3) w ≡ some q
        → w / 2 ^ 12 % 2 ^ 36 ≢ v / 2 ^ 12 % 2 ^ 36
        → walk_table final w cr3 ≡ walk_table m w cr3
    final_keeps w q reaches differ =
        let before = walk_to_leaf-Walk m.words (root m cr3) w reaches in
        let now = keeps_Walk able.tree able.at before final final-Grown.keeps in
        let at = label_leaf able.tree able.at before in
        let same_entry : final.words (slot q (index w 3)) ≡ m.words (slot q (index w 3)) =
          after-other grown.tree t3 v entry arrives small (slot q (index w 3))
            (other_entry w q differ at)
          ∙ leaves q (index w 3) (leaf_place w) at (leaf_not-Upper w) (index-lt w 3) in
        walk_table-leaf final w cr3 q (subst (λ o. Walk final.words o w q) (sym same_root) now)
        ∙ ap (λ e. (target e + w % 0x1000) % 2 ^ 64) same_entry
        ∙ sym (walk_table-leaf m w cr3 q before)

-- If `mapPage` of an address succeeds, on tables that form a tree and with the address of a frame and
-- present flags, then `walkTable` takes the address to the frame, with its offset in the page.
pub walk_table-map_page :
    {m m' : Machine} {label : Labels} {p f cr3 : ℕ} (v : ℕ)
    → Mappable m label p f cr3
    → map_page m p v f cr3 ≡ some m'
    → walk_table m' v cr3 ≡ p + v % 0x1000
walk_table-map_page {p} {cr3} v able ran =
    let r = taken_apart able v ran in
    subst (λ n. walk_table n v cr3 ≡ p + v % 0x1000) (sym r.done) (final_translates able v ran r)

-- If `mapPage` succeeds, on tables that form a tree and with the address of a frame and present
-- flags, it does not change the translation of an address of
-- another page whose tables were there before.
pub walk_table-map_page_other :
    {m m' : Machine} {label : Labels} {p f cr3 : ℕ} (v w : ℕ) {q : ℕ}
    → Mappable m label p f cr3
    → map_page m p v f cr3 ≡ some m'
    → walk_to_leaf m.words (root m cr3) w ≡ some q
    → w / 2 ^ 12 % 2 ^ 36 ≢ v / 2 ^ 12 % 2 ^ 36
    → walk_table m' w cr3 ≡ walk_table m w cr3
walk_table-map_page_other {m} {cr3} v w {q} able ran reaches differ =
    let r = taken_apart able v ran in
    subst (λ n. walk_table n w cr3 ≡ walk_table m w cr3) (sym r.done)
      (final_keeps able v ran r w q reaches differ)

-- If `mapPage` succeeds, on tables that form a tree and with the address of a frame and present
-- flags, the tables are a tree outside the free pages again,
-- in which every old table keeps its place and every step between old tables that a walk could make.
pub map_page-Grown :
    {m m' : Machine} {label : Labels} {p f cr3 : ℕ} (v : ℕ)
    → Mappable m label p f cr3
    → map_page m p v f cr3 ≡ some m'
    → Grown m label m'
map_page-Grown {m} {label} v able ran =
    let r = taken_apart able v ran in subst (Grown m label) (sym r.done) (final-Grown able v ran r)

-- The walk of the address that `mapPage` mapped reaches a last table.
pub reaches-map_page :
    {m m' : Machine} {label : Labels} {p f cr3 : ℕ} (v : ℕ)
    → Mappable m label p f cr3
    → map_page m p v f cr3 ≡ some m'
    → (q : ℕ) × (walk_to_leaf m'.words (root m cr3) v ≡ some q)
reaches-map_page {m} {cr3} v able ran =
    let r = taken_apart able v ran in
    (
      r.t3,
      subst (λ n. walk_to_leaf n.words (root m cr3) v ≡ some r.t3) (sym r.done)
          (Walk-walk_to_leaf (final-Walk able v ran r)),
    )
