-- ===== src/Paging/Pages.antt =====
-- src/mm/npaging.cpp: what a run of mappings of neighbouring pages promises.
use littlevisor.Base.{
  ℕ, zero, suc, ◌+◌, ◌*◌, ◌/◌, ◌%◌, ◌^◌, ◌≤◌, ◌<◌, ◌≡◌, refl, sym, ap, ◌∙◌, ◌≢◌, inl, inr, none,
  some, [], ltb, arith, Bool-cases, ltb→lt,
}
use mathlib.Core.Path.{subst}
use littlevisor.Paging.{Machine, index, map_page, root, walk_to_leaf, walk_table}
use littlevisor.Paging.Entry.{index-eq}
use littlevisor.Paging.Tree.{Labels, Private, IsTree}
use littlevisor.Paging.Tree.Level.{IsFlags}
use littlevisor.Paging.Walk.{Walk-walk_to_leaf, walk_to_leaf-Walk, keeps_Walk, >>=-eq-some}
use littlevisor.Paging.Map.{Grown}
use littlevisor.Pmm.Progress.{Has, Has-le}
use littlevisor.Paging.Ranges.{map_from, map_range}
use littlevisor.Paging.Progress.{map_range-Ends}
use littlevisor.Paging.Translate.{
  Mappable, walk_table-map_page, walk_table-map_page_other, map_page-Grown, reaches-map_page,
}

-- The number of the page of an address, of which the tables read 36 bits.
abbrev pub page_number : ℕ → ℕ
page_number v = v / 2 ^ 12 % 2 ^ 36

pub index-same : (v w k : ℕ) → k < 4 → page_number v ≡ page_number w → index v k ≡ index w k
index-same v w zero h e = omega (arith, index-eq v 0, index-eq w 0)
index-same v w (suc zero) h e = omega (arith, index-eq v 1, index-eq w 1)
index-same v w (suc (suc zero)) h e = omega (arith, index-eq v 2, index-eq w 2)
index-same v w (suc (suc (suc zero))) h e = omega (arith, index-eq v 3, index-eq w 3)
index-same v w (suc (suc (suc (suc k)))) h e = absurd (omega arith)

-- The addresses of one page are mapped together.
pub map_page-same :
    (m : Machine) (p v w f cr3 : ℕ)
    → page_number v ≡ page_number w
    → map_page m p v f cr3 ≡ map_page m p w f cr3
unfolding map_page
map_page-same m p v w f cr3 e =
    rw
      (
        index-same v w 0 (omega arith) e,
        index-same v w 1 (omega arith) e,
        index-same v w 2 (omega arith) e,
        index-same v w 3 (omega arith) e,
      )
      refl

-- What grew keeps the walks that reached a last table.
pub reaches-Grown :
    {m m' : Machine} {label : Labels} (cr3 v : ℕ) {q : ℕ}
    → IsTree m label
    → label (root m cr3) ≡ some []
    → Grown m label m'
    → walk_to_leaf m.words (root m cr3) v ≡ some q
    → walk_to_leaf m'.words (root m' cr3) v ≡ some q
reaches-Grown {m} {m'} {label} cr3 v tree at g e =
    let same : root m' cr3 ≡ root m cr3 = rw g.cr3 refl in
    rw same (
      Walk-walk_to_leaf
        (keeps_Walk tree at (walk_to_leaf-Walk m.words (root m cr3) v e) m' g.keeps))

pub Grown-trans :
    {m m' m'' : Machine} {label : Labels} (g : Grown m label m')
    → Grown m' g.label' m''
    → Grown m label m''
Grown-trans g h = record {
  label' = h.label';
  tree = h.tree;
  extends = λ p place e. h.extends p place (g.extends p place e);
  keeps = λ p i q place e up lt w.
      h.keeps p i q place (g.extends p place e) up lt (g.keeps p i q place e up lt w);
  frames = λ q own.
      let (own1, same1) = g.frames q own in
      let (own2, same2) = h.frames q own1 in (own2, λ j lt. same2 j lt ∙ same1 j lt);
  cr3 = h.cr3 ∙ g.cr3;
}

pub Private-trans :
    {m m' m'' : Machine} {label : Labels} (g : Grown m label m') (h : Grown m' g.label' m'') (q : ℕ)
    → Private m'' h.label' q
    → Private m'' (Grown-trans g h).label' q
unfolding Grown-trans
Private-trans g h q own = own

pub Grown-refl : {m : Machine} {label : Labels} → IsTree m label → Grown m label m
Grown-refl {label} tree = record {
  label' = label;
  tree = tree;
  extends = λ p place e. e;
  keeps = λ p i q place e up lt w. w;
  frames = λ q own. (own, λ j lt. refl);
  cr3 = refl;
}

-- The pages `lo` to `hi` behind `virt` are mapped to those behind `phys`, and the addresses of other
-- pages are translated as before.
pub record Ranged (m : Machine) (label : Labels) (cr3 virt phys lo hi : ℕ) (m' : Machine)
    : Type 0 where
  pub grown : Grown m label m'
  pub inside : (d : ℕ) → lo * 0x1000 ≤ d → d < hi * 0x1000 → walk_table m' (virt + d) cr3 ≡ phys + d
  pub reaches :
      (d : ℕ)
      → lo * 0x1000 ≤ d
      → d < hi * 0x1000
      → (q : ℕ) × (walk_to_leaf m'.words (root m' cr3) (virt + d) ≡ some q)
  pub outside :
      (w q : ℕ)
      → walk_to_leaf m.words (root m cr3) w ≡ some q
      → ((k : ℕ) → lo ≤ k → k < hi → page_number w ≢ page_number (virt + k * 0x1000))
      → walk_table m' w cr3 ≡ walk_table m w cr3

-- A run of pages that lie inside the address space, with flags for them.
pub record IsRange (virt phys n flags : ℕ) : Type 0 where
  pub virt_aligned : virt % 0x1000 ≡ 0
  pub phys_aligned : phys % 0x1000 ≡ 0
  pub virt_fits : virt + n * 0x1000 ≤ 2 ^ 64
  pub phys_fits : phys + n * 0x1000 ≤ 2 ^ 64
  pub few : n ≤ 2 ^ 36
  pub ok : IsFlags flags

-- One page, and then the others.
module _ {virt phys n flags : ℕ} (range : IsRange virt phys n flags) {m m1 m' : Machine}
    {label : Labels} (cr3 i : ℕ) (within : i < n)
    (able : Mappable m label (phys + i * 0x1000) flags cr3)
    (ran : map_page m (phys + i * 0x1000) (virt + i * 0x1000) flags cr3 ≡ some m1)
    (g : Grown m label m1) (rest : Ranged m1 g.label' cr3 virt phys (i + 1) n m') where
  same_root : root m1 cr3 ≡ root m cr3
  same_root = rw g.cr3 refl

  in_page :
      (d : ℕ)
      → i * 0x1000 ≤ d
      → d < (i + 1) * 0x1000
      → map_page m (phys + i * 0x1000) (virt + d) flags cr3 ≡ some m1
  in_page d lo hi =
      map_page-same m (phys + i * 0x1000) (virt + d) (virt + i * 0x1000) flags cr3
        (omega (arith, lo, hi, range))
      ∙ ran

  first_reaches :
      (d : ℕ)
      → i * 0x1000 ≤ d
      → d < (i + 1) * 0x1000
      → (q : ℕ) × (walk_to_leaf m1.words (root m1 cr3) (virt + d) ≡ some q)
  first_reaches d lo hi =
      let (q, e) = reaches-map_page (virt + d) able (in_page d lo hi) in (q, rw same_root e)

  first_inside :
      (d : ℕ) → i * 0x1000 ≤ d → d < (i + 1) * 0x1000 → walk_table m' (virt + d) cr3 ≡ phys + d
  first_inside d lo hi =
      let (q, e) = first_reaches d lo hi in
      rest.outside (virt + d) q e (λ k a b. λ same. omega (arith, lo, hi, range, a, b, same))
      ∙ walk_table-map_page (virt + d) able (in_page d lo hi)
      ∙ omega (arith, lo, hi, range)

  pub step-Ranged : Ranged m label cr3 virt phys i n m'
  step-Ranged = record {
    grown = Grown-trans g rest.grown;
    inside = λ d lo hi. elim (Bool-cases (ltb d ((i + 1) * 0x1000))) [
      | inl here ↦ first_inside d lo (ltb→lt d ((i + 1) * 0x1000) here)
      | inr later ↦ rest.inside d (ground arith) hi
    ];
    reaches = λ d lo hi. elim (Bool-cases (ltb d ((i + 1) * 0x1000))) [
      | inl here ↦
          let (q, e) = first_reaches d lo (ltb→lt d ((i + 1) * 0x1000) here) in
          (
            q,
            reaches-Grown cr3 (virt + d) g.tree (rw same_root (g.extends (root m cr3) [] able.at))
                rest.grown e,
          )
      | inr later ↦ rest.reaches d (ground arith) hi
    ];
    outside = λ w q e differ.
        rest.outside w q (reaches-Grown cr3 w able.tree able.at g e)
          (λ k a b. differ k (omega (arith, a)) b)
        ∙ walk_table-map_page_other (virt + i * 0x1000) w able ran e
            (differ i (omega arith) within);
  }

pub same_machine : {m m' : Machine} → some m ≡ some m' → m ≡ m'
same_machine {m} e = ap (λ o. elim o [ some x ↦ x | none ↦ m ]) e

map_page-args :
    (m : Machine) (f cr3 : ℕ) {p p' v v' : ℕ}
    → p ≡ p'
    → v ≡ v'
    → map_page m p v f cr3 ≡ map_page m p' v' f cr3
map_page-args m f cr3 e e' = rw (e, e') refl

map_from-Ranged :
    {virt phys n flags : ℕ} (left i : ℕ) {m m' : Machine} {label : Labels} (cr3 : ℕ)
    → IsRange virt phys n flags
    → i + left ≡ n
    → IsTree m label
    → label (root m cr3) ≡ some []
    → map_from left i m cr3 virt phys flags ≡ some m'
    → Ranged m label cr3 virt phys i n m'
unfolding map_from
map_from-Ranged {virt} {phys} {n} zero i {m} {m'} {label} cr3 range count tree at e =
    subst (Ranged m label cr3 virt phys i n) (same_machine e) (record {
      grown = Grown-refl tree;
      inside = λ d lo hi. absurd (omega (arith, count, lo, hi));
      reaches = λ d lo hi. absurd (omega (arith, count, lo, hi));
      outside = λ w q e differ. refl;
    })
map_from-Ranged {virt} {phys} {n} {flags} (suc left) i {m} {m'} {label} cr3 range count tree at e =
    let p : (phys + i * 0x1000) % 2 ^ 64 ≡ phys + i * 0x1000 = omega (arith, count, range) in
    let v : (virt + i * 0x1000) % 2 ^ 64 ≡ virt + i * 0x1000 = omega (arith, count, range) in
    let (m1, first, rest) =
      >>=-eq-some
        (map_page m ((phys + i * 0x1000) % 2 ^ 64) ((virt + i * 0x1000) % 2 ^ 64) flags cr3) _ e in
    let ran : map_page m (phys + i * 0x1000) (virt + i * 0x1000) flags cr3 ≡ some m1 =
      map_page-args m flags cr3 (sym p) (sym v) ∙ first in
    let able : Mappable m label (phys + i * 0x1000) flags cr3 = record {
      tree = tree;
      at = at;
      frame = (omega (arith, count, range), omega (arith, range));
      ok = range.ok;
    } in
    let g = map_page-Grown (virt + i * 0x1000) able ran in
    let same : root m1 cr3 ≡ root m cr3 = rw g.cr3 refl in
    step-Ranged range cr3 i (omega (arith, count)) able ran g (
      map_from-Ranged left (i + 1) cr3 range (omega (arith, count)) g.tree
        (rw same (g.extends (root m cr3) [] at)) rest)

-- A run of mappings that ended.
pub map_range-ran :
    {virt phys n flags : ℕ} {m m' : Machine} {label : Labels} (cr3 : ℕ)
    → IsRange virt phys n flags
    → IsTree m label
    → label (root m cr3) ≡ some []
    → map_range m cr3 virt phys n flags ≡ some m'
    → Ranged m label cr3 virt phys 0 n m'
unfolding map_range
map_range-ran {n} cr3 range tree at e = map_from-Ranged n 0 cr3 range (omega arith) tree at e

-- On tables that form a tree, with a run of pages inside the address space, present flags, and three
-- free pages for each page of the run, none of them the page 0, `map_range` does not panic. Then
-- `walkTable` takes every address of the run to its place in the physical pages, no address of another
-- page whose tables were there before is translated differently, and the tables are a tree outside the
-- free pages again.
pub map_range-Ranged :
    {virt phys n flags : ℕ} (m : Machine) {label : Labels} (cr3 : ℕ)
    → IsRange virt phys n flags
    → IsTree m label
    → label (root m cr3) ≡ some []
    → Has (3 * n) m.pmm
    → (m' : Machine) × (map_range m cr3 virt phys n flags ≡ some m')
      × Ranged m label cr3 virt phys 0 n m'
map_range-Ranged {virt} {phys} {n} {flags} m cr3 range tree at has =
    let (m', e, _) =
      map_range-Ends n 0 m cr3 virt phys flags (Has-le (3 * n + 0) (3 * n) (omega arith) has) in
    (m', e, map_range-ran cr3 range tree at e)
