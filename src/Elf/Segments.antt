-- ===== src/Elf/Segments.antt =====
-- The pages of a segment of a program: what the program finds at its addresses.
use mathlib.Core.Path.{subst}
use littlevisor.Base.{
  ℕ, zero, suc, ◌+◌, ◌*◌, ◌%◌, ◌^◌, ◌≤◌, ◌<◌, ◌≡◌, refl, sym, ap, ◌∙◌, ◌≢◌, inl, inr, none, some,
  [], ltb, arith, Bool-cases, ltb→lt,
}
use littlevisor.Common.{Memory}
use littlevisor.Common.Bitops.{Bytes}
use littlevisor.Vfs.{FileSystem}
use littlevisor.Common.{to_higher_half}
use littlevisor.Paging.{Machine, root, walk_to_leaf, walk_table}
use littlevisor.Paging.Bytes.{byte_at}
use littlevisor.Paging.Tree.{Labels, IsTree, Private}
use littlevisor.Paging.Walk.{>>=-eq-some}
use littlevisor.Paging.Map.{Grown}
use littlevisor.Paging.Pages.{page_number, reaches-Grown, Grown-trans, Grown-refl, Private-trans}
use littlevisor.Paging.Frames.{byte_at-same}
use littlevisor.Elf.{Heap, Loader, read_bytes, load_page, load_pages}
use littlevisor.Elf.Pages.{Placed, load_page-Placed}

-- The byte that the page map `cr3` shows at an address, through the kernel's map of all memory.
abbrev pub seen : Machine → ℕ → ℕ → ℕ
seen m cr3 v = byte_at m.words (to_higher_half (walk_table m v cr3))

-- The pages `lo` to `hi` behind `vaddr` each show the image; other addresses are translated as before,
-- and the rest of the memory is as it was.
pub record Imaged (m : Machine) (label : Labels) (cr3 vaddr lo hi : ℕ) (image : Memory)
    (m' : Machine) : Type 0 where
  pub grown : Grown m label m'
  pub shows :
      (d : ℕ) → lo * 0x1000 ≤ d → d < hi * 0x1000 → seen m' cr3 (vaddr + d) ≡ image (d % 0x1000)
  pub held :
      (d : ℕ)
      → lo * 0x1000 ≤ d
      → d < hi * 0x1000
      → (p : ℕ) × Private m' grown.label' p × (walk_table m' (vaddr + d) cr3 ≡ p + d % 0x1000)
  pub reaches :
      (d : ℕ)
      → lo * 0x1000 ≤ d
      → d < hi * 0x1000
      → (q : ℕ) × (walk_to_leaf m'.words (root m' cr3) (vaddr + d) ≡ some q)
  pub outside :
      (w q : ℕ)
      → walk_to_leaf m.words (root m cr3) w ≡ some q
      → ((k : ℕ) → lo ≤ k → k < hi → page_number w ≢ page_number (vaddr + k * 0x1000))
      → walk_table m' w cr3 ≡ walk_table m w cr3

-- What changes neither the translations of the image nor pages in use keeps it.
pub seen-Grown :
    {m m' m'' : Machine} {label : Labels} {cr3 vaddr n : ℕ} {image : Memory} (d : ℕ)
    (r : Imaged m label cr3 vaddr 0 n image m')
    → Grown m' r.grown.label' m''
    → walk_table m'' (vaddr + d) cr3 ≡ walk_table m' (vaddr + d) cr3
    → d < n * 0x1000
    → seen m'' cr3 (vaddr + d) ≡ image (d % 0x1000)
seen-Grown {m' = m'} {m'' = m''} d r g same h =
    let (p, own, there) = r.held d (omega arith) h in
    ap (λ a. byte_at m''.words (to_higher_half a)) (same ∙ there)
    ∙ byte_at-same m'.words m''.words p (d % 0x1000) own.0 (g.frames p own).1 (omega arith)
    ∙ ap (λ a. byte_at m'.words (to_higher_half a)) (sym there)
    ∙ r.shows d (omega arith) h

-- The pages of a segment that begins with a page.
pub record IsSegment (vaddr n : ℕ) : Type 0 where
  pub aligned : vaddr % 0x1000 ≡ 0
  pub fits : vaddr + n * 0x1000 ≤ 2 ^ 64
  pub few : n ≤ 2 ^ 20

-- One page, and then the others.
module _ {m m1 m' : Machine} {label : Labels} {vaddr n : ℕ} (segment : IsSegment vaddr n)
    (cr3 i : ℕ) (within : i < n) {image : Memory} (tree : IsTree m label)
    (at : label (root m cr3) ≡ some [])
    (first : Placed m label cr3 (vaddr + i * 0x1000) image 0 0x1000 m1)
    (rest : Imaged m1 first.grown.label' cr3 vaddr (i + 1) n image m') where
  same_page :
      (d : ℕ)
      → i * 0x1000 ≤ d
      → d < (i + 1) * 0x1000
      → page_number (vaddr + d) ≡ page_number (vaddr + i * 0x1000)
  same_page d lo hi = omega (arith, lo, hi, segment)

  -- The page that was placed first, later on.
  first_at :
      (d : ℕ)
      → i * 0x1000 ≤ d
      → d < (i + 1) * 0x1000
      → walk_table m' (vaddr + d) cr3 ≡ first.page + d % 0x1000
  first_at d lo hi =
      let (q, e) = first.reaches (vaddr + d) (same_page d lo hi) in
      rest.outside (vaddr + d) q e (λ k a b. λ same. omega (arith, lo, hi, segment, a, b, same))
      ∙ first.maps (vaddr + d) (same_page d lo hi)
      ∙ omega (arith, segment)

  first_shows :
      (d : ℕ) → i * 0x1000 ≤ d → d < (i + 1) * 0x1000 → seen m' cr3 (vaddr + d) ≡ image (d % 0x1000)
  first_shows d lo hi =
      let kept = (rest.grown.frames first.page first.own).1 in
      ap (λ a. byte_at m'.words (to_higher_half a)) (first_at d lo hi)
      ∙ byte_at-same m1.words m'.words first.page (d % 0x1000) first.own.0 kept (omega arith)
      ∙ first.bytes (d % 0x1000) (omega arith) (omega arith)
      ∙ ap image (omega arith)

  first_reaches :
      (d : ℕ)
      → i * 0x1000 ≤ d
      → d < (i + 1) * 0x1000
      → (q : ℕ) × (walk_to_leaf m'.words (root m' cr3) (vaddr + d) ≡ some q)
  first_reaches d lo hi =
      let (q, e) = first.reaches (vaddr + d) (same_page d lo hi) in
      let same_root : root m1 cr3 ≡ root m cr3 = rw first.grown.cr3 refl in
      (
        q,
        reaches-Grown cr3 (vaddr + d) first.grown.tree
            (rw same_root (first.grown.extends (root m cr3) [] at)) rest.grown e,
      )

  pub step-Imaged : Imaged m label cr3 vaddr i n image m'
  step-Imaged = record {
    grown = Grown-trans first.grown rest.grown;
    shows = λ d lo hi. elim (Bool-cases (ltb d ((i + 1) * 0x1000))) [
      | inl here ↦ first_shows d lo (ltb→lt d ((i + 1) * 0x1000) here)
      | inr later ↦ rest.shows d (ground arith) hi
    ];
    held = λ d lo hi. elim (Bool-cases (ltb d ((i + 1) * 0x1000))) [
      | inl here ↦ (
        first.page,
        Private-trans first.grown rest.grown first.page (rest.grown.frames first.page first.own).0,
        first_at d lo (ltb→lt d ((i + 1) * 0x1000) here),
      )
      | inr later ↦
          let (p, own, there) = rest.held d (ground arith) hi in
          (p, Private-trans first.grown rest.grown p own, there)
    ];
    reaches = λ d lo hi. elim (Bool-cases (ltb d ((i + 1) * 0x1000))) [
      | inl here ↦ first_reaches d lo (ltb→lt d ((i + 1) * 0x1000) here)
      | inr later ↦ rest.reaches d (ground arith) hi
    ];
    outside = λ w q e differ.
        rest.outside w q (reaches-Grown cr3 w tree at first.grown e)
          (λ k a b. differ k (omega (arith, a)) b)
        ∙ first.outside w q e (differ i (omega arith) within);
  }

module _ (fs : FileSystem) (heap : Heap) (disk : fs.Disk) (fresh : Memory) where
  load_pages-Imaged :
      {vaddr n : ℕ} (left i : ℕ) (l : Loader heap.State) {l' : Loader heap.State} {label : Labels}
      (fd cr3 : ℕ) {image : Memory}
      → IsSegment vaddr n
      → i + left ≡ n
      → IsTree l.machine label
      → label (root l.machine cr3) ≡ some []
      → read_bytes fs heap disk fresh l.table fd 0x1000 ≡ image
      → Bytes image
      → load_pages fs heap disk fresh left i l fd vaddr cr3 ≡ some l'
      → Imaged l.machine label cr3 vaddr i n image l'.machine
  unfolding load_pages
  load_pages-Imaged {vaddr} {n} zero i l {l'} {label} fd cr3 {image} segment count tree at same
        bytes ran =
      subst (Imaged l.machine label cr3 vaddr i n image)
        (ap (λ o. elim o [ some x ↦ x.machine | none ↦ l.machine ]) ran)
        (record {
          grown = Grown-refl tree;
          shows = λ d lo hi. absurd (omega (arith, count, lo, hi));
          held = λ d lo hi. absurd (omega (arith, count, lo, hi));
          reaches = λ d lo hi. absurd (omega (arith, count, lo, hi));
          outside = λ w q e differ. refl;
        })
  load_pages-Imaged {vaddr} {n} (suc left) i l {l'} {label} fd cr3 {image} segment count tree at
        same bytes ran =
      let v : (vaddr + i * 0x1000 % 2 ^ 32) % 2 ^ 64 ≡ vaddr + i * 0x1000 =
        omega (arith, count, segment) in
      let (l1, one, rest) =
        >>=-eq-some
          (load_page fs heap disk fresh l fd ((vaddr + i * 0x1000 % 2 ^ 32) % 2 ^ 64) 0 0x1000 cr3)
          _ ran in
      let one' : load_page fs heap disk fresh l fd (vaddr + i * 0x1000) 0 0x1000 cr3 ≡ some l1 =
        ap (λ a. load_page fs heap disk fresh l fd a 0 0x1000 cr3) (sym v) ∙ one in
      let (placed', table) =
        load_page-Placed fs heap disk fresh l fd (vaddr + i * 0x1000) 0 0x1000 cr3 tree at
          (omega arith) (omega arith) (subst Bytes (sym same) bytes) one' in
      let placed : Placed l.machine label cr3 (vaddr + i * 0x1000) image 0 0x1000 l1.machine =
        subst (λ im. Placed l.machine label cr3 (vaddr + i * 0x1000) im 0 0x1000 l1.machine) same
          placed' in
      let root_same : root l1.machine cr3 ≡ root l.machine cr3 = rw placed.grown.cr3 refl in
      step-Imaged segment cr3 i (omega (arith, count)) tree at placed (
        load_pages-Imaged left (i + 1) l1 fd cr3 segment (omega (arith, count)) placed.grown.tree
          (rw root_same (placed.grown.extends (root l.machine cr3) [] at))
          (ap (λ t. read_bytes fs heap disk fresh t fd 0x1000) table ∙ same) bytes rest)

  -- If the loop that loads the pages of a segment ends, on tables that form a tree, for at most
  -- `2 ^ 20` pages inside the address space from the start of a page on, then the program finds in
  -- each page the bytes that `vreadFile` gives at the position of the file; no address of another page
  -- whose tables were there before is translated differently, and no page in use for something else
  -- is changed.
  pub load_pages_lem :
      {vaddr n : ℕ} (l : Loader heap.State) {l' : Loader heap.State} {label : Labels} (fd cr3 : ℕ)
      → IsSegment vaddr n
      → IsTree l.machine label
      → label (root l.machine cr3) ≡ some []
      → Bytes (read_bytes fs heap disk fresh l.table fd 0x1000)
      → load_pages fs heap disk fresh n 0 l fd vaddr cr3 ≡ some l'
      → Imaged l.machine label cr3 vaddr 0 n
          (read_bytes fs heap disk fresh l.table fd 0x1000)
          l'.machine
  load_pages_lem {n} l fd cr3 segment tree at bytes ran =
      load_pages-Imaged n 0 l fd cr3 segment (omega arith) tree at refl bytes ran
