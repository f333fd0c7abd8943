-- ===== src/Elf/Pages.antt =====
-- What `load_elf_to_memory` promises of a page that it loads.
use mathlib.Core.Path.{subst}
use littlevisor.Base.{
  ℕ, ◌+◌, ◌-◌, ◌/◌, ◌%◌, ◌^◌, ◌≤◌, ◌<◌, ◌≡◌, refl, sym, ap, ◌∙◌, ◌≢◌, inl, inr, false, none, some,
  [], ◌==◌, arith, Bool-cases,
}
use littlevisor.Common.{Memory}
use littlevisor.Common.Bitops.{Bytes}
use littlevisor.Pmm.{kpalloc}
use littlevisor.Pmm.Bitmap.{free}
use littlevisor.Vfs.{FileSystem}
use littlevisor.Common.{to_higher_half}
use littlevisor.Paging.{Machine, present, map_page, root, walk_to_leaf, walk_table}
use littlevisor.Paging.Bytes.{byte_at, copy_bytes}
use littlevisor.Paging.Tree.{Labels, IsTree, Private}
use littlevisor.Paging.Tree.Level.{IsFlags}
use littlevisor.Paging.Walk.{>>=-eq-some}
use littlevisor.Paging.Map.{Grown}
use littlevisor.Paging.Translate.{
  Mappable, walk_table-map_page, walk_table-map_page_other, map_page-Grown, reaches-map_page,
}
use littlevisor.Paging.Pages.{page_number, map_page-same, reaches-Grown}
use littlevisor.Paging.Frames.{
  Got, kpalloc-Got, without_page, walk_table-without_page, filled, filled-IsTree, filled-other,
  filled-KeepsWalks, walk_table-filled, byte_at-filled,
}
use littlevisor.Elf.{Heap, Loader, read_bytes, load_page}

-- The page of `virt` is mapped to a page that is in use for nothing else and holds the bytes of the
-- image at its place; the rest of the memory is as it was.
pub record Placed (m : Machine) (label : Labels) (cr3 virt : ℕ) (image : Memory) (skip size : ℕ)
    (m' : Machine) : Type 0 where
  pub grown : Grown m label m'
  pub page : ℕ
  pub own : Private m' grown.label' page
  pub maps : (w : ℕ) → page_number w ≡ page_number virt → walk_table m' w cr3 ≡ page + w % 0x1000
  pub reaches :
      (w : ℕ)
      → page_number w ≡ page_number virt
      → (q : ℕ) × (walk_to_leaf m'.words (root m' cr3) w ≡ some q)
  pub bytes :
      (d : ℕ)
      → skip ≤ d
      → d < skip + size
      → byte_at m'.words (to_higher_half (page + d)) ≡ image (d - skip)
  pub outside :
      (w q : ℕ)
      → walk_to_leaf m.words (root m cr3) w ≡ some q
      → page_number w ≢ page_number virt
      → walk_table m' w cr3 ≡ walk_table m w cr3

user-IsFlags : IsFlags 7
unfolding present
user-IsFlags = record { small = omega arith; on = refl }

-- A new page, its mapping, and the bytes in it.
module _ {m : Machine} {label : Labels} (tree : IsTree m label) (cr3 virt : ℕ)
    (at : label (root m cr3) ≡ some []) (some_page : ((kpalloc m.pmm).0 == 0) ≡ false)
    {m2 : Machine} (ran : map_page (without_page m) (kpalloc m.pmm).0 virt 7 cr3 ≡ some m2)
    (skip size : ℕ) (starts : skip < 0x1000) (inside : skip + size ≤ 0x1000) {image : Memory}
    (image_bytes : Bytes image) where
  abbrev pub page : ℕ
  page = (kpalloc m.pmm).0

  got : Got m label page
  got = kpalloc-Got tree some_page

  able : Mappable (without_page m) label page 7 cr3
  able = record { tree = got.tree; at = at; frame = got.own.0; ok = user-IsFlags }

  pub grown : Grown (without_page m) label m2
  grown = map_page-Grown virt able ran

  pub own : Private m2 grown.label' page
  own = (grown.frames page got.own).0

  abbrev pub last : Machine
  last = filled grown.tree own skip size starts inside image_bytes

  last-Grown : Grown m label last
  last-Grown = record {
    label' = grown.label';
    tree = filled-IsTree grown.tree own skip size starts inside image_bytes;
    extends = grown.extends;
    keeps = λ p i q place e up h w.
        filled-KeepsWalks grown.tree own skip size starts inside image_bytes p i q place
          (grown.extends p place e) up h (grown.keeps p i q place e up h w);
    frames = λ q mine.
        let (mine1, same1) = got.frames q mine in
        let (mine2, same2) = grown.frames q mine1 in
        let ne : q ≢ page =
          λ e. cc (got.was_free, mine.2, ap (λ a. free m.pmm.bytes (a / 0x1000)) e) in
        (
          mine2,
          λ j h.
              filled-other grown.tree own skip size starts inside image_bytes q j mine.0 ne h
              ∙ same2 j h
              ∙ same1 j h,
        );
    cr3 = grown.cr3;
  }

  same_root : root m2 cr3 ≡ root m cr3
  same_root = rw grown.cr3 refl

  root_labelled : grown.label' (root m2 cr3) ≡ some []
  root_labelled = rw same_root (grown.extends (root m cr3) [] at)

  in_page :
      (w : ℕ) → page_number w ≡ page_number virt → map_page (without_page m) page w 7 cr3 ≡ some m2
  in_page w e = map_page-same (without_page m) page w virt 7 cr3 e ∙ ran

  walks :
      (w : ℕ) {q : ℕ}
      → walk_to_leaf m2.words (root m2 cr3) w ≡ some q
      → (walk_to_leaf last.words (root m2 cr3) w ≡ some q)
        × (walk_table last w cr3 ≡ walk_table m2 w cr3)
  walks w e =
      walk_table-filled grown.tree own skip size starts inside image_bytes cr3 w root_labelled e

  mapped :
      (w : ℕ)
      → page_number w ≡ page_number virt
      → (q : ℕ) × (walk_to_leaf m2.words (root m2 cr3) w ≡ some q)
  mapped w e = let (q, r) = reaches-map_page w able (in_page w e) in (q, rw same_root r)

  pub last-Placed : Placed m label cr3 virt image skip size last
  unfolding last-Grown
  last-Placed = record {
    grown = last-Grown;
    page = page;
    own = own;
    maps = λ w e. (walks w (mapped w e).1).1 ∙ walk_table-map_page w able (in_page w e);
    reaches = λ w e. ((mapped w e).0, (walks w (mapped w e).1).0);
    bytes = λ d lo hi.
        byte_at-filled grown.tree own skip size starts inside image_bytes d
          (omega (arith, inside, hi))
        ∙ ground (arith, lo, hi);
    outside = λ w q e differ.
        (walks w (reaches-Grown cr3 w got.tree at grown e)).1
        ∙ walk_table-map_page_other virt w able ran e differ
        ∙ walk_table-without_page m w cr3;
  }

none_ne {ℓ} : {A : Type ℓ} {x : A} → ¬ (none ≡ some x)
none_ne e = cc

-- The same of the code.
module _ (fs : FileSystem) (heap : Heap) (disk : fs.Disk) (fresh : Memory) where
  pub load_page-Placed :
      (l : Loader heap.State) {l' : Loader heap.State} {label : Labels} (fd virt skip size cr3 : ℕ)
      → IsTree l.machine label
      → label (root l.machine cr3) ≡ some []
      → skip < 0x1000
      → skip + size ≤ 0x1000
      → Bytes (read_bytes fs heap disk fresh l.table fd size)
      → load_page fs heap disk fresh l fd virt skip size cr3 ≡ some l'
      → Placed l.machine label cr3 virt
          (read_bytes fs heap disk fresh l.table fd size)
          skip
          size
          l'.machine
        × (l'.table ≡ l.table)
  unfolding load_page
  load_page-Placed l {l'} {label} fd virt skip size cr3 tree at starts inside bytes ran =
      elim (Bool-cases ((kpalloc l.machine.pmm).0 == 0)) [
        | inl panic ↦ absurd (none_ne (rw panic at ran))
        | inr found ↦
            let (m2, mapped, rest) =
              >>=-eq-some (map_page (without_page l.machine) (kpalloc l.machine.pmm).0 virt 7 cr3) _
                (rw found at ran) in
            elim (Bool-cases ((heap.kmalloc l.heap size).0 == 0)) [
              | inl full ↦ absurd (none_ne (rw full at rest))
              | inr room ↦
                  let stored : (n : ℕ) → Machine = λ n. record m2 {
                    words =
                        copy_bytes m2.words
                          ((to_higher_half (kpalloc l.machine.pmm).0 + skip) % 2 ^ 64)
                          (read_bytes fs heap disk fresh l.table fd n) n;
                  } in
                  let small : size ≡ size % 2 ^ 32 = omega (arith, inside) in
                  let done = rw room at rest in
                  let same : stored size ≡ l'.machine =
                    ap stored small
                    ∙ ap (λ o. elim o [ some x ↦ x.machine | none ↦ stored (size % 2 ^ 32) ])
                        done in
                  (
                    subst
                        (Placed l.machine label cr3 virt
                          (read_bytes fs heap disk fresh l.table fd size) skip size)
                        same
                        (last-Placed tree cr3 virt at found mapped skip size starts inside bytes),
                    sym (ap (λ o. elim o [ some x ↦ x.table | none ↦ l.table ]) done),
                  )
            ]
      ]
