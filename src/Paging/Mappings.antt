-- ===== src/Paging/Mappings.antt =====
-- The page map that src/mm/paging.cpp makes for the kernel: all regions of the memory in the higher
-- half, and the kernel.
use littlevisor.Base.{
  All, ℕ, ◌+◌, ◌-◌, ◌*◌, ◌/◌, ◌%◌, ◌^◌, ◌≤◌, ◌<◌, ◌≡◌, refl, sym, ap, ◌∙◌, ◌≢◌, ◌⊎◌, inl, inr,
  false, ◌&&◌, some, List, [], ◌∷◌, ltb, leb, arith, Bool-cases,
}
use littlevisor.Pmm.Progress.{Has, Has-le}
use littlevisor.Common.{to_higher_half}
use littlevisor.Paging.{Machine, root, walk_to_leaf, walk_table}
use littlevisor.Paging.Entry.{present-eq}
use littlevisor.Paging.Tree.{Labels, IsTree}
use littlevisor.Paging.Map.{Grown}
use littlevisor.Paging.Progress.{map_range-Ends}
use littlevisor.Paging.Pages.{
  IsRange, Ranged, map_range-ran, page_number, reaches-Grown, Grown-trans, Grown-refl,
}
use littlevisor.Pmm.Init.{Region}
use littlevisor.Paging.Kernel.{Vmm, present_rw, map_kernel, map_regions, init_mappings}

-- A physical address that the page map `cr3` shows in the higher half.
abbrev pub Shown : Machine → ℕ → ℕ → Type 0
Shown m cr3 a =
    (q : ℕ) × (walk_to_leaf m.words (root m cr3) (to_higher_half a) ≡ some q)
    × (walk_table m (to_higher_half a) cr3 ≡ a)

-- A region at the start of a page in the first `2 ^ 46` bytes, with the page behind it.
abbrev pub IsRegion : Region → Type 0
IsRegion e = (e.base % 0x1000 ≡ 0) × (e.base + e.length_in_bytes + 0x1000 ≤ 2 ^ 46)

abbrev pub pages : Region → ℕ
pages e = e.length_in_bytes / 0x1000 + 1

abbrev pub total_pages : List Region → ℕ
total_pages [] = 0
total_pages (e ∷ entries) = pages e + total_pages entries

region-IsRange :
    (e : Region) → IsRegion e → IsRange (to_higher_half e.base) e.base (pages e) present_rw
unfolding to_higher_half
region-IsRange e (aligned, fits) = record {
  virt_aligned = omega (arith, aligned, fits);
  phys_aligned = aligned;
  virt_fits = omega (arith, aligned, fits);
  phys_fits = omega (arith, aligned, fits);
  few = omega (arith, aligned, fits);
  ok = record { small = omega arith; on = present-eq 3 };
}

-- What a mapped region does to the addresses shown.
module _ {m m' : Machine} {label : Labels} {cr3 : ℕ} (e : Region) (ok : IsRegion e)
    (r : Ranged m label cr3 (to_higher_half e.base) e.base 0 (pages e) m') where
  adds : (a : ℕ) → e.base ≤ a → a < e.base + pages e * 0x1000 → Shown m' cr3 a
  unfolding to_higher_half
  adds a lo hi =
      let d = a - e.base in
      let here : to_higher_half e.base + d ≡ to_higher_half a = omega (arith, ok, lo, hi) in
      let (q, walk) = r.reaches d (omega (arith, lo)) (omega (arith, lo, hi)) in
      (
        q,
        ap (λ v. walk_to_leaf m'.words (root m' cr3) v) (sym here) ∙ walk,
        ap (λ v. walk_table m' v cr3) (sym here)
            ∙ r.inside d (omega (arith, lo)) (omega (arith, lo, hi))
            ∙ omega (arith, lo),
      )

  elsewhere :
      (a : ℕ)
      → a < 2 ^ 46
      → (leb e.base a && ltb a (e.base + pages e * 0x1000)) ≡ false
      → (k : ℕ) → 0 ≤ k
      → k < pages e
      → page_number (to_higher_half a) ≢ page_number (to_higher_half e.base + k * 0x1000)
  unfolding to_higher_half
  elsewhere a small out k lo hi same =
      let before : (a < e.base) ⊎ (e.base + pages e * 0x1000 ≤ a) =
        elim (Bool-cases (leb e.base a)) [
          | inl p ↦ inr (ground (arith, out, p))
          | inr p ↦ inl (ground (arith, p))
        ] in
      elim before [
        | inl below ↦ omega (arith, ok, below, same, small, hi)
        | inr above ↦ omega (arith, ok, above, same, small, hi)
      ]

  keeps :
      (a : ℕ)
      → IsTree m label
      → label (root m cr3) ≡ some []
      → a < 2 ^ 46
      → Shown m cr3 a
      → Shown m' cr3 a
  keeps a tree at small (q, walk, shown) =
      elim (Bool-cases (leb e.base a && ltb a (e.base + pages e * 0x1000))) [
        | inl here ↦ adds a (ground arith) (ground arith)
        | inr out ↦ (
          q,
          reaches-Grown cr3 (to_higher_half a) tree at r.grown walk,
          r.outside (to_higher_half a) q walk (elsewhere a small out) ∙ shown,
        )
      ]

-- The regions are shown, what was shown before still is, and `k` free pages are left.
record Mapped (m : Machine) (label : Labels) (cr3 k : ℕ) (entries : List Region) (m' : Machine)
    : Type 0 where
  grown : Grown m label m'
  shows : All (λ e. (d : ℕ) → d < e.length_in_bytes → Shown m' cr3 (e.base + d)) entries
  still : (a : ℕ) → a < 2 ^ 46 → Shown m cr3 a → Shown m' cr3 a
  left : Has k m'.pmm

map_regions-Mapped :
    (entries : List Region) (k : ℕ) (m : Machine) {label : Labels} (cr3 : ℕ)
    → All IsRegion entries
    → IsTree m label
    → label (root m cr3) ≡ some []
    → Has (3 * total_pages entries + k) m.pmm
    → (m' : Machine) × (map_regions entries m cr3 ≡ some m') × Mapped m label cr3 k entries m'
unfolding map_regions
map_regions-Mapped [] k m cr3 ok tree at has = (
  m,
  refl,
  record {
    grown = Grown-refl tree;
    shows = tt;
    still = λ a h s. s;
    left = Has-le k (3 * 0 + k) (omega arith) has;
  },
)
map_regions-Mapped (e ∷ entries) k m {label} cr3 (ok, oks) tree at has =
    let (m1, ran, has1) =
      map_range-Ends (pages e) (3 * total_pages entries + k) m cr3 (to_higher_half e.base) e.base
        present_rw (Has-le _ (3 * total_pages (e ∷ entries) + k) (omega arith) has) in
    let r = map_range-ran cr3 (region-IsRange e ok) tree at ran in
    let same : root m1 cr3 ≡ root m cr3 = rw r.grown.cr3 refl in
    let at1 : r.grown.label' (root m1 cr3) ≡ some [] =
      rw same (r.grown.extends (root m cr3) [] at) in
    let (m', rest, done) = map_regions-Mapped entries k m1 cr3 oks r.grown.tree at1 has1 in
    (
      m',
      rw ran rest,
      record {
        grown = Grown-trans r.grown done.grown;
        shows = (
          λ d h.
              done.still (e.base + d) (omega (arith, ok, h))
                (adds e ok r (e.base + d) (omega arith) (omega (arith, h))),
          done.shows,
        );
        still = λ a h s. done.still a h (keeps e ok r a tree at h s);
        left = done.left;
      },
    )

-- The kernel lies above the regions, and its pages are a run.
pub record IsKernel (virtual_base physical_base size : ℕ) : Type 0 where
  pub range : IsRange virtual_base physical_base (size / 0x1000 + 1) present_rw
  pub above : 0xFFFFC00000000000 ≤ virtual_base

below_kernel :
    (a vb n : ℕ)
    → vb + n * 0x1000 ≤ 2 ^ 64
    → 0xFFFFC00000000000 ≤ vb
    → a < 2 ^ 46
    → (k : ℕ) → 0 ≤ k
    → k < n
    → page_number (to_higher_half a) ≢ page_number (vb + k * 0x1000)
unfolding to_higher_half
below_kernel a vb n fits above small k lo hi same = omega (arith, fits, above, small, hi, same)

-- The pages of the kernel are not those of the regions.
kernel_keeps :
    {m m' : Machine} {label : Labels} {cr3 vb pb size : ℕ} (a : ℕ)
    → IsKernel vb pb size
    → IsTree m label
    → label (root m cr3) ≡ some []
    → Ranged m label cr3 vb pb 0 (size / 0x1000 + 1) m'
    → a < 2 ^ 46
    → Shown m cr3 a
    → Shown m' cr3 a
kernel_keeps {cr3} {vb} {size} a kernel tree at r small (q, walk, shown) = (
  q,
  reaches-Grown cr3 (to_higher_half a) tree at r.grown walk,
  r.outside (to_higher_half a) q walk
        (below_kernel a vb (size / 0x1000 + 1) kernel.range.virt_fits kernel.above small)
      ∙ shown,
)

still_shown :
    (m m' : Machine) (cr3 : ℕ) (entries : List Region)
    → All IsRegion entries
    → ((a : ℕ) → a < 2 ^ 46 → Shown m cr3 a → Shown m' cr3 a)
    → All (λ e. (d : ℕ) → d < e.length_in_bytes → Shown m cr3 (e.base + d)) entries
    → All (λ e. (d : ℕ) → d < e.length_in_bytes → Shown m' cr3 (e.base + d)) entries
still_shown m m' cr3 [] ok keep shown = tt
still_shown m m' cr3 (e ∷ entries) (ok, oks) keep (here, shown) = (
  λ d h. keep (e.base + d) (omega (arith, ok, h)) (here d h),
  still_shown m m' cr3 entries oks keep shown,
)

-- If the regions start at pages of the first `2 ^ 46` bytes and the kernel lies above them in the
-- address space, on tables that form a tree, with three free pages for each page to be mapped, none of
-- them the page 0, then `init_mappings` does not panic: in its page map every byte of every region has
-- its higher-half address, also where regions share a page, and every byte of the kernel its virtual
-- address.
pub init_mappings-Shown :
    (vmm : Vmm) (m : Machine) {label : Labels} (cr3 virtual_base physical_base : ℕ)
    → vmm.kernel ≡ some (virtual_base, physical_base)
    → All IsRegion vmm.memmap_response
    → IsKernel virtual_base physical_base vmm.kernel_memory_size
    → IsTree m label
    → label (root m cr3) ≡ some []
    → Has (3 * (total_pages vmm.memmap_response + (vmm.kernel_memory_size / 0x1000 + 1))) m.pmm
    → (m' : Machine) × (init_mappings vmm m cr3 ≡ some m')
      × All (λ e. (d : ℕ) → d < e.length_in_bytes → Shown m' cr3 (e.base + d)) vmm.memmap_response
      × ((d : ℕ)
          → d < vmm.kernel_memory_size
          → walk_table m' (virtual_base + d) cr3 ≡ physical_base + d)
unfolding init_mappings map_kernel
init_mappings-Shown vmm m {label} cr3 vb pb kernel ok above tree at has =
    let n = vmm.kernel_memory_size / 0x1000 + 1 in
    let (m1, ran, mapped) =
      map_regions-Mapped vmm.memmap_response (3 * n) m cr3 ok tree at
        (Has-le _ (3 * (total_pages vmm.memmap_response + n)) (omega arith) has) in
    let same : root m1 cr3 ≡ root m cr3 = rw mapped.grown.cr3 refl in
    let at1 : mapped.grown.label' (root m1 cr3) ≡ some [] =
      rw same (mapped.grown.extends (root m cr3) [] at) in
    let (m', last, _) =
      map_range-Ends n 0 m1 cr3 vb pb present_rw
        (Has-le (3 * n + 0) (3 * n) (omega arith) mapped.left) in
    let r = map_range-ran cr3 above.range mapped.grown.tree at1 last in
    (
      m',
      rw (ran, kernel) last,
      still_shown m1 m' cr3 vmm.memmap_response ok
          (λ a. kernel_keeps a above mapped.grown.tree at1 r) mapped.shows,
      λ d h. r.inside d (omega arith) (omega (arith, h)),
    )
