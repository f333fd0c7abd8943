-- ===== src/Paging/KernelTests.antt =====
-- The page maps of src/mm/paging.cpp, on an empty table at page 8 with seven free pages.

use littlevisor.Base.{
  All, ℕ, ◌+◌, ◌≤◌, ◌<◌, ◌≡◌, refl, true, none, some, [], ◌∷◌, ◌==◌, if◌then◌else◌, arith,
}
use littlevisor.Bits.{bit}
use littlevisor.Counting.{count}
use littlevisor.Common.{getbit, getbit_val, load, write, clearbit}
use littlevisor.Pmm.{kpalloc, find_page, find_bit, take_page}
use littlevisor.Pmm.Progress.{Has}
use littlevisor.Common.{to_higher_half}
use littlevisor.Paging.{
  Machine, slot, target, present, index, zero_page, add_table, keep_table, map_level, map_page,
  walk_level, walk_to_leaf, walk_table,
}
use littlevisor.Paging.Empty.{one_root, zeros-IsTree}
use littlevisor.Paging.Tree.{Labels, IsTree, Private}
use littlevisor.Paging.Translate.{Mappable, map_page-Grown}
use littlevisor.Pmm.Init.{Region}
use littlevisor.Paging.Kernel.{Vmm, init_mappings, init_user_mappings}
use littlevisor.Paging.Mappings.{Shown, IsKernel, init_mappings-Shown}
use littlevisor.Paging.Users.{init_user_mappings_lem}

abbrev boot : Machine
boot = record {
  words = λ a. 0;
  pmm = record {
    bytes = λ a. if a == 0 then 0xFE else 0;
    bitmap_size = 2;
    last_allocated_idx = 0;
    number_of_avail_pages = 7;
  };
  cr3_val = 0;
}

abbrev labels : Labels
labels = one_root 0x8000

boot-IsTree : IsTree boot labels
unfolding bit
boot-IsTree =
    zeros-IsTree boot.pmm boot.cr3_val 0x8000
      (record { bytes = λ a. ground arith; small = omega arith; start = omega arith })
      (omega arith, refl) refl

abbrev region : Region
region = record { base = 0x100000; length_in_bytes = 0x800; usable = true }

abbrev vmm : Vmm
vmm = record {
  host_cr3 = 0x8000;
  kernel = some (0xFFFFFFFF80000000, 0x200000);
  memmap_response = region ∷ [];
  kernel_memory_size = 0x900;
}

kernel : IsKernel 0xFFFFFFFF80000000 0x200000 0x900
unfolding present
kernel = record {
  range = record {
    virt_aligned = refl;
    phys_aligned = refl;
    virt_fits = omega arith;
    phys_fits = omega arith;
    few = omega arith;
    ok = record { small = omega arith; on = refl };
  };
  above = omega arith;
}

six_free : Has 6 boot.pmm
unfolding count bit
six_free = record { valid = boot-IsTree.valid; not_zero = refl; enough = omega arith }

init_mappings-Shown_example :
    (m' : Machine) × (init_mappings vmm boot 0x8000 ≡ some m')
    × All (λ e. (d : ℕ) → d < e.length_in_bytes → Shown m' 0x8000 (e.base + d)) (region ∷ [])
    × ((d : ℕ) → d < 0x900 → walk_table m' (0xFFFFFFFF80000000 + d) 0x8000 ≡ 0x200000 + d)
init_mappings-Shown_example =
    init_mappings-Shown vmm boot 0x8000 0xFFFFFFFF80000000 0x200000 refl ((refl, omega arith), tt)
      kernel boot-IsTree refl six_free

abbrev high : ℕ
high = 0xFFFF800000400000

boot-Mappable : Mappable boot labels 0x100000 3 0x8000
unfolding present
boot-Mappable = record {
  tree = boot-IsTree;
  at = refl;
  frame = (omega arith, refl);
  ok = record { small = omega arith; on = refl };
}

abbrev host : Machine
host = elim (map_page boot 0x100000 high 3 0x8000) [ some m ↦ m | none ↦ boot ]

host_runs : map_page boot 0x100000 high 3 0x8000 ≡ some host
unfolding map_page map_level add_table keep_table kpalloc find_page find_bit getbit getbit_val load
    write clearbit take_page target present index slot to_higher_half zero_page
host_runs = refl

host_reaches : walk_to_leaf host.words 0x8000 high ≡ some 0x3000
unfolding map_page map_level add_table keep_table kpalloc find_page find_bit getbit getbit_val load
    write clearbit take_page target present index slot to_higher_half zero_page walk_to_leaf
    walk_level
host_reaches = refl

own_page : Private boot labels 0x20000
unfolding bit
own_page = ((omega arith, refl), refl, refl)

high_upper : 256 ≤ index high 0
unfolding index
high_upper = omega arith

init_user_mappings_lem_example :
    (walk_to_leaf (init_user_mappings vmm host 0x20000).words 0x20000 high ≡ some 0x3000)
    × (walk_table (init_user_mappings vmm host 0x20000) high 0x20000 ≡ walk_table host high 0x8000)
init_user_mappings_lem_example =
    init_user_mappings_lem vmm host 0x20000 (omega arith, refl) own_page.0
      (map_page-Grown high boot-Mappable host_runs).tree
      ((map_page-Grown high boot-Mappable host_runs).frames 0x20000 own_page).0.1 high (omega arith)
      (omega arith) ((map_page-Grown high boot-Mappable host_runs).extends 0x8000 [] refl)
      host_reaches high_upper
