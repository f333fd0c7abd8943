-- ===== src/Paging/Tests.antt =====
-- Runs of src/mm/npaging.cpp on an empty table at page 5, with three free pages.

use littlevisor.Base.{◌≡◌, refl, none, some, [], ◌==◌, if◌then◌else◌, arith}
use littlevisor.Bits.{bit}
use littlevisor.Common.{getbit, getbit_val, load, write, clearbit}
use littlevisor.Pmm.{kpalloc, find_page, find_bit, take_page}
use littlevisor.Common.{to_higher_half}
use littlevisor.Paging.{
  Machine, slot, target, present, index, zero_page, add_table, keep_table, map_level, map_page,
  root, walk_level, walk_to_leaf, walk_table,
}
use littlevisor.Paging.Empty.{one_root, zeros-IsTree}
use littlevisor.Paging.Tree.{Labels, IsTree}
use littlevisor.Counting.{count}
use littlevisor.Pmm.Progress.{Has}
use littlevisor.Paging.Ranges.{map_range}
use littlevisor.Paging.Pages.{IsRange, Ranged, map_range-Ranged}
use littlevisor.Paging.Map.{Grown}
use littlevisor.Paging.Translate.{
  Mappable, walk_table-map_page, walk_table-map_page_other, map_page-Grown,
}

abbrev start : Machine
start = record {
  words = λ a. 0;
  pmm = record {
    bytes = λ a. if a == 0 then 0x0E else 0;
    bitmap_size = 1;
    last_allocated_idx = 0;
    number_of_avail_pages = 3;
  };
  cr3_val = 0x5000;
}

abbrev labels : Labels
labels = one_root 0x5000

start-IsTree : IsTree start labels
unfolding bit
start-IsTree =
    zeros-IsTree start.pmm start.cr3_val 0x5000
      (record { bytes = λ a. ground arith; small = omega arith; start = omega arith })
      (omega arith, refl) refl

start-Mappable : Mappable start labels 0x9000 3 0
unfolding present
start-Mappable = record {
  tree = start-IsTree;
  at = refl;
  frame = ground arith;
  ok = record { small = omega arith; on = refl };
}

abbrev mapped : Machine
mapped = elim (map_page start 0x9000 0x400000 3 0) [ some m ↦ m | none ↦ start ]

map_page_runs : map_page start 0x9000 0x400000 3 0 ≡ some mapped
unfolding map_page map_level add_table keep_table kpalloc find_page find_bit getbit getbit_val load
    write clearbit take_page target present index slot to_higher_half zero_page
map_page_runs = refl

translated : walk_table mapped 0x400123 0 ≡ 0x9123
unfolding map_page map_level add_table keep_table kpalloc find_page find_bit getbit getbit_val load
    write clearbit take_page target present index slot to_higher_half zero_page walk_table
    walk_to_leaf walk_level
translated = refl

walk_table-map_page_example : walk_table mapped 0x400000 0 ≡ 0x9000
walk_table-map_page_example = walk_table-map_page 0x400000 start-Mappable map_page_runs

map_page-Grown_example : Grown start labels mapped
map_page-Grown_example = map_page-Grown 0x400000 start-Mappable map_page_runs

mapped-Mappable :
    Mappable mapped (map_page-Grown 0x400000 start-Mappable map_page_runs).label' 0xA000 3 0
unfolding present
mapped-Mappable =
    let grown = map_page-Grown 0x400000 start-Mappable map_page_runs in
    record {
      tree = grown.tree;
      at = rw grown.cr3 (grown.extends 0x5000 [] refl);
      frame = ground arith;
      ok = record { small = omega arith; on = refl };
    }

abbrev mapped_twice : Machine
mapped_twice = elim (map_page mapped 0xA000 0x401000 3 0) [ some m ↦ m | none ↦ mapped ]

map_page_runs_again : map_page mapped 0xA000 0x401000 3 0 ≡ some mapped_twice
unfolding map_page map_level add_table keep_table kpalloc find_page find_bit getbit getbit_val load
    write clearbit take_page target present index slot to_higher_half zero_page
map_page_runs_again = refl

leaf_there : walk_to_leaf mapped.words (root mapped 0) 0x400000 ≡ some 0x3000
unfolding map_page map_level add_table keep_table kpalloc find_page find_bit getbit getbit_val load
    write clearbit take_page target present index slot to_higher_half zero_page walk_to_leaf
    walk_level
leaf_there = refl

walk_table-map_page_other_example :
    walk_table mapped_twice 0x400000 0 ≡ walk_table mapped 0x400000 0
walk_table-map_page_other_example =
    walk_table-map_page_other 0x401000 0x400000 mapped-Mappable map_page_runs_again leaf_there
      (λ e. ground arith)

one_page : IsRange 0x400000 0x9000 1 3
unfolding present
one_page = record {
  virt_aligned = refl;
  phys_aligned = refl;
  virt_fits = omega arith;
  phys_fits = omega arith;
  few = omega arith;
  ok = record { small = omega arith; on = refl };
}

three_free : Has 3 start.pmm
unfolding count bit
three_free = record { valid = start-IsTree.valid; not_zero = refl; enough = omega arith }

map_range-Ranged_example :
    (m' : Machine) × (map_range start 0 0x400000 0x9000 1 3 ≡ some m')
    × Ranged start labels 0 0x400000 0x9000 0 1 m'
map_range-Ranged_example = map_range-Ranged start 0 one_page start-IsTree refl three_free
