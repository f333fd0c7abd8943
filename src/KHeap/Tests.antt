-- ===== src/KHeap/Tests.antt =====
-- Runs of src/kheap.cpp on a heap of 256 bytes at 0x1000.
use littlevisor.Base.{◌+◌, ◌<◌, ◌≡◌, refl, ◌⊎◌, ◌==◌, if◌then◌else◌, arith}
use littlevisor.KHeap.{KHeap, kmalloc, header_size}
use littlevisor.KHeap.Alloc.{IsRoom, Block, kmalloc-Block}

abbrev heap : KHeap
heap = record {
  next_chunk = λ a. if a == 0x1000 then 0x1100 else 0;
  state = λ a. 0;
  first_chunk = 0x1000;
  last_free_chunk = 0x1000;
}

heap-IsRoom : IsRoom heap
heap-IsRoom = record { header = omega arith; address = omega arith }

first_block : (kmalloc heap 32).0 ≡ 0x1010
unfolding kmalloc
first_block = refl

kmalloc-Block_example :
    Block heap 32 (kmalloc heap 32).0 (kmalloc heap 32).1
    ⊎ ((kmalloc heap 32 ≡ (0, heap)) × (0x1100 < 0x1000 + 32 + header_size))
kmalloc-Block_example = kmalloc-Block heap 32 heap-IsRoom (omega arith)
