-- ===== src/Elf/Progress.antt =====
-- With enough memory the loader does not panic.
use littlevisor.Base.{ℕ, zero, suc, ◌+◌, ◌*◌, ◌≡◌, refl, false, ◌==◌, arith}
use littlevisor.Common.{Memory}
use littlevisor.Pmm.{kpalloc}
use littlevisor.Pmm.Progress.{Has, Has-le, kpalloc-Has}
use littlevisor.Vfs.{FileSystem}
use littlevisor.Paging.Progress.{Ends, Left, >>=-Ends, map_page-Ends}
use littlevisor.Paging.Frames.{without_page}
use littlevisor.Elf.{Heap, Loader, load_page, load_pages}

-- The heap gives a page-sized buffer, each time that the last one was given back, `k` times.
abbrev pub HasRoom : (heap : Heap) → ℕ → heap.State → Type 0
HasRoom heap zero s = Unit
HasRoom heap (suc k) s =
    let (buff, s') = heap.kmalloc s 0x1000 in
    ((buff == 0) ≡ false) × HasRoom heap k (heap.kfree s' buff)

module _ (fs : FileSystem) (heap : Heap) (disk : fs.Disk) (fresh : Memory) where
  -- There are pages and buffers for `n` more pages of a segment, and `k` pages beside them.
  abbrev pub Ready : ℕ → ℕ → Loader heap.State → Type 0
  Ready k n l = Has (4 * n + k) l.machine.pmm × HasRoom heap n l.heap

  load_page-Ends :
      (k n : ℕ) (l : Loader heap.State) (fd virt cr3 : ℕ)
      → Ready k (suc n) l
      → Ends (Ready k n) (load_page fs heap disk fresh l fd virt 0 0x1000 cr3)
  unfolding load_page
  load_page-Ends k n l fd virt cr3 (has, room) =
      let (found, has1) =
        kpalloc-Has
          (Has-le (suc (suc (suc (suc (4 * n + k))))) (4 * suc n + k) (omega arith) has) in
      rw (found, room.0)
        (>>=-Ends (Left (4 * n + k)) (Ready k n) _ _
          (map_page-Ends (4 * n + k) (without_page l.machine) (kpalloc l.machine.pmm).0 virt 7 cr3
            has1)
          (λ m1 has2. (_, refl, (has2, room.1))))

  pub load_pages-Ends :
      (k left i : ℕ) (l : Loader heap.State) (fd vaddr cr3 : ℕ)
      → Ready k left l
      → Ends (Ready k 0) (load_pages fs heap disk fresh left i l fd vaddr cr3)
  unfolding load_pages
  load_pages-Ends k zero i l fd vaddr cr3 ready = (l, refl, ready)
  load_pages-Ends k (suc left) i l fd vaddr cr3 ready =
      >>=-Ends (Ready k left) (Ready k 0) _ _ (load_page-Ends k left l fd _ cr3 ready)
        (λ l1 ready1. load_pages-Ends k left (i + 1) l1 fd vaddr cr3 ready1)
