-- ===== src/RamDisk.antt =====
-- src/drivers/ram_disk.cpp: a disk in memory. The disk and the buffers lie in one memory.
pub mod Contents
pub mod Tests
use littlevisor.Base.{
  ℕ, zero, suc, ◌+◌, ◌-◌, ◌*◌, ◌/◌, ◌%◌, ◌^◌, ◌≤◌, ◌<◌, min, max, bit_and, bit_or, ◌≡◌, refl, sym,
  ap, fun_ext, ◌∙◌, ◌≢◌, ◌⊎◌, inl, inr, Bool, true, false, not, ◌&&◌, ◌||◌, Option, none, some,
  List, [], ◌∷◌, ◌++◌, length, get_or, get_elem?, set, length-set, get_or-set_self, get_or-set_ne,
  map, ltb, leb, ◌==◌, if◌then◌else◌, arith, Bool-cases, Option-cases, ltb→lt, lt→ltb, leb→le,
  ==_iff,
}
use littlevisor.Common.{Memory, kmemcpy}

-- `ramDisk`
pub record RamDisk : Type 0 where
  pub disk_addr : ℕ
  pub sector_size : ℕ
  pub disk_size : ℕ

-- The constructor, by `init_ramdisk`.
unfoldable pub init_ramdisk : ℕ → ℕ → RamDisk
init_ramdisk disk_addr disk_size = record {
  disk_addr = disk_addr;
  sector_size = 512;
  disk_size = disk_size;
}

-- The operations give the status and the memory.
unfoldable pub read_sector : RamDisk → Memory → ℕ → ℕ → ℕ × Memory
read_sector d m start_sector buff =
    let position = start_sector * d.sector_size % 2 ^ 64 in
    if leb d.disk_size position
    then (1, m)
    else (0, kmemcpy m buff ((d.disk_addr + position) % 2 ^ 64) d.sector_size)

unfoldable pub write_sector : RamDisk → Memory → ℕ → ℕ → ℕ × Memory
write_sector d m start_sector buff =
    let position = start_sector * d.sector_size % 2 ^ 64 in
    if leb d.disk_size position
    then (1, m)
    else (0, kmemcpy m ((d.disk_addr + position) % 2 ^ 64) buff d.sector_size)

unfoldable pub read_data : RamDisk → Memory → ℕ → ℕ → ℕ → ℕ × Memory
read_data d m buff offset size =
    if leb d.disk_size offset
    then (1, m)
    else (0, kmemcpy m buff ((d.disk_addr + offset) % 2 ^ 64) size)

unfoldable pub write_data : RamDisk → Memory → ℕ → ℕ → ℕ → ℕ × Memory
write_data d m buff offset size =
    if leb d.disk_size offset
    then (1, m)
    else (0, kmemcpy m ((d.disk_addr + offset) % 2 ^ 64) buff size)

-- The loops of `commit_transaction`, `left` rounds from round `i` on. A failed round is passed over.
unfoldable pub commit_from : RamDisk → ℕ → ℕ → Memory → ℕ → ℕ → Bool → Memory
commit_from d zero i m buff start_sector is_write = m
commit_from d (suc left) i m buff start_sector is_write =
    let sector = (start_sector + i) % 2 ^ 64 in
    let at = (buff + d.sector_size * i % 2 ^ 32) % 2 ^ 64 in
    let m' = if is_write then (write_sector d m sector at).1 else (read_sector d m sector at).1 in
    commit_from d left (i + 1) m' buff start_sector is_write

unfoldable pub commit_transaction : RamDisk → Memory → ℕ → ℕ → ℕ → Bool → Memory
unfolding commit_from
commit_transaction d m buff start_sector num_of_sectors is_write =
    commit_from d num_of_sectors 0 m buff start_sector is_write

unfoldable pub get_sector_size : RamDisk → ℕ
get_sector_size d = d.sector_size
