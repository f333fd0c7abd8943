-- ===== src/Ahci/Files.antt =====
-- A read of an open file, from src/fs/vfs.cpp through src/fs/fat32.cpp down to src/drivers/ahci.cpp.
use littlevisor.Base.{
  ℕ, ◌+◌, ◌^◌, ◌<◌, min, ◌≡◌, false, Option, List, get_or, ltb, leb, if◌then◌else◌, arith,
}
use littlevisor.Common.{Memory}
use littlevisor.Vfs.{Descriptor, empty, name_pointer, vread_file}
use littlevisor.Fat32.{Bpb}
use littlevisor.Fat32.Files.{find_file, is_null, first_cluster, size_in_bytes}
use littlevisor.Fat32.ChainBytes.{Holds, chain_byte}
use littlevisor.Fat32.FileReads.{read_file-byte}
use littlevisor.Fat32.Volume.{file_system}
use littlevisor.Ahci.{Sectors}
use littlevisor.Ahci.Reads.{contents}
use littlevisor.Ahci.Writes.{Keeps}
use littlevisor.Ahci.Disk.{driver, driver-IsDisk}

-- A read of an open file on a disk of the SATA driver, with one sector in a cluster, succeeds if the
-- file is found, is not empty, and its chain has clusters for all bytes up to the end of the request:
-- it gives the bytes of the file's chain on the disk from the position of the descriptor on, as many
-- as are asked for, at most the size of the file, and leaves the rest of the buffer as it was.
pub vread_file-byte :
    {dev : Sectors} (keeps : Keeps dev) (b : Bpb) (s : dev.State) (fresh : Memory)
    (sector_buff : Option Memory) (fuel : ℕ) (table : List Descriptor) (fd : ℕ) (buff : Memory)
    (wanted size : ℕ)
    → let d = get_or table fd empty in
      let entry = find_file (driver dev) b s fresh (name_pointer d) in
      fd < 100
      → b.sectors_per_clusted ≡ 1
      → is_null entry ≡ false
      → size ≡ min (size_in_bytes entry) wanted
      → 0 < size
      → size < 2 ^ 31
      → Holds (driver dev) b s sector_buff (first_cluster entry) (d.position + size)
      → let r =
          vread_file (file_system (driver dev) b fresh sector_buff fuel) s table fd buff wanted in
        (r.0 ≡ 0)
        × ((k : ℕ)
            → r.1 k ≡ (
                if ltb k size
                then chain_byte
                    (driver dev)
                    b
                    s
                    sector_buff
                    (contents dev)
                    (first_cluster entry)
                    (d.position + k)
                else buff k))
unfolding vread_file
vread_file-byte {dev} keeps b s fresh sector_buff fuel table fd buff wanted size inside one found e
      wide small h =
    let d = get_or table fd empty in
    let in_table : leb 100 fd ≡ false = ground (arith, inside) in
    rw in_table (
      read_file-byte (driver dev) b s sector_buff (contents dev) (driver-IsDisk keeps) fresh
        (name_pointer d) buff d.position wanted size one found e wide small h)
