-- ===== src/Ahci/Disk.antt =====
-- The driver of src/drivers/ahci.cpp as the disk that src/fs/fat32.cpp is given.
use littlevisor.Base.{◌+◌, ◌*◌, ◌/◌, ◌%◌, ap, ltb, if◌then◌else◌, arith}
use littlevisor.Ahci.{Sectors, read_data, write_data}
use littlevisor.Ahci.Reads.{contents, read_data-byte}
use littlevisor.Ahci.Writes.{Keeps, write_data-byte}
use littlevisor.Fat32.{Ahci}
use littlevisor.Fat32.Entries.{IsDisk}

-- `read_sector`, `read_data` and `write_data` of the class `ahci`.
abbrev pub driver : Sectors → Ahci
driver dev = record {
  State = dev.State;
  read_sector = λ s sector buff k. if ltb k 512 then dev.read_sector s sector k else buff k;
  read_data = read_data dev;
  write_data = λ s buff offset size. (write_data dev s buff offset size).1;
}

-- On a disk that keeps what is written, the driver meets what the file system asks of its disk, in
-- the first `2 ^ 32` bytes: a read of a sector gives its bytes, a read of `size` bytes from any offset
-- gives these and leaves the buffer behind them as it was, and a write of some bytes changes these and
-- no other.
pub driver-IsDisk : {dev : Sectors} → Keeps dev → IsDisk (driver dev) (contents dev)
driver-IsDisk {dev} keeps = record {
  sector-byte = λ s sector buff k h. ground (
    arith,
    h,
    ap (λ n. dev.read_sector s n k) {x = sector} {y = (sector * 512 + k) / 512} (omega (arith, h)),
    ap (dev.read_sector s ((sector * 512 + k) / 512)) {x = k} {y = (sector * 512 + k) % 512}
        (omega (arith, h)),
  );
  read-byte = read_data-byte dev;
  written-byte = λ s buff offset size a. write_data-byte keeps s buff offset size a;
}
