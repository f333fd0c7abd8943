-- ===== src/Fat32/Volume.antt =====
-- A volume of src/fs/fat32.cpp as the file system that src/fs/vfs.cpp opens files on.
use littlevisor.Base.{ℕ, Option, none, some}
use littlevisor.Common.{Memory}
use littlevisor.Vfs.{FileSystem}
use littlevisor.Fat32.{Ahci, Bpb}
use littlevisor.Fat32.Files.{read_file, get_file_size, check_file_exists}
use littlevisor.Fat32.FileWrites.{write_file}

-- `fresh` and `sector_buff` are what arrays and `kmalloc` give, and `fuel` bounds the loops of
-- `writeFile`: with a loop that does not end in it, the disk stays as it was.
abbrev pub file_system : Ahci → Bpb → Memory → Option Memory → ℕ → FileSystem
file_system ahci b fresh sector_buff fuel = record {
  Disk = ahci.State;
  check_file_exists = λ s name. check_file_exists ahci b s fresh name;
  read_file = λ s name buff pos size. read_file ahci b s fresh sector_buff name buff pos size;
  write_file = λ s name buff pos size.
      elim (write_file ahci b fuel s fresh sector_buff name buff pos size) [
        | none ↦ (0, s)
        | some r ↦ r
      ];
  get_file_size = λ s name. get_file_size ahci b s fresh name;
}
