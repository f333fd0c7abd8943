-- ===== src/Ata/Tests.antt =====
-- Runs of src/vm_drivers/ata_pio.cpp on a disk of four-byte sectors, and on a file as the disk.
use littlevisor.Base.{
  ℕ, zero, suc, ◌+◌, ◌-◌, ◌*◌, ◌≡◌, refl, true, false, ◌&&◌, List, [], ◌∷◌, ltb, leb, if◌then◌else◌,
  arith,
}
use littlevisor.Bits.{bit}
use littlevisor.Common.{Memory}
use littlevisor.Vfs.{FileSystem, Descriptor, empty}
use littlevisor.Ata.{
  StorageDevice, AtaRegisters, TransferType, AtaDevice, Transaction, bytes_at, width,
  handle_read_data,
}
use littlevisor.Ata.Transfer.{read_all, Delivered, read_all-Delivered}
use littlevisor.Ata.Storage.{read_data, Access, read_data-Access}

abbrev counting_disk : StorageDevice
counting_disk = record {
  Disk = Memory;
  read_sector = λ disk sector buff at.
      (λ b. if leb at b && ltb b (at + 4) then disk (sector * 4 + (b - at)) else buff b, disk);
  write_sector = λ disk sector buff at. (
    buff,
    λ a.
        if leb (sector * 4) a && ltb a (sector * 4 + 4)
        then buff (at + (a - sector * 4))
        else disk a,
  );
  sector_size = 4;
}

abbrev registers : AtaRegisters
registers = record {
  data_reg = 0;
  error_reg = 0;
  features_reg = 0;
  sec_count_reg = 2;
  sec_num_reg = 1;
  cylinder_high_reg = 0;
  drive_head_reg = 0;
  status_reg = 0;
  cmd_reg = 0;
  alt_status_reg = 0;
  dev_ctrl_reg = 0;
  drive_addr_reg = 0;
}

abbrev device : AtaDevice
device = record {
  registers = registers;
  transfer_type = TransferType.read_sectors;
  device_in_transfer = true;
  transfer_buff = λ i. 7 + i;
  buff_offset = 2;
  size_remaining = 8;
}

abbrev word_read : Transaction
word_read = record {
  port = 0x1F0;
  is_read = true;
  sz8 = false;
  sz16 = true;
  sz32 = false;
  written_val = 0;
}

three_words : (read_all 3 device word_read).0 ≡ 9 ∷ 10 ∷ 11 ∷ 12 ∷ 13 ∷ 14 ∷ []
unfolding read_all handle_read_data width bytes_at
three_words = refl

read_all-Delivered_example : Delivered word_read 3 device (bit 0 3)
unfolding width
read_all-Delivered_example =
    read_all-Delivered word_read 3 device refl refl (omega arith) (omega arith) (omega arith)
      (omega arith)

abbrev image : FileSystem
image = record {
  Disk = Memory;
  check_file_exists = λ disk name. true;
  read_file =
      λ disk name buff position size. (0, λ i. if ltb i size then disk (position + i) else buff i);
  write_file = λ disk name buff position size. (0, disk);
  get_file_size = λ disk name. 4096;
}

abbrev none_open : ℕ → List Descriptor
none_open zero = []
none_open (suc k) = empty ∷ none_open k

read_data-Access_example :
    Access image
      (λ i. 65)
      512
      (λ a. a)
      (none_open 100)
      (λ i. 0)
      0
      1024
      512
      (read_data image (λ i. 65) 512 ((λ a. a), none_open 100) (λ i. 0) 0 1024 512)
read_data-Access_example =
    read_data-Access image (λ i. 65) 512 (λ a. a) (none_open 100) (λ i. 0) 0 1024 512 refl
