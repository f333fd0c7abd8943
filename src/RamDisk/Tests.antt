-- ===== src/RamDisk/Tests.antt =====
-- Runs of src/drivers/ram_disk.cpp on a disk of two sectors at address 0x10000.
use littlevisor.Base.{◌+◌, ◌*◌, ◌%◌, ◌≡◌, refl, inl, arith}
use littlevisor.Common.{Memory}
use littlevisor.RamDisk.{RamDisk, read_data, write_data, read_sector, write_sector}
use littlevisor.RamDisk.Contents.{Fits, read_data-write_data, read_sector-read_data}

abbrev disk : RamDisk
disk = record { disk_addr = 0x10000; sector_size = 512; disk_size = 1024 }

abbrev memory : Memory
memory a = a % 256

Fits-first : Fits disk 16 0x100 8
Fits-first = record { within = omega arith; addressable = omega arith; apart = inl (omega arith) }

Fits-second : Fits disk 16 0x200 8
Fits-second = record { within = omega arith; addressable = omega arith; apart = inl (omega arith) }

past_the_end : (read_sector disk memory 2 0x100).0 ≡ 1
unfolding read_sector
past_the_end = refl

read_data-write_data_example :
    (read_data disk (write_data disk memory 0x100 16 8).1 0x200 16 8).1 (0x200 + 3)
    ≡ memory (0x100 + 3)
read_data-write_data_example =
    read_data-write_data disk memory 16 0x100 0x200 8 3 Fits-first Fits-second (omega arith)

read_sector-read_data_example :
    (read_sector disk memory 1 0x100 ≡ read_data disk memory 0x100 (1 * 512) 512)
    × (write_sector disk memory 1 0x100 ≡ write_data disk memory 0x100 (1 * 512) 512)
read_sector-read_data_example = read_sector-read_data disk memory 1 0x100 (omega arith)
