-- ===== src/Ahci/Tests.antt =====
-- Runs of src/drivers/ahci.cpp on a disk of bytes, and commands for one sector.
use littlevisor.Base.{
  ℕ, zero, suc, ◌+◌, ◌-◌, ◌*◌, ◌/◌, ◌%◌, ◌^◌, ◌≤◌, ◌<◌, ◌≡◌, refl, false, ◌&&◌, some, [], ◌∷◌, ltb,
  leb, ◌==◌, if◌then◌else◌, arith,
}
use littlevisor.Common.{Memory}
use littlevisor.Ahci.{Sectors, read_data, write_data}
use littlevisor.Ahci.Reads.{contents}
use littlevisor.Ahci.Writes.{Keeps, write_data-byte}
use littlevisor.Ahci.Disk.{driver, driver-IsDisk}
use littlevisor.Ahci.Command.{Port, commit_transaction, choose_port}
use littlevisor.Ahci.Slots.{Committed, commit_transaction-Committed}
use littlevisor.Ahci.Files.{vread_file-byte}
use littlevisor.Vfs.{Descriptor, name_pointer, vread_file}
use littlevisor.Fat32.{
  first_data_sector, number_of_clusters, cluster_to_sector, check_validity, is_forbidden,
}
use littlevisor.Fat32.Files.{
  characters, last_dot, encode_name, equal_bytes, is_null, first_cluster, size_in_bytes, entry_at,
  find_entry, find_in_cluster, find_in_clusters, find_file,
}
use littlevisor.Fat32.ChainBytes.{nth_cluster, Holds, chain_byte}
use littlevisor.Fat32.Volume.{file_system}
use littlevisor.Fat32.Entries.{IsDisk}
use littlevisor.Fat32.Tests.{small_bpb, volume}
use littlevisor.Common.{load, ktoupper}
use littlevisor.Ahci.{read_start, read_loop, read_end, copy, first_size, goes_on}

abbrev byte_disk : Sectors
byte_disk = record {
  State = Memory;
  read_sector = λ s n k. s (n * 512 + k);
  write_sector = λ s n buff a. if a / 512 == n then buff (a % 512) else s a;
}

byte_disk-Keeps : Keeps byte_disk
byte_disk-Keeps = record {
  sector-byte = λ s n buff m k h.
      let e1 : (m * 512 + k) / 512 ≡ m = omega (arith, h) in
      let e2 : (m * 512 + k) % 512 ≡ k = omega (arith, h) in rw (e1, e2) refl;
}

abbrev numbered : Memory
numbered a = a % 251

abbrev blank : Memory
blank a = 0

-- 1300 bytes from byte 500 on reach over four sectors.
write_data-byte_example :
    contents byte_disk (write_data byte_disk numbered blank 500 1300).1 499 ≡ (
      if leb 500 499 && ltb 499 (500 + 1300)
      then blank (499 - 500)
      else contents byte_disk numbered 499)
write_data-byte_example =
    write_data-byte byte_disk-Keeps numbered blank 500 1300 499 (omega arith) (omega arith)

driver-IsDisk_example : IsDisk (driver byte_disk) (contents byte_disk)
driver-IsDisk_example = driver-IsDisk byte_disk-Keeps

-- The slots 0 and 1 are in use.
abbrev busy : Port
busy = record { pxcmd = 0; pxsig = 0x101; pxsctl = 0; pxsact = 1; pxci = 2 }

commit_transaction-Committed_example :
    Committed busy 0xffff800000001000 7 false (commit_transaction busy 0xffff800000001000 7 1 false)
commit_transaction-Committed_example =
    commit_transaction-Committed busy 0xffff800000001000 7 false (omega arith) (omega arith)
      (omega arith)

last_disk_is_chosen : choose_port (0 ∷ 0x101 ∷ 0xEB140101 ∷ 0x101 ∷ 0 ∷ []) 0 0 ≡ 3
unfolding choose_port
last_disk_is_chosen = refl

-- The file A is open, at its second byte.
abbrev opened : Descriptor
opened = record { filename = 97 ∷ []; position = 1; occupied = 1 }

abbrev entry : Memory
entry = find_file (driver byte_disk) small_bpb volume blank (name_pointer opened)

entry_found : is_null entry ≡ false
unfolding find_file find_in_clusters find_in_cluster find_entry equal_bytes encode_name characters
    last_dot check_validity is_forbidden entry_at number_of_clusters first_data_sector
    cluster_to_sector ktoupper name_pointer read_data read_start read_loop read_end copy first_size
    goes_on is_null
entry_found = refl

entry_size : size_in_bytes entry ≡ 5
unfolding find_file find_in_clusters find_in_cluster find_entry equal_bytes encode_name characters
    last_dot check_validity is_forbidden entry_at number_of_clusters first_data_sector
    cluster_to_sector ktoupper name_pointer read_data read_start read_loop read_end copy first_size
    goes_on size_in_bytes load
entry_size = refl

entry_start : first_cluster entry ≡ 3
unfolding find_file find_in_clusters find_in_cluster find_entry equal_bytes encode_name characters
    last_dot check_validity is_forbidden entry_at number_of_clusters first_data_sector
    cluster_to_sector ktoupper name_pointer read_data read_start read_loop read_end copy first_size
    goes_on first_cluster load
entry_start = refl

all_linked :
    (j : ℕ)
    → j * 512 < 1 + 5
    → nth_cluster (driver byte_disk) small_bpb volume (some blank) j 3 < 0x0FFFFFF8
unfolding nth_cluster
all_linked zero lt = omega arith
all_linked (suc j) lt = absurd (omega (arith, lt))

all_within :
    (j : ℕ)
    → j * 512 < 1 + 5
    → cluster_to_sector small_bpb (nth_cluster (driver byte_disk) small_bpb volume (some blank) j 3)
          * 512
        + 512
      ≤ 2 ^ 32
unfolding nth_cluster cluster_to_sector first_data_sector
all_within zero lt = omega arith
all_within (suc j) lt = absurd (omega (arith, lt))

chain-Holds : Holds (driver byte_disk) small_bpb volume (some blank) 3 (1 + 5)
chain-Holds = record { linked = all_linked; within = all_within }

vread_file-byte_example :
    let r =
      vread_file
        (file_system (driver byte_disk) small_bpb blank (some blank) 0)
        volume
        (opened ∷ [])
        0
        blank
        10 in
    (r.0 ≡ 0)
    × ((k : ℕ)
        → r.1 k ≡ (
            if ltb k 5
            then chain_byte
                (driver byte_disk)
                small_bpb
                volume
                (some blank)
                (contents byte_disk)
                (first_cluster entry)
                (1 + k)
            else blank k))
vread_file-byte_example =
    vread_file-byte byte_disk-Keeps small_bpb volume blank (some blank) 0 (opened ∷ []) 0 blank 10 5
      (omega arith) refl entry_found (rw entry_size refl) (omega arith) (omega arith)
      (rw entry_start chain-Holds)
