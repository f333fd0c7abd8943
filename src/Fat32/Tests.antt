-- ===== src/Fat32/Tests.antt =====
-- Runs of src/fs/fat32.cpp on a disk of bytes with one chain, of the cluster 2.
use littlevisor.Base.{
  ℕ, ◌+◌, ◌-◌, ◌*◌, ◌<◌, ◌≡◌, refl, zero, suc, ◌%◌, ◌^◌, ◌≤◌, false, ◌&&◌, ◌||◌, some, [], ◌∷◌, ltb,
  leb, ◌==◌, if◌then◌else◌, arith,
}
use littlevisor.Common.{Memory, load, ktoupper}
use littlevisor.Fat32.{
  Ahci, Bpb, NameValidity, get_entry_by_cluster, write_entry_by_cluster, find_free,
  number_of_clusters, first_data_sector, cluster_to_sector, allocate_cluster, link_clusters,
  get_last_cluster, check_validity, is_forbidden,
}
use littlevisor.Fat32.Entries.{IsDisk, Addressable, get_entry_by_cluster-write_entry_by_cluster}
use littlevisor.Fat32.Files.{
  characters, last_dot, encode_name, equal_bytes, is_null, first_cluster, size_in_bytes, entry_at,
  find_entry, find_in_cluster, find_in_clusters, find_file, read_file,
}
use littlevisor.Fat32.ChainBytes.{nth_cluster, Holds, chain_byte}
use littlevisor.Fat32.FileReads.{read_file-byte}
use littlevisor.Fat32.Chains.{Chain, stop, get_last_cluster-Chain, allocate_cluster-Chain}

abbrev byte_disk : Ahci
byte_disk = record {
  State = Memory;
  read_sector = λ s sector buff k. if ltb k 512 then s (sector * 512 + k) else buff k;
  read_data = λ s buff offset size. (0, λ k. if ltb k size then s (offset + k) else buff k);
  write_data = λ s buff offset size a.
      if leb offset a && ltb a (offset + size) then buff (a - offset) else s a;
}

byte_disk-IsDisk : IsDisk byte_disk (λ s. s)
byte_disk-IsDisk = record {
  sector-byte = λ s sector buff k h. ground arith;
  read-byte = λ s buff offset size k _ _. refl;
  written-byte = λ s buff offset size a _ _. refl;
}

abbrev pub bpb : Bpb
bpb = record {
  bytes_per_sector = 512;
  sectors_per_clusted = 1;
  num_of_reserved_sectors = 1;
  num_of_fats = 1;
  large_sector_count = 100;
  sectors_per_fat = 1;
  fat_cluster_num_of_root = 2;
}

-- The entry of cluster 2 is at byte 520.
abbrev image : Memory
image a =
    if a == 520 then 0xF8 else if a == 521 || a == 522 then 0xFF else if a == 523 then 0x0F else 0

abbrev blank : Memory
blank a = 0

reachable : (c : ℕ) → c < 100 → Addressable bpb c
reachable c h = record { sector_size = refl; within = omega arith }

entry_two : get_entry_by_cluster byte_disk bpb image (some blank) 2 ≡ 0x0FFFFFF8
unfolding get_entry_by_cluster load
entry_two = refl

next_free : (allocate_cluster byte_disk bpb image (some blank)).0 ≡ 3
unfolding allocate_cluster find_free get_entry_by_cluster load
next_free = refl

dot_is_extension : check_validity (65 ∷ 0x2E ∷ 66 ∷ []) ≡ NameValidity.name_with_ext
unfolding check_validity is_forbidden
dot_is_extension = refl

Chain-two : Chain byte_disk bpb blank image 2 2 0
Chain-two = stop (reachable 2 (omega arith)) (omega (arith, entry_two))

get_entry_by_cluster-write_entry_by_cluster_example :
    get_entry_by_cluster byte_disk bpb
      (write_entry_by_cluster byte_disk bpb image 3 7)
      (some blank)
      2
    ≡ (if 2 == 3 then 7 else get_entry_by_cluster byte_disk bpb image (some blank) 2)
get_entry_by_cluster-write_entry_by_cluster_example =
    get_entry_by_cluster-write_entry_by_cluster byte_disk-IsDisk bpb image blank 3 2 7
      (reachable 3 (omega arith)) (reachable 2 (omega arith)) (omega arith)

get_last_cluster-Chain_example : get_last_cluster byte_disk bpb 1 image (some blank) 2 ≡ some 2
get_last_cluster-Chain_example =
    get_last_cluster-Chain byte_disk bpb blank 1 image Chain-two (omega arith)

allocate_cluster-Chain_example :
    Chain byte_disk bpb blank
      (link_clusters byte_disk bpb
        (allocate_cluster byte_disk bpb image (some blank)).1
        2
        (allocate_cluster byte_disk bpb image (some blank)).0)
      2
      (allocate_cluster byte_disk bpb image (some blank)).0
      1
allocate_cluster-Chain_example =
    allocate_cluster-Chain byte_disk bpb blank byte_disk-IsDisk image Chain-two
      (omega (arith, next_free)) (omega (arith, next_free))
      (rw next_free (reachable 3 (omega arith)))

abbrev pub small_bpb : Bpb
small_bpb = record bpb { large_sector_count = 4 }

-- A directory in cluster 2, at byte 1024, with the file A of 5 bytes, which is in cluster 3.
abbrev pub volume : Memory
volume a =
    if a == 524
    then 0xF8
    else if a == 525 || a == 526
    then 0xFF
    else if a == 527
    then 0x0F
    else if a == 1024
    then 65
    else if leb 1025 a && ltb a 1035
    then 0x20
    else if a == 1050
    then 3
    else if a == 1052
    then 5
    else if leb 1536 a
    then a % 251
    else 0

abbrev name_a : Memory
name_a k = if k == 0 then 97 else 0

file_found : is_null (find_file byte_disk small_bpb volume blank name_a) ≡ false
unfolding is_null find_file find_in_clusters find_in_cluster find_entry equal_bytes encode_name
    characters last_dot check_validity is_forbidden entry_at number_of_clusters first_data_sector
    cluster_to_sector ktoupper
file_found = refl

file_size : size_in_bytes (find_file byte_disk small_bpb volume blank name_a) ≡ 5
unfolding find_file find_in_clusters find_in_cluster find_entry equal_bytes encode_name characters
    last_dot check_validity is_forbidden entry_at number_of_clusters first_data_sector
    cluster_to_sector ktoupper size_in_bytes load
file_size = refl

file_start : first_cluster (find_file byte_disk small_bpb volume blank name_a) ≡ 3
unfolding find_file find_in_clusters find_in_cluster find_entry equal_bytes encode_name characters
    last_dot check_validity is_forbidden entry_at number_of_clusters first_data_sector
    cluster_to_sector ktoupper first_cluster load
file_start = refl

all_linked :
    (j : ℕ) → j * 512 < 1 + 5 → nth_cluster byte_disk small_bpb volume (some blank) j 3 < 0x0FFFFFF8
unfolding nth_cluster
all_linked zero lt = omega arith
all_linked (suc j) lt = absurd (omega (arith, lt))

all_within :
    (j : ℕ)
    → j * 512 < 1 + 5
    → cluster_to_sector small_bpb (nth_cluster byte_disk small_bpb volume (some blank) j 3) * 512
        + 512
      ≤ 2 ^ 32
unfolding nth_cluster cluster_to_sector first_data_sector
all_within zero lt = omega arith
all_within (suc j) lt = absurd (omega (arith, lt))

file-Holds : Holds byte_disk small_bpb volume (some blank) 3 (1 + 5)
file-Holds = record { linked = all_linked; within = all_within }

-- The read asks for more than the file holds.
read_file-byte_example :
    ((read_file byte_disk small_bpb volume blank (some blank) name_a blank 1 10).0 ≡ 0)
    × ((k : ℕ)
        → (read_file byte_disk small_bpb volume blank (some blank) name_a blank 1 10).1 k ≡ (
            if ltb k 5
            then chain_byte byte_disk small_bpb volume
                (some blank)
                (λ s. s)
                (first_cluster (find_file byte_disk small_bpb volume blank name_a))
                (1 + k)
            else blank k))
read_file-byte_example =
    read_file-byte byte_disk small_bpb volume (some blank) (λ s. s) byte_disk-IsDisk blank name_a
      blank 1 10 5 refl file_found (rw file_size refl) (omega arith) (omega arith)
      (rw file_start file-Holds)
