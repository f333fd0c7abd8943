-- ===== src/Fat32.antt =====
-- src/fs/fat32.cpp: the file allocation table, the chains of clusters in it, and the file names.
pub mod Entries
pub mod Chains
pub mod Files
pub mod ChainBytes
pub mod FileReads
pub mod FileWrites
pub mod Volume
pub mod Tests
use littlevisor.Base.{
  ℕ, zero, suc, ◌+◌, ◌-◌, ◌*◌, ◌/◌, ◌%◌, ◌^◌, ◌≤◌, ◌<◌, min, max, bit_and, bit_or, ◌≡◌, refl, sym,
  ap, fun_ext, ◌∙◌, ◌≢◌, ◌⊎◌, inl, inr, Bool, true, false, not, ◌&&◌, ◌||◌, Option, none, some,
  List, [], ◌∷◌, ◌++◌, length, get_or, get_elem?, set, length-set, get_or-set_self, get_or-set_ne,
  map, ltb, leb, ◌==◌, if◌then◌else◌, arith, Bool-cases, Option-cases, ltb→lt, lt→ltb, leb→le,
  ==_iff,
}
use littlevisor.Common.{Memory, load, store, ktoupper}

-- The disk that `init_fs` is given, src/drivers/ahci.h. A read gives what it leaves in the buffer.
pub record Ahci : Type 1 where
  pub State : Type 0
  pub read_sector : State → ℕ → Memory → Memory
  pub read_data : State → Memory → ℕ → ℕ → ℕ × Memory
  pub write_data : State → Memory → ℕ → ℕ → State

-- The fields of `BPB` and `FAT32` that fat32.cpp reads.
pub record Bpb : Type 0 where
  pub bytes_per_sector : ℕ
  pub sectors_per_clusted : ℕ
  pub num_of_reserved_sectors : ℕ
  pub num_of_fats : ℕ
  pub large_sector_count : ℕ
  pub sectors_per_fat : ℕ
  pub fat_cluster_num_of_root : ℕ

-- `first_data_sector` and `number_of_clusters`, as `init_fs` sets them.
unfoldable pub first_data_sector : Bpb → ℕ
first_data_sector b = (b.num_of_reserved_sectors + b.num_of_fats * b.sectors_per_fat) % 2 ^ 32

unfoldable pub number_of_clusters : Bpb → ℕ
unfolding first_data_sector
number_of_clusters b =
    (b.large_sector_count + 2 ^ 32 - first_data_sector b) % 2 ^ 32 / b.sectors_per_clusted

unfoldable pub cluster_to_sector : Bpb → ℕ → ℕ
unfolding first_data_sector
cluster_to_sector b cluster =
    ((cluster + 2 ^ 32 - 2) * b.sectors_per_clusted + first_data_sector b) % 2 ^ 32

abbrev pub end_of_chain : ℕ
end_of_chain = 0x0FFFFFF8

-- The bytes of a 32-bit word, lowest first, as memory.
unfoldable pub word_bytes : ℕ → Memory
word_bytes value i = value / 256 ^ i % 256

module _ (ahci : Ahci) (b : Bpb) where
  open ahci use {State, read_sector, write_data}

  -- `none` for `fresh` is a failed `kmalloc`.
  unfoldable pub get_entry_by_cluster : State → Option Memory → ℕ → ℕ
  get_entry_by_cluster s none cluster = 2 ^ 32 - 1
  get_entry_by_cluster s (some fresh) cluster =
      let offset = cluster * 4 % 2 ^ 32 in
      let fat_sector = (b.num_of_reserved_sectors + offset / 512) % 2 ^ 32 in
      load 4 (read_sector s fat_sector fresh) (offset % 512)

  unfoldable pub write_entry_by_cluster : State → ℕ → ℕ → State
  write_entry_by_cluster s cluster value =
      let offset = cluster * 4 % 2 ^ 32 in
      let fat_sector = (b.num_of_reserved_sectors + offset / 512) % 2 ^ 32 in
      let entry_pos = (fat_sector * b.bytes_per_sector + offset % 512) % 2 ^ 32 in
      write_data s (word_bytes value) entry_pos 4

  -- The search of `allocate_cluster`, over the clusters left, from `cluster` on.
  unfoldable pub find_free : ℕ → ℕ → State → Option Memory → ℕ
  find_free zero cluster s fresh = 0
  find_free (suc left) cluster s fresh =
      let rest = find_free left (cluster + 1) s fresh in
      if get_entry_by_cluster s fresh cluster == 0 then cluster else rest

  unfoldable pub allocate_cluster : State → Option Memory → ℕ × State
  allocate_cluster s fresh =
      let free_cluster = find_free (b.large_sector_count - 2) 2 s fresh in
      (free_cluster, write_entry_by_cluster s free_cluster end_of_chain)

  unfoldable pub link_clusters : State → ℕ → ℕ → State
  link_clusters s clust1 clust2 = write_entry_by_cluster s clust1 clust2

  -- `get_last_cluster` with fuel for its loop; `none` is fuel that runs out.
  unfoldable pub get_last_cluster : ℕ → State → Option Memory → ℕ → Option ℕ
  get_last_cluster zero s fresh last_clust = none
  get_last_cluster (suc fuel) s fresh last_clust =
      let clust = get_entry_by_cluster s fresh last_clust in
      let rest = get_last_cluster fuel s fresh clust in
      if leb end_of_chain clust then some last_clust else rest

  unfoldable pub traverse_cluster_chain : ℕ → State → Option Memory → ℕ → ℕ
  traverse_cluster_chain zero s fresh clust = clust
  traverse_cluster_chain (suc left) s fresh clust =
      let next = get_entry_by_cluster s fresh clust in
      let rest = traverse_cluster_chain left s fresh next in
      if leb end_of_chain next then next else rest

-- `NAME_VALIDITY`
pub data NameValidity : Type 0 where
  name_invalid name_with_ext name_without_ext : NameValidity

-- A character of `check_validity` that no name may hold. The comparisons are of signed characters,
-- and all bounds are positive.
unfoldable pub is_forbidden : ℕ → Bool
is_forbidden c =
    (leb 0x22 c && ltb c 0x2E)
    || (leb 0x3A c && leb c 0x3F)
    || c == 0x5B
    || c == 0x5C
    || c == 0x5D
    || c == 0x7C

abbrev pub has : (ℕ → Bool) → List ℕ → Bool
has test [] = false
has test (c ∷ cs) = test c || has test cs

-- A name is its characters before the closing zero byte.
unfoldable pub check_validity : List ℕ → NameValidity
unfolding is_forbidden
check_validity name =
    if ltb 12 (length name)
    then name_invalid
    else if has is_forbidden name
    then name_invalid
    else if has (λ c. c == 0x2E) name
    then name_with_ext
    else name_without_ext
