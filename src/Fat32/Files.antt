-- ===== src/Fat32/Files.antt =====
-- The files of src/fs/fat32.cpp: the search for the entry of a name, and the reading, writing and
-- making of files.
use littlevisor.Base.{
  ℕ, zero, suc, ◌+◌, ◌-◌, ◌*◌, ◌/◌, ◌%◌, ◌^◌, bit_or, Bool, true, not, ◌&&◌, Option, none, some,
  List, [], ◌∷◌, length, ltb, leb, ◌==◌, if◌then◌else◌,
}
use littlevisor.Common.{Memory, load, ktoupper}
use littlevisor.Fat32.{
  Ahci, Bpb, NameValidity, number_of_clusters, cluster_to_sector, get_entry_by_cluster,
  check_validity, end_of_chain,
}

-- The characters before the zero byte, at most `left`: 13 are enough for `check_validity`, which
-- refuses more than 12.
unfoldable pub characters : ℕ → ℕ → Memory → List ℕ
characters zero i name = []
characters (suc left) i name =
    let rest = characters left (i + 1) name in if name i == 0 then [] else name i ∷ rest

-- The index of the last dot, or 0.
unfoldable pub last_dot : List ℕ → ℕ → ℕ → ℕ
last_dot [] i dot_idx = dot_idx
last_dot (c ∷ cs) i dot_idx = last_dot cs (i + 1) (if c == 0x2E then i else dot_idx)

-- `encode_name`: what it leaves in the 12 bytes that held `encoded_name`.
unfoldable pub encode_name : Memory → Memory → Memory
unfolding characters last_dot check_validity
encode_name name encoded_name =
    let chars = characters 13 0 name in
    let dot_idx = last_dot chars 0 0 in
    let upper : Memory → Memory = λ m b. if ltb b 12 then ktoupper (m b) else encoded_name b in
    elim (check_validity chars) [
      | NameValidity.name_invalid ↦ encoded_name
      | NameValidity.name_with_ext ↦ upper (λ b.
          if leb 8 b && ltb b 11
          then name (dot_idx + 1 + (b - 8))
          else if ltb b dot_idx
          then name b
          else 0x20)
      | NameValidity.name_without_ext ↦ upper (λ b. if ltb b (length chars) then name b else 0x20)
    ]

-- `kmemcmp(&m[i], &m'[j], n) == 0`, between two arrays.
unfoldable pub equal_bytes : ℕ → Memory → ℕ → Memory → ℕ → Bool
equal_bytes zero m i m' j = true
equal_bytes (suc n) m i m' j = m i == m' j && equal_bytes n m (i + 1) m' (j + 1)

-- An entry of a directory, `FILE_DESCRIPTOR`, is its 32 bytes.
abbrev pub null_fd : Memory
null_fd b = 0

unfoldable pub is_null : Memory → Bool
unfolding equal_bytes
is_null fd = equal_bytes 32 fd 0 null_fd 0

unfoldable pub first_cluster : Memory → ℕ
first_cluster fd = bit_or (load 2 fd 26) (load 2 fd 20 / 2 ^ 16)

unfoldable pub size_in_bytes : Memory → ℕ
size_in_bytes fd = load 4 fd 28

-- The entry that begins at `offset` of a sector.
unfoldable pub entry_at : Memory → ℕ → Memory
entry_at sector offset b = if ltb b 32 then sector (offset + b) else 0

-- The search through the entries of a sector that are left: the offset of the first one that has
-- the name.
unfoldable pub find_entry : ℕ → ℕ → Memory → Memory → Option ℕ
unfolding equal_bytes
find_entry zero offset sector name = none
find_entry (suc left) offset sector name =
    let rest = find_entry left (offset + 32) sector name in
    if equal_bytes 11 sector offset name 0 then some offset else rest

module _ (ahci : Ahci) (b : Bpb) where
  open ahci use {State, read_sector, read_data, write_data}

  -- The number of entries in a sector, `bytes_per_sector / 32` rounded up.
  abbrev pub entries_per_sector : ℕ
  entries_per_sector = (b.bytes_per_sector + 31) / 32

  -- The search of `findFile` through the sectors of a cluster that are left; every round reads the
  -- first one. `none` goes on, and `some` is the result: a read that fails gives the empty entry.
  unfoldable pub find_in_cluster : ℕ → ℕ → State → Memory → Memory → Option Memory
  unfolding find_entry entry_at
  find_in_cluster zero curr_clust s fresh name = none
  find_in_cluster (suc left) curr_clust s fresh name =
      let (status, sector) =
        read_data s fresh (cluster_to_sector b curr_clust * 512 % 2 ^ 32) 512 in
      let rest = find_in_cluster left curr_clust s fresh name in
      if status == 1 then some null_fd else elim (find_entry entries_per_sector 0 sector name) [
        | some offset ↦ some (entry_at sector offset)
        | none ↦ rest
      ]

  unfoldable pub find_in_clusters : ℕ → ℕ → State → Memory → Memory → Memory
  unfolding find_in_cluster
  find_in_clusters zero curr_clust s fresh name = null_fd
  find_in_clusters (suc left) curr_clust s fresh name =
      let rest = find_in_clusters left (curr_clust + 1) s fresh name in
      elim (find_in_cluster b.sectors_per_clusted curr_clust s fresh name) [
        | some fd ↦ fd
        | none ↦ rest
      ]

  -- `findFile`. `fresh` is what its arrays hold before they are written.
  unfoldable pub find_file : State → Memory → Memory → Memory
  unfolding find_in_clusters encode_name
  find_file s fresh filename =
      find_in_clusters (number_of_clusters b - 1) 2 s fresh (encode_name filename fresh)

  -- A read to `&buff[at]`.
  unfoldable pub read_into : State → Memory → ℕ → ℕ → ℕ → Memory
  read_into s buff at offset size k =
      if leb at k then (read_data s (λ j. buff (at + j)) offset size).1 (k - at) else buff k

  -- The first loop of `readFile`; `none` is its early return.
  unfoldable pub skip_clusters : ℕ → State → Option Memory → ℕ → Option ℕ
  skip_clusters zero s sector_buff fat_entry = some fat_entry
  skip_clusters (suc left) s sector_buff fat_entry =
      let next = get_entry_by_cluster ahci b s sector_buff fat_entry in
      let rest = skip_clusters left s sector_buff next in
      if next == end_of_chain then none else rest

  -- The reads of one cluster, all of them from its first sector: the buffer and the offset.
  unfoldable pub read_cluster : ℕ → State → ℕ → ℕ → Memory → ℕ → Memory × ℕ
  unfolding read_into
  read_cluster zero s sector size buff offset = (buff, offset)
  read_cluster (suc left) s sector size buff offset =
      let size_to_read = if ltb 512 (size - offset) then 512 else size - offset in
      let buff' = read_into s buff offset (sector * 512 % 2 ^ 32) size_to_read in
      let offset' = (offset + size_to_read) % 2 ^ 32 in
      let rest = read_cluster left s sector size buff' offset' in
      if leb size offset' then (buff', offset') else rest

  -- The second loop of `readFile`, with fuel.
  unfoldable pub read_clusters : ℕ → State → Option Memory → ℕ → ℕ → Memory → ℕ → Memory
  unfolding read_cluster
  read_clusters zero s sector_buff size fat_entry buff offset = buff
  read_clusters (suc fuel) s sector_buff size fat_entry buff offset =
      let (buff', offset') =
        read_cluster b.sectors_per_clusted s (cluster_to_sector b fat_entry) size buff offset in
      let rest =
        read_clusters fuel s sector_buff size (get_entry_by_cluster ahci b s sector_buff fat_entry)
          buff' offset' in
      if ltb fat_entry end_of_chain && ltb offset size then rest else buff

  -- `readFile` from the cluster of `pos` on, whose first sector is read from `offset_of_data` on.
  unfoldable pub read_chain : State → Option Memory → ℕ → ℕ → ℕ → Memory → Memory
  unfolding read_into read_clusters
  read_chain s sector_buff size fat_entry offset_of_data buff =
      let sector = cluster_to_sector b fat_entry in
      let part = (512 + 2 ^ 32 - offset_of_data) % 2 ^ 32 in
      let size_to_read = if ltb size part then size else part in
      let next = get_entry_by_cluster ahci b s sector_buff fat_entry in
      if ltb 0 offset_of_data
      then read_clusters (size + 1) s sector_buff size next
          (read_into s buff 0 ((sector * 512 + offset_of_data) % 2 ^ 32) size_to_read) part
      else read_clusters (size + 1) s sector_buff size fat_entry buff 0

  -- `readFile`: the status and the buffer. `sector_buff` is what `kmalloc` gives.
  unfoldable pub read_file : State → Memory → Option Memory → Memory → Memory → ℕ → ℕ → ℕ × Memory
  unfolding find_file is_null skip_clusters read_chain first_cluster size_in_bytes
  read_file s fresh sector_buff filename buff pos wanted =
      let fd = find_file s fresh filename in
      let size = if ltb (size_in_bytes fd) wanted then size_in_bytes fd else wanted in
      let cleared : Memory = λ k. if ltb k size then 0 else buff k in
      let cluster_size = b.sectors_per_clusted * 512 in
      if is_null fd
      then (1, buff)
      else elim (skip_clusters (pos / cluster_size) s sector_buff (first_cluster fd)) [
        | none ↦ (1, cleared)
        | some fat_entry ↦ (0, read_chain s sector_buff size fat_entry (pos % cluster_size) cleared)
      ]

  unfoldable pub get_file_size : State → Memory → Memory → ℕ
  unfolding find_file is_null size_in_bytes
  get_file_size s fresh filename =
      let fd = find_file s fresh filename in if is_null fd then 0 else size_in_bytes fd

  unfoldable pub check_file_exists : State → Memory → Memory → Bool
  unfolding find_file is_null
  check_file_exists s fresh filename = not (is_null (find_file s fresh filename))
