-- ===== src/Fat32/FileWrites.antt =====
-- `createFile`, `writeFile` and `write_to_filedesc` of src/fs/fat32.cpp.
use littlevisor.Base.{
  ℕ, zero, suc, ◌+◌, ◌-◌, ◌*◌, ◌/◌, ◌%◌, ◌^◌, not, ◌&&◌, ◌||◌, Option, none, some, ltb, leb, ◌==◌,
  if◌then◌else◌,
}
use littlevisor.Common.{Memory}
use littlevisor.Fat32.{
  Ahci, Bpb, number_of_clusters, cluster_to_sector, get_entry_by_cluster, allocate_cluster,
  link_clusters, get_last_cluster, traverse_cluster_chain, end_of_chain,
}
use littlevisor.Fat32.Files.{
  null_fd, is_null, first_cluster, size_in_bytes, find_entry, find_file, equal_bytes,
  entries_per_sector,
}

-- The first free entry of a directory's sector, from `offset` on.
unfoldable pub find_free_entry : ℕ → ℕ → Memory → Option ℕ
unfolding equal_bytes
find_free_entry zero offset sector = none
find_free_entry (suc left) offset sector =
    let rest = find_free_entry left (offset + 32) sector in
    if equal_bytes 32 null_fd 0 sector offset then some offset else rest

-- The 32 bytes of an entry with another size.
unfoldable pub set_size : Memory → ℕ → Memory
set_size fd size k = if leb 28 k && ltb k 32 then size / 256 ^ (k - 28) % 256 else fd k

module _ (ahci : Ahci) (b : Bpb) where
  open ahci use {State, read_data, write_data}

  -- The loop of `createFile`, with fuel: the position of a free entry, or 0. A position of 0 does
  -- not end the loop.
  unfoldable pub find_position : ℕ → State → Option Memory → ℕ → ℕ → ℕ
  unfolding find_free_entry
  find_position zero s sector_buff curr_clust entry_pos = entry_pos
  find_position (suc fuel) s sector_buff curr_clust entry_pos =
      let at = cluster_to_sector b curr_clust * 512 % 2 ^ 32 in
      let clust_buff = (read_data s null_fd at b.bytes_per_sector).1 in
      let entry_pos' : ℕ = elim (find_free_entry 16 0 clust_buff) [
        | some i ↦ (at + i) % 2 ^ 32
        | none ↦ entry_pos
      ] in
      let next = get_entry_by_cluster ahci b s sector_buff curr_clust in
      let rest = find_position fuel s sector_buff next entry_pos' in
      if ltb curr_clust end_of_chain && entry_pos == 0 then rest else entry_pos

  -- The entry for a new file, before the last call, and after it: the call reads the disk.
  unfoldable pub create_file : ℕ → State → Option Memory → Memory → State × Memory
  unfolding find_position
  create_file fuel s sector_buff filename =
      let entry_pos = find_position fuel s sector_buff b.fat_cluster_num_of_root 0 in
      let (first_clust, s') = allocate_cluster ahci b s sector_buff in
      let free_fd : Memory = λ k.
        if ltb k 11
        then filename k
        else if leb 26 k && ltb k 28
        then first_clust % 2 ^ 16 / 256 ^ (k - 26) % 256
        else if leb 20 k && ltb k 22
        then first_clust / 2 ^ 16 % 2 ^ 16 / 256 ^ (k - 20) % 256
        else 0 in
      (s', (read_data s' free_fd entry_pos 32).1)

  -- A round of `write_to_filedesc` at a sector: an entry with the name is replaced.
  unfoldable pub replace_in_sector : State → Memory → ℕ → Memory → Memory → State
  unfolding find_entry
  replace_in_sector s fresh sector_num filename fd =
      let sector = (read_data s fresh (sector_num * 512 % 2 ^ 32) 512).1 in
      elim (find_entry (entries_per_sector ahci b) 0 sector filename) [
        | none ↦ s
        | some offset ↦ write_data s fd ((sector_num * b.bytes_per_sector + offset) % 2 ^ 32) 32
      ]

  unfoldable pub replace_in_cluster : ℕ → ℕ → State → Memory → Memory → Memory → State
  unfolding replace_in_sector
  replace_in_cluster zero sector_num s fresh filename fd = s
  replace_in_cluster (suc left) sector_num s fresh filename fd =
      replace_in_cluster left ((sector_num + 1) % 2 ^ 32)
        (replace_in_sector s fresh sector_num filename fd) fresh filename fd

  unfoldable pub replace_in_clusters : ℕ → ℕ → State → Memory → Memory → Memory → State
  unfolding replace_in_cluster
  replace_in_clusters zero curr_clust s fresh filename fd = s
  replace_in_clusters (suc left) curr_clust s fresh filename fd =
      replace_in_clusters left (curr_clust + 1)
        (replace_in_cluster b.sectors_per_clusted (cluster_to_sector b curr_clust) s fresh filename
          fd)
        fresh filename fd

  unfoldable pub write_to_filedesc : State → Memory → Memory → Memory → State
  unfolding replace_in_clusters
  write_to_filedesc s fresh filename fd =
      replace_in_clusters (number_of_clusters b - 2) 2 s fresh filename fd

  -- The second loop of `writeFile`, with fuel; `none` is fuel that runs out. The buffer is always
  -- written from the same offset, and to the position of a sector's number.
  unfoldable pub write_rest : ℕ → State → Option Memory → Memory → ℕ → ℕ → ℕ → Option State
  write_rest zero s sector_buff buff write_cluster last_file_cluster remaining_size = none
  write_rest (suc fuel) s sector_buff buff write_cluster last_file_cluster remaining_size =
      let next = traverse_cluster_chain ahci b 1 s sector_buff write_cluster in
      let (new_cluster, s1) = allocate_cluster ahci b s sector_buff in
      let s2 = link_clusters ahci b s1 last_file_cluster new_cluster in
      let cluster_size = b.bytes_per_sector * b.sectors_per_clusted in
      let size_to_write =
        if ltb cluster_size remaining_size then cluster_size else remaining_size in
      let at_end = next == last_file_cluster in
      let cluster = if at_end then new_cluster else next in
      let s' =
        write_data (if at_end then s2 else s) buff (cluster_to_sector b cluster) size_to_write in
      let rest =
        write_rest fuel s' sector_buff buff cluster
          (if at_end then new_cluster else last_file_cluster) (remaining_size - size_to_write) in
      if ltb 0 remaining_size then rest else some s

  -- `writeFile`: the status and the disk; `none` is a loop that does not end in its fuel.
  unfoldable pub write_file :
      ℕ → State → Memory → Option Memory → Memory → Memory → ℕ → ℕ → Option (ℕ × State)
  unfolding write_rest write_to_filedesc set_size
  write_file fuel s fresh sector_buff filename buff pos size =
      let fd = find_file ahci b s fresh filename in
      let cluster_size = b.sectors_per_clusted * 512 in
      let first = first_cluster fd in
      let write_cluster = traverse_cluster_chain ahci b (pos / cluster_size) s sector_buff first in
      let old_size = size_in_bytes fd in
      let remaining_clust_size =
        (b.bytes_per_sector * b.sectors_per_clusted + 2 ^ 32 - old_size % 512) % 2 ^ 32 in
      let size_to_write = if ltb remaining_clust_size size then remaining_clust_size else size in
      let position =
        (cluster_to_sector b write_cluster * b.bytes_per_sector + pos % cluster_size) % 2 ^ 32 in
      let fills = not (old_size % 512 == 0) || old_size == 0 in
      let s1 = if fills then write_data s buff position size_to_write else s in
      let offset = if fills then size_to_write else 0 in
      let grown =
        if ltb old_size ((pos + size) % 2 ^ 32) then (old_size + size) % 2 ^ 32 else old_size in
      let finish : ℕ → Option (ℕ × State) = λ last_file_cluster.
        elim (write_rest fuel s1 sector_buff (λ k. buff (offset + k)) write_cluster
          last_file_cluster (size - offset)) [
            | none ↦ none
            | some s2 ↦ some (0, write_to_filedesc s2 fresh fd (set_size fd grown))
          ] in
      if is_null fd then some (0, s) else elim (get_last_cluster ahci b fuel s sector_buff first) [
        | none ↦ none
        | some last_file_cluster ↦ finish last_file_cluster
      ]
