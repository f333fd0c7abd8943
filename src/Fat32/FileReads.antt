-- ===== src/Fat32/FileReads.antt =====
-- `readFile` of src/fs/fat32.cpp against the chain of a file's clusters, on volumes with one sector in
-- a cluster.
use littlevisor.Base.{
  ℕ, zero, suc, ◌+◌, ◌-◌, ◌*◌, ◌/◌, ◌%◌, ◌^◌, ◌≤◌, ◌<◌, min, ◌≡◌, refl, sym, ap, ◌∙◌, inl, inr,
  true, false, ◌&&◌, Option, ltb, leb, if◌then◌else◌, arith, Bool-cases, ltb→lt,
}
use littlevisor.Common.{Memory}
use littlevisor.Fat32.{Ahci, Bpb, cluster_to_sector, get_entry_by_cluster, end_of_chain}
use littlevisor.Fat32.Entries.{IsDisk}
use littlevisor.Fat32.Files.{
  first_cluster, size_in_bytes, is_null, find_file, read_into, read_cluster, read_clusters,
  read_chain, read_file,
}
use littlevisor.Fat32.ChainBytes.{
  Holds-nth_cluster, skip_clusters-nth_cluster, chain_byte-nth_cluster, chain_byte-next, Holds-next,
  Holds-le, first_linked, nth_cluster, chain_byte, Holds,
}

smaller : (n m : ℕ) → (if ltb n m then n else m) ≡ min n m
smaller n m = ground arith

module _ (ahci : Ahci) (b : Bpb) (s : ahci.State) (sector_buff : Option Memory) where
  module _ (contents : ahci.State → Memory) (disk : IsDisk ahci contents) where
    -- A read from a place inside the first cluster.
    read_into-byte :
        (buff : Memory) (clust at from n k : ℕ)
        → Holds ahci b s sector_buff clust (from + n)
        → from + n ≤ 512
        → 0 < n
        → read_into ahci b s buff at ((cluster_to_sector b clust * 512 + from) % 2 ^ 32) n k ≡ (
            if leb at k && ltb k (at + n)
            then chain_byte ahci b s sector_buff contents clust (from + (k - at))
            else buff k)
    unfolding read_into chain_byte nth_cluster
    read_into-byte buff clust at from n k h small wide =
        let within : cluster_to_sector b clust * 512 + 512 ≤ 2 ^ 32 =
          h.within 0 (omega (arith, wide)) in
        let pos = (cluster_to_sector b clust * 512 + from) % 2 ^ 32 in
        let exact : pos ≡ cluster_to_sector b clust * 512 + from =
          omega (arith, within, small, wide) in
        elim (Bool-cases (leb at k)) [
          | inl behind ↦ rw behind (
              disk.read-byte s (λ j. buff (at + j)) pos n (k - at)
                (omega (arith, exact, within, small)) (omega (arith, small))
              ∙ elim (Bool-cases (ltb (k - at) n)) [
                | inl near ↦
                    let e1 : (from + (k - at)) / 512 ≡ 0 = ground (arith, near, small) in
                    let e2 : (from + (k - at)) % 512 ≡ from + (k - at) =
                      ground (arith, near, small) in
                    let inside : ltb k (at + n) ≡ true = ground (arith, near, behind) in
                    rw (near, inside, e1, e2)
                      (ap (contents s) {x = pos + (k - at)}
                        {y = cluster_to_sector b clust * 512 + (from + (k - at))}
                        (omega (arith, exact)))
                | inr far ↦
                    let outside : ltb k (at + n) ≡ false = ground (arith, far, behind) in
                    rw (far, outside) (ap buff {x = at + (k - at)} {y = k} (ground (arith, behind)))
              ])
          | inr before ↦ rw before refl
        ]

    -- One cluster, which holds one sector.
    read_cluster-byte :
        (size : ℕ) (buff : Memory) (clust offset : ℕ)
        → size < 2 ^ 31
        → offset < size
        → Holds ahci b s sector_buff clust (size - offset)
        → let r = read_cluster ahci b 1 s (cluster_to_sector b clust) size buff offset in
          ((k : ℕ)
            → r.0 k ≡ (
                if leb offset k && ltb k (min (offset + 512) size)
                then chain_byte ahci b s sector_buff contents clust (k - offset)
                else buff k))
          × (r.1 ≡ min (offset + 512) size)
    unfolding read_cluster
    read_cluster-byte size buff clust offset small more h =
        let n = if ltb 512 (size - offset) then 512 else size - offset in
        let sector = cluster_to_sector b clust in
        let read = read_into ahci b s buff offset (sector * 512 % 2 ^ 32) n in
        let same : read_cluster ahci b 1 s sector size buff offset ≡ (read, (offset + n) % 2 ^ 32) =
          elim (Bool-cases (leb size ((offset + n) % 2 ^ 32))) [
            | inl e ↦ rw e refl
            | inr e ↦ rw e refl
          ] in
        let moved : (offset + n) % 2 ^ 32 ≡ min (offset + 512) size = ground (arith, small, more) in
        let sum : offset + n ≡ min (offset + 512) size = ground (arith, small, more) in
        (
          λ k.
              ap (λ (q : Memory × ℕ). q.0 k) same
              ∙ ap (λ o. read_into ahci b s buff offset o n k) {x = sector * 512 % 2 ^ 32}
                  {y = (sector * 512 + 0) % 2 ^ 32} (omega arith)
              ∙ read_into-byte buff clust offset 0 n k
                  (Holds-le ahci b s sector_buff clust (0 + n) (size - offset) (ground arith) h)
                  (ground arith) (ground (arith, more))
              ∙ rw sum (
                  ap
                    (λ j.
                      if leb offset k && ltb k (min (offset + 512) size)
                      then chain_byte ahci b s sector_buff contents clust j
                      else buff k)
                    {x = 0 + (k - offset)} {y = k - offset} (omega arith)),
          ap (λ (q : Memory × ℕ). q.1) same ∙ moved,
        )

    read_clusters-byte :
        (fuel size : ℕ) (buff : Memory) (clust offset : ℕ)
        → b.sectors_per_clusted ≡ 1
        → size < 2 ^ 31
        → size < offset + fuel
        → Holds ahci b s sector_buff clust (size - offset)
        → (k : ℕ)
        → read_clusters ahci b fuel s sector_buff size clust buff offset k ≡ (
            if leb offset k && ltb k size
            then chain_byte ahci b s sector_buff contents clust (k - offset)
            else buff k)
    unfolding read_clusters
    read_clusters-byte zero size buff clust offset one small enough h k = ground (arith, enough)
    read_clusters-byte (suc fuel) size buff clust offset one small enough h k =
        elim (Bool-cases (ltb offset size)) [
          | inl on ↦
              let more : offset < size = ltb→lt offset size on in
              let here : clust < end_of_chain =
                first_linked ahci b s sector_buff clust (size - offset) h (omega (arith, more)) in
              let first : ltb clust end_of_chain ≡ true = ground (arith, here) in
              let sector = cluster_to_sector b clust in
              let r = read_cluster ahci b b.sectors_per_clusted s sector size buff offset in
              let same : r ≡ read_cluster ahci b 1 s sector size buff offset =
                ap (λ c. read_cluster ahci b c s sector size buff offset) one in
              let (bytes, at1) = read_cluster-byte size buff clust offset small more h in
              let at : r.1 ≡ min (offset + 512) size = ap (λ (q : Memory × ℕ). q.1) same ∙ at1 in
              let next = get_entry_by_cluster ahci b s sector_buff clust in
              rw (first, on)
                (read_clusters-byte fuel size r.0 next r.1 one small
                    (omega (arith, at, more, enough))
                    (Holds-next ahci b s sector_buff clust (size - r.1) (size - offset)
                      (omega (arith, at, more)) h)
                    k
                  ∙ elim (Bool-cases (leb r.1 k && ltb k size)) [
                    | inl later ↦ rw later (
                        chain_byte-next ahci b s sector_buff contents clust (k - r.1)
                        ∙ ground (
                          arith,
                          at,
                          later,
                          more,
                          ap (chain_byte ahci b s sector_buff contents clust) {x = k - r.1 + 512}
                              {y = k - offset} (ground (arith, at, later, more)),
                        ))
                    | inr now ↦ rw now (
                        ap (λ (q : Memory × ℕ). q.0 k) same
                        ∙ bytes k
                        ∙ ground (arith, at, now, more))
                  ])
          | inr off ↦
              let stop : (ltb clust end_of_chain && ltb offset size) ≡ false =
                ground (arith, off) in
              rw stop (ground (arith, off))
        ]

    -- A read that begins inside the first cluster.
    read_chain-byte :
        (size : ℕ) (buff : Memory) (clust from : ℕ)
        → b.sectors_per_clusted ≡ 1
        → size < 2 ^ 31
        → 0 < size
        → from < 512
        → Holds ahci b s sector_buff clust (from + size)
        → (k : ℕ)
        → read_chain ahci b s sector_buff size clust from buff k ≡ (
            if ltb k size
            then chain_byte ahci b s sector_buff contents clust (from + k)
            else buff k)
    unfolding read_chain
    read_chain-byte size buff clust from one small wide inside h k =
        elim (Bool-cases (ltb 0 from)) [
          | inl partial ↦
              let exact : (512 + 2 ^ 32 - from) % 2 ^ 32 ≡ 512 - from =
                omega (arith, inside, ltb→lt 0 from partial) in
              let part = 512 - from in
              let n = if ltb size part then size else part in
              let next = get_entry_by_cluster ahci b s sector_buff clust in
              let pos = (cluster_to_sector b clust * 512 + from) % 2 ^ 32 in
              let first =
                read_into-byte buff clust 0 from n k
                  (Holds-le ahci b s sector_buff clust (from + n) (from + size) (ground arith) h)
                  (ground (arith, inside)) (ground (arith, inside, wide)) in
              rw (partial, exact)
                (read_clusters-byte (size + 1) size (read_into ahci b s buff 0 pos n) next part one
                    small (omega arith)
                    (Holds-next ahci b s sector_buff clust (size - part) (from + size)
                      (omega (arith, inside)) h)
                    k
                  ∙ elim (Bool-cases (leb part k && ltb k size)) [
                    | inl later ↦ rw later (
                        chain_byte-next ahci b s sector_buff contents clust (k - part)
                        ∙ ground (
                          arith,
                          later,
                          ap (chain_byte ahci b s sector_buff contents clust) {x = k - part + 512}
                              {y = from + k} (ground (arith, later, inside)),
                        ))
                    | inr now ↦ rw now (
                        first
                        ∙ ground (
                          arith,
                          now,
                          ap (chain_byte ahci b s sector_buff contents clust) {x = from + (k - 0)}
                              {y = from + k} (omega arith),
                        ))
                  ])
          | inr aligned ↦
              let zero_from : from ≡ 0 = ground (arith, aligned) in
              rw aligned (
                read_clusters-byte (size + 1) size buff clust 0 one small (omega arith)
                  (Holds-le ahci b s sector_buff clust (size - 0) (from + size) (omega arith) h) k
                ∙ ground (
                  arith,
                  ap (chain_byte ahci b s sector_buff contents clust) {x = k - 0} {y = from + k}
                      (omega (arith, zero_from)),
                ))
        ]

  -- On a volume with one sector in a cluster, if the file is found, is not empty, and its chain has
  -- clusters for all bytes up to the end of the request, then `readFile` succeeds: it gives as many
  -- bytes as are asked for, at most the size of the file, which are those of the chain from `pos` on,
  -- and it leaves the rest of the buffer as it was.
  pub read_file-byte :
      (contents : ahci.State → Memory) (disk : IsDisk ahci contents) (fresh filename buff : Memory)
      (pos wanted size : ℕ)
      → let fd = find_file ahci b s fresh filename in
        b.sectors_per_clusted ≡ 1
        → is_null fd ≡ false
        → size ≡ min (size_in_bytes fd) wanted
        → 0 < size
        → size < 2 ^ 31
        → Holds ahci b s sector_buff (first_cluster fd) (pos + size)
        → let r = read_file ahci b s fresh sector_buff filename buff pos wanted in
          (r.0 ≡ 0)
          × ((k : ℕ)
              → r.1 k ≡ (
                  if ltb k size
                  then chain_byte ahci b s sector_buff contents (first_cluster fd) (pos + k)
                  else buff k))
  unfolding read_file
  read_file-byte contents disk fresh filename buff pos wanted size one found e wide small h =
      let fd = find_file ahci b s fresh filename in
      let clust = first_cluster fd in
      let n = pos / 512 in
      let cut : (if ltb (size_in_bytes fd) wanted then size_in_bytes fd else wanted) ≡ size =
        smaller (size_in_bytes fd) wanted ∙ sym e in
      let width : b.sectors_per_clusted * 512 ≡ 512 = omega (arith, one) in
      let skip =
        skip_clusters-nth_cluster ahci b s sector_buff n clust (pos + size) (omega (arith, wide))
          h in
      let there =
        Holds-nth_cluster ahci b s sector_buff clust n (pos % 512 + size) (pos + size) (omega arith)
          h in
      rw (found, width, skip)
        (
          refl,
          λ k.
              rw (cut, width)
                (read_chain-byte contents disk size (λ j. if ltb j size then 0 else buff j)
                    (nth_cluster ahci b s sector_buff n clust) (pos % 512) one small wide
                    (omega arith) there k
                  ∙ elim (Bool-cases (ltb k size)) [
                    | inl inside ↦ rw inside (
                        chain_byte-nth_cluster ahci b s sector_buff contents n clust (pos % 512 + k)
                        ∙ ap (chain_byte ahci b s sector_buff contents clust)
                            {x = n * 512 + (pos % 512 + k)} {y = pos + k} (omega arith))
                    | inr outside ↦ rw outside refl
                  ]),
        )
