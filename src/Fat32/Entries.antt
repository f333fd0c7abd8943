-- ===== src/Fat32/Entries.antt =====
-- The entries of the table of src/fs/fat32.cpp: what is written is read back, and alone.
use native.Mathlib.Nat.{div-one}
use littlevisor.Base.{
  ℕ, zero, suc, ◌+◌, ◌-◌, ◌*◌, ◌/◌, ◌%◌, ◌^◌, ◌≤◌, ◌<◌, ◌≡◌, refl, sym, ap, ◌∙◌, inl, inr, ◌&&◌,
  some, ltb, leb, ◌==◌, if◌then◌else◌, arith, Bool-cases, ==_iff,
}
use littlevisor.Common.{Memory, load}
use littlevisor.Fat32.{Ahci, Bpb, word_bytes, get_entry_by_cluster, write_entry_by_cluster}

-- A disk of bytes, with sectors of 512 of them: a read answers its bytes, and a write
-- changes its bytes and no other. Addresses of bytes have 32 bits.
pub record IsDisk (ahci : Ahci) (contents : ahci.State → Memory) : Type 0 where
  pub sector-byte :
      (s : ahci.State) (sector : ℕ) (buff : Memory) (k : ℕ)
      → k < 512
      → ahci.read_sector s sector buff k ≡ contents s (sector * 512 + k)
  pub read-byte :
      (s : ahci.State) (buff : Memory) (offset size k : ℕ)
      → offset + size ≤ 2 ^ 32
      → size < 2 ^ 32
      → (ahci.read_data s buff offset size).1 k
        ≡ (if ltb k size then contents s (offset + k) else buff k)
  pub written-byte :
      (s : ahci.State) (buff : Memory) (offset size a : ℕ)
      → offset + size ≤ 2 ^ 32
      → size < 2 ^ 32
      → contents (ahci.write_data s buff offset size) a
        ≡ (if leb offset a && ltb a (offset + size) then buff (a - offset) else contents s a)

-- The entry of a cluster lies within the first `2 ^ 32` bytes of a disk with sectors of 512.
pub record Addressable (b : Bpb) (cluster : ℕ) : Type 0 where
  pub sector_size : b.bytes_per_sector ≡ 512
  pub within : b.num_of_reserved_sectors * 512 + cluster * 4 + 4 ≤ 2 ^ 32

load-same :
    (n : ℕ) (m m' : Memory) (i j : ℕ)
    → ((k : ℕ) → k < n → m (i + k) ≡ m' (j + k))
    → load n m i ≡ load n m' j
unfolding load
load-same zero m m' i j same = refl
load-same (suc n) m m' i j same =
    let first : m i ≡ m' j =
      ap m {x = i} {y = i + 0} (omega arith)
      ∙ same 0 (omega arith)
      ∙ ap m' {x = j + 0} {y = j} (omega arith) in
    let rest = load-same n m m' (i + 1) (j + 1) (λ k h.
      ap m {x = i + 1 + k} {y = i + (k + 1)} (omega arith)
      ∙ same (k + 1) (omega arith)
      ∙ ap m' {x = j + (k + 1)} {y = j + 1 + k} (omega arith)) in
    omega (arith, first, rest)

load-word_bytes : (value : ℕ) → value < 2 ^ 32 → load 4 (word_bytes value) 0 ≡ value
unfolding load word_bytes
load-word_bytes value h = omega (arith, div-one value)

module _ {ahci : Ahci} {contents : ahci.State → Memory} (disk : IsDisk ahci contents)
    (b : Bpb) where
  open disk use {sector-byte, written-byte}

  -- Where the entry of a cluster begins.
  place : ℕ → ℕ
  place cluster = b.num_of_reserved_sectors * 512 + cluster * 4

  entry_bytes :
      (s : ahci.State) (fresh : Memory) (cluster : ℕ)
      → Addressable b cluster
      → get_entry_by_cluster ahci b s (some fresh) cluster ≡ load 4 (contents s) (place cluster)
  unfolding get_entry_by_cluster place
  entry_bytes s fresh cluster ok =
      let offset = cluster * 4 % 2 ^ 32 in
      let sector = (b.num_of_reserved_sectors + offset / 512) % 2 ^ 32 in
      load-same 4 (ahci.read_sector s sector fresh) (contents s) (offset % 512) (place cluster)
        (λ k h.
          sector-byte s sector fresh (offset % 512 + k) (omega arith)
          ∙ ap (contents s) {x = sector * 512 + (offset % 512 + k)} {y = place cluster + k}
              (omega (arith, ok.within)))

  entry_write :
      (s : ahci.State) (cluster value a : ℕ)
      → Addressable b cluster
      → contents (write_entry_by_cluster ahci b s cluster value) a ≡ (
          if leb (place cluster) a && ltb a (place cluster + 4)
          then word_bytes value (a - place cluster)
          else contents s a)
  unfolding write_entry_by_cluster place
  entry_write s cluster value a ok =
      let offset = cluster * 4 % 2 ^ 32 in
      let sector = (b.num_of_reserved_sectors + offset / 512) % 2 ^ 32 in
      let pos = (sector * b.bytes_per_sector + offset % 512) % 2 ^ 32 in
      let at : pos ≡ place cluster = rw ok.sector_size (omega (arith, ok.within)) in
      written-byte s (word_bytes value) pos 4 a (omega (arith, at, ok.within)) (omega arith)
      ∙ rw at refl

  -- If sectors have 512 bytes, both entries lie within the first `2 ^ 32` bytes of the disk, the value
  -- has 32 bits and `kmalloc` gives a buffer, then an entry that is written is read back as it was
  -- written, by its value, and no other entry changes.
  pub get_entry_by_cluster-write_entry_by_cluster :
      (s : ahci.State) (fresh : Memory) (written read value : ℕ)
      → Addressable b written
      → Addressable b read
      → value < 2 ^ 32
      → get_entry_by_cluster ahci b
          (write_entry_by_cluster ahci b s written value)
          (some fresh)
          read
        ≡ (if read == written then value else get_entry_by_cluster ahci b s (some fresh) read)
  unfolding place
  get_entry_by_cluster-write_entry_by_cluster s fresh written read value w r small =
      let s' = write_entry_by_cluster ahci b s written value in
      entry_bytes s' fresh read r ∙ elim (Bool-cases (read == written)) [
        | inl e ↦
            let same : read ≡ written = (==_iff read written).0 e in
            rw e (
              load-same 4 (contents s') (word_bytes value) (place read) 0 (λ k h.
                entry_write s written value (place read + k) w
                ∙ ground (
                  arith,
                  same,
                  ap (word_bytes value) {x = place read + k - place written} {y = 0 + k}
                      (omega (arith, same)),
                ))
              ∙ load-word_bytes value small)
        | inr ne ↦ rw ne (
            load-same 4 (contents s') (contents s) (place read) (place read)
              (λ k h. entry_write s written value (place read + k) w ∙ ground arith)
            ∙ sym (entry_bytes s fresh read r))
      ]
