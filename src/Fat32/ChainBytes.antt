-- ===== src/Fat32/ChainBytes.antt =====
-- The chain of a file's clusters in src/fs/fat32.cpp, by its links and its bytes.
use littlevisor.Base.{
  ℕ, zero, suc, ◌+◌, ◌-◌, ◌*◌, ◌/◌, ◌%◌, ◌^◌, ◌≤◌, ◌<◌, ◌≡◌, refl, ap, ◌∙◌, false, Option, some,
  ◌==◌, arith,
}
use littlevisor.Common.{Memory}
use littlevisor.Fat32.{Ahci, Bpb, cluster_to_sector, get_entry_by_cluster, end_of_chain}
use littlevisor.Fat32.Files.{skip_clusters}

module _ (ahci : Ahci) (b : Bpb) (s : ahci.State) (sector_buff : Option Memory) where
  -- The cluster that the links reach from `clust` after `n` steps.
  unfoldable pub nth_cluster : ℕ → ℕ → ℕ
  nth_cluster zero clust = clust
  nth_cluster (suc n) clust = nth_cluster n (get_entry_by_cluster ahci b s sector_buff clust)

  -- The chain from `clust` on has clusters for `n` bytes, and they lie in the first `2 ^ 32` bytes.
  pub record Holds (clust n : ℕ) : Type 0 where
    pub linked : (j : ℕ) → j * 512 < n → nth_cluster j clust < end_of_chain
    pub within :
        (j : ℕ) → j * 512 < n → cluster_to_sector b (nth_cluster j clust) * 512 + 512 ≤ 2 ^ 32

  pub Holds-next :
      (clust n n' : ℕ)
      → n ≡ n' - 512
      → Holds clust n'
      → Holds (get_entry_by_cluster ahci b s sector_buff clust) n
  unfolding nth_cluster
  Holds-next clust n n' e h = record {
    linked = λ j lt. h.linked (suc j) (omega (arith, lt, e));
    within = λ j lt. h.within (suc j) (omega (arith, lt, e));
  }

  module _ (contents : ahci.State → Memory) where
    -- Byte `k` of the chain.
    unfoldable pub chain_byte : ℕ → ℕ → ℕ
    unfolding nth_cluster
    chain_byte clust k =
        contents s (cluster_to_sector b (nth_cluster (k / 512) clust) * 512 + k % 512)

    pub chain_byte-next :
        (clust k : ℕ)
        → chain_byte (get_entry_by_cluster ahci b s sector_buff clust) k
          ≡ chain_byte clust (k + 512)
    unfolding chain_byte nth_cluster
    chain_byte-next clust k =
        let e1 : (k + 512) / 512 ≡ suc (k / 512) = omega arith in
        let e2 : (k + 512) % 512 ≡ k % 512 = omega arith in rw (e1, e2) refl

  pub Holds-le : (clust n n' : ℕ) → n ≤ n' → Holds clust n' → Holds clust n
  Holds-le clust n n' le h = record {
    linked = λ j lt. h.linked j (omega (arith, lt, le));
    within = λ j lt. h.within j (omega (arith, lt, le));
  }

  pub first_linked : (clust n : ℕ) → Holds clust n → 0 < n → clust < end_of_chain
  unfolding nth_cluster
  first_linked clust n h some_left = h.linked 0 (omega (arith, some_left))

  pub nth_cluster-nth_cluster :
      (n j clust : ℕ) → nth_cluster j (nth_cluster n clust) ≡ nth_cluster (n + j) clust
  unfolding nth_cluster
  nth_cluster-nth_cluster zero j clust =
      ap (λ i. nth_cluster i clust) {x = j} {y = 0 + j} (omega arith)
  nth_cluster-nth_cluster (suc n) j clust =
      let next = get_entry_by_cluster ahci b s sector_buff clust in
      nth_cluster-nth_cluster n j next
      ∙ ap (λ i. nth_cluster i clust) {x = suc (n + j)} {y = suc n + j} (omega arith)

  pub chain_byte-nth_cluster :
      (contents : ahci.State → Memory) (n clust k : ℕ)
      → chain_byte contents (nth_cluster n clust) k ≡ chain_byte contents clust (n * 512 + k)
  unfolding chain_byte
  chain_byte-nth_cluster contents n clust k =
      let e1 : (n * 512 + k) / 512 ≡ n + k / 512 = omega arith in
      let e2 : (n * 512 + k) % 512 ≡ k % 512 = omega arith in
      rw (e1, e2)
        (ap (λ c. contents s (cluster_to_sector b c * 512 + k % 512))
          (nth_cluster-nth_cluster n (k / 512) clust))

  pub Holds-nth_cluster :
      (clust n m m' : ℕ) → m' ≡ n * 512 + m → Holds clust m' → Holds (nth_cluster n clust) m
  Holds-nth_cluster clust n m m' e h = record {
    linked =
        λ j lt. rw (nth_cluster-nth_cluster n j clust) (h.linked (n + j) (omega (arith, lt, e)));
    within =
        λ j lt. rw (nth_cluster-nth_cluster n j clust) (h.within (n + j) (omega (arith, lt, e)));
  }

  pub skip_clusters-nth_cluster :
      (n clust m : ℕ)
      → n * 512 < m
      → Holds clust m
      → skip_clusters ahci b n s sector_buff clust ≡ some (nth_cluster n clust)
  unfolding skip_clusters nth_cluster
  skip_clusters-nth_cluster zero clust m lt h = refl
  skip_clusters-nth_cluster (suc n) clust m lt h =
      let next = get_entry_by_cluster ahci b s sector_buff clust in
      let before_end : next < end_of_chain = h.linked 1 (omega (arith, lt)) in
      let goes : (next == end_of_chain) ≡ false = ground (arith, before_end) in
      rw goes (
        skip_clusters-nth_cluster n next (m - 512) (omega (arith, lt))
          (Holds-next clust (m - 512) m refl h))
