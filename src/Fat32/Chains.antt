-- ===== src/Fat32/Chains.antt =====
-- The chains of clusters of src/fs/fat32.cpp: finding their end, and making one longer.
use mathlib.Core.Path.{subst}
use littlevisor.Base.{
  ℕ, zero, suc, ◌+◌, ◌-◌, ◌^◌, ◌≤◌, ◌<◌, ◌≡◌, refl, sym, ap, ◌∙◌, ◌⊎◌, inl, inr, false, some, leb,
  ◌==◌, if◌then◌else◌, arith, Bool-cases,
}
use littlevisor.Common.{Memory}
use littlevisor.Fat32.{
  Ahci, Bpb, end_of_chain, get_entry_by_cluster, write_entry_by_cluster, find_free,
  allocate_cluster, link_clusters, get_last_cluster,
}
use littlevisor.Fat32.Entries.{IsDisk, Addressable, get_entry_by_cluster-write_entry_by_cluster}

module _ (ahci : Ahci) (b : Bpb) (fresh : Memory) where
  abbrev entry : ahci.State → ℕ → ℕ
  entry s cluster = get_entry_by_cluster ahci b s (some fresh) cluster

  -- A chain of clusters from the first to the last, with a number of links.
  pub data Chain (s : ahci.State) : ℕ → ℕ → ℕ → Type 0 where
    stop : {c : ℕ} → Addressable b c → end_of_chain ≤ entry s c → Chain s c c 0
    link :
        {c last n : ℕ}
        → Addressable b c
        → 0 < entry s c
        → entry s c < end_of_chain
        → Chain s (entry s c) last n
        → Chain s c last (suc n)

  -- In a chain the loop of `get_last_cluster` ends, after at most one round more than there are links,
  -- with the last cluster of the chain.
  pub get_last_cluster-Chain :
      (fuel : ℕ) (s : ahci.State) {c last n : ℕ}
      → Chain s c last n
      → n < fuel
      → get_last_cluster ahci b fuel s (some fresh) c ≡ some last
  unfolding get_last_cluster
  get_last_cluster-Chain zero s chain h = absurd (omega arith)
  get_last_cluster-Chain (suc fuel) s (stop ok e) h = ground arith
  get_last_cluster-Chain (suc fuel) s (link {c} ok pos small rest) h =
      let going : leb end_of_chain (entry s c) ≡ false = ground arith in
      rw going (get_last_cluster-Chain fuel s rest (omega arith))

  last_end :
      {s : ahci.State} {c last n : ℕ}
      → Chain s c last n
      → (end_of_chain ≤ entry s last) × Addressable b last
  last_end (stop ok e) = (e, ok)
  last_end (link ok pos small rest) = last_end rest

  find_free-entry :
      (left cluster : ℕ) (s : ahci.State)
      → (find_free ahci b left cluster s (some fresh) ≡ 0)
        ⊎ (entry s (find_free ahci b left cluster s (some fresh)) ≡ 0)
  unfolding find_free
  find_free-entry zero cluster s = inl refl
  find_free-entry (suc left) cluster s = elim (Bool-cases (entry s cluster == 0)) [
    | inl e ↦ rw e (inr (ground arith))
    | inr ne ↦ rw ne (find_free-entry left (cluster + 1) s)
  ]

  module _ {contents : ahci.State → Memory} (disk : IsDisk ahci contents) where
    written :
        (s : ahci.State) (c c' value : ℕ)
        → Addressable b c
        → Addressable b c'
        → value < 2 ^ 32
        → entry (write_entry_by_cluster ahci b s c value) c'
          ≡ (if c' == c then value else entry s c')
    written s c c' value = get_entry_by_cluster-write_entry_by_cluster disk b s fresh c c' value

    module _ (s : ahci.State) (last new : ℕ) (free : entry s new ≡ 0) (ok_new : Addressable b new)
        (positive : 0 < new) (small : new < end_of_chain) where
      grown : ahci.State
      grown = link_clusters ahci b (write_entry_by_cluster ahci b s new end_of_chain) last new

      grown-entry :
          (c : ℕ)
          → Addressable b last
          → Addressable b c
          → entry grown c
            ≡ (if c == last then new else if c == new then end_of_chain else entry s c)
      unfolding grown link_clusters
      grown-entry c ok_last ok =
          written (write_entry_by_cluster ahci b s new end_of_chain) last c new ok_last ok
            (omega arith)
          ∙ ap (λ (e : ℕ). if c == last then new else e)
              (written s new c end_of_chain ok_new ok (omega arith))

      extend : {c n : ℕ} → Chain s c last n → Chain grown c new (suc n)
      extend (stop {c} ok e) =
          let other : (new == c) ≡ false =
            ground (arith, free, e, ap (entry s) {x = new} {y = c}) in
          let at_last : entry grown c ≡ new = grown-entry c ok ok ∙ ground arith in
          let at_new : entry grown new ≡ end_of_chain =
            grown-entry new ok ok_new ∙ rw other (ground arith) in
          link ok (omega (arith, at_last)) (omega (arith, at_last))
            (subst (λ k. Chain grown k new 0) (sym at_last) (stop ok_new (omega (arith, at_new))))
      extend (link {c} {n} ok pos below rest) =
          let (end, ok_last) = last_end rest in
          let not_last : (c == last) ≡ false =
            ground (arith, end, below, ap (entry s) {x = c} {y = last}) in
          let not_new : (c == new) ≡ false =
            ground (arith, free, pos, ap (entry s) {x = c} {y = new}) in
          let kept : entry grown c ≡ entry s c =
            grown-entry c ok_last ok ∙ rw (not_last, not_new) refl in
          link ok (omega (arith, kept)) (omega (arith, kept))
            (subst (λ k. Chain grown k new (suc n)) (sym kept) (extend rest))

    -- If `allocate_cluster` finds a cluster, one below the end mark and with an entry on the disk, then
    -- linking it behind the last cluster of a chain gives the chain with one more link, which ends in it.
    pub allocate_cluster-Chain :
        (s : ahci.State) {c last n : ℕ}
        → Chain s c last n
        → 0 < (allocate_cluster ahci b s (some fresh)).0
        → (allocate_cluster ahci b s (some fresh)).0 < end_of_chain
        → Addressable b (allocate_cluster ahci b s (some fresh)).0
        → let (new, s') = allocate_cluster ahci b s (some fresh) in
          Chain (link_clusters ahci b s' last new) c new (suc n)
    unfolding allocate_cluster grown
    allocate_cluster-Chain s {c} {last} chain positive small ok =
        let new = find_free ahci b (b.large_sector_count - 2) 2 s (some fresh) in
        let free : entry s new ≡ 0 = elim (find_free-entry (b.large_sector_count - 2) 2 s) [
          | inl none_free ↦ absurd (omega arith)
          | inr e ↦ e
        ] in
        extend s last new free ok positive small chain
