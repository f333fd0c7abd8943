-- ===== src/Common/Copies.antt =====
-- What the byte loops of src/common.cpp do to a memory.
use littlevisor.Base.{
  ℕ, zero, suc, ◌+◌, ◌-◌, ◌≤◌, ◌<◌, ◌≡◌, refl, ap, ◌∙◌, ◌⊎◌, inl, inr, ◌&&◌, ltb, leb, ◌==◌,
  if◌then◌else◌, arith, Bool-cases, ==_iff,
}
use littlevisor.Common.{
  Memory, store, kmemcpy_from, kmemcpy, kmemset_from, kmemset, kmemcmp_from, kmemcmp,
}

-- Two areas of a size with no address in common.
abbrev pub Apart : ℕ → ℕ → ℕ → Type 0
Apart dest src size = (src + size ≤ dest) ⊎ (dest + size ≤ src)

kmemcpy_from-byte :
    (left i : ℕ) (m : Memory) (dest src b : ℕ)
    → Apart dest src (i + left)
    → kmemcpy_from left i m dest src b
      ≡ (if leb (dest + i) b && ltb b (dest + i + left) then m (src + (b - dest)) else m b)
unfolding kmemcpy_from
kmemcpy_from-byte zero i m dest src b apart = ground arith
kmemcpy_from-byte (suc left) i m dest src b apart =
    let m' = store m (dest + i) (m (src + i)) in
    let apart' : Apart dest src (i + 1 + left) = elim apart [
      | inl h ↦ inl (omega arith)
      | inr h ↦ inr (omega arith)
    ] in
    kmemcpy_from-byte left (i + 1) m' dest src b apart' ∙ here
  where
    here :
        (if leb (dest + (i + 1)) b && ltb b (dest + (i + 1) + left)
          then store m (dest + i) (m (src + i)) (src + (b - dest))
          else store m (dest + i) (m (src + i)) b)
        ≡ (if leb (dest + i) b && ltb b (dest + i + suc left) then m (src + (b - dest)) else m b)
    here = elim (Bool-cases (b == dest + i)) [
      | inl e ↦ ground (arith, ap m {x = src + i} {y = src + (b - dest)} (ground arith))
      | inr ne ↦ elim apart [ inl h ↦ ground arith | inr h ↦ ground arith ]
    ]

-- `kmemcpy` between two areas that do not overlap copies the one to the other, and changes nothing
-- else.
pub kmemcpy-byte :
    (m : Memory) (dest src size b : ℕ)
    → Apart dest src size
    → kmemcpy m dest src size b
      ≡ (if leb dest b && ltb b (dest + size) then m (src + (b - dest)) else m b)
unfolding kmemcpy
kmemcpy-byte m dest src size b apart =
    kmemcpy_from-byte size 0 m dest src b
      (elim apart [ inl h ↦ inl (omega arith) | inr h ↦ inr (omega arith) ])
    ∙ ground arith

kmemset_from-byte :
    (left i : ℕ) (m : Memory) (mem val b : ℕ)
    → kmemset_from left i m mem val b
      ≡ (if leb (mem + i) b && ltb b (mem + i + left) then val else m b)
unfolding kmemset_from
kmemset_from-byte zero i m mem val b = ground arith
kmemset_from-byte (suc left) i m mem val b =
    kmemset_from-byte left (i + 1) (store m (mem + i) val) mem val b ∙ ground arith

-- `kmemset` fills the area with the value, and changes nothing else.
pub kmemset-byte :
    (m : Memory) (mem val size b : ℕ)
    → kmemset m mem val size b ≡ (if leb mem b && ltb b (mem + size) then val else m b)
unfolding kmemset
kmemset-byte m mem val size b = kmemset_from-byte size 0 m mem val b ∙ ground arith

-- Two areas hold the same bytes from `i` on.
abbrev pub Same : Memory → ℕ → ℕ → ℕ → ℕ → Type 0
Same m mem1 mem2 i size = (k : ℕ) → i ≤ k → k < size → m (mem1 + k) ≡ m (mem2 + k)

kmemcmp_from-Same :
    (left i size : ℕ) (m : Memory) (mem1 mem2 : ℕ)
    → i + left ≡ size
    → ((kmemcmp_from left i m mem1 mem2 ≡ 0) × Same m mem1 mem2 i size)
      ⊎ ((kmemcmp_from left i m mem1 mem2 ≡ 1) × ¬ Same m mem1 mem2 i size)
unfolding kmemcmp_from
kmemcmp_from-Same zero i size m mem1 mem2 e = inl (refl, λ k lo hi. absurd (omega arith))
kmemcmp_from-Same (suc left) i size m mem1 mem2 total =
    elim (Bool-cases (m (mem1 + i) == m (mem2 + i))) [
      | inl e ↦ rw e (elim (kmemcmp_from-Same left (i + 1) size m mem1 mem2 (omega arith)) [
        | inl (z, same) ↦ inl (
          z,
          λ k lo hi. elim (Bool-cases (k == i)) [
            | inl here ↦
                let at : k ≡ i = (==_iff k i).0 here in
                ground (arith, ap (λ j. m (mem1 + j)) at, ap (λ j. m (mem2 + j)) at)
            | inr there ↦ same k (ground arith) (omega arith)
          ],
        )
        | inr (o, differ) ↦ inr (o, λ same. differ (λ k lo hi. same k (omega arith) (omega arith)))
      ])
      | inr ne ↦ rw ne (inr (refl, λ same. ground (arith, same i (omega arith) (omega arith))))
    ]

-- `kmemcmp` answers 0 if the two areas hold the same bytes, and 1 if not.
pub kmemcmp-Same :
    (m : Memory) (mem1 mem2 size : ℕ)
    → ((kmemcmp m mem1 mem2 size ≡ 0) × Same m mem1 mem2 0 size)
      ⊎ ((kmemcmp m mem1 mem2 size ≡ 1) × ¬ Same m mem1 mem2 0 size)
unfolding kmemcmp
kmemcmp-Same m mem1 mem2 size = kmemcmp_from-Same size 0 size m mem1 mem2 (omega arith)
