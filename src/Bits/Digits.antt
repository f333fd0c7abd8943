-- ===== src/Bits/Digits.antt =====
-- `|` and `&` digit by digit, and what that says of `bit`.
use Prim.Native.Nat.{digits, bitwise, bit_and-bitwise, bit_or-bitwise}
use native.Mathlib.Nat.{pow-suc}
use littlevisor.Base.{
  ℕ, zero, suc, ◌+◌, ◌-◌, ◌*◌, ◌/◌, ◌%◌, ◌^◌, ◌≤◌, ◌<◌, min, max, bit_and, bit_or, ◌≡◌, refl, ap,
  ◌==◌, if◌then◌else◌, arith, ◌∙◌,
}
use littlevisor.Bits.{bit, complement}

-- Two counts of digits that both suffice give one result.
module _ (rest : ℕ → ℕ) (op : ℕ → ℕ → ℕ) where
  digits_count : (m n a b : ℕ) → a ≤ m → a ≤ n → digits rest op m a b ≡ digits rest op n a b
  digits_count zero zero a b h k = refl
  digits_count zero (suc n) zero b h k = refl
  digits_count (suc m) zero zero b h k = refl
  digits_count (suc m) (suc n) zero b h k = refl
  digits_count zero n (suc a) b h k = absurd (omega arith)
  digits_count (suc m) zero (suc a) b h k = absurd (omega arith)
  digits_count (suc m) (suc n) (suc a) b h k =
      let shorter = digits_count m n (suc a / 2) (b / 2) (omega arith) (omega arith) in
      ap (λ (t : ℕ). t * 2 + op (suc a % 2) (b % 2)) shorter

  bitwise_lowest :
      (a b : ℕ)
      → bitwise rest op (suc a) b ≡ bitwise rest op (suc a / 2) (b / 2) * 2 + op (suc a % 2) (b % 2)
  bitwise_lowest a b =
      let exact = digits_count a (suc a / 2) (suc a / 2) (b / 2) (omega arith) (omega arith) in
      ap (λ (t : ℕ). t * 2 + op (suc a % 2) (b % 2)) exact

pub or_lowest : (a b : ℕ) → bit_or a b ≡ bit_or (a / 2) (b / 2) * 2 + max (a % 2) (b % 2)
or_lowest zero b = omega (arith, bit_or-bitwise 0 b, bit_or-bitwise 0 (b / 2))
or_lowest (suc a) b = simp bit_or-bitwise (bitwise_lowest (λ y. y) max a b)

pub and_lowest : (a b : ℕ) → bit_and a b ≡ bit_and (a / 2) (b / 2) * 2 + min (a % 2) (b % 2)
and_lowest zero b = omega (arith, bit_and-bitwise 0 b, bit_and-bitwise 0 (b / 2))
and_lowest (suc a) b = simp bit_and-bitwise (bitwise_lowest (λ y. 0) min a b)

pub bit-lt-two : (v k : ℕ) → bit v k < 2
unfolding bit
bit-lt-two v zero = omega arith
bit-lt-two v (suc k) = bit-lt-two (v / 2) k

pub bit-zero : (k : ℕ) → bit 0 k ≡ 0
unfolding bit
bit-zero zero = refl
bit-zero (suc k) = bit-zero k

pub bit-bit_or : (a b k : ℕ) → bit (bit_or a b) k ≡ max (bit a k) (bit b k)
unfolding bit
bit-bit_or a b zero = omega (arith, or_lowest a b)
bit-bit_or a b (suc k) =
    let e : bit_or a b / 2 ≡ bit_or (a / 2) (b / 2) = omega (arith, or_lowest a b) in
    rw e (bit-bit_or (a / 2) (b / 2) k)

pub bit-bit_and : (a b k : ℕ) → bit (bit_and a b) k ≡ min (bit a k) (bit b k)
unfolding bit
bit-bit_and a b zero = omega (arith, and_lowest a b)
bit-bit_and a b (suc k) =
    let e : bit_and a b / 2 ≡ bit_and (a / 2) (b / 2) = omega (arith, and_lowest a b) in
    rw e (bit-bit_and (a / 2) (b / 2) k)

-- `1 << j` has one bit.
pub bit-pow : (j k : ℕ) → bit (2 ^ j) k ≡ (if j == k then 1 else 0)
unfolding bit
bit-pow zero zero = refl
bit-pow zero (suc k) = bit-zero k ∙ ground arith
bit-pow (suc j) zero = ground (arith, pow-suc 2 j)
bit-pow (suc j) (suc k) =
    let e : 2 ^ suc j / 2 ≡ 2 ^ j = omega (arith, pow-suc 2 j) in rw e (bit-pow j k ∙ ground arith)

-- `~v` has the bits that `v` lacks.
pub bit-complement : (w v k : ℕ) → v < 2 ^ w → k < w → bit (complement w v) k ≡ 1 - bit v k
unfolding bit
bit-complement zero v k fits h = absurd (omega arith)
bit-complement (suc w) v zero fits h = omega (arith, pow-suc 2 w)
bit-complement (suc w) v (suc k) fits h =
    let e : complement (suc w) v / 2 ≡ complement w (v / 2) = omega (arith, pow-suc 2 w) in
    rw e (bit-complement w (v / 2) k (omega (arith, pow-suc 2 w)) (omega arith))
