-- ===== src/Bits/Fields.antt =====
-- `|` with a value above or below another, and `&` with a mask of low or of high bits.
use native.Mathlib.Nat.{pow-suc, pow-succ', one-le-pow, div-div-eq-div-mul, mul-add-mod_self_right}
use native.Mathlib.Nat.{mod-eq_of_lt, div-add-mod', div-one, mod-one, div-eq_of_lt}
use littlevisor.Base.{
  ℕ, zero, suc, ◌+◌, ◌-◌, ◌*◌, ◌/◌, ◌%◌, ◌^◌, ◌≤◌, ◌<◌, min, max, bit_and, bit_or, ◌≡◌, refl, sym,
  ap, arith, ◌∙◌,
}
use littlevisor.Bits.{bit}
use native.Mathlib.Nat.{pow-le-pow_right}
use littlevisor.Bits.Digits.{or_lowest, and_lowest}

halve : (n : ℕ) → suc n / 2 ≤ n
halve n = omega arith

and-zero_below : (n a : ℕ) → a ≤ n → bit_and a 0 ≡ 0
and-zero_below n zero h = refl
and-zero_below zero (suc a) h = absurd (omega arith)
and-zero_below (suc n) (suc a) h =
    omega (arith, and_lowest (suc a) 0, and-zero_below n (suc a / 2) (omega arith))

or-zero_below : (n a : ℕ) → a ≤ n → bit_or a 0 ≡ a
or-zero_below n zero h = refl
or-zero_below zero (suc a) h = absurd (omega arith)
or-zero_below (suc n) (suc a) h =
    omega (arith, or_lowest (suc a) 0, or-zero_below n (suc a / 2) (omega arith))

pub bit_and-zero : (a : ℕ) → bit_and a 0 ≡ 0
bit_and-zero a = and-zero_below a a (omega arith)

pub bit_or-zero : (a : ℕ) → bit_or a 0 ≡ a
bit_or-zero a = or-zero_below a a (omega arith)

-- A shift by one more place.
pub div-pow-suc : (v k : ℕ) → v / 2 ^ suc k ≡ v / 2 / 2 ^ k
div-pow-suc v k = rw pow-succ' (sym (div-div-eq-div-mul v 2 (2 ^ k)))

mod_of_sum : (q r m : ℕ) → r < m → (q * m + r) % m ≡ r
mod_of_sum q r m h = mul-add-mod_self_right q m r ∙ mod-eq_of_lt h

pub mod-pow-suc : (v k : ℕ) → v % 2 ^ suc k ≡ v / 2 % 2 ^ k * 2 + v % 2
mod-pow-suc v k =
    ap (λ (t : ℕ). t % 2 ^ suc k) e
    ∙ mod_of_sum (v / 2 / 2 ^ k) (v / 2 % 2 ^ k * 2 + v % 2) (2 ^ suc k) small
  where
    pos : 0 < 2 ^ k
    pos = one-le-pow k 2 (omega arith)

    small : v / 2 % 2 ^ k * 2 + v % 2 < 2 ^ suc k
    small = omega (arith, pos, pow-suc 2 k)

    e : v ≡ v / 2 / 2 ^ k * 2 ^ suc k + (v / 2 % 2 ^ k * 2 + v % 2)
    e = omega (arith, div-add-mod' (v / 2) (2 ^ k), ap (λ (t : ℕ). v / 2 / 2 ^ k * t) (pow-suc 2 k))

-- A mask of `k` low bits keeps the remainder by `2 ^ k`.
pub bit_and-low : (k a : ℕ) → bit_and a (2 ^ k - 1) ≡ a % 2 ^ k
bit_and-low zero a = omega (arith, bit_and-zero a)
bit_and-low (suc k) a =
    let e : (2 ^ suc k - 1) / 2 ≡ 2 ^ k - 1 = omega (arith, pow-suc 2 k) in
    let odd : (2 ^ suc k - 1) % 2 ≡ 1 = omega (arith, pow-suc 2 k, one-le-pow k 2) in
    and_lowest a (2 ^ suc k - 1) ∙ rw (e, odd, bit_and-low k (a / 2), mod-pow-suc a k) (omega arith)

-- `|` acts on the part above bit `k` by itself.
pub bit_or-div : (k a b : ℕ) → bit_or a b / 2 ^ k ≡ bit_or (a / 2 ^ k) (b / 2 ^ k)
bit_or-div zero a b = simp div-one
bit_or-div (suc k) a b =
    let e : bit_or a b / 2 ≡ bit_or (a / 2) (b / 2) = omega (arith, or_lowest a b) in
    rw (div-pow-suc (bit_or a b) k, div-pow-suc a k, div-pow-suc b k, e)
      (bit_or-div k (a / 2) (b / 2))

-- `|` with a value of `k` bits leaves what stands above them.
pub bit_or-div_low : (k a b : ℕ) → b < 2 ^ k → bit_or a b / 2 ^ k ≡ a / 2 ^ k
bit_or-div_low k a b h = bit_or-div k a b ∙ rw (div-eq_of_lt h) (bit_or-zero (a / 2 ^ k))

mod-pow_half : (v k : ℕ) → v % 2 ^ suc k / 2 ≡ v / 2 % 2 ^ k
mod-pow_half v k = omega (arith, mod-pow-suc v k)

mod-pow_last : (v k : ℕ) → v % 2 ^ suc k % 2 ≡ v % 2
mod-pow_last v k = omega (arith, mod-pow-suc v k)

-- `|` acts on the `k` lowest bits by itself.
pub bit_or-mod : (k a b : ℕ) → bit_or a b % 2 ^ k ≡ bit_or (a % 2 ^ k) (b % 2 ^ k)
bit_or-mod zero a b = simp mod-one
bit_or-mod (suc k) a b =
    let half : bit_or a b / 2 ≡ bit_or (a / 2) (b / 2) = omega (arith, or_lowest a b) in
    let last : bit_or a b % 2 ≡ max (a % 2) (b % 2) = omega (arith, or_lowest a b) in
    mod-pow-suc (bit_or a b) k
    ∙ rw (half, last, bit_or-mod k (a / 2) (b / 2))
        (sym (
          or_lowest (a % 2 ^ suc k) (b % 2 ^ suc k)
          ∙ simp (mod-pow_half a k, mod-pow_half b k, mod-pow_last a k, mod-pow_last b k)))

-- A mask that clears the `k` lowest of `w` bits.
pub bit_and-high : (k w a : ℕ) → k ≤ w → a < 2 ^ w → bit_and a (2 ^ w - 2 ^ k) ≡ a / 2 ^ k * 2 ^ k
bit_and-high zero w a h fits = bit_and-low w a ∙ mod-eq_of_lt fits ∙ omega (arith, div-one a)
bit_and-high (suc k) zero a h fits = absurd (omega arith)
bit_and-high (suc k) (suc w) a h fits =
    let low = and_lowest a (2 ^ suc w - 2 ^ suc k) in
    let halved : (2 ^ suc w - 2 ^ suc k) / 2 ≡ 2 ^ w - 2 ^ k =
      omega (arith, pow-suc 2 w, pow-suc 2 k) in
    let even : (2 ^ suc w - 2 ^ suc k) % 2 ≡ 0 = omega (arith, pow-suc 2 w, pow-suc 2 k) in
    let ih = bit_and-high k w (a / 2) (omega arith) (omega (arith, pow-suc 2 w)) in
    low
    ∙ rw (halved, even, ih, div-pow-suc a k)
        (omega (arith, ap (λ (t : ℕ). a / 2 / 2 ^ k * t) (pow-suc 2 k)))

-- Disjoint fields: `(q << k) | r` is a sum.
pub bit_or_fields : (k q r : ℕ) → r < 2 ^ k → bit_or (q * 2 ^ k) r ≡ q * 2 ^ k + r
bit_or_fields zero q r fits =
    let e : r ≡ 0 = omega arith in rw e (bit_or-zero (q * 1) ∙ omega arith)
bit_or_fields (suc k) q r fits =
    let e : q * 2 ^ suc k ≡ q * 2 ^ k * 2 = omega (arith, ap (λ (t : ℕ). q * t) (pow-suc 2 k)) in
    let ih = bit_or_fields k q (r / 2) (omega (arith, pow-suc 2 k)) in
    let half : q * 2 ^ k * 2 / 2 ≡ q * 2 ^ k = omega arith in
    let even : q * 2 ^ k * 2 % 2 ≡ 0 = omega arith in
    rw e (or_lowest (q * 2 ^ k * 2) r ∙ rw (half, even, ih) (omega arith))

pub bit_or-lt : (k a b : ℕ) → a < 2 ^ k → b < 2 ^ k → bit_or a b < 2 ^ k
bit_or-lt zero a b ha hb =
    let ea : a ≡ 0 = omega arith in let eb : b ≡ 0 = omega arith in rw (ea, eb) (omega arith)
bit_or-lt (suc k) a b ha hb = omega (
  arith,
  or_lowest a b,
  pow-suc 2 k,
  bit_or-lt k (a / 2) (b / 2) (omega (arith, pow-suc 2 k)) (omega (arith, pow-suc 2 k)),
)

-- `&` acts on the part above bit `k`, and on the part below it, by itself.
pub bit_and-div : (k a b : ℕ) → bit_and a b / 2 ^ k ≡ bit_and (a / 2 ^ k) (b / 2 ^ k)
bit_and-div zero a b = simp div-one
bit_and-div (suc k) a b =
    let e : bit_and a b / 2 ≡ bit_and (a / 2) (b / 2) = omega (arith, and_lowest a b) in
    rw (div-pow-suc (bit_and a b) k, div-pow-suc a k, div-pow-suc b k, e)
      (bit_and-div k (a / 2) (b / 2))

pub bit_and-mod : (k a b : ℕ) → bit_and a b % 2 ^ k ≡ bit_and (a % 2 ^ k) (b % 2 ^ k)
bit_and-mod zero a b = simp mod-one
bit_and-mod (suc k) a b =
    let half : bit_and a b / 2 ≡ bit_and (a / 2) (b / 2) = omega (arith, and_lowest a b) in
    let last : bit_and a b % 2 ≡ min (a % 2) (b % 2) = omega (arith, and_lowest a b) in
    mod-pow-suc (bit_and a b) k
    ∙ rw (half, last, bit_and-mod k (a / 2) (b / 2))
        (sym (
          and_lowest (a % 2 ^ suc k) (b % 2 ^ suc k)
          ∙ simp (mod-pow_half a k, mod-pow_half b k, mod-pow_last a k, mod-pow_last b k)))

-- The arithmetic form of a bit.
pub bit-eq-div : (k v : ℕ) → bit v k ≡ v / 2 ^ k % 2
unfolding bit
bit-eq-div zero v = omega (arith, div-one v)
bit-eq-div (suc k) v = bit-eq-div k (v / 2) ∙ ap (λ (t : ℕ). t % 2) (sym (div-pow-suc v k))

pub two-pow-lt : (j w : ℕ) → j < w → 2 ^ j < 2 ^ w
two-pow-lt j w h = omega (
  arith,
  pow-suc 2 j,
  one-le-pow j 2,
  pow-le-pow_right {n = 2} (omega arith) {i = suc j} {j = w} h,
)

-- The low bits of a word are those of its remainder.
pub bit-mod : (k v j : ℕ) → j < k → bit (v % 2 ^ k) j ≡ bit v j
unfolding bit
bit-mod zero v j h = absurd (omega arith)
bit-mod (suc k) v zero h = mod-pow_last v k
bit-mod (suc k) v (suc j) h = rw (mod-pow_half v k) (bit-mod k (v / 2) j (omega arith))
