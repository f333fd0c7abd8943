-- ===== src/Common/Text/Order.antt =====
-- `kToLittleEndian` of src/common.cpp against the order of bytes that it converts from.
use littlevisor.Base.{
  ℕ, zero, suc, ◌+◌, ◌-◌, ◌*◌, ◌/◌, ◌%◌, ◌^◌, ◌<◌, bit_and, ◌≡◌, refl, sym, ap, ◌∙◌, arith,
}
use native.Mathlib.Nat.{
  pow-suc, div-div-eq-div-mul, add-mul, mul_assoc, mul_comm, one-le-pow, mul-lt-mul_of_pos_right,
}
use littlevisor.Bits.Fields.{bit_and-low, bit_or_fields}
use littlevisor.Common.Text.{swap_from, kto_little_endian}

-- The number that `n` bytes spell with the highest one first: they are those of `value`, from the
-- lowest one on, behind the digits of `high`.
unfoldable pub big_endian : ℕ → ℕ → ℕ → ℕ
big_endian zero value high = high
big_endian (suc n) value high = big_endian n (value / 256) (high * 256 + value % 256)

pow-eight : (n : ℕ) → 2 ^ (8 * suc n) ≡ 256 * 2 ^ (8 * n)
pow-eight n =
    let e : 8 * suc n ≡ suc (suc (suc (suc (suc (suc (suc (suc (8 * n)))))))) = omega arith in
    rw e (
      omega (
        arith,
        pow-suc 2 (8 * n),
        pow-suc 2 (suc (8 * n)),
        pow-suc 2 (suc (suc (8 * n))),
        pow-suc 2 (suc (suc (suc (8 * n)))),
        pow-suc 2 (suc (suc (suc (suc (8 * n))))),
        pow-suc 2 (suc (suc (suc (suc (suc (8 * n)))))),
        pow-suc 2 (suc (suc (suc (suc (suc (suc (8 * n))))))),
        pow-suc 2 (suc (suc (suc (suc (suc (suc (suc (8 * n)))))))),
      ))

swap_from-big_endian :
    (left i value high : ℕ)
    → i + left ≡ 8
    → swap_from left i value (high * 2 ^ (8 * left)) ≡ big_endian left (value / 2 ^ (i * 8)) high
unfolding swap_from big_endian
swap_from-big_endian zero i value high e = omega arith
swap_from-big_endian (suc left) i value high e =
    let p = 2 ^ (8 * left) in
    let a = value / 2 ^ (i * 8) in
    let byte = a % 256 in
    let low : bit_and a 255 ≡ byte = bit_and-low 8 a in
    let place : (7 - i) * 8 ≡ 8 * left = omega (arith, e) in
    let small : byte * p < 2 ^ (8 * suc left) = rw (pow-eight left) (
      mul-lt-mul_of_pos_right {m = byte} {n = 256} {k = p} (omega arith)
        (one-le-pow (8 * left) 2 (omega arith))) in
    let joined : high * 2 ^ (8 * suc left) + byte * p ≡ (high * 256 + byte) * p =
      ap (λ t. t + byte * p) (ap (λ t. high * t) (pow-eight left) ∙ sym (mul_assoc high 256 p))
      ∙ sym (add-mul (high * 256) byte p) in
    let next : value / 2 ^ ((i + 1) * 8) ≡ a / 256 =
      ap (λ t. value / t)
        (ap (λ t. 2 ^ t) {x = (i + 1) * 8} {y = 8 * suc i} (omega arith)
          ∙ pow-eight i
          ∙ mul_comm 256 (2 ^ (8 * i))
          ∙ ap (λ t. 2 ^ t * 256) {x = 8 * i} {y = i * 8} (omega arith))
      ∙ sym (div-div-eq-div-mul value (2 ^ (i * 8)) 256) in
    rw (low, place, bit_or_fields (8 * suc left) high (byte * p) small, joined)
      (swap_from-big_endian left (i + 1) value (high * 256 + byte) (omega (arith, e))
        ∙ ap (λ t. big_endian left t (high * 256 + byte)) next)

-- `kToLittleEndian` of 64 bits is the number that the eight bytes of its argument spell from the
-- lowest one on, with the first one as the highest.
pub kto_little_endian-big_endian : (value : ℕ) → kto_little_endian value ≡ big_endian 8 value 0
unfolding kto_little_endian
kto_little_endian-big_endian value =
    let start : 0 * 2 ^ (8 * 8) ≡ 0 = omega arith in
    let whole : value / 2 ^ (0 * 8) ≡ value = omega arith in
    ap (swap_from 8 0 value) (sym start)
    ∙ swap_from-big_endian 8 0 value 0 refl
    ∙ ap (λ v. big_endian 8 v 0) whole
