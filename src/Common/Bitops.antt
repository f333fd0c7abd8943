-- ===== src/Common/Bitops.antt =====
-- What the bit operations of src/common.h do to the bits of a word, and to the bytes of a memory.
use Prim.Native.Nat.{bit_and-bitwise}
use native.Mathlib.Nat.{
  div-eq_of_lt, mod-eq_of_lt, mod-lt, div_self, one-le-pow, add-zero, pow-suc, pow-succ',
  div-div-eq-div-mul, div-one,
}
use littlevisor.Base.{
  ℕ, zero, suc, ◌+◌, ◌-◌, ◌/◌, ◌%◌, ◌^◌, ◌<◌, bit_and, bit_or, ◌≡◌, refl, sym, ap, ◌∙◌, inl, inr,
  ◌&&◌, ltb, leb, ◌==◌, if◌then◌else◌, arith, Bool-cases,
}
use littlevisor.Bits.{bit}
use littlevisor.Bits.Digits.{bit-bit_or, bit-bit_and, bit-pow, bit-complement, bit-lt-two}
use littlevisor.Bits.Fields.{
  bit_and-low, bit_or-div_low, bit_or-mod, bit_or-lt, bit_and-div, bit_and-mod, bit-eq-div, bit-mod,
  two-pow-lt,
}
use littlevisor.Common.{Memory, getbit, getbit_val, setbit, clearbit, load, write}

-- `getbit` reads one binary digit.
pub getbit-bit : (v k : ℕ) → getbit v k ≡ bit v k
unfolding getbit
getbit-bit v k = bit_and-low 1 (v / 2 ^ k) ∙ sym (bit-eq-div k v)

module _ (w v j k : ℕ) (inside : j < w) where
  pub bit-setbit : bit (setbit w v j) k ≡ (if k == j then 1 else bit v k)
  unfolding setbit
  bit-setbit =
      rw (mod-eq_of_lt (two-pow-lt j w inside), bit-bit_or, bit-pow)
        (ground (arith, bit-lt-two v k))

  pub bit-clearbit : k < w → bit (clearbit w v j) k ≡ (if k == j then 0 else bit v k)
  unfolding clearbit
  bit-clearbit h =
      let small = two-pow-lt j w inside in
      rw (mod-eq_of_lt small, bit-bit_and, bit-complement w (2 ^ j) k small h, bit-pow)
        (ground (arith, bit-lt-two v k))

-- Every address holds a byte.
abbrev pub Bytes : Memory → Type 0
Bytes m = (a : ℕ) → m a < 256

-- Byte `k` of a little-endian word.
pub load_byte :
    (n : ℕ) {m : Memory} → Bytes m → (i k : ℕ) → k < n → load n m i / 256 ^ k % 256 ≡ m (i + k)
unfolding load
load_byte zero bytes i k h = absurd (omega arith)
load_byte (suc n) {m} bytes i zero h = rw (add-zero i) (omega (arith, bytes i))
load_byte (suc n) {m} bytes i (suc k) h =
    let up : load (suc n) m i / 256 ≡ load n m (i + 1) = omega (arith, bytes i) in
    rw (pow-succ' 256 k, sym (div-div-eq-div-mul (load (suc n) m i) 256 (256 ^ k)), up)
      (load_byte n bytes (i + 1) k (omega arith) ∙ ap m (omega arith))

-- Writing back a word that differs in its lowest byte only changes one byte of the memory.
write_low :
    {m : Memory} (i v b : ℕ)
    → Bytes m
    → v / 256 ≡ load 8 m i / 256
    → write 8 m i v b ≡ (if b == i then v % 256 else m b)
unfolding write
write_low {m} i v b bytes same = elim (Bool-cases (leb i b && ltb b (i + 8))) [
  | inl within ↦ rw within (part (b - i) (ground arith) (ground arith))
  | inr outside ↦ rw outside (ground arith)
]
  where
    part : (k : ℕ) → k < 8 → b ≡ i + k → v / 256 ^ k % 256 ≡ (if b == i then v % 256 else m b)
    part zero h e = ground (arith, div-one v)
    part (suc k) h e =
        rw
          (
            pow-succ' 256 k,
            sym (div-div-eq-div-mul v 256 (256 ^ k)),
            same,
            div-div-eq-div-mul (load 8 m i) 256 (256 ^ k),
            sym (pow-succ' 256 k),
            load_byte 8 bytes i (suc k) h,
          )
          (ground (arith, ap m e))

pub load_lt : (n : ℕ) {m : Memory} → Bytes m → (i : ℕ) → load n m i < 256 ^ n
unfolding load
load_lt zero bytes i = omega arith
load_lt (suc n) bytes i = omega (arith, bytes i, load_lt n bytes (i + 1), pow-suc 256 n)

low_byte : {m : Memory} (i : ℕ) → Bytes m → load 8 m i % 2 ^ 8 ≡ m i
low_byte {m} i bytes =
    ap (λ (t : ℕ). t % 2 ^ 8) (sym (div-one (load 8 m i)))
    ∙ load_byte 8 bytes i 0 (omega arith)
    ∙ ap m (add-zero i)

module _ {m : Memory} (i j b : ℕ) (bytes : Bytes m) (inside : j < 8) where
  one_bit_fits : 2 ^ j < 2 ^ 8
  one_bit_fits = two-pow-lt j 8 inside

  -- `setbit((uint64_t*)&bytes[i], j)` for a `j` below 8 sets one bit of one byte.
  pub write-setbit :
      write 8 m i (setbit 64 (load 8 m i) j) b ≡ (if b == i then setbit 8 (m i) j else m b)
  unfolding setbit
  write-setbit =
      let small : 2 ^ j % 2 ^ 64 ≡ 2 ^ j = omega (arith, one_bit_fits) in
      write_low i _ b bytes (
        ap (λ t. bit_or (load 8 m i) t / 256) small
        ∙ bit_or-div_low 8 (load 8 m i) (2 ^ j) one_bit_fits)
      ∙ ap (λ t. if b == i then t else m b) (rw (small, bit_or-mod 8, low_byte i bytes) refl)

  -- `clearbit((uint64_t*)&bytes[i], j)` for a `j` below 8 clears one bit of one byte.
  pub write-clearbit :
      write 8 m i (clearbit 64 (load 8 m i) j) b ≡ (if b == i then clearbit 8 (m i) j else m b)
  unfolding clearbit
  write-clearbit =
      let word = load 8 m i in
      let small : 2 ^ j % 2 ^ 64 ≡ 2 ^ j = omega (arith, one_bit_fits) in
      let above : (2 ^ 64 - 1 - 2 ^ j) / 2 ^ 8 ≡ 2 ^ 56 - 1 = omega (arith, one_bit_fits) in
      let below : (2 ^ 64 - 1 - 2 ^ j) % 2 ^ 8 ≡ 2 ^ 8 - 1 - 2 ^ j % 2 ^ 8 =
        omega (arith, one_bit_fits) in
      write_low i _ b bytes (
        ap (λ (t : ℕ). bit_and word (2 ^ 64 - 1 - t) / 256) small
        ∙ bit_and-div 8 word (2 ^ 64 - 1 - 2 ^ j)
        ∙ ap (λ (t : ℕ). bit_and (word / 2 ^ 8) t) above
        ∙ bit_and-low 56 (word / 2 ^ 8)
        ∙ omega (arith, load_lt 8 bytes i))
      ∙ ap (λ t. if b == i then t else m b)
          (ap (λ (t : ℕ). bit_and word (2 ^ 64 - 1 - t) % 256) small
            ∙ bit_and-mod 8 word (2 ^ 64 - 1 - 2 ^ j)
            ∙ ap (λ (t : ℕ). bit_and (word % 2 ^ 8) t) below
            ∙ ap (λ (t : ℕ). bit_and t (2 ^ 8 - 1 - 2 ^ j % 2 ^ 8)) (low_byte i bytes))

pub setbit-lt : (w v j : ℕ) → v < 2 ^ w → setbit w v j < 2 ^ w
unfolding setbit
setbit-lt w v j h = bit_or-lt w v (2 ^ j % 2 ^ w) h (mod-lt (2 ^ j) (one-le-pow w 2 (omega arith)))

pub clearbit-lt : (v j : ℕ) → v < 256 → clearbit 8 v j < 256
unfolding clearbit
clearbit-lt v j h =
    let mask = 2 ^ 8 - 1 - 2 ^ j % 2 ^ 8 in
    omega (
      arith,
      bit_and-div 8 v mask,
      ap (λ (t : ℕ). bit_and t (mask / 2 ^ 8)) (div-eq_of_lt h),
      bit_and-bitwise 0 (mask / 2 ^ 8),
    )

-- The bits of the byte at `i` are the low bits of the word there.
pub getbit-load : {m : Memory} (i j : ℕ) → Bytes m → j < 8 → getbit (load 8 m i) j ≡ bit (m i) j
getbit-load {m} i j bytes h =
    getbit-bit (load 8 m i) j
    ∙ sym (bit-mod 8 (load 8 m i) j h)
    ∙ ap (λ t. bit t j) (low_byte i bytes)

-- The two overloads of `getbit` agree.
pub getbit_val-bit : (v k : ℕ) → k < 64 → getbit_val v k ≡ bit v k
unfolding getbit_val
getbit_val-bit v k h =
    rw
      (
        mod-eq_of_lt (two-pow-lt k 64 h),
        bit_and-div k v (2 ^ k),
        div_self (one-le-pow k 2 (omega arith)),
      )
      (bit_and-low 1 (v / 2 ^ k) ∙ sym (bit-eq-div k v))
