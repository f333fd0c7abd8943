-- ===== src/Pci/Requests.antt =====
-- The addresses that src/drivers/pci.cpp writes to the port 0xCF8, by the fields that the device reads.
use littlevisor.Base.{ℕ, ◌*◌, ◌/◌, ◌%◌, ◌^◌, ◌<◌, bit_or, ◌≡◌, ap, ◌∙◌, arith}
use Prim.Native.Nat.{bit_or-bitwise}
use littlevisor.Bits.Fields.{bit_or-div, bit_or-mod, bit_or-zero}
use littlevisor.Pci.{config_request}

-- A field of an address: `w` bits from bit `k` on.
abbrev pub field : ℕ → ℕ → ℕ → ℕ
field k w v = v / 2 ^ k % 2 ^ w

field-bit_or : (k w a b : ℕ) → field k w (bit_or a b) ≡ bit_or (field k w a) (field k w b)
field-bit_or k w a b = ap (λ t. t % 2 ^ w) (bit_or-div k a b) ∙ bit_or-mod w (a / 2 ^ k) (b / 2 ^ k)

zero_bit_or : (v : ℕ) → bit_or 0 v ≡ v
zero_bit_or v = omega (arith, bit_or-bitwise 0 v)

-- The field of a request is made of the fields of its five parts.
request_field :
    (k w bus slot func offset : ℕ)
    → field k w (config_request bus slot func offset)
      ≡ bit_or
          (bit_or
            (bit_or
              (bit_or (field k w offset) (field k w (func % 256 * 2 ^ 16)))
              (field k w (slot % 256 * 2 ^ 11)))
            (field k w (bus % 256 * 2 ^ 16)))
          (field k w (0x80 * 2 ^ 24))
unfolding config_request
request_field k w bus slot func offset = simp field-bit_or

-- The device reads the offset and the slot of a request, but never its function: the field of the
-- function is 0, and the function's bits are in the number of the bus.
pub config_request-fields :
    (bus slot func offset : ℕ)
    → bus < 256
    → slot < 32
    → func < 256
    → offset < 256
    → let r = config_request bus slot func offset in
      (field 0 8 r ≡ offset)
      × (field 8 3 r ≡ 0)
      × (field 11 5 r ≡ slot)
      × (field 16 8 r ≡ bit_or func bus)
config_request-fields bus slot func offset hb hs hf ho =
    let a1 : field 0 8 offset ≡ offset = omega arith in
    let a2 : field 0 8 (func % 256 * 2 ^ 16) ≡ 0 = omega arith in
    let a3 : field 0 8 (slot % 256 * 2 ^ 11) ≡ 0 = omega arith in
    let a4 : field 0 8 (bus % 256 * 2 ^ 16) ≡ 0 = omega arith in
    let b1 : field 8 3 offset ≡ 0 = omega arith in
    let b2 : field 8 3 (func % 256 * 2 ^ 16) ≡ 0 = omega arith in
    let b3 : field 8 3 (slot % 256 * 2 ^ 11) ≡ 0 = omega arith in
    let b4 : field 8 3 (bus % 256 * 2 ^ 16) ≡ 0 = omega arith in
    let c1 : field 11 5 offset ≡ 0 = omega arith in
    let c2 : field 11 5 (func % 256 * 2 ^ 16) ≡ 0 = omega arith in
    let c3 : field 11 5 (slot % 256 * 2 ^ 11) ≡ slot = omega arith in
    let c4 : field 11 5 (bus % 256 * 2 ^ 16) ≡ 0 = omega arith in
    let d1 : field 16 8 offset ≡ 0 = omega arith in
    let d2 : field 16 8 (func % 256 * 2 ^ 16) ≡ func = omega arith in
    let d3 : field 16 8 (slot % 256 * 2 ^ 11) ≡ 0 = omega arith in
    let d4 : field 16 8 (bus % 256 * 2 ^ 16) ≡ bus = omega arith in
    (
      request_field 0 8 bus slot func offset
          ∙ rw (a1, a2, a3, a4) (simp (bit_or-zero, zero_bit_or)),
      request_field 8 3 bus slot func offset
          ∙ rw (b1, b2, b3, b4) (simp (bit_or-zero, zero_bit_or)),
      request_field 11 5 bus slot func offset
          ∙ rw (c1, c2, c3, c4) (simp (bit_or-zero, zero_bit_or)),
      request_field 16 8 bus slot func offset
          ∙ rw (d1, d2, d3, d4) (simp (bit_or-zero, zero_bit_or)),
    )
