-- ===== src/Common/Text.antt =====
-- src/common.cpp: byte order, the length of strings and the printing of numbers.
pub mod Order
pub mod Tests
use littlevisor.Base.{
  ℕ, zero, suc, ◌+◌, ◌-◌, ◌*◌, ◌/◌, ◌%◌, ◌^◌, bit_and, bit_or, ◌≡◌, refl, Option, none, some, List,
  [], ◌∷◌, ◌++◌, length, leb, ◌==◌, if◌then◌else◌,
}
use littlevisor.Common.{Memory}

-- The loop of `kToLittleEndian(uint64_t)`, over the rounds left, from byte `i` on.
unfoldable pub swap_from : ℕ → ℕ → ℕ → ℕ → ℕ
swap_from zero i value result = result
swap_from (suc left) i value result =
    swap_from left (i + 1) value
      (bit_or result (bit_and (value / 2 ^ (i * 8)) 0xFF * 2 ^ ((7 - i) * 8)))

unfoldable pub kto_little_endian : ℕ → ℕ
unfolding swap_from
kto_little_endian value = swap_from 8 0 value 0

-- `kstrlen` with fuel for its loop, from `length` on; `none` is fuel that runs out.
unfoldable pub kstrlen_from : ℕ → Memory → ℕ → ℕ → Option ℕ
kstrlen_from zero m str length = none
kstrlen_from (suc fuel) m str length =
    let rest = kstrlen_from fuel m str ((length + 1) % 2 ^ 32) in
    if m (str + length) == 0 then some length else rest

unfoldable pub kstrlen : ℕ → Memory → ℕ → Option ℕ
unfolding kstrlen_from
kstrlen fuel m str = kstrlen_from fuel m str 0

-- The first loop of `itoa`: the characters of the digits, the last one first.
unfoldable pub digits : ℕ → ℕ → List ℕ
digits zero n = []
digits (suc left) n =
    let r = n % 10 in
    let rest = digits left (n / 10) in
    if n == 0 then [] else (if leb 10 r then 65 + (r - 10) else 48 + r) ∷ rest

abbrev pub reverse_onto : List ℕ → List ℕ → List ℕ
reverse_onto [] acc = acc
reverse_onto (c ∷ cs) acc = reverse_onto cs (c ∷ acc)

-- What `itoa` leaves in the buffer, for a `long` in two's complement. The digits of a 64-bit number
-- are at most 20.
unfoldable pub itoa : ℕ → List ℕ
unfolding digits
itoa value =
    let low_first = digits 20 value in
    let number = if length low_first == 0 then 48 ∷ [] else low_first in
    reverse_onto (if leb (2 ^ 63) value then number ++ (45 ∷ []) else number) [] ++ (0 ∷ [])
