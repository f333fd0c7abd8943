-- ===== src/Paging/Bytes.antt =====
-- The bytes of a memory of words, as `kmemcpy` of src/common.cpp writes them through a higher-half
-- pointer.
use littlevisor.Base.{
  ℕ, ◌+◌, ◌-◌, ◌/◌, ◌%◌, ◌^◌, ◌≤◌, ◌<◌, ◌≡◌, ap, ◌∙◌, inl, inr, false, ◌&&◌, ltb, leb, ◌==◌,
  if◌then◌else◌, arith, Bool-cases,
}
use littlevisor.Common.{Memory, load}
use littlevisor.Common.Bitops.{Bytes, load_byte, load_lt}

-- The byte at an address, from the little-endian word that holds it.
unfoldable pub byte_at : Memory → ℕ → ℕ
byte_at words a = words (a - a % 8) / 256 ^ (a % 8) % 256

-- The bytes after `kmemcpy(dest, src, size)`.
unfoldable pub copied_byte : Memory → ℕ → Memory → ℕ → ℕ → ℕ
unfolding byte_at
copied_byte words dest src size b =
    if leb dest b && ltb b (dest + size) then src (b - dest) else byte_at words b

-- `kmemcpy(dest, src, size)`: the words of the addresses that it writes. Only aligned words are read.
unfoldable pub copy_bytes : Memory → ℕ → Memory → ℕ → Memory
unfolding copied_byte
copy_bytes words dest src size a =
    if a % 8 == 0 && ltb dest (a + 8) && ltb a (dest + size)
    then load 8 (copied_byte words dest src size) a
    else words a

module _ {words src : Memory} (dest size : ℕ) (bytes : Bytes src)
    (word : (a : ℕ) → words a < 2 ^ 64) where
  copied_byte-Bytes : Bytes (copied_byte words dest src size)
  unfolding copied_byte byte_at
  copied_byte-Bytes b = ground (arith, bytes (b - dest))

  -- A byte in a word that the copy does not touch is not in its range.
  missed :
      (b : ℕ)
      → ((b - b % 8) % 8 == 0 && ltb dest (b - b % 8 + 8) && ltb (b - b % 8) (dest + size)) ≡ false
      → byte_at words b
        ≡ (if leb dest b && ltb b (dest + size) then src (b - dest) else byte_at words b)
  missed b out =
      let aligned : (b - b % 8) % 8 ≡ 0 = omega arith in
      let below : b < b - b % 8 + 8 = omega arith in
      let above : b - b % 8 ≤ b = omega arith in ground (arith, out)

  -- After the copy every byte reads as it should.
  pub byte_at-copy_bytes :
      (b : ℕ)
      → byte_at (copy_bytes words dest src size) b
        ≡ (if leb dest b && ltb b (dest + size) then src (b - dest) else byte_at words b)
  unfolding copy_bytes byte_at copied_byte
  byte_at-copy_bytes b =
      let a = b - b % 8 in
      elim (Bool-cases (a % 8 == 0 && ltb dest (a + 8) && ltb a (dest + size))) [
        | inl here ↦ rw here (
            load_byte 8 copied_byte-Bytes a (b % 8) (omega arith)
            ∙ ap (copied_byte words dest src size) (omega arith))
        | inr out ↦ rw out (missed b out)
      ]

  pub copy_bytes-lt : (a : ℕ) → copy_bytes words dest src size a < 2 ^ 64
  unfolding copy_bytes
  copy_bytes-lt a = ground (arith, word a, load_lt 8 copied_byte-Bytes a)
