-- ===== src/Bits.antt =====
-- The bit operations that `common.h` and the page tables use, as operations on natural numbers:
-- `bit v k` is bit `k` of `v`, and `|`, `&`, `~` and shifts act on it bit by bit.
pub mod Digits
pub mod Fields
use Prim.Native.Nat.{min, max}
use littlevisor.Base.{
  ℕ, zero, suc, ◌+◌, ◌-◌, ◌*◌, ◌/◌, ◌%◌, ◌^◌, ◌≤◌, ◌<◌, bit_and, bit_or, ◌≡◌, refl, ◌==◌,
  if◌then◌else◌, arith,
}

-- Bit `k`, counted from the lowest.
unfoldable pub bit : ℕ → ℕ → ℕ
bit v zero = v % 2
bit v (suc k) = bit (v / 2) k

-- `~v` in a register of `w` bits.
abbrev pub complement : ℕ → ℕ → ℕ
complement w v = 2 ^ w - 1 - v
