-- ===== src/Common.antt =====
-- src/common.h and src/common.cpp: bit operations on words, byte copies, comparison, byte order and
-- decimal printing. A byte memory is a function from addresses; a write is an update of it.
pub mod Bitops
pub mod Copies
pub mod Text
use littlevisor.Base.{
  ℕ, zero, suc, ◌+◌, ◌-◌, ◌*◌, ◌/◌, ◌%◌, ◌^◌, ◌≤◌, ◌<◌, min, max, bit_and, bit_or, ◌≡◌, refl, sym,
  ap, fun_ext, ◌∙◌, ◌≢◌, ◌⊎◌, inl, inr, Bool, true, false, not, ◌&&◌, ◌||◌, Option, none, some,
  List, [], ◌∷◌, ◌++◌, length, get_or, get_elem?, set, length-set, get_or-set_self, get_or-set_ne,
  map, ltb, leb, ◌==◌, if◌then◌else◌, arith, Bool-cases, Option-cases, ltb→lt, lt→ltb, leb→le,
  ==_iff,
}

-- C memory, a byte at each address.
abbrev pub Memory : Type 0
Memory = ℕ → ℕ

abbrev pub store : Memory → ℕ → ℕ → Memory
store m a v b = if b == a then v else m b

-- `(*val >> pos) & 1`
unfoldable pub getbit : ℕ → ℕ → ℕ
getbit v pos = bit_and (v / 2 ^ pos) 1

-- The overload on a value: `(val & (1 << pos)) >> pos`.
unfoldable pub getbit_val : ℕ → ℕ → ℕ
getbit_val val pos = bit_and val (2 ^ pos % 2 ^ 64) / 2 ^ pos

-- `*val | (1 << pos)`, for a `w`-bit word
unfoldable pub setbit : ℕ → ℕ → ℕ → ℕ
setbit w v pos = bit_or v (2 ^ pos % 2 ^ w)

-- `*val & ~(1 << pos)`, for a `w`-bit word
unfoldable pub clearbit : ℕ → ℕ → ℕ → ℕ
clearbit w v pos = bit_and v (2 ^ w - 1 - 2 ^ pos % 2 ^ w)

-- The little-endian word of `n` bytes at an address, as `*(uintN_t*)&bytes[i]` reads it.
unfoldable pub load : ℕ → Memory → ℕ → ℕ
load zero m i = 0
load (suc n) m i = m i + 256 * load n m (i + 1)

-- The write of such a word.
unfoldable pub write : ℕ → Memory → ℕ → ℕ → Memory
write n m i v b = if leb i b && ltb b (i + n) then v / 256 ^ (b - i) % 256 else m b

unfoldable pub kmin : ℕ → ℕ → ℕ
kmin a b = if ltb a b then a else b

unfoldable pub ktoupper : ℕ → ℕ
ktoupper c = if ltb 0x60 c && ltb c 0x7B then c - 32 else c

-- The loops count the rounds left; `i` is the source's index.
unfoldable pub kmemcpy_from : ℕ → ℕ → Memory → ℕ → ℕ → Memory
kmemcpy_from zero i m dest src = m
kmemcpy_from (suc left) i m dest src =
    kmemcpy_from left (i + 1) (store m (dest + i) (m (src + i))) dest src

unfoldable pub kmemcpy : Memory → ℕ → ℕ → ℕ → Memory
unfolding kmemcpy_from
kmemcpy m dest src size = kmemcpy_from size 0 m dest src

unfoldable pub kmemset_from : ℕ → ℕ → Memory → ℕ → ℕ → Memory
kmemset_from zero i m mem val = m
kmemset_from (suc left) i m mem val = kmemset_from left (i + 1) (store m (mem + i) val) mem val

unfoldable pub kmemset : Memory → ℕ → ℕ → ℕ → Memory
unfolding kmemset_from
kmemset m mem val size = kmemset_from size 0 m mem val

unfoldable pub kmemcmp_from : ℕ → ℕ → Memory → ℕ → ℕ → ℕ
kmemcmp_from zero i m mem1 mem2 = 0
kmemcmp_from (suc left) i m mem1 mem2 =
    if m (mem1 + i) == m (mem2 + i) then kmemcmp_from left (i + 1) m mem1 mem2 else 1

unfoldable pub kmemcmp : Memory → ℕ → ℕ → ℕ → ℕ
unfolding kmemcmp_from
kmemcmp m mem1 mem2 size = kmemcmp_from size 0 m mem1 mem2

-- `TO_HIGHER_HALF` and `TO_LOWER_HALF`, in 64-bit arithmetic
unfoldable pub to_higher_half : ℕ → ℕ
to_higher_half addr = (addr + 0xffff800000000000) % 2 ^ 64

unfoldable pub to_lower_half : ℕ → ℕ
to_lower_half addr = (addr + 2 ^ 47) % 2 ^ 64
