-- ===== src/Gdt/Table.antt =====
-- The descriptors that `init_gdt` of src/gdt.cpp sets up.
use littlevisor.Base.{ℕ, ◌+◌, ◌*◌, ◌/◌, ◌%◌, ◌^◌, ◌<◌, bit_and, ◌≡◌, List, [], ◌∷◌, arith}
use littlevisor.Bits.Fields.{bit_and-low}

-- `gdt_entry`
pub record GdtEntry : Type 0 where
  pub limit_1 : ℕ
  pub base_1 : ℕ
  pub base_2 : ℕ
  pub access : ℕ
  pub limit_2 : ℕ
  pub flags : ℕ
  pub base_3 : ℕ

-- `tss_entry`
pub record TssEntry : Type 0 where
  pub limit_1 : ℕ
  pub base_1 : ℕ
  pub base_2 : ℕ
  pub access : ℕ
  pub limit_2 : ℕ
  pub flags : ℕ
  pub base_3 : ℕ
  pub base_4 : ℕ

-- An entry with the base 0.
abbrev pub flat : ℕ → ℕ → ℕ → ℕ → GdtEntry
flat limit_1 limit_2 access flags = record {
  limit_1 = limit_1;
  base_1 = 0;
  base_2 = 0;
  access = access;
  limit_2 = limit_2;
  flags = flags;
  base_3 = 0;
}

-- `create_gdt_entry`, which shifts the parts of the base and the limit to the left.
unfoldable pub create_gdt_entry : ℕ → ℕ → ℕ → ℕ → GdtEntry
create_gdt_entry base limit access flags = record {
  limit_1 = bit_and limit 0xFFFF;
  base_1 = bit_and base 0xFFFF;
  base_2 = bit_and (base * 2 ^ 16 % 2 ^ 32) 0xFF;
  access = access;
  limit_2 = bit_and (limit * 2 ^ 16 % 2 ^ 32) 0xFF % 2 ^ 4;
  flags = flags % 2 ^ 4;
  base_3 = bit_and (base * 2 ^ 24 % 2 ^ 32) 0xFF;
}

-- The nine entries of `table.table`, in order.
unfoldable pub gdt_entries : List GdtEntry
gdt_entries =
    flat 0 0 0 0
    ∷ flat 0xFFFF 0 0x9A 0
    ∷ flat 0xFFFF 0 0x92 0
    ∷ flat 0xFFFF 0xF 0x9A 0xC
    ∷ flat 0xFFFF 0xF 0x92 0xC
    ∷ flat 0 0 0x9A 0x2
    ∷ flat 0 0 0x92 0xC
    ∷ flat 0 0 0xFA 0x2
    ∷ flat 0 0 0xF2 0x2
    ∷ []

-- `table.tss_desc`, by the address and the size of the task state segment.
unfoldable pub tss_desc : ℕ → ℕ → TssEntry
tss_desc tss size = record {
  limit_1 = bit_and size 0xFF;
  base_1 = bit_and tss 0xFFFF;
  base_2 = bit_and (tss / 2 ^ 16) 0xFF;
  access = 0x89;
  limit_2 = bit_and (size / 2 ^ 8) 0xF;
  flags = 0;
  base_3 = bit_and (tss / 2 ^ 24) 0xFF;
  base_4 = bit_and (tss / 2 ^ 32) 0xFFFFFFFF;
}

-- The address that the processor reads from a descriptor of 16 bytes, and its limit.
abbrev pub tss_base : TssEntry → ℕ
tss_base e = e.base_1 + 2 ^ 16 * e.base_2 + 2 ^ 24 * e.base_3 + 2 ^ 32 * e.base_4

abbrev pub tss_limit : TssEntry → ℕ
tss_limit e = e.limit_1 + 2 ^ 16 * e.limit_2

-- The descriptor of the task state segment holds its 64-bit address in four parts, for every size;
-- for a size below 256, which the segment has, its limit is the size.
pub tss_desc_lem :
    (tss size : ℕ)
    → tss < 2 ^ 64
    → size < 256
    → (tss_base (tss_desc tss size) ≡ tss) × (tss_limit (tss_desc tss size) ≡ size)
unfolding tss_desc
tss_desc_lem tss size h small = (
  omega (
    arith,
    bit_and-low 16 tss,
    bit_and-low 8 (tss / 2 ^ 16),
    bit_and-low 8 (tss / 2 ^ 24),
    bit_and-low 32 (tss / 2 ^ 32),
  ),
  omega (arith, bit_and-low 8 size, bit_and-low 4 (size / 2 ^ 8)),
)
