-- ===== src/Gdt.antt =====
-- src/gdt.cpp: the stack pointers of the task state segment. A 64-bit pointer is kept as two
-- 32-bit halves.
pub mod Table
pub mod Tests
use littlevisor.Base.{ℕ, ◌+◌, ◌*◌, ◌/◌, ◌^◌, ◌<◌, bit_and, ◌≡◌, refl, arith}
use littlevisor.Bits.Fields.{bit_and-low}

-- The fields of `tss_s` that the kernel writes after the start.
pub record Tss : Type 0 where
  pub rsp0_low : ℕ
  pub rsp0_high : ℕ
  pub rsp2_low : ℕ
  pub rsp2_high : ℕ

unfoldable pub switch_tss_userstack : Tss → ℕ → Tss
switch_tss_userstack tss new_stack = record tss {
  rsp2_low = bit_and new_stack 0xFFFFFFFF;
  rsp2_high = bit_and (new_stack / 2 ^ 32) 0xFFFFFFFF;
}

unfoldable pub switch_tss_kernelstack : Tss → ℕ → Tss
switch_tss_kernelstack tss new_stack = record tss {
  rsp0_low = bit_and new_stack 0xFFFFFFFF;
  rsp0_high = bit_and (new_stack / 2 ^ 32) 0xFFFFFFFF;
}

-- The pointers that the processor loads from the segment.
abbrev pub rsp0 : Tss → ℕ
rsp0 tss = tss.rsp0_high * 2 ^ 32 + tss.rsp0_low

abbrev pub rsp2 : Tss → ℕ
rsp2 tss = tss.rsp2_high * 2 ^ 32 + tss.rsp2_low

pub halves :
    (a : ℕ) → a < 2 ^ 64 → bit_and (a / 2 ^ 32) 0xFFFFFFFF * 2 ^ 32 + bit_and a 0xFFFFFFFF ≡ a
halves a h = omega (arith, bit_and-low 32 a, bit_and-low 32 (a / 2 ^ 32))

-- Each switch sets its own stack pointer to the 64-bit one given, and leaves the other.
pub switch_tss_lem :
    (tss : Tss) (a : ℕ)
    → a < 2 ^ 64
    → (rsp2 (switch_tss_userstack tss a) ≡ a)
      × (rsp0 (switch_tss_userstack tss a) ≡ rsp0 tss)
      × (rsp0 (switch_tss_kernelstack tss a) ≡ a)
      × (rsp2 (switch_tss_kernelstack tss a) ≡ rsp2 tss)
unfolding switch_tss_userstack switch_tss_kernelstack
switch_tss_lem tss a h = (halves a h, refl, halves a h, refl)
