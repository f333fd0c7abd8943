-- ===== src/Interrupts/Tests.antt =====
-- Runs of src/interrupts.cpp on an empty table.
use littlevisor.Base.{
  ℕ, zero, suc, ◌+◌, ◌*◌, ◌≡◌, refl, [], ◌∷◌, get_or, ltb, ◌==◌, if◌then◌else◌, arith,
}
use littlevisor.Interrupts.{Pic, Idt, zero_entry, irq_set_mask, init_idt}
use littlevisor.Interrupts.Gates.{Gate, init_idt-Gate}
use littlevisor.Interrupts.Masks.{masked, init_idt-masked}

abbrev entries : ℕ → Idt
entries zero = []
entries (suc k) = zero_entry ∷ entries k

abbrev stubs : ℕ → ℕ
stubs n = if ltb n 32 then 0xFFFFFFFF80001000 + 16 * n else 0

abbrev pic : Pic
pic = record { pic1_data = 0xB8; pic2_data = 0x8E }

line_eight : (irq_set_mask pic 8).pic2_data ≡ 0x8E
unfolding irq_set_mask
line_eight = refl

init_idt-Gate_example : Gate (stubs 14) (get_or (init_idt stubs (entries 256) pic).0 14 zero_entry)
init_idt-Gate_example =
    init_idt-Gate stubs (λ n. ground arith) (entries 256) pic 14 refl (omega arith)

init_idt-masked_example : masked (init_idt stubs (entries 256) pic).1 3 ≡ (if 3 == 8 then 0 else 1)
init_idt-masked_example = init_idt-masked stubs (entries 256) pic 3 (omega arith)
