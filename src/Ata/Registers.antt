-- ===== src/Ata/Registers.antt =====
-- What a guest reads back from the registers that it writes.
use littlevisor.Base.{ℕ, ◌%◌, ◌^◌, bit_and, bit_or, ◌≡◌, ◌∙◌, arith}
use littlevisor.Bits.Fields.{bit_and-low, bit_and-zero, bit_or_fields, bit_or-mod, bit_and-mod}
use littlevisor.Ata.{AtaRegisters, handle_read_register, handle_write_register}

-- The low byte of the sector register after a write of it.
low_byte :
    (old value : ℕ) → bit_and (bit_or (bit_and old 0xFF00) (bit_and value 0xFF)) 0xFF ≡ value % 256
low_byte old value =
    bit_and-low 8 (bit_or (bit_and old 0xFF00) (bit_and value 0xFF))
    ∙ bit_or-mod 8 (bit_and old 0xFF00) (bit_and value 0xFF)
    ∙ rw (bit_and-mod 8 old 0xFF00, bit_and-zero (old % 2 ^ 8), bit_and-low 8 value)
        (bit_or_fields 8 0 (value % 2 ^ 8 % 2 ^ 8) (omega arith) ∙ omega arith)

-- After a write to the low LBA port and one to the middle LBA port, the low port reads the low byte
-- of what went to the middle one, and the middle one reads 0.
pub mid_over_low :
    (r : AtaRegisters) (low mid : ℕ)
    → let r' = handle_write_register (handle_write_register r 3 low) 4 mid in
      (handle_read_register r' 3 ≡ mid % 256) × (handle_read_register r' 4 ≡ 0)
unfolding handle_read_register handle_write_register
mid_over_low r low mid = (low_byte _ mid, bit_and-low 8 _ ∙ omega arith)
