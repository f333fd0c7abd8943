-- ===== src/Interrupts/Masks.antt =====
-- Which interrupt lines the functions of src/interrupts.cpp mask.
use littlevisor.Base.{
  ℕ, zero, suc, ◌+◌, ◌-◌, ◌%◌, ◌^◌, ◌<◌, bit_and, bit_or, ◌≡◌, refl, ◌∙◌, inl, inr, true, not, ◌&&◌,
  ltb, leb, ◌==◌, if◌then◌else◌, arith, Bool-cases,
}
use littlevisor.Bits.{bit}
use littlevisor.Bits.Digits.{bit-zero}
use littlevisor.Common.{setbit, clearbit}
use littlevisor.Common.Bitops.{bit-setbit, bit-clearbit}
use littlevisor.Interrupts.{
  Pic, irq_set_mask, irq_clear_mask, mask_lines, after_writes, pic_remap, init_idt, Idt,
}

-- The mask of a line, from the controller that the line belongs to.
abbrev pub masked : Pic → ℕ → ℕ
masked p n = if ltb n 8 then bit p.pic1_data n else bit p.pic2_data (n - 8)

module _ (v j k : ℕ) (hj : j < 8) (hk : k < 8) where
  bit-set_one : bit (bit_or v (2 ^ j % 256)) k ≡ (if k == j then 1 else bit v k)
  unfolding setbit
  bit-set_one = bit-setbit 8 v j k hj

  bit-clear_one : bit (bit_and v (255 - 2 ^ j % 256)) k ≡ (if k == j then 0 else bit v k)
  unfolding clearbit
  bit-clear_one = bit-clearbit 8 v j k hj hk

-- For lines below 16, `irq_set_mask` masks its line and `irq_clear_mask` unmasks it, and no other
-- line changes; but for the line 8 neither does anything.
pub irq_mask_lem :
    (p : Pic) (line n : ℕ)
    → line < 16
    → n < 16
    → (masked (irq_set_mask p line) n ≡ (if n == line && not (line == 8) then 1 else masked p n))
      × (masked (irq_clear_mask p line) n
          ≡ (if n == line && not (line == 8) then 0 else masked p n))
unfolding irq_set_mask irq_clear_mask
irq_mask_lem p line n hl hn = elim (Bool-cases (ltb line 8)) [
  | inl low ↦ elim (Bool-cases (ltb n 8)) [
    | inl n_low ↦
        rw (low, n_low)
          (
            bit-set_one p.pic1_data line n (ground arith) (ground arith) ∙ ground arith,
            bit-clear_one p.pic1_data line n (ground arith) (ground arith) ∙ ground arith,
          )
    | inr n_high ↦ rw (low, n_high) (ground arith, ground arith)
  ]
  | inr high ↦ elim (Bool-cases (ltb 8 line)) [
    | inl above ↦ elim (Bool-cases (ltb n 8)) [
      | inl n_low ↦ rw (high, above, n_low) (ground arith, ground arith)
      | inr n_high ↦
          let small : ltb line 16 ≡ true = ground arith in
          rw (high, above, small, n_high)
            (
              bit-set_one p.pic2_data (line - 8) (n - 8) (ground arith) (ground arith)
                  ∙ ground arith,
              bit-clear_one p.pic2_data (line - 8) (n - 8) (ground arith) (ground arith)
                  ∙ ground arith,
            )
    ]
    | inr at ↦ rw (high, at) (ground arith, ground arith)
  ]
]

mask_lines-masked :
    (left i n : ℕ) (p : Pic)
    → i + left ≡ 16
    → n < 16
    → masked (mask_lines left i p) n ≡ (if leb i n && not (n == 8) then 1 else masked p n)
unfolding mask_lines
mask_lines-masked zero i n p e h = ground arith
mask_lines-masked (suc left) i n p e h =
    mask_lines-masked left (i + 1) n (irq_set_mask p i) (omega arith) h
    ∙ rw ((irq_mask_lem p i n (omega arith) h).0) (ground arith)

-- After `init_idt` every interrupt line below 16 is masked, but for the line 8, which is not.
pub init_idt-masked :
    (stubs : ℕ → ℕ) (table : Idt) (p : Pic) (n : ℕ)
    → n < 16
    → masked (init_idt stubs table p).1 n ≡ (if n == 8 then 0 else 1)
unfolding init_idt after_writes pic_remap bit
init_idt-masked stubs table p n h =
    mask_lines-masked 16 0 n (after_writes (pic_remap 0x20 0x28) p) refl h
    ∙ ground (arith, bit-zero n, bit-zero (n - 8))
