-- ===== src/Interrupts/Gates.antt =====
-- The gates that src/interrupts.cpp writes: the processor puts the address of a handler together again.
use native.Mathlib.Decide.{ℕ_discrete}
use littlevisor.Base.{
  ℕ, zero, suc, ◌+◌, ◌*◌, ◌/◌, ◌^◌, ◌≤◌, ◌<◌, ◌≡◌, refl, sym, ◌∙◌, ◌≢◌, length, get_or, length-set,
  get_or-set_self, get_or-set_ne, arith,
}
use littlevisor.Bits.Fields.{bit_and-low}
use littlevisor.Interrupts.{
  Pic, IdtEntry, Idt, zero_entry, code64_desc_selector, init_idt_entry, init_stubs, init_idt,
}

-- The address that the processor jumps to through a gate.
abbrev pub handler : IdtEntry → ℕ
handler e = e.offset_1 + e.offset_2 * 2 ^ 16 + e.offset_3 * 2 ^ 32

-- A gate for the kernel's code that only the kernel may call.
pub record Gate (isr_addr : ℕ) (e : IdtEntry) : Type 0 where
  pub address : handler e ≡ isr_addr
  pub selector : e.seg_selector ≡ code64_desc_selector
  pub kernel_only : e.dpl ≡ 0
  pub is_present : e.present ≡ 1

module _ (table : Idt) (vector isr_addr : ℕ) (inside : vector < length table) where
  entry-Gate :
      isr_addr < 2 ^ 64
      → Gate isr_addr (get_or (init_idt_entry table vector isr_addr 0 0 0xF) vector zero_entry)
  unfolding init_idt_entry
  entry-Gate h = rw (get_or-set_self table vector _ zero_entry inside) (record {
    address = omega (
      arith,
      bit_and-low 16 isr_addr,
      bit_and-low 16 (isr_addr / 2 ^ 16),
      bit_and-low 32 (isr_addr / 2 ^ 32),
    );
    selector = refl;
    kernel_only = refl;
    is_present = refl;
  })

  entry_other :
      (n : ℕ)
      → n ≢ vector
      → get_or (init_idt_entry table vector isr_addr 0 0 0xF) n zero_entry
        ≡ get_or table n zero_entry
  unfolding init_idt_entry
  entry_other n ne = get_or-set_ne table vector n _ zero_entry (λ e. ne (sym e))

  length-init_idt_entry : length (init_idt_entry table vector isr_addr 0 0 0xF) ≡ length table
  unfolding init_idt_entry
  length-init_idt_entry = length-set table vector _

module _ (stubs : ℕ → ℕ) (small : (n : ℕ) → stubs n < 2 ^ 64) where
  length-init_stubs :
      (left i : ℕ) (table : Idt)
      → i + left ≤ length table
      → length (init_stubs left i stubs table) ≡ length table
  unfolding init_stubs
  length-init_stubs zero i table h = refl
  length-init_stubs (suc left) i table h =
      let one = length-init_idt_entry table i (stubs i) (omega arith) in
      length-init_stubs left (i + 1) (init_idt_entry table i (stubs i) 0 0 0xF) (omega (arith, one))
      ∙ one

  stubs_before :
      (left i n : ℕ) (table : Idt)
      → i + left ≤ length table
      → n < i
      → get_or (init_stubs left i stubs table) n zero_entry ≡ get_or table n zero_entry
  unfolding init_stubs
  stubs_before zero i n table h lt = refl
  stubs_before (suc left) i n table h lt =
      let one = length-init_idt_entry table i (stubs i) (omega arith) in
      stubs_before left (i + 1) n (init_idt_entry table i (stubs i) 0 0 0xF) (omega (arith, one))
        (omega arith)
      ∙ entry_other table i (stubs i) (omega arith) n (λ e. omega arith)

  stubs-Gate :
      (left i n : ℕ) (table : Idt)
      → i + left ≤ length table
      → i ≤ n
      → n < i + left
      → Gate (stubs n) (get_or (init_stubs left i stubs table) n zero_entry)
  unfolding init_stubs
  stubs-Gate zero i n table h lo hi = absurd (omega arith)
  stubs-Gate (suc left) i n table h lo hi =
      let one = length-init_idt_entry table i (stubs i) (omega arith) in
      let table' = init_idt_entry table i (stubs i) 0 0 0xF in
      elim (ℕ_discrete n i) [
        | yes e ↦
            rw (stubs_before left (i + 1) n table' (omega (arith, one)) (omega arith), e)
              (entry-Gate table i (stubs i) (omega arith) (small i))
        | no ne ↦ stubs-Gate left (i + 1) n table' (omega (arith, one)) (omega arith) (omega arith)
      ]

  -- After `init_idt` on a table of 256 entries, with 64-bit addresses of the stubs, each of the 32
  -- exceptions has a present gate, for the kernel only, to its stub in the kernel's code segment.
  pub init_idt-Gate :
      (table : Idt) (p : Pic) (n : ℕ)
      → length table ≡ 256
      → n < 32
      → Gate (stubs n) (get_or (init_idt stubs table p).0 n zero_entry)
  unfolding init_idt
  init_idt-Gate table p n size h =
      let table' = init_stubs 32 0 stubs table in
      let kept = length-init_stubs 32 0 table (omega (arith, size)) in
      elim (ℕ_discrete n 0xE) [
        | yes e ↦ rw e (entry-Gate table' 0xE (stubs 0xE) (omega (arith, kept, size)) (small 0xE))
        | no ne ↦
            rw (entry_other table' 0xE (stubs 0xE) (omega (arith, kept, size)) n ne)
              (stubs-Gate 32 0 n table (omega (arith, size)) (omega arith) (omega arith))
      ]
