-- ===== src/Interrupts.antt =====
-- src/interrupts.cpp and interrupts.h: the table of interrupt gates, and the masks of the two
-- interrupt controllers.
pub mod Gates
pub mod Masks
pub mod Tests
use littlevisor.Base.{
  ℕ, zero, suc, ◌+◌, ◌-◌, ◌*◌, ◌/◌, ◌%◌, ◌^◌, ◌≤◌, ◌<◌, min, max, bit_and, bit_or, ◌≡◌, refl, sym,
  ap, fun_ext, ◌∙◌, ◌≢◌, ◌⊎◌, inl, inr, Bool, true, false, not, ◌&&◌, ◌||◌, Option, none, some,
  List, [], ◌∷◌, ◌++◌, length, get_or, get_elem?, set, length-set, get_or-set_self, get_or-set_ne,
  map, ltb, leb, ◌==◌, if◌then◌else◌, arith, Bool-cases, Option-cases, ltb→lt, lt→ltb, leb→le,
  ==_iff,
}
use littlevisor.Common.{store}

-- `idt_entry`
pub record IdtEntry : Type 0 where
  pub offset_1 : ℕ
  pub seg_selector : ℕ
  pub ist : ℕ
  pub reserved_1 : ℕ
  pub type : ℕ
  pub reserved_2 : ℕ
  pub dpl : ℕ
  pub present : ℕ
  pub offset_2 : ℕ
  pub offset_3 : ℕ
  pub reserved_3 : ℕ

abbrev pub zero_entry : IdtEntry
zero_entry = record {
  offset_1 = 0;
  seg_selector = 0;
  ist = 0;
  reserved_1 = 0;
  type = 0;
  reserved_2 = 0;
  dpl = 0;
  present = 0;
  offset_2 = 0;
  offset_3 = 0;
  reserved_3 = 0;
}

-- `idt_table`, with 256 entries
abbrev pub Idt : Type 0
Idt = List IdtEntry

abbrev pub code64_desc_selector : ℕ
code64_desc_selector = 0x28

-- Bit fields keep the low bits of what is stored.
unfoldable pub init_idt_entry : Idt → ℕ → ℕ → ℕ → ℕ → ℕ → Idt
init_idt_entry table vector isr_addr dpl ist type = set table vector (record {
  dpl = dpl % 4;
  ist = ist % 8;
  type = type % 16;
  present = 1;
  seg_selector = code64_desc_selector;
  offset_1 = bit_and isr_addr 0xFFFF;
  offset_2 = bit_and (isr_addr / 2 ^ 16) 0xFFFF;
  offset_3 = bit_and (isr_addr / 2 ^ 32) 0xFFFFFFFF;
  reserved_1 = 0;
  reserved_2 = 0;
  reserved_3 = 0;
})

-- What the data ports of the two controllers read: their masks.
pub record Pic : Type 0 where
  pub pic1_data : ℕ
  pub pic2_data : ℕ

unfoldable pub irq_clear_mask : Pic → ℕ → Pic
irq_clear_mask p irq_line =
    if ltb irq_line 8
    then record p { pic1_data = bit_and p.pic1_data (255 - 2 ^ irq_line % 256) }
    else if ltb 8 irq_line && ltb irq_line 16
    then record p { pic2_data = bit_and p.pic2_data (255 - 2 ^ (irq_line - 8) % 256) }
    else p

unfoldable pub irq_set_mask : Pic → ℕ → Pic
irq_set_mask p irq_line =
    if ltb irq_line 8
    then record p { pic1_data = bit_or p.pic1_data (2 ^ irq_line % 256) }
    else if ltb 8 irq_line && ltb irq_line 16
    then record p { pic2_data = bit_or p.pic2_data (2 ^ (irq_line - 8) % 256) }
    else p

-- The writes of `pic_remap`, as ports and bytes.
unfoldable pub pic_remap : ℕ → ℕ → List (ℕ × ℕ)
pic_remap offset1 offset2 =
    (0x20, 0x11)
    ∷ (0xA0, 0x11)
    ∷ (0x21, offset1 % 256)
    ∷ (0xA1, offset2 % 256)
    ∷ (0x21, 4)
    ∷ (0xA1, 2)
    ∷ (0x21, 1)
    ∷ (0xA1, 1)
    ∷ (0x21, 0)
    ∷ (0xA1, 0)
    ∷ []

-- What is left in the data ports after writes, the last of which are the masks.
unfoldable pub after_writes : List (ℕ × ℕ) → Pic → Pic
after_writes [] p = p
after_writes ((port, value) ∷ rest) p = after_writes rest (
    if port == 0x21
    then record p { pic1_data = value }
    else if port == 0xA1
    then record p { pic2_data = value }
    else p)

-- The first loop of `init_idt`, over the stubs that are left, from vector `i` on.
unfoldable pub init_stubs : ℕ → ℕ → (ℕ → ℕ) → Idt → Idt
init_stubs zero i isr_stub_table table = table
init_stubs (suc left) i isr_stub_table table =
    init_stubs left (i + 1) isr_stub_table (init_idt_entry table i (isr_stub_table i) 0 0 0xF)

-- The second loop.
unfoldable pub mask_lines : ℕ → ℕ → Pic → Pic
mask_lines zero irq_line p = p
mask_lines (suc left) irq_line p = mask_lines left (irq_line + 1) (irq_set_mask p irq_line)

unfoldable pub init_idt : (ℕ → ℕ) → Idt → Pic → Idt × Pic
init_idt isr_stub_table table p = (
  init_idt_entry (init_stubs 32 0 isr_stub_table table) 0xE (isr_stub_table 0xE) 0 0 0xF,
  mask_lines 16 0 (after_writes (pic_remap 0x20 0x28) p),
)
