-- ===== src/Vmcs/Setup.antt =====
-- `init_host` and `init_guest_state` of src/vmcs/vmcs.cpp: the control block and the maps of the
-- host, the first state of a guest, and the memory behind its addresses.
use littlevisor.Base.{
  ℕ, zero, suc, ◌+◌, ◌-◌, ◌*◌, ◌/◌, ◌%◌, ◌^◌, ◌||◌, Option, none, some, List, [], ◌∷◌, ◌==◌,
  if◌then◌else◌,
}
use littlevisor.Common.{Memory, setbit, kmemset}
use littlevisor.Pmm.{kpalloc, kpalloc_contignious}
use littlevisor.Common.{to_higher_half}
use littlevisor.Paging.{Machine, map_page, ◌>>=◌}
use littlevisor.Vmcs.{Segment, StateSaveArea, Vmcb, Vmm}

-- `list_of_ports_to_intercept`
abbrev pub list_of_ports_to_intercept : List ℕ
list_of_ports_to_intercept =
    0x514 ∷ 0x518 ∷ 0x510 ∷ 0x511 ∷ 0x170 ∷ 0x171 ∷ 0x172 ∷ 0x173 ∷ 0x174 ∷ 0x175 ∷ 0x176 ∷ 0x177
    ∷ 0x60608 ∷ 0x4240 ∷ 0x4241 ∷ 0x4242 ∷ 0x4243 ∷ 0x608 ∷ 0x3f6 ∷ 0x3f7 ∷ 0x476 ∷ 0x377 ∷ 0x70
    ∷ 0x71 ∷ []

-- The loop of `init_host` that sets the bit of each port in the map at `ioio_map_ptr`.
unfoldable pub set_ports : List ℕ → Memory → ℕ → Memory
set_ports [] m ioio_map_ptr = m
set_ports (port ∷ ports) m ioio_map_ptr =
    let byte = ioio_map_ptr + port / 8 in
    set_ports ports (λ a. if a == byte then setbit 8 (m byte) (port % 8 % 256) else m a)
      ioio_map_ptr

abbrev no_segment : Segment
no_segment = record { selector = 0; attrib = 0; limit = 0; base = 0 }

-- The control block after `kmemset`.
abbrev pub blank_vmcb : Vmcb
blank_vmcb = record {
  control = record {
    intercept_cr_reads = 0;
    intercepts_cr_writes = 0;
    intercept_exceptions = 0;
    intercepts_insts_1 = 0;
    intercepts_insts_2 = 0;
    iopm_base_pa = 0;
    msrpm_base_pa = 0;
    guest_asid = 0;
    exitcode = 0;
    exitinfo1 = 0;
    exitinfo2 = 0;
    np_enable = 0;
    n_cr3 = 0;
  };
  state_save_area = record {
    es = no_segment;
    cs = no_segment;
    ss = no_segment;
    ds = no_segment;
    fs = no_segment;
    gs = no_segment;
    gdtr = no_segment;
    ldtr = no_segment;
    idtr = no_segment;
    tr = no_segment;
    cpl = 0;
    efer = 0;
    cr4 = 0;
    cr3 = 0;
    cr0 = 0;
    dr7 = 0;
    dr6 = 0;
    rflags = 0;
    rip = 0;
    rsp = 0;
    rax = 0;
    star = 0;
    lstar = 0;
    cstar = 0;
    sf_mask = 0;
    kernelgsbase = 0;
    sysentercs = 0;
    sysenteresp = 0;
    sysentereip = 0;
    cr2 = 0;
    gpat = 0;
    dbgctl = 0;
    brfrom = 0;
    brto = 0;
    lastexcepfrom = 0;
    lastexcepto = 0;
  };
}

-- The addresses that `init_host` keeps.
pub record HostAreas : Type 0 where
  pub vmcb_addr : ℕ
  pub host_state_area : ℕ
  pub ioio_map_addr : ℕ
  pub msrpm_base_addr : ℕ

module _ {Disk Ports : Type 0} where
  -- `host_msr` is what the model-specific register gives back of the address written to it; `none`
  -- is `kpanic`.
  unfoldable pub init_host : (ℕ → ℕ) → Vmm Disk Ports → Option (HostAreas × Vmm Disk Ports)
  unfolding set_ports kmemset to_higher_half
  init_host host_msr m =
      let (vmcb_addr, pmm1) = kpalloc m.pmm in
      let (area, pmm2) = kpalloc pmm1 in
      let (ioio_map_addr, pmm3) = kpalloc_contignious pmm2 3 in
      let (msrpm_base_addr, pmm4) = kpalloc_contignious pmm3 2 in
      let memory1 = kmemset m.memory (to_higher_half area) 0 0x1000 in
      let memory2 = set_ports list_of_ports_to_intercept memory1 (to_higher_half ioio_map_addr) in
      let memory3 = kmemset memory2 (to_higher_half msrpm_base_addr) 0 0x1000 in
      let control = record blank_vmcb.control {
        intercepts_insts_1 = 2 ^ 27;
        intercepts_insts_2 = 1;
        np_enable = 1;
        iopm_base_pa = ioio_map_addr;
        msrpm_base_pa = msrpm_base_addr;
        intercept_exceptions = 0xFFFFFFFF;
      } in
      if vmcb_addr == 0 || area == 0 || ioio_map_addr == 0 || msrpm_base_addr == 0
      then none
      else some (
        record {
          vmcb_addr = vmcb_addr;
          host_state_area = host_msr area;
          ioio_map_addr = ioio_map_addr;
          msrpm_base_addr = msrpm_base_addr;
        },
        record m {
          vmcb = record { control = control; state_save_area = blank_vmcb.state_save_area };
          memory = memory3;
          pmm = pmm4;
        },
      )

-- The registers that `init_guest_state` sets.
unfoldable pub initial_state : StateSaveArea → StateSaveArea
initial_state s =
    let plain : Segment = record { selector = 0; attrib = 0x93; limit = 0xFFFF; base = 0 } in
    record s {
      cs = record { selector = 0xF000; attrib = 0x93; limit = 0xFFFF; base = 0xFFFF0000 };
      ds = plain;
      es = record plain { limit = 0 };
      gs = plain;
      fs = plain;
      ss = plain;
      gdtr = record plain { attrib = 0 };
      idtr = record plain { limit = 0x1FFF; attrib = 0 };
      ldtr = record plain { attrib = 0x82 };
      tr = record plain { attrib = 0x83 };
      rip = 0xFFF0;
      cr0 = 2 ^ 30 + 2 ^ 29;
      rflags = 2;
      efer = 2 ^ 12;
      dr6 = 0xFFFF0FF0;
      dr7 = 0x400;
    }

-- The loop that puts a page behind each address from `i` on, `left` pages; `none` is `kpanic`.
unfoldable pub back_from : ℕ → ℕ → Machine → ℕ → Option Machine
back_from zero i m vm_mem_map = some m
back_from (suc left) i m vm_mem_map =
    let (page, pmm') = kpalloc m.pmm in
    let mapped = map_page (record m { pmm = pmm' }) page i 7 vm_mem_map in
    if page == 0 then none else mapped >>= λ m'. back_from left (i + 0x1000) m' vm_mem_map

-- The loop above one megabyte, which maps page 0 when no page is left.
unfoldable pub himem_from : ℕ → ℕ → Machine → ℕ → Option Machine
himem_from zero i m vm_mem_map = some m
himem_from (suc left) i m vm_mem_map = do
  m' ← map_page (record m { pmm = (kpalloc m.pmm).1 }) (kpalloc m.pmm).0 (0x100000 + i) 7 vm_mem_map
  himem_from left (i + 0x1000) m' vm_mem_map

-- What `init_guest_state` maps below and around the image of `num_of_pages` pages, which ends at
-- `2 ^ 32`: the two loops, and the page of the interrupt controller.
unfoldable pub map_guest_memory : ℕ → Machine → ℕ → Option Machine
unfolding back_from himem_from
map_guest_memory num_of_pages m vm_mem_map = do
  m1 ← back_from ((2 ^ 32 - num_of_pages * 0x1000) / 0x1000) 0 m vm_mem_map
  m2 ← himem_from (128 * 1024 * 1024 / 0x1000) 0 m1 vm_mem_map
  map_page m2 0xfec00000 0xfec00000 7 vm_mem_map
