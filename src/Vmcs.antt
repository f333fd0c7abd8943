-- ===== src/Vmcs.antt =====
-- src/vmcs/vmcs.h and src/vmcs/vmcs.cpp: the virtual machines, their state, and the switch from one
-- to another.
pub mod Views
pub mod Ioio
pub mod Strings
pub mod Setup
pub mod Bitmap
pub mod Loop
pub mod Tests
use littlevisor.Base.{
  ℕ, zero, suc, ◌+◌, ◌-◌, ◌*◌, ◌/◌, ◌%◌, ◌^◌, ◌≤◌, ◌<◌, min, max, bit_and, bit_or, ◌≡◌, refl, sym,
  ap, fun_ext, ◌∙◌, ◌≢◌, ◌⊎◌, inl, inr, Bool, true, false, not, ◌&&◌, ◌||◌, Option, none, some,
  List, [], ◌∷◌, ◌++◌, length, get_or, get_elem?, set, length-set, get_or-set_self, get_or-set_ne,
  map, ltb, leb, ◌==◌, if◌then◌else◌, arith, Bool-cases, Option-cases, ltb→lt, lt→ltb, leb→le,
  ==_iff,
}
use littlevisor.Common.{Memory, load}
use littlevisor.Pmm.{Pmm}
use littlevisor.Paging.{Machine, walk_table}
use littlevisor.Ata.{AtaDevice}
use littlevisor.Cmos.{CmosDevice}

-- `segment_selector`
pub record Segment : Type 0 where
  pub selector : ℕ
  pub attrib : ℕ
  pub limit : ℕ
  pub base : ℕ

-- `guest_regs`
pub record GuestRegs : Type 0 where
  pub rbx : ℕ
  pub rcx : ℕ
  pub rdx : ℕ
  pub rsi : ℕ
  pub rdi : ℕ
  pub rbp : ℕ
  pub r8 : ℕ
  pub r9 : ℕ
  pub r10 : ℕ
  pub r11 : ℕ
  pub r12 : ℕ
  pub r13 : ℕ
  pub r14 : ℕ
  pub r15 : ℕ
  pub dr0 : ℕ
  pub dr1 : ℕ
  pub dr2 : ℕ
  pub dr3 : ℕ

-- The fields of `vmcb_control` that the kernel reads or writes.
pub record Control : Type 0 where
  pub intercept_cr_reads : ℕ
  pub intercepts_cr_writes : ℕ
  pub intercept_exceptions : ℕ
  pub intercepts_insts_1 : ℕ
  pub intercepts_insts_2 : ℕ
  pub iopm_base_pa : ℕ
  pub msrpm_base_pa : ℕ
  pub guest_asid : ℕ
  pub exitcode : ℕ
  pub exitinfo1 : ℕ
  pub exitinfo2 : ℕ
  pub np_enable : ℕ
  pub n_cr3 : ℕ

-- `vmcb_state_save_area`, without its reserved bytes.
pub record StateSaveArea : Type 0 where
  pub es : Segment
  pub cs : Segment
  pub ss : Segment
  pub ds : Segment
  pub fs : Segment
  pub gs : Segment
  pub gdtr : Segment
  pub ldtr : Segment
  pub idtr : Segment
  pub tr : Segment
  pub cpl : ℕ
  pub efer : ℕ
  pub cr4 : ℕ
  pub cr3 : ℕ
  pub cr0 : ℕ
  pub dr7 : ℕ
  pub dr6 : ℕ
  pub rflags : ℕ
  pub rip : ℕ
  pub rsp : ℕ
  pub rax : ℕ
  pub star : ℕ
  pub lstar : ℕ
  pub cstar : ℕ
  pub sf_mask : ℕ
  pub kernelgsbase : ℕ
  pub sysentercs : ℕ
  pub sysenteresp : ℕ
  pub sysentereip : ℕ
  pub cr2 : ℕ
  pub gpat : ℕ
  pub dbgctl : ℕ
  pub brfrom : ℕ
  pub brto : ℕ
  pub lastexcepfrom : ℕ
  pub lastexcepto : ℕ

pub record Vmcb : Type 0 where
  pub control : Control
  pub state_save_area : StateSaveArea

-- `context`
pub record Context : Type 0 where
  pub guest : StateSaveArea
  pub regs : GuestRegs
  pub guest_cr3 : ℕ
  pub guest_asid : ℕ
  pub ata_device : AtaDevice
  pub cmos_dev : CmosDevice

-- The contexts that `init_vm` allocates.
abbrev pub guests_room : ℕ
guests_room = 10

-- The statics of vmcs.cpp, with the block at `vmcb_addr`. `guests i` is a context for an `i` below
-- `guests_room`; behind them the source has other memory, and the theorems ask for indices below.
-- `memory`, `pmm` and `cr3_val` are the kernel's memory, in bytes, its page frames and its page tables.
-- `is_held` are the addresses of the objects that other fields stand for: the block, the contexts, the
-- frames' bitmap and the buffers of the heap. A store there would change them, and the theorems ask
-- for stores elsewhere. `disk` is the state behind the devices of all guests, which share the file
-- system and its open files, and `ports` the state behind the ports of the machine.
pub record Vmm (Disk Ports : Type 0) : Type 0 where
  pub vmcb : Vmcb
  pub guests : ℕ → Context
  pub curr_guest_idx : ℕ
  pub memory : Memory
  pub is_held : ℕ → Bool
  pub disk : Disk
  pub pmm : Pmm
  pub cr3_val : ℕ
  pub ports : Ports

abbrev pub put : {A : Type 0} → (ℕ → A) → ℕ → A → ℕ → A
put xs i x j = if j == i then x else xs j

module _ {Disk Ports : Type 0} where
  -- The memory as the page tables see it.
  abbrev pub machine : Vmm Disk Ports → Machine
  machine m = record { words = load 8 m.memory; pmm = m.pmm; cr3_val = m.cr3_val }

  -- `walkTable`, on the words of the memory.
  unfoldable pub walk : Vmm Disk Ports → ℕ → ℕ → ℕ
  walk m virt_addr cr3 = walk_table (machine m) virt_addr cr3

  -- `calculate_physical_addr` of 64-bit and of 32-bit words.
  pub calculate_physical_addr : Vmm Disk Ports → ℕ → ℕ → ℕ → ℕ
  calculate_physical_addr m w seg off =
      walk m ((seg + off) % 2 ^ w) (m.guests m.curr_guest_idx).guest_cr3

  pub current : Vmm Disk Ports → Context
  current m = m.guests m.curr_guest_idx

  abbrev pub set_current : Vmm Disk Ports → Context → Vmm Disk Ports
  set_current m c = record m { guests = put m.guests m.curr_guest_idx c }

  -- `edit_vmcb_state` of RAX.
  unfoldable pub edit_rax : Vmm Disk Ports → ℕ → Vmm Disk Ports
  edit_rax m value =
      let c = m.guests m.curr_guest_idx in
      record m {
        vmcb = record m.vmcb { state_save_area = record m.vmcb.state_save_area { rax = value } };
        guests =
            put m.guests m.curr_guest_idx (record c { guest = record c.guest { rax = value } });
      }

  -- The first half of `context_switching`: the state of the guest that leaves is kept.
  unfoldable pub save_guest : Vmm Disk Ports → ℕ → Vmm Disk Ports
  save_guest m curr_guest = record m {
    guests = put m.guests curr_guest (record (m.guests curr_guest) {
      guest = m.vmcb.state_save_area;
      guest_cr3 = m.vmcb.control.n_cr3;
      guest_asid = m.vmcb.control.guest_asid;
    });
  }

  -- The second half: the block gets the state of the next guest.
  unfoldable pub load_guest : Vmm Disk Ports → ℕ → Vmm Disk Ports
  load_guest m next_guest =
      let c = m.guests next_guest in
      record m {
        vmcb = record {
          control = record m.vmcb.control { n_cr3 = c.guest_cr3; guest_asid = c.guest_asid };
          state_save_area = c.guest;
        };
        curr_guest_idx = next_guest;
      }

  -- What VMRUN does with the registers of the guest and the control block, until the next exit.
  unfoldable pub svm_vmrun : (GuestRegs × Vmcb → GuestRegs × Vmcb) → Vmm Disk Ports → Vmm Disk Ports
  svm_vmrun run m =
      let c = m.guests m.curr_guest_idx in
      let (regs, vmcb) = run (c.regs, m.vmcb) in
      record m { vmcb = vmcb; guests = put m.guests m.curr_guest_idx (record c { regs = regs }) }

  -- `none` is an index that the test accepts and that has no context: the source then uses the memory
  -- behind the contexts.
  unfoldable pub context_switching :
      (GuestRegs × Vmcb → GuestRegs × Vmcb) → Vmm Disk Ports → ℕ → ℕ → Option (Vmm Disk Ports)
  unfolding save_guest load_guest svm_vmrun
  context_switching run m curr_guest next_guest =
      if leb 100 curr_guest || leb 100 next_guest
      then some m
      else if leb guests_room curr_guest || leb guests_room next_guest
      then none
      else some (svm_vmrun run (load_guest (save_guest m curr_guest) next_guest))

-- The next index of `scheduale`, when the quantum is over.
unfoldable pub scheduled_index : ℕ → ℕ → ℕ
scheduled_index curr_guest_idx guests_count =
    if leb guests_count curr_guest_idx then 0 else curr_guest_idx + 1
