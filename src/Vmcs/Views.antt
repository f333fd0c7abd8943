-- ===== src/Vmcs/Views.antt =====
-- `context_switching` of src/vmcs/vmcs.cpp against machines that each keep their own state.
use littlevisor.Base.{Option, none, some, ℕ, ◌<◌, List, [], ◌∷◌, ◌==◌, if◌then◌else◌}
use littlevisor.Vmcs.{
  guests_room, GuestRegs, Control, StateSaveArea, Vmcb, Context, Vmm, put, save_guest, load_guest,
  svm_vmrun, context_switching,
}

-- A virtual processor, as its guest sees it.
pub record Cpu : Type 0 where
  pub state : StateSaveArea
  pub regs : GuestRegs
  pub cr3 : ℕ
  pub asid : ℕ

-- The processors of all guests, and the control area, which they share.
pub record Machines : Type 0 where
  pub cpus : ℕ → Cpu
  pub control : Control

-- A guest runs until its next exit: its processor changes and no other.
unfoldable pub enter : (GuestRegs × Vmcb → GuestRegs × Vmcb) → ℕ → Machines → Machines
enter run n ms =
    let cpu = ms.cpus n in
    let (regs, vmcb) = run (
      cpu.regs,
      record {
        control = record ms.control { n_cr3 = cpu.cr3; guest_asid = cpu.asid };
        state_save_area = cpu.state;
      },
    ) in
    record {
      cpus = put ms.cpus n (record {
        state = vmcb.state_save_area;
        regs = regs;
        cr3 = vmcb.control.n_cr3;
        asid = vmcb.control.guest_asid;
      });
      control = vmcb.control;
    }

-- Every guest of the runs has a context.
pub data Accepted : List ((GuestRegs × Vmcb → GuestRegs × Vmcb) × ℕ) → Type 0 where
  last : Accepted []
  before :
      (run : GuestRegs × Vmcb → GuestRegs × Vmcb)
      → {n : ℕ} → {steps : List ((GuestRegs × Vmcb → GuestRegs × Vmcb) × ℕ)} → n < guests_room
      → Accepted steps
      → Accepted ((run, n) ∷ steps)

-- The runs of some guests, one after the other, each with what VMRUN does then.
unfoldable pub enters : List ((GuestRegs × Vmcb → GuestRegs × Vmcb) × ℕ) → Machines → Machines
unfolding enter
enters [] ms = ms
enters ((run, n) ∷ steps) ms = enters steps (enter run n ms)

-- The processor of a guest that does not run.
stored : Context → Cpu
stored c = record { state = c.guest; regs = c.regs; cr3 = c.guest_cr3; asid = c.guest_asid }

module _ {Disk Ports : Type 0} where
  -- The same by switches from the current guest.
  unfoldable pub switches :
      List ((GuestRegs × Vmcb → GuestRegs × Vmcb) × ℕ) → Vmm Disk Ports → Option (Vmm Disk Ports)
  unfolding context_switching
  switches [] m = some m
  switches ((run, n) ∷ steps) m =
      let rest = switches steps in
      elim (context_switching run m m.curr_guest_idx n) [ none ↦ none | some m' ↦ rest m' ]

  live : Vmm Disk Ports → Cpu
  live m = record {
    state = m.vmcb.state_save_area;
    regs = (m.guests m.curr_guest_idx).regs;
    cr3 = m.vmcb.control.n_cr3;
    asid = m.vmcb.control.guest_asid;
  }

  -- The processors: the current guest's is in the control block, the others are where they were
  -- kept.
  unfoldable pub view : Vmm Disk Ports → Machines
  unfolding stored live
  view m = record {
    cpus = λ j. if j == m.curr_guest_idx then live m else stored (m.guests j);
    control = m.vmcb.control;
  }

  -- The machines after a run of the guest `n` from the state `cpu`.
  entered : (GuestRegs × Vmcb → GuestRegs × Vmcb) → Vmm Disk Ports → ℕ → Cpu → Machines
  unfolding view
  entered run m n cpu =
      let (regs, vmcb) = run (
        cpu.regs,
        record {
          control = record m.vmcb.control { n_cr3 = cpu.cr3; guest_asid = cpu.asid };
          state_save_area = cpu.state;
        },
      ) in
      record {
        cpus = put (view m).cpus n (record {
          state = vmcb.state_save_area;
          regs = regs;
          cr3 = vmcb.control.n_cr3;
          asid = vmcb.control.guest_asid;
        });
        control = vmcb.control;
      }

  switched : (GuestRegs × Vmcb → GuestRegs × Vmcb) → Vmm Disk Ports → ℕ → Vmm Disk Ports
  switched run m n = svm_vmrun run (load_guest (save_guest m m.curr_guest_idx) n)
