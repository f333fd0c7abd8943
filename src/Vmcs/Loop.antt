-- ===== src/Vmcs/Loop.antt =====
-- `enable_svm` and the loop of `init_vm` of src/vmcs/vmcs.cpp.
use littlevisor.Base.{ℕ, Option, none, some, ◌==◌, if◌then◌else◌}
use littlevisor.Common.{Memory, getbit_val, setbit}
use littlevisor.Ata.{StorageDevice}
use littlevisor.Vmcs.{GuestRegs, Vmcb, Vmm, svm_vmrun}
use littlevisor.Vmcs.Ioio.{Host, vmexit_handler}

-- What `enable_svm` writes to the register EFER, from the two words of CPUID that it tests and the
-- register's value; `none` is an early return, at which the processor halts until an interrupt.
unfoldable pub enable_svm : ℕ → ℕ → ℕ → Option ℕ
enable_svm c d efer =
    if getbit_val c 2 == 0
    then none
    else if getbit_val d 0 == 0
    then none
    else some (setbit 64 efer 12)

module _ (storage : StorageDevice) (host : Host) where
  -- A round of the loop: the exit is handled and the current guest runs again. VMSAVE changes none
  -- of the statics.
  unfoldable pub vm_round :
      (GuestRegs × Vmcb → GuestRegs × Vmcb)
      → (ℕ → Option Memory)
      → Vmm storage.Disk host.State
      → Option (Vmm storage.Disk host.State)
  unfolding vmexit_handler svm_vmrun
  vm_round run fresh m = elim (vmexit_handler storage host fresh m) [
    | none ↦ none
    | some m' ↦ some (svm_vmrun run m')
  ]
