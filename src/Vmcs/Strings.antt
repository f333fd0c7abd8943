-- ===== src/Vmcs/Strings.antt =====
-- `handle_ioio_vmexit` of src/vmcs/vmcs.cpp at the data port of a disk, for the string instructions
-- by which a guest reads a sector.
use littlevisor.Base.{
  ◌≢◌, ◌%◌, false, ℕ, ◌+◌, ◌-◌, ◌*◌, ◌^◌, ◌≤◌, ◌<◌, ◌≡◌, ◌⊎◌, true, ◌&&◌, Option, some, length, ltb,
  leb, if◌then◌else◌,
}
use littlevisor.Common.{to_higher_half}
use littlevisor.Ata.{StorageDevice, AtaDevice, Transaction, width, handle_read_data}
use littlevisor.Ata.Transfer.{is_reading, read_all}
use littlevisor.Vmcs.{Vmm, machine, walk}
use littlevisor.Common.{load}
use littlevisor.Common.Bitops.{Bytes}
use littlevisor.Paging.{slot, present, index, root, walk_to_leaf}
use littlevisor.Vmcs.Ioio.{Host, ExitInfo, decode_exitinfo1, store_bytes, ata_transaction, rax_of}

module _ (storage : StorageDevice) {Ports : Type 0} where
  -- What some rounds leave, by the reads of the device.
  record Rounds (k : ℕ) (t : Transaction) (m : Vmm storage.Disk Ports) (target : ℕ)
      (r : Option (Vmm storage.Disk Ports)) : Type 0 where
    after : Vmm storage.Disk Ports
    result : r ≡ some after
    index : after.curr_guest_idx ≡ m.curr_guest_idx
    control : after.vmcb.control ≡ m.vmcb.control
    memory :
        after.memory
        ≡ store_bytes m.memory target (read_all k (m.guests m.curr_guest_idx).ata_device t).0
    device :
        (after.guests after.curr_guest_idx).ata_device
        ≡ (read_all k (m.guests m.curr_guest_idx).ata_device t).1

  -- One round.
  record Round (t : Transaction) (m : Vmm storage.Disk Ports) (target : ℕ)
      (r : Option (Vmm storage.Disk Ports × ℕ)) : Type 0 where
    after : Vmm storage.Disk Ports
    result :
        r
        ≡ some
            (after, target + length (handle_read_data (m.guests m.curr_guest_idx).ata_device t).0)
    index : after.curr_guest_idx ≡ m.curr_guest_idx
    control : after.vmcb.control ≡ m.vmcb.control
    memory :
        after.memory
        ≡ store_bytes m.memory target (handle_read_data (m.guests m.curr_guest_idx).ata_device t).0
    device :
        (after.guests after.curr_guest_idx).ata_device
        ≡ (handle_read_data (m.guests m.curr_guest_idx).ata_device t).2

module _ (storage : StorageDevice) (host : Host) where
  abbrev exit_info : Vmm storage.Disk host.State → ExitInfo
  exit_info m = decode_exitinfo1 m.vmcb.control.exitinfo1

  abbrev request : Vmm storage.Disk host.State → Transaction
  request m = ata_transaction (exit_info m) (rax_of m)

  abbrev device_of : Vmm storage.Disk host.State → AtaDevice
  device_of m = (m.guests m.curr_guest_idx).ata_device

  abbrev rcx_of : Vmm storage.Disk host.State → ℕ
  rcx_of m = (m.guests m.curr_guest_idx).regs.rcx

  -- The guest's address of byte `i` of the buffer.
  abbrev wanted : Vmm storage.Disk host.State → ℕ → ℕ
  wanted m i = (m.vmcb.state_save_area.es.base + (m.guests m.curr_guest_idx).regs.rdi) % 2 ^ 64 + i

  -- Where an address of the guest lies, in the kernel's addresses.
  abbrev behind : Vmm storage.Disk host.State → ℕ → ℕ
  behind m a = to_higher_half (walk m a (m.guests m.curr_guest_idx).guest_cr3)

  -- The bytes that the instruction moves.
  abbrev amount : Vmm storage.Disk host.State → ℕ
  amount m = rcx_of m * width (request m)

  -- The exit is a string instruction with a repeat count that reads the data port, inside an active
  -- transfer to the guest that has room for all its reads. The guest's buffer lies in one page, which
  -- the tables of the guest map to a frame that holds no object of the kernel.
  pub record StringRead (m : Vmm storage.Disk host.State) : Type 0 where
    pub data_port : (exit_info m).port ≡ 0x1F0 ⊎ (exit_info m).port ≡ 0x170
    pub reads : (exit_info m).is_read ≡ true
    pub repeats : (exit_info m).rep ≡ true
    pub wide : 0 < width (request m)
    pub active : (device_of m).device_in_transfer ≡ true
    pub kind : is_reading (device_of m).transfer_type ≡ true
    pub inside : (device_of m).buff_offset < (device_of m).size_remaining
    pub room : (device_of m).buff_offset + amount m ≤ (device_of m).size_remaining
    pub small : (device_of m).size_remaining < 2 ^ 32
    pub bytes : Bytes m.memory
    pub one_page : wanted m 0 % 0x1000 + amount m ≤ 0x1000
    pub leaf : ℕ
    pub mapped :
        walk_to_leaf
          (load 8 m.memory)
          (root (machine m) (m.guests m.curr_guest_idx).guest_cr3)
          (wanted m 0)
        ≡ some leaf
    pub is_present : present (load 8 m.memory (slot leaf (index (wanted m 0) 3))) ≡ 1
    pub low : walk m (wanted m 0) (m.guests m.curr_guest_idx).guest_cr3 < 2 ^ 46
    pub apart : (i : ℕ) → i < amount m → m.is_held (behind m (wanted m 0) + i) ≡ false

  -- What the guest then finds at its addresses, and what stays.
  pub data Copied (m : Vmm storage.Disk host.State)
      : Option (Vmm storage.Disk host.State) → Type 0 where
    copied :
        (m' : Vmm storage.Disk host.State)
        → ((i : ℕ)
            → i < amount m
            → m'.memory (behind m (wanted m i))
              ≡ (device_of m).transfer_buff ((device_of m).buff_offset + i))
        → ((a : ℕ)
            → ((i : ℕ) → i < amount m → a ≢ behind m (wanted m i))
            → m'.memory a ≡ m.memory a)
        → rcx_of m' ≡ 0
        → (device_of m').buff_offset ≡ (device_of m).buff_offset + amount m
        → m'.vmcb.state_save_area.rip ≡ m.vmcb.control.exitinfo2
        → Copied m (some m')

  -- The bytes that the rounds store, in the kernel's addresses.
  record Stored (m : Vmm storage.Disk host.State) (r : Option (Vmm storage.Disk host.State))
      : Type 0 where
    after : Vmm storage.Disk host.State
    result : r ≡ some after
    memory :
        (a : ℕ)
        → after.memory a ≡ (
            if leb (behind m (wanted m 0)) a && ltb a (behind m (wanted m 0) + amount m)
            then (device_of m).transfer_buff
                ((device_of m).buff_offset + (a - behind m (wanted m 0)))
            else m.memory a)
    rcx : rcx_of after ≡ 0
    offset : (device_of after).buff_offset ≡ (device_of m).buff_offset + amount m
    control : after.vmcb.control ≡ m.vmcb.control
