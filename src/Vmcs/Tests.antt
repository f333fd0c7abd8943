-- ===== src/Vmcs/Tests.antt =====
-- Runs of src/vmcs/vmcs.cpp: two guests, one of them in the middle of a read from its disk.
use littlevisor.Base.{not, ◌&&◌, leb, ltb, ◌==◌, ℕ, ◌+◌, ◌/◌, ◌%◌, ◌≡◌, true, if◌then◌else◌}
use littlevisor.Bits.{bit}
use littlevisor.Common.{Memory}
use littlevisor.Ata.{StorageDevice, AtaDevice, TransferType, width}
use littlevisor.Cmos.{new_cmos}
use littlevisor.Vmcs.{GuestRegs, Vmcb, Context, Vmm}
use littlevisor.Vmcs.Ioio.{Host}
use littlevisor.Vmcs.Setup.{blank_vmcb, list_of_ports_to_intercept, set_ports}
use littlevisor.Vmcs.Bitmap.{has_port, set_ports-bit}

abbrev no_disk : StorageDevice
no_disk = record {
  Disk = Memory;
  read_sector = λ disk sector buff at. (buff, disk);
  write_sector = λ disk sector buff at. (buff, disk);
  sector_size = 512;
}

abbrev quiet_host : Host
quiet_host = record {
  State = ℕ;
  port_in = λ s width port. (0, s);
  port_out = λ s m width port value. (s + 1, m);
  swap32 = λ v. v;
}

abbrev two_sectors : AtaDevice
two_sectors = record {
  registers = record {
    data_reg = 0;
    error_reg = 0;
    features_reg = 0;
    sec_count_reg = 2;
    sec_num_reg = 1;
    cylinder_high_reg = 0;
    drive_head_reg = 0;
    status_reg = 8;
    cmd_reg = 0x20;
    alt_status_reg = 0;
    dev_ctrl_reg = 0;
    drive_addr_reg = 0;
  };
  transfer_type = TransferType.read_sectors;
  device_in_transfer = true;
  transfer_buff = λ i. 7 + i;
  buff_offset = 0;
  size_remaining = 1024;
}

abbrev regs : GuestRegs
regs = record {
  rbx = 0;
  rcx = 256;
  rdx = 0x1F0;
  rsi = 0;
  rdi = 0x3000;
  rbp = 0;
  r8 = 0;
  r9 = 0;
  r10 = 0;
  r11 = 0;
  r12 = 0;
  r13 = 0;
  r14 = 0;
  r15 = 0;
  dr0 = 0;
  dr1 = 0;
  dr2 = 0;
  dr3 = 0;
}

abbrev guest : Context
guest = record {
  guest = blank_vmcb.state_save_area;
  regs = regs;
  guest_cr3 = 0x5000;
  guest_asid = 1;
  ata_device = two_sectors;
  cmos_dev = new_cmos;
}

-- Four tables of the guest, at 0x5000 to 0x8000, which map its page 0x3000 to the frame 0xA000.
abbrev nested_tables : Memory
nested_tables a =
    if a == 0xffff800000005000
    then 7
    else if a == 0xffff800000005001
    then 0x60
    else if a == 0xffff800000006000
    then 7
    else if a == 0xffff800000006001
    then 0x70
    else if a == 0xffff800000007000
    then 7
    else if a == 0xffff800000007001
    then 0x80
    else if a == 0xffff800000008018
    then 7
    else if a == 0xffff800000008019
    then 0xA0
    else 0

-- The exit of REP INSW at the port 0x1F0.
abbrev reading : Vmm Memory ℕ
reading = record {
  vmcb = record blank_vmcb {
    control = record blank_vmcb.control {
      exitcode = 123;
      exitinfo1 = 0x1F0002D;
      exitinfo2 = 0x7C10;
      n_cr3 = 0x5000;
      guest_asid = 1;
    };
  };
  guests = λ j. guest;
  curr_guest_idx = 1;
  memory = nested_tables;
  is_held = λ a. not (leb 0xffff80000000a000 a && ltb a 0xffff80000000b000);
  disk = λ a. a;
  pmm = record {
    bytes = λ a. 0;
    bitmap_size = 1;
    last_allocated_idx = 0;
    number_of_avail_pages = 0;
  };
  cr3_val = 0x1000;
  ports = 0;
}

abbrev idle : GuestRegs × Vmcb → GuestRegs × Vmcb
idle s = s

abbrev bumps : GuestRegs × Vmcb → GuestRegs × Vmcb
bumps s = (record s.0 { rbx = s.0.rbx + 1 }, s.1)

set_ports-bit_example :
    bit (set_ports list_of_ports_to_intercept (λ a. 0) 0x4000 (0x4000 + 0x171 / 8)) (0x171 % 8)
    ≡ (if has_port 0x171 list_of_ports_to_intercept then 1 else bit 0 (0x171 % 8))
set_ports-bit_example = set_ports-bit list_of_ports_to_intercept (λ a. 0) 0x4000 0x171
