-- ===== src/Cmos/Tests.antt =====
-- Runs of src/vm_drivers/cmos.cpp on a new device.
use littlevisor.Base.{◌≡◌, refl, ◌&&◌, ◌||◌, ◌==◌, if◌then◌else◌, arith}
use littlevisor.Cmos.{new_cmos, write_reg_idx, read_reg, write_reg, read_reg-write_reg}

second_flag_changes : read_reg (write_reg_idx (write_reg (write_reg_idx new_cmos 0x38) 5) 0x39) ≡ 5
unfolding read_reg write_reg write_reg_idx
second_flag_changes = refl

read_reg-write_reg_example :
    read_reg (write_reg_idx (write_reg (write_reg_idx new_cmos 0x39) 5) 0x38) ≡ (
      if (0x39 == 0x38 && (0x38 == 0x38 || 0x38 == 0x39)) || (0x39 == 0x39 && 0x38 == 0x39)
      then 5
      else read_reg (write_reg_idx new_cmos 0x38))
read_reg-write_reg_example = read_reg-write_reg new_cmos 0x39 0x38 5 (omega arith) (omega arith)
