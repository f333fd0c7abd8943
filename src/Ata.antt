-- ===== src/Ata.antt =====
-- src/vm_drivers/ata_pio.cpp and ata_pio.h: the ATA disk that a guest sees, with its registers and the
-- reads of its data port. The disk behind it is an interface; Ata/Commands has the commands.
pub mod Commands
pub mod Status
pub mod Transfer
pub mod Registers
pub mod Storage
pub mod Tests
use littlevisor.Base.{
  ℕ, zero, suc, ◌+◌, ◌-◌, ◌*◌, ◌/◌, ◌%◌, ◌^◌, ◌≤◌, ◌<◌, min, max, bit_and, bit_or, ◌≡◌, refl, sym,
  ap, fun_ext, ◌∙◌, ◌≢◌, ◌⊎◌, inl, inr, Bool, true, false, not, ◌&&◌, ◌||◌, Option, none, some,
  List, [], ◌∷◌, ◌++◌, length, get_or, get_elem?, set, length-set, get_or-set_self, get_or-set_ne,
  map, ltb, leb, ◌==◌, if◌then◌else◌, arith, Bool-cases, Option-cases, ltb→lt, lt→ltb, leb→le,
  ==_iff,
}
use littlevisor.Common.{Memory, getbit, setbit, clearbit, kmemset}

-- `storage_device`, as the device uses it. Both calls get the buffer and an offset in it, and may
-- change the buffer.
pub record StorageDevice : Type 1 where
  pub Disk : Type 0
  pub read_sector : Disk → ℕ → Memory → ℕ → Memory × Disk
  pub write_sector : Disk → ℕ → Memory → ℕ → Memory × Disk
  pub sector_size : ℕ

-- `ata_pio_registers_s`
pub record AtaRegisters : Type 0 where
  pub data_reg : ℕ
  pub error_reg : ℕ
  pub features_reg : ℕ
  pub sec_count_reg : ℕ
  pub sec_num_reg : ℕ
  pub cylinder_high_reg : ℕ
  pub drive_head_reg : ℕ
  pub status_reg : ℕ
  pub cmd_reg : ℕ
  pub alt_status_reg : ℕ
  pub dev_ctrl_reg : ℕ
  pub drive_addr_reg : ℕ

pub data TransferType : Type 0 where
  read_sectors write_sectors identify_cmd : TransferType

-- `ata_pio_device`, less `storage_dev`. `transfer_buff` is the memory behind the pointer.
pub record AtaDevice : Type 0 where
  pub registers : AtaRegisters
  pub transfer_type : TransferType
  pub device_in_transfer : Bool
  pub transfer_buff : Memory
  pub buff_offset : ℕ
  pub size_remaining : ℕ

-- `ide_transaction`, with the fields of `ioio_exitinfo1` that the device reads. `is_read` is `type`.
pub record Transaction : Type 0 where
  pub port : ℕ
  pub is_read : Bool
  pub sz8 : Bool
  pub sz16 : Bool
  pub sz32 : Bool
  pub written_val : ℕ

-- `n` bytes of a memory, as a response or a copy holds them.
unfoldable pub bytes_at : ℕ → Memory → ℕ → List ℕ
bytes_at zero m i = []
bytes_at (suc n) m i = m i ∷ bytes_at n m (i + 1)

-- The bytes of a number, lowest first.
unfoldable pub bytes_of : ℕ → ℕ → List ℕ
bytes_of zero v = []
bytes_of (suc n) v = v % 256 ∷ bytes_of n (v / 256)

-- `n` bytes of a number written to a memory.
unfoldable pub put_bytes : ℕ → Memory → ℕ → ℕ → Memory
put_bytes n m i v b = if leb i b && ltb b (i + n) then v / 256 ^ (b - i) % 256 else m b

-- `handle_read_register`: the constants are those of `ata_pio_base_ports`.
unfoldable pub handle_read_register : AtaRegisters → ℕ → ℕ
handle_read_register r port =
    if port == 0
    then r.data_reg
    else if port == 1
    then r.error_reg
    else if port == 2
    then r.sec_count_reg
    else if port == 3
    then bit_and r.sec_num_reg 0xFF
    else if port == 4
    then bit_and (r.sec_num_reg * 2 ^ 8) 0xFF
    else if port == 5
    then bit_and r.cylinder_high_reg 0xFFFF
    else if port == 6
    then r.drive_head_reg
    else if port == 7
    then r.status_reg
    else if port == 0x3F6
    then r.alt_status_reg
    else if port == 0x3F7
    then r.drive_addr_reg
    else 0

-- `data` is a `uint16_t`; the registers from `drive_head_reg` on hold bytes.
unfoldable pub handle_write_register : AtaRegisters → ℕ → ℕ → AtaRegisters
handle_write_register r port value =
    if port == 0
    then record r { data_reg = value }
    else if port == 1
    then record r { features_reg = value }
    else if port == 2
    then record r { sec_count_reg = value }
    else if port == 3
    then record r { sec_num_reg = bit_or (bit_and r.sec_num_reg 0xFF00) (bit_and value 0xFF) }
    else if port == 4
    then record r { sec_num_reg = bit_or (bit_and r.sec_num_reg 0xFF00) (bit_and value 0xFF) }
    else if port == 5
    then record r {
      cylinder_high_reg = bit_or (bit_and r.cylinder_high_reg 0xFF00) (bit_and value 0xFFFF);
    }
    else if port == 6
    then record r { drive_head_reg = value % 256 }
    else if port == 7
    then record r { cmd_reg = value % 256 }
    else if port == 0x3F6
    then record r { dev_ctrl_reg = bit_and value 0xFF }
    else r

unfoldable pub handle_device_reset : AtaRegisters → AtaRegisters
handle_device_reset r = record {
  alt_status_reg = 0;
  sec_count_reg = 0;
  cmd_reg = 0;
  data_reg = 0;
  error_reg = 0;
  status_reg = setbit 8 0 6;
  features_reg = 0;
  dev_ctrl_reg = 0;
  drive_addr_reg = 0;
  drive_head_reg = 0;
  cylinder_high_reg = 0;
  sec_num_reg = 0;
}

unfoldable pub handle_device_ctrl_reg_write : AtaRegisters → AtaRegisters
handle_device_ctrl_reg_write r = if getbit r.dev_ctrl_reg 2 == 0 then r else handle_device_reset r

unfoldable pub set_status : AtaDevice → ℕ → AtaDevice
set_status d status = record d { registers = record d.registers { status_reg = status } }

-- The end of a known command: error off, ready and data request on.
unfoldable pub data_ready : AtaDevice → AtaDevice
unfolding set_status
data_ready d = set_status d (setbit 8 (setbit 8 (clearbit 8 d.registers.status_reg 0) 6) 3)

unfoldable pub handle_identify_command : AtaDevice → AtaDevice
unfolding set_status
handle_identify_command d =
    set_status (record d { transfer_buff = kmemset d.transfer_buff 0 0xFF 512 })
      (setbit 8 d.registers.status_reg 3)

-- The bytes that a data access moves: the first size that the transaction names.
unfoldable pub width : Transaction → ℕ
width t = if t.sz8 then 1 else if t.sz16 then 2 else if t.sz32 then 4 else 0

-- `handle_read_data`, where the heap gives the memory of the response (construct_response, in
-- Ata/Commands, has the other case). The results are the response, whether RAX is set to 0, and the device.
unfoldable pub handle_read_data : AtaDevice → Transaction → List ℕ × Bool × AtaDevice
unfolding width set_status
handle_read_data d t =
    let reads : Bool = elim d.transfer_type [ write_sectors ↦ false | _ ↦ true ] in
    let active = d.device_in_transfer && reads in
    let offset = if active then (d.buff_offset + width t) % 2 ^ 32 else d.buff_offset in
    let d' = record d { buff_offset = offset } in
    let ended =
      set_status (record d' { device_in_transfer = false }) (clearbit 8 d.registers.status_reg 3) in
    (
      if active then bytes_at (width t) d.transfer_buff d.buff_offset else [],
      not active,
      if offset == d.size_remaining then ended else d',
    )
