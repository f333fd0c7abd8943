-- ===== src/Ata/Status.antt =====
-- What a command leaves in the status register and in the state of the transfer.
use littlevisor.Base.{
  ◌+◌, Option, none, some, ◌*◌, ◌≤◌, ℕ, ◌≡◌, Bool, true, false, ◌||◌, ◌==◌, if◌then◌else◌,
}
use littlevisor.Bits.{bit}
use littlevisor.Common.{Memory}
use littlevisor.Ata.{AtaDevice}

-- The commands that the device knows.
abbrev pub is_known : ℕ → Bool
is_known c = c == 0x20 || c == 0x30 || c == 0x24 || c == 0x34 || c == 0xEC

-- What the status register and the transfer are after a command.
pub record Answered (command : ℕ) (d d' : AtaDevice) : Type 0 where
  pub error : bit d'.registers.status_reg 0 ≡ (if is_known command then 0 else 1)
  pub ready : bit d'.registers.status_reg 6 ≡ 1
  pub request :
      bit d'.registers.status_reg 3 ≡ (if is_known command then 1 else bit d.registers.status_reg 3)
  pub transfer : d'.device_in_transfer ≡ (is_known command || d.device_in_transfer)
  pub offset : d'.buff_offset ≡ (if is_known command then 0 else d.buff_offset)

-- The command moves no bytes past the end of the buffer that it asks of the heap.
pub record IsInside (command sector_size : ℕ) (d : AtaDevice) : Type 0 where
  pub reads :
      (command == 0x20 || command == 0x24) ≡ true
      → (d.registers.sec_num_reg + 1) * sector_size ≤ d.registers.sec_count_reg * sector_size
  pub writes :
      (command == 0x34) ≡ true
      → d.registers.sec_num_reg * sector_size ≤ d.registers.sec_count_reg * sector_size
  pub identifies : (command == 0xEC) ≡ true → d.registers.sec_count_reg * sector_size ≤ 512

-- The end of a command, and the fault of a known one that gets no buffer from the heap.
pub data Outcome {Disk : Type 0} (command : ℕ) (d : AtaDevice)
    : Option Memory → Option (AtaDevice × Disk) → Type 0 where
  ends :
      (d' : AtaDevice) (disk : Disk) (buff : Memory)
      → Answered command d d'
      → Outcome command d (some buff) (some (d', disk))
  is_refused :
      (d' : AtaDevice) (disk : Disk)
      → is_known command ≡ false
      → Answered command d d'
      → Outcome command d none (some (d', disk))
  faults : is_known command ≡ true → Outcome command d none none
