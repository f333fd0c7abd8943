-- ===== src/Ata/Commands.antt =====
-- The commands of src/vm_drivers/ata_pio.cpp, which read and write the disk, and the dispatch of an
-- access to a port.
use littlevisor.Base.{
  leb, true, Option, none, some, ◌∷◌, ℕ, zero, suc, ◌+◌, ◌-◌, ◌*◌, ◌%◌, ◌^◌, Bool, true, false,
  ◌&&◌, ◌||◌, List, [], ltb, ◌==◌, if◌then◌else◌,
}
use littlevisor.Common.{Memory, setbit, kmemset}
use littlevisor.Ata.{
  read_sectors, write_sectors, identify_cmd, StorageDevice, TransferType, AtaDevice, Transaction,
  bytes_of, put_bytes, handle_read_register, handle_write_register, handle_device_ctrl_reg_write,
  set_status, data_ready, handle_identify_command, width, handle_read_data,
}

-- `construct_response`: a response of no bytes is left out, and another goes to memory that `kmalloc`
-- returns; `none` is a copy through its null pointer.
unfoldable pub construct_response : Option Memory → List ℕ → Option (List ℕ)
construct_response fresh [] = some []
construct_response none (byte ∷ bytes) = none
construct_response (some buff) (byte ∷ bytes) = some (byte ∷ bytes)

-- The response with what the access leaves beside it.
unfoldable pub respond :
    {Disk : Type 0}
    → Option Memory
    → List ℕ
    → Bool
    → AtaDevice
    → Disk
    → Option (List ℕ × Bool × AtaDevice × Disk)
unfolding construct_response
respond fresh bytes zero_rax d disk = elim (construct_response fresh bytes) [
  | none ↦ none
  | some response ↦ some (response, zero_rax, d, disk)
]

module _ (dev : StorageDevice) where
  open dev use {Disk, read_sector, write_sector, sector_size}

  -- The loop of `handle_read_sectors`, `left` rounds from round `i` on.
  unfoldable pub read_from : ℕ → ℕ → ℕ → ℕ → Memory → Disk → Memory × Disk
  read_from zero i sector offset buff disk = (buff, disk)
  read_from (suc left) i sector offset buff disk =
      let (buff', disk') = read_sector disk ((sector + i) % 2 ^ 32) buff offset in
      read_from left (i + 1) sector ((offset + sector_size % 2 ^ 32) % 2 ^ 32) buff' disk'

  -- `for(i = 0; i <= sec_num_reg; i++)`
  unfoldable pub handle_read_sectors : AtaDevice → Disk → AtaDevice × Disk
  handle_read_sectors d disk =
      let sector = d.registers.sec_num_reg in
      let (buff, disk') = read_from (sector + 1) 0 sector 0 d.transfer_buff disk in
      (record d { transfer_buff = buff }, disk')

  unfoldable pub write_from : ℕ → ℕ → ℕ → ℕ → Memory → Disk → Memory × Disk
  write_from zero i sector offset buff disk = (buff, disk)
  write_from (suc left) i sector offset buff disk =
      let (buff', disk') = write_sector disk ((sector + i) % 2 ^ 32) buff offset in
      write_from left (i + 1) sector ((offset + sector_size % 2 ^ 32) % 2 ^ 32) buff' disk'

  -- `for(i = 0; i < sec_num_reg; i++)`
  unfoldable pub handle_write_sectors : AtaDevice → Disk → AtaDevice × Disk
  handle_write_sectors d disk =
      let sector = d.registers.sec_num_reg in
      let (buff, disk') = write_from sector 0 sector 0 d.transfer_buff disk in
      (record d { transfer_buff = buff }, disk')

  -- The common start of the commands: a buffer of `bytes` in new memory `fresh`, with the sectors'
  -- part of it zeroed.
  unfoldable pub start_transfer : AtaDevice → TransferType → Memory → ℕ → AtaDevice
  start_transfer d kind fresh bytes =
      let sectors = d.registers.sec_count_reg * sector_size in
      record d {
        device_in_transfer = true;
        transfer_type = kind;
        transfer_buff = kmemset fresh 0 0 (sectors % 2 ^ 32);
        buff_offset = 0;
        size_remaining = bytes % 2 ^ 32;
      }

  -- `fresh` is the memory that `kmalloc` returns, and `none` its null pointer, which the source
  -- writes through: the model then gives `none` for a known command, also where it would move 0 bytes.
  -- The same holds for a command that moves bytes past the end of the buffer.
  unfoldable pub handle_command : AtaDevice → Disk → Option Memory → ℕ → Option (AtaDevice × Disk)
  handle_command d disk fresh command =
      let sectors = d.registers.sec_count_reg * sector_size in
      let last = d.registers.sec_num_reg in
      let unknown = set_status d (setbit 8 (setbit 8 d.registers.status_reg 0) 6) in
      let known : Bool → (Memory → AtaDevice × Disk) → Option (AtaDevice × Disk) = λ inside run.
        elim fresh [
          | none ↦ none
          | some buff ↦ if inside then some (data_ready (run buff).0, (run buff).1) else none
        ] in
      let reading : Memory → AtaDevice × Disk =
        λ buff. handle_read_sectors (start_transfer d read_sectors buff sectors) disk in
      let writing : Memory → AtaDevice = λ buff. start_transfer d write_sectors buff sectors in
      let identify : Memory → AtaDevice =
        λ buff. handle_identify_command (start_transfer d identify_cmd buff 512) in
      if command == 0x20
      then known (leb ((last + 1) * sector_size) sectors) reading
      else if command == 0x30
      then known true (λ buff. (writing buff, disk))
      else if command == 0x24
      then known (leb ((last + 1) * sector_size) sectors) reading
      else if command == 0x34
      then known (leb (last * sector_size) sectors)
          (λ buff. handle_write_sectors (writing buff) disk)
      else if command == 0xEC
      then known (leb sectors 512) (λ buff. (identify buff, disk))
      else some (unknown, disk)

  unfoldable pub handle_write_data : AtaDevice → Disk → Transaction → AtaDevice × Disk
  handle_write_data d disk t =
      let writes : Bool = elim d.transfer_type [ write_sectors ↦ true | _ ↦ false ] in
      let active = d.device_in_transfer && writes in
      let d' =
        if active
        then record d {
          transfer_buff = put_bytes (width t) d.transfer_buff d.buff_offset t.written_val;
          buff_offset = (d.buff_offset + width t) % 2 ^ 32;
        }
        else d in
      let ended = record d' { device_in_transfer = false } in
      if d'.buff_offset == d.size_remaining then handle_write_sectors ended disk else (d', disk)

  -- What an access to a port gives: the response, whether RAX is set to 0, the device, the disk.
  -- `fresh` is what `kmalloc` returns, for the buffer of a command or for the response of a read, of
  -- which an access makes one at most.
  unfoldable pub dispatch_command :
      AtaDevice → Disk → Option Memory → Transaction → Option (List ℕ × Bool × AtaDevice × Disk)
  dispatch_command d disk fresh t =
      let p = t.port in
      let is_register = (ltb 0x1F0 p && ltb p 0x1F7) || (ltb 0x170 p && ltb p 0x177) in
      let port = if ltb 0x1F0 p && ltb p 0x1F7 then p - 0x1F0 else p - 0x170 in
      let value = t.written_val % 2 ^ 16 in
      let (answer, zero_rax, read) = handle_read_data d t in
      let given = respond fresh answer zero_rax read disk in
      let commanded =
        handle_command
          (record d { registers = record d.registers { cmd_reg = t.written_val % 256 } }) disk fresh
          value in
      let written = handle_write_data d disk t in
      let controlled =
        handle_device_ctrl_reg_write (handle_write_register d.registers 0x3F6 value) in
      let status = bytes_of 8 (handle_read_register d.registers 7) in
      if is_register
      then (if t.is_read
          then respond fresh (bytes_of 8 (handle_read_register d.registers port)) false d disk
          else some (
            [],
            false,
            record d { registers = handle_write_register d.registers port value },
            disk,
          ))
      else if p == 0x1F7 || p == 0x177
      then (if t.is_read
          then respond fresh status false d disk
          else (elim commanded [ none ↦ none | some done ↦ some ([], false, done.0, done.1) ]))
      else if p == 0x1F0 || p == 0x170
      then (if t.is_read then given else some ([], false, written.0, written.1))
      else if p == 0x3F6
      then (if t.is_read
          then given
          else some ([], false, record d { registers = controlled }, disk))
      else some ([], false, d, disk)
