-- ===== src/Ata/Storage.antt =====
-- src/vm_drivers/ata_pio.cpp, `virtual_storage_device`: a disk that is a file of the kernel's file
-- system, which it opens anew for each access.
use native.Mathlib.Decide.{ℕ_discrete}
use littlevisor.Base.{
  ℕ, ◌+◌, ◌-◌, ◌*◌, ◌%◌, ◌^◌, ◌<◌, ◌≡◌, refl, sym, ap, ◌∙◌, ◌⊎◌, false, List, length, get_or, set,
  get_or-set_self, get_or-set_ne, ltb, leb, ◌==◌, if◌then◌else◌, arith,
}
use littlevisor.Common.{Memory}
use littlevisor.Vfs.{FileSystem, Descriptor, empty, name_pointer, vopen_file, vread_file, vseekp}
use littlevisor.Vfs.Table.{is_open, AllOpen, Opened, fresh, failed, vopen_file-Opened, opened}
use littlevisor.Ata.{StorageDevice}

-- The memory from an offset on, and the memory with new contents from there on.
abbrev pub from : Memory → ℕ → Memory
from buff offset i = buff (offset + i)

abbrev pub put_from : Memory → ℕ → Memory → Memory
put_from buff offset new i = if ltb i offset then buff i else new (i - offset)

module _ (fs : FileSystem) (file_name : Memory) (size : ℕ) where
  open fs use {Disk, check_file_exists, read_file}

  abbrev pub State : Type 0
  State = Disk × List Descriptor

  -- `read_data`; `write_data` has the same text.
  unfoldable pub read_data : State → Memory → ℕ → ℕ → ℕ → Memory × State
  unfolding vopen_file vseekp vread_file
  read_data (disk, table) buff at offset n =
      let (fd, table1) = vopen_file fs disk table file_name in
      let table2 = (vseekp table1 fd offset).1 in
      let (status, new) = vread_file fs disk table2 fd (from buff at) n in
      (put_from buff at new, (disk, table2))

  -- `read_sector`; `write_sector` has the same text.
  unfoldable pub read_sector : State → ℕ → Memory → ℕ → Memory × State
  unfolding read_data
  read_sector state sector buff at = read_data state buff at (sector * size % 2 ^ 32) size

  -- What the device offers to the disk that a guest sees.
  unfoldable pub virtual_storage_device : StorageDevice
  unfolding read_sector
  virtual_storage_device = record {
    Disk = State;
    read_sector = read_sector;
    write_sector = read_sector;
    sector_size = size;
  }

  -- What an access answers. Served: it takes an entry that was not open, leaves it open, changes no
  -- other, and leaves in the buffer what the file system reads there. Lost: the file or a free entry
  -- is missing, and neither the state nor the buffer changes.
  pub data Access (disk : Disk) (table : List Descriptor) (buff : Memory) (at offset n : ℕ)
      : Memory × State → Type 0 where
    served :
        {fd : ℕ} {buff' : Memory} {table' : List Descriptor}
        → fd < 100
        → is_open table fd ≡ false
        → ((k : ℕ)
            → get_or table' k empty ≡ (
                if k == fd
                then record (opened file_name) { position = offset }
                else get_or table k empty))
        → ((b : ℕ)
            → buff' b
              ≡ put_from buff at
                  (read_file disk
                    (name_pointer (record (opened file_name) { position = offset }))
                    (from buff at)
                    offset
                    n).1
                  b)
        → Access disk table buff at offset n (buff', (disk, table'))
    lost :
        {buff' : Memory}
        → (check_file_exists disk file_name ≡ false) ⊎ AllOpen fs table
        → ((b : ℕ) → buff' b ≡ buff b)
        → Access disk table buff at offset n (buff', (disk, table))

  module _ (disk : Disk) (table : List Descriptor) (buff : Memory) (at offset n : ℕ) where
    -- The rest of an access, after the file is open.
    access : ℕ × List Descriptor → Memory × State
    access (fd, table1) =
        let table2 = (vseekp table1 fd offset).1 in
        let (status, new) = vread_file fs disk table2 fd (from buff at) n in
        (put_from buff at new, (disk, table2))

    after_open :
        (r : ℕ × List Descriptor)
        → length table ≡ 100
        → Opened fs disk table file_name r
        → Access disk table buff at offset n (access r)
    unfolding access vseekp vread_file
    after_open r size (fresh {fd} {table'} h exists was entries len) =
        let below : leb 100 fd ≡ false = ground arith in
        let moved : Descriptor = record (get_or table' fd empty) { position = offset } in
        let here : get_or table' fd empty ≡ opened file_name = entries fd ∙ ground arith in
        let read : get_or (set table' fd moved) fd empty
            ≡ record (opened file_name) { position = offset } =
          get_or-set_self table' fd moved empty (omega (arith, len, size))
          ∙ ap (λ (d : Descriptor). record d { position = offset }) here in
        rw below (
          served h was
            (λ k. elim (ℕ_discrete k fd) [
              | yes e ↦ rw e (read ∙ ground arith)
              | no ne ↦
                  get_or-set_ne table' fd k moved empty (λ e. ne (sym e)) ∙ entries k ∙ ground arith
            ])
            (λ b. rw read refl))
    after_open r size (failed why) = lost why (λ b. ground arith)

    -- On a table of 100 entries an access opens an entry that was not open, leaves it open, changes no
    -- other and leaves in the buffer what the file system reads at the offset, or it changes neither
    -- the state nor the buffer, and the file is missing or all entries are open.
    pub read_data-Access :
        length table ≡ 100
        → Access disk table buff at offset n (read_data (disk, table) buff at offset n)
    unfolding read_data access
    read_data-Access size =
        after_open (vopen_file fs disk table file_name) size
          (vopen_file-Opened fs disk table file_name size)
