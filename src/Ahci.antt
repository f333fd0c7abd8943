-- ===== src/Ahci.antt =====
-- src/drivers/ahci.cpp, the driver of the SATA disk: byte transfers over whole sectors, and the
-- command that it builds for the controller.
pub mod Reads
pub mod Writes
pub mod Disk
pub mod Files
pub mod Command
pub mod Slots
pub mod Tests
use littlevisor.Base.{
  ℕ, zero, suc, ◌+◌, ◌-◌, ◌*◌, ◌/◌, ◌%◌, ◌^◌, ◌≤◌, ◌<◌, min, max, bit_and, bit_or, ◌≡◌, refl, sym,
  ap, fun_ext, ◌∙◌, ◌≢◌, ◌⊎◌, inl, inr, Bool, true, false, not, ◌&&◌, ◌||◌, Option, none, some,
  List, [], ◌∷◌, ◌++◌, length, get_or, get_elem?, set, length-set, get_or-set_self, get_or-set_ne,
  map, ltb, leb, ◌==◌, if◌then◌else◌, arith, Bool-cases, Option-cases, ltb→lt, lt→ltb, leb→le,
  ==_iff,
}
use littlevisor.Common.{Memory}

-- What a transfer of one sector does, once the controller has run its command: `read_sector` gives the
-- bytes that arrive in the buffer, and `write_sector` the disk after the bytes of a buffer are stored.
pub record Sectors : Type 1 where
  pub State : Type 0
  pub read_sector : State → ℕ → Memory
  pub write_sector : State → ℕ → Memory → State

-- `kmemcpy` of `n` bytes between two arrays: from `&src[from]` to `&dest[at]`.
unfoldable pub copy : Memory → ℕ → Memory → ℕ → ℕ → Memory
copy dest at src from n b = if leb at b && ltb b (at + n) then src (from + (b - at)) else dest b

abbrev pub sector_size : ℕ
sector_size = 512

-- `SECTOR_SIZE - offset_in_sector > size ? size : SECTOR_SIZE - offset_in_sector`
unfoldable pub first_size : ℕ → ℕ → ℕ
first_size offset_in_sector size =
    if ltb size (sector_size - offset_in_sector) then size else sector_size - offset_in_sector

-- `size - size_done > SECTOR_SIZE && size_done < size`, in 32-bit arithmetic
unfoldable pub goes_on : ℕ → ℕ → Bool
goes_on size size_done =
    ltb sector_size ((size + 2 ^ 32 - size_done) % 2 ^ 32) && ltb size_done size

module _ (dev : Sectors) where
  open dev use {State, read_sector, write_sector}

  -- The loop of `read_data`, with fuel: the buffer, how much is read, and the next sector.
  unfoldable pub read_loop : ℕ → State → ℕ → Memory → ℕ → ℕ → Memory × ℕ × ℕ
  read_loop zero s size buff size_read curr_sector = (buff, size_read, curr_sector)
  read_loop (suc fuel) s size buff size_read curr_sector =
      let sector = read_sector s (curr_sector % 2 ^ 32) in
      let rest =
        read_loop fuel s size (copy buff size_read sector 0 sector_size)
          ((size_read + sector_size) % 2 ^ 32) (curr_sector + 1) in
      if goes_on size size_read then rest else (buff, size_read, curr_sector)

  -- The start of `read_data`, up to the first sector boundary.
  unfoldable pub read_start : State → Memory → ℕ → ℕ → Memory × ℕ × ℕ
  unfolding copy first_size
  read_start s buff offset size =
      let curr_sector = offset / sector_size in
      let offset_in_sector = offset % sector_size in
      let n = first_size offset_in_sector size in
      if ltb 0 offset_in_sector
      then (copy buff 0 (read_sector s curr_sector) offset_in_sector n, n, curr_sector + 1)
      else (buff, 0, curr_sector)

  -- The end, from the sector that is left over.
  unfoldable pub read_end : State → ℕ → Memory × ℕ × ℕ → Memory
  unfolding copy
  read_end s size (buff, size_read, curr_sector) =
      if ltb size_read size
      then copy buff size_read (read_sector s (curr_sector % 2 ^ 32)) 0 (size - size_read)
      else buff

  -- The status, which is the size in 8 bits, and the buffer.
  unfoldable pub read_data : State → Memory → ℕ → ℕ → ℕ × Memory
  unfolding read_loop read_start read_end
  read_data s buff offset size =
      let (buff1, size_read, curr_sector) = read_start s buff offset size in
      (
        size % 256,
        read_end s size (read_loop (size / sector_size) s size buff1 size_read curr_sector),
      )

  unfoldable pub write_loop : ℕ → State → ℕ → Memory → ℕ → ℕ → State × ℕ × ℕ
  write_loop zero s size buff size_write curr_sector = (s, size_write, curr_sector)
  write_loop (suc fuel) s size buff size_write curr_sector =
      let s' = write_sector s (curr_sector % 2 ^ 32) (λ b. buff (size_write + b)) in
      let rest =
        write_loop fuel s' size buff ((size_write + sector_size) % 2 ^ 32) (curr_sector + 1) in
      if goes_on size size_write then rest else (s, size_write, curr_sector)

  unfoldable pub write_start : State → Memory → ℕ → ℕ → State × ℕ × ℕ
  unfolding copy first_size
  write_start s buff offset size =
      let curr_sector = offset / sector_size in
      let offset_in_sector = offset % sector_size in
      let n = first_size offset_in_sector size in
      (
        write_sector s curr_sector (copy (read_sector s curr_sector) offset_in_sector buff 0 n),
        n,
        curr_sector + 1,
      )

  unfoldable pub write_end : ℕ → Memory → State × ℕ × ℕ → State
  unfolding copy
  write_end size buff (s, size_write, curr_sector) =
      let sector = curr_sector % 2 ^ 32 in
      if ltb size_write size
      then write_sector s sector (copy (read_sector s sector) 0 buff size_write (size - size_write))
      else s

  unfoldable pub write_data : State → Memory → ℕ → ℕ → ℕ × State
  unfolding write_loop write_start write_end
  write_data s buff offset size =
      let (s1, size_write, curr_sector) = write_start s buff offset size in
      (
        size % 256,
        write_end size buff (write_loop (size / sector_size) s1 size buff size_write curr_sector),
      )
