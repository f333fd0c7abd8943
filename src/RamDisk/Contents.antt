-- ===== src/RamDisk/Contents.antt =====
-- What the disk of src/drivers/ram_disk.cpp keeps.
use littlevisor.Base.{
  ℕ, ◌+◌, ◌-◌, ◌*◌, ◌%◌, ◌^◌, ◌<◌, ◌≡◌, refl, ◌∙◌, inl, inr, true, false, ◌&&◌, ltb, leb,
  if◌then◌else◌, arith,
}
use littlevisor.Common.{Memory}
use littlevisor.Common.Copies.{Apart, kmemcpy-byte}
use littlevisor.RamDisk.{RamDisk, read_data, write_data, read_sector, write_sector}

-- The bytes of the disk from an offset on, and a buffer elsewhere.
pub record Fits (d : RamDisk) (offset buff size : ℕ) : Type 0 where
  pub within : offset < d.disk_size
  pub addressable : d.disk_addr + offset < 2 ^ 64
  pub apart : Apart (d.disk_addr + offset) buff size

-- The same, seen from the other area.
swap : (a b n : ℕ) → Apart a b n → Apart b a n
swap a b n (inl h) = inr h
swap a b n (inr h) = inl h

module _ (d : RamDisk) (m : Memory) (offset buff size : ℕ) (fits : Fits d offset buff size) where
  open fits use {within, addressable, apart}

  read-byte :
      (b : ℕ)
      → (read_data d m buff offset size).1 b
        ≡ (if leb buff b && ltb b (buff + size) then m (d.disk_addr + offset + (b - buff)) else m b)
  unfolding read_data
  read-byte b =
      let inside : leb d.disk_size offset ≡ false = ground (arith, within) in
      let start : (d.disk_addr + offset) % 2 ^ 64 ≡ d.disk_addr + offset =
        omega (arith, addressable) in
      rw (inside, start)
        (kmemcpy-byte m buff (d.disk_addr + offset) size b
          (swap (d.disk_addr + offset) buff size apart))

  write-byte :
      (b : ℕ)
      → (write_data d m buff offset size).1 b ≡ (
          if leb (d.disk_addr + offset) b && ltb b (d.disk_addr + offset + size)
          then m (buff + (b - (d.disk_addr + offset)))
          else m b)
  unfolding write_data
  write-byte b =
      let inside : leb d.disk_size offset ≡ false = ground (arith, within) in
      let start : (d.disk_addr + offset) % 2 ^ 64 ≡ d.disk_addr + offset =
        omega (arith, addressable) in
      rw (inside, start) (kmemcpy-byte m (d.disk_addr + offset) buff size b apart)

-- A read from the place of a write gives back in its buffer the bytes that were written, if the offset
-- is on the disk and no buffer overlaps that place.
pub read_data-write_data :
    (d : RamDisk) (m : Memory) (offset buff buff' size k : ℕ)
    → Fits d offset buff size
    → Fits d offset buff' size
    → k < size
    → (read_data d (write_data d m buff offset size).1 buff' offset size).1 (buff' + k)
      ≡ m (buff + k)
read_data-write_data d m offset buff buff' size k fits fits' h =
    read-byte d (write_data d m buff offset size).1 offset buff' size fits' (buff' + k)
    ∙ rw (inside, back)
        (write-byte d m offset buff size fits (d.disk_addr + offset + k) ∙ rw (on_disk, over) refl)
  where
    inside : (leb buff' (buff' + k) && ltb (buff' + k) (buff' + size)) ≡ true
    inside = ground arith

    back : buff' + k - buff' ≡ k
    back = omega arith

    over : d.disk_addr + offset + k - (d.disk_addr + offset) ≡ k
    over = omega arith

    on_disk :
        (leb (d.disk_addr + offset) (d.disk_addr + offset + k)
          && ltb (d.disk_addr + offset + k) (d.disk_addr + offset + size))
        ≡ true
    on_disk = ground arith

-- A sector is the data at its offset, for sector numbers whose offset does not wrap.
pub read_sector-read_data :
    (d : RamDisk) (m : Memory) (sector buff : ℕ)
    → sector * d.sector_size < 2 ^ 64
    → (read_sector d m sector buff ≡ read_data d m buff (sector * d.sector_size) d.sector_size)
      × (write_sector d m sector buff ≡ write_data d m buff (sector * d.sector_size) d.sector_size)
unfolding read_sector read_data write_sector write_data
read_sector-read_data d m sector buff h =
    let e : sector * d.sector_size % 2 ^ 64 ≡ sector * d.sector_size = omega arith in
    rw e (refl, refl)
