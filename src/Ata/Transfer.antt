-- ===== src/Ata/Transfer.antt =====
-- A guest that reads a transfer through the data port, access by access.
use native.Mathlib.Nat.{suc-mul, add_comm}
use littlevisor.Base.{
  some, ℕ, zero, suc, ◌+◌, ◌*◌, ◌%◌, ◌^◌, ◌≤◌, ◌<◌, ◌≡◌, refl, ap, ◌∙◌, ◌⊎◌, inl, inr, Bool, true,
  false, not, List, [], ◌∷◌, ◌++◌, ◌==◌, if◌then◌else◌, arith, Bool-cases,
}
use littlevisor.Bits.{bit}
use littlevisor.Common.{Memory}
use littlevisor.Common.Bitops.{bit-clearbit}
use littlevisor.Ata.{
  StorageDevice, AtaDevice, TransferType, Transaction, set_status, width, bytes_at,
  handle_read_data,
}
use littlevisor.Ata.Commands.{respond, dispatch_command}

-- The transfers that the guest reads.
abbrev pub is_reading : TransferType → Bool
is_reading kind = elim kind [ TransferType.write_sectors ↦ false | _ ↦ true ]

-- The bytes that a row of equal reads answers, and the device after it.
unfoldable pub read_all : ℕ → AtaDevice → Transaction → List ℕ × AtaDevice
read_all zero d t = ([], d)
read_all (suc k) d t =
    let (answer, zero_rax, d') = handle_read_data d t in
    let (rest, last) = read_all k d' t in (answer ++ rest, last)

bytes_at-append :
    (n k : ℕ) (m : Memory) (i : ℕ) → bytes_at n m i ++ bytes_at k m (i + n) ≡ bytes_at (n + k) m i
unfolding bytes_at
bytes_at-append zero k m i =
    ap (λ j. bytes_at k m j) {x = i + 0} {y = i} (omega arith)
    ∙ ap (λ j. bytes_at j m i) {x = k} {y = 0 + k} (omega arith)
bytes_at-append (suc n) k m i =
    ap (λ j. m i ∷ (bytes_at n m (i + 1) ++ bytes_at k m j)) (omega arith)
    ∙ ap (λ l. m i ∷ l) (bytes_at-append n k m (i + 1))
    ∙ ap (λ j. bytes_at j m i) {x = suc (n + k)} {y = suc n + k} (omega arith)

-- One read inside a transfer.
record Step (d d' : AtaDevice) (w : ℕ) : Type 0 where
  kind : d'.transfer_type ≡ d.transfer_type
  buffer : d'.transfer_buff ≡ d.transfer_buff
  size : d'.size_remaining ≡ d.size_remaining
  offset : d'.buff_offset ≡ d.buff_offset + w
  active : d'.device_in_transfer ≡ not (d.buff_offset + w == d.size_remaining)
  request :
      bit d'.registers.status_reg 3
      ≡ (if d.buff_offset + w == d.size_remaining then 0 else bit d.registers.status_reg 3)

module _ (t : Transaction) where
  read-Step :
      (d : AtaDevice)
      → d.device_in_transfer ≡ true
      → is_reading d.transfer_type ≡ true
      → d.buff_offset + width t ≤ d.size_remaining
      → d.size_remaining < 2 ^ 32
      → ((handle_read_data d t).0 ≡ bytes_at (width t) d.transfer_buff d.buff_offset)
        × Step d (handle_read_data d t).2 (width t)
  unfolding handle_read_data set_status
  read-Step d on kind room small =
      let fits : (d.buff_offset + width t) % 2 ^ 32 ≡ d.buff_offset + width t = omega arith in
      elim (Bool-cases (d.buff_offset + width t == d.size_remaining)) [
        | inl e ↦
            rw (on, kind, fits, e)
              (
                refl,
                record {
                  kind = refl;
                  buffer = refl;
                  size = refl;
                  offset = refl;
                  active = rw e refl;
                  request =
                      rw e (bit-clearbit 8 d.registers.status_reg 3 3 (omega arith) (omega arith));
                },
              )
        | inr e ↦
            rw (on, kind, fits, e)
              (
                refl,
                record {
                  kind = refl;
                  buffer = refl;
                  size = refl;
                  offset = refl;
                  active = rw e refl;
                  request = rw e refl;
                },
              )
      ]

  -- What `k` reads of a device answer, and the device after them, if `request` is the data request
  -- before the end.
  pub record Delivered (k : ℕ) (d : AtaDevice) (request : ℕ) : Type 0 where
    pub answer : (read_all k d t).0 ≡ bytes_at (k * width t) d.transfer_buff d.buff_offset
    pub offset : (read_all k d t).1.buff_offset ≡ d.buff_offset + k * width t
    pub active :
        (read_all k d t).1.device_in_transfer
        ≡ not (d.buff_offset + k * width t == d.size_remaining)
    pub requested :
        bit (read_all k d t).1.registers.status_reg 3
        ≡ (if d.buff_offset + k * width t == d.size_remaining then 0 else request)

  deliver :
      (k : ℕ) (d : AtaDevice) (request : ℕ)
      → d.device_in_transfer ≡ not (d.buff_offset == d.size_remaining)
      → bit d.registers.status_reg 3 ≡ (if d.buff_offset == d.size_remaining then 0 else request)
      → is_reading d.transfer_type ≡ true
      → 0 < width t
      → d.buff_offset + k * width t ≤ d.size_remaining
      → d.size_remaining < 2 ^ 32
      → Delivered k d request
  unfolding read_all bytes_at
  deliver zero d request on asks kind wide room small =
      let none_read : 0 * width t ≡ 0 = omega arith in
      let here : d.buff_offset + 0 ≡ d.buff_offset = omega arith in
      record {
        answer = rw none_read refl;
        offset = omega arith;
        active = rw (none_read, here) on;
        requested = rw (none_read, here) asks;
      }
  deliver (suc k) d request on asks kind wide room small =
      let d' = (handle_read_data d t).2 in
      let more : suc k * width t ≡ width t + k * width t =
        suc-mul k (width t) ∙ add_comm (k * width t) (width t) in
      let inside : (d.buff_offset == d.size_remaining) ≡ false = ground (arith, more) in
      let (first, s) = read-Step d (on ∙ rw inside refl) kind (omega (arith, more)) small in
      let moved : d'.buff_offset + k * width t ≡ d.buff_offset + suc k * width t =
        omega (arith, s.offset, more) in
      let r =
        deliver k d' request (s.active ∙ rw (s.offset, s.size) refl)
          (s.request ∙ rw (s.offset, s.size) (ground (arith, asks, inside)))
          (ap is_reading s.kind ∙ kind) wide (omega (arith, moved, s.size))
          (omega (arith, s.size)) in
      record {
        answer =
            ap (λ l. l ++ (read_all k d' t).0) first
            ∙ ap (λ l. bytes_at (width t) d.transfer_buff d.buff_offset ++ l)
                (r.answer ∙ rw (s.buffer, s.offset) refl)
            ∙ bytes_at-append (width t) (k * width t) d.transfer_buff d.buff_offset
            ∙ rw more refl;
        offset = r.offset ∙ moved;
        active = r.active ∙ rw (moved, s.size) refl;
        requested = r.requested ∙ rw (moved, s.size) refl;
      }

  -- If the heap gives every response, `k` reads of one size that is not 0, inside an active transfer to the guest whose size is below
  -- `2 ^ 32` and which has room for them, answer the bytes of the buffer in order from the offset on,
  -- without a gap or a repetition. The transfer ends and the data request is cleared if
  -- they reach the end of the buffer; otherwise both stay as they were.
  pub read_all-Delivered :
      (k : ℕ) (d : AtaDevice)
      → d.device_in_transfer ≡ true
      → is_reading d.transfer_type ≡ true
      → 0 < width t
      → d.buff_offset < d.size_remaining
      → d.buff_offset + k * width t ≤ d.size_remaining
      → d.size_remaining < 2 ^ 32
      → Delivered k d (bit d.registers.status_reg 3)
  read_all-Delivered k d on kind wide inside room small =
      let early : (d.buff_offset == d.size_remaining) ≡ false = ground arith in
      deliver k d (bit d.registers.status_reg 3) (on ∙ rw early refl) (rw early refl) kind wide room
        small

-- A read of the data port.
pub record DataRead (t : Transaction) : Type 0 where
  pub data_port : t.port ≡ 0x1F0 ⊎ t.port ≡ 0x170
  pub reads : t.is_read ≡ true

-- A read of the data port is `handle_read_data`, if the heap gives the response.
pub dispatch-DataRead :
    (dev : StorageDevice) {t : Transaction} (d : AtaDevice) (disk : dev.Disk) (buff : Memory)
    → DataRead t
    → let r = handle_read_data d t in
      dispatch_command dev d disk (some buff) t ≡ some (r.0, r.1, r.2, disk)
unfolding dispatch_command respond
dispatch-DataRead dev {t} d disk buff read = elim read.data_port [
  | inl e ↦ rw (e, read.reads) (given _ _ _)
  | inr e ↦ rw (e, read.reads) (given _ _ _)
]
  where
    given :
        (bytes : List ℕ) (zero_rax : Bool) (d' : AtaDevice)
        → respond (some buff) bytes zero_rax d' disk ≡ some (bytes, zero_rax, d', disk)
    given [] zero_rax d' = refl
    given (byte ∷ bytes) zero_rax d' = refl
