-- ===== src/Ahci/Writes.antt =====
-- `write_data` of src/drivers/ahci.cpp against the bytes of the disk.
use littlevisor.Base.{
  ℕ, zero, suc, ◌+◌, ◌-◌, ◌*◌, ◌/◌, ◌%◌, ◌^◌, ◌≤◌, ◌<◌, ◌≡◌, sym, ap, ◌∙◌, inl, inr, true, ◌&&◌,
  ltb, leb, ◌==◌, if◌then◌else◌, arith, Bool-cases, ltb→lt, ==_iff,
}
use littlevisor.Common.{Memory}
use littlevisor.Ahci.{
  Sectors, copy, first_size, goes_on, write_loop, write_start, write_end, write_data,
}
use littlevisor.Ahci.Reads.{contents}

-- A disk that keeps what is written: a write of a sector changes its 512 bytes, and no other sector.
pub record Keeps (dev : Sectors) : Type 0 where
  pub sector-byte :
      (s : dev.State) (n : ℕ) (buff : Memory) (m k : ℕ)
      → k < 512
      → dev.read_sector (dev.write_sector s n buff) m k
        ≡ (if m == n then buff k else dev.read_sector s m k)

module _ {dev : Sectors} (keeps : Keeps dev) where
  open dev use {State, read_sector, write_sector}

  contents-write_sector :
      (s : State) (n : ℕ) (buff : Memory) (a : ℕ)
      → contents dev (write_sector s n buff) a
        ≡ (if a / 512 == n then buff (a % 512) else contents dev s a)
  contents-write_sector s n buff a = keeps.sector-byte s n buff (a / 512) (a % 512) (omega arith)

  module _ (s : State) (buff : Memory) (offset size : ℕ) (fits : offset + size ≤ 2 ^ 32)
      (small : size < 2 ^ 32) where
    -- How far a write has come: `r.1` bytes are on the disk, and the next ones start a sector.
    record Progress (r : State × ℕ × ℕ) : Type 0 where
      stored :
          (a : ℕ)
          → contents dev r.0 a
            ≡ (if leb offset a && ltb a (offset + r.1) then buff (a - offset) else contents dev s a)
      bound : r.1 ≤ size
      next : r.1 < size → r.2 * 512 ≡ offset + r.1

    start-Progress : Progress (write_start dev s buff offset size)
    unfolding write_start copy first_size
    start-Progress =
        let o = offset % 512 in
        let q = offset / 512 in
        let n = if ltb size (512 - o) then size else 512 - o in
        record {
          stored = λ a.
              contents-write_sector s q
                (λ b. if leb o b && ltb b (o + n) then buff (0 + (b - o)) else read_sector s q b) a
              ∙ elim (Bool-cases (a / 512 == q)) [
                | inl here ↦
                    let same : a / 512 ≡ q = (==_iff (a / 512) q).0 here in
                    rw here (
                      ground (
                        arith,
                        same,
                        ap buff {x = 0 + (a % 512 - o)} {y = a - offset} (omega (arith, same)),
                        ap (λ t. read_sector s t (a % 512)) {x = q} {y = a / 512} (sym same),
                      ))
                | inr away ↦ rw away (ground (arith, away))
              ];
          bound = ground arith;
          next = λ h. ground (arith, h);
        }

    step-Progress :
        (r : State × ℕ × ℕ)
        → Progress r
        → goes_on size r.1 ≡ true
        → Progress
            (write_sector r.0 (r.2 % 2 ^ 32) (λ b. buff (r.1 + b)), (r.1 + 512) % 2 ^ 32, r.2 + 1)
    unfolding goes_on
    step-Progress (s1, done, sector) p on =
        let more : done + 512 < size = ground (arith, on, p.bound, small) in
        let at : sector * 512 ≡ offset + done = p.next (omega (arith, more)) in
        let moved : (done + 512) % 2 ^ 32 ≡ done + 512 = omega (arith, more, small) in
        let n = sector % 2 ^ 32 in
        let exact : n ≡ sector = omega (arith, at, more, fits) in
        record {
          stored = λ a. rw moved (
              contents-write_sector s1 n (λ b. buff (done + b)) a
              ∙ elim (Bool-cases (a / 512 == n)) [
                | inl here ↦
                    let same : a / 512 ≡ n = (==_iff (a / 512) n).0 here in
                    rw here (
                      ground (
                        arith,
                        same,
                        exact,
                        at,
                        ap buff {x = done + a % 512} {y = a - offset}
                            (omega (arith, same, exact, at)),
                      ))
                | inr away ↦ rw away (p.stored a ∙ ground (arith, away, exact, at))
              ]);
          bound = rw moved (omega (arith, more));
          next = λ h. rw moved (omega (arith, at));
        }

    loop-Progress :
        (fuel : ℕ) (r : State × ℕ × ℕ)
        → Progress r
        → size ≤ r.1 + fuel * 512 + 512
        → (Progress (write_loop dev fuel r.0 size buff r.1 r.2))
          × (size ≤ (write_loop dev fuel r.0 size buff r.1 r.2).1 + 512)
    unfolding write_loop goes_on
    loop-Progress zero r p enough = (p, omega (arith, enough))
    loop-Progress (suc fuel) (s1, done, sector) p enough = elim (Bool-cases (goes_on size done)) [
      | inl on ↦ rw on (
          loop-Progress fuel _ (step-Progress (s1, done, sector) p on)
            (ground (arith, on, p.bound, small)))
      | inr off ↦ rw off (p, ground (arith, off, p.bound, small))
    ]

    end_stored :
        (r : State × ℕ × ℕ)
        → Progress r
        → size ≤ r.1 + 512
        → (a : ℕ)
        → contents dev (write_end dev size buff r) a
          ≡ (if leb offset a && ltb a (offset + size) then buff (a - offset) else contents dev s a)
    unfolding write_end copy
    end_stored (s1, done, sector) p short a = elim (Bool-cases (ltb done size)) [
      | inl left ↦
          let at : sector * 512 ≡ offset + done = p.next (ltb→lt _ _ left) in
          let n = sector % 2 ^ 32 in
          let exact : n ≡ sector = ground (arith, at, left, fits) in
          rw left (
            contents-write_sector s1 n
              (λ b.
                if leb 0 b && ltb b (0 + (size - done))
                then buff (done + (b - 0))
                else read_sector s1 n b)
              a
            ∙ elim (Bool-cases (a / 512 == n)) [
              | inl here ↦
                  let same : a / 512 ≡ n = (==_iff (a / 512) n).0 here in
                  rw here (
                    ground (
                      arith,
                      exact,
                      at,
                      left,
                      same,
                      short,
                      p.stored a,
                      ap buff {x = done + (a % 512 - 0)} {y = a - offset}
                          (omega (arith, same, exact, at)),
                      ap (λ t. read_sector s1 t (a % 512)) {x = n} {y = a / 512} (sym same),
                    ))
              | inr away ↦ rw away (p.stored a ∙ ground (arith, away, exact, at, left, short))
            ])
      | inr all ↦ rw all (p.stored a ∙ ground (arith, all, p.bound))
    ]

  -- On a disk that keeps what is written, a write of `size` bytes at byte `offset`, which ends in the
  -- first `2 ^ 32` bytes, puts the bytes of the buffer there and leaves every other byte of the disk
  -- as it was, also in the sectors that it writes in part.
  pub write_data-byte :
      (s : State) (buff : Memory) (offset size a : ℕ)
      → offset + size ≤ 2 ^ 32
      → size < 2 ^ 32
      → contents dev (write_data dev s buff offset size).1 a
        ≡ (if leb offset a && ltb a (offset + size) then buff (a - offset) else contents dev s a)
  unfolding write_data
  write_data-byte s buff offset size a fits small =
      let first = write_start dev s buff offset size in
      let (p, short) =
        loop-Progress s buff offset size fits small (size / 512) first
          (start-Progress s buff offset size fits small) (omega arith) in
      end_stored s buff offset size fits small
        (write_loop dev (size / 512) first.0 size buff first.1 first.2) p short a
