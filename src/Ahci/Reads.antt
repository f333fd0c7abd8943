-- ===== src/Ahci/Reads.antt =====
-- `read_data` of src/drivers/ahci.cpp against the bytes of the disk.
use littlevisor.Base.{
  ℕ, zero, suc, ◌+◌, ◌-◌, ◌*◌, ◌/◌, ◌%◌, ◌^◌, ◌≤◌, ◌<◌, ◌≡◌, refl, ap, ◌∙◌, inl, inr, true, ◌&&◌,
  ltb, leb, if◌then◌else◌, arith, Bool-cases, ltb→lt,
}
use littlevisor.Common.{Memory}
use littlevisor.Ahci.{
  Sectors, copy, first_size, goes_on, read_loop, read_start, read_end, read_data,
}

module _ (dev : Sectors) where
  open dev use {State, read_sector}

  -- The bytes of the disk, over its sectors.
  abbrev pub contents : State → Memory
  contents s a = read_sector s (a / 512) (a % 512)

  module _ (s : State) (buff : Memory) (offset size : ℕ) (fits : offset + size ≤ 2 ^ 32)
      (small : size < 2 ^ 32) where
    -- How far a read has come: `done` bytes are in the buffer, and the next ones start a sector.
    record Progress (r : Memory × ℕ × ℕ) : Type 0 where
      filled : (b : ℕ) → r.0 b ≡ (if ltb b r.1 then contents s (offset + b) else buff b)
      bound : r.1 ≤ size
      next : r.1 < size → r.2 * 512 ≡ offset + r.1

    -- A byte of a sector that starts `done` bytes into the read.
    sector_byte :
        (sector done b : ℕ)
        → sector * 512 ≡ offset + done
        → done ≤ b
        → b < done + 512
        → b < size
        → read_sector s (sector % 2 ^ 32) (0 + (b - done)) ≡ contents s (offset + b)
    sector_byte sector done b at lo hi inside =
        let e1 : sector % 2 ^ 32 ≡ (offset + b) / 512 = omega (arith, at, fits) in
        let e2 : 0 + (b - done) ≡ (offset + b) % 512 = omega (arith, at) in rw (e1, e2) refl

    start-Progress : Progress (read_start dev s buff offset size)
    unfolding read_start copy first_size
    start-Progress = elim (Bool-cases (ltb 0 (offset % 512))) [
      | inl inside ↦ elim (Bool-cases (ltb size (512 - offset % 512))) [
        | inl short ↦
            rw (inside, short)
              record {
                filled = λ b. ground (
                  arith,
                  ap (read_sector s (offset / 512)) {x = offset % 512 + (b - 0)}
                      {y = offset % 512 + b} (omega arith),
                );
                bound = omega arith;
                next = λ h. omega (arith, h);
              }
        | inr long ↦
            rw (inside, long)
              record {
                filled = λ b. elim (Bool-cases (ltb b (512 - offset % 512))) [
                  | inl near ↦ ground (
                    arith,
                    near,
                    ap (read_sector s) {x = offset / 512} {y = (offset + b) / 512}
                        (ground (arith, near)),
                  )
                  | inr far ↦ ground (arith, far)
                ];
                bound = ground (arith, long);
                next = λ h. omega (arith, h);
              }
      ]
      | inr aligned ↦ rw aligned record {
        filled = λ b. ground arith;
        bound = omega arith;
        next = λ _. ground (arith, aligned);
      }
    ]

    step-Progress :
        (r : Memory × ℕ × ℕ)
        → Progress r
        → goes_on size r.1 ≡ true
        → Progress
            (copy r.0 r.1 (read_sector s (r.2 % 2 ^ 32)) 0 512, (r.1 + 512) % 2 ^ 32, r.2 + 1)
    unfolding goes_on copy
    step-Progress (buff1, done, sector) p on =
        let more : done + 512 < size = ground (arith, on, p.bound, small) in
        let at : sector * 512 ≡ offset + done = p.next (omega (arith, more)) in
        let moved : (done + 512) % 2 ^ 32 ≡ done + 512 = omega (arith, more, fits) in
        record {
          filled = λ b. rw moved (elim (Bool-cases (leb done b && ltb b (done + 512))) [
            | inl new ↦ rw new (
                sector_byte sector done b at (ground (arith, new)) (ground (arith, new))
                  (ground (arith, new, more))
                ∙ ground (arith, new))
            | inr old ↦ rw old (p.filled b ∙ ground (arith, old))
          ]);
          bound = rw moved (omega (arith, more));
          next = λ h. rw moved (omega (arith, at));
        }

    loop-Progress :
        (fuel : ℕ) (r : Memory × ℕ × ℕ)
        → Progress r
        → size ≤ r.1 + fuel * 512 + 512
        → (Progress (read_loop dev fuel s size r.0 r.1 r.2))
          × (size ≤ (read_loop dev fuel s size r.0 r.1 r.2).1 + 512)
    unfolding read_loop copy goes_on
    loop-Progress zero r p enough = (p, omega (arith, enough))
    loop-Progress (suc fuel) (buff1, done, sector) p enough =
        elim (Bool-cases (goes_on size done)) [
          | inl on ↦ rw on (
              loop-Progress fuel _ (step-Progress (buff1, done, sector) p on)
                (ground (arith, on, p.bound, small)))
          | inr off ↦ rw off (p, ground (arith, off, p.bound, small))
        ]

    end_filled :
        (r : Memory × ℕ × ℕ)
        → Progress r
        → size ≤ r.1 + 512
        → (b : ℕ)
        → read_end dev s size r b ≡ (if ltb b size then contents s (offset + b) else buff b)
    unfolding read_end copy
    end_filled (buff1, done, sector) p short b = elim (Bool-cases (ltb done size)) [
      | inl left ↦
          let at : sector * 512 ≡ offset + done = p.next (ltb→lt _ _ left) in
          rw left (elim (Bool-cases (leb done b && ltb b (done + (size - done)))) [
            | inl new ↦ rw new (
                sector_byte sector done b at (ground (arith, new)) (ground (arith, new, short))
                  (ground (arith, new))
                ∙ ground (arith, new))
            | inr old ↦ rw old (p.filled b ∙ ground (arith, old, left))
          ])
      | inr done_all ↦ rw done_all (p.filled b ∙ ground (arith, done_all, p.bound))
    ]

  -- A read of `size` bytes from byte `offset` on, which ends in the first `2 ^ 32` bytes of the disk,
  -- fills the buffer with these bytes of the disk, and changes no byte of the buffer behind them.
  pub read_data-byte :
      (s : State) (buff : Memory) (offset size b : ℕ)
      → offset + size ≤ 2 ^ 32
      → size < 2 ^ 32
      → (read_data dev s buff offset size).1 b
        ≡ (if ltb b size then contents s (offset + b) else buff b)
  unfolding read_data
  read_data-byte s buff offset size b fits small =
      let first = read_start dev s buff offset size in
      let (p, short) =
        loop-Progress s buff offset size fits small (size / 512) first
          (start-Progress s buff offset size fits small) (omega arith) in
      end_filled s buff offset size fits small
        (read_loop dev (size / 512) s size first.0 first.1 first.2) p short b
