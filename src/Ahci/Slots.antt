-- ===== src/Ahci/Slots.antt =====
-- The commands of src/drivers/ahci.cpp for one sector: what they ask of the controller.
use littlevisor.Base.{
  ℕ, zero, suc, ◌+◌, ◌-◌, ◌*◌, ◌%◌, ◌^◌, ◌≤◌, ◌<◌, ◌≡◌, refl, ap, ◌∙◌, inl, inr, Bool, true, false,
  ◌&&◌, Option, none, some, [], ◌∷◌, length, ◌==◌, if◌then◌else◌, arith, Bool-cases,
}
use native.Mathlib.Decide.{ℕ_discrete}
use littlevisor.Bits.{bit}
use littlevisor.Bits.Digits.{bit-pow}
use littlevisor.Bits.Fields.{bit-mod}
use littlevisor.Common.{getbit}
use littlevisor.Ahci.Command.{
  Port, Prdt, Command, find_slot, find_avail_port, to_lower_half, last_prdt, fill_prdt, make_header,
  make_fis, commit_transaction,
}

-- A slot without a command, by both registers.
unfoldable pub is_free : Port → ℕ → Bool
is_free port n = getbit port.pxsact n == 0 && getbit port.pxci n == 0

-- The first free slot at or above `from`, below `to`.
pub data FirstFree (port : Port) (from to : ℕ) : Option ℕ → Type 0 where
  first :
      (n : ℕ)
      → from ≤ n
      → n < to
      → is_free port n ≡ true
      → ((m : ℕ) → from ≤ m → m < n → is_free port m ≡ false)
      → FirstFree port from to (some n)
  all_used : ((m : ℕ) → from ≤ m → m < to → is_free port m ≡ false) → FirstFree port from to none

find_slot-FirstFree :
    (port : Port) (left from to : ℕ)
    → from + left ≡ to
    → FirstFree port from to (find_slot left from port.pxsact port.pxci)
unfolding find_slot is_free
find_slot-FirstFree port zero from to e = all_used (λ m lo hi. absurd (omega (arith, lo, hi, e)))
find_slot-FirstFree port (suc left) from to e = elim (Bool-cases (is_free port from)) [
  | inl free ↦
      rw free (
        first from (omega arith) (omega (arith, e)) free
          (λ m lo hi. absurd (omega (arith, lo, hi))))
  | inr used ↦
      rw used
        (extend port from to used (find_slot-FirstFree port left (from + 1) to (omega (arith, e))))
]
  where
    extend :
        (port : Port) (from to : ℕ) {r : Option ℕ}
        → is_free port from ≡ false
        → FirstFree port (from + 1) to r
        → FirstFree port from to r
    extend port from to used (first n lo hi free below) =
        first n (omega (arith, lo)) hi free (λ m lo' hi'. elim (ℕ_discrete m from) [
          | yes e ↦ ap (is_free port) e ∙ used
          | no ne ↦ below m (omega (arith, ne, lo')) hi'
        ])
    extend port from to used (all_used every) = all_used (λ m lo hi. elim (ℕ_discrete m from) [
      | yes e ↦ ap (is_free port) e ∙ used
      | no ne ↦ every m (omega (arith, ne, lo)) hi
    ])

-- What the controller is told by a command for one sector: the slot is the lowest one that no
-- command holds, with its bit alone in PxCI; the table has one entry, for the 512 bytes at the
-- physical address of the buffer; and the registers spell one sector and the start sector.
pub record OneSector (port : Port) (buff start : ℕ) (write : Bool) (c : Command) : Type 0 where
  pub slot : FirstFree port 0 32 (some c.cmd_slot)
  pub issued : (k : ℕ) → k < 32 → bit c.pxci k ≡ (if c.cmd_slot == k then 1 else 0)
  pub entry : Prdt
  pub single : c.prdt_list ≡ entry ∷ []
  pub counted : c.header.prdtl ≡ length c.prdt_list
  pub buffer : entry.dba + 2 ^ 32 * entry.dbau + 0xffff800000000000 ≡ buff
  pub bytes : entry.dbc + 1 ≡ 512
  pub direction : c.header.write ≡ (if write then 1 else 0)
  pub opcode : c.fis.command ≡ (if write then 0x35 else 0x25)
  pub count : c.fis.countl + 2 ^ 8 * c.fis.counth ≡ 1
  pub lba :
      c.fis.lba0
        + 2 ^ 8 * c.fis.lba1
        + 2 ^ 16 * c.fis.lba2
        + 2 ^ 24 * c.fis.lba3
        + 2 ^ 32 * c.fis.lba4
        + 2 ^ 40 * c.fis.lba5
      ≡ start

-- What `commit_transaction` does for one sector.
pub data Committed (port : Port) (buff start : ℕ) (write : Bool) : Option Command → Type 0 where
  sent :
      (c : Command) → OneSector port buff start write c → Committed port buff start write (some c)
  refused : FirstFree port 0 32 none → Committed port buff start write none

-- For a buffer in the higher half and a start sector below `2 ^ 48`, a transfer of one sector sends a
-- command that asks for this sector and this buffer, in the lowest slot that is free in both
-- registers; it does nothing only if no slot is free.
pub commit_transaction-Committed :
    (port : Port) (buff start : ℕ) (write : Bool)
    → 0xffff800000000000 ≤ buff
    → buff < 2 ^ 64
    → start < 2 ^ 48
    → Committed port buff start write (commit_transaction port buff start 1 write)
unfolding commit_transaction make_header make_fis fill_prdt last_prdt to_lower_half find_avail_port
commit_transaction-Committed port buff start write high top small =
    let nonzero : (buff == 0) ≡ false = ground (arith, high) in
    rw nonzero (go (find_avail_port port) (find_slot-FirstFree port 32 0 32 refl))
  where
    go :
        (r : Option ℕ)
        → FirstFree port 0 32 r
        → Committed port buff start write (elim r [
          | none ↦ none
          | some cmd_slot ↦ some record {
            cmd_slot = cmd_slot;
            pxci = 2 ^ cmd_slot % 2 ^ 32;
            header = make_header 1 write;
            prdt_list = last_prdt buff 1 ∷ [];
            fis = make_fis start 1 write;
          }
        ])
    go none every = refused every
    go (some n) found = sent _ record {
      slot = found;
      issued = λ k hk. bit-mod 32 (2 ^ n) k hk ∙ bit-pow n k;
      entry = last_prdt buff 1;
      single = refl;
      counted = refl;
      buffer =
          let low : to_lower_half buff ≡ buff - 0xffff800000000000 = omega (arith, high, top) in
          omega (arith, low, high, top);
      bytes = omega arith;
      direction = refl;
      opcode = refl;
      count = omega arith;
      lba = omega (arith, small);
    }
