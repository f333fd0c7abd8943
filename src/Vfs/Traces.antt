-- ===== src/Vfs/Traces.antt =====
-- Sequences of calls on the table of open files: what a read after seeks reads, and how many opens
-- can succeed while nothing closes a file.
use native.Mathlib.Decide.{ℕ_discrete}
use littlevisor.Base.{
  ℕ, ◌+◌, ◌%◌, ◌^◌, ◌≤◌, ◌<◌, ◌≡◌, refl, sym, ap, ◌∙◌, inl, inr, true, false, not, List, [], ◌∷◌,
  length, get_or, set, length-set, get_or-set_self, get_or-set_ne, leb, ◌==◌, if◌then◌else◌, arith,
  Bool-cases,
}
use littlevisor.Counting.{count, count-le, count-lose, count-same}
use littlevisor.Common.{Memory}
use littlevisor.Vfs.{
  FileSystem, Descriptor, empty, vopen_file, vwrite_file, vseekp, vseekr, open_file_error,
}
use littlevisor.Vfs.Table.{is_open, opened, Opened, fresh, failed, vopen_file-Opened}

-- On a table of 100 entries and for a descriptor below 100, a seek to a position and a seek forward
-- from there add up, modulo `2 ^ 32`; the rest of the entry and the other entries stay.
pub vseekr-vseekp :
    (table : List Descriptor) (fd p k n : ℕ)
    → length table ≡ 100
    → fd < 100
    → get_or (vseekr (vseekp table fd p).1 fd k).1 n empty ≡ (
        if n == fd
        then record (get_or table fd empty) { position = (p + k) % 2 ^ 32 }
        else get_or table n empty)
unfolding vseekp vseekr
vseekr-vseekp table fd p k n size h =
    let below : leb 100 fd ≡ false = ground arith in
    let first = record (get_or table fd empty) { position = p } in
    let once = set table fd first in
    let there : get_or once fd empty ≡ first =
      get_or-set_self table fd first empty (omega (arith, size)) in
    let second : Descriptor = record (get_or once fd empty) {
      position = ((get_or once fd empty).position + k) % 2 ^ 32;
    } in
    rw below (elim (ℕ_discrete n fd) [
      | yes e ↦ rw e (
          get_or-set_self once fd second empty (omega (arith, size, length-set table fd first))
          ∙ ground (arith, there))
      | no ne ↦
          get_or-set_ne once fd n second empty (λ e. ne (sym e))
          ∙ get_or-set_ne table fd n first empty (λ e. ne (sym e))
          ∙ ground arith
    ])

-- The calls of fs_syscalls.cpp. `close_file_syscall` does nothing.
pub data Call : Type 0 where
  open_file : Memory → Call
  read : ℕ → ℕ → Call
  write : ℕ → Memory → ℕ → Call
  seek : ℕ → ℕ → Call
  skip : ℕ → ℕ → Call
  close : ℕ → Call

-- Moving the position of an entry opens and closes nothing.
position-open :
    (table : List Descriptor) (fd p : ℕ)
    → length table ≡ 100
    → let table' = set table fd (record (get_or table fd empty) { position = p }) in
      (count (is_open table') 100 ≡ count (is_open table) 100) × (length table' ≡ 100)
position-open table fd p size =
    let moved = record (get_or table fd empty) { position = p } in
    let table' = set table fd moved in
    (
      count-same (is_open table') (is_open table) 100 (λ n h. elim (ℕ_discrete fd n) [
        | yes e ↦
            ap (λ (d : Descriptor). not (d.occupied == 0))
              (ap (λ k. get_or (set table fd moved) k empty) (sym e)
                ∙ get_or-set_self table fd moved empty (omega (arith, size)))
            ∙ ap (is_open table) e
        | no ne ↦
            ap (λ (d : Descriptor). not (d.occupied == 0)) (get_or-set_ne table fd n moved empty ne)
      ]),
      length-set table fd moved ∙ size,
    )

-- Opening an entry that was not open makes one more open.
opened-open :
    (table table' : List Descriptor) (name : Memory) (fd : ℕ)
    → fd < 100
    → is_open table fd ≡ false
    → ((n : ℕ) → get_or table' n empty ≡ (if n == fd then opened name else get_or table n empty))
    → count (is_open table') 100 ≡ count (is_open table) 100 + 1
opened-open table table' name fd h was entries =
    count-lose (is_open table') (is_open table) fd 100 h (now fd ∙ ground arith) λ n.
      elim (ℕ_discrete n fd) [
        | yes e ↦ ap (is_open table) e ∙ was ∙ ground arith
        | no ne ↦ ground (arith, now n)
      ]
  where
    now : (n : ℕ) → is_open table' n ≡ (if n == fd then true else is_open table n)
    now n = elim (Bool-cases (n == fd)) [
      | inl e ↦ rw (entries n, e) refl
      | inr ne ↦ rw (entries n, ne) refl
    ]

module _ (fs : FileSystem) where
  open fs use {Disk, read_file}

  -- One call: the disk, the table, and 1 if it opened a file.
  unfoldable pub call : Call → Disk → List Descriptor → Disk × List Descriptor × ℕ
  call (open_file name) disk table =
      let (fd, table') = vopen_file fs disk table name in
      (disk, table', if fd == open_file_error then 0 else 1)
  call (read fd size) disk table = (disk, table, 0)
  call (write fd buff size) disk table = ((vwrite_file fs disk table fd buff size).1, table, 0)
  call (seek fd p) disk table = (disk, (vseekp table fd p).1, 0)
  call (skip fd k) disk table = (disk, (vseekr table fd k).1, 0)
  call (close fd) disk table = (disk, table, 0)

  -- How many opens of a sequence succeed.
  unfoldable pub opens : List Call → Disk → List Descriptor → ℕ
  opens [] disk table = 0
  opens (c ∷ cs) disk table =
      let (disk', table', one) = call c disk table in one + opens cs disk' table'

  abbrev open_count : List Descriptor → ℕ
  open_count table = count (is_open table) 100

  -- Each call adds the files that it opens to the open ones, and keeps the table's size.
  call_count :
      (c : Call) (disk : Disk) (table : List Descriptor)
      → length table ≡ 100
      → let (disk', table', one) = call c disk table in
        (open_count table' ≡ open_count table + one) × (length table' ≡ 100)
  unfolding call vseekp vseekr
  call_count (open_file name) disk table size =
      step (vopen_file fs disk table name) (vopen_file-Opened fs disk table name size)
    where
      step :
          (r : ℕ × List Descriptor)
          → Opened fs disk table name r
          → (open_count r.1 ≡ open_count table + (if r.0 == open_file_error then 0 else 1))
            × (length r.1 ≡ 100)
      step r (fresh {fd} {table'} h exists was entries len) =
          let ok : (fd == open_file_error) ≡ false = ground arith in
          (rw ok (opened-open table table' name fd h was entries), len ∙ size)
      step r (failed why) = (omega arith, size)
  call_count (read fd n) disk table size = (omega arith, size)
  call_count (write fd buff n) disk table size = (omega arith, size)
  call_count (seek fd p) disk table size = elim (Bool-cases (leb 100 fd)) [
    | inl outside ↦ rw outside (omega arith, size)
    | inr inside ↦ let (a, b) = position-open table fd p size in rw inside (omega (arith, a), b)
  ]
  call_count (skip fd k) disk table size = elim (Bool-cases (leb 100 fd)) [
    | inl outside ↦ rw outside (omega arith, size)
    | inr inside ↦
        let (a, b) =
          position-open table fd (((get_or table fd empty).position + k) % 2 ^ 32) size in
        rw inside (omega (arith, a), b)
  ]
  call_count (close fd) disk table size = (omega arith, size)

  opens_count :
      (cs : List Call) (disk : Disk) (table : List Descriptor)
      → length table ≡ 100
      → open_count table + opens cs disk table ≤ 100
  unfolding opens
  opens_count [] disk table size = omega (arith, count-le (is_open table) 100)
  opens_count (c ∷ cs) disk table size =
      let (e, size') = call_count c disk table size in
      omega (arith, e, opens_count cs (call c disk table).0 (call c disk table).1 size')

  -- On a table of 100 entries at most 100 opens succeed, whatever calls are made: no call gives an
  -- entry back.
  pub opens-le :
      (cs : List Call) (disk : Disk) (table : List Descriptor)
      → length table ≡ 100
      → opens cs disk table ≤ 100
  opens-le cs disk table size = omega (arith, opens_count cs disk table size)
