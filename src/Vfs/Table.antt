-- ===== src/Vfs/Table.antt =====
-- How the table of open files changes: opening, seeking, and what a read then sees.
use native.Mathlib.Decide.{ℕ_discrete}
use littlevisor.Base.{
  ℕ, zero, suc, ◌+◌, ◌≤◌, ◌<◌, ◌≡◌, refl, sym, ap, ◌∙◌, ◌⊎◌, inl, inr, Bool, true, false, not, List,
  length, get_or, set, length-set, get_or-set_self, get_or-set_ne, ◌==◌, if◌then◌else◌, arith,
  Bool-cases, ==_iff,
}
use littlevisor.Common.{Memory}
use littlevisor.Vfs.{
  FileSystem, Descriptor, empty, name_bytes, find_from, find_free_inode, vopen_file,
  open_file_error,
}

abbrev pub is_open : List Descriptor → ℕ → Bool
is_open table i = not ((get_or table i empty).occupied == 0)

-- What the search for an entry answers: an entry that was not open and is now, or that all are.
abbrev Free : List Descriptor → ℕ → ℕ × List Descriptor → Type 0
Free table from (i, table') =
    ((i < 100)
      × (is_open table i ≡ false)
      × (table' ≡ set table i (record (get_or table i empty) { occupied = 1 })))
    ⊎ ((i ≡ open_file_error)
        × (table' ≡ table)
        × ((n : ℕ) → from ≤ n → n < 100 → is_open table n ≡ true))

find_from-Free :
    (left i : ℕ) (table : List Descriptor) → i + left ≡ 100 → Free table i (find_from left i table)
unfolding find_from
find_from-Free zero i table e = inr (refl, refl, λ n lo hi. absurd (omega arith))
find_from-Free (suc left) i table e = elim (Bool-cases ((get_or table i empty).occupied == 0)) [
  | inl free ↦ rw free (inl (omega arith, rw free refl, refl))
  | inr taken ↦ rw taken (elim (find_from-Free left (i + 1) table (omega arith)) [
    | inl found ↦ inl found
    | inr (a, b, c) ↦ inr (
      a,
      b,
      λ n lo hi. elim (Bool-cases (n == i)) [
        | inl here ↦
            ap (λ k. not ((get_or table k empty).occupied == 0)) ((==_iff n i).0 here)
            ∙ rw taken refl
        | inr there ↦ c n (ground arith) hi
      ],
    )
  ])
]

-- An entry after an open of it.
abbrev pub opened : Memory → Descriptor
opened name = record { filename = name_bytes 12 0 name; position = 0; occupied = 1 }

module _ (fs : FileSystem) where
  open fs use {Disk, check_file_exists}

  -- A table whose entries are all open.
  abbrev pub AllOpen : List Descriptor → Type 0
  AllOpen table = (n : ℕ) → n < 100 → is_open table n ≡ true

  -- What `vopenFile` answers. A descriptor: its entry was not open, and holds the name and position
  -- 0 now, and no other entry changes. The error: nothing changes, and the file does not exist or
  -- every entry is open.
  pub data Opened (disk : Disk) (table : List Descriptor) (name : Memory)
      : ℕ × List Descriptor → Type 0 where
    fresh :
        {fd : ℕ} {table' : List Descriptor}
        → fd < 100
        → check_file_exists disk name ≡ true
        → is_open table fd ≡ false
        → ((n : ℕ)
            → get_or table' n empty ≡ (if n == fd then opened name else get_or table n empty))
        → length table' ≡ length table
        → Opened disk table name (fd, table')
    failed :
        (check_file_exists disk name ≡ false) ⊎ AllOpen table
        → Opened disk table name (open_file_error, table)

  module _ (disk : Disk) (table : List Descriptor) (name : Memory) (size : length table ≡ 100) where
    marked : List Descriptor → ℕ → List Descriptor
    marked t i =
        set t i (record (get_or t i empty) {
          filename = name_bytes 12 0 name;
          occupied = 1;
          position = 0;
        })

    marked-entry :
        (i n : ℕ)
        → i < 100
        → get_or (marked (set table i (record (get_or table i empty) { occupied = 1 })) i) n empty
          ≡ (if n == i then opened name else get_or table n empty)
    unfolding marked
    marked-entry i n h =
        let first = record (get_or table i empty) { occupied = 1 } in
        let once = set table i first in
        let again : Descriptor = record (get_or once i empty) {
          filename = name_bytes 12 0 name;
          occupied = 1;
          position = 0;
        } in
        let inside : i < length once = omega (arith, length-set table i first, size) in
        elim (ℕ_discrete n i) [
          | yes e ↦ rw e (get_or-set_self once i again empty inside ∙ ground arith)
          | no ne ↦
              get_or-set_ne once i n again empty (λ e. ne (sym e))
              ∙ get_or-set_ne table i n first empty (λ e. ne (sym e))
              ∙ ground arith
        ]

    length-marked :
        (i : ℕ)
        → length (marked (set table i (record (get_or table i empty) { occupied = 1 })) i)
          ≡ length table
    unfolding marked
    length-marked i =
        let once = set table i (record (get_or table i empty) { occupied = 1 }) in
        length-set once i (record (get_or once i empty) {
          filename = name_bytes 12 0 name;
          occupied = 1;
          position = 0;
        })
        ∙ length-set table i (record (get_or table i empty) { occupied = 1 })

    open_with :
        (exists : Bool) (r : ℕ × List Descriptor)
        → check_file_exists disk name ≡ exists
        → Free table 0 r
        → Opened disk table name (
            if not exists
            then (open_file_error, table)
            else if r.0 == open_file_error
            then r
            else (r.0, marked r.1 r.0))
    open_with false r e f = failed (inl e)
    open_with true (i, t) e (inl (h, was, eq)) =
        let ne : (i == open_file_error) ≡ false = ground arith in
        rw (ne, eq) (fresh h e was (λ n. marked-entry i n h) (length-marked i))
    open_with true (i, t) e (inr (h, eq, all)) =
        rw (h, eq) (failed (inr (λ n p. all n (omega arith) p)))

    -- On a table of 100 entries `vopenFile` opens an entry that was not open, with the name and position
    -- 0, and changes no other, or it answers the error, changes nothing, and the file is missing or all
    -- entries are open.
    pub vopen_file-Opened : Opened disk table name (vopen_file fs disk table name)
    unfolding vopen_file find_free_inode marked
    vopen_file-Opened =
        open_with (check_file_exists disk name) (find_free_inode table) refl
          (find_from-Free 100 0 table refl)
