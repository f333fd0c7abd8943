-- ===== src/Vfs.antt =====
-- src/fs/vfs.cpp, the table of open files, over a file system that it takes as an interface, and
-- src/userspace/fs_syscalls.cpp, which passes its calls on.
pub mod Table
pub mod Traces
pub mod Tests
use littlevisor.Base.{
  ℕ, zero, suc, ◌+◌, ◌-◌, ◌*◌, ◌/◌, ◌%◌, ◌^◌, ◌≤◌, ◌<◌, min, max, bit_and, bit_or, ◌≡◌, refl, sym,
  ap, fun_ext, ◌∙◌, ◌≢◌, ◌⊎◌, inl, inr, Bool, true, false, not, ◌&&◌, ◌||◌, Option, none, some,
  List, [], ◌∷◌, ◌++◌, length, get_or, get_elem?, set, length-set, get_or-set_self, get_or-set_ne,
  map, ltb, leb, ◌==◌, if◌then◌else◌, arith, Bool-cases, Option-cases, ltb→lt, lt→ltb, leb→le,
  ==_iff,
}
use littlevisor.Common.{Memory}

-- What fat32.cpp offers to vfs.cpp. A name is the memory behind its pointer. A read
-- gives its status and what it leaves in the buffer; a write gives its status and the new disk.
pub record FileSystem : Type 1 where
  pub Disk : Type 0
  pub check_file_exists : Disk → Memory → Bool
  pub read_file : Disk → Memory → Memory → ℕ → ℕ → ℕ × Memory
  pub write_file : Disk → Memory → Memory → ℕ → ℕ → ℕ × Disk
  pub get_file_size : Disk → Memory → ℕ

abbrev pub open_file_error : ℕ
open_file_error = 101

abbrev pub max_number_of_inodes : ℕ
max_number_of_inodes = 100

-- `VFILE_DESCRIPTOR`
pub record Descriptor : Type 0 where
  pub filename : List ℕ
  pub position : ℕ
  pub occupied : ℕ

abbrev pub empty : Descriptor
empty = record { filename = []; position = 0; occupied = 0 }

-- The memory behind `fd_entry.filename`: the twelve bytes, and then the other fields.
unfoldable pub name_pointer : Descriptor → Memory
name_pointer d i =
    if ltb i 12
    then get_or d.filename i 0
    else if ltb i 16
    then d.position / 256 ^ (i - 12) % 256
    else if i == 16
    then d.occupied
    else 0

-- `kmemcpy(filename, name, 12)`, from byte `i` on
pub name_bytes : ℕ → ℕ → Memory → List ℕ
name_bytes zero i name = []
name_bytes (suc left) i name = name i ∷ name_bytes left (i + 1) name

-- `findFreeInode`: the index, or the error, and the table with the entry marked.
pub find_from : ℕ → ℕ → List Descriptor → ℕ × List Descriptor
find_from zero i table = (open_file_error, table)
find_from (suc left) i table =
    let d = get_or table i empty in
    let rest = find_from left (i + 1) table in
    if d.occupied == 0 then (i, set table i (record d { occupied = 1 })) else rest

pub find_free_inode : List Descriptor → ℕ × List Descriptor
find_free_inode table = find_from max_number_of_inodes 0 table

module _ (fs : FileSystem) where
  open fs use {Disk, check_file_exists, read_file, write_file, get_file_size}

  unfoldable pub vopen_file : Disk → List Descriptor → Memory → ℕ × List Descriptor
  vopen_file disk table name =
      let (free_node, table') = find_free_inode table in
      let opened = record (get_or table' free_node empty) {
        filename = name_bytes 12 0 name;
        occupied = 1;
        position = 0;
      } in
      if not (check_file_exists disk name)
      then (open_file_error, table)
      else if free_node == open_file_error
      then (free_node, table')
      else (free_node, set table' free_node opened)

  unfoldable pub vread_file : Disk → List Descriptor → ℕ → Memory → ℕ → ℕ × Memory
  vread_file disk table fd buff size =
      let d = get_or table fd empty in
      if leb 100 fd
      then (open_file_error, buff)
      else read_file disk (name_pointer d) buff d.position size

  unfoldable pub vwrite_file : Disk → List Descriptor → ℕ → Memory → ℕ → ℕ × Disk
  vwrite_file disk table fd buff size =
      let d = get_or table fd empty in
      if leb 100 fd
      then (open_file_error, disk)
      else write_file disk (name_pointer d) buff d.position size

  unfoldable pub vget_file_size : Disk → List Descriptor → ℕ → ℕ
  vget_file_size disk table fd =
      if leb 100 fd
      then open_file_error
      else get_file_size disk (name_pointer (get_or table fd empty))

unfoldable pub vseekp : List Descriptor → ℕ → ℕ → ℕ × List Descriptor
vseekp table fd new_pos =
    if leb 100 fd
    then (open_file_error, table)
    else (0, set table fd (record (get_or table fd empty) { position = new_pos }))

unfoldable pub vseekr : List Descriptor → ℕ → ℕ → ℕ × List Descriptor
vseekr table fd forward =
    let d = get_or table fd empty in
    if leb 100 fd
    then (open_file_error, table)
    else (0, set table fd (record d { position = (d.position + forward) % 2 ^ 32 }))
