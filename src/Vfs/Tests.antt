-- ===== src/Vfs/Tests.antt =====
-- Runs of src/fs/vfs.cpp over a file system with one file.
use littlevisor.Base.{
  ℕ, zero, suc, ◌+◌, ◌-◌, ◌%◌, ◌≤◌, ◌≡◌, refl, ◌&&◌, List, [], ◌∷◌, ltb, leb, ◌==◌, if◌then◌else◌,
}
use littlevisor.Common.{Memory}
use littlevisor.Vfs.{
  FileSystem, Descriptor, empty, name_bytes, name_pointer, find_from, find_free_inode, vopen_file,
  vread_file, vseekp, vseekr,
}
use littlevisor.Vfs.Table.{Opened, vopen_file-Opened}
use littlevisor.Vfs.Traces.{
  vseekr-vseekp, Call, open_file, read, seek, skip, close, opens, opens-le,
}

-- A disk of bytes, with the file whose name starts with `A`.
abbrev one_file : FileSystem
one_file = record {
  Disk = Memory;
  check_file_exists = λ disk name. name 0 == 65;
  read_file =
      λ disk name buff position size. (0, λ i. if ltb i size then disk (position + i) else buff i);
  write_file = λ disk name buff position size.
      (0, λ a. if leb position a && ltb a (position + size) then buff (a - position) else disk a);
  get_file_size = λ disk name. 4096;
}

abbrev disk_bytes : Memory
disk_bytes a = a % 256

abbrev name_a : Memory
name_a i = if i == 0 then 65 else 32

abbrev closed : ℕ → List Descriptor
closed zero = []
closed (suc k) = empty ∷ closed k

abbrev calls : List Call
calls = open_file name_a ∷ seek 0 8 ∷ open_file name_a ∷ close 0 ∷ open_file (λ i. 0) ∷ []

two_opens : opens one_file calls disk_bytes (closed 100) ≡ 2
unfolding opens littlevisor.Vfs.Traces.call vopen_file find_free_inode find_from vseekp
two_opens = refl

vopen_file-Opened_example :
    Opened one_file disk_bytes
      (closed 100)
      name_a
      (vopen_file one_file disk_bytes (closed 100) name_a)
vopen_file-Opened_example = vopen_file-Opened one_file disk_bytes (closed 100) name_a refl

opens-le_example : opens one_file calls disk_bytes (closed 100) ≤ 100
opens-le_example = opens-le one_file calls disk_bytes (closed 100) refl
