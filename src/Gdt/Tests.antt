-- ===== src/Gdt/Tests.antt =====
-- A run of src/gdt.cpp: the code segment of the user.
use littlevisor.Base.{◌/◌, ◌≡◌, refl}
use littlevisor.Gdt.Table.{gdt_entries, flat}
use littlevisor.Base.{get_or}

user_code_is_at_its_selector : get_or gdt_entries (0x38 / 8) (flat 0 0 0 0) ≡ flat 0 0 0xFA 0x2
unfolding gdt_entries
user_code_is_at_its_selector = refl
