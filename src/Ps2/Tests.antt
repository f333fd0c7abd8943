-- ===== src/Ps2/Tests.antt =====
-- Runs of src/drivers/ps2.cpp.
use littlevisor.Base.{ℕ, ◌≡◌, refl, some}
use littlevisor.Ps2.{find_code, find_key, handle_keyboard_int}

letter_a : handle_keyboard_int 0x1C ≡ (1, some (some 65))
unfolding handle_keyboard_int find_key find_code
letter_a = refl

abbrev code : ℕ
code = 0x62
