-- ===== src/Ps2.antt =====
-- src/drivers/ps2.cpp: from the scan codes of the keyboard to keys.
pub mod Keys
pub mod Tests
use littlevisor.Base.{
  ℕ, zero, suc, ◌+◌, ◌-◌, ◌*◌, ◌/◌, ◌%◌, ◌^◌, ◌≤◌, ◌<◌, min, max, bit_and, bit_or, ◌≡◌, refl, sym,
  ap, fun_ext, ◌∙◌, ◌≢◌, ◌⊎◌, inl, inr, Bool, true, false, not, ◌&&◌, ◌||◌, Option, none, some,
  List, [], ◌∷◌, ◌++◌, length, get_or, get_elem?, set, length-set, get_or-set_self, get_or-set_ne,
  map, ltb, leb, ◌==◌, if◌then◌else◌, arith, Bool-cases, Option-cases, ltb→lt, lt→ltb, leb→le,
  ==_iff,
}

abbrev pub scan_codes : List ℕ
scan_codes =
    0x1C ∷ 0x32 ∷ 0x21 ∷ 0x23 ∷ 0x24 ∷ 0x2B ∷ 0x34 ∷ 0x33 ∷ 0x43 ∷ 0x3B ∷ 0x42 ∷ 0x4B ∷ 0x3A ∷ 0x31
    ∷ 0x44 ∷ 0x4D ∷ 0x15 ∷ 0x2D ∷ 0x1B ∷ 0x2C ∷ 0x3C ∷ 0x2A ∷ 0x1D ∷ 0x22 ∷ 0x35 ∷ 0x1A ∷ 0x45
    ∷ 0x16 ∷ 0x1E ∷ 0x26 ∷ 0x25 ∷ 0x2E ∷ 0x36 ∷ 0x3D ∷ 0x3E ∷ 0x46 ∷ 0x4E ∷ 0x55 ∷ 0x5C ∷ 0x66
    ∷ 0x0D ∷ 0x29 ∷ 0x76 ∷ 0x58 ∷ 0x5A ∷ 0x12 ∷ 0x14 ∷ 0x11 ∷ 0x59 ∷ 0x8C ∷ 0x19 ∷ 0x8D ∷ 0x8B
    ∷ 0x67 ∷ 0x6E ∷ 0x6F ∷ 0x64 ∷ 0x65 ∷ 0x6D ∷ 0x75 ∷ 0x72 ∷ 0x6B ∷ 0x74 ∷ 0x05 ∷ 0x06 ∷ 0x04
    ∷ 0x0A ∷ 0x07 ∷ 0x08 ∷ 0x09 ∷ 0x7C ∷ 0x7B ∷ 0x79 ∷ 0x7A ∷ 0x6C ∷ 0x70 ∷ 0x69 ∷ 0x72 ∷ 0x7D
    ∷ 0x7E ∷ 0x71 ∷ 0x70 ∷ 0x7A ∷ 0x6B ∷ 0x73 ∷ 0x74 ∷ 0x6C ∷ 0x75 ∷ 0x7C ∷ 0x7B ∷ 0x7D ∷ 0x7E
    ∷ 0x77 ∷ 0x7C ∷ 0x7B ∷ 0x79 ∷ 0x7A ∷ 0x07 ∷ 0x0E ∷ 0x09 ∷ 0x5E ∷ 0x5F ∷ 0x62 ∷ []

abbrev pub keys : List ℕ
keys =
    0x41 ∷ 0x42 ∷ 0x43 ∷ 0x44 ∷ 0x45 ∷ 0x46 ∷ 0x47 ∷ 0x48 ∷ 0x49 ∷ 0x4A ∷ 0x4B ∷ 0x4C ∷ 0x4D ∷ 0x4E
    ∷ 0x4F ∷ 0x50 ∷ 0x51 ∷ 0x52 ∷ 0x53 ∷ 0x54 ∷ 0x55 ∷ 0x56 ∷ 0x57 ∷ 0x58 ∷ 0x59 ∷ 0x5A ∷ 0x30
    ∷ 0x31 ∷ 0x32 ∷ 0x33 ∷ 0x34 ∷ 0x35 ∷ 0x36 ∷ 0x37 ∷ 0x38 ∷ 0x39 ∷ 0x2D ∷ 0x3D ∷ 0x5C ∷ 0x08
    ∷ 0x09 ∷ 0x20 ∷ 0x1B ∷ 0x00 ∷ 0x0D ∷ 0x00 ∷ 0x00 ∷ 0x00 ∷ 0x00 ∷ 0x00 ∷ 0x00 ∷ 0x00 ∷ 0x00
    ∷ 0x00 ∷ 0x00 ∷ 0x00 ∷ 0x00 ∷ 0x00 ∷ 0x00 ∷ 0x00 ∷ 0x00 ∷ 0x00 ∷ 0x00 ∷ 0x00 ∷ 0x00 ∷ 0x00
    ∷ 0x00 ∷ 0x00 ∷ 0x00 ∷ 0x00 ∷ 0x2A ∷ 0x2D ∷ 0x2B ∷ 0x2E ∷ 0x2F ∷ 0x31 ∷ 0x32 ∷ 0x33 ∷ 0x34
    ∷ 0x35 ∷ 0x36 ∷ 0x37 ∷ 0x38 ∷ 0x39 ∷ 0x30 ∷ 0x2D ∷ 0x2B ∷ 0x2A ∷ 0x2D ∷ 0x2B ∷ 0x2F ∷ 0x2A
    ∷ 0x00 ∷ 0x2A ∷ 0x2D ∷ 0x2B ∷ 0x2F ∷ 0x00 ∷ 0x00 ∷ 0x00 ∷ []

-- The loop of `find_key` over the codes that are left, from index `i` on. The index is answered
-- before `keys` is read there.
unfoldable pub find_code : List ℕ → ℕ → ℕ → Option ℕ
find_code [] i scan_code = none
find_code (c ∷ codes) i scan_code =
    let rest = find_code codes (i + 1) scan_code in if c == scan_code then some i else rest

-- `none` is a read past the end of `keys`.
unfoldable pub find_key : ℕ → Option ℕ
unfolding find_code
find_key scan_code = elim (find_code scan_codes 0 scan_code) [
  | some i ↦ get_elem? keys i
  | none ↦ some 0
]

-- What `handle_keyboard_int` does with the bytes that the keyboard gives: how many bytes it takes,
-- and the key that it looks up, if it does.
unfoldable pub handle_keyboard_int : ℕ → ℕ × Option (Option ℕ)
unfolding find_key
handle_keyboard_int scan_code =
    if scan_code == 0xF0 then (2, none) else (1, some (find_key scan_code))
