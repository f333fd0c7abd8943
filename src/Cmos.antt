-- ===== src/Cmos.antt =====
-- src/vm_drivers/cmos.cpp: the CMOS registers that a guest sees.
pub mod Tests
use littlevisor.Base.{
  ℕ, zero, suc, ◌+◌, ◌-◌, ◌*◌, ◌/◌, ◌%◌, ◌^◌, ◌≤◌, ◌<◌, min, max, bit_and, bit_or, ◌≡◌, refl, sym,
  ap, fun_ext, ◌∙◌, ◌≢◌, ◌⊎◌, inl, inr, Bool, true, false, not, ◌&&◌, ◌||◌, Option, none, some,
  List, [], ◌∷◌, ◌++◌, length, get_or, get_elem?, set, length-set, get_or-set_self, get_or-set_ne,
  map, ltb, leb, ◌==◌, if◌then◌else◌, arith, Bool-cases, Option-cases, ltb→lt, lt→ltb, leb→le,
  ==_iff,
}

-- `cmos_device`
pub record CmosDevice : Type 0 where
  pub index_reg : ℕ
  pub bootflag1 : ℕ
  pub bootflag2 : ℕ

abbrev pub new_cmos : CmosDevice
new_cmos = record { index_reg = 0; bootflag1 = 16; bootflag2 = 50 }

unfoldable pub write_reg_idx : CmosDevice → ℕ → CmosDevice
write_reg_idx d reg_idx = record d { index_reg = reg_idx % 2 ^ 16 }

unfoldable pub read_reg : CmosDevice → ℕ
read_reg d =
    if d.index_reg == 0x38 then d.bootflag1 else if d.index_reg == 0x39 then d.bootflag2 else 0

-- The first case of the switch has no `break`.
unfoldable pub write_reg : CmosDevice → ℕ → CmosDevice
write_reg d val =
    if d.index_reg == 0x38
    then record d { bootflag1 = val; bootflag2 = val }
    else if d.index_reg == 0x39
    then record d { bootflag2 = val }
    else d

-- After a write to the register `i`, the register `j` reads the value if it is the second flag and
-- `i` is a flag, or if both are the first flag. Otherwise it reads as before.
pub read_reg-write_reg :
    (d : CmosDevice) (i j val : ℕ)
    → i < 2 ^ 16
    → j < 2 ^ 16
    → read_reg (write_reg_idx (write_reg (write_reg_idx d i) val) j) ≡ (
        if (i == 0x38 && (j == 0x38 || j == 0x39)) || (i == 0x39 && j == 0x39)
        then val
        else read_reg (write_reg_idx d j))
unfolding read_reg write_reg write_reg_idx
read_reg-write_reg d i j val hi hj =
    let ei : i % 2 ^ 16 ≡ i = omega arith in
    let ej : j % 2 ^ 16 ≡ j = omega arith in rw (ei, ej) (ground arith)
