-- ===== src/Common/Text/Tests.antt =====
-- Runs of the functions of src/common.cpp on numbers.
use littlevisor.Base.{◌≡◌, refl, [], ◌∷◌}
use littlevisor.Common.Text.{kto_little_endian, swap_from, itoa, digits}
use littlevisor.Common.Text.Order.{big_endian, kto_little_endian-big_endian}

forty_two : itoa 42 ≡ 52 ∷ 50 ∷ 0 ∷ []
unfolding itoa digits
forty_two = refl

swapped : kto_little_endian 0x0102030405060708 ≡ 0x0807060504030201
unfolding kto_little_endian swap_from
swapped = refl

kto_little_endian-big_endian_example :
    kto_little_endian 0x0102030405060708 ≡ big_endian 8 0x0102030405060708 0
kto_little_endian-big_endian_example = kto_little_endian-big_endian 0x0102030405060708
