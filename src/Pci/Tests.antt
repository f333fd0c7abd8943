-- ===== src/Pci/Tests.antt =====
-- A request of src/drivers/pci.cpp for a function that is not 0.
use littlevisor.Base.{bit_or, ◌≡◌, arith}
use littlevisor.Pci.{config_request}
use littlevisor.Pci.Requests.{field, config_request-fields}

-- The third function of a device on the bus 4 is looked for on the bus 6.
config_request-fields_example :
    (field 0 8 (config_request 4 9 2 0x10) ≡ 0x10)
    × (field 8 3 (config_request 4 9 2 0x10) ≡ 0)
    × (field 11 5 (config_request 4 9 2 0x10) ≡ 9)
    × (field 16 8 (config_request 4 9 2 0x10) ≡ bit_or 2 4)
config_request-fields_example =
    config_request-fields 4 9 2 0x10 (omega arith) (omega arith) (omega arith) (omega arith)
