-- ===== src/Pci.antt =====
-- src/drivers/pci.cpp: the registers of PCI devices, through the ports 0xCF8 and 0xCFC.
pub mod Requests
pub mod Tests
use littlevisor.Base.{
  ℕ, zero, suc, ◌+◌, ◌-◌, ◌*◌, ◌/◌, ◌%◌, ◌^◌, ◌≤◌, ◌<◌, min, max, bit_and, bit_or, ◌≡◌, refl, sym,
  ap, fun_ext, ◌∙◌, ◌≢◌, ◌⊎◌, inl, inr, Bool, true, false, not, ◌&&◌, ◌||◌, Option, none, some,
  List, [], ◌∷◌, ◌++◌, length, get_or, get_elem?, set, length-set, get_or-set_self, get_or-set_ne,
  map, ltb, leb, ◌==◌, if◌then◌else◌, arith, Bool-cases, Option-cases, ltb→lt, lt→ltb, leb→le,
  ==_iff,
}
use littlevisor.Common.{Memory, load, setbit, clearbit}

-- The two ports of the machine: writes of 32 and 16 bits, and reads of 32 and 8 bits.
pub record ConfigPorts : Type 1 where
  pub State : Type 0
  pub write_dword : State → ℕ → ℕ → State
  pub write_word : State → ℕ → ℕ → State
  pub read_dword : State → ℕ → ℕ
  pub read_byte : State → ℕ → ℕ

-- `pci_device_descriptor`
pub record DeviceDescriptor : Type 0 where
  pub bus : ℕ
  pub device : ℕ
  pub function : ℕ

-- `pci_config_req`: the arguments are bytes, and the function is shifted as far as the bus is.
unfoldable pub config_request : ℕ → ℕ → ℕ → ℕ → ℕ
config_request bus slot func offset =
    bit_or
      (bit_or (bit_or (bit_or offset (func % 256 * 2 ^ 16)) (slot % 256 * 2 ^ 11))
        (bus % 256 * 2 ^ 16))
      (0x80 * 2 ^ 24)

module _ (ports : ConfigPorts) where
  open ports use {State, write_dword, write_word, read_dword, read_byte}

  unfoldable pub read_configuration_dword : State → ℕ → ℕ → ℕ → ℕ → ℕ × State
  unfolding config_request
  read_configuration_dword s bus slot func offset =
      let s' = write_dword s 0xCF8 (config_request bus slot func offset) in
      (read_dword s' 0xCFC, s')

  unfoldable pub read_configuration_word : State → ℕ → ℕ → ℕ → ℕ → ℕ × State
  unfolding config_request
  read_configuration_word s bus slot func offset =
      let s' = write_dword s 0xCF8 (config_request bus slot func offset) in
      (read_dword s' 0xCFC / 2 ^ (bit_and offset 2 * 8) % 2 ^ 16, s')

  unfoldable pub read_device_identifier : State → ℕ → ℕ → ℕ → ℕ → ℕ × State
  unfolding config_request
  read_device_identifier s bus slot func offset =
      let s' = write_dword s 0xCF8 (config_request bus slot func offset) in
      (read_byte s' (0xCFC + offset % 4), s')

  unfoldable pub write_configuration_word : State → DeviceDescriptor → ℕ → ℕ → State
  unfolding config_request
  write_configuration_word s d offset data_word =
      write_word (write_dword s 0xCF8 (config_request d.bus d.device d.function offset)) 0xCFC
        data_word

  -- A change of the command register, which has the offset 4.
  unfoldable pub update_command : (ℕ → ℕ) → State → DeviceDescriptor → State
  unfolding read_configuration_word write_configuration_word
  update_command change s d =
      let (command_register, s') = read_configuration_word s d.bus d.device d.function 4 in
      write_configuration_word s' d 4 (change command_register)

  unfoldable pub pci_enable_interrupts : State → DeviceDescriptor → State
  unfolding update_command
  pci_enable_interrupts = update_command (λ v. clearbit 16 v 10)

  unfoldable pub pci_enable_dma : State → DeviceDescriptor → State
  unfolding update_command
  pci_enable_dma = update_command (λ v. setbit 16 v 10)

  unfoldable pub pci_enable_bus_mastering : State → DeviceDescriptor → State
  unfolding update_command
  pci_enable_bus_mastering = update_command (λ v. setbit 16 v 2)

  unfoldable pub get_header_bar : State → DeviceDescriptor → ℕ → ℕ × State
  unfolding read_configuration_dword
  get_header_bar s d bar_number =
      let (bar, s') =
        read_configuration_dword s d.bus d.device d.function ((16 + bar_number * 4) % 256) in
      (
        if bit_and bar 1 == 0
            then (if bit_and (bar / 2) 2 == 0
                then bit_and bar 0xFFFFFFF0
                else if bit_and (bar / 2) 2 == 2
                then bit_and bar 0xFFFFFFF0
                else 0)
            else bit_and bar 0xFFFFFFFC,
        s',
      )

  -- The loop of `find_device` through the functions that are left; it compares whole words.
  unfoldable pub find_function : ℕ → ℕ → State → ℕ → ℕ → ℕ → ℕ → ℕ → Option ℕ × State
  unfolding read_configuration_dword
  find_function zero function s bus device classcode subclass prog_if = (none, s)
  find_function (suc left) function s bus device classcode subclass prog_if =
      let (vendor, s1) = read_configuration_dword s bus device function 0 in
      let (class_dword, s2) = read_configuration_dword s1 bus device function 11 in
      let (subclass_dword, s3) = read_configuration_dword s2 bus device function 10 in
      let (prog_dword, s4) = read_configuration_dword s3 bus device function 9 in
      let skipped = vendor % 2 ^ 16 == 0xFFFF in
      let after =
        if skipped
        then s1
        else if not (class_dword == classcode)
        then s2
        else if not (subclass_dword == subclass)
        then s3
        else s4 in
      let rest = find_function left (function + 1) after bus device classcode subclass prog_if in
      if not skipped
        && class_dword == classcode
        && subclass_dword == subclass
        && prog_dword == prog_if
      then (some function, s4)
      else rest

  -- A round of `find_device`: the function that is found of one device.
  unfoldable pub probe_device : State → ℕ → ℕ → ℕ → ℕ → ℕ → Option ℕ × State
  unfolding read_configuration_dword read_device_identifier find_function
  probe_device s bus device classcode subclass prog_if =
      let (vendor, s1) = read_configuration_dword s bus device 0 0 in
      let (header_type, s2) = read_configuration_dword s1 bus device 0 14 in
      let (curr_classcode, s3) = read_device_identifier s2 bus device 0 11 in
      let (curr_subclass, s4) = read_device_identifier s3 bus device 0 10 in
      let (curr_prog_if, s5) = read_device_identifier s4 bus device 0 9 in
      let functions = find_function 8 0 s5 bus device classcode subclass prog_if in
      if vendor % 2 ^ 16 == 0xFFFF
      then (none, s1)
      else if curr_classcode == classcode && curr_subclass == subclass && curr_prog_if == prog_if
      then (some 0, s5)
      else if bit_and (header_type % 2 ^ 16) 0x80 == 0
      then (none, s5)
      else functions

  unfoldable pub find_on_bus : ℕ → ℕ → State → ℕ → ℕ → ℕ → ℕ → Option DeviceDescriptor × State
  unfolding probe_device
  find_on_bus zero device s bus classcode subclass prog_if = (none, s)
  find_on_bus (suc left) device s bus classcode subclass prog_if =
      let (found, s') = probe_device s bus device classcode subclass prog_if in
      let rest = find_on_bus left (device + 1) s' bus classcode subclass prog_if in
      elim found [
        | some function ↦ (some record { bus = bus; device = device; function = function }, s')
        | none ↦ rest
      ]

  unfoldable pub find_from_bus : ℕ → ℕ → State → ℕ → ℕ → ℕ → Option DeviceDescriptor × State
  unfolding find_on_bus
  find_from_bus zero bus s classcode subclass prog_if = (none, s)
  find_from_bus (suc left) bus s classcode subclass prog_if =
      let (found, s') = find_on_bus 256 0 s bus classcode subclass prog_if in
      let rest = find_from_bus left (bus + 1) s' classcode subclass prog_if in
      elim found [ some d ↦ (some d, s') | none ↦ rest ]

  unfoldable pub find_device : State → ℕ → ℕ → ℕ → Option DeviceDescriptor × State
  unfolding find_from_bus
  find_device s classcode subclass prog_if = find_from_bus 256 0 s classcode subclass prog_if
