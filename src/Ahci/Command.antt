-- ===== src/Ahci/Command.antt =====
-- `commit_transaction` of src/drivers/ahci.cpp: the command that it builds for the controller, and
-- the ports of the controller.
use littlevisor.Base.{
  ℕ, zero, suc, ◌+◌, ◌-◌, ◌*◌, ◌/◌, ◌%◌, ◌^◌, Bool, ◌&&◌, ◌||◌, Option, none, some, List, [], ◌∷◌,
  ltb, ◌==◌, if◌then◌else◌,
}
use littlevisor.Common.{getbit, setbit, clearbit}

-- The registers of a port that the driver reads and writes.
pub record Port : Type 0 where
  pub pxcmd : ℕ
  pub pxsig : ℕ
  pub pxsctl : ℕ
  pub pxsact : ℕ
  pub pxci : ℕ

-- `command_header`, `prdt` and `FIS_REG_H2D_S`
pub record Header : Type 0 where
  pub cfl : ℕ
  pub atapi : ℕ
  pub write : ℕ
  pub prefetchable : ℕ
  pub pmp : ℕ
  pub prdtl : ℕ

pub record Prdt : Type 0 where
  pub dba : ℕ
  pub dbau : ℕ
  pub dbc : ℕ
  pub ioc : ℕ

pub record Fis : Type 0 where
  pub fis_type : ℕ
  pub c : ℕ
  pub pmport : ℕ
  pub command : ℕ
  pub countl : ℕ
  pub counth : ℕ
  pub icc : ℕ
  pub device : ℕ
  pub lba0 : ℕ
  pub lba1 : ℕ
  pub lba2 : ℕ
  pub lba3 : ℕ
  pub lba4 : ℕ
  pub lba5 : ℕ

-- What `commit_transaction` hands to the controller: the slot, with its bit of PxCI, and the command.
pub record Command : Type 0 where
  pub cmd_slot : ℕ
  pub pxci : ℕ
  pub header : Header
  pub prdt_list : List Prdt
  pub fis : Fis

-- The search of `find_avail_port` through the slots that are left; `none` is its `false`.
unfoldable pub find_slot : ℕ → ℕ → ℕ → ℕ → Option ℕ
find_slot zero cmd_slot pxsact pxci = none
find_slot (suc left) cmd_slot pxsact pxci =
    let rest = find_slot left (cmd_slot + 1) pxsact pxci in
    if getbit pxsact cmd_slot == 0 && getbit pxci cmd_slot == 0 then some cmd_slot else rest

unfoldable pub find_avail_port : Port → Option ℕ
unfolding find_slot
find_avail_port port = find_slot 32 0 port.pxsact port.pxci

-- `TO_LOWER_HALF` on 64-bit addresses.
unfoldable pub to_lower_half : ℕ → ℕ
to_lower_half addr = (addr + 2 ^ 64 - 0xffff800000000000) % 2 ^ 64

-- An entry of the loop of `commit_transaction`, and the last one.
unfoldable pub full_prdt : ℕ → Prdt
full_prdt buff = record {
  dba = buff % 2 ^ 32;
  dbau = buff / 2 ^ 32 % 2 ^ 32;
  dbc = 8 * 1024 - 1;
  ioc = 0;
}

unfoldable pub last_prdt : ℕ → ℕ → Prdt
unfolding to_lower_half
last_prdt buff num_of_sectors = record {
  dba = to_lower_half buff % 2 ^ 32;
  dbau = to_lower_half buff / 2 ^ 32 % 2 ^ 32;
  dbc = (num_of_sectors * 512 + 2 ^ 32 - 1) % 2 ^ 22;
  ioc = 0;
}

-- The list, with `left` entries before the last one, and the number of sectors that remains.
unfoldable pub fill_prdt : ℕ → ℕ → ℕ → List Prdt × ℕ
unfolding full_prdt last_prdt
fill_prdt zero buff num_of_sectors = (last_prdt buff num_of_sectors ∷ [], num_of_sectors)
fill_prdt (suc left) buff num_of_sectors =
    let rest =
      fill_prdt left ((buff + 8 * 1024) % 2 ^ 64) ((num_of_sectors + 2 ^ 16 - 16) % 2 ^ 16) in
    (full_prdt buff ∷ rest.0, rest.1)

-- `cfl` is the size of the enumerator `FIS_REG_H2D`, which has the size of an int.
unfoldable pub make_header : ℕ → Bool → Header
make_header num_of_sectors write = record {
  cfl = 4;
  atapi = 0;
  write = if write then 1 else 0;
  prefetchable = 0;
  pmp = 0;
  prdtl = num_of_sectors * 512 / 512 % 2 ^ 16;
}

unfoldable pub make_fis : ℕ → ℕ → Bool → Fis
make_fis start_sector num_of_sectors write = record {
  fis_type = 0x27;
  c = 1;
  pmport = 0;
  command = if write then 0x35 else 0x25;
  countl = num_of_sectors % 256;
  counth = num_of_sectors / 2 ^ 8 % 256;
  icc = 0;
  device = 2 ^ 6;
  lba0 = start_sector % 256;
  lba1 = start_sector / 2 ^ 8 % 256;
  lba2 = start_sector / 2 ^ 16 % 256;
  lba3 = start_sector / 2 ^ 24 % 256;
  lba4 = start_sector / 2 ^ 32 % 256;
  lba5 = start_sector / 2 ^ 40 % 256;
}

-- `none` is the early return, on a buffer of NULL or without a free slot. Then the command is
-- issued, and the driver waits for its end.
unfoldable pub commit_transaction : Port → ℕ → ℕ → ℕ → Bool → Option Command
unfolding find_avail_port fill_prdt make_header make_fis
commit_transaction port buff start_sector num_of_sectors write =
    let header = make_header num_of_sectors write in
    let (prdt_list, left) = fill_prdt (header.prdtl - 1) buff num_of_sectors in
    if buff == 0 then none else elim (find_avail_port port) [
      | none ↦ none
      | some cmd_slot ↦ some record {
        cmd_slot = cmd_slot;
        pxci = 2 ^ cmd_slot % 2 ^ 32;
        header = header;
        prdt_list = prdt_list;
        fis = make_fis start_sector left write;
      }
    ]

-- `stop_command_engine` writes these registers; its wait between the two only reads.
unfoldable pub stop_command_engine : ℕ → Port → Port
stop_command_engine port reg = if ltb 31 port || getbit reg.pxcmd 0 == 0 then reg else record reg {
  pxcmd = clearbit 64 (clearbit 64 reg.pxcmd 0) 4 % 2 ^ 32;
  pxsctl = clearbit 64 reg.pxsctl 0 % 2 ^ 32;
}

-- `start_command_engine`, once the bit CR is clear.
unfoldable pub start_command_engine : ℕ → Port → Port
start_command_engine port reg =
    if ltb 31 port then reg else record reg { pxcmd = setbit 64 (setbit 64 reg.pxcmd 4) 0 % 2 ^ 32 }

-- `map_ports` for one port: its entry of `port_types`, which a signature of no known kind leaves.
unfoldable pub port_type : ℕ → ℕ → Port → ℕ → ℕ
port_type pi i port old =
    if getbit pi i == 1
    then (if port.pxsig == 0x101
          || port.pxsig == 0xEB140101
          || port.pxsig == 0x96690101
          || port.pxsig == 0xC33C0101
        then port.pxsig
        else old)
    else 0

-- The choice of `init_ahci`, over the entries that are left: the last port with a disk.
unfoldable pub choose_port : List ℕ → ℕ → ℕ → ℕ
choose_port [] i chosen = chosen
choose_port (kind ∷ kinds) i chosen =
    choose_port kinds (i + 1) (if kind == 0x101 then i else chosen)
