-- ===== src/Vmcs/Ioio.antt =====
-- `vmexit_handler` and `handle_ioio_vmexit` of src/vmcs/vmcs.cpp: what the kernel does when a guest
-- accesses a port.
use littlevisor.Base.{
  ℕ, zero, suc, ◌+◌, ◌*◌, ◌/◌, ◌%◌, ◌^◌, bit_or, Bool, ◌&&◌, ◌||◌, Option, none, some, List, [],
  ◌∷◌, length, leb, ◌==◌, if◌then◌else◌,
}
use littlevisor.Common.{Memory, getbit, load, write}
use littlevisor.Common.Text.{kto_little_endian}
use littlevisor.Common.{to_higher_half}
use littlevisor.Ata.{StorageDevice, AtaDevice, Transaction}
use littlevisor.Ata.Commands.{dispatch_command}
use littlevisor.Cmos.{write_reg, write_reg_idx}
use littlevisor.Vmcs.{Vmm, walk, calculate_physical_addr, set_current, edit_rax}

-- `ioio_exitinfo1`, without the fields that nothing reads: `is_read` is the bit `type`.
pub record ExitInfo : Type 0 where
  pub is_read : Bool
  pub str : Bool
  pub rep : Bool
  pub sz8 : Bool
  pub sz16 : Bool
  pub sz32 : Bool
  pub port : ℕ

-- The instructions on the ports of the machine. An access of `width` bytes may also change the
-- memory, by a transfer of the device. `swap32` is `kToLittleEndian` of 32 bits, which shifts past
-- the width of its word: its result is the compiler's.
pub record Host : Type 1 where
  pub State : Type 0
  pub port_in : State → ℕ → ℕ → ℕ × State
  pub port_out : State → Memory → ℕ → ℕ → ℕ → State × Memory
  pub swap32 : ℕ → ℕ

-- The bits of the field, and the port that stands in for 0x608.
unfoldable pub decode_exitinfo1 : ℕ → ExitInfo
decode_exitinfo1 v =
    let p = v / 2 ^ 16 % 2 ^ 16 in
    record {
      is_read = getbit v 0 == 1;
      str = getbit v 2 == 1;
      rep = getbit v 3 == 1;
      sz8 = getbit v 4 == 1;
      sz16 = getbit v 5 == 1;
      sz32 = getbit v 6 == 1;
      port = if p == 0x608 then 0xe408 else p;
    }

-- The ports of the disks: two blocks of commands and two of control.
unfoldable pub is_ata_port : ℕ → Bool
is_ata_port p =
    (leb 0x1F0 p && leb p (0x1F0 + 7))
    || (leb 0x3F6 p && leb p (0x3F6 + 1))
    || (leb 0x170 p && leb p (0x170 + 7))
    || (leb 0x376 p && leb p (0x376 + 1))

unfoldable pub ata_transaction : ExitInfo → ℕ → Transaction
ata_transaction e rax = record {
  port = e.port;
  is_read = e.is_read;
  sz8 = e.sz8;
  sz16 = e.sz16;
  sz32 = e.sz32;
  written_val = if e.is_read then 0 else rax;
}

-- `kmemcpy` of a response to an address, and onto the bytes of RAX.
unfoldable pub store_bytes : Memory → ℕ → List ℕ → Memory
store_bytes m at [] = m
store_bytes m at (byte ∷ bytes) = store_bytes (λ a. if a == at then byte else m a) (at + 1) bytes

unfoldable pub replace_low : List ℕ → ℕ → ℕ
replace_low [] v = v
replace_low (byte ∷ bytes) v = byte + 256 * replace_low bytes (v / 256)

module _ {Disk Ports : Type 0} where
  abbrev pub rax_of : Vmm Disk Ports → ℕ
  rax_of m = m.vmcb.state_save_area.rax

  abbrev pub set_rax : Vmm Disk Ports → ℕ → Vmm Disk Ports
  set_rax m v = record m {
    vmcb = record m.vmcb { state_save_area = record m.vmcb.state_save_area { rax = v } };
  }

  unfoldable pub set_rip : Vmm Disk Ports → ℕ → Vmm Disk Ports
  set_rip m v = record m {
    vmcb = record m.vmcb { state_save_area = record m.vmcb.state_save_area { rip = v } };
  }

  unfoldable pub clear_rcx : Bool → Vmm Disk Ports → Vmm Disk Ports
  clear_rcx rep m =
      let c = m.guests m.curr_guest_idx in
      if rep then set_current m (record c { regs = record c.regs { rcx = 0 } }) else m

  -- The ports 0x70 and 0x71.
  unfoldable pub cmos_index : Vmm Disk Ports → Vmm Disk Ports
  cmos_index m =
      let c = m.guests m.curr_guest_idx in
      if rax_of m == 0x38 || rax_of m == 0x3d
      then set_current m (record c { cmos_dev = write_reg_idx c.cmos_dev (rax_of m) })
      else m

  unfoldable pub cmos_data : Vmm Disk Ports → Vmm Disk Ports
  cmos_data m =
      let c = m.guests m.curr_guest_idx in
      set_current m (record c { cmos_dev = write_reg c.cmos_dev (rax_of m % 256) })

-- The rounds of an access to the disks; `fresh` is what `kmalloc` gives in each round, and `none` in
-- the results is an access through its null pointer.
module _ (storage : StorageDevice) {Ports : Type 0} where
  -- One round: the response goes to memory for a string instruction, to RAX for another.
  unfoldable pub ata_round :
      Option Memory
      → Transaction
      → Bool
      → Vmm storage.Disk Ports
      → ℕ
      → Option (Vmm storage.Disk Ports × ℕ)
  unfolding edit_rax store_bytes replace_low
  ata_round fresh t rep m target_addr =
      let c = m.guests m.curr_guest_idx in
      let finish : List ℕ → Bool → AtaDevice → storage.Disk → Vmm storage.Disk Ports × ℕ =
        λ answer zero_rax device disk'.
          let m1 = record (set_current m (record c { ata_device = device })) { disk = disk' } in
          let m2 = if zero_rax then edit_rax m1 0 else m1 in
          (
            if rep
                then record m2 { memory = store_bytes m2.memory target_addr answer }
                else set_rax m2 (replace_low answer (rax_of m2)),
            target_addr + length answer,
          ) in
      elim (dispatch_command storage c.ata_device m.disk fresh t) [
        | none ↦ none
        | some (answer, zero_rax, device, disk') ↦ some (finish answer zero_rax device disk')
      ]

  unfoldable pub ata_rounds :
      ℕ
      → (ℕ → Option Memory)
      → Transaction
      → Bool
      → Vmm storage.Disk Ports
      → ℕ
      → Option (Vmm storage.Disk Ports)
  unfolding ata_round
  ata_rounds zero fresh t rep m target_addr = some m
  ata_rounds (suc left) fresh t rep m target_addr =
      let rest = ata_rounds left fresh t rep in
      elim (ata_round (fresh left) t rep m target_addr) [
        | none ↦ none
        | some (m', next) ↦ rest m' next
      ]

  unfoldable pub ata_access :
      (ℕ → Option Memory) → ExitInfo → Vmm storage.Disk Ports → Option (Vmm storage.Disk Ports)
  unfolding ata_rounds ata_transaction clear_rcx
  ata_access fresh e m =
      let regs = (m.guests m.curr_guest_idx).regs in
      let target =
        to_higher_half (calculate_physical_addr m 64 m.vmcb.state_save_area.es.base regs.rdi) in
      let done =
        ata_rounds (if e.rep then regs.rcx else 1) fresh (ata_transaction e (rax_of m)) e.rep m
          target in
      elim done [ none ↦ none | some m' ↦ some (clear_rcx e.rep m') ]

module _ {Disk : Type 0} (host : Host) where
  -- The write of a guest to the ports 0x514 and 0x518: the guest's address of a request is replaced by
  -- the physical one, and so is the address inside the request, until the device has run. `none` is
  -- `kpanic`.
  unfoldable pub fw_cfg_write : Vmm Disk host.State → Option (Vmm Disk host.State)
  fw_cfg_write m =
      let n_cr3 = m.vmcb.control.n_cr3 in
      let phys_addr = walk m (host.swap32 (rax_of m % 2 ^ 32)) n_cr3 in
      let at = to_higher_half phys_addr + 8 in
      let dma_addr = kto_little_endian (load 8 m.memory at) in
      let dma_phys_addr = walk m dma_addr n_cr3 in
      let memory1 = write 8 m.memory at (kto_little_endian dma_phys_addr) in
      let low = phys_addr % 2 ^ 32 in
      let high = phys_addr / 2 ^ 32 % 2 ^ 32 in
      let (ports2, memory2) =
        if high == 0
        then (m.ports, memory1)
        else host.port_out m.ports memory1 4 0x514 (host.swap32 high % 2 ^ 32) in
      let (ports3, memory3) = host.port_out ports2 memory2 4 0x518 (host.swap32 low % 2 ^ 32) in
      if phys_addr == 0
      then none
      else some
          (record m { memory = write 8 memory3 at (kto_little_endian dma_addr); ports = ports3 })

  -- A write of a guest to a port that the machine serves itself. A string instruction takes the
  -- bytes at the kernel's address in RSI.
  unfoldable pub pass_out : ExitInfo → Vmm Disk host.State → Vmm Disk host.State
  pass_out e m =
      let width = if e.sz8 then 1 else if e.sz16 then 2 else if e.sz32 then 4 else 0 in
      let value =
        if e.str
        then load width m.memory (m.guests m.curr_guest_idx).regs.rsi
        else rax_of m % 256 ^ width in
      let (ports', memory') = host.port_out m.ports m.memory width e.port value in
      if width == 0 then m else record m { memory = memory'; ports = ports' }

  -- A round of a read by a string instruction. With 16 bits, the copy runs from the guest's memory
  -- to the variable, and the value is lost.
  unfoldable pub pass_in_string : ExitInfo → ℕ → Vmm Disk host.State → Vmm Disk host.State
  pass_in_string e i m =
      let c = m.guests m.curr_guest_idx in
      let width = if e.sz8 then 1 else if e.sz16 then 2 else if e.sz32 then 4 else 0 in
      let (read_val, ports') = host.port_in m.ports width e.port in
      let low = to_higher_half (
        calculate_physical_addr m 32 (m.vmcb.state_save_area.es.base % 2 ^ 32)
          (c.regs.rdi % 2 ^ 32)) in
      let full = to_higher_half (walk m c.regs.rdi c.guest_cr3) in
      let read = record m { ports = ports' } in
      if e.sz8
      then record read { memory = write 1 m.memory (low + i) read_val }
      else if e.sz16
      then read
      else if e.sz32
      then record read { memory = write 4 m.memory (full + i) read_val }
      else m

  -- A round of another read, with the value so far.
  unfoldable pub pass_in_value : ExitInfo → ℕ → Vmm Disk host.State → ℕ → Vmm Disk host.State × ℕ
  pass_in_value e i m value =
      let width = if e.sz8 then 1 else if e.sz16 then 2 else if e.sz32 then 4 else 0 in
      let (read_val, ports') = host.port_in m.ports width e.port in
      if width == 0
      then (m, value)
      else (record m { ports = ports' }, bit_or value (read_val * 2 ^ (8 * width * i) % 2 ^ 64))

  unfoldable pub pass_in_rounds :
      ℕ → ExitInfo → ℕ → Vmm Disk host.State → ℕ → Vmm Disk host.State × ℕ
  unfolding pass_in_string pass_in_value
  pass_in_rounds zero e i m value = (m, value)
  pass_in_rounds (suc left) e i m value =
      let next = if e.str then (pass_in_string e i m, value) else pass_in_value e i m value in
      pass_in_rounds left e (i + 1) next.0 next.1

  unfoldable pub pass_in : ExitInfo → Vmm Disk host.State → Vmm Disk host.State
  unfolding pass_in_rounds clear_rcx
  pass_in e m =
      let iterations = if e.rep then (m.guests m.curr_guest_idx).regs.rcx else 1 in
      let (m', value) = pass_in_rounds iterations e 0 m 0 in
      clear_rcx e.rep (if e.str then m' else set_rax m' value)

module _ (storage : StorageDevice) (host : Host) where
  -- `handle_ioio_vmexit`; `none` is `kpanic`, or an access through a null pointer of the heap.
  unfoldable pub handle_ioio_vmexit :
      (ℕ → Option Memory) → Vmm storage.Disk host.State → Option (Vmm storage.Disk host.State)
  unfolding decode_exitinfo1 is_ata_port ata_access fw_cfg_write cmos_index cmos_data pass_out
      pass_in set_rip
  handle_ioio_vmexit fresh m =
      let e = decode_exitinfo1 m.vmcb.control.exitinfo1 in
      let handled =
        if is_ata_port e.port
        then ata_access storage fresh e m
        else if e.port == 0x518 || e.port == 0x514
        then (if e.is_read then some m else fw_cfg_write host m)
        else if e.port == 0x70
        then some (cmos_index m)
        else if e.port == 0x71
        then some (cmos_data m)
        else some (if e.is_read then pass_in host e m else pass_out host e m) in
      elim handled [ none ↦ none | some m' ↦ some (set_rip m' m'.vmcb.control.exitinfo2) ]

  -- `vmexit_handler`: 123 is `VMEXIT_IOIO`.
  unfoldable pub vmexit_handler :
      (ℕ → Option Memory) → Vmm storage.Disk host.State → Option (Vmm storage.Disk host.State)
  unfolding handle_ioio_vmexit
  vmexit_handler fresh m =
      if m.vmcb.control.exitcode == 123 then handle_ioio_vmexit fresh m else some m
