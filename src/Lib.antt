-- ===== src/Lib.antt =====
-- Littlevisor: a small kernel and hypervisor for x86-64, in C++ under src/ of the repository.
--
-- The parts and how they interact. The page-frame allocator (src/pmm.cpp) hands out physical pages
-- from a bitmap. The page tables (src/mm/npaging.cpp) take their tables from it. The scheduler
-- (src/scheduler/scheduler.cpp) runs on the timer tick, loads programs (src/elf/elfloader.cpp)
-- into page maps of their own, and switches registers, page map and the stack pointers of the task
-- state segment (src/gdt.cpp). Programs open files through system calls
-- (src/userspace/fs_syscalls.cpp) that a table of open files (src/fs/vfs.cpp) serves over a file
-- system (src/fs/fat32.cpp), which lies on the disk of the SATA driver (src/drivers/ahci.cpp). The
-- virtual machines (src/vmcs/vmcs.cpp) run on one control block; when a guest accesses a port, the
-- kernel answers from the devices that it imitates. A guest sees an ATA disk
-- (src/vm_drivers/ata_pio.cpp) whose sectors are a file of the kernel, read through that table.
--
-- Which file models what:
--   Base, Bits, Counting    Boolean tests, C arrays, binary digits, counting: shared lemmas
--   Common                  src/common.h, src/common.cpp: bit operations, byte copies, text
--   Pmm                     src/pmm.cpp: kpalloc, kpalloc_contignious, kpfree; Pmm/Init: init_pmm
--   Paging                  src/mm/npaging.cpp: mapPage is map_page, walkTable is walk_table;
--                           src/mm/paging.cpp: allocate_page; Paging/Kernel: init_vmm,
--                           init_mappings, init_user_mappings; Paging/Pages: runs of pages;
--                           Paging/Progress: enough free pages
--   Gdt                     src/gdt.cpp: the stack pointers; Gdt/Table: the descriptors
--   Scheduler               src/scheduler/scheduler.cpp, src/scheduler/task.h; Scheduler/Users:
--                           init_scheduler, create_user_task; Scheduler/Programs: a task that runs
--   Vfs                     src/fs/vfs.cpp, src/userspace/fs_syscalls.cpp: vopenFile is vopen_file
--   KHeap                   src/kheap.cpp: kmalloc, kfree
--   RamDisk                 src/drivers/ram_disk.cpp: the disk and the buffers in one memory
--   Fat32                   src/fs/fat32.cpp: the allocation table and its chains; Fat32/Files and
--                           Fat32/FileWrites: names, readFile, writeFile, createFile;
--                           Fat32/Volume: a volume as the file system of Vfs
--   Ahci                    src/drivers/ahci.cpp: read_data, write_data; Ahci/Command: the command for
--                           the controller; Ahci/Disk: the driver as the disk of Fat32;
--                           Ahci/Files: reads of an open file down to that driver
--   Vmcs                    src/vmcs/vmcs.cpp: context_switching; Vmcs/Ioio: handle_ioio_vmexit;
--                           Vmcs/Setup: init_host, init_guest_state; Vmcs/Bitmap: the bitmap of
--                           ports; Vmcs/Loop: enable_svm, the loop of init_vm
--   Elf                     src/elf/elfloader.cpp: load_elf_to_memory; Elf/Program: a whole program
--   Syscalls                src/userspace/syscalls.cpp, src/timers/pit.cpp: dispatch_syscall, sleep
--   Pci                     src/drivers/pci.cpp: configuration requests, find_device
--   Interrupts              src/interrupts.cpp: interrupt gates, masks of the controllers
--   Ps2                     src/drivers/ps2.cpp: find_key is find_key, from scan codes to keys
--   Cmos                    src/vm_drivers/cmos.cpp
--   Ata                     src/vm_drivers/ata_pio.cpp, with the commands in Ata/Commands and
--                           virtual_storage_device in Ata/Storage
-- A component's statics are a record, and each operation is a function on it, under the source's
-- name in the spelling of this library. Memory is a function from addresses to bytes, or to words
-- where every access is to an aligned word (Paging). Numbers are unbounded, with `% 2 ^ w` where
-- the source's width matters. Indices past the end of a table read a zero entry and write nothing:
-- the source would touch memory outside the table, and the theorems ask for indices inside. The
-- contexts of the guests (Vmcs) are a function of the index, of which the source allocates ten,
-- and a switch to another that its test accepts gives `none`. The control block, the contexts and
-- the buffers of the heap are fields of their own, apart from the memory: `is_held` names their
-- addresses, and the theorems on stores ask for others. A buffer of the heap has no end of its
-- own; a command of the ATA disk that moves bytes past the size it asked for gives `none`. In Ata
-- and Fat32 what kmalloc returns is an argument of type Option; in Ata a write through its null
-- pointer gives `none`. The disks of all guests have one state, the file system and the table of
-- open files behind them.
--
-- Bounds and fuel: loops recurse on the number of rounds left, which is the source's bound, so no
-- fuel runs out; get_last_cluster (Fat32) follows links with fuel, and more fuel than the chain
-- has links is enough, read_clusters (Fat32) has one round for each byte, which is enough, and the
-- loops of writeFile and createFile take fuel too; sleep (Syscalls) takes a round for each read of
-- the counter, with a theorem on how many are enough, and the loops of Ahci one for each sector.
-- kfree and its loops (KHeap) take fuel too, and no theorem speaks of them. `mapPage` panics when
-- there is no free page: map_page then gives `none`.
--
-- Interfaces: FileSystem (Vfs) stands for src/fs/fat32.cpp, StorageDevice (Ata) for the disks of
-- src/drivers/storage_device.h, Ahci (Fat32) for src/drivers/ahci.cpp; virtual_storage_device
-- fills StorageDevice from FileSystem, file_system (Fat32/Volume) fills FileSystem, and driver
-- (Ahci/Disk) fills Ahci from Sectors, which stands for the controller. Heap (Elf) stands for
-- src/kheap.cpp, which kernel_heap fills. Host (Vmcs/Ioio) stands for the ports of the machine,
-- and a function for VMRUN.
--
-- Not modelled: the instructions of the processor (ports, model-specific registers, invlpg, the
-- jump to user mode, of which the arguments are kept), the boot loader's structures
-- (src/limine.h), the terminal (src/flanterm), ACPI, the instruction decoder, the NVMe and the IDE
-- drivers, and the parts of the kernel that the list above does not name.
pub mod Base
pub mod Bits
pub mod Counting
pub mod Common
pub mod Pmm
pub mod Paging
pub mod Gdt
pub mod Scheduler
pub mod Vfs
pub mod Ata
pub mod RamDisk
pub mod Cmos
pub mod Interrupts
pub mod Ps2
pub mod Fat32
pub mod KHeap
pub mod Ahci
pub mod Vmcs
pub mod Pci
pub mod Syscalls
pub mod Elf
