-- ===== src/Lib.antt =====
-- Hvexec: a program that runs an application inside a hardware virtual machine and answers its
-- system calls in the host, so that a plugin can watch, filter or change them.
--
-- The parts and how they interact. src/vm_mem.c keeps the guest's physical memory as a list of
-- regions of host memory, and builds and walks the guest's page tables in that memory. src/vcpu.c
-- sets up a virtual CPU and runs it: every exit of the guest is handled by src/emu.c, which emulates
-- single instructions, or by src/emu_syscall.c, which finds a call's buffers through src/vm_mem.c
-- and hands the call to a plugin's callback or to the host. src/hvexec.c reads the options, calls
-- these parts in order, loads a kernel and the application with src/loader.c, which asks
-- src/macho_parser.c for the application's entry point, puts the arguments into guest memory and
-- on the stack, runs the guest and cleans up.
--
-- Mem/State: the globals of src/vm_mem.c, the bytes of the host process, and the host's calls
--   (valloc, malloc, free, hv_vm_map, hv_vm_unmap) as an interface `Host` with a log of the calls.
-- Logging: src/logging.h and src/logging.c, with the messages printed so far as a list of the data
--   that they show.
-- Mem/Gpa: find_free_mem_region, map_gpa, gpa_to_hva and vm_mem_alloc; the linked list of regions
--   is a list, and the pointer at which map_gpa stops is the split of the list at that place.
--   Mem/Gpa/Dump is vm_mem_dump.
-- Mem/Access: vm_mem_read and vm_mem_write, byte by byte. Mem/Access/Abstract has the partial map
--   from addresses to bytes that they implement.
-- Mem/Paging: decode_gva, map_gva, gva_to_gpa, vm_mem_verify and vm_mem_init. Mem/Paging/Tree says
--   what a tree of page tables in guest memory is, Walk that gva_to_gpa follows it, Level to Map
--   that map_gva extends it.
-- Cpu/State: registers, control fields, and the Hypervisor framework as an interface `Hypervisor`,
--   with what the program relies on as the laws `Works`; rreg and wreg of src/vcpu.c.
-- Cpu/Setup: vcpu_setup_ia32. Cpu/Dump: vcpu_dump. Cpu/Run: push, push32, push64 and vcpu_run of
--   src/vcpu.c; Cpu/Run/Service follows the bytes of a read and a write between guest and host,
--   Cpu/Run/Session those of all writes of a run.
-- Cpu/Emu: src/emu.c. Cpu/Syscall: src/emu_syscall.c with the plugin's callbacks of
--   include/hvexec_plugin.h and the host's calls as functions on the host's bytes and the world.
-- Plugin: load_plugin of src/plugin.c over an interface `Linker` of the dynamic linker.
--   Plugin/Redirect is the plugin test/plugin.c, over an interface `Libc` of the C library.
-- MachO: src/macho_parser.c over the formats of <mach-o/loader.h> and the calls of <stdio.h> as
--   interfaces `Format` and `Stdio` (MachO/Library); MachO/Walk finds the first LC_MAIN in the bytes
--   of a file, MachO/Entry that read_entry_point_cmd does, and MachO/Dump has the functions that
--   only log.
-- Loader: load_raw and load_mach_obj of src/loader.c over an interface `System` of the calls on
--   files. Loader/Pages says what `mmap` of a file promises, Raw and Object what the guest sees of a
--   file, Entry where the application starts.
-- Main: main of src/hvexec.c, a `goto` as a step that jumps to a label; Main/Options its options,
--   Main/Args the layout of the arguments. Main/Calls follows the calls on the virtual machine along
--   all paths; Main/Low, Boot, Stages and Ready follow guest memory from vm_mem_init to the run,
--   Run and Output the whole of main.
-- Prelude: names of the libraries, Boolean tests, machine words, lists, bits and bytes.
--
-- Numbers. A uint64_t, size_t or pointer is a natural number with its wrap written out; an int that
-- holds a descriptor or a flag word is its bit pattern. The counters of vm_mem_read and
-- vm_mem_write, of type int in the source, have no bound here: the two agree on buffers of less than
-- 2 ^ 31 bytes, a bound that the statements on buffers of any length have among their conditions.
-- The address of a block is not wrapped. load_raw does not test for MAP_FAILED, and the program
-- would fault as it reads from there; there is no fault in the model, where map_raw reads on, so
-- that the statement on all of load_raw's ends excludes this answer.
--
-- Bounds and fuel. The loops of src/vm_mem.c are structural recursion. vcpu_run goes on for as long
-- as the guest does: it takes fuel, one unit for each exit, and Cpu/Run/Loop has it as a relation
-- with no fuel, too. The page tables are built below 2 ^ 52, the reach of an entry, for addresses below 2 ^ 48.
-- The walk over load commands is recursion on their number; main passes its fuel to vcpu_run.
--
-- What is not modelled: src/boot.asm runs in the guest; the messages of the log are left out, but
-- for those of vm_mem_dump and vcpu_dump and of the functions of src/macho_parser.c that only log,
-- and so is usage; unmap_gva, unmap_gpa and vm_mem_destroy are empty; the programs test/test_*.c are
-- guests to try the program with. Memory from calloc that is not freed is not counted, and getopt is
-- a parameter: main takes the options that it returns.
pub mod Prelude
pub mod Logging
pub mod Mem
pub mod Cpu
pub mod Plugin
pub mod MachO
pub mod Loader
pub mod Main
