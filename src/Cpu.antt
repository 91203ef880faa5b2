-- ===== src/Cpu.antt =====
-- The virtual CPU: src/vcpu.c, src/emu.c and src/emu_syscall.c over the hypervisor's interface.
pub mod State
pub mod Setup
pub mod Dump
pub mod Emu
pub mod Syscall
pub mod Run
pub mod Tests
