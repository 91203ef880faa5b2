-- ===== src/Mem.antt =====
-- Guest memory, src/vm_mem.c: its state and the host's calls, the table of mapped regions, byte
-- access, and guest page tables.
pub mod State
pub mod Gpa
pub mod Access
pub mod Paging
pub mod Tests
