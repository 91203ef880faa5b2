-- ===== src/Cpu/Setup.antt =====
-- The CPU that a guest starts with, `vcpu_setup_ia32` of src/vcpu.c: 32-bit protected mode with a
-- flat address space, whose descriptor table lies at guest physical address 0.
pub mod Start
pub mod Writes
use masters_proj.Prelude.{ℕ, ◌-◌, List, [], ◌∷◌, if◌then◌else◌}
use masters_proj.Prelude.Bytes.{le_bytes}
use masters_proj.Mem.State.{Mem}
use masters_proj.Mem.Access.{vm_mem_write, write64}
use masters_proj.Cpu.State.{
  Reg, rip, rflags, rax, rcx, rdx, rbx, rsi, rdi, rsp, rbp, Field, Hypervisor, wreg, ctrl_pin_based,
  ctrl_cpu_based, ctrl_cpu_based2, entry_controls, ctrl_vmexit_controls, ctrl_exc_bitmap,
  ctrl_cr0_mask, cr0_shadow, guest_cr0, guest_cr3, ctrl_cr4_mask, ctrl_cr4_shadow, guest_cr4,
  guest_cs, guest_cs_base, guest_cs_limit, guest_cs_ar, guest_ds, guest_ds_base, guest_ds_limit,
  guest_ds_ar, guest_es, guest_es_base, guest_es_limit, guest_es_ar, guest_fs, guest_fs_base,
  guest_fs_limit, guest_fs_ar, guest_gs, guest_gs_base, guest_gs_limit, guest_gs_ar, guest_ss,
  guest_ss_base, guest_ss_limit, guest_ss_ar, guest_tr, guest_tr_base, guest_tr_limit, guest_tr_ar,
  guest_ldtr, guest_ldtr_base, guest_ldtr_limit, guest_ldtr_ar, guest_gdtr_base, guest_gdtr_limit,
  guest_idtr_base, guest_idtr_limit, guest_efer,
}

-- CONF_START_ADDR and CONF_STACK_ADDR of src/conf.h.
abbrev pub start_addr : ℕ
start_addr = 0x8000

abbrev pub stack_addr : ℕ
stack_addr = 0x7000

-- The controls, control registers and segments.
abbrev pub segment_fields : List (Field × ℕ)
segment_fields =
    (ctrl_pin_based, 0x3f)
    ∷ (ctrl_cpu_based, 0xb5186dfa)
    ∷ (ctrl_cpu_based2, 0xaa)
    ∷ (entry_controls, 0x91ff)
    ∷ (ctrl_vmexit_controls, 0x236fff)
    ∷ (ctrl_exc_bitmap, 0x40000)
    ∷ (ctrl_cr0_mask, 0xe0000031)
    ∷ (cr0_shadow, 0x21)
    ∷ (guest_cr0, 0x31)
    ∷ (guest_cr3, 0)
    ∷ (ctrl_cr4_mask, 0x2000)
    ∷ (ctrl_cr4_shadow, 0)
    ∷ (guest_cr4, 0x2000)
    ∷ (guest_cs, 0x10)
    ∷ (guest_cs_base, 0)
    ∷ (guest_cs_limit, 0xffffffff)
    ∷ (guest_cs_ar, 0xc09b)
    ∷ (guest_ds, 0x18)
    ∷ (guest_ds_base, 0)
    ∷ (guest_ds_limit, 0xffffffff)
    ∷ (guest_ds_ar, 0xc093)
    ∷ (guest_es, 0x18)
    ∷ (guest_es_base, 0xffffffff)
    ∷ (guest_es_limit, 0xffffffff)
    ∷ (guest_es_ar, 0xc093)
    ∷ (guest_fs, 0)
    ∷ (guest_fs_base, 0)
    ∷ (guest_fs_limit, 0xffff)
    ∷ (guest_fs_ar, 0x93)
    ∷ (guest_gs, 0)
    ∷ (guest_gs_base, 0)
    ∷ (guest_gs_limit, 0xffff)
    ∷ (guest_gs_ar, 0x93)
    ∷ (guest_ss, 0x18)
    ∷ (guest_ss_base, 0)
    ∷ (guest_ss_limit, 0xffffffff)
    ∷ (guest_ss_ar, 0xc093)
    ∷ (guest_tr, 0)
    ∷ (guest_tr_base, 0)
    ∷ (guest_tr_limit, 0)
    ∷ (guest_tr_ar, 0x8b)
    ∷ (guest_ldtr, 0)
    ∷ (guest_ldtr_base, 0)
    ∷ (guest_ldtr_limit, 0xffff)
    ∷ (guest_ldtr_ar, 0x82)
    ∷ []

-- The descriptor tables and EFER.
abbrev pub table_fields : List (Field × ℕ)
table_fields =
    (guest_gdtr_base, 0)
    ∷ (guest_gdtr_limit, 0x1f)
    ∷ (guest_idtr_base, 0)
    ∷ (guest_idtr_limit, 0xffff)
    ∷ (guest_efer, 0)
    ∷ []

-- The four words of the descriptor table: two empty ones, the code segment, the data segment.
abbrev pub descriptors : List (ℕ × ℕ)
descriptors = (0, 0) ∷ (8, 0) ∷ (16, 0x00cf9a000000ffff) ∷ (24, 0x00cf92000000ffff) ∷ []

-- The registers that the guest may access without an exit, in the order they are enabled.
abbrev pub native_msrs : List ℕ
native_msrs =
    0xc0000082 ∷ 0xc0000083 ∷ 0xc0000081 ∷ 0xc0000084 ∷ 0xc0000102 ∷ 0xc0000101 ∷ 0xc0000100 ∷ 0x174
    ∷ 0x175 ∷ 0x176 ∷ 0x010 ∷ 0xc0000103 ∷ []

abbrev pub start_regs : List (Reg × ℕ)
start_regs =
    (rip, start_addr)
    ∷ (rflags, 2)
    ∷ (rax, 0)
    ∷ (rcx, 0)
    ∷ (rdx, 0)
    ∷ (rbx, 0)
    ∷ (rsi, 0)
    ∷ (rdi, 0)
    ∷ (rsp, stack_addr - 4)
    ∷ (rbp, 0)
    ∷ []

unfoldable pub write_words : List (ℕ × ℕ) → Mem → Mem
write_words [] m = m
write_words ((gpa, v) ∷ ws) m = write_words ws (write64 gpa v m)

module _ (hv : Hypervisor) where
  unfoldable pub write_fields : List (Field × ℕ) → hv.Vcpu → hv.Vcpu
  write_fields [] c = c
  write_fields ((f, v) ∷ fs) c = write_fields fs (hv.write_vmcs f v c)

  unfoldable pub write_regs : List (Reg × ℕ) → hv.Vcpu → hv.Vcpu
  write_regs [] c = c
  write_regs ((r, v) ∷ rs) c = write_regs rs (wreg hv r v c)

  -- The chain of `||` stops at the first call that fails; `err` is then 1.
  unfoldable pub enable_msrs : List ℕ → hv.Vcpu → ℕ × hv.Vcpu
  enable_msrs [] c = (0, c)
  enable_msrs (msr ∷ msrs) c =
      let r = hv.enable_native_msr msr c in
      let rest = enable_msrs msrs r.1 in if r.0 then rest else (1, r.1)

  -- The result `err`, the CPU and the memory. The four bytes under the stack's top get the address
  -- of the root table.
  unfoldable pub vcpu_setup_ia32 : hv.Vcpu → Mem → ℕ × hv.Vcpu × Mem
  vcpu_setup_ia32 c m =
      let c' = write_fields table_fields (write_fields segment_fields c) in
      let r = enable_msrs native_msrs c' in
      let m' = write_words descriptors m in
      (
        r.0,
        write_regs start_regs r.1,
        (vm_mem_write (stack_addr - 4) (le_bytes 4 m'.pml4_gpa) m').1,
      )
