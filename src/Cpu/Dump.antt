-- ===== src/Cpu/Dump.antt =====
-- `vcpu_dump` of src/vcpu.c: what it prints of a CPU.
pub mod Start
use masters_proj.Prelude.{ℕ, List, [], ◌∷◌}
use masters_proj.Logging.{Logger, dlog}
use masters_proj.Cpu.State.{
  Reg, Field, Hypervisor, stored, rip, rflags, rax, rcx, rdx, rbx, rsi, rdi, rsp, rbp,
  ctrl_pin_based, ctrl_cpu_based, ctrl_cpu_based2, entry_controls, ctrl_vmexit_controls,
  ctrl_exc_bitmap, ctrl_cr0_mask, cr0_shadow, guest_cr0, guest_cr3, ctrl_cr4_mask, ctrl_cr4_shadow,
  guest_cr4, guest_cs, guest_cs_base, guest_cs_limit, guest_cs_ar, guest_ds, guest_ds_base,
  guest_ds_limit, guest_ds_ar, guest_es, guest_es_base, guest_es_limit, guest_es_ar, guest_fs,
  guest_fs_base, guest_fs_limit, guest_fs_ar, guest_gs, guest_gs_base, guest_gs_limit, guest_gs_ar,
  guest_ss, guest_ss_base, guest_ss_limit, guest_ss_ar, guest_tr, guest_tr_base, guest_tr_limit,
  guest_tr_ar, guest_ldtr, guest_ldtr_base, guest_ldtr_limit, guest_ldtr_ar, guest_gdtr_base,
  guest_gdtr_limit, guest_idtr_base, guest_idtr_limit, guest_efer,
}

-- A message: a field or a register, and its value.
pub data CpuLine : Type 0 where
  field_line : Field → ℕ → CpuLine
  reg_line : Reg → ℕ → CpuLine

-- The fields and the registers, in the order of the calls.
abbrev pub dumped_fields : List Field
dumped_fields =
    ctrl_pin_based ∷ ctrl_cpu_based ∷ ctrl_cpu_based2 ∷ entry_controls ∷ ctrl_vmexit_controls
    ∷ ctrl_exc_bitmap ∷ ctrl_cr0_mask ∷ cr0_shadow ∷ guest_cr0 ∷ guest_cr3 ∷ ctrl_cr4_mask
    ∷ ctrl_cr4_shadow ∷ guest_cr4 ∷ guest_cs ∷ guest_cs_base ∷ guest_cs_limit ∷ guest_cs_ar
    ∷ guest_ds ∷ guest_ds_base ∷ guest_ds_limit ∷ guest_ds_ar ∷ guest_es ∷ guest_es_base
    ∷ guest_es_limit ∷ guest_es_ar ∷ guest_fs ∷ guest_fs_base ∷ guest_fs_limit ∷ guest_fs_ar
    ∷ guest_gs ∷ guest_gs_base ∷ guest_gs_limit ∷ guest_gs_ar ∷ guest_ss ∷ guest_ss_base
    ∷ guest_ss_limit ∷ guest_ss_ar ∷ guest_tr ∷ guest_tr_base ∷ guest_tr_limit ∷ guest_tr_ar
    ∷ guest_ldtr ∷ guest_ldtr_base ∷ guest_ldtr_limit ∷ guest_ldtr_ar ∷ guest_gdtr_base
    ∷ guest_gdtr_limit ∷ guest_idtr_base ∷ guest_idtr_limit ∷ guest_efer ∷ []

abbrev pub dumped_regs : List Reg
dumped_regs = rip ∷ rflags ∷ rax ∷ rcx ∷ rdx ∷ rbx ∷ rsi ∷ rdi ∷ rsp ∷ rbp ∷ []

module _ (hv : Hypervisor) (c : hv.Vcpu) where
  -- `VMCS_DUMP_VALUE` of each field: the local `value` and the log. A read that fails leaves the
  -- value of the one before.
  unfoldable pub dump_fields : List Field → (value : ℕ) → Logger CpuLine → ℕ × Logger CpuLine
  dump_fields [] value l = (value, l)
  dump_fields (f ∷ fs) value l =
      let value' = stored value (hv.read_vmcs c f) in
      dump_fields fs value' (dlog (field_line f value') l)

  -- `VCPU_DUMP_VALUE` of each register.
  unfoldable pub dump_regs : List Reg → (value : ℕ) → Logger CpuLine → ℕ × Logger CpuLine
  dump_regs [] value l = (value, l)
  dump_regs (r ∷ rs) value l =
      let value' = stored value (hv.read_register c r) in
      dump_regs rs value' (dlog (reg_line r value') l)

  unfoldable pub vcpu_dump : Logger CpuLine → Logger CpuLine
  unfolding dump_fields dump_regs
  vcpu_dump l = let r = dump_fields dumped_fields 0 l in (dump_regs dumped_regs r.0 r.1).1
