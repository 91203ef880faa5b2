-- ===== src/Cpu/State.antt =====
-- Registers, fields of the control structure, and the calls of the Hypervisor framework that read
-- and write them; `rreg` and `wreg` of src/vcpu.c.
use masters_proj.Prelude.{ℕ, ◌^◌, ◌<◌, ◌≡◌, ◌≢◌, refl, Bool, true, Option, none, some}
use masters_proj.Mem.State.{Mem}

-- The registers of `hv_x86_reg_t` that the program names.
pub data Reg : Type 0 where
  rip rflags rax rcx rdx rbx rsi rdi rsp rbp r8 r9 r10 r11 r12 r13 r14 r15 cr0 : Reg

-- The fields of the control structure that the program reads or writes.
pub data Field : Type 0 where
  exit_reason exit_qualification exit_instr_len idt_vector_info : Field
  entry_controls cr0_shadow guest_cr0 guest_efer : Field
  ctrl_pin_based ctrl_cpu_based ctrl_cpu_based2 ctrl_vmexit_controls ctrl_exc_bitmap : Field
  ctrl_cr0_mask guest_cr3 ctrl_cr4_mask ctrl_cr4_shadow guest_cr4 guest_cs guest_cs_base : Field
  guest_cs_limit guest_cs_ar guest_ds guest_ds_base guest_ds_limit guest_ds_ar guest_es : Field
  guest_es_base guest_es_limit guest_es_ar guest_fs guest_fs_base guest_fs_limit : Field
  guest_fs_ar guest_gs guest_gs_base guest_gs_limit guest_gs_ar guest_ss guest_ss_base : Field
  guest_ss_limit guest_ss_ar guest_tr guest_tr_base guest_tr_limit guest_tr_ar guest_ldtr : Field
  guest_ldtr_base guest_ldtr_limit guest_ldtr_ar guest_gdtr_base guest_gdtr_limit : Field
  guest_idtr_base guest_idtr_limit : Field

-- The values of VMCS_RO_EXIT_REASON that the program tells apart, VMX_REASON_...
pub data ExitReason : Type 0 where
  exc_nmi irq vmcall hlt ept_violation rdmsr wrmsr mov_cr cpuid other : ExitReason

-- The framework's calls on one virtual CPU. `none` is an error, on which the result is not stored;
-- the flag of a write or a run is false on an error. A run of the guest changes its CPU and its
-- memory. The framework's header gives each exit reason its number.
pub record Hypervisor : Type 1 where
  pub Vcpu : Type 0
  pub read_register : Vcpu → Reg → Option ℕ
  pub write_register : Reg → ℕ → Vcpu → Bool × Vcpu
  pub read_vmcs : Vcpu → Field → Option ℕ
  pub write_vmcs : Field → ℕ → Vcpu → Vcpu
  pub enable_native_msr : (msr : ℕ) → Vcpu → Bool × Vcpu
  pub run : Vcpu → Mem → Bool × Vcpu × Mem
  pub reason_of : ℕ → ExitReason

-- What the program relies on: reads and writes of a valid CPU succeed, and each register or field
-- holds what was last written to it. (The register CR0 and its guest field are one.)
pub record Works (hv : Hypervisor) : Type 0 where
  pub write_ok : (r : Reg) (v : ℕ) (c : hv.Vcpu) → (hv.write_register r v c).0 ≡ true
  pub reg_read : (c : hv.Vcpu) (r : Reg) → (v : ℕ) × (hv.read_register c r ≡ some v) × (v < 2 ^ 64)
  pub reg_same :
      (r : Reg) (v : ℕ) (c : hv.Vcpu)
      → v < 2 ^ 64
      → hv.read_register (hv.write_register r v c).1 r ≡ some v
  pub reg_other :
      (r s : Reg) (v : ℕ) (c : hv.Vcpu)
      → r ≢ s
      → hv.read_register (hv.write_register r v c).1 s ≡ hv.read_register c s
  pub vmcs_read : (c : hv.Vcpu) (f : Field) → (v : ℕ) × (hv.read_vmcs c f ≡ some v) × (v < 2 ^ 64)
  pub vmcs_same :
      (f : Field) (v : ℕ) (c : hv.Vcpu) → v < 2 ^ 64 → hv.read_vmcs (hv.write_vmcs f v c) f ≡ some v
  pub vmcs_other :
      (f g : Field) (v : ℕ) (c : hv.Vcpu)
      → f ≢ g
      → hv.read_vmcs (hv.write_vmcs f v c) g ≡ hv.read_vmcs c g
  pub reg_vmcs :
      (f : Field) (v : ℕ) (c : hv.Vcpu) (r : Reg)
      → r ≢ cr0
      → hv.read_register (hv.write_vmcs f v c) r ≡ hv.read_register c r
  pub vmcs_reg :
      (r : Reg) (v : ℕ) (c : hv.Vcpu) (f : Field)
      → f ≢ guest_cr0
      → hv.read_vmcs (hv.write_register r v c).1 f ≡ hv.read_vmcs c f

-- A local that a read sets, unless it fails.
abbrev pub stored : ℕ → Option ℕ → ℕ
stored old none = old
stored old (some v) = v

-- A local that holds 0 until a call sets it, as in `rreg`.
unfoldable pub rreg : (hv : Hypervisor) → hv.Vcpu → Reg → ℕ
rreg hv c r = stored 0 (hv.read_register c r)

unfoldable pub wreg : (hv : Hypervisor) → Reg → ℕ → hv.Vcpu → hv.Vcpu
wreg hv r v c = (hv.write_register r v c).1

-- `hv_vmx_vcpu_read_vmcs` into a local that holds `old`.
unfoldable pub rvmcs : (hv : Hypervisor) → (old : ℕ) → hv.Vcpu → Field → ℕ
rvmcs hv old c f = stored old (hv.read_vmcs c f)

-- What a register or a field holds on a CPU whose calls succeed.
module _ (hv : Hypervisor) (works : Works hv) (c : hv.Vcpu) (v : ℕ) where
  pub rreg-wreg_same : (r : Reg) → v < 2 ^ 64 → rreg hv (wreg hv r v c) r ≡ v
  unfolding rreg wreg
  rreg-wreg_same r lt = rw (works.reg_same r v c lt) refl

  pub rreg-wreg_other : (r s : Reg) → r ≢ s → rreg hv (wreg hv r v c) s ≡ rreg hv c s
  unfolding rreg wreg
  rreg-wreg_other r s ne = rw (works.reg_other r s v c ne) refl

  pub rreg-write_vmcs :
      (f : Field) (r : Reg) → r ≢ cr0 → rreg hv (hv.write_vmcs f v c) r ≡ rreg hv c r
  unfolding rreg
  rreg-write_vmcs f r ne = rw (works.reg_vmcs f v c r ne) refl

  pub rvmcs-wreg :
      (old : ℕ) (r : Reg) (f : Field)
      → f ≢ guest_cr0
      → rvmcs hv old (wreg hv r v c) f ≡ rvmcs hv old c f
  unfolding rvmcs wreg
  rvmcs-wreg old r f ne = rw (works.vmcs_reg r v c f ne) refl

  pub rvmcs-write_same :
      (old : ℕ) (f : Field) → v < 2 ^ 64 → rvmcs hv old (hv.write_vmcs f v c) f ≡ v
  unfolding rvmcs
  rvmcs-write_same old f lt = rw (works.vmcs_same f v c lt) refl

  pub rvmcs-write_other :
      (old : ℕ) (f g : Field) → f ≢ g → rvmcs hv old (hv.write_vmcs f v c) g ≡ rvmcs hv old c g
  unfolding rvmcs
  rvmcs-write_other old f g ne = rw (works.vmcs_other f g v c ne) refl

pub rreg-lt : (hv : Hypervisor) → Works hv → (c : hv.Vcpu) (r : Reg) → rreg hv c r < 2 ^ 64
unfolding rreg
rreg-lt hv works c r = let (v, e, lt) = works.reg_read c r in rw e lt

pub rvmcs-lt :
    (hv : Hypervisor) → Works hv → (old : ℕ) (c : hv.Vcpu) (f : Field) → rvmcs hv old c f < 2 ^ 64
unfolding rvmcs
rvmcs-lt hv works old c f = let (v, e, lt) = works.vmcs_read c f in rw e lt
