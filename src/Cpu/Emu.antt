-- ===== src/Cpu/Emu.antt =====
-- Emulated instructions, src/emu.c. Each function returns its `stop` and the CPU after it.
pub mod Msr
pub mod LongMode
pub mod ControlReg
use masters_proj.Prelude.{
  ℕ, ◌+◌, ◌*◌, ◌/◌, ◌^◌, Bool, true, false, not, List, [], ◌∷◌, Option, none, some, bit_and, bit_or,
  ◌==◌, if◌then◌else◌, u32, u64, get_elem?,
}
use masters_proj.Cpu.State.{
  Reg, rip, rax, rcx, rdx, rbx, rsi, rdi, rsp, rbp, r8, r9, r10, r11, r12, r13, r14, r15, cr0,
  Field, exit_qualification, entry_controls, cr0_shadow, guest_efer, Hypervisor, stored, rreg, wreg,
  rvmcs,
}

-- The EFER register's number, and the bits of src/emu.c.
abbrev pub msr_efer : ℕ
msr_efer = 0xc0000080

abbrev pub efer_lme : ℕ
efer_lme = 0x100

-- EFER_LMA | EFER_NXE | EFER_SCE.
abbrev pub efer_long : ℕ
efer_long = bit_or (bit_or 0x400 0x800) 0x1

abbrev pub entry_guest_lma : ℕ
entry_guest_lma = 0x200

-- The cases of `vmx_get_guest_reg`, in order.
abbrev pub guest_regs : List Reg
guest_regs =
    rax ∷ rcx ∷ rdx ∷ rbx ∷ rsp ∷ rbp ∷ rsi ∷ rdi ∷ r8 ∷ r9 ∷ r10 ∷ r11 ∷ r12 ∷ r13 ∷ r14 ∷ r15 ∷ []

module _ (hv : Hypervisor) where
  -- The value of the register found; 0 for a number that no register has.
  abbrev pub reg_value : hv.Vcpu → Option Reg → ℕ
  reg_value c none = 0
  reg_value c (some r) = rreg hv c r

  unfoldable pub vmx_get_guest_reg : hv.Vcpu → (ident : ℕ) → ℕ
  vmx_get_guest_reg c ident = reg_value c (get_elem? guest_regs ident)

  -- `rip += n`.
  unfoldable pub skip : ℕ → hv.Vcpu → hv.Vcpu
  skip n c = wreg hv rip (u64 (rreg hv c rip + n)) c

  unfoldable pub emu_rdmsr : hv.Vcpu → ℕ × hv.Vcpu
  emu_rdmsr c =
      let efer = rvmcs hv 0 c guest_efer in
      if u32 (rreg hv c rcx) == msr_efer
      then (0, skip 2 (wreg hv rdx (u32 (efer / 2 ^ 32)) (wreg hv rax (u32 efer) c)))
      else (1, c)

  -- The local `tmp` takes the three registers in turn.
  unfoldable pub emu_wrmsr : hv.Vcpu → ℕ × hv.Vcpu
  emu_wrmsr c =
      let tmp = rreg hv c rax in
      let tmp' = stored tmp (hv.read_register c rcx) in
      let eax = u32 tmp in
      let edx = u32 (stored tmp' (hv.read_register c rdx)) in
      if u32 tmp' == msr_efer
      then (0, skip 2 (hv.write_vmcs guest_efer (bit_or (u64 (edx * 2 ^ 32)) eax) c))
      else (1, c)

  -- With paging and LME on, long mode is made active. `junk` is what the locals `efer` and
  -- `entryctls` hold before they are set.
  unfoldable pub enter_long_mode : (junk : ℕ) → hv.Vcpu → hv.Vcpu
  enter_long_mode junk c =
      let efer = rvmcs hv junk c guest_efer in
      let c' = hv.write_vmcs guest_efer (bit_or efer efer_long) c in
      if bit_and efer efer_lme == 0
      then c
      else hv.write_vmcs entry_controls (bit_or (rvmcs hv junk c' entry_controls) entry_guest_lma)
          c'

  -- `mov cr0, reg`.
  unfoldable pub emu_mov_cr0 : (junk regval : ℕ) → hv.Vcpu → hv.Vcpu
  emu_mov_cr0 junk regval c =
      let c' = wreg hv cr0 regval (hv.write_vmcs cr0_shadow regval c) in
      skip 3 (if bit_and regval 0x80000000 == 0 then c' else enter_long_mode junk c')

  -- Only a move to CR0 is emulated; any other access leaves the CPU as it is. `stop` is always 0.
  unfoldable pub emu_mov_cr : (junk : ℕ) → hv.Vcpu → ℕ × hv.Vcpu
  emu_mov_cr junk c =
      let q = rvmcs hv 0 c exit_qualification in
      if bit_and q 0xf == 0
      then (if bit_and q 0xf0 == 0
          then (0, emu_mov_cr0 junk (vmx_get_guest_reg c (bit_and (q / 2 ^ 8) 0xf)) c)
          else (0, c))
      else (0, c)

  -- What `cpuid` answers to the leaf in RAX.
  unfoldable pub cpuid_leaf : hv.Vcpu → hv.Vcpu
  cpuid_leaf c =
      let leaf = rreg hv c rax in
      if leaf == 0x80000000
      then wreg hv rax 0x80000001 c
      else if leaf == 0x80000001
      then wreg hv rdx (2 ^ 29) c
      else c

  unfoldable pub emu_cpuid : hv.Vcpu → ℕ × hv.Vcpu
  emu_cpuid c = (0, skip 2 (cpuid_leaf c))
