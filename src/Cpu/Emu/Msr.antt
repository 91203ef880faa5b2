-- ===== src/Cpu/Emu/Msr.antt =====
-- `emu_wrmsr` and `emu_rdmsr`.
use masters_proj.Prelude.{
  true, ℕ, ◌+◌, ◌*◌, ◌/◌, ◌^◌, ◌≡◌, ◌≢◌, refl, ◌↔◌, arith, ap, ◌∙◌, bit_or, ◌==◌, if◌then◌else◌,
  u32, u64, ne→==-false,
}
use native.Mathlib.Decide.{ℕ_discrete}
use masters_proj.Prelude.Bits.{fields-bit_or}
use masters_proj.Cpu.State.{
  Reg, rip, rax, rcx, rdx, Field, guest_efer, guest_cr0, Hypervisor, Works, stored, rreg, wreg,
  rvmcs, rreg-wreg_same, rreg-wreg_other, rreg-write_vmcs, rvmcs-wreg, rvmcs-write_same,
}
use masters_proj.Cpu.Emu.{msr_efer, skip, emu_rdmsr, emu_wrmsr}

module _ (hv : Hypervisor) (works : Works hv) (c : hv.Vcpu) where
  -- A read of a register that succeeds does not keep the local's former value.
  stored-rreg : (old : ℕ) (r : Reg) → stored old (hv.read_register c r) ≡ rreg hv c r
  unfolding rreg
  stored-rreg old r = let (v, e, _) = works.reg_read c r in rw e refl

  pub rreg-skip : (n : ℕ) (r : Reg) → rip ≢ r → rreg hv (skip hv n c) r ≡ rreg hv c r
  unfolding skip
  rreg-skip n r ne = rreg-wreg_other hv works c _ rip r ne

  pub rip-skip : (n : ℕ) → rreg hv (skip hv n c) rip ≡ u64 (rreg hv c rip + n)
  unfolding skip
  rip-skip n = rreg-wreg_same hv works c _ rip (omega arith)

  pub rvmcs-skip :
      (n old : ℕ) (f : Field) → f ≢ guest_cr0 → rvmcs hv old (skip hv n c) f ≡ rvmcs hv old c f
  unfolding skip
  rvmcs-skip n old f ne = rvmcs-wreg hv works c _ old rip f ne

  wrmsr_eq : emu_wrmsr hv c ≡ (
      if u32 (rreg hv c rcx) == msr_efer
      then (
        0,
        skip hv 2 (
            hv.write_vmcs guest_efer
              (bit_or (u64 (u32 (rreg hv c rdx) * 2 ^ 32)) (u32 (rreg hv c rax)))
              c),
      )
      else (1, c))
  unfolding emu_wrmsr
  wrmsr_eq = rw (stored-rreg (rreg hv c rax) rcx, stored-rreg (rreg hv c rcx) rdx) refl

  -- On a CPU whose calls succeed, an MSR other than EFER stops the run with the CPU as it was, for
  -- reads and writes; and nothing else stops it.
  pub emu_msr-stop :
      ((emu_rdmsr hv c).0 ≡ 1 ↔ u32 (rreg hv c rcx) ≢ msr_efer)
      × ((emu_wrmsr hv c).0 ≡ 1 ↔ u32 (rreg hv c rcx) ≢ msr_efer)
      × (u32 (rreg hv c rcx) ≢ msr_efer → (emu_rdmsr hv c ≡ (1, c)) × (emu_wrmsr hv c ≡ (1, c)))
  unfolding emu_rdmsr
  emu_msr-stop = elim (ℕ_discrete (u32 (rreg hv c rcx)) msr_efer) [
    | yes e ↦
        let t : (u32 (rreg hv c rcx) == msr_efer) ≡ true = ground arith in
        rw (wrmsr_eq, t)
          (
            (λ h. absurd (omega arith), λ ne. absurd (ne e)),
            (λ h. absurd (omega arith), λ ne. absurd (ne e)),
            λ ne. absurd (ne e),
          )
    | no ne ↦
        rw (wrmsr_eq, ne→==-false _ _ ne)
          ((λ _. ne, λ _. refl), (λ _. ne, λ _. refl), λ _. (refl, refl))
  ]

  abbrev pub efer_value : ℕ
  efer_value = u32 (rreg hv c rdx) * 2 ^ 32 + u32 (rreg hv c rax)

  abbrev pub efer_set : hv.Vcpu
  efer_set = hv.write_vmcs guest_efer efer_value c

  wrmsr_efer : u32 (rreg hv c rcx) ≡ msr_efer → emu_wrmsr hv c ≡ (0, skip hv 2 efer_set)
  wrmsr_efer e =
      let t : (u32 (rreg hv c rcx) == msr_efer) ≡ true = ground arith in
      let wrap : u64 (u32 (rreg hv c rdx) * 2 ^ 32) ≡ u32 (rreg hv c rdx) * 2 ^ 32 = omega arith in
      rw
        (
          wrmsr_eq,
          t,
          wrap,
          fields-bit_or 32 (u32 (rreg hv c rax)) (u32 (rreg hv c rdx)) (omega arith),
        )
        refl

-- What `rdmsr` does to a CPU whose RCX names EFER.
module _ (hv : Hypervisor) (works : Works hv) (c : hv.Vcpu) (efer : ℕ)
    (at : u32 (rreg hv c rcx) ≡ msr_efer) (holds : rvmcs hv 0 c guest_efer ≡ efer) where
  abbrev pub loaded : hv.Vcpu
  loaded = wreg hv rdx (u32 (efer / 2 ^ 32)) (wreg hv rax (u32 efer) c)

  rdmsr_efer : emu_rdmsr hv c ≡ (0, skip hv 2 loaded)
  unfolding emu_rdmsr
  rdmsr_efer = let t : (u32 (rreg hv c rcx) == msr_efer) ≡ true = ground arith in rw (t, holds) refl

  rdmsr_regs :
      let r = emu_rdmsr hv c in
      (r.0 ≡ 0)
      × (rreg hv r.1 rax ≡ u32 efer)
      × (rreg hv r.1 rdx ≡ u32 (efer / 2 ^ 32))
      × (rreg hv r.1 rip ≡ u64 (rreg hv c rip + 2))
  rdmsr_regs =
      let c₁ = wreg hv rax (u32 efer) c in
      rw rdmsr_efer (
        refl,
        rreg-skip hv works loaded 2 rax (λ e. cc)
            ∙ rreg-wreg_other hv works c₁ (u32 (efer / 2 ^ 32)) rdx rax (λ e. cc)
            ∙ rreg-wreg_same hv works c (u32 efer) rax (omega arith),
        rreg-skip hv works loaded 2 rdx (λ e. cc)
            ∙ rreg-wreg_same hv works c₁ (u32 (efer / 2 ^ 32)) rdx (omega arith),
        rip-skip hv works loaded 2
            ∙ ap (λ n. u64 (n + 2))
                (rreg-wreg_other hv works c₁ (u32 (efer / 2 ^ 32)) rdx rip (λ e. cc)
                  ∙ rreg-wreg_other hv works c (u32 efer) rax rip (λ e. cc)),
      )

-- On a CPU whose calls succeed, `wrmsr` of EFER, and `rdmsr` of it next: neither stops the run,
-- EAX and EDX read back as they were written, and RIP has moved over both instructions.
pub emu_rdmsr-emu_wrmsr :
    (hv : Hypervisor) (works : Works hv) (c : hv.Vcpu)
    → u32 (rreg hv c rcx) ≡ msr_efer
    → let w = emu_wrmsr hv c in
      let r = emu_rdmsr hv w.1 in
      (w.0 ≡ 0)
      × (r.0 ≡ 0)
      × (rreg hv r.1 rax ≡ u32 (rreg hv c rax))
      × (rreg hv r.1 rdx ≡ u32 (rreg hv c rdx))
      × (rreg hv r.1 rip ≡ u64 (rreg hv c rip + 4))
emu_rdmsr-emu_wrmsr hv works c e =
    let c' = efer_set hv works c in
    let v = efer_value hv works c in
    let rcx_same =
      rreg-skip hv works c' 2 rcx (λ e. cc)
      ∙ rreg-write_vmcs hv works c v guest_efer rcx (λ e. cc) in
    let rip_next =
      rip-skip hv works c' 2
      ∙ ap (λ n. u64 (n + 2)) (rreg-write_vmcs hv works c v guest_efer rip (λ e. cc)) in
    let holds =
      rvmcs-skip hv works c' 2 0 guest_efer (λ e. cc)
      ∙ rvmcs-write_same hv works c v 0 guest_efer (omega arith) in
    let (ok, a, d, i) = rdmsr_regs hv works (skip hv 2 c') v (ap u32 rcx_same ∙ e) holds in
    rw (wrmsr_efer hv works c e) (refl, ok, a ∙ omega arith, d ∙ omega arith, i ∙ omega arith)
