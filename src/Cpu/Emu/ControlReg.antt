-- ===== src/Cpu/Emu/ControlReg.antt =====
-- `emu_mov_cr`.
use masters_proj.Prelude.{
  ℕ, ◌+◌, ◌*◌, ◌/◌, ◌%◌, ◌^◌, ◌<◌, ◌≡◌, ◌≢◌, refl, ◌⊎◌, inl, inr, arith, ap, sym, ◌∙◌, bit_and,
  bit_or, Option, none, some, get_elem?, u64, ne→==-false,
}
use native.Mathlib.Decide.{ℕ_discrete}
use masters_proj.Prelude.Bits.{bit_and-low, bit_and-high}
use masters_proj.Prelude.{List, [], ◌∷◌, length, zero, suc}
use masters_proj.Cpu.State.{
  Reg, rax, rcx, rdx, rbx, rsp, rbp, rsi, rdi, r8, r9, r10, r11, r12, r13, r14, r15, rip, Field,
  cr0, guest_cr0, cr0_shadow, guest_efer, entry_controls, exit_qualification, Hypervisor, Works,
  rreg, wreg, rvmcs, rreg-wreg_other, rreg-write_vmcs, rvmcs-wreg, rvmcs-write_same,
  rvmcs-write_other, rreg-lt, rreg-wreg_same, rflags,
}
use masters_proj.Cpu.Emu.{
  guest_regs, efer_lme, efer_long, entry_guest_lma, vmx_get_guest_reg, skip, emu_mov_cr,
  emu_mov_cr0, enter_long_mode,
}
use masters_proj.Cpu.Emu.Msr.{rip-skip, rreg-skip, rvmcs-skip}
use masters_proj.Cpu.Emu.LongMode.{
  enter_long_mode-Entered, enter_long_mode-off, enter_long_mode-on, long_efer,
}

-- The number of a general register in the encoding of instructions.
abbrev pub number_of : Reg → Option ℕ
number_of rax = some 0
number_of rcx = some 1
number_of rdx = some 2
number_of rbx = some 3
number_of rsp = some 4
number_of rbp = some 5
number_of rsi = some 6
number_of rdi = some 7
number_of r8 = some 8
number_of r9 = some 9
number_of r10 = some 10
number_of r11 = some 11
number_of r12 = some 12
number_of r13 = some 13
number_of r14 = some 14
number_of r15 = some 15
number_of rip = none
number_of rflags = none
number_of cr0 = none

-- Registers in the order of their numbers, from `i` on.
abbrev Numbered : ℕ → List Reg → Type 0
Numbered i [] = Unit
Numbered i (r ∷ rs) = (number_of r ≡ some i) × Numbered (suc i) rs

Numbered-get_elem? :
    (i : ℕ) (rs : List Reg) (n : ℕ)
    → Numbered i rs
    → n < length rs
    → (r : Reg) × (get_elem? rs n ≡ some r) × (number_of r ≡ some (i + n))
Numbered-get_elem? i [] n h lt = absurd (omega arith)
Numbered-get_elem? i (r ∷ rs) zero h lt = (r, refl, h.0 ∙ ap some (omega arith))
Numbered-get_elem? i (r ∷ rs) (suc n) h lt =
    let (s, e, k) = Numbered-get_elem? (suc i) rs n h.1 (omega arith) in
    (s, e, k ∙ ap some (omega arith))

guest_regs-Numbered : Numbered 0 guest_regs
guest_regs-Numbered = (
  refl,
  (
    refl,
    (
      refl,
      (
        refl,
        (
          refl,
          (
            refl,
            (refl, (refl, (refl, (refl, (refl, (refl, (refl, (refl, (refl, (refl, tt)))))))))),
          ),
        ),
      ),
    ),
  ),
)

-- The register that an exit for a move to CR0 names.
abbrev operand : (hv : Hypervisor) → hv.Vcpu → ℕ
operand hv c = vmx_get_guest_reg hv c (bit_and (rvmcs hv 0 c exit_qualification / 2 ^ 8) 0xf)

module _ (hv : Hypervisor) (works : Works hv) (junk : ℕ) (c : hv.Vcpu) where
  mov_cr_zero :
      rvmcs hv 0 c exit_qualification % 256 ≡ 0
      → emu_mov_cr hv junk c ≡ (0, emu_mov_cr0 hv junk (operand hv c) c)
  unfolding emu_mov_cr
  mov_cr_zero z =
      let q = rvmcs hv 0 c exit_qualification in
      let lo : bit_and q 15 ≡ 0 = bit_and-low 4 q ∙ omega arith in
      let hi : bit_and q 240 ≡ 0 =
        bit_and-high 4 q 15 ∙ ap (λ x. x * 16) (bit_and-low 4 (q / 16)) ∙ omega arith in
      rw (lo, hi) refl

  -- The CPU between the writes of CR0 and the step over the instruction.
  abbrev shadowed : ℕ → hv.Vcpu
  shadowed v = wreg hv cr0 v (hv.write_vmcs cr0_shadow v c)

  rip-shadowed : (v : ℕ) → rreg hv (shadowed v) rip ≡ rreg hv c rip
  rip-shadowed v =
      rreg-wreg_other hv works (hv.write_vmcs cr0_shadow v c) v cr0 rip (λ e. cc)
      ∙ rreg-write_vmcs hv works c v cr0_shadow rip (λ e. cc)

  rvmcs-shadowed :
      (v old : ℕ) (f : Field)
      → f ≢ guest_cr0
      → cr0_shadow ≢ f
      → rvmcs hv old (shadowed v) f ≡ rvmcs hv old c f
  rvmcs-shadowed v old f n₁ n₂ =
      rvmcs-wreg hv works (hv.write_vmcs cr0_shadow v c) v old cr0 f n₁
      ∙ rvmcs-write_other hv works c v old cr0_shadow f n₂

  shadow-shadowed : (v old : ℕ) → v < 2 ^ 64 → rvmcs hv old (shadowed v) cr0_shadow ≡ v
  shadow-shadowed v old lt =
      rvmcs-wreg hv works (hv.write_vmcs cr0_shadow v c) v old cr0 cr0_shadow (λ e. cc)
      ∙ rvmcs-write_same hv works c v old cr0_shadow lt

-- What a move of `v` to CR0 gives.
pub record Cr0Written (hv : Hypervisor) (v : ℕ) (c c' : hv.Vcpu) : Type 0 where
  pub next : rreg hv c' rip ≡ u64 (rreg hv c rip + 3)
  pub shadow : rvmcs hv 0 c' cr0_shadow ≡ v
  pub on :
      bit_and v 0x80000000 ≢ 0
      → bit_and (rvmcs hv 0 c guest_efer) 0x100 ≢ 0
      → (rvmcs hv 0 c' guest_efer ≡ bit_or (rvmcs hv 0 c guest_efer) 0xc01)
        × (rvmcs hv 0 c' entry_controls ≡ bit_or (rvmcs hv 0 c entry_controls) 0x200)
  pub off :
      (bit_and v 0x80000000 ≡ 0) ⊎ (bit_and (rvmcs hv 0 c guest_efer) 0x100 ≡ 0)
      → (rvmcs hv 0 c' guest_efer ≡ rvmcs hv 0 c guest_efer)
        × (rvmcs hv 0 c' entry_controls ≡ rvmcs hv 0 c entry_controls)

module _ (hv : Hypervisor) (works : Works hv) (junk : ℕ) (c : hv.Vcpu) where
  module _ (v : ℕ) (lt : v < 2 ^ 64) where
    abbrev s₀ : hv.Vcpu
    s₀ = shadowed hv works junk c v

    efer₀ : rvmcs hv 0 s₀ guest_efer ≡ rvmcs hv 0 c guest_efer
    efer₀ = rvmcs-shadowed hv works junk c v 0 guest_efer (λ e. cc) (λ e. cc)

    controls₀ : rvmcs hv 0 s₀ entry_controls ≡ rvmcs hv 0 c entry_controls
    controls₀ = rvmcs-shadowed hv works junk c v 0 entry_controls (λ e. cc) (λ e. cc)

    shadow₀ : rvmcs hv 0 s₀ cr0_shadow ≡ v
    shadow₀ = shadow-shadowed hv works junk c v 0 lt

    -- The step over the instruction keeps the fields.
    skipped-Cr0Written :
        (d : hv.Vcpu)
        → rreg hv d rip ≡ rreg hv s₀ rip
        → rvmcs hv 0 d cr0_shadow ≡ rvmcs hv 0 s₀ cr0_shadow
        → (bit_and v 0x80000000 ≢ 0
            → bit_and (rvmcs hv 0 s₀ guest_efer) efer_lme ≢ 0
            → (rvmcs hv 0 d guest_efer ≡ bit_or (rvmcs hv 0 s₀ guest_efer) efer_long)
              × (rvmcs hv 0 d entry_controls
                  ≡ bit_or (rvmcs hv 0 s₀ entry_controls) entry_guest_lma))
        → ((bit_and v 0x80000000 ≡ 0) ⊎ (bit_and (rvmcs hv 0 s₀ guest_efer) efer_lme ≡ 0)
            → (rvmcs hv 0 d guest_efer ≡ rvmcs hv 0 s₀ guest_efer)
              × (rvmcs hv 0 d entry_controls ≡ rvmcs hv 0 s₀ entry_controls))
        → Cr0Written hv v c (skip hv 3 d)
    skipped-Cr0Written d next shadow on off =
        let efer = rvmcs-skip hv works d 3 0 guest_efer (λ e. cc) in
        let controls = rvmcs-skip hv works d 3 0 entry_controls (λ e. cc) in
        let lme = λ (x : ℕ). bit_and x efer_lme in
        record {
          next =
              rip-skip hv works d 3 ∙ ap (λ n. u64 (n + 3)) (next ∙ rip-shadowed hv works junk c v);
          shadow = rvmcs-skip hv works d 3 0 cr0_shadow (λ e. cc) ∙ shadow ∙ shadow₀;
          on = λ pg l.
              let (a, b) = on pg λ z. l (sym (ap lme efer₀) ∙ z) in
              (
                efer ∙ a ∙ ap (λ x. bit_or x efer_long) efer₀,
                controls ∙ b ∙ ap (λ x. bit_or x entry_guest_lma) controls₀,
              );
          off = λ o.
              let o' : (bit_and v 0x80000000 ≡ 0)
                  ⊎ (bit_and (rvmcs hv 0 s₀ guest_efer) efer_lme ≡ 0) =
                elim o [ inl z ↦ inl z | inr z ↦ inr (ap lme efer₀ ∙ z) ] in
              let (a, b) = off o' in (efer ∙ a ∙ efer₀, controls ∙ b ∙ controls₀);
        }

    emu_mov_cr0-Cr0Written : Cr0Written hv v c (emu_mov_cr0 hv junk v c)
    unfolding emu_mov_cr0
    emu_mov_cr0-Cr0Written = elim (ℕ_discrete (bit_and v 0x80000000) 0) [
      | yes z ↦ rw z (skipped-Cr0Written s₀ refl refl (λ pg l. absurd (pg z)) (λ o. (refl, refl)))
      | no ne ↦
          let t = enter_long_mode-Entered hv works junk s₀ in
          rw (ne→==-false _ 0 ne) (
            skipped-Cr0Written (enter_long_mode hv junk s₀) t.next t.shadow (λ pg l. t.on l)
              (λ o. elim o [ inl z ↦ absurd (ne z) | inr z ↦ t.off z ]))
    ]

-- That the register CR0 is the field `guest_cr0` and no other: a write of another field keeps it.
pub record Cr0Kept (hv : Hypervisor) : Type 0 where
  pub by_vmcs :
      (f : Field) (v : ℕ) (c : hv.Vcpu)
      → f ≢ guest_cr0
      → hv.read_register (hv.write_vmcs f v c) cr0 ≡ hv.read_register c cr0

module _ (hv : Hypervisor) (works : Works hv) (kept : Cr0Kept hv) where
  cr0-write_vmcs :
      (f : Field) (v : ℕ) (c : hv.Vcpu)
      → f ≢ guest_cr0
      → rreg hv (hv.write_vmcs f v c) cr0 ≡ rreg hv c cr0
  unfolding rreg
  cr0-write_vmcs f v c ne = rw (kept.by_vmcs f v c ne) refl

  cr0-enter_long_mode :
      (junk : ℕ) (c : hv.Vcpu) → rreg hv (enter_long_mode hv junk c) cr0 ≡ rreg hv c cr0
  cr0-enter_long_mode junk c = elim (ℕ_discrete (bit_and (rvmcs hv 0 c guest_efer) efer_lme) 0) [
    | yes z ↦ rw (enter_long_mode-off hv works junk c z) refl
    | no ne ↦ rw (enter_long_mode-on hv works junk c ne) (
        cr0-write_vmcs entry_controls _ (long_efer hv works c) (λ e. cc)
        ∙ cr0-write_vmcs guest_efer _ c (λ e. cc))
  ]

  cr0-emu_mov_cr0 :
      (junk v : ℕ) (c : hv.Vcpu) → v < 2 ^ 64 → rreg hv (emu_mov_cr0 hv junk v c) cr0 ≡ v
  unfolding emu_mov_cr0
  cr0-emu_mov_cr0 junk v c lt =
      let c' = wreg hv cr0 v (hv.write_vmcs cr0_shadow v c) in
      let same : rreg hv c' cr0 ≡ v = rreg-wreg_same hv works _ v cr0 lt in
      elim (ℕ_discrete (bit_and v 0x80000000) 0) [
        | yes z ↦ rw z (rreg-skip hv works c' 3 cr0 (λ e. cc) ∙ same)
        | no ne ↦ rw (ne→==-false _ 0 ne) (
            rreg-skip hv works (enter_long_mode hv junk c') 3 cr0 (λ e. cc)
            ∙ cr0-enter_long_mode junk c'
            ∙ same)
      ]

  operand-number_of :
      (c : hv.Vcpu)
      → (r : Reg) × (number_of r ≡ some (rvmcs hv 0 c exit_qualification / 2 ^ 8 % 16))
        × (operand hv c ≡ rreg hv c r)
  unfolding vmx_get_guest_reg
  operand-number_of c =
      let n = rvmcs hv 0 c exit_qualification / 2 ^ 8 in
      let (r, e, k) = Numbered-get_elem? 0 guest_regs (n % 16) guest_regs-Numbered (omega arith) in
      (r, k ∙ ap some (omega arith), rw (bit_and-low 4 n, e) refl)

  -- On a CPU whose calls succeed, where only a write of its own field changes CR0, and at an exit
  -- for a move to CR0: some general register has the number that bits 8 to 11 of the exit
  -- qualification hold. RIP moves over the instruction, and CR0 and its shadow take the value of
  -- that register. If the value turns paging on and EFER.LME is set, then EFER gets LMA, NXE and
  -- SCE and the entry controls the bit for long mode; if it does not turn paging on, or LME is
  -- clear, both stay as they were.
  pub emu_mov_cr-Cr0Written :
      (junk : ℕ) (c : hv.Vcpu)
      → rvmcs hv 0 c exit_qualification % 256 ≡ 0
      → let s = emu_mov_cr hv junk c in
        (r : Reg) × (number_of r ≡ some (rvmcs hv 0 c exit_qualification / 2 ^ 8 % 16))
        × (s.0 ≡ 0)
        × (rreg hv s.1 cr0 ≡ rreg hv c r)
        × Cr0Written hv (rreg hv c r) c s.1
  emu_mov_cr-Cr0Written junk c z =
      let (r, number, e) = operand-number_of c in
      let lt = rreg-lt hv works c r in
      rw (mov_cr_zero hv works junk c z, e)
        (
          r,
          number,
          refl,
          cr0-emu_mov_cr0 junk (rreg hv c r) c lt,
          emu_mov_cr0-Cr0Written hv works junk c (rreg hv c r) lt,
        )
