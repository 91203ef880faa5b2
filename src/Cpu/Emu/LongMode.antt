-- ===== src/Cpu/Emu/LongMode.antt =====
-- The switch to long mode in `emu_mov_cr`.
use masters_proj.Prelude.{ℕ, ◌≡◌, ◌≢◌, refl, arith, ap, ◌∙◌, bit_and, bit_or, ne→==-false}
use native.Mathlib.Decide.{ℕ_discrete}
use masters_proj.Prelude.Bits.{bit_or-lt}
use masters_proj.Cpu.State.{
  rip, Field, cr0_shadow, guest_efer, entry_controls, Hypervisor, Works, rreg, rvmcs,
  rreg-write_vmcs, rvmcs-write_same, rvmcs-write_other, rvmcs-lt,
}
use masters_proj.Cpu.Emu.{efer_lme, efer_long, entry_guest_lma, enter_long_mode}

-- What `enter_long_mode` leaves of the fields that it may write.
pub record Entered (hv : Hypervisor) (c c' : hv.Vcpu) : Type 0 where
  pub next : rreg hv c' rip ≡ rreg hv c rip
  pub shadow : rvmcs hv 0 c' cr0_shadow ≡ rvmcs hv 0 c cr0_shadow
  pub on :
      bit_and (rvmcs hv 0 c guest_efer) efer_lme ≢ 0
      → (rvmcs hv 0 c' guest_efer ≡ bit_or (rvmcs hv 0 c guest_efer) efer_long)
        × (rvmcs hv 0 c' entry_controls ≡ bit_or (rvmcs hv 0 c entry_controls) entry_guest_lma)
  pub off :
      bit_and (rvmcs hv 0 c guest_efer) efer_lme ≡ 0
      → (rvmcs hv 0 c' guest_efer ≡ rvmcs hv 0 c guest_efer)
        × (rvmcs hv 0 c' entry_controls ≡ rvmcs hv 0 c entry_controls)

module _ (hv : Hypervisor) (works : Works hv) where
  -- A read that succeeds does not keep what the local held.
  rvmcs-old : (old : ℕ) (c : hv.Vcpu) (f : Field) → rvmcs hv old c f ≡ rvmcs hv 0 c f
  unfolding rvmcs
  rvmcs-old old c f = let (v, e, _) = works.vmcs_read c f in rw e refl

  pub enter_long_mode-off :
      (junk : ℕ) (c : hv.Vcpu)
      → bit_and (rvmcs hv 0 c guest_efer) efer_lme ≡ 0
      → enter_long_mode hv junk c ≡ c
  unfolding enter_long_mode
  enter_long_mode-off junk c z = rw (rvmcs-old junk c guest_efer, z) refl

  abbrev pub long_efer : hv.Vcpu → hv.Vcpu
  long_efer c = hv.write_vmcs guest_efer (bit_or (rvmcs hv 0 c guest_efer) efer_long) c

  abbrev pub long_mode : hv.Vcpu → hv.Vcpu
  long_mode c =
      hv.write_vmcs entry_controls
        (bit_or (rvmcs hv 0 (long_efer c) entry_controls) entry_guest_lma) (long_efer c)

  pub enter_long_mode-on :
      (junk : ℕ) (c : hv.Vcpu)
      → bit_and (rvmcs hv 0 c guest_efer) efer_lme ≢ 0
      → enter_long_mode hv junk c ≡ long_mode c
  unfolding enter_long_mode
  enter_long_mode-on junk c ne =
      rw
        (
          rvmcs-old junk c guest_efer,
          ne→==-false _ 0 ne,
          rvmcs-old junk (long_efer c) entry_controls,
        )
        refl

  long_mode-Entered :
      (c : hv.Vcpu) → bit_and (rvmcs hv 0 c guest_efer) efer_lme ≢ 0 → Entered hv c (long_mode c)
  long_mode-Entered c ne =
      let e = bit_or (rvmcs hv 0 c guest_efer) efer_long in
      let k = bit_or (rvmcs hv 0 (long_efer c) entry_controls) entry_guest_lma in
      let before = rvmcs-write_other hv works c e 0 guest_efer entry_controls (λ e. cc) in
      record {
        next =
            rreg-write_vmcs hv works (long_efer c) k entry_controls rip (λ e. cc)
            ∙ rreg-write_vmcs hv works c e guest_efer rip (λ e. cc);
        shadow =
            rvmcs-write_other hv works (long_efer c) k 0 entry_controls cr0_shadow (λ e. cc)
            ∙ rvmcs-write_other hv works c e 0 guest_efer cr0_shadow (λ e. cc);
        on = λ _. (
          rvmcs-write_other hv works (long_efer c) k 0 entry_controls guest_efer (λ e. cc)
              ∙ rvmcs-write_same hv works c e 0 guest_efer
                  (bit_or-lt 64 _ efer_long (rvmcs-lt hv works 0 c guest_efer) (omega arith)),
          rvmcs-write_same hv works (long_efer c) k 0 entry_controls (
                bit_or-lt 64 _ entry_guest_lma (rvmcs-lt hv works 0 (long_efer c) entry_controls)
                  (omega arith))
              ∙ ap (λ x. bit_or x entry_guest_lma) before,
        );
        off = λ z. absurd (ne z);
      }

  pub enter_long_mode-Entered : (junk : ℕ) (c : hv.Vcpu) → Entered hv c (enter_long_mode hv junk c)
  enter_long_mode-Entered junk c =
      elim (ℕ_discrete (bit_and (rvmcs hv 0 c guest_efer) efer_lme) 0) [
        | yes z ↦ rw (enter_long_mode-off junk c z) (record {
          next = refl;
          shadow = refl;
          on = λ ne. absurd (ne z);
          off = λ _. (refl, refl);
        })
        | no ne ↦ rw (enter_long_mode-on junk c ne) (long_mode-Entered c ne)
      ]
