-- ===== src/Cpu/Run/Push.antt =====
-- `push`, `push32` and `push64`.
use masters_proj.Prelude.{
  ℕ, ◌+◌, ◌^◌, ◌≤◌, ◌<◌, ◌≡◌, ◌≢◌, refl, ◌⊎◌, arith, ap, ◌∙◌, subst, true, List, length, take,
  take-length, ◌==◌, sub64, ne→==-false,
}
use native.Mathlib.Decide.{ℕ_discrete}
use masters_proj.Prelude.Bytes.{le_bytes, length-le_bytes}
use masters_proj.Mem.State.{Mem, Status, success, failure}
use masters_proj.Mem.Gpa.Layout.{IsValid}
use masters_proj.Mem.Access.{vm_mem_write, read64}
use masters_proj.Mem.Access.View.{view, Holds, Written, vm_mem_write-Written}
use masters_proj.Mem.Access.Word.{MappedRange, read64-Word, vm_mem_write-full}
use masters_proj.Cpu.State.{
  Reg, rsp, Hypervisor, Works, rreg, wreg, rreg-wreg_same, rreg-wreg_other,
}
use masters_proj.Cpu.Run.{push, push64}

-- How a push ends: RSP and the value on success, the CPU on failure, and what stays in both cases.
pub record Pushed (hv : Hypervisor) (val : List ℕ) (c : hv.Vcpu) (m : Mem)
    (r : Status × hv.Vcpu × Mem) : Type 0 where
  pub done :
      r.0 ≡ success
      → (rreg hv r.1 rsp ≡ sub64 (rreg hv c rsp) (length val))
        × Holds r.2 (sub64 (rreg hv c rsp) (length val)) val
  pub kept : r.0 ≡ failure → r.1 ≡ c
  pub regs : (s : Reg) → rsp ≢ s → rreg hv r.1 s ≡ rreg hv c s
  pub outside :
      (a : ℕ)
      → (a < sub64 (rreg hv c rsp) (length val))
        ⊎ (sub64 (rreg hv c rsp) (length val) + length val ≤ a)
      → view r.2 a ≡ view m a

module _ (hv : Hypervisor) (works : Works hv) (val : List ℕ) (c : hv.Vcpu) (m : Mem)
    (v : IsValid m.regions) where
  abbrev sp : ℕ
  sp = sub64 (rreg hv c rsp) (length val)

  abbrev w : ℕ × Mem
  w = vm_mem_write sp val m

  pub pushed-full : w.0 ≡ length val → push hv val c m ≡ (success, wreg hv rsp sp c, w.1)
  unfolding push wreg
  pushed-full e =
      let t : (w.0 == length val) ≡ true = ground arith in rw (t, works.write_ok rsp sp c) refl

  pushed-short : w.0 ≢ length val → push hv val c m ≡ (failure, c, w.1)
  unfolding push
  pushed-short ne = rw (ne→==-false _ _ ne) refl

  written : Written sp val m w.0 w.1
  written = vm_mem_write-Written sp val m v

  -- In a state with well-formed regions, and on a CPU whose calls succeed, whatever the stack
  -- pointer is: if `push` succeeds, RSP has moved down over the value, which stands there; if it
  -- fails, the CPU is as it was. In both cases no other register has changed, and no byte of guest
  -- memory but those under the value.
  pub push-Pushed : Pushed hv val c m (push hv val c m)
  push-Pushed = elim (ℕ_discrete w.0 (length val)) [
    | yes e ↦ rw (pushed-full e) (record {
      done = λ _. (
        rreg-wreg_same hv works c sp rsp (omega arith),
        subst (Holds w.1 sp) (ap (λ k. take k val) e ∙ take-length val) written.inside,
      );
      kept = λ f. cc;
      regs = λ s ne. rreg-wreg_other hv works c sp rsp s ne;
      outside = λ a o. written.outside a (omega arith);
    })
    | no ne ↦ rw (pushed-short ne) (record {
      done = λ f. cc;
      kept = λ _. refl;
      regs = λ s ne. refl;
      outside = λ a o. written.outside a (omega (arith, written.count));
    })
  ]

-- In a state with well-formed regions, and on a CPU whose calls succeed, a 64-bit value that is
-- pushed to mapped memory stands at the new RSP, 8 bytes below the old one, where a read of 8
-- bytes returns it.
pub read64-push64 :
    (hv : Hypervisor) (works : Works hv) (val old : ℕ) (c : hv.Vcpu) (m : Mem)
    (v : IsValid m.regions)
    → val < 2 ^ 64
    → MappedRange m (sub64 (rreg hv c rsp) 8) 8
    → let r = push64 hv val c m in
      (r.0 ≡ success)
      × (rreg hv r.1 rsp ≡ sub64 (rreg hv c rsp) 8)
      × (read64 r.2 (rreg hv r.1 rsp) old ≡ val)
unfolding push64
read64-push64 hv works val old c m v lt mapped =
    let bs = le_bytes 8 val in
    let n : length bs ≡ 8 = length-le_bytes 8 val in
    let range : MappedRange m (sp hv works bs c m v) (length bs) = mapped in
    let e = (vm_mem_write-full (sp hv works bs c m v) bs m v range).0 in
    let full = pushed-full hv works bs c m v e in
    let (to, holds) = (push-Pushed hv works bs c m v).done (ap (λ r. r.0) full) in
    (
      ap (λ r. r.0) full,
      to,
      ap (λ a. read64 (push hv bs c m).2 a old) to
          ∙ read64-Word (push hv bs c m).2 _ val old
              (rw full (rw (written hv works bs c m v).regions v)) lt holds,
    )
