-- ===== src/Cpu/Setup/Writes.antt =====
-- Reading back the fields and the registers that `vcpu_setup_ia32` writes.
use masters_proj.Prelude.{
  ℕ, ◌^◌, ◌≤◌, ◌<◌, ◌≡◌, ◌≢◌, refl, ap, ◌∙◌, List, [], ◌∷◌, ◌++◌, All, Option, some, inl, inr,
  Bool-cases, arith,
}
use masters_proj.Cpu.State.{
  Reg, Field, Hypervisor, Works, cr0, wreg, rip, rflags, rax, rcx, rdx, rbx, rsi, rdi, rsp, rbp,
  ctrl_pin_based, ctrl_cpu_based, ctrl_cpu_based2, entry_controls, ctrl_vmexit_controls,
  ctrl_exc_bitmap, ctrl_cr0_mask, cr0_shadow, guest_cr0, guest_cr3, ctrl_cr4_mask, ctrl_cr4_shadow,
  guest_cr4, guest_cs, guest_cs_base, guest_cs_limit, guest_cs_ar, guest_ds, guest_ds_base,
  guest_ds_limit, guest_ds_ar, guest_es, guest_es_base, guest_es_limit, guest_es_ar, guest_fs,
  guest_fs_base, guest_fs_limit, guest_fs_ar, guest_gs, guest_gs_base, guest_gs_limit, guest_gs_ar,
  guest_ss, guest_ss_base, guest_ss_limit, guest_ss_ar, guest_tr, guest_tr_base, guest_tr_limit,
  guest_tr_ar, guest_ldtr, guest_ldtr_base, guest_ldtr_limit, guest_ldtr_ar, guest_gdtr_base,
  guest_gdtr_limit, guest_idtr_base, guest_idtr_limit, guest_efer,
}
use masters_proj.Cpu.Setup.{
  segment_fields, table_fields, native_msrs, start_regs, write_fields, write_regs, enable_msrs,
}

-- What the program relies on beyond `Works`: the calls that come after the control structure was
-- written leave it as it is.
pub record FieldsKept (hv : Hypervisor) : Type 0 where
  pub by_msr :
      (msr : ℕ) (c : hv.Vcpu) (f : Field)
      → hv.read_vmcs (hv.enable_native_msr msr c).1 f ≡ hv.read_vmcs c f
  pub by_reg :
      (r : Reg) (v : ℕ) (c : hv.Vcpu) (f : Field)
      → r ≢ cr0
      → hv.read_vmcs (hv.write_register r v c).1 f ≡ hv.read_vmcs c f

-- The places of the fields and the registers among the writes.
abbrev pub field_order : Field → ℕ
field_order ctrl_pin_based = 1
field_order ctrl_cpu_based = 2
field_order ctrl_cpu_based2 = 3
field_order entry_controls = 4
field_order ctrl_vmexit_controls = 5
field_order ctrl_exc_bitmap = 6
field_order ctrl_cr0_mask = 7
field_order cr0_shadow = 8
field_order guest_cr0 = 9
field_order guest_cr3 = 10
field_order ctrl_cr4_mask = 11
field_order ctrl_cr4_shadow = 12
field_order guest_cr4 = 13
field_order guest_cs = 14
field_order guest_cs_base = 15
field_order guest_cs_limit = 16
field_order guest_cs_ar = 17
field_order guest_ds = 18
field_order guest_ds_base = 19
field_order guest_ds_limit = 20
field_order guest_ds_ar = 21
field_order guest_es = 22
field_order guest_es_base = 23
field_order guest_es_limit = 24
field_order guest_es_ar = 25
field_order guest_fs = 26
field_order guest_fs_base = 27
field_order guest_fs_limit = 28
field_order guest_fs_ar = 29
field_order guest_gs = 30
field_order guest_gs_base = 31
field_order guest_gs_limit = 32
field_order guest_gs_ar = 33
field_order guest_ss = 34
field_order guest_ss_base = 35
field_order guest_ss_limit = 36
field_order guest_ss_ar = 37
field_order guest_tr = 38
field_order guest_tr_base = 39
field_order guest_tr_limit = 40
field_order guest_tr_ar = 41
field_order guest_ldtr = 42
field_order guest_ldtr_base = 43
field_order guest_ldtr_limit = 44
field_order guest_ldtr_ar = 45
field_order guest_gdtr_base = 46
field_order guest_gdtr_limit = 47
field_order guest_idtr_base = 48
field_order guest_idtr_limit = 49
field_order guest_efer = 50
field_order _ = 0

abbrev pub reg_order : Reg → ℕ
reg_order rip = 1
reg_order rflags = 2
reg_order rax = 3
reg_order rcx = 4
reg_order rdx = 5
reg_order rbx = 6
reg_order rsi = 7
reg_order rdi = 8
reg_order rsp = 9
reg_order rbp = 10
reg_order _ = 0

-- Values of 64 bits, for fields or registers in this order.
module _ {A : Type 0} (order : A → ℕ) where
  abbrev pub Ordered : ℕ → List (A × ℕ) → Type 0
  Ordered n [] = Unit
  Ordered n ((f, v) ∷ ws) = (n < order f) × (v < 2 ^ 64) × Ordered (order f) ws

  Ordered-others :
      (f : A) (n : ℕ) (ws : List (A × ℕ)) → order f ≤ n → Ordered n ws → All (λ w. w.0 ≢ f) ws
  Ordered-others f n [] le o = tt
  Ordered-others f n ((g, v) ∷ ws) le o = (
    λ e. absurd (omega (arith, o.0, ap order e)),
    Ordered-others f (order g) ws (omega (arith, o.0)) o.2,
  )

pub fields-Ordered : Ordered field_order 0 (segment_fields ++ table_fields)
fields-Ordered = omega arith

pub regs-Ordered : Ordered reg_order 0 start_regs
regs-Ordered = omega arith

write_fields-append :
    (hv : Hypervisor) (ws vs : List (Field × ℕ)) (c : hv.Vcpu)
    → write_fields hv vs (write_fields hv ws c) ≡ write_fields hv (ws ++ vs) c
unfolding write_fields
write_fields-append hv [] vs c = refl
write_fields-append hv ((f, v) ∷ ws) vs c = write_fields-append hv ws vs (hv.write_vmcs f v c)

module _ (hv : Hypervisor) (works : Works hv) where
  read-write_fields_other :
      (f : Field) (ws : List (Field × ℕ)) (c : hv.Vcpu)
      → All (λ w. w.0 ≢ f) ws
      → hv.read_vmcs (write_fields hv ws c) f ≡ hv.read_vmcs c f
  unfolding write_fields
  read-write_fields_other f [] c h = refl
  read-write_fields_other f ((g, v) ∷ ws) c h =
      read-write_fields_other f ws (hv.write_vmcs g v c) h.1 ∙ works.vmcs_other g f v c h.0

  pub read-write_fields :
      (n : ℕ) (ws : List (Field × ℕ)) (c : hv.Vcpu)
      → Ordered field_order n ws
      → All (λ w. hv.read_vmcs (write_fields hv ws c) w.0 ≡ some w.1) ws
  unfolding write_fields
  read-write_fields n [] c o = tt
  read-write_fields n ((f, v) ∷ ws) c o = (
    read-write_fields_other f ws (hv.write_vmcs f v c)
          (Ordered-others field_order f (field_order f) ws (omega arith) o.2)
        ∙ works.vmcs_same f v c o.1,
    read-write_fields (field_order f) ws (hv.write_vmcs f v c) o.2,
  )

  read-write_regs_other :
      (r : Reg) (ws : List (Reg × ℕ)) (c : hv.Vcpu)
      → All (λ w. w.0 ≢ r) ws
      → hv.read_register (write_regs hv ws c) r ≡ hv.read_register c r
  unfolding write_regs wreg
  read-write_regs_other r [] c h = refl
  read-write_regs_other r ((s, v) ∷ ws) c h =
      read-write_regs_other r ws (wreg hv s v c) h.1 ∙ works.reg_other s r v c h.0

  pub read-write_regs :
      (n : ℕ) (ws : List (Reg × ℕ)) (c : hv.Vcpu)
      → Ordered reg_order n ws
      → All (λ w. hv.read_register (write_regs hv ws c) w.0 ≡ some w.1) ws
  unfolding write_regs wreg
  read-write_regs n [] c o = tt
  read-write_regs n ((r, v) ∷ ws) c o = (
    read-write_regs_other r ws (wreg hv r v c)
          (Ordered-others reg_order r (reg_order r) ws (omega arith) o.2)
        ∙ works.reg_same r v c o.1,
    read-write_regs (reg_order r) ws (wreg hv r v c) o.2,
  )

module _ (hv : Hypervisor) (kept : FieldsKept hv) where
  read-enable_msrs :
      (msrs : List ℕ) (c : hv.Vcpu) (f : Field)
      → hv.read_vmcs (enable_msrs hv msrs c).1 f ≡ hv.read_vmcs c f
  unfolding enable_msrs
  read-enable_msrs [] c f = refl
  read-enable_msrs (msr ∷ msrs) c f = elim (Bool-cases (hv.enable_native_msr msr c).0) [
    | inl ok ↦ rw ok (read-enable_msrs msrs (hv.enable_native_msr msr c).1 f ∙ kept.by_msr msr c f)
    | inr bad ↦ rw bad (kept.by_msr msr c f)
  ]

  fields-write_regs :
      (ws : List (Reg × ℕ)) (c : hv.Vcpu) (f : Field)
      → All (λ w. w.0 ≢ cr0) ws
      → hv.read_vmcs (write_regs hv ws c) f ≡ hv.read_vmcs c f
  unfolding write_regs wreg
  fields-write_regs [] c f h = refl
  fields-write_regs ((r, v) ∷ ws) c f h =
      fields-write_regs ws (wreg hv r v c) f h.1 ∙ kept.by_reg r v c f h.0

not_cr0 : All (λ w. w.0 ≢ cr0) start_regs
not_cr0 = Ordered-others reg_order cr0 0 start_regs (omega arith) regs-Ordered

-- The fields after all three groups of writes.
pub fields-at_start :
    (hv : Hypervisor) (works : Works hv) (kept : FieldsKept hv) (c : hv.Vcpu)
    → let c₁ = write_fields hv table_fields (write_fields hv segment_fields c) in
      let c₃ = write_regs hv start_regs (enable_msrs hv native_msrs c₁).1 in
      All (λ w. hv.read_vmcs c₃ w.0 ≡ some w.1) (segment_fields ++ table_fields)
fields-at_start hv works kept c =
    let ws = segment_fields ++ table_fields in
    let c₁ = write_fields hv table_fields (write_fields hv segment_fields c) in
    let c₂ = (enable_msrs hv native_msrs c₁).1 in
    let joined = write_fields-append hv segment_fields table_fields c in
    All-same ws _ _
      (λ f.
        fields-write_regs hv kept start_regs c₂ f not_cr0
        ∙ read-enable_msrs hv kept native_msrs c₁ f
        ∙ ap (λ c'. hv.read_vmcs c' f) joined)
      (read-write_fields hv works 0 ws c fields-Ordered)
  where
    All-same :
        {A : Type 0} (ws : List (A × ℕ)) (f g : A → Option ℕ)
        → ((a : A) → f a ≡ g a)
        → All (λ w. g w.0 ≡ some w.1) ws
        → All (λ w. f w.0 ≡ some w.1) ws
    All-same [] f g e h = tt
    All-same ((a, v) ∷ ws) f g e h = (e a ∙ h.0, All-same ws f g e h.1)
