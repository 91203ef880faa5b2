-- ===== src/Cpu/Dump/Start.antt =====
-- What `vcpu_dump` prints of the CPU that `vcpu_setup_ia32` has set up.
use masters_proj.Prelude.{
  ℕ, ◌≡◌, ◌≢◌, refl, ap, sym, ◌∙◌, ◌⊎◌, inl, inr, List, [], ◌∷◌, ◌++◌, All, Option, some,
}
use mathlib.Core.List.{map}
use masters_proj.Logging.{
  LogLevel, Logger, debug, debug-cases, init_logging, dlog, with_printed, dlog-printed, dlog-quiet,
  with_printed-nil, with_printed-append,
}
use masters_proj.Mem.State.{Mem}
use masters_proj.Cpu.State.{Reg, Field, Hypervisor, Works, stored}
use masters_proj.Cpu.Setup.{
  segment_fields, table_fields, native_msrs, start_regs, write_fields, write_regs, enable_msrs,
  vcpu_setup_ia32,
}
use masters_proj.Cpu.Dump.{
  CpuLine, field_line, reg_line, dump_fields, dump_regs, vcpu_dump, dumped_fields, dumped_regs,
}
use masters_proj.Cpu.Setup.Writes.{FieldsKept, regs-Ordered, read-write_regs, fields-at_start}

-- What the dump of a CPU prints whose fields or registers hold given values.
abbrev pub field_entry : Field × ℕ → CpuLine
field_entry (f, v) = field_line f v

abbrev pub reg_entry : Reg × ℕ → CpuLine
reg_entry (r, v) = reg_line r v

module _ (hv : Hypervisor) (c : hv.Vcpu) where
  dump_fields-printed :
      (ws : List (Field × ℕ)) (value : ℕ) (l : Logger CpuLine)
      → l.level ≡ debug
      → All (λ w. hv.read_vmcs c w.0 ≡ some w.1) ws
      → (dump_fields hv c (map (λ w. w.0) ws) value l).1 ≡ with_printed (map field_entry ws) l
  unfolding dump_fields
  dump_fields-printed [] value l e h = sym (with_printed-nil l)
  dump_fields-printed ((f, v) ∷ ws) value l e h =
      ap
        (λ o.
          (dump_fields hv c (map (λ w. w.0) ws) (stored value o)
            (dlog (field_line f (stored value o)) l)).1)
        h.0
      ∙ ap (λ l'. (dump_fields hv c (map (λ w. w.0) ws) v l').1) (dlog-printed (field_line f v) l e)
      ∙ dump_fields-printed ws v (with_printed (field_line f v ∷ []) l) e h.1
      ∙ with_printed-append (field_line f v ∷ []) (map field_entry ws) l

  dump_regs-printed :
      (ws : List (Reg × ℕ)) (value : ℕ) (l : Logger CpuLine)
      → l.level ≡ debug
      → All (λ w. hv.read_register c w.0 ≡ some w.1) ws
      → (dump_regs hv c (map (λ w. w.0) ws) value l).1 ≡ with_printed (map reg_entry ws) l
  unfolding dump_regs
  dump_regs-printed [] value l e h = sym (with_printed-nil l)
  dump_regs-printed ((r, v) ∷ ws) value l e h =
      ap
        (λ o.
          (dump_regs hv c (map (λ w. w.0) ws) (stored value o)
            (dlog (reg_line r (stored value o)) l)).1)
        h.0
      ∙ ap (λ l'. (dump_regs hv c (map (λ w. w.0) ws) v l').1) (dlog-printed (reg_line r v) l e)
      ∙ dump_regs-printed ws v (with_printed (reg_line r v ∷ []) l) e h.1
      ∙ with_printed-append (reg_line r v ∷ []) (map reg_entry ws) l

  dump_fields-quiet :
      (fs : List Field) (value : ℕ) (l : Logger CpuLine)
      → l.level ≢ debug
      → (dump_fields hv c fs value l).1 ≡ l
  unfolding dump_fields
  dump_fields-quiet [] value l ne = refl
  dump_fields-quiet (f ∷ fs) value l ne =
      let v = stored value (hv.read_vmcs c f) in
      ap (λ l'. (dump_fields hv c fs v l').1) (dlog-quiet (field_line f v) l ne)
      ∙ dump_fields-quiet fs v l ne

  dump_regs-quiet :
      (rs : List Reg) (value : ℕ) (l : Logger CpuLine)
      → l.level ≢ debug
      → (dump_regs hv c rs value l).1 ≡ l
  unfolding dump_regs
  dump_regs-quiet [] value l ne = refl
  dump_regs-quiet (r ∷ rs) value l ne =
      let v = stored value (hv.read_register c r) in
      ap (λ l'. (dump_regs hv c rs v l').1) (dlog-quiet (reg_line r v) l ne)
      ∙ dump_regs-quiet rs v l ne

-- On a CPU whose calls succeed and keep each other's values, what `vcpu_dump` prints of the CPU that
-- `vcpu_setup_ia32` leaves, after `init_logging` with the level DEBUG, is each field of the control
-- structure and then each register that was set up, in the order in which they were written, with
-- the value written to it. After `init_logging` with any other level it prints nothing.
pub vcpu_dump-vcpu_setup_ia32 :
    (hv : Hypervisor) (works : Works hv) (kept : FieldsKept hv) (c : hv.Vcpu) (m : Mem)
    (level : LogLevel) (fildes : Option (List ℕ)) (old : Logger CpuLine)
    → let r = vcpu_setup_ia32 hv c m in
      let l = init_logging level fildes old in
      ((level ≡ debug)
        × (vcpu_dump hv r.1 l
            ≡ with_printed
                (map field_entry (segment_fields ++ table_fields) ++ map reg_entry start_regs)
                l))
      ⊎ ((level ≢ debug) × (vcpu_dump hv r.1 l ≡ l))
unfolding vcpu_dump vcpu_setup_ia32 init_logging
vcpu_dump-vcpu_setup_ia32 hv works kept c m level fildes old =
    let l = init_logging level fildes old in
    let ws = segment_fields ++ table_fields in
    let c₁ = write_fields hv table_fields (write_fields hv segment_fields c) in
    let c₂ = (enable_msrs hv native_msrs c₁).1 in
    let c₃ = write_regs hv start_regs c₂ in
    let r = dump_fields hv c₃ dumped_fields 0 l in
    elim (debug-cases level) [
      | inl e ↦ inl (
        e,
        ap (λ l'. (dump_regs hv c₃ dumped_regs r.0 l').1)
              (dump_fields-printed hv c₃ ws 0 l e (fields-at_start hv works kept c))
            ∙ dump_regs-printed hv c₃ start_regs r.0 (with_printed (map field_entry ws) l) e
                (read-write_regs hv works 0 start_regs c₂ regs-Ordered)
            ∙ with_printed-append (map field_entry ws) (map reg_entry start_regs) l,
      )
      | inr ne ↦ inr (
        ne,
        ap (λ l'. (dump_regs hv c₃ dumped_regs r.0 l').1)
              (dump_fields-quiet hv c₃ dumped_fields 0 l ne)
            ∙ dump_regs-quiet hv c₃ dumped_regs r.0 l ne,
      )
    ]
