-- ===== src/Cpu/Run/Exit.antt =====
-- The case `default` of `vcpu_run`: a system call, or the end of the run.
use masters_proj.Prelude.{
  ◌≡◌, ◌≢◌, refl, ◌⊎◌, inl, inr, ◌↔◌, Bool-cases, true, arith, sym, subst, ◌∙◌,
}
use masters_proj.Prelude.{ℕ, ◌+◌, ◌-◌, ◌≤◌, ◌<◌, ◌==◌, ◌&&◌, ltb, Option-cases, some, false≢true}
use masters_proj.Prelude.Bytes.{le_bytes, le_value}
use masters_proj.Mem.State.{Mem}
use masters_proj.Mem.Gpa.{gpa_to_hva}
use masters_proj.Mem.Gpa.Layout.{IsValid}
use masters_proj.Mem.Access.View.{view}
use masters_proj.Mem.Access.Abstract.{PartialMap, read_map, vm_mem_read-read_map}
use masters_proj.Mem.Paging.{gva_to_gpa}
use masters_proj.Cpu.State.{Reg, rip, rax, rcx, Works, rreg-wreg_same, rreg-wreg_other, rreg-lt}
use masters_proj.Cpu.Syscall.{
  Outcome, handled, quit, failed, Env, Machine, reg, set_reg, emu_syscall,
}
use masters_proj.Cpu.Syscall.Ends.{Keeps}
use masters_proj.Cpu.Syscall.Effect.{emu_syscall-Ends}
use masters_proj.Cpu.Run.{at_syscall, stop_unless, exit_other}

-- The guest goes on behind its `syscall`: all registers but RIP and RAX are as they were, and so
-- are the regions and the root table.
pub record Returned (env : Env) (s s' : Machine env) : Type 0 where
  pub resumed : reg env s' rip ≡ reg env s rcx
  pub regs : (r : Reg) → rip ≢ r → rax ≢ r → reg env s' r ≡ reg env s r
  pub regions : s'.mem.regions ≡ s.mem.regions
  pub pml4 : s'.mem.pml4 ≡ s.mem.pml4
  pub pml4_gpa : s'.mem.pml4_gpa ≡ s.mem.pml4_gpa

-- The instruction before the address in RCX is `syscall`: its two bytes, 0f and 05, stand in guest
-- memory from the physical address of RCX - 2 on.
abbrev pub AtSyscall : (env : Env) → Machine env → Type 0
AtSyscall env s =
    let gpa = gva_to_gpa env.locals s.mem (reg env s rcx - 2) in
    (2 ≤ reg env s rcx) × (view s.mem gpa ≡ some 0x0f) × (view s.mem (gpa + 1) ≡ some 0x05)

-- The test of two bytes that are read as a little-endian number.
opcode_iff :
    (v : PartialMap) (g n : ℕ)
    → ((a x : ℕ) → v a ≡ some x → x < 256)
    → let op = read_map v g (le_bytes 2 0) in
      ((ltb 1 n && (op.0 == 2 && le_value op.1 == 0x050f)) ≡ true)
      ↔ ((2 ≤ n) × (v g ≡ some 0x0f) × (v (g + 1) ≡ some 0x05))
unfolding read_map
opcode_iff v g n byte = elim (Option-cases (v g)) [
  | inl e ↦ rw e (λ h. absurd (ground arith), λ h. absurd (ground arith))
  | inr (x, e) ↦ elim (Option-cases (v (g + 1))) [
    | inl k ↦ rw (e, k) (λ h. absurd (ground arith), λ h. absurd (ground arith))
    | inr (y, k) ↦ let small = byte g x e in rw (e, k) (λ h. ground arith, λ h. ground arith)
  ]
]

view-lt : (s : Mem) → ((a : ℕ) → s.bytes a < 256) → (a x : ℕ) → view s a ≡ some x → x < 256
unfolding view
view-lt s byte a x e = ground (arith, byte (gpa_to_hva s a))

at_syscall-AtSyscall :
    (env : Env) (s : Machine env)
    → IsValid s.mem.regions
    → ((a : ℕ) → s.mem.bytes a < 256)
    → (at_syscall env s ≡ true) ↔ AtSyscall env s
unfolding at_syscall
at_syscall-AtSyscall env s valid byte =
    let gpa = gva_to_gpa env.locals s.mem (reg env s rcx - 2) in
    rw (vm_mem_read-read_map s.mem gpa (le_bytes 2 0) valid)
      (opcode_iff (view s.mem) gpa (reg env s rcx) (view-lt s.mem byte))

-- `stop` after a system call.
stop_unless-state : {env : Env} (r : Outcome × Machine env) → (stop_unless env r).1 ≡ r.1
stop_unless-state (handled, s) = refl
stop_unless-state (quit, s) = refl
stop_unless-state (failed, s) = refl

stop_unless_iff :
    {env : Env} (r : Outcome × Machine env) → ((stop_unless env r).0 ≡ 0) ↔ (r.0 ≡ handled)
stop_unless_iff (handled, s) = (λ _. refl, λ _. refl)
stop_unless_iff (quit, s) = (λ e. absurd (omega arith), λ e. cc)
stop_unless_iff (failed, s) = (λ e. absurd (omega arith), λ e. cc)

module _ (env : Env) (works : Works env.hv) (s : Machine env) where
  abbrev pub called : Machine env
  called = set_reg env rip (reg env s rcx) s

  Keeps-Returned : (s' : Machine env) → Keeps env called s' → Returned env s s'
  Keeps-Returned s' k = record {
    resumed =
        k.regs rip (λ e. cc)
        ∙ rreg-wreg_same env.hv works s.cpu (reg env s rcx) rip (rreg-lt env.hv works s.cpu rcx);
    regs = λ r n₁ n₂. k.regs r n₂ ∙ rreg-wreg_other env.hv works s.cpu (reg env s rcx) rip r n₁;
    regions = k.regions;
    pml4 = k.pml4;
    pml4_gpa = k.pml4_gpa;
  }

  -- On a CPU whose calls succeed, with well-formed regions and a host memory of bytes: an exit with
  -- no case of its own stops the run and changes nothing unless RCX is at least 2 and the bytes 0f
  -- and 05 of `syscall` stand in guest memory from the physical address of RCX - 2 on. If they do,
  -- RIP takes the address in RCX, no other register but RAX and neither the regions nor the root
  -- table change, and the run goes on exactly if the call was handled.
  pub exit_other-Returned :
      IsValid s.mem.regions
      → ((a : ℕ) → s.mem.bytes a < 256)
      → ((¬ AtSyscall env s) × (exit_other env s ≡ (1, s)))
        ⊎ (AtSyscall env s
            × Returned env s (exit_other env s).1
            × (((exit_other env s).0 ≡ 0) ↔ ((emu_syscall env called).0 ≡ handled)))
  unfolding exit_other
  exit_other-Returned valid byte = elim (Bool-cases (at_syscall env s)) [
    | inr no_call ↦
        let never = λ (at : AtSyscall env s).
          false≢true (sym no_call ∙ (at_syscall-AtSyscall env s valid byte).1 at) in
        inl (never, rw no_call refl)
    | inl call ↦
        let r = emu_syscall env called in
        let keeps = (emu_syscall-Ends env works called).0.keeps in
        let at = (at_syscall-AtSyscall env s valid byte).0 call in
        inr (
          rw call (
            at,
            subst (Returned env s) (sym (stop_unless-state r)) (Keeps-Returned r.1 keeps),
            stop_unless_iff r,
          ))
  ]
