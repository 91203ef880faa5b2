-- ===== src/Cpu/Run.antt =====
-- The loop of src/vcpu.c that runs a guest and handles its exits, and pushes to its stack.
pub mod Loop
pub mod Push
pub mod Exit
pub mod Service
pub mod Session
use masters_proj.Prelude.{
  ℕ, zero, suc, ◌+◌, ◌-◌, ◌%◌, Bool, true, false, ◌&&◌, List, [], ◌∷◌, length, Option, none, some,
  ◌==◌, ltb, if◌then◌else◌, u64, sub64,
}
use masters_proj.Prelude.Bytes.{le_bytes, le_value}
use masters_proj.Mem.State.{Mem, Status, success, failure}
use masters_proj.Mem.Access.{vm_mem_read, vm_mem_write}
use masters_proj.Mem.Paging.{gva_to_gpa}
use masters_proj.Cpu.State.{
  Reg, rip, rcx, rsp, Field, exit_reason, exit_qualification, exit_instr_len, idt_vector_info,
  ExitReason, exc_nmi, irq, vmcall, hlt, ept_violation, rdmsr, wrmsr, mov_cr, cpuid, other,
  Hypervisor, rreg, wreg, rvmcs,
}
use masters_proj.Cpu.Emu.{skip, emu_rdmsr, emu_wrmsr, emu_mov_cr, emu_cpuid}
use masters_proj.Cpu.Syscall.{
  Outcome, handled, quit, failed, Env, Machine, reg, set_reg, emu_syscall,
}

module _ (hv : Hypervisor) where
  -- `push` after its write of memory.
  unfoldable pub pushed : (size sp : ℕ) → hv.Vcpu → ℕ × Mem → Status × hv.Vcpu × Mem
  pushed size sp c r =
      let w = hv.write_register rsp sp c in
      if r.0 == size
      then (if w.0 then (success, w.1, r.1) else (failure, w.1, r.1))
      else (failure, c, r.1)

  unfoldable pub push : (val : List ℕ) → hv.Vcpu → Mem → Status × hv.Vcpu × Mem
  unfolding pushed
  push val c m =
      let sp = sub64 (rreg hv c rsp) (length val) in
      pushed (length val) sp c (vm_mem_write sp val m)

  unfoldable pub push32 : (val : ℕ) → hv.Vcpu → Mem → Status × hv.Vcpu × Mem
  unfolding push
  push32 val = push (le_bytes 4 val)

  unfoldable pub push64 : (val : ℕ) → hv.Vcpu → Mem → Status × hv.Vcpu × Mem
  unfolding push
  push64 val = push (le_bytes 8 val)

module _ (env : Env) where
  -- `stop` and the state after a function of src/emu.c.
  abbrev pub emulated : Machine env → ℕ × env.hv.Vcpu → ℕ × Machine env
  emulated s r = (r.0, record s { cpu = r.1 })

  -- Whether the instruction before the address in RCX is `syscall`.
  unfoldable pub at_syscall : Machine env → Bool
  at_syscall s =
      let gpa = gva_to_gpa env.locals s.mem (reg env s rcx - 2) in
      let op = vm_mem_read s.mem gpa (le_bytes 2 0) in
      ltb 1 (reg env s rcx) && (op.0 == 2 && le_value op.1 == 0x050f)

  abbrev pub stop_unless : Outcome × Machine env → ℕ × Machine env
  stop_unless (handled, s) = (0, s)
  stop_unless (quit, s) = (1, s)
  stop_unless (failed, s) = (1, s)

  -- The case `default`.
  unfoldable pub exit_other : Machine env → ℕ × Machine env
  unfolding at_syscall
  exit_other s =
      if at_syscall s
      then stop_unless (emu_syscall env (set_reg env rip (reg env s rcx) s))
      else (1, s)

  -- The case VMX_REASON_EXC_NMI.
  unfoldable pub exit_exc_nmi : Machine env → ℕ × Machine env
  exit_exc_nmi s =
      if rvmcs env.hv 0 s.cpu idt_vector_info % 256 == 0
      then (1, s)
      else (0, record s { cpu = skip env.hv 2 s.cpu })

  -- The `switch`: the new value of `stop`, and the state.
  unfoldable pub handle_exit : ExitReason → Machine env → ℕ × Machine env
  unfolding exit_other exit_exc_nmi
  handle_exit exc_nmi s = exit_exc_nmi s
  handle_exit irq s = (0, s)
  handle_exit vmcall s =
      (0, record s { cpu = skip env.hv (rvmcs env.hv 0 s.cpu exit_instr_len) s.cpu })
  handle_exit hlt s = (1, s)
  handle_exit ept_violation s = (0, s)
  handle_exit rdmsr s = emulated s (emu_rdmsr env.hv s.cpu)
  handle_exit wrmsr s = emulated s (emu_wrmsr env.hv s.cpu)
  handle_exit mov_cr s = emulated s (emu_mov_cr env.hv env.locals.entry s.cpu)
  handle_exit cpuid s = emulated s (emu_cpuid env.hv s.cpu)
  handle_exit other s = exit_other s

  -- The guest's part of an iteration, and whether it went well.
  unfoldable pub enter_guest : Machine env → Bool × Machine env
  enter_guest s = let r = env.hv.run s.cpu s.mem in (r.0, record s { cpu = r.1; mem = r.2 })

  -- The body of the loop.
  unfoldable pub vcpu_step : Machine env → ℕ × Machine env
  vcpu_step s =
      let r = enter_guest s in
      if r.0
      then handle_exit (env.hv.reason_of (rvmcs env.hv 0 r.1.cpu exit_reason)) r.1
      else (1, r.1)

  -- The loop, for at most `fuel` exits: `none` if the guest is not done by then.
  unfoldable pub vcpu_run : (fuel : ℕ) → Machine env → Option (Machine env)
  unfolding vcpu_step
  vcpu_run zero s = none
  vcpu_run (suc fuel) s =
      let r = vcpu_step s in let rest = vcpu_run fuel r.1 in if r.0 == 0 then rest else some r.1
