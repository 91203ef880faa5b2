-- ===== src/Cpu/Run/Service.antt =====
-- An iteration of `vcpu_run` that serves a `write` of the guest, from the exit to the next entry.
use masters_proj.Prelude.{
  ℕ, ◌+◌, ◌%◌, ◌≤◌, ◌<◌, ◌≡◌, ◌≢◌, refl, ap, ◌∙◌, subst, true, false, some, u32,
}
use masters_proj.Mem.State.{success}
use masters_proj.Mem.Gpa.Layout.{IsValid}
use masters_proj.Mem.Access.View.{view}
use masters_proj.Mem.Paging.{gva_to_gpa, vm_mem_verify}
use masters_proj.Cpu.State.{
  Reg, rip, rax, rcx, rdi, rsi, rdx, exit_reason, other, Works, rvmcs, rreg-wreg_other,
}
use masters_proj.Cpu.Syscall.{Env, Machine, reg, set_reg, host_address, emu_syscall}
use masters_proj.Cpu.Syscall.Sent.{write_answer, Sends, emu_syscall-Sends}
use masters_proj.Cpu.Syscall.Received.{Delivered, Received, read_answer, Reads, emu_syscall-Reads}
use masters_proj.Cpu.Run.{at_syscall, stop_unless, exit_other, handle_exit, enter_guest, vcpu_step}
use masters_proj.Cpu.Run.Exit.{called}

-- An iteration whose guest leaves at a `syscall`.
vcpu_step-syscall :
    (env : Env) (works : Works env.hv) (s g : Machine env)
    → enter_guest env s ≡ (true, g)
    → env.hv.reason_of (rvmcs env.hv 0 g.cpu exit_reason) ≡ other
    → at_syscall env g ≡ true
    → vcpu_step env s ≡ stop_unless env (emu_syscall env (called env works g))
unfolding vcpu_step handle_exit exit_other
vcpu_step-syscall env works s g went reason call = rw (went, reason, call) refl

-- RIP alone differs when the call is made.
reg-called :
    (env : Env) (works : Works env.hv) (g : Machine env) (r : Reg)
    → rip ≢ r
    → reg env (called env works g) r ≡ reg env g r
reg-called env works g r ne = rreg-wreg_other env.hv works g.cpu (reg env g rcx) rip r ne

-- The state in which the guest goes on.
abbrev pub answered : (env : Env) → (g : Machine env) → ℕ × (ℕ → ℕ) × env.World → Machine env
answered env g a =
    set_reg env rax a.0 (record (set_reg env rip (reg env g rcx) g) {
      mem = record g.mem { bytes = a.1 };
      world = a.2;
    })

-- A statement about the arguments of a call, which are the same in both states.
called-args :
    (env : Env) (works : Works env.hv) (g : Machine env) (P : (fildes gva nbyte : ℕ) → Type 0)
    → let c = called env works g in
      P (reg env c rdi) (reg env c rsi) (reg env c rdx)
      → P (reg env g rdi) (reg env g rsi) (reg env g rdx)
called-args env works g P p =
    let c = called env works g in
    let same = reg-called env works g in
    subst (λ di. P di (reg env g rsi) (reg env g rdx)) (same rdi (λ e. cc))
      (subst (λ si. P (reg env c rdi) si (reg env g rdx)) (same rsi (λ e. cc))
        (subst (λ dx. P (reg env c rdi) (reg env c rsi) dx) (same rdx (λ e. cc)) p))

-- On a CPU whose calls succeed: if the guest leaves, in the state `g`, at a `syscall` with the number
-- of `write`, with well-formed regions, not interactively, and with a buffer that lies in one page
-- and that `vm_mem_verify` accepts, then the iteration of `vcpu_run` calls the plugin or the host
-- once, with the guest's descriptor and count and the host's address of the buffer, from which on
-- the host's memory holds the bytes that the guest sees in its buffer, all of them and in their
-- order; the run goes on, RIP is the address behind the `syscall`, RAX the answer, and memory and
-- the world are as the call left them.
pub vcpu_step-Sent :
    (env : Env) (works : Works env.hv) (s g : Machine env)
    → enter_guest env s ≡ (true, g)
    → env.hv.reason_of (rvmcs env.hv 0 g.cpu exit_reason) ≡ other
    → at_syscall env g ≡ true
    → reg env g rax ≡ 0x2000004
    → IsValid g.mem.regions
    → env.syscall_interactive ≡ false
    → 0 < reg env g rdx
    → reg env g rsi % 4096 + reg env g rdx ≤ 4096
    → vm_mem_verify env.locals g.mem (reg env g rsi) (reg env g rdx) ≡ success
    → let buf = host_address env g (reg env g rsi) in
      let a = write_answer env g (u32 (reg env g rdi)) buf (reg env g rdx) in
      (vcpu_step env s ≡ (0, answered env g a))
      × ((i : ℕ)
          → i < reg env g rdx
          → view g.mem (gva_to_gpa env.locals g.mem (reg env g rsi + i))
            ≡ some (g.mem.bytes (buf + i)))
vcpu_step-Sent env works s g went reason call code v quiet some_bytes room ok =
    let c = called env works g in
    let code' = reg-called env works g rax (λ e. cc) ∙ code in
    let (does, sees) =
      called-args env works g (Sends env c) (emu_syscall-Sends env c works v code' quiet) some_bytes
        room ok in
    (vcpu_step-syscall env works s g went reason call ∙ ap (stop_unless env) does, sees)

-- On a CPU whose calls succeed: if the guest leaves, in the state `g`, at a `syscall` with the number
-- of `read`, with well-formed regions, not interactively, with a buffer that lies in one page and
-- that `vm_mem_verify` accepts, and if the plugin or the host stores `k` bytes from the address that
-- it is given on and changes no other of its memory, then after the iteration of `vcpu_run` the run
-- goes on, RIP is the address behind the `syscall`, RAX the answer, and the guest sees these bytes
-- from the start of its buffer on and all its other memory as before.
pub vcpu_step-Received :
    (env : Env) (works : Works env.hv) (s g : Machine env) (k : ℕ) (content : ℕ → ℕ)
    → enter_guest env s ≡ (true, g)
    → env.hv.reason_of (rvmcs env.hv 0 g.cpu exit_reason) ≡ other
    → at_syscall env g ≡ true
    → reg env g rax ≡ 0x2000003
    → IsValid g.mem.regions
    → env.syscall_interactive ≡ false
    → 0 < reg env g rdx
    → reg env g rsi % 4096 + reg env g rdx ≤ 4096
    → vm_mem_verify env.locals g.mem (reg env g rsi) (reg env g rdx) ≡ success
    → Delivered
        (host_address env g (reg env g rsi))
        (reg env g rdx)
        k
        content
        g.mem.bytes
        (read_answer env g
          (u32 (reg env g rdi))
          (host_address env g (reg env g rsi))
          (reg env g rdx)).1
    → let buf = host_address env g (reg env g rsi) in
      let s' = answered env g (read_answer env g (u32 (reg env g rdi)) buf (reg env g rdx)) in
      (vcpu_step env s ≡ (0, s'))
      × Received (gva_to_gpa env.locals g.mem (reg env g rsi)) k content g.mem s'.mem
vcpu_step-Received env works s g k content went reason call code v quiet some_bytes room ok d =
    let c = called env works g in
    let code' = reg-called env works g rax (λ e. cc) ∙ code in
    let (does, sees) =
      called-args env works g (Reads env c) (emu_syscall-Reads env c works v code' quiet) k content
        some_bytes room ok d in
    (vcpu_step-syscall env works s g went reason call ∙ ap (stop_unless env) does, sees)
