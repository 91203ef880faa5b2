-- ===== src/Cpu/Syscall/Sent.antt =====
-- What the host gets of a `write`.
use masters_proj.Prelude.{ℕ, ◌+◌, ◌%◌, ◌≤◌, ◌<◌, ◌≡◌, ◌∙◌, false, some, arith, u32, subst}
use mathlib.Core.Option
use masters_proj.Mem.State.{success}
use masters_proj.Mem.Gpa.Layout.{IsValid}
use masters_proj.Mem.Access.View.{view, Mapped}
use masters_proj.Mem.Paging.{gva_to_gpa, vm_mem_verify}
use masters_proj.Mem.Paging.Verify.{vm_mem_verify_iff}
use masters_proj.Cpu.State.{rax, rdi, rsi, rdx, Works, rreg-lt}
use masters_proj.Cpu.Syscall.{
  Env, Machine, handled, reg, set_reg, host_address, answer, finish, emu_syscall, emu_syscall_write,
}
use masters_proj.Cpu.Syscall.Ends.{prompt_off, verified_success}
use masters_proj.Cpu.Syscall.Buffer.{host_address-page}

-- The answer to a `write` of `nbyte` bytes that stand at `buf` in the host, by the plugin or the
-- host.
abbrev pub write_answer :
    (env : Env) → Machine env → (fildes buf nbyte : ℕ) → ℕ × (ℕ → ℕ) × env.World
write_answer env s fildes buf nbyte =
    answer (Option.map (λ f. f fildes buf nbyte) env.ops.cb_write)
      (env.os.os_write fildes buf nbyte) s.mem.bytes s.world

emu_syscall-write :
    (env : Env) (s : Machine env)
    → reg env s rax ≡ 0x2000004
    → env.syscall_interactive ≡ false
    → vm_mem_verify env.locals s.mem (reg env s rsi) (reg env s rdx) ≡ success
    → let a =
        write_answer env s
          (u32 (reg env s rdi))
          (host_address env s (reg env s rsi))
          (reg env s rdx) in
      emu_syscall env s ≡ (
        handled,
        set_reg env rax a.0 (record s { mem = record s.mem { bytes = a.1 }; world = a.2 }),
      )
unfolding emu_syscall emu_syscall_write finish
emu_syscall-write env s code quiet ok =
    let fildes = u32 (reg env s rdi) in
    let buf = host_address env s (reg env s rsi) in
    let nbyte = reg env s rdx in
    let cb = Option.map (λ f. f fildes buf nbyte) env.ops.cb_write in
    let host = env.os.os_write fildes buf nbyte in
    rw code (
      verified_success env _ _ _ s ok
      ∙ prompt_off env (λ s'. (handled, finish env (λ ret. ret) cb host s')) s quiet)

-- What a `write` with these arguments does: it sends the bytes that the guest sees in its buffer.
abbrev pub Sends : (env : Env) → Machine env → (fildes gva nbyte : ℕ) → Type 0
Sends env s fildes gva nbyte =
    0 < nbyte
    → gva % 4096 + nbyte ≤ 4096
    → vm_mem_verify env.locals s.mem gva nbyte ≡ success
    → let buf = host_address env s gva in
      let a = write_answer env s (u32 fildes) buf nbyte in
      (emu_syscall env s ≡ (
        handled,
        set_reg env rax a.0 (record s { mem = record s.mem { bytes = a.1 }; world = a.2 }),
      ))
      × ((i : ℕ)
          → i < nbyte
          → view s.mem (gva_to_gpa env.locals s.mem (gva + i)) ≡ some (s.mem.bytes (buf + i)))

-- In a state with well-formed regions, a `write` that is not interactive.
pub emu_syscall-Sends :
    (env : Env) (s : Machine env)
    → Works env.hv
    → IsValid s.mem.regions
    → reg env s rax ≡ 0x2000004
    → env.syscall_interactive ≡ false
    → Sends env s (reg env s rdi) (reg env s rsi) (reg env s rdx)
emu_syscall-Sends env s works v code quiet some_bytes room ok =
    let gva = reg env s rsi in
    let lt = rreg-lt env.hv works s.cpu rsi in
    let mapped : Mapped s.mem (gva_to_gpa env.locals s.mem gva) =
      subst (λ a. Mapped s.mem (gva_to_gpa env.locals s.mem a)) (omega arith)
        ((vm_mem_verify_iff env.locals s.mem gva (reg env s rdx) lt).0 ok 0 some_bytes) in
    (
      emu_syscall-write env s code quiet ok,
      λ i l. (host_address-page env s gva i v mapped (omega (arith, l, room))).1,
    )
