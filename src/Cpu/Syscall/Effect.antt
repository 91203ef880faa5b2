-- ===== src/Cpu/Syscall/Effect.antt =====
-- How each system call ends, and when it fails.
use masters_proj.Prelude.{
  ◌≡◌, ◌≢◌, refl, ◌⊎◌, inl, inr, ◌↔◌, true, arith, ◌==◌, ne→==-false, u32, sign_extend,
}
use native.Mathlib.Decide.{ℕ_discrete}
use mathlib.Core.Option
use masters_proj.Mem.State.{failure}
use masters_proj.Mem.Paging.{vm_mem_verify}
use masters_proj.Cpu.State.{rax, rdx, rsi, rdi, Works}
use masters_proj.Cpu.Syscall.{
  Outcome, failed, Env, Machine, host_address, reg, emu_syscall_write, emu_syscall_open,
  emu_syscall_close, emu_syscall_read, emu_syscall,
}
use masters_proj.Cpu.Syscall.Ends.{Ends, failed-Ends, call-Ends, buffer-Ends}

-- When a call fails.
abbrev pub Refused : (env : Env) → Machine env → Type 0
Refused env s =
    let code = reg env s rax in
    (((code ≡ 0x2000004) ⊎ (code ≡ 0x2000003))
      × (vm_mem_verify env.locals s.mem (reg env s rsi) (reg env s rdx) ≡ failure))
    ⊎ ((code ≢ 0x2000003) × (code ≢ 0x2000004) × (code ≢ 0x2000005) × (code ≢ 0x2000006))

module _ (env : Env) (works : Works env.hv) where
  -- What `emu_syscall_write` and `emu_syscall_read` have in common.
  Buffered : Machine env → Outcome × Machine env → Type 0
  Buffered s r =
      Ends env s r
      × ((r.0 ≡ failed)
          ↔ (vm_mem_verify env.locals s.mem (reg env s rsi) (reg env s rdx) ≡ failure))

  emu_syscall_write-Ends : (s : Machine env) → Buffered s (emu_syscall_write env s)
  unfolding Buffered emu_syscall_write
  emu_syscall_write-Ends s =
      let fildes = u32 (reg env s rdi) in
      let buf = host_address env s (reg env s rsi) in
      let nbyte = reg env s rdx in
      buffer-Ends env works (reg env s rsi) nbyte
        (Option.map (λ f. f fildes buf nbyte) env.ops.cb_write) (env.os.os_write fildes buf nbyte) s

  emu_syscall_read-Ends : (s : Machine env) → Buffered s (emu_syscall_read env s)
  unfolding Buffered emu_syscall_read
  emu_syscall_read-Ends s =
      let fildes = u32 (reg env s rdi) in
      let buf = host_address env s (reg env s rsi) in
      let nbyte = reg env s rdx in
      buffer-Ends env works (reg env s rsi) nbyte
        (Option.map (λ f. f fildes buf nbyte) env.ops.cb_read) (env.os.os_read fildes buf nbyte) s

  emu_syscall_open-Ends :
      (s : Machine env) → let r = emu_syscall_open env s in Ends env s r × (r.0 ≢ failed)
  unfolding emu_syscall_open
  emu_syscall_open-Ends s =
      let path = host_address env s (reg env s rdi) in
      let flags = u32 (reg env s rsi) in
      let mode = u32 (reg env s rdx) in
      call-Ends env works sign_extend (Option.map (λ f. f path flags mode) env.ops.cb_open)
        (env.os.os_open path flags mode) s

  emu_syscall_close-Ends :
      (s : Machine env) → let r = emu_syscall_close env s in Ends env s r × (r.0 ≢ failed)
  unfolding emu_syscall_close
  emu_syscall_close-Ends s =
      let fd = u32 (reg env s rdi) in
      call-Ends env works sign_extend (Option.map (λ f. f fd) env.ops.cb_close) (env.os.os_close fd)
        s

  -- On a CPU whose calls succeed: a call that is not emulated fails; a write or a read fails
  -- exactly if `vm_mem_verify` refuses its buffer; no other call fails. A call that fails
  -- changes nothing, an interactive run alone can be quit, and no call changes a register but
  -- RAX, the regions or the root table.
  pub emu_syscall-Ends :
      (s : Machine env)
      → Ends env s (emu_syscall env s) × (((emu_syscall env s).0 ≡ failed) ↔ Refused env s)
  unfolding emu_syscall Buffered
  emu_syscall-Ends s =
      let code = reg env s rax in
      elim (ℕ_discrete code 0x2000004) [
        | yes e ↦
            let t : (code == 0x2000004) ≡ true = ground arith in
            let (ends, iff) = emu_syscall_write-Ends s in
            rw t (
              ends,
              (
                λ f. inl (inl e, iff.0 f),
                λ r. elim r [ inl (_, bad) ↦ iff.1 bad | inr (_, n, _, _) ↦ absurd (n e) ],
              ),
            )
        | no n4 ↦ elim (ℕ_discrete code 0x2000005) [
          | yes e ↦
              let t : (code == 0x2000005) ≡ true = ground arith in
              let (ends, ne) = emu_syscall_open-Ends s in
              rw (ne→==-false _ _ n4, t)
                (
                  ends,
                  (
                    λ f. absurd (ne f),
                    λ r. elim r [
                      | inl (o, _) ↦ absurd (omega arith)
                      | inr (_, _, n, _) ↦ absurd (n e)
                    ],
                  ),
                )
          | no n5 ↦ elim (ℕ_discrete code 0x2000006) [
            | yes e ↦
                let t : (code == 0x2000006) ≡ true = ground arith in
                let (ends, ne) = emu_syscall_close-Ends s in
                rw (ne→==-false _ _ n4, ne→==-false _ _ n5, t)
                  (
                    ends,
                    (
                      λ f. absurd (ne f),
                      λ r. elim r [
                        | inl (o, _) ↦ absurd (omega arith)
                        | inr (_, _, _, n) ↦ absurd (n e)
                      ],
                    ),
                  )
            | no n6 ↦ elim (ℕ_discrete code 0x2000003) [
              | yes e ↦
                  let t : (code == 0x2000003) ≡ true = ground arith in
                  let (ends, iff) = emu_syscall_read-Ends s in
                  rw (ne→==-false _ _ n4, ne→==-false _ _ n5, ne→==-false _ _ n6, t)
                    (
                      ends,
                      (
                        λ f. inl (inr e, iff.0 f),
                        λ r. elim r [ inl (_, bad) ↦ iff.1 bad | inr (n, _, _, _) ↦ absurd (n e) ],
                      ),
                    )
              | no n3 ↦
                  rw
                    (ne→==-false _ _ n4, ne→==-false _ _ n5, ne→==-false _ _ n6, ne→==-false _ _ n3)
                    (failed-Ends env s, (λ _. inr (n3, n4, n5, n6), λ _. refl))
            ]
          ]
        ]
      ]
