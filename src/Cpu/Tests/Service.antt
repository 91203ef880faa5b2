-- ===== src/Cpu/Tests/Service.antt =====
-- A guest that leaves at a `syscall`, to write or to read three bytes.
use masters_proj.Prelude.{
  ℕ, ◌+◌, ◌-◌, ◌≡◌, ◌↔◌, ◌⊎◌, refl, ◌&&◌, some, arith, ◌==◌, ltb, leb, if◌then◌else◌, u32,
}
use masters_proj.Prelude.{List, [], ◌∷◌, ◌++◌, none, false}
use masters_proj.Prelude.Bytes.{slice}
use masters_proj.Mem.State.{Mem}
use masters_proj.Mem.Gpa.{locate, gpa_to_hva}
use masters_proj.Mem.Access.{vm_mem_read, read64}
use masters_proj.Mem.Access.View.{view}
use masters_proj.Mem.Paging.{decode_gva, gva_to_gpa, vm_mem_verify}
use masters_proj.Cpu.State.{rax, rcx, rdi, rsi, rdx, rreg, wreg, rvmcs}
use masters_proj.Cpu.Syscall.{handled, Env, Machine, reg, host_address, answer, emu_syscall}
use masters_proj.Cpu.Syscall.Received.{Received, read_answer}
use masters_proj.Cpu.Run.{at_syscall, enter_guest, handle_exit, exit_other, vcpu_step, vcpu_run}
use masters_proj.Cpu.Run.Session.{
  WritesNow, after_write, Session, ends, writes, joined, vcpu_run-Session,
}
use masters_proj.Cpu.Run.Exit.{called, AtSyscall, Returned, exit_other-Returned}
use masters_proj.Cpu.Run.Service.{answered, vcpu_step-Received}
use masters_proj.Cpu.Tests.Samples.{
  Reg_discrete, sample_cpu, sample_hv, sample_works, sample_env, page_mem, page_mem-IsValid,
}

-- The two bytes of the instruction at 0x100.
abbrev with_syscall : Mem
with_syscall = record page_mem {
  bytes = λ a. if a == 0x1100 then 0x0f else if a == 0x1101 then 0x05 else 0;
}

abbrev calling : ℕ → sample_hv.Vcpu
calling code =
    wreg sample_hv rcx 0x102
      (wreg sample_hv rsi 0x100 (wreg sample_hv rax code (wreg sample_hv rdx 3 sample_cpu)))

-- A host that reads the bytes 1, 2, 3, ...
abbrev counting_env : Env
counting_env = record sample_env {
  os = record sample_env.os {
    os_read = λ fildes buf nbyte b w.
        (nbyte, (λ a. if leb buf a && ltb a (buf + nbyte) then a - buf + 1 else b a), w);
  };
}

abbrev at_write : Machine sample_env
at_write = record { cpu = calling 0x2000004; mem = with_syscall; world = 0 }

abbrev at_read : Machine counting_env
at_read = record { cpu = calling 0x2000003; mem = with_syscall; world = 0 }

exit_other-Returned_example :
    ((¬ AtSyscall sample_env at_write) × (exit_other sample_env at_write ≡ (1, at_write)))
    ⊎ (AtSyscall sample_env at_write
        × Returned sample_env at_write (exit_other sample_env at_write).1
        × (((exit_other sample_env at_write).0 ≡ 0)
            ↔ ((emu_syscall sample_env (called sample_env sample_works at_write)).0 ≡ handled)))
exit_other-Returned_example =
    exit_other-Returned sample_env sample_works at_write page_mem-IsValid (λ a. ground arith)

-- The two bytes stand before the address in RCX.
at_write-AtSyscall : AtSyscall sample_env at_write
unfolding rreg wreg Reg_discrete gva_to_gpa decode_gva read64 vm_mem_read gpa_to_hva locate view
at_write-AtSyscall = (omega arith, refl, refl)

vcpu_step-Received_example :
    let buf = host_address counting_env at_read (reg counting_env at_read rsi) in
    let s' = answered counting_env at_read (
      read_answer counting_env at_read
        (u32 (reg counting_env at_read rdi))
        buf
        (reg counting_env at_read rdx)) in
    (vcpu_step counting_env at_read ≡ (0, s'))
    × Received
        (gva_to_gpa counting_env.locals at_read.mem (reg counting_env at_read rsi))
        3
        (λ i. i + 1)
        at_read.mem
        s'.mem
unfolding rreg wreg rvmcs Reg_discrete enter_guest at_syscall vm_mem_verify gva_to_gpa decode_gva
    read64 vm_mem_read gpa_to_hva locate answer
vcpu_step-Received_example =
    vcpu_step-Received counting_env sample_works at_read at_read 3 (λ i. i + 1) refl refl refl refl
      page_mem-IsValid refl (omega arith) (omega arith) refl
      (record { count = omega arith; inside = λ i lt. ground arith; outside = λ h o. ground arith })

-- A host whose world is the output, and the guest at its write. The syscall that follows has the
-- count of bytes for its number, which ends the run.
abbrev writing_env : Env
writing_env = record {
  hv = sample_hv;
  World = List ℕ;
  os = record {
    getchar = λ w. (0, w);
    os_write = λ fildes buf nbyte b w. (nbyte, b, w ++ slice b buf nbyte);
    os_read = λ fildes buf nbyte b w. (nbyte, b, w);
    os_open = λ path flags mode b w. (3, b, w);
    os_close = λ fd b w. (0, b, w);
  };
  ops = record { cb_write = none; cb_read = none; cb_open = none; cb_close = none };
  syscall_interactive = false;
  locals = record { entry = 77; table = 88 };
}

abbrev writer : Machine writing_env
writer = record { cpu = calling 0x2000004; mem = with_syscall; world = 7 ∷ [] }

abbrev sent : List ℕ
sent = 0x0f ∷ 0x05 ∷ 0 ∷ []

abbrev finished : Machine writing_env
finished = (vcpu_step writing_env (after_write writing_env writer)).1

writer-WritesNow : WritesNow writing_env writer writer sent
unfolding rreg wreg rvmcs Reg_discrete enter_guest at_syscall vm_mem_verify gva_to_gpa decode_gva
    read64 vm_mem_read gpa_to_hva locate view
writer-WritesNow = record {
  went = refl;
  reason = refl;
  call = refl;
  code = refl;
  valid = page_mem-IsValid;
  some_bytes = omega arith;
  in_page = omega arith;
  accepted = refl;
  count = refl;
  sees = (refl, (refl, (refl, tt)));
}

writer-Session : Session writing_env (λ w. w) writer (sent ∷ []) finished
unfolding rreg wreg rvmcs Reg_discrete enter_guest at_syscall vm_mem_verify gva_to_gpa decode_gva
    read64 vm_mem_read gpa_to_hva locate answer vcpu_step handle_exit exit_other emu_syscall
writer-Session =
    writes writer writer finished sent [] writer-WritesNow
      (ends (after_write writing_env writer) (λ e. absurd (omega arith)) refl)

vcpu_run-Session_example :
    (fuel : ℕ) × (vcpu_run writing_env fuel writer ≡ some finished)
    × (finished.world ≡ writer.world ++ joined (sent ∷ []))
vcpu_run-Session_example =
    vcpu_run-Session writing_env (λ w. w)
      (record { host = λ fildes buf nbyte b w. refl; no_plugin = refl; not_interactive = refl })
      sample_works writer finished (sent ∷ []) writer-Session
