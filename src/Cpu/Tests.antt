-- ===== src/Cpu/Tests.antt =====
-- The theorems on the CPU with a sample CPU, whose registers and fields are two functions, and a
-- host that answers every call with the number of bytes asked for.
pub mod Samples
mod Service
use masters_proj.Cpu.Setup.{vcpu_setup_ia32}
use masters_proj.Cpu.Setup.Start.{vcpu_setup_ia32-start}
use masters_proj.Cpu.Emu.{emu_mov_cr}
use masters_proj.Cpu.Emu.ControlReg.{number_of, Cr0Kept, Cr0Written, emu_mov_cr-Cr0Written}
use masters_proj.Cpu.Run.{at_syscall, exit_other}
use masters_proj.Cpu.Syscall.{handled, reg, set_reg, answer}
use masters_proj.Cpu.State.{rsi, rdi, cr0}
use masters_proj.Prelude.{◌&&◌, ltb, leb, if◌then◌else◌, ◌++◌, map}
use masters_proj.Mem.Paging.{vm_mem_verify}
use masters_proj.Mem.Access.Word.{Word}
use masters_proj.Cpu.State.{rflags}
use masters_proj.Cpu.Tests.Samples.{setup_mem, setup_mem-IsValid, setup_mem-Mapped}
use masters_proj.Prelude.{◌⊎◌, true, false, ◌≤◌, ◌<◌}
use masters_proj.Mem.Access.View.{view, Holds}
use masters_proj.Prelude.Bytes.{le_bytes}
use masters_proj.Prelude.{
  ℕ, zero, suc, ◌+◌, ◌-◌, ◌*◌, ◌/◌, ◌%◌, ◌^◌, ◌≤◌, ◌<◌, ◌≡◌, ◌≢◌, refl, ◌↔◌, ◌⊎◌, inl, inr, List,
  [], ◌∷◌, Bool, true, false, Option, none, some, arith, ap, sym, ◌∙◌, u32, u64, sub64, bit_or,
}
use masters_proj.Prelude.Bytes.{le_bytes}
use masters_proj.Mem.State.{Mem, Status, success, failure}
use masters_proj.Mem.Gpa.{locate, gpa_to_hva}
use masters_proj.Mem.Gpa.Layout.{IsValid}
use masters_proj.Mem.Access.{vm_mem_read, read64}
use masters_proj.Mem.Access.View.{view, Mapped, Holds}
use masters_proj.Mem.Access.Word.{MappedRange}
use masters_proj.Mem.Paging.{decode_gva, gva_to_gpa}
use masters_proj.Cpu.State.{
  Reg, rip, rax, rcx, rdx, rsp, Field, exit_reason, exit_qualification, guest_efer, mov_cr,
  Hypervisor, Works, rreg, wreg, rvmcs,
}
use masters_proj.Cpu.Emu.{msr_efer, emu_rdmsr, emu_wrmsr}
use masters_proj.Cpu.Emu.Msr.{emu_rdmsr-emu_wrmsr}
use masters_proj.Cpu.Syscall.{Env, Machine, Outcome, failed, emu_syscall, host_address}
use masters_proj.Cpu.Syscall.Ends.{Ends}
use masters_proj.Cpu.Syscall.Effect.{Refused, emu_syscall-Ends}
use masters_proj.Cpu.Setup.{segment_fields, table_fields, start_regs}
use masters_proj.Cpu.Setup.Writes.{FieldsKept}
use masters_proj.Cpu.Dump.{CpuLine, vcpu_dump}
use masters_proj.Cpu.Dump.Start.{field_entry, reg_entry, vcpu_dump-vcpu_setup_ia32}
use masters_proj.Logging.{Logger, debug, info, init_logging, with_printed}
use masters_proj.Cpu.Run.{enter_guest, handle_exit, vcpu_step, vcpu_run, push, push64}
use masters_proj.Cpu.Run.Push.{Pushed, push-Pushed, read64-push64}
use masters_proj.Cpu.Run.Loop.{vcpu_run-more, vcpu_run-stuck}
use masters_proj.Cpu.Tests.Samples.{
  Reg_discrete, Field_discrete, sample_cpu, sample_hv, sample_works, sample_env, page_mem,
  page_mem-IsValid, page_mem-Mapped, machine,
}

-- A CPU at `wrmsr` or `rdmsr` of EFER, one at another MSR, one with the stack at 0x800, and one at
-- a move to CR4.
abbrev at_efer : sample_hv.Vcpu
at_efer = wreg sample_hv rcx msr_efer (wreg sample_hv rax 0x500 (wreg sample_hv rdx 7 sample_cpu))

abbrev at_star : sample_hv.Vcpu
at_star = wreg sample_hv rcx 0xc0000081 sample_cpu

abbrev with_stack : sample_hv.Vcpu
with_stack = wreg sample_hv rsp 0x800 sample_cpu

emu_rdmsr-emu_wrmsr_example :
    let w = emu_wrmsr sample_hv at_efer in
    let r = emu_rdmsr sample_hv w.1 in
    (w.0 ≡ 0)
    × (r.0 ≡ 0)
    × (rreg sample_hv r.1 rax ≡ u32 (rreg sample_hv at_efer rax))
    × (rreg sample_hv r.1 rdx ≡ u32 (rreg sample_hv at_efer rdx))
    × (rreg sample_hv r.1 rip ≡ u64 (rreg sample_hv at_efer rip + 4))
unfolding rreg wreg Reg_discrete
emu_rdmsr-emu_wrmsr_example = emu_rdmsr-emu_wrmsr sample_hv sample_works at_efer refl

push-Pushed_example :
    Pushed sample_hv
      (1 ∷ 2 ∷ [])
      with_stack
      page_mem
      (push sample_hv (1 ∷ 2 ∷ []) with_stack page_mem)
push-Pushed_example =
    push-Pushed sample_hv sample_works (1 ∷ 2 ∷ []) with_stack page_mem page_mem-IsValid

abbrev pushed_value : ℕ
pushed_value = 0x123456789a

-- A guest at a write of three bytes from 0x10, and one at an unknown call.
abbrev at_write : Machine sample_env
at_write = machine (wreg sample_hv rax 0x2000004 (wreg sample_hv rdx 3 sample_cpu))

emu_syscall-Ends_example :
    Ends sample_env at_write (emu_syscall sample_env at_write)
    × (((emu_syscall sample_env at_write).0 ≡ failed) ↔ Refused sample_env at_write)
emu_syscall-Ends_example = emu_syscall-Ends sample_env sample_works at_write

-- A CPU that leaves the guest for a move to CR4.
abbrev at_cr4 : Machine sample_env
at_cr4 =
    machine
      (sample_hv.write_vmcs exit_reason 28 (sample_hv.write_vmcs exit_qualification 4 sample_cpu))

vcpu_run-stuck_example : vcpu_run sample_env 1000 at_cr4 ≡ none
unfolding enter_guest rvmcs Field_discrete
vcpu_run-stuck_example = vcpu_run-stuck sample_env at_cr4 refl refl (λ e. absurd (omega arith)) 1000

vcpu_setup_ia32-start_example :
    let r = vcpu_setup_ia32 sample_hv sample_cpu setup_mem in
    (rreg sample_hv r.1 rip ≡ 0x8000)
    × (rreg sample_hv r.1 rflags ≡ 2)
    × (rreg sample_hv r.1 rsp ≡ 0x6ffc)
    × Word r.2 0 0
    × Word r.2 8 0
    × Word r.2 16 0x00cf9a000000ffff
    × Word r.2 24 0x00cf92000000ffff
    × Holds r.2 0x6ffc (le_bytes 4 setup_mem.pml4_gpa)
    × ((a : ℕ) → 32 ≤ a → (a < 0x6ffc) ⊎ (0x7000 ≤ a) → view r.2 a ≡ view setup_mem a)
vcpu_setup_ia32-start_example =
    vcpu_setup_ia32-start sample_hv sample_works sample_cpu setup_mem setup_mem-IsValid
      (λ i lt. setup_mem-Mapped (0 + i) (omega arith))
      (λ i lt. setup_mem-Mapped (0x6ffc + i) (omega arith))

-- A CPU that leaves the guest for a move of RAX, with the paging bit, to CR0.
abbrev at_cr0 : sample_hv.Vcpu
at_cr0 = wreg sample_hv rax 0x80000021 (sample_hv.write_vmcs guest_efer 0x100 sample_cpu)

sample-Cr0Kept : Cr0Kept sample_hv
sample-Cr0Kept = record { by_vmcs = λ f v c ne. refl }

emu_mov_cr-Cr0Written_example :
    let s = emu_mov_cr sample_hv 5 at_cr0 in
    (r : Reg) × (number_of r ≡ some (rvmcs sample_hv 0 at_cr0 exit_qualification / 2 ^ 8 % 16))
    × (s.0 ≡ 0)
    × (rreg sample_hv s.1 cr0 ≡ rreg sample_hv at_cr0 r)
    × Cr0Written sample_hv (rreg sample_hv at_cr0 r) at_cr0 s.1
unfolding rvmcs wreg Field_discrete
emu_mov_cr-Cr0Written_example =
    emu_mov_cr-Cr0Written sample_hv sample_works sample-Cr0Kept 5 at_cr0 refl

abbrev new_log : Logger CpuLine
new_log = record { level = info; fildes = none; printed = [] }

sample-FieldsKept : FieldsKept sample_hv
sample-FieldsKept = record { by_msr = λ msr c f. refl; by_reg = λ r v c f ne. refl }

vcpu_dump-vcpu_setup_ia32_example :
    let r = vcpu_setup_ia32 sample_hv sample_cpu setup_mem in
    let l = init_logging debug none new_log in
    ((debug ≡ debug)
      × (vcpu_dump sample_hv r.1 l
          ≡ with_printed
              (map field_entry (segment_fields ++ table_fields) ++ map reg_entry start_regs)
              l))
    ⊎ ((debug ≢ debug) × (vcpu_dump sample_hv r.1 l ≡ l))
vcpu_dump-vcpu_setup_ia32_example =
    vcpu_dump-vcpu_setup_ia32 sample_hv sample_works sample-FieldsKept sample_cpu setup_mem debug
      none new_log
