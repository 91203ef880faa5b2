-- ===== src/Main/Tests/Writer.antt =====
-- A whole run of `main`, for a guest that writes its name, which is its first argument, and halts.
use masters_proj.Prelude.{
  ℕ, zero, suc, ◌+◌, ◌%◌, ◌^◌, ◌<◌, ◌≡◌, refl, ap, sym, ◌∙◌, subst, true, ◌&&◌, List, [], ◌∷◌, ◌++◌,
  none, some, arith, ◌==◌, if◌then◌else◌, u64,
}
use masters_proj.Prelude.Bytes.{slice, le_value}
use masters_proj.Mem.State.{Mem, success}
use masters_proj.Mem.Access.{vm_mem_read}
use masters_proj.Mem.Access.View.{view, Mapped, Holds, view-Mapped, vm_mem_read-Holds}
use masters_proj.Mem.Paging.{gva_to_gpa, vm_mem_verify}
use masters_proj.Mem.Paging.Verify.{vm_mem_verify_iff}
use masters_proj.Mem.Tests.{sample_host, sample-Honest, sample-Willing}
use masters_proj.Cpu.State.{
  rip, rax, rcx, rsi, rdx, hlt, other, Hypervisor, Works, rreg, wreg, rvmcs,
}
use masters_proj.Cpu.Syscall.{Machine}
use masters_proj.Cpu.Run.{at_syscall, handle_exit, enter_guest, vcpu_step}
use masters_proj.Cpu.Run.Session.{WritesNow, after_write, Session, ends, writes}
use masters_proj.Cpu.Tests.Samples.{SampleCpu, Reg_discrete, sample_cpu, sample_hv, sample_works}
use masters_proj.MachO.Tests.{sample_format, sample_file}
use masters_proj.Loader.Entry.{start_of}
use masters_proj.Loader.Tests.{sample_system, sample_stack, sample-IsFile, sample-IsProgram}
use masters_proj.Main.{
  Site, Process, proceeds, creates_vm, creates_vcpu, destroys_vm, destroys_vcpu, launch, env_of,
  machine_of, main,
}
use masters_proj.Main.Options.{opt_k, set_option, set_options}
use masters_proj.Main.Ready.{IsReady, launch-IsReady}
use masters_proj.Main.Output.{main-Session}
use masters_proj.Main.Tests.{fresh_process, app_name, kernel_name, kernel_given}

-- The guest at its `syscall`, whose two bytes are its second argument, and at its end.
abbrev at_write : SampleCpu
at_write =
    wreg sample_hv rcx 0x7206
      (wreg sample_hv rsi 0x7200 (wreg sample_hv rax 0x2000004 (wreg sample_hv rdx 3 sample_cpu)))

abbrev at_end : SampleCpu
at_end = record sample_cpu { fields = λ f. 12 }

-- From the address of the kernel on it runs to the first, and from there to the second.
abbrev writer_hv : Hypervisor
writer_hv = record sample_hv {
  run = λ c m. (true, (if c.regs rip % 2 ^ 64 == 0x8000 then at_write else at_end), m);
  reason_of = λ v. if v == 12 then hlt else other;
}

writer_works : Works writer_hv
writer_works = record {
  write_ok = sample_works.write_ok;
  reg_read = sample_works.reg_read;
  reg_same = sample_works.reg_same;
  reg_other = sample_works.reg_other;
  vmcs_read = sample_works.vmcs_read;
  vmcs_same = sample_works.vmcs_same;
  vmcs_other = sample_works.vmcs_other;
  reg_vmcs = sample_works.reg_vmcs;
  vmcs_reg = sample_works.vmcs_reg;
}

abbrev writer_site : Site
writer_site = record {
  sys = sample_system;
  fmt = sample_format;
  host = sample_host;
  hv = writer_hv;
  Outside = List ℕ;
  os = record {
    getchar = λ w. (0, w);
    os_write = λ fildes buf nbyte b w. (nbyte, b, w ++ slice b buf nbyte);
    os_read = λ fildes buf nbyte b w. (nbyte, b, w);
    os_open = λ path flags mode b w. (3, b, w);
    os_close = λ fd b w. (0, b, w);
  };
  linker = record {
    dlopen = λ path. 1;
    dlsym = λ handle. 9;
    plugin_init = λ address ops. (0, ops);
  };
  opens_log = λ path. true;
  hv_vm_create = true;
  hv_vcpu_create = some sample_cpu;
  hv_vcpu_destroy = λ c. true;
  hv_vm_destroy = true;
  stack = sample_stack;
}

abbrev writer_process : Process writer_site
writer_process =
    fresh_process writer_site
      (record { cb_write = none; cb_read = none; cb_open = none; cb_close = none }) sample_cpu
      (1 ∷ 2 ∷ [])

writer-IsReady :
    (s' : Process writer_site) × (launch kernel_name none app_name
        ((15 ∷ 5 ∷ []) ∷ [])
        writer_process
      ≡ proceeds s')
    × IsReady writer_site
        (slice sample_file 0 128)
        (start_of sample_format sample_file 104)
        128
        sample_file
        (app_name ∷ (15 ∷ 5 ∷ []) ∷ [])
        s'
writer-IsReady =
    launch-IsReady writer_site writer_process sample_cpu kernel_name app_name none
      ((15 ∷ 5 ∷ []) ∷ []) 128 128 104 sample_file sample_file 5 sample-Honest sample-Willing
      writer_works (λ msr c. refl) refl refl (record { regions = refl; pml4 = refl })
      (sample-IsFile kernel_name) (omega arith) (λ p. tt) (sample-IsFile app_name) refl
      sample-IsProgram (omega arith) (omega arith)

abbrev writer_start : Process writer_site
writer_start = writer-IsReady.0

-- The state in which the guest leaves for its write.
abbrev leaving : Machine (env_of kernel_given writer_start)
leaving = record (machine_of kernel_given writer_start) { cpu = at_write }

abbrev start_mem : Mem
start_mem = writer_start.world.mem

identity : (a : ℕ) → a < 0x10000 → gva_to_gpa sample_stack.locals start_mem a ≡ a
identity = writer-IsReady.2.identity

name_at : Holds start_mem 0x7200 (97 ∷ 112 ∷ 112 ∷ 0 ∷ [])
name_at = writer-IsReady.2.args.1

call_at : Holds start_mem 0x7204 (15 ∷ 5 ∷ 0 ∷ [])
call_at = writer-IsReady.2.args.2.1

leaving-at_syscall : at_syscall (env_of kernel_given writer_start) leaving ≡ true
unfolding at_syscall rreg wreg Reg_discrete
leaving-at_syscall =
    let test = λ (op : ℕ × List ℕ). op.0 == 2 && le_value op.1 == 0x050f in
    ap (λ g. test (vm_mem_read start_mem g (0 ∷ 0 ∷ []))) (identity 0x7204 (omega arith))
    ∙ ap test (
        vm_mem_read-Holds start_mem 0x7204 (0 ∷ 0 ∷ []) (15 ∷ 5 ∷ []) writer-IsReady.2.valid
          (call_at.0, (call_at.1.0, tt)) refl)

letter : (i : ℕ) → i < 3 → Mapped start_mem (0x7200 + i)
letter zero lt = view-Mapped start_mem 0x7200 97 name_at.0
letter (suc zero) lt = view-Mapped start_mem 0x7201 112 name_at.1.0
letter (suc (suc zero)) lt = view-Mapped start_mem 0x7202 112 name_at.1.1.0
letter (suc (suc (suc i))) lt = absurd (omega arith)

name_verified : vm_mem_verify sample_stack.locals start_mem 0x7200 3 ≡ success
name_verified = (vm_mem_verify_iff sample_stack.locals start_mem 0x7200 3 (omega arith)).1 λ i lt.
    let at : u64 (0x7200 + i) ≡ 0x7200 + i = omega arith in
    subst (Mapped start_mem) (sym (identity (u64 (0x7200 + i)) (omega arith)))
      (subst (Mapped start_mem) (sym at) (letter i lt))

leaving-WritesNow :
    WritesNow
      (env_of kernel_given writer_start)
      (machine_of kernel_given writer_start)
      leaving
      (97 ∷ 112 ∷ 112 ∷ [])
unfolding rreg wreg rvmcs Reg_discrete enter_guest
leaving-WritesNow = record {
  went =
      ap
        (λ n. (
          true,
          record (machine_of kernel_given writer_start) {
            cpu = if n == 0x8000 then at_write else at_end;
          },
        ))
        writer-IsReady.2.at_rip;
  reason = refl;
  call = leaving-at_syscall;
  code = refl;
  valid = writer-IsReady.2.valid;
  some_bytes = omega arith;
  in_page = omega arith;
  accepted = name_verified;
  count = refl;
  sees = (
    ap (view start_mem) (identity 0x7200 (omega arith)) ∙ name_at.0,
    (
      ap (view start_mem) (identity 0x7201 (omega arith)) ∙ name_at.1.0,
      (ap (view start_mem) (identity 0x7202 (omega arith)) ∙ name_at.1.1.0, tt),
    ),
  );
}

abbrev last_exit : Machine (env_of kernel_given writer_start)
last_exit =
    (vcpu_step (env_of kernel_given writer_start)
      (after_write (env_of kernel_given writer_start) leaving)).1

writer-Session :
    Session
      (env_of kernel_given writer_start)
      (λ w. w)
      (machine_of kernel_given writer_start)
      ((97 ∷ 112 ∷ 112 ∷ []) ∷ [])
      last_exit
unfolding rreg wreg rvmcs Reg_discrete enter_guest vcpu_step handle_exit
writer-Session =
    writes (machine_of kernel_given writer_start) leaving last_exit (97 ∷ 112 ∷ 112 ∷ []) []
      leaving-WritesNow
      (ends (after_write (env_of kernel_given writer_start) leaving) (λ e. absurd (omega arith))
        refl)

-- The output is what it was, 1 and 2, and `app`.
main-Session_example :
    (fuel : ℕ) × (end : Process writer_site) × (main fuel
        (opt_k kernel_name ∷ [])
        (app_name ∷ (15 ∷ 5 ∷ []) ∷ [])
        writer_process
      ≡ some (0, end))
    × (end.rest ≡ 1 ∷ 2 ∷ 97 ∷ 112 ∷ 112 ∷ [])
    × (end.calls ≡ destroys_vm ∷ destroys_vcpu ∷ creates_vcpu ∷ creates_vm ∷ [])
unfolding set_options set_option
main-Session_example =
    main-Session (opt_k kernel_name ∷ []) kernel_given writer_process writer_start kernel_name
      app_name ((15 ∷ 5 ∷ []) ∷ []) (λ w. w) ((97 ∷ 112 ∷ 112 ∷ []) ∷ []) last_exit writer_works
      (λ c. refl) refl refl refl writer-IsReady.1 refl refl refl (λ fildes buf nbyte b w. refl)
      writer-Session
