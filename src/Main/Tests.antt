-- ===== src/Main/Tests.antt =====
-- The theorems on `main` at a fresh guest on a system with one file.
mod Writer
use masters_proj.Prelude.{ℕ, ◌≡◌, refl, true, false, List, [], ◌∷◌, ◌++◌, none, some, arith}
use masters_proj.Prelude.Bytes.{slice}
use masters_proj.Mem.Tests.{sample_host, sample-Honest, sample-Willing, fresh_mem}
use masters_proj.Cpu.Tests.Samples.{sample_cpu, sample_hv, sample_works, sample_env}
use masters_proj.MachO.Tests.{sample_format, sample_file}
use masters_proj.Cpu.State.{hlt, Hypervisor, Works}
use masters_proj.Cpu.Run.{handle_exit, enter_guest, vcpu_step}
use masters_proj.Cpu.Run.Session.{ends, joined}
use masters_proj.Main.Output.{main-Session}
use masters_proj.Cpu.Syscall.{PluginOps}
use masters_proj.Loader.Entry.{start_of}
use masters_proj.Loader.Tests.{sample_system, sample_stack, sample-IsFile, sample-IsProgram}
use masters_proj.Main.{
  Site, Process, proceeds, vm_called, creates_vm, creates_vcpu, destroys_vm, destroys_vcpu, env_of,
  machine_of, run_guest, run_main, main,
}
use masters_proj.Main.Options.Last.{set_options-last_of}
use masters_proj.Main.Options.{Settings, defaults, opt_i, opt_k, set_option, set_options}
use masters_proj.Main.Ready.{IsReady, launch-IsReady}
use masters_proj.Main.Run.{main-IsReady}
use masters_proj.Main.Failure.{run_main-missing}

abbrev sample_site : Site
sample_site = record {
  sys = sample_system;
  fmt = sample_format;
  host = sample_host;
  hv = sample_hv;
  Outside = ℕ;
  os = sample_env.os;
  linker = record {
    dlopen = λ path. 1;
    dlsym = λ handle. 9;
    plugin_init = λ address ops. (0, ops);
  };
  opens_log = λ path. true;
  hv_vm_create = true;
  hv_vcpu_create = some sample_cpu;
  hv_vcpu_destroy = λ c. true;
  hv_vm_destroy = true;
  stack = sample_stack;
}

-- A site where no virtual machine can be created, and one where no file can be opened.
abbrev no_vm : Site
no_vm = record sample_site { hv_vm_create = false }

abbrev no_files : Site
no_files = record sample_site { sys = record sample_system { open_fd = λ path. none } }

abbrev pub fresh_process :
    (site : Site) (ops : PluginOps site.Outside) (c : site.hv.Vcpu) (rest : site.Outside)
    → Process site
fresh_process site ops c rest = record {
  world = record { mem = fresh_mem; calls = [] };
  plugins = record { ops = ops; opened = 0; closed = 0 };
  vcpu = c;
  entry_gva = 66;
  rest = rest;
  calls = [];
}

abbrev sample_process : Process sample_site
sample_process = fresh_process sample_site sample_env.ops sample_cpu 0

abbrev no_vm_process : Process no_vm
no_vm_process = fresh_process no_vm sample_env.ops sample_cpu 0

abbrev no_files_process : Process no_files
no_files_process = fresh_process no_files sample_env.ops sample_cpu 0

abbrev pub app_name : List ℕ
app_name = 97 ∷ 112 ∷ 112 ∷ []

abbrev pub kernel_name : List ℕ
kernel_name = 107 ∷ []

abbrev no_vm_end : ℕ × Process no_vm
no_vm_end = (1, vm_called destroys_vm (vm_called creates_vm no_vm_process))

abbrev pub kernel_given : Settings
kernel_given = record defaults { kernel_path = some kernel_name }

run_main-missing_example :
    (s' : Process no_files) × (run_main 7 (app_name ∷ []) kernel_given no_files_process
      ≡ some (0, s'))
run_main-missing_example =
    run_main-missing no_files no_files_process sample_cpu 7 kernel_given kernel_name app_name []
      sample-Honest sample-Willing sample_works (λ msr c. refl) refl refl (λ c. refl) refl
      (record { regions = refl; pml4 = refl }) refl refl

set_options-last_of_example :
    set_options (λ path. true) (opt_k kernel_name ∷ opt_i ∷ opt_k (98 ∷ []) ∷ []) defaults
    ≡ some (record defaults { syscall_interactive = true; kernel_path = some (98 ∷ []) })
set_options-last_of_example =
    set_options-last_of (λ path. true) (opt_k kernel_name ∷ opt_i ∷ opt_k (98 ∷ []) ∷ []) defaults

-- `main -k k app -v`.
main-IsReady_example :
    (s' : Process sample_site) × ((fuel : ℕ)
      → main fuel (opt_k kernel_name ∷ []) (app_name ∷ (45 ∷ 118 ∷ []) ∷ []) sample_process
        ≡ run_guest fuel kernel_given s')
    × IsReady sample_site
        (slice sample_file 0 128)
        (start_of sample_format sample_file 104)
        128
        sample_file
        (app_name ∷ (45 ∷ 118 ∷ []) ∷ [])
        s'
unfolding set_options set_option
main-IsReady_example =
    main-IsReady (opt_k kernel_name ∷ []) kernel_given sample_site sample_process sample_cpu
      kernel_name app_name ((45 ∷ 118 ∷ []) ∷ []) 128 128 104 sample_file sample_file 5 refl refl
      sample-Honest sample-Willing sample_works (λ msr c. refl) refl refl
      (record { regions = refl; pml4 = refl }) (sample-IsFile kernel_name) (omega arith) (λ p. tt)
      (sample-IsFile app_name) refl sample-IsProgram (omega arith) (omega arith)
