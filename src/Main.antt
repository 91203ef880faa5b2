-- ===== src/Main.antt =====
-- `main` of src/hvexec.c: how the other parts are called, in which order, and what is cleaned up.
pub mod Options
pub mod Args
pub mod Calls
pub mod Low
pub mod Boot
pub mod Stages
pub mod App
pub mod Ready
pub mod Run
pub mod Output
pub mod Failure
mod Tests
use masters_proj.Prelude.{
  ℕ, Bool, true, List, [], ◌∷◌, length, Option, none, some, ◌==◌, if◌then◌else◌,
}
use masters_proj.Mem.State.{Mem, Host, Status, success, failure}
use masters_proj.Mem.Paging.{vm_mem_init}
use masters_proj.Cpu.State.{Hypervisor}
use masters_proj.Cpu.Setup.{start_addr, vcpu_setup_ia32}
use masters_proj.Cpu.Syscall.{Os, PluginOps, Env, Machine}
use masters_proj.Cpu.Run.{push64, vcpu_run}
use masters_proj.Plugin.{Linker, Plugins, load_plugin}
use masters_proj.MachO.Library.{Format}
use masters_proj.Loader.{System, World, Stack, load_raw, load_mach_obj}
use masters_proj.Main.Options.{Opt, Settings, defaults, set_options}
use masters_proj.Main.Args.{write_args}

-- CONF_INIT_NUM_PAGES, CONF_ARGV_ADDR and CONF_ARGS_ADDR of src/conf.h.
abbrev pub init_num_pages : ℕ
init_num_pages = 16

abbrev pub argv_start : ℕ
argv_start = 0x7100

abbrev pub args_start : ℕ
args_start = 0x7200

-- All that the program calls: the system, the host's memory, the Hypervisor framework with its
-- calls on the virtual machine, the system calls of the host, and the dynamic linker.
pub record Site : Type 1 where
  pub sys : System
  pub fmt : Format
  pub host : Host
  pub hv : Hypervisor
  pub Outside : Type 0
  pub os : Os Outside
  pub linker : Linker (PluginOps Outside)
  pub opens_log : (path : List ℕ) → Bool
  pub hv_vm_create : Bool
  pub hv_vcpu_create : Option hv.Vcpu
  pub hv_vcpu_destroy : hv.Vcpu → Bool
  pub hv_vm_destroy : Bool
  pub stack : Stack

-- The calls on the virtual machine, the latest first.
pub data VmCall : Type 0 where
  creates_vm creates_vcpu destroys_vcpu destroys_vm : VmCall

-- The state of the process: guest memory and files, the plugin, the locals `vcpu` and `entry_gva`,
-- the rest of the world, and the calls.
pub record Process (site : Site) : Type 0 where
  pub world : World
  pub plugins : Plugins (PluginOps site.Outside)
  pub vcpu : site.hv.Vcpu
  pub entry_gva : ℕ
  pub rest : site.Outside
  pub calls : List VmCall

pub data Label : Type 0 where
  vcpu_destroy vm_mem_destroy vm_destroy : Label

-- A statement goes on to the next one, or sets `ret_val` and jumps to a label.
pub data Step (site : Site) : Type 0 where
  proceeds : (s : Process site) → Step site
  jumps : (to : Label) (ret_val : ℕ) (s : Process site) → Step site

abbrev pub and_next : {site : Site} → Step site → (Process site → Step site) → Step site
and_next (proceeds s) k = k s
and_next (jumps to ret_val s) k = jumps to ret_val s

-- `if (err) ret_val = 1`.
abbrev pub ret_after : (ok : Bool) (ret_val : ℕ) → ℕ
ret_after ok ret_val = if ok then ret_val else 1

module _ {site : Site} where
  abbrev pub unless : (to : Label) (ret_val : ℕ) → Status → Process site → Step site
  unless to ret_val success s = proceeds s
  unless to ret_val failure s = jumps to ret_val s

  abbrev pub vm_called : VmCall → Process site → Process site
  vm_called c s = record s { calls = c ∷ s.calls }

  abbrev pub with_mem : Mem → Process site → Process site
  with_mem m s = record s { world = record s.world { mem = m } }

  unfoldable pub create_vm : Process site → Step site
  create_vm s =
      let s' = vm_called creates_vm s in
      if site.hv_vm_create then proceeds s' else jumps vm_destroy 1 s'

  unfoldable pub init_memory : Process site → Step site
  init_memory s =
      let r = vm_mem_init site.host site.stack.locals init_num_pages s.world.mem in
      unless vm_mem_destroy 1 r.0 (with_mem r.1 s)

  -- If `hv_vcpu_create` fails, `vcpu` is not set.
  abbrev pub set_vcpu : Option site.hv.Vcpu → Process site → Step site
  set_vcpu none s = jumps vcpu_destroy 1 (vm_called creates_vcpu s)
  set_vcpu (some c) s = proceeds (record (vm_called creates_vcpu s) { vcpu = c })

  unfoldable pub create_vcpu : Process site → Step site
  create_vcpu s = set_vcpu site.hv_vcpu_create s

  unfoldable pub setup_vcpu : Process site → Step site
  setup_vcpu s =
      let r = vcpu_setup_ia32 site.hv s.vcpu s.world.mem in
      let s' = with_mem r.2 (record s { vcpu = r.1 }) in
      if r.0 == 0 then proceeds s' else jumps vcpu_destroy 1 s'

  -- `ret_val` stays 0 where a file cannot be loaded.
  unfoldable pub load_kernel : (kernel_path : List ℕ) → Process site → Step site
  load_kernel kernel_path s =
      let r = load_raw site.sys (some kernel_path) start_addr s.world in
      unless vcpu_destroy 0 r.0 (record s { world = r.1 })

  unfoldable pub load_policy : (plugin_path : Option (List ℕ)) → Process site → Step site
  load_policy none s = proceeds s
  load_policy (some path) s =
      let r = load_plugin site.linker (some path) s.plugins in
      unless vcpu_destroy 0 r.0 (record s { plugins = r.1 })

  unfoldable pub load_app : (app_path : List ℕ) → Process site → Step site
  load_app app_path s =
      let r =
        load_mach_obj site.sys site.fmt site.host site.stack (some app_path) s.entry_gva s.world in
      unless vcpu_destroy 0 r.0 (record s { entry_gva = r.1; world = r.2 })

  unfoldable pub setup_args : (argv : List (List ℕ)) → Process site → Step site
  setup_args argv s =
      let r = write_args argv argv_start args_start s.world.mem in
      unless vcpu_destroy 0 r.0 (with_mem r.1 s)

  -- A push whose result is ignored.
  unfoldable pub push_value : ℕ → Process site → Process site
  push_value v s =
      let r = push64 site.hv v s.vcpu s.world.mem in with_mem r.2 (record s { vcpu = r.1 })

  unfoldable pub push_args : (argc : ℕ) → Process site → Step site
  unfolding push_value
  push_args argc s = proceeds (push_value s.entry_gva (push_value argc (push_value argv_start s)))

  -- From `hv_vm_create` to the pushes; the application is the first of its arguments.
  unfoldable pub launch :
      (kernel_path : List ℕ) (plugin_path : Option (List ℕ)) (app_path : List ℕ)
      (args : List (List ℕ))
      → Process site
      → Step site
  unfolding create_vm init_memory create_vcpu setup_vcpu load_kernel load_policy load_app setup_args
      push_args
  launch kernel_path plugin_path app_path args s =
      let argv = app_path ∷ args in
      let created = and_next (and_next (create_vm s) init_memory) create_vcpu in
      let loaded = and_next (and_next created setup_vcpu) (load_kernel kernel_path) in
      let ready = and_next (and_next loaded (load_policy plugin_path)) (load_app app_path) in
      and_next (and_next ready (setup_args argv)) (push_args (length argv))

  -- The statements behind each label; `vm_mem_destroy` does nothing.
  unfoldable pub destroy_vm : (ret_val : ℕ) → Process site → ℕ × Process site
  destroy_vm ret_val s = (ret_after site.hv_vm_destroy ret_val, vm_called destroys_vm s)

  unfoldable pub destroy_vcpu : (ret_val : ℕ) → Process site → ℕ × Process site
  unfolding destroy_vm
  destroy_vcpu ret_val s =
      destroy_vm (ret_after (site.hv_vcpu_destroy s.vcpu) ret_val) (vm_called destroys_vcpu s)

  -- `ret_val` and the state at the end.
  unfoldable pub clean_up : Label → (ret_val : ℕ) → Process site → ℕ × Process site
  unfolding destroy_vm destroy_vcpu
  clean_up vm_destroy ret_val s = destroy_vm ret_val s
  clean_up vm_mem_destroy ret_val s = destroy_vm ret_val s
  clean_up vcpu_destroy ret_val s = destroy_vcpu ret_val s

  -- What the guest runs with.
  abbrev pub env_of : Settings → Process site → Env
  env_of settings s = record {
    hv = site.hv;
    World = site.Outside;
    os = site.os;
    ops = s.plugins.ops;
    syscall_interactive = settings.syscall_interactive;
    locals = site.stack.locals;
  }

  abbrev pub machine_of : (settings : Settings) (s : Process site) → Machine (env_of settings s)
  machine_of settings s = record { cpu = s.vcpu; mem = s.world.mem; world = s.rest }

  abbrev pub after_run :
      (settings : Settings) (s : Process site) → Machine (env_of settings s) → Process site
  after_run settings s e = with_mem e.mem (record s { vcpu = e.cpu; rest = e.world })

  -- `vcpu_run`, for at most `fuel` exits, and the end of `main`.
  unfoldable pub run_guest : (fuel : ℕ) → Settings → Process site → Option (ℕ × Process site)
  run_guest fuel settings s = elim (vcpu_run (env_of settings s) fuel (machine_of settings s)) [
    | none ↦ none
    | some e ↦ some (clean_up vcpu_destroy 0 (after_run settings s e))
  ]

  abbrev pub finish_main : (fuel : ℕ) → Settings → Step site → Option (ℕ × Process site)
  finish_main fuel settings (proceeds s) = run_guest fuel settings s
  finish_main fuel settings (jumps to ret_val s) = some (clean_up to ret_val s)

  -- `main` with the path of a kernel: the application is the first of its arguments.
  unfoldable pub run_app :
      (fuel : ℕ) (kernel_path : List ℕ) (argv : List (List ℕ))
      → Settings
      → Process site
      → Option (ℕ × Process site)
  unfolding launch
  run_app fuel kernel_path [] settings s = some (1, s)
  run_app fuel kernel_path (app_path ∷ args) settings s =
      finish_main fuel settings (launch kernel_path settings.plugin_path app_path args s)

  -- `main` after the options.
  unfoldable pub run_main :
      (fuel : ℕ) (argv : List (List ℕ)) → Settings → Process site → Option (ℕ × Process site)
  unfolding run_app
  run_main fuel argv settings s = elim settings.kernel_path [
    | none ↦ some (1, s)
    | some path ↦ run_app fuel path argv settings s
  ]

  -- `opts` is what `getopt` returns and `argv` what it leaves. `none` is a guest that is not done
  -- by the fuel.
  unfoldable pub main :
      (fuel : ℕ) (opts : List Opt) (argv : List (List ℕ)) → Process site → Option (ℕ × Process site)
  main fuel opts argv s = elim (set_options site.opens_log opts defaults) [
    | none ↦ some (1, s)
    | some settings ↦ run_main fuel argv settings s
  ]
