-- ===== src/Main/Output.antt =====
-- `main` to its end, for a guest that writes.
use masters_proj.Prelude.{
  ℕ, ◌≡◌, refl, ap, ◌∙◌, subst, Bool, true, false, Option, none, some, List, ◌∷◌, ◌++◌, length,
  if◌then◌else◌,
}
use masters_proj.Prelude.Bytes.{slice}
use masters_proj.Mem.State.{Status, success, failure}
use masters_proj.Cpu.State.{Works}
use masters_proj.Cpu.Syscall.{Machine}
use masters_proj.Cpu.Run.{vcpu_run}
use masters_proj.Cpu.Run.Session.{Appends, Session, joined, vcpu_run-Session}
use masters_proj.Main.Options.{Opt, Settings, defaults, set_options}
use masters_proj.Main.Calls.{Stage, goes, two, launch-Stage}
use masters_proj.Main.{
  Site, VmCall, creates_vm, creates_vcpu, destroys_vcpu, destroys_vm, Process, Label, vcpu_destroy,
  vm_mem_destroy, Step, proceeds, jumps, and_next, unless, set_vcpu, create_vm, init_memory,
  create_vcpu, setup_vcpu, load_kernel, load_policy, load_app, setup_args, push_value, push_args,
  launch, destroy_vm, destroy_vcpu, env_of, machine_of, after_run, clean_up, run_guest, ret_after,
  main,
}
use masters_proj.Main.Run.{main-accepted, run_main-kernel, run_app-launch}

-- The rest of the world and the plugin of a process are those of another.
abbrev SameOutside : {site : Site} → (s₀ s : Process site) → Type 0
SameOutside s₀ s = (s.rest ≡ s₀.rest) × (s.plugins ≡ s₀.plugins)

-- A statement that keeps them.
data Calm {site : Site} (s₀ : Process site) : Step site → Type 0 where
  going : {s : Process site} → SameOutside s₀ s → Calm s₀ (proceeds s)
  stopped : {to : Label} {ret_val : ℕ} {s : Process site} → Calm s₀ (jumps to ret_val s)

module _ {site : Site} (s₀ : Process site) where
  Calm-and_next :
      {r : Step site} (k : Process site → Step site)
      → Calm s₀ r
      → ((s : Process site) → SameOutside s₀ s → Calm s₀ (k s))
      → Calm s₀ (and_next r k)
  Calm-and_next k (going e) next = next _ e
  Calm-and_next k stopped next = stopped

  Calm-unless :
      (to : Label) (ret_val : ℕ) (st : Status) (s : Process site)
      → SameOutside s₀ s
      → Calm s₀ (unless to ret_val st s)
  Calm-unless to ret_val success s e = going e
  Calm-unless to ret_val failure s e = stopped

  Calm-if : {r r' : Step site} (b : Bool) → Calm s₀ r → Calm s₀ r' → Calm s₀ (if b then r else r')
  Calm-if true c c' = c
  Calm-if false c c' = c'

  set_vcpu-Calm :
      (o : Option site.hv.Vcpu) (s : Process site) → SameOutside s₀ s → Calm s₀ (set_vcpu o s)
  set_vcpu-Calm none s e = stopped
  set_vcpu-Calm (some c) s e = going e

  -- With no plugin given, both stay as they are up to the run of the guest.
  launch-Calm :
      (kernel app : List ℕ) (args : List (List ℕ)) (s : Process site)
      → SameOutside s₀ s
      → Calm s₀ (launch kernel none app args s)
  unfolding launch create_vm init_memory create_vcpu setup_vcpu load_kernel load_policy load_app
      setup_args push_args push_value
  launch-Calm kernel app args s e =
      let vm = Calm-if site.hv_vm_create (going e) stopped in
      let memory = Calm-and_next init_memory vm (λ s e. Calm-unless vm_mem_destroy 1 _ _ e) in
      let cpu = Calm-and_next create_vcpu memory (set_vcpu-Calm site.hv_vcpu_create) in
      let set_up = Calm-and_next setup_vcpu cpu (λ s e. Calm-if _ (going e) stopped) in
      let kernel_in =
        Calm-and_next (load_kernel kernel) set_up (λ s e. Calm-unless vcpu_destroy 0 _ _ e) in
      let policy = Calm-and_next (load_policy none) kernel_in (λ s e. going e) in
      let app_in = Calm-and_next (load_app app) policy (λ s e. Calm-unless vcpu_destroy 0 _ _ e) in
      let args_in =
        Calm-and_next (setup_args (app ∷ args)) app_in (λ s e. Calm-unless vcpu_destroy 0 _ _ e) in
      Calm-and_next (push_args (length (app ∷ args))) args_in (λ s e. going e)

Calm-SameOutside : {site : Site} {s₀ s : Process site} → Calm s₀ (proceeds s) → SameOutside s₀ s
Calm-SameOutside (going e) = e

Stage-calls :
    {site : Site} {calls now : List VmCall} {s : Process site}
    → Stage calls now (proceeds s)
    → s.calls ≡ now
Stage-calls (goes e) = e

-- The end of a run.
module _ {site : Site} (gone : (c : site.hv.Vcpu) → site.hv_vcpu_destroy c ≡ true)
    (vm_gone : site.hv_vm_destroy ≡ true) where
  clean_up-status : (s : Process site) → (clean_up vcpu_destroy 0 s).0 ≡ 0
  unfolding clean_up destroy_vcpu destroy_vm
  clean_up-status s =
      ap (λ ok. ret_after ok (ret_after (site.hv_vcpu_destroy s.vcpu) 0)) vm_gone
      ∙ ap (λ ok. ret_after ok 0) (gone s.vcpu)

  run_guest-done :
      (fuel : ℕ) (settings : Settings) (s : Process site) (e : Machine (env_of settings s))
      → vcpu_run (env_of settings s) fuel (machine_of settings s) ≡ some e
      → let end = (clean_up vcpu_destroy 0 (after_run settings s e)).1 in
        (run_guest fuel settings s ≡ some (0, end))
        × (end.rest ≡ e.world)
        × (end.calls ≡ destroys_vm ∷ destroys_vcpu ∷ s.calls)
  unfolding run_guest clean_up destroy_vcpu destroy_vm
  run_guest-done fuel settings s e done = (
    ap
          (λ (o : Option (Machine (env_of settings s))). elim o [
            | none ↦ none
            | some e ↦ some (clean_up vcpu_destroy 0 (after_run settings s e))
          ])
          done
        ∙ ap (λ n. some (n, (clean_up vcpu_destroy 0 (after_run settings s e)).1))
            (clean_up-status (after_run settings s e)),
    refl,
    refl,
  )

-- On a system where the framework's calls succeed, its destroying calls included: if the options
-- are accepted and name the kernel, the statements of `main` up to the pushes go through, to the
-- state `s'`, and the guest's run from there writes some buffers, each in one page, to a host that
-- appends every write to an output, with no plugin given or set and not interactively, then `main`
-- with enough fuel returns 0; the output is what it was at its start followed by the bytes that the
-- guest saw in these buffers, all of them and in order; and the calls on the virtual machine are
-- those that create and destroy it and its CPU, each once.
pub main-Session :
    {site : Site} (opts : List Opt) (settings : Settings) (s s' : Process site)
    (kernel_path app_path : List ℕ) (args : List (List ℕ)) (output : site.Outside → List ℕ)
    (bufs : List (List ℕ)) (e : Machine (env_of settings s'))
    → Works site.hv
    → ((c : site.hv.Vcpu) → site.hv_vcpu_destroy c ≡ true)
    → site.hv_vm_destroy ≡ true
    → set_options site.opens_log opts defaults ≡ some settings
    → settings.kernel_path ≡ some kernel_path
    → launch kernel_path settings.plugin_path app_path args s ≡ proceeds s'
    → settings.plugin_path ≡ none
    → s.plugins.ops.cb_write ≡ none
    → settings.syscall_interactive ≡ false
    → ((fildes buf nbyte : ℕ) (b : ℕ → ℕ) (w : site.Outside)
        → output (site.os.os_write fildes buf nbyte b w).2 ≡ output w ++ slice b buf nbyte)
    → Session (env_of settings s') output (machine_of settings s') bufs e
    → (fuel : ℕ) × (end : Process site) × (main fuel opts (app_path ∷ args) s ≡ some (0, end))
      × (output end.rest ≡ output s.rest ++ joined bufs)
      × (end.calls ≡ destroys_vm ∷ destroys_vcpu ∷ creates_vcpu ∷ creates_vm ∷ s.calls)
main-Session {site} opts settings s s' kernel_path app_path args output bufs e works gone vm_gone
      accepted kernel_set launched no_policy no_plugin quiet appends session =
    let launched' : launch kernel_path none app_path args s ≡ proceeds s' =
      subst (λ p. launch kernel_path p app_path args s ≡ proceeds s') no_policy launched in
    let (calm, plugins) =
      Calm-SameOutside
        (subst (Calm s) launched' (launch-Calm s kernel_path app_path args s (refl, refl))) in
    let made : s'.calls ≡ two s.calls = Stage-calls (
      subst (Stage s.calls (two s.calls)) launched
        (launch-Stage s.calls kernel_path settings.plugin_path app_path args s refl)) in
    let host : Appends (env_of settings s') output = record {
      host = appends;
      no_plugin = ap (λ p. p.ops.cb_write) plugins ∙ no_plugin;
      not_interactive = quiet;
    } in
    let (fuel, runs, out) =
      vcpu_run-Session (env_of settings s') output host works (machine_of settings s') e bufs
        session in
    let (done, rest, calls) = run_guest-done gone vm_gone fuel settings s' e runs in
    (
      fuel,
      (clean_up vcpu_destroy 0 (after_run settings s' e)).1,
      main-accepted fuel settings s opts (app_path ∷ args) accepted
          ∙ run_main-kernel fuel settings s kernel_path (app_path ∷ args) kernel_set
          ∙ run_app-launch fuel settings s kernel_path app_path args s' launched
          ∙ done,
      ap output rest ∙ out ∙ ap (λ w. output w ++ joined bufs) calm,
      calls ∙ ap (λ cs. destroys_vm ∷ destroys_vcpu ∷ cs) made,
    )
