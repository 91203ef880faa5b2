-- ===== src/Main/Failure.antt =====
-- The exit status of `main` when a file is missing.
use masters_proj.Prelude.{ℕ, length, ◌≡◌, refl, true, List, ◌∷◌, some, none, ap, ◌∙◌}
use masters_proj.Mem.Access.Alloc.{Honest, Willing}
use masters_proj.Mem.Paging.Init.{IsFresh}
use masters_proj.Cpu.State.{Works}
use masters_proj.Loader.{load_raw}
use masters_proj.Main.Options.{Settings}
use masters_proj.Main.{
  Site, Process, Step, jumps, and_next, vcpu_destroy, load_kernel, load_policy, load_app,
  setup_args, push_args, launch, finish_main, destroy_vm, destroy_vcpu, clean_up, run_main, run_app,
  ret_after,
}
use masters_proj.Main.Stages.{start-Started}

load_kernel-missing :
    {site : Site} (path : List ℕ) (s : Process site)
    → site.sys.open_fd path ≡ none
    → load_kernel path s ≡ jumps vcpu_destroy 0 s
unfolding load_kernel load_raw
load_kernel-missing path s e = rw (e, load_raw) refl

-- On a fresh guest, on a system where the framework's calls succeed and with a host that grants
-- every request, with zeroed blocks that share no memory: if the kernel's file cannot be opened,
-- `main`, after its options were read, returns 0, the status of success, without a run of the
-- guest.
pub run_main-missing :
    (site : Site) (s : Process site) (c : site.hv.Vcpu) (fuel : ℕ) (settings : Settings)
    (kernel_path app_path : List ℕ) (args : List (List ℕ))
    → Honest site.host
    → Willing site.host
    → Works site.hv
    → ((msr : ℕ) (c : site.hv.Vcpu) → (site.hv.enable_native_msr msr c).0 ≡ true)
    → site.hv_vm_create ≡ true
    → site.hv_vcpu_create ≡ some c
    → ((c : site.hv.Vcpu) → site.hv_vcpu_destroy c ≡ true)
    → site.hv_vm_destroy ≡ true
    → IsFresh s.world.mem
    → settings.kernel_path ≡ some kernel_path
    → site.sys.open_fd kernel_path ≡ none
    → (s' : Process site) × (run_main fuel (app_path ∷ args) settings s ≡ some (0, s'))
unfolding run_main run_app launch clean_up destroy_vcpu destroy_vm
run_main-missing site s c fuel settings kernel_path app_path args honest willing works native vm cpu
      gone gone' fresh given missing =
    let (s₁, e₁, st₁) = start-Started honest willing works s c fresh vm cpu native in
    let argv = app_path ∷ args in
    let tail = λ (r : Step site).
      and_next
        (and_next (and_next (and_next r (load_policy settings.plugin_path)) (load_app app_path))
          (setup_args argv))
        (push_args (length argv)) in
    let stops : launch kernel_path settings.plugin_path app_path args s ≡ jumps vcpu_destroy 0 s₁ =
      ap (λ r. tail (and_next r (load_kernel kernel_path))) e₁
      ∙ ap tail (load_kernel-missing kernel_path s₁ missing) in
    let end = clean_up vcpu_destroy 0 s₁ in
    let zero_status : end.0 ≡ 0 =
      ap (λ ok. ret_after ok (ret_after (site.hv_vcpu_destroy s₁.vcpu) 0)) gone'
      ∙ ap (λ ok. ret_after ok 0) (gone s₁.vcpu) in
    (
      end.1,
      rw (given, run_main)
          (ap (finish_main fuel settings) stops ∙ ap (λ n. some (n, end.1)) zero_status),
    )
