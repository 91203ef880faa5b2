-- ===== src/Main/Run.antt =====
-- `main` from the command line to the run of the guest.
use masters_proj.Prelude.{ℕ, ◌≤◌, ◌≡◌, refl, true, List, ◌∷◌, length, ◌∙◌, some, none, ap, Option}
use masters_proj.Prelude.Bytes.{slice}
use masters_proj.Mem.Access.Alloc.{Honest, Willing}
use masters_proj.Mem.Paging.Init.{IsFresh}
use masters_proj.Cpu.State.{Works}
use masters_proj.Loader.Entry.{IsProgram, start_of}
use masters_proj.Loader.Pages.{IsFile}
use masters_proj.Main.{Site, Process, proceeds, launch}
use masters_proj.Main.Args.{total}
use masters_proj.Main.Options.{Opt, Settings, defaults, set_options}
use masters_proj.Main.{main, run_main, run_app, run_guest, finish_main}
use masters_proj.Main.Ready.{IsReady, PolicyLoads, launch-IsReady}

module _ {site : Site} (fuel : ℕ) (settings : Settings) (s : Process site) where
  pub main-accepted :
      (opts : List Opt) (argv : List (List ℕ))
      → set_options site.opens_log opts defaults ≡ some settings
      → main fuel opts argv s ≡ run_main fuel argv settings s
  unfolding main
  main-accepted opts argv e = rw (e, main) refl

  pub run_main-kernel :
      (kernel_path : List ℕ) (argv : List (List ℕ))
      → settings.kernel_path ≡ some kernel_path
      → run_main fuel argv settings s ≡ run_app fuel kernel_path argv settings s
  unfolding run_main
  run_main-kernel kernel_path argv e =
      ap
        (λ (o : Option (List ℕ)). elim o [
          | none ↦ some (1, s)
          | some path ↦ run_app fuel path argv settings s
        ])
        e

  pub run_app-launch :
      (kernel_path app_path : List ℕ) (args : List (List ℕ)) (s' : Process site)
      → launch kernel_path settings.plugin_path app_path args s ≡ proceeds s'
      → run_app fuel kernel_path (app_path ∷ args) settings s ≡ run_guest fuel settings s'
  unfolding run_app
  run_app-launch kernel_path app_path args s' e = ap (finish_main fuel settings) e

-- A fresh guest, on a system where the framework's calls succeed, with a host that grants every
-- request, with zeroed blocks that share no memory, a kernel of at most 32 KB and an application
-- that can be opened and mapped, a plugin that loads if one is given, and at most 32 arguments of
-- 3584 bytes together; the application has less than 2 ^ 31 bytes and is not fat, and its header
-- and its load commands up to an LC_MAIN lie inside it; the options are accepted and name the
-- kernel: `main` goes through to the run of the guest, and its result is that of this run, for every fuel. The CPU
-- then stands at 0x8000, where the kernel's bytes are; the stack holds 0x100000000 plus the
-- `entryoff` of the first LC_MAIN, modulo 2 ^ 64, the number of the arguments, the address of their
-- array, and the low 4 bytes of the root table's address; the array and the strings are in place;
-- the regions are well formed, the first 64 KB are translated to themselves, and the guest sees the
-- application's bytes from 0x100000000 on.
pub main-IsReady :
    (opts : List Opt) (settings : Settings) (site : Site) (s : Process site) (c : site.hv.Vcpu)
    (kernel_path app_path : List ℕ) (args : List (List ℕ)) (ksize size off : ℕ)
    (kernel contents : ℕ → ℕ) (f : site.sys.stdio.File)
    → set_options site.opens_log opts defaults ≡ some settings
    → settings.kernel_path ≡ some kernel_path
    → Honest site.host
    → Willing site.host
    → Works site.hv
    → ((msr : ℕ) (c : site.hv.Vcpu) → (site.hv.enable_native_msr msr c).0 ≡ true)
    → site.hv_vm_create ≡ true
    → site.hv_vcpu_create ≡ some c
    → IsFresh s.world.mem
    → IsFile site.sys kernel_path ksize kernel
    → ksize ≤ 0x8000
    → ((p : Process site) → PolicyLoads site settings.plugin_path p)
    → IsFile site.sys app_path size contents
    → site.sys.fopen app_path ≡ some f
    → IsProgram site.sys site.fmt contents size off
    → length (app_path ∷ args) ≤ 32
    → total (app_path ∷ args) ≤ 0xE00
    → (s' : Process site) × ((fuel : ℕ)
        → main fuel opts (app_path ∷ args) s ≡ run_guest fuel settings s')
      × IsReady site
          (slice kernel 0 ksize)
          (start_of site.fmt contents off)
          size
          contents
          (app_path ∷ args)
          s'
main-IsReady opts settings site s c kernel_path app_path args ksize size off kernel contents f
      accepted kernel_set honest willing works native vm cpu fresh kfile short policy afile opened
      program few room =
    let (s', e, ready) =
      launch-IsReady site s c kernel_path app_path settings.plugin_path args ksize size off kernel
        contents f honest willing works native vm cpu fresh kfile short policy afile opened program
        few room in
    (
      s',
      λ fuel.
          main-accepted fuel settings s opts (app_path ∷ args) accepted
          ∙ run_main-kernel fuel settings s kernel_path (app_path ∷ args) kernel_set
          ∙ run_app-launch fuel settings s kernel_path app_path args s' e,
      ready,
    )
