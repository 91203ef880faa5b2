-- ===== src/Main/Ready.antt =====
-- The state in which `main` runs the guest.
use masters_proj.Prelude.{
  ℕ, ◌+◌, ◌*◌, ◌/◌, ◌^◌, ◌≤◌, ◌<◌, ◌≡◌, refl, true, List, [], ◌∷◌, length, arith, sym, ◌∙◌, subst,
  some, none, ap, Option,
}
use masters_proj.Prelude.Bytes.{le_bytes, length-le_bytes, slice, length-slice}
use masters_proj.Mem.State.{Mem, success}
use masters_proj.Mem.Gpa.Layout.{IsValid}
use masters_proj.Mem.Access.Alloc.{Honest, Willing}
use masters_proj.Mem.Access.View.{view, Holds}
use masters_proj.Mem.Access.Word.{Word}
use masters_proj.Mem.Paging.{gva_to_gpa}
use masters_proj.Mem.Paging.Walk.{gva_to_gpa-IsTree}
use masters_proj.Mem.Paging.Init.{IsFresh}
use masters_proj.Cpu.State.{Works, rip, rsp, rreg}
use masters_proj.Plugin.{load_plugin}
use masters_proj.Loader.Entry.{IsProgram, start_of}
use masters_proj.Loader.Pages.{IsFile, num_pages_of-le}
use masters_proj.Main.{
  Site, Process, proceeds, load_kernel, load_policy, load_app, setup_args, push_value, push_args,
  launch,
}
use masters_proj.Main.Args.{terminated, total, ArgsAt}
use masters_proj.Main.App.{WithApp, load_app-WithApp, setup_args-WithApp}
use masters_proj.Main.Stages.{and_next-proceeds, Started, start-Started, load_kernel-Started}
use masters_proj.Main.Boot.{three_pushes, Booting-low, Keeps, Holds-kept, AppAt-low}

-- What the guest starts with: the kernel is about to run, with the application's entry point, the
-- number of the arguments and their array on the stack; the regions are well formed, the low pages
-- are mapped to themselves, and the application is mapped at 0x100000000.
pub record IsReady (site : Site) (kernel : List ℕ) (entry_gva size : ℕ) (contents : ℕ → ℕ)
    (argv : List (List ℕ)) (s : Process site) : Type 0 where
  pub at_rip : rreg site.hv s.vcpu rip ≡ 0x8000
  pub at_rsp : rreg site.hv s.vcpu rsp ≡ 0x6fe4
  pub entry : Word s.world.mem 0x6fe4 entry_gva
  pub argc : Word s.world.mem 0x6fec (length argv)
  pub array : Word s.world.mem 0x6ff4 0x7100
  pub root : Holds s.world.mem 0x6ffc (le_bytes 4 s.world.mem.pml4_gpa)
  pub args : ArgsAt s.world.mem 0x7100 0x7200 argv
  pub kernel_at : Holds s.world.mem 0x8000 kernel
  pub identity : (a : ℕ) → a < 0x10000 → gva_to_gpa site.stack.locals s.world.mem a ≡ a
  pub valid : IsValid s.world.mem.regions
  pub app :
      (i : ℕ)
      → i < size
      → let m = s.world.mem in
        view m (gva_to_gpa site.stack.locals m (0x100000000 + i)) ≡ some (contents i)

-- The plugin, if one is given, can be loaded.
abbrev pub PolicyLoads : (site : Site) → Option (List ℕ) → Process site → Type 0
PolicyLoads site none s = Unit
PolicyLoads site (some path) s = (load_plugin site.linker (some path) s.plugins).0 ≡ success

load_policy-Started :
    {site : Site} (plugin : Option (List ℕ)) (s : Process site)
    → PolicyLoads site plugin s
    → Started site s
    → (s' : Process site) × (load_policy plugin s ≡ proceeds s')
      × Started site s'
      × (s'.world ≡ s.world)
unfolding load_policy
load_policy-Started none s ok st = (s, refl, st, refl)
load_policy-Started {site} (some path) s ok st =
    let r = load_plugin site.linker (some path) s.plugins in
    (
      record s { plugins = r.1 },
      rw ok refl,
      record { T = st.T; boot = st.boot; at_rsp = st.at_rsp; below = st.below },
      refl,
    )

ArgsAt-kept :
    (m m' : Mem) (p a : ℕ) (argv : List (List ℕ))
    → Keeps 0x7000 0x8000 m m'
    → 0x7000 ≤ p
    → p + length argv * 8 ≤ a
    → a + total argv ≤ 0x8000
    → ArgsAt m p a argv
    → ArgsAt m' p a argv
ArgsAt-kept m m' p a [] k lo mid hi h = tt
ArgsAt-kept m m' p a (str ∷ argv) k lo mid hi h =
    let n = length-le_bytes 8 a in
    (
      Holds-kept m m' p 0x7000 0x8000 (le_bytes 8 a) k lo (omega arith) h.0,
      Holds-kept m m' a 0x7000 0x8000 (terminated str) k (omega arith) (omega arith) h.1,
      ArgsAt-kept m m' (p + 8) (a + length (terminated str)) argv k (omega arith) (omega arith)
          (omega arith) h.2,
    )

module _ {site : Site} {entry size : ℕ} {contents : ℕ → ℕ} {kernel : List ℕ}
    (short : length kernel ≤ 0x8000) where
  push_args-IsReady :
      (argv : List (List ℕ)) (s : Process site)
      → Works site.hv
      → size ≤ 2 ^ 44
      → WithApp site entry size contents kernel s
      → length argv ≤ 32
      → total argv ≤ 0xE00
      → ArgsAt s.world.mem 0x7100 0x7200 argv
      → (s' : Process site) × (push_args (length argv) s ≡ proceeds s')
        × IsReady site kernel entry size contents argv s'
  unfolding push_args push_value
  push_args-IsReady argv s works small w few room args =
      let m₀ = s.world.mem in
      let p =
        three_pushes site.hv works w.T (length argv) s.entry_gva s.vcpu m₀ w.boot.low w.at_rsp in
      let s' = push_value s.entry_gva (push_value (length argv) (push_value 0x7100 s)) in
      let m = s'.world.mem in
      let boot =
        Booting-low s'.vcpu m w.boot p.change (λ c lo hi. p.above c lo (omega arith)) p.same_rip in
      let app = AppAt-low m₀ m p.change w.app in
      (
        s',
        refl,
        record {
          at_rip = boot.at_rip;
          at_rsp = p.at_rsp;
          entry = subst (λ e. Word m 0x6fe4 e) w.entered p.third;
          argc = p.second;
          array = p.first;
          root = boot.root;
          args =
              ArgsAt-kept m₀ m 0x7100 0x7200 argv (λ c lo hi. p.above c (omega arith) (omega arith))
                (omega arith) (omega arith) (omega arith) args;
          kernel_at =
              Holds-kept m₀ m 0x8000 0x8000 0x10000 kernel (λ c lo hi. p.above c (omega arith) hi)
                (omega arith) (omega arith) w.kernel_at;
          identity = λ a lt.
              gva_to_gpa-IsTree site.stack.locals w.T m a (a / 4096 * 4096) boot.low.tree
                (ap (w.T 0) (omega arith) ∙ boot.frames (a / 4096) (omega arith))
              ∙ omega arith;
          valid = boot.low.tree.valid;
          app = λ i lt.
              let le = num_pages_of-le size in
              let to =
                gva_to_gpa-IsTree site.stack.locals w.T m (0x100000000 + i)
                  (0x100000000 + i / 4096 * 4096) boot.low.tree
                  (ap (w.T 0) (omega arith) ∙ app.at (i / 4096) (omega arith)) in
              ap (view m) (to ∙ omega arith) ∙ app.bytes i lt;
        },
      )

-- The statements of `main` from hv_vm_create to the last push go through, where nothing that they
-- ask of the system fails, and the guest is then ready.
pub launch-IsReady :
    (site : Site) (s : Process site) (c : site.hv.Vcpu) (kernel_path app_path : List ℕ)
    (plugin_path : Option (List ℕ)) (args : List (List ℕ)) (ksize size off : ℕ)
    (kernel contents : ℕ → ℕ) (f : site.sys.stdio.File)
    → Honest site.host
    → Willing site.host
    → Works site.hv
    → ((msr : ℕ) (c : site.hv.Vcpu) → (site.hv.enable_native_msr msr c).0 ≡ true)
    → site.hv_vm_create ≡ true
    → site.hv_vcpu_create ≡ some c
    → IsFresh s.world.mem
    → IsFile site.sys kernel_path ksize kernel
    → ksize ≤ 0x8000
    → ((p : Process site) → PolicyLoads site plugin_path p)
    → IsFile site.sys app_path size contents
    → site.sys.fopen app_path ≡ some f
    → IsProgram site.sys site.fmt contents size off
    → length (app_path ∷ args) ≤ 32
    → total (app_path ∷ args) ≤ 0xE00
    → (s' : Process site) × (launch kernel_path plugin_path app_path args s ≡ proceeds s')
      × IsReady site
          (slice kernel 0 ksize)
          (start_of site.fmt contents off)
          size
          contents
          (app_path ∷ args)
          s'
unfolding launch
launch-IsReady site s c kernel_path app_path plugin_path args ksize size off kernel contents f
      honest willing works native vm cpu fresh kfile short policy afile opened program few room =
    let len : length (slice kernel 0 ksize) ≤ 0x8000 = omega (arith, length-slice kernel 0 ksize) in
    let argv = app_path ∷ args in
    let (s₁, e₁, st₁) = start-Started honest willing works s c fresh vm cpu native in
    let (s₂, e₂, st₂, held) =
      load_kernel-Started honest willing works s₁ kernel_path ksize kernel st₁ kfile short in
    let (s₃, e₃, st₃, same) = load_policy-Started plugin_path s₂ (policy s₂) st₂ in
    let (s₄, e₄, app) =
      load_app-WithApp honest willing s₃ app_path size off contents f (slice kernel 0 ksize) st₃
        (subst (λ w. Holds w.mem 0x8000 (slice kernel 0 ksize)) (sym same) held) len afile opened
        program in
    let (s₅, e₅, app', at) = setup_args-WithApp len argv s₄ app few room in
    let (s₆, e₆, ready) =
      push_args-IsReady len argv s₅ works (omega (arith, program.small)) app' few room at in
    let before =
      and_next-proceeds (load_policy plugin_path)
        (and_next-proceeds (load_kernel kernel_path) e₁ e₂) e₃ in
    let later =
      and_next-proceeds (setup_args argv) (and_next-proceeds (load_app app_path) before e₄) e₅ in
    (s₆, and_next-proceeds (push_args (length argv)) later e₆, ready)
