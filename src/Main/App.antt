-- ===== src/Main/App.antt =====
-- The application and its arguments in guest memory.
use masters_proj.Prelude.{
  ℕ, ◌≤◌, ◌<◌, ◌≡◌, ◌≢◌, refl, inl, inr, List, length, arith, sym, ◌∙◌, subst, some, ap,
}
use masters_proj.Prelude.Bytes.{le_bytes}
use masters_proj.Mem.State.{Mem}
use masters_proj.Mem.Access.Alloc.{Honest, Willing}
use masters_proj.Mem.Access.View.{Holds}
use masters_proj.Mem.Paging.Tree.{Tree, IsTree}
use masters_proj.Mem.Paging.Root.{IsPaged}
use masters_proj.Cpu.State.{rsp, rreg}
use masters_proj.Loader.{load_mach_obj}
use masters_proj.Loader.Pages.{IsFile}
use masters_proj.Loader.Object.{load_mach_obj-IsLoaded}
use masters_proj.Loader.Entry.{IsProgram, start_of, load_mach_obj-IsProgram}
use masters_proj.Main.{Site, Process, proceeds, with_mem, load_app}
use masters_proj.Main.Boot.{Booting, Booting-low, Keeps, Holds-kept, AppAt}
use masters_proj.Main.Low.{LowChange, MappedRange-low}
use masters_proj.Prelude.{
  ℕ, ◌*◌, ◌≤◌, ◌<◌, ◌≡◌, refl, List, length, arith, sym, ◌∙◌, subst, some, ap,
}
use masters_proj.Prelude.Bytes.{le_bytes}
use masters_proj.Mem.State.{Mem}
use masters_proj.Mem.Access.Alloc.{Honest, Willing}
use masters_proj.Mem.Access.View.{Holds}
use masters_proj.Cpu.State.{rsp, rreg}
use masters_proj.Loader.Pages.{IsFile}
use masters_proj.Main.{Site, Process, proceeds, with_mem, load_app, setup_args}
use masters_proj.Main.Args.{write_args, total, ArgsAt, write_args-ArgsWritten}
use masters_proj.Main.Stages.{Started}
use masters_proj.Main.Boot.{Booting-low, Keeps, Holds-kept, AppAt-low}
use masters_proj.Main.Low.{LowChange, MappedRange-low}

-- The application is mapped, beside the kernel.
pub record WithApp (site : Site) (entry size : ℕ) (contents : ℕ → ℕ) (kernel : List ℕ)
    (s : Process site) : Type 0 where
  pub T : Tree
  pub boot : Booting site.hv T s.vcpu s.world.mem
  pub at_rsp : rreg site.hv s.vcpu rsp ≡ 0x6ffc
  pub kernel_at : Holds s.world.mem 0x8000 kernel
  pub app : AppAt size contents T s.world.mem
  pub entered : s.entry_gva ≡ entry

tree_of : {T : Tree} {m : Mem} → IsPaged T m → m.pml4 ≢ 0 → IsTree T m
tree_of (inl (ne, tree)) root = tree
tree_of (inr (e, _, _)) root = absurd (root e)

module _ {site : Site} (honest : Honest site.host) (willing : Willing site.host) where
  pub load_app-WithApp :
      (s : Process site) (path : List ℕ) (size off : ℕ) (contents : ℕ → ℕ) (f : site.sys.stdio.File)
      (kernel : List ℕ)
      → Started site s
      → Holds s.world.mem 0x8000 kernel
      → length kernel ≤ 0x8000
      → IsFile site.sys path size contents
      → site.sys.fopen path ≡ some f
      → IsProgram site.sys site.fmt contents size off
      → (s' : Process site) × (load_app path s ≡ proceeds s')
        × WithApp site (start_of site.fmt contents off) size contents kernel s'
  unfolding load_app
  load_app-WithApp s path size off contents f kernel st held short is opened program =
      let low = st.boot.low in
      let m = s.world.mem in
      let r =
        load_mach_obj site.sys site.fmt site.host site.stack (some path) s.entry_gva s.world in
      let (ok, l) =
        load_mach_obj-IsLoaded is site.host honest willing site.stack site.fmt st.T f s.entry_gva
          s.world opened (inl (low.root, low.tree)) st.below (omega (arith, program.magic))
          (omega (arith, program.small)) in
      let m' = r.2.mem in
      let (root, same) = l.same_root low.root in
      let kept = λ (a : ℕ) (lt : a < 0x10000). l.kept a (low.mapped a lt) (low.outside a lt) in
      let looks : Keeps 0 0x10000 m m' = λ c lo hi. (kept c hi).2 in
      (
        record s { entry_gva = r.1; world = r.2 },
        rw ok refl,
        record {
          T = l.T';
          boot = record {
            low = record {
              tree = tree_of l.paged root;
              root = root;
              mapped = λ a lt. (kept a lt).0;
              outside = λ a lt. (kept a lt).1;
            };
            frames = λ q lt. l.frames q (omega arith) ∙ st.boot.frames q lt;
            at_rip = st.boot.at_rip;
            root =
                subst (λ g. Holds m' 0x6ffc (le_bytes 4 g)) (sym same)
                  (Holds-kept m m' 0x6ffc 0 0x10000 (le_bytes 4 m.pml4_gpa) looks (omega arith)
                    (omega arith) st.boot.root);
          };
          at_rsp = st.at_rsp;
          kernel_at =
              Holds-kept m m' 0x8000 0 0x10000 kernel looks (omega arith) (omega arith) held;
          app = record {
            at = λ j lt. ap (l.T' 0) (omega arith) ∙ l.at j lt;
            bytes = λ i lt. (l.bytes i lt).1;
          };
          entered =
              load_mach_obj-IsProgram site.sys site.fmt site.host site.stack contents size off path
                s.entry_gva f s.world program opened;
        },
      )

-- A change of low memory below the kernel.
WithApp-low :
    {site : Site} {entry size : ℕ} {contents : ℕ → ℕ} {kernel : List ℕ} {s : Process site}
    (m' : Mem) (w : WithApp site entry size contents kernel s)
    → length kernel ≤ 0x8000
    → LowChange s.world.mem m'
    → Keeps 0x6ffc 0x7000 s.world.mem m'
    → Keeps 0x8000 0x10000 s.world.mem m'
    → WithApp site entry size contents kernel (with_mem m' s)
WithApp-low {kernel} {s} m' w short change keeps keeps' = record {
  T = w.T;
  boot = Booting-low s.vcpu m' w.boot change keeps refl;
  at_rsp = w.at_rsp;
  kernel_at =
      Holds-kept s.world.mem m' 0x8000 0x8000 0x10000 kernel keeps' (omega arith) (omega arith)
        w.kernel_at;
  app = AppAt-low s.world.mem m' change w.app;
  entered = w.entered;
}

module _ {site : Site} {entry size : ℕ} {contents : ℕ → ℕ} {kernel : List ℕ}
    (short : length kernel ≤ 0x8000) where
  pub setup_args-WithApp :
      (argv : List (List ℕ)) (s : Process site)
      → WithApp site entry size contents kernel s
      → length argv ≤ 32
      → total argv ≤ 0xE00
      → (s' : Process site) × (setup_args argv s ≡ proceeds s')
        × WithApp site entry size contents kernel s'
        × ArgsAt s'.world.mem 0x7100 0x7200 argv
  unfolding setup_args
  setup_args-WithApp argv s w few room =
      let low = w.boot.low in
      let m = s.world.mem in
      let r = write_args argv 0x7100 0x7200 m in
      let a =
        write_args-ArgsWritten argv 0x7100 0x7200 m low.tree.valid
          (MappedRange-low w.T m 0x7100 (length argv * 8) low (omega arith))
          (MappedRange-low w.T m 0x7200 (total argv) low (omega arith)) (omega arith)
          (omega arith) in
      (
        with_mem r.1 s,
        rw (a.ok) refl,
        WithApp-low r.1 w short
            (record {
              regions = a.regions;
              pml4 = a.pml4;
              high = λ c h. a.outside c (omega arith) (omega arith);
            })
            (λ c lo hi. a.outside c (omega arith) (omega arith))
            (λ c lo hi. a.outside c (omega arith) (omega arith)),
        a.args,
      )
