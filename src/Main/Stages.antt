-- ===== src/Main/Stages.antt =====
-- The statements of `main` one by one, each with the state that it leaves.
use masters_proj.Prelude.{
  ℕ, ◌-◌, ◌≤◌, ◌≡◌, refl, if◌then◌else◌, true, List, [], ◌∷◌, arith, sym, ◌∙◌, subst, some, ap,
}
use masters_proj.Prelude.Bytes.{le_bytes, slice}
use masters_proj.Mem.State.{Region, Mem}
use masters_proj.Mem.Access.Alloc.{Honest, Willing, Below, Below-add}
use masters_proj.Mem.Access.View.{Holds}
use masters_proj.Mem.Paging.{vm_mem_init}
use masters_proj.Mem.Paging.Tree.{Tree}
use masters_proj.Mem.Paging.Init.{IsFresh, IsIdentity, vm_mem_init-IsIdentity}
use masters_proj.Cpu.State.{Works, Hypervisor, rsp, rreg}
use masters_proj.Cpu.Setup.{enable_msrs, native_msrs, vcpu_setup_ia32}
use masters_proj.Cpu.Setup.Start.{vcpu_setup_ia32-start}
use masters_proj.Loader.{load_raw}
use masters_proj.Loader.Pages.{IsFile}
use masters_proj.Loader.Raw.{load_raw-RawLoaded}
use masters_proj.Main.{
  Site, creates_vm, creates_vcpu, vm_called, set_vcpu, jumps, vm_destroy, Process, Step, proceeds,
  and_next, with_mem, create_vm, init_memory, create_vcpu, setup_vcpu, load_kernel,
}
use masters_proj.Main.Boot.{Booting, Booting-low}
use masters_proj.Main.Low.{
  IsLow, LowChange, LowChange-IsLow, MappedRange-low, vcpu_setup_ia32-LowChange,
}

-- A statement goes on to the state `s`.
pub and_next-proceeds :
    {site : Site} {r : Step site} {s s' : Process site} (k : Process site → Step site)
    → r ≡ proceeds s
    → k s ≡ proceeds s'
    → and_next r k ≡ proceeds s'
and_next-proceeds k e e' = ap (λ r. and_next r k) e ∙ e'

enable_msrs-ok :
    (hv : Hypervisor) (msrs : List ℕ) (c : hv.Vcpu)
    → ((msr : ℕ) (c : hv.Vcpu) → (hv.enable_native_msr msr c).0 ≡ true)
    → (enable_msrs hv msrs c).0 ≡ 0
unfolding enable_msrs
enable_msrs-ok hv [] c ok = refl
enable_msrs-ok hv (msr ∷ msrs) c ok =
    rw (ok msr c) (enable_msrs-ok hv msrs (hv.enable_native_msr msr c).1 ok)

setup_ok :
    (hv : Hypervisor) (c : hv.Vcpu) (m : Mem)
    → ((msr : ℕ) (c : hv.Vcpu) → (hv.enable_native_msr msr c).0 ≡ true)
    → (vcpu_setup_ia32 hv c m).0 ≡ 0
unfolding vcpu_setup_ia32
setup_ok hv c m native = enable_msrs-ok hv native_msrs _ native

Below-le : (top top' : ℕ) (rs : List Region) → top ≤ top' → Below top rs → Below top' rs
Below-le top top' rs le b = subst (λ t. Below t rs) (omega arith) (Below-add top (top' - top) rs b)

-- The machine as `vcpu_setup_ia32` leaves it.
pub record Started (site : Site) (s : Process site) : Type 0 where
  pub T : Tree
  pub boot : Booting site.hv T s.vcpu s.world.mem
  pub at_rsp : rreg site.hv s.vcpu rsp ≡ 0x6ffc
  pub below : Below 0x100000000 s.world.mem.regions

module _ {site : Site} (honest : Honest site.host) (willing : Willing site.host)
    (works : Works site.hv) where
  init_memory-IsIdentity :
      (s : Process site)
      → IsFresh s.world.mem
      → let m = (vm_mem_init site.host site.stack.locals 16 s.world.mem).1 in
        (init_memory s ≡ proceeds (with_mem m s)) × IsIdentity site.stack.locals 16 m
  unfolding init_memory
  init_memory-IsIdentity s fresh =
      let (ok, is) =
        vm_mem_init-IsIdentity site.host site.stack.locals 16 s.world.mem honest willing fresh
          (omega arith) (omega arith) in
      (rw ok refl, is)

  setup_vcpu-Started :
      (s : Process site)
      → IsIdentity site.stack.locals 16 s.world.mem
      → ((msr : ℕ) (c : site.hv.Vcpu) → (site.hv.enable_native_msr msr c).0 ≡ true)
      → (s' : Process site) × (setup_vcpu s ≡ proceeds s') × Started site s'
  unfolding setup_vcpu
  setup_vcpu-Started s is native =
      let m = s.world.mem in
      let low : IsLow is.tree.0 m = record {
        tree = is.tree.1;
        root = is.root;
        mapped = λ a lt. is.backed a (omega arith);
        outside = λ a lt. is.outside a (omega arith);
      } in
      let T = is.tree.0 in
      let r = vcpu_setup_ia32 site.hv s.vcpu m in
      let (at_rip, flags, at_rsp, null, null', code, segment, root, others) =
        vcpu_setup_ia32-start site.hv works s.vcpu m low.tree.valid
          (MappedRange-low T m 0 32 low (omega arith))
          (MappedRange-low T m 0x6ffc 4 low (omega arith)) in
      let change = vcpu_setup_ia32-LowChange site.hv s.vcpu m low.tree.valid in
      let ok : r.0 ≡ 0 = setup_ok site.hv s.vcpu m native in
      (
        with_mem r.2 (record s { vcpu = r.1 }),
        rw ok refl,
        record {
          T = T;
          boot = record {
            low = LowChange-IsLow T m r.2 change low;
            frames = is.frames;
            at_rip = at_rip;
            root = subst (λ g. Holds r.2 0x6ffc (le_bytes 4 g)) (sym change.pml4.1) root;
          };
          at_rsp = at_rsp;
          below = rw change.regions (Below-le _ _ m.regions (omega arith) is.below);
        },
      )

  pub start-Started :
      (s : Process site) (c : site.hv.Vcpu)
      → IsFresh s.world.mem
      → site.hv_vm_create ≡ true
      → site.hv_vcpu_create ≡ some c
      → ((msr : ℕ) (c : site.hv.Vcpu) → (site.hv.enable_native_msr msr c).0 ≡ true)
      → (s' : Process site) × (and_next
            (and_next (and_next (create_vm s) init_memory) create_vcpu)
            setup_vcpu
          ≡ proceeds s')
        × Started site s'
  unfolding create_vm create_vcpu
  start-Started s c fresh vm cpu native =
      let s₁ = vm_called creates_vm s in
      let e₁ : create_vm s ≡ proceeds s₁ =
        ap (λ b. if b then proceeds s₁ else jumps vm_destroy 1 s₁) vm in
      let (e₂, is) = init_memory-IsIdentity s₁ fresh in
      let s₂ = with_mem (vm_mem_init site.host site.stack.locals 16 s.world.mem).1 s₁ in
      let s₃ = record (vm_called creates_vcpu s₂) { vcpu = c } in
      let e₃ : create_vcpu s₂ ≡ proceeds s₃ = ap (λ o. set_vcpu o s₂) cpu in
      let (s₄, e₄, started) = setup_vcpu-Started s₃ is native in
      (
        s₄,
        and_next-proceeds setup_vcpu
            (and_next-proceeds create_vcpu (and_next-proceeds init_memory e₁ e₂) e₃) e₄,
        started,
      )

  -- The kernel stands at its place.
  pub load_kernel-Started :
      (s : Process site) (path : List ℕ) (size : ℕ) (contents : ℕ → ℕ)
      → Started site s
      → IsFile site.sys path size contents
      → size ≤ 0x8000
      → (s' : Process site) × (load_kernel path s ≡ proceeds s')
        × Started site s'
        × Holds s'.world.mem 0x8000 (slice contents 0 size)
  unfolding load_kernel
  load_kernel-Started s path size contents st is le =
      let low = st.boot.low in
      let m = s.world.mem in
      let r = load_raw site.sys (some path) 0x8000 s.world in
      let (ok, raw) =
        load_raw-RawLoaded site.sys path 0x8000 size contents s.world is (omega arith)
          low.tree.valid (MappedRange-low st.T m 0x8000 size low (omega arith)) in
      let change : LowChange m r.1.mem = record {
        regions = raw.regions;
        pml4 = raw.pml4;
        high = λ a h. raw.outside a (omega arith);
      } in
      (
        record s { world = r.1 },
        rw ok refl,
        record {
          T = st.T;
          boot =
              Booting-low s.vcpu r.1.mem st.boot change (λ c lo hi. raw.outside c (omega arith))
                refl;
          at_rsp = st.at_rsp;
          below = rw raw.regions st.below;
        },
        raw.holds,
      )
