-- ===== src/Loader/Object.antt =====
-- `load_mach_obj`: the program's bytes where the guest will look for them.
use native.Mathlib.Decide.{dec_lt}
use masters_proj.Prelude.{
  ℕ, ◌+◌, ◌-◌, ◌*◌, ◌/◌, ◌%◌, ◌^◌, ◌≤◌, ◌<◌, ◌≡◌, ◌≢◌, ◌⊎◌, inl, inr, some, none, List, suc, arith,
  sym, ◌∙◌, ap, subst, ne→==-false,
}
use masters_proj.Mem.State.{Mem, Host, success}
use masters_proj.Mem.Gpa.{map_gpa}
use masters_proj.Mem.Gpa.Layout.{IsValid}
use masters_proj.Mem.Access.Alloc.{Honest, Willing, Below}
use masters_proj.Mem.Access.View.{view, view-Mapped, Mapped}
use masters_proj.Mem.Paging.{Locals, map_gva, gva_to_gpa}
use masters_proj.Mem.Paging.Tree.{Tree, IsOutside}
use masters_proj.Mem.Paging.Root.{IsPaged}
use masters_proj.Mem.Paging.Map.{IsMapped, map_gva-IsMapped, and_then-success}
use masters_proj.MachO.Library.{Format}
use masters_proj.Loader.{
  fopens, fcloses, System, World, Stack, called, num_pages_of, map_file, load_pages, load_mach_obj,
}
use masters_proj.Loader.Pages.{
  FilePages, IsFile, hva, after_mmap, num_pages_of-le, num_pages_of-small, FilePages-IsPaged,
  map_gpa-FilePages,
}

IsPaged-IsValid : (T : Tree) (m : Mem) → IsPaged T m → IsValid m.regions
IsPaged-IsValid T m (inl (ne, tree)) = tree.valid
IsPaged-IsValid T m (inr (e, valid, empty)) = valid

-- What is not mapped lies outside the tables.
IsPaged-IsOutside : (T : Tree) (m : Mem) (a : ℕ) → IsPaged T m → ¬ Mapped m a → IsOutside T a
IsPaged-IsOutside T m a (inl (ne, tree)) unmapped l p t e = elim (dec_lt a t) [
  | yes lt ↦ inl lt
  | no ge ↦ elim (dec_lt a (t + 4096)) [
    | no ge' ↦ inr (omega arith)
    | yes lt ↦
        absurd
          (unmapped (subst (Mapped m) (omega arith) (tree.mapped l p t e (a - t) (omega arith))))
  ]
]
IsPaged-IsOutside T m a (inr (_, _, empty)) unmapped l p t e =
    let gone : none ≡ some t = sym (empty (suc l) p) ∙ e in absurd (ground arith)

-- The guest sees the file from `base` on, through the page tables, and the memory that it had.
pub record IsLoaded (locals : Locals) (base size : ℕ) (contents : ℕ → ℕ) (T : Tree) (m m' : Mem)
    : Type 0 where
  pub T' : Tree
  pub paged : IsPaged T' m'
  pub seen : (i : ℕ) → i < size → view m' (gva_to_gpa locals m' (base + i)) ≡ some (contents i)
  pub at : (j : ℕ) → j < num_pages_of size → T' 0 (base / 4096 + j) ≡ some (base + j * 4096)
  pub bytes :
      (i : ℕ) → i < size → IsOutside T' (base + i) × (view m' (base + i) ≡ some (contents i))
  pub kept :
      (a : ℕ) → Mapped m a → IsOutside T a → Mapped m' a × IsOutside T' a × (view m' a ≡ view m a)
  pub same_root : m.pml4 ≢ 0 → (m'.pml4 ≢ 0) × (m'.pml4_gpa ≡ m.pml4_gpa)
  pub frames : (q : ℕ) → (q < base / 4096) ⊎ (base / 4096 + num_pages_of size ≤ q) → T' 0 q ≡ T 0 q

-- The pages of a file, translated.
IsMapped-IsLoaded :
    (locals : Locals) {T : Tree} {base top size : ℕ} {contents : ℕ → ℕ} {m m₂ m₃ : Mem}
    → base % 4096 ≡ 0
    → IsPaged T m
    → FilePages base (num_pages_of size) size contents m m₂
    → IsMapped locals T top (base / 4096 * 4096) (num_pages_of size) (base / 4096 * 4096) m₂ m₃
    → IsLoaded locals base size contents T m m₃
IsMapped-IsLoaded locals {T} {base} {top} {size} {contents} {m} {m₂} {m₃} al paged pages map =
    record {
      T' = map.T';
      paged = inl (map.root, map.tree);
      seen = λ i lt.
          let le = num_pages_of-le size in
          let to : gva_to_gpa locals m₃ (base + i) ≡ base + i =
            map.inside (base + i) (omega arith) (omega arith) ∙ omega arith in
          ap (view m₃) to ∙ (bytes i lt).1;
      at = λ j lt.
          let start : base / 4096 * 4096 ≡ base = omega arith in
          subst (λ f. map.T' 0 (base / 4096 + j) ≡ some (f + j * 4096)) start
            (ap (map.T' 0) (omega arith) ∙ map.at j lt);
      bytes = bytes;
      kept = λ a ma out.
          let (ma', same) = pages.old a ma in
          let (out', same') = map.spares.on a ma' out in (map.kept a ma', out', same' ∙ same);
      same_root = λ ne. (map.root, map.same_root (λ z. ne (sym pages.pml4 ∙ z)) ∙ pages.pml4_gpa);
      frames = λ q o. map.frames q (omega arith);
    }
  where
    bytes :
        (i : ℕ) → i < size → IsOutside map.T' (base + i) × (view m₃ (base + i) ≡ some (contents i))
    bytes i lt =
        let le = num_pages_of-le size in
        let held = pages.holds i lt in
        let (out, same) =
          map.spares.on (base + i) (view-Mapped m₂ (base + i) (contents i) held)
            (IsPaged-IsOutside T m (base + i) paged (pages.fresh i (omega arith))) in
        (out, same ∙ held)

module _ {sys : System} {path : List ℕ} {size : ℕ} {contents : ℕ → ℕ}
    (is : IsFile sys path size contents) (host : Host) (honest : Honest host)
    (willing : Willing host) (stack : Stack) (fmt : Format) (T : Tree) where
  load_pages-IsLoaded :
      (base : ℕ) (w : World)
      → IsPaged T w.mem
      → base % 4096 ≡ 0
      → Below base w.mem.regions
      → 0 < size
      → base + num_pages_of size * 16384 + 4096 ≤ 2 ^ 48
      → let r = load_pages sys fmt host stack path base base w in
        (r.0 ≡ success) × IsLoaded stack.locals base size contents T w.mem r.1.mem
  unfolding load_pages map_file
  load_pages-IsLoaded base w paged al below bytes room =
      let valid = IsPaged-IsValid T w.mem paged in
      let n = num_pages_of size in
      let (ok, pages) =
        map_gpa-FilePages is host willing w.mem valid base al below bytes (omega arith) in
      let r₂ = map_gpa host base n (hva is w.mem valid) (after_mmap is w.mem valid) in
      let (ok', map) =
        map_gva-IsMapped host stack.locals honest willing T r₂.1 (base + n * 4096) base n base
          pages.below (FilePages-IsPaged T w.mem r₂.1 pages paged) (omega arith) (omega arith)
          (omega arith) (omega arith) (omega arith) in
      rw
        (
          is.opened,
          is.sized,
          ne→==-false _ 0 (is.mapped w.mem),
          and_then-success r₂ (map_gva host stack.locals base n base) ok,
        )
        (ok', IsMapped-IsLoaded stack.locals al paged pages map)

  -- In a state with well-formed page tables, or none yet, whose regions end at or below 2 ^ 32, with
  -- a system that opens and maps the file and a host that grants every request, with zeroed blocks
  -- that share no memory, `load_mach_obj` of a file of at least one byte and of at most 2 ^ 44 bytes
  -- returns 0. The guest then sees the file's bytes in order from the address 0x100000000 on,
  -- through its page tables; the page tables are well formed, pages elsewhere have the frames that
  -- they had, and what was mapped outside the page tables holds the bytes that it held.
  pub load_mach_obj-IsLoaded :
      (f : sys.stdio.File) (entryoff : ℕ) (w : World)
      → sys.fopen path ≡ some f
      → IsPaged T w.mem
      → Below 0x100000000 w.mem.regions
      → 0 < size
      → size ≤ 2 ^ 44
      → let r = load_mach_obj sys fmt host stack (some path) entryoff w in
        (r.0 ≡ success) × IsLoaded stack.locals 0x100000000 size contents T w.mem r.2.mem
  unfolding load_mach_obj
  load_mach_obj-IsLoaded f entryoff w e paged below bytes small =
      rw (e, load_mach_obj)
        (load_pages-IsLoaded 0x100000000 (called fcloses (called fopens w)) paged (omega arith)
          below bytes (omega (arith, num_pages_of-small size)))
