-- ===== src/Mem/Paging/Init.antt =====
-- `vm_mem_init`: the guest starts with its first pages mapped to themselves.
use masters_proj.Prelude.{
  ℕ, ◌+◌, ◌*◌, ◌^◌, ◌≤◌, ◌<◌, ◌≡◌, refl, ap, ◌≢◌, suc, ◌⊎◌, inr, arith, ◌∙◌, subst, [], some, ◌==◌,
  u64, true,
}
use masters_proj.Mem.State.{Mem, Host, success}
use masters_proj.Mem.Gpa.Layout.{IsValid}
use masters_proj.Mem.Access.View.{view, view-Mapped, Mapped}
use masters_proj.Mem.Access.Alloc.{Honest, Willing, Below}
use masters_proj.Mem.Access.Grant.{vm_mem_alloc-NewBlock, find_free_mem_region-le}
use masters_proj.Mem.Paging.{Locals, map_gva, vm_mem_init, gva_to_gpa, vm_mem_verify}
use masters_proj.Mem.Paging.Tree.{Tree, IsTree, IsOutside}
use masters_proj.Mem.Paging.Root.{empty_tree}
use masters_proj.Mem.Paging.Map.{map_gva-IsMapped}
use masters_proj.Mem.Paging.Verify.{vm_mem_verify_iff}

empty_none : (l p t : ℕ) → empty_tree (suc l) p ≡ some t → {a : ℕ} → (a < t) ⊎ (t + 4096 ≤ a)
empty_none l p t e = cc

-- Before `vm_mem_init` nothing is mapped.
pub record IsFresh (m : Mem) : Type 0 where
  pub regions : m.regions ≡ []
  pub pml4 : m.pml4 ≡ 0

fresh-IsValid : (m : Mem) → IsFresh m → IsValid m.regions
fresh-IsValid m f = rw f.regions (record { layout = tt; separate = tt })

fresh-Below : (m : Mem) → IsFresh m → Below 0 m.regions
fresh-Below m f = rw f.regions tt

-- The guest's first `num_pages` pages are mapped to themselves.
pub record IsIdentity (locals : Locals) (num_pages : ℕ) (m : Mem) : Type 0 where
  pub tree : (T : Tree) × IsTree T m
  pub identity : (a : ℕ) → a < num_pages * 4096 → gva_to_gpa locals m a ≡ a
  pub root : m.pml4 ≢ 0
  pub frames : (q : ℕ) → q < num_pages → tree.0 0 q ≡ some (q * 4096)
  pub below : Below (num_pages * 16384 + 4096) m.regions
  pub outside : (a : ℕ) → a < num_pages * 4096 → IsOutside tree.0 a
  pub backed : (a : ℕ) → a < num_pages * 4096 → Mapped m a

-- On the initial state, with no region and no root table, `vm_mem_init` of at least one page
-- returns 0, and then each of the first `num_pages` pages of the guest is backed by host memory,
-- lies outside the page tables and is translated to itself. The host must grant every request, with zeroed blocks that share no
-- memory, and the pages and their tables must fit in 2 ^ 48 bytes.
pub vm_mem_init-IsIdentity :
    (host : Host) (locals : Locals) (num_pages : ℕ) (m : Mem)
    → Honest host
    → Willing host
    → IsFresh m
    → 0 < num_pages
    → num_pages * 16384 + 4096 ≤ 2 ^ 48
    → let res = vm_mem_init host locals num_pages m in
      (res.0 ≡ success) × IsIdentity locals num_pages res.1
unfolding vm_mem_init
vm_mem_init-IsIdentity host locals num_pages m honest willing fresh pages room =
    let v = fresh-IsValid m fresh in
    let below = fresh-Below m fresh in
    let (b, m₁, a, new) =
      vm_mem_alloc-NewBlock host honest m v num_pages (omega arith)
        (λ g e.
          omega
            (arith, find_free_mem_region-le num_pages 0 g m.regions (omega arith) v.layout below e))
        pages willing in
    let start : b.gpa ≡ 0 = omega (arith, (new.below 0 below).0) in
    let (ok, is) =
      map_gva-IsMapped host locals honest willing empty_tree m₁ (0 + num_pages * 4096) 0 num_pages
        b.gpa (new.below 0 below).1 (inr (new.pml4 ∙ fresh.pml4, new.valid, λ l q. refl))
        (omega arith) (omega arith) (omega arith) (omega arith) (omega arith) in
    let block : (x : ℕ) → x < num_pages * 4096 → Mapped m₁ x =
      λ x lt. view-Mapped m₁ x 0 (subst (λ y. view m₁ y ≡ some 0) (omega arith) (new.zeros x lt)) in
    let res = map_gva host locals 0 num_pages b.gpa m₁ in
    let null : (b.gpa == 0) ≡ true = ground arith in
    rw (a, null)
      (
        ok,
        record {
          tree = (is.T', is.tree);
          identity = λ x lt. is.inside x (omega arith) (omega arith) ∙ omega arith;
          root = is.root;
          frames = λ q lt. ap (is.T' 0) (omega arith) ∙ is.at q lt ∙ ap some (omega arith);
          below = subst (λ top. Below top res.1.regions) (omega arith) is.below;
          outside = λ x lt. (is.spares.on x (block x lt) λ l p t e. empty_none l p t e).0;
          backed = λ x lt. is.kept x (block x lt);
        },
      )

-- In a state where each of the first `num_pages` pages is backed and translated to itself, as
-- `vm_mem_init` leaves it, `vm_mem_verify` accepts every range that ends in those pages.
pub identity-vm_mem_verify :
    (locals : Locals) (num_pages gva n : ℕ) (m : Mem)
    → IsIdentity locals num_pages m
    → num_pages * 4096 < 2 ^ 64
    → gva + n < num_pages * 4096
    → vm_mem_verify locals m gva n ≡ success
identity-vm_mem_verify locals num_pages gva n m is small lt =
    (vm_mem_verify_iff locals m gva n (omega arith)).1 λ i l.
      let e : u64 (gva + i) ≡ gva + i = omega arith in
      rw (e, is.identity (gva + i) (omega arith)) (is.backed (gva + i) (omega arith))
