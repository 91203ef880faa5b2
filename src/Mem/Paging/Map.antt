-- ===== src/Mem/Paging/Map.antt =====
-- `map_gva`.
use masters_proj.Prelude.{
  ℕ, zero, suc, ◌+◌, ◌-◌, ◌*◌, ◌%◌, ◌/◌, ◌^◌, ◌≤◌, ◌<◌, ◌≡◌, ◌≢◌, refl, ◌⊎◌, arith, sym, ◌∙◌, subst,
  ap, some, u64,
}
use masters_proj.Prelude.Bits.{page_mask}
use masters_proj.Mem.State.{Mem, Host, Status, success, failure}
use masters_proj.Mem.Access.Alloc.{Honest, Willing, Below}
use masters_proj.Mem.Access.View.{Mapped}
use masters_proj.Mem.Paging.{
  Locals, map_page, map_pages, map_gva, gva_to_gpa, ensure_root, and_then,
}
use masters_proj.Mem.Paging.Decode.{page_number}
use masters_proj.Mem.Paging.Tree.{Tree, IsTree, Spares, Spares-trans}
use masters_proj.Mem.Paging.Page.{PageStep, map_page-PageStep}
use masters_proj.Mem.Paging.Root.{IsPaged, ensure_root-Rooted}
use masters_proj.Mem.Paging.Walk.{gva_to_gpa-IsTree}

-- What mapping `k` pages from the page `n` on to the frames from `f` on gives.
pub record PagesStep (T : Tree) (top n k f : ℕ) (m m' : Mem) : Type 0 where
  pub T' : Tree
  pub tree : IsTree T' m'
  pub inside : (j : ℕ) → j < k → T' 0 (n + j) ≡ some (f + j * 4096)
  pub elsewhere : (q : ℕ) → (q < n) ⊎ (n + k ≤ q) → T' 0 q ≡ T 0 q
  pub below : Below top m'.regions
  pub kept : (a : ℕ) → Mapped m a → Mapped m' a
  pub pml4 : (m'.pml4 ≡ m.pml4) × (m'.pml4_gpa ≡ m.pml4_gpa)
  pub spares : Spares T T' m m'

-- One page, and then the rest.
PagesStep-cons :
    {T : Tree} {top top' n k f : ℕ} {m m₁ m' : Mem} (s : PageStep T top n f m m₁)
    → PagesStep s.T' top' (n + 1) k (f + 4096) m₁ m'
    → PagesStep T top' n (suc k) f m m'
PagesStep-cons {n} {k} {f} s rest = record {
  T' = rest.T';
  tree = rest.tree;
  inside = inside;
  elsewhere = λ q o. rest.elsewhere q (omega arith) ∙ s.elsewhere q (omega arith);
  below = rest.below;
  kept = λ a h. rest.kept a (s.kept a h);
  pml4 = (rest.pml4.0 ∙ s.pml4.0, rest.pml4.1 ∙ s.pml4.1);
  spares = Spares-trans s.kept s.spares rest.spares;
}
  where
    inside : (j : ℕ) → j < suc k → rest.T' 0 (n + j) ≡ some (f + j * 4096)
    inside zero lt =
        ap (rest.T' 0) (omega arith) ∙ rest.elsewhere n (omega arith) ∙ s.at ∙ ap some (omega arith)
    inside (suc j) lt =
        ap (rest.T' 0) (omega arith) ∙ rest.inside j (omega arith) ∙ ap some (omega arith)

module _ (host : Host) (locals : Locals) (honest : Honest host) (willing : Willing host) where
  pub map_pages-PagesStep :
      (k : ℕ) (T : Tree) (m : Mem) (top gva gpa : ℕ)
      → IsTree T m
      → Below top m.regions
      → top + k * 12288 ≤ 2 ^ 52
      → gva % 4096 ≡ 0
      → gva + k * 4096 ≤ 2 ^ 48
      → gpa % 4096 ≡ 0
      → gpa + k * 4096 ≤ 2 ^ 52
      → PagesStep T (top + k * 12288) (gva / 4096) k gpa m (map_pages host locals k gva gpa m)
  unfolding map_pages
  map_pages-PagesStep zero T m top gva gpa tree below space al room al' room' = record {
    T' = T;
    tree = tree;
    inside = λ j lt. absurd (omega arith);
    elsewhere = λ q o. refl;
    below = subst (λ a. Below a m.regions) (omega arith) below;
    kept = λ a h. h;
    pml4 = (refl, refl);
    spares = record { on = λ a h out. (out, refl) };
  }
  map_pages-PagesStep (suc k) T m top gva gpa tree below space al room al' room' =
      let next : u64 (gva + 4096) ≡ gva + 4096 = omega arith in
      let next' : u64 (gpa + 4096) ≡ gpa + 4096 = omega arith in
      let number : page_number gva ≡ gva / 4096 = omega arith in
      let frame : gpa / 4096 * 4096 ≡ gpa = omega arith in
      let s₁ =
        map_page-PageStep host locals honest willing T m top gva gpa tree below (omega arith)
          (omega arith) (omega arith) in
      let m₁ = map_page host locals gva gpa m in
      let s : PageStep T (top + 3 * 4096) (gva / 4096) gpa m m₁ =
        subst (λ a. PageStep T (top + 3 * 4096) a gpa m m₁) number
          (subst (λ a. PageStep T (top + 3 * 4096) (page_number gva) a m m₁) frame s₁) in
      let rest =
        map_pages-PagesStep k s.T' m₁ (top + 3 * 4096) (gva + 4096) (gpa + 4096) s.tree s.below
          (omega arith) (omega arith) (omega arith) (omega arith) (omega arith) in
      let m' = map_pages host locals k (gva + 4096) (gpa + 4096) m₁ in
      let tops : top + 3 * 4096 + k * 12288 ≡ top + suc k * 12288 = omega arith in
      let numbers : (gva + 4096) / 4096 ≡ gva / 4096 + 1 = omega arith in
      rw (next, next')
        (PagesStep-cons s (
          subst (λ a. PagesStep s.T' a (gva / 4096 + 1) k (gpa + 4096) m₁ m') tops
            (subst (λ a. PagesStep s.T' (top + 3 * 4096 + k * 12288) a k (gpa + 4096) m₁ m') numbers
              rest)))

-- The effect of `map_gva` on translation, from the tree `T` before: the addresses of the pages
-- asked for are translated in order to the pages from `gpa` on, and all other pages as before.
pub record IsMapped (locals : Locals) (T : Tree) (top gva npages gpa : ℕ) (m m' : Mem)
    : Type 0 where
  pub T' : Tree
  pub tree : IsTree T' m'
  pub root : m'.pml4 ≢ 0
  pub below : Below top m'.regions
  pub kept : (a : ℕ) → Mapped m a → Mapped m' a
  pub spares : Spares T T' m m'
  pub inside :
      (a : ℕ) → gva ≤ a → a < gva + npages * 4096 → gva_to_gpa locals m' a ≡ gpa + (a - gva)
  pub at : (j : ℕ) → j < npages → T' 0 (gva / 4096 + j) ≡ some (gpa + j * 4096)
  pub same_root : m.pml4 ≢ 0 → m'.pml4_gpa ≡ m.pml4_gpa
  pub frames : (q : ℕ) → (q < gva / 4096) ⊎ (gva / 4096 + npages ≤ q) → T' 0 q ≡ T 0 q

pub and_then-success :
    (r : Status × Mem) (k : Mem → Status × Mem) → r.0 ≡ success → and_then r k ≡ k r.1
and_then-success (success, m) k e = refl
and_then-success (failure, m) k e = cc

module _ (host : Host) (locals : Locals) (honest : Honest host) (willing : Willing host) (T : Tree)
    (m : Mem) (top gva npages gpa : ℕ) (below : Below top m.regions) (paged : IsPaged T m)
    (space : top + 4096 + npages * 12288 ≤ 2 ^ 52) where
  abbrev gva₀ : ℕ
  gva₀ = gva / 4096 * 4096

  abbrev gpa₀ : ℕ
  gpa₀ = gpa / 4096 * 4096

  -- In a state with well-formed page tables, or with none yet, and with a host that grants every
  -- request, with zeroed blocks that share no memory, `map_gva` returns 0. Afterwards the page
  -- tables are well formed, `gva_to_gpa` translates the pages asked for in order to the guest
  -- physical pages asked for, all other pages have the frames they had, and what was mapped is
  -- still mapped, with the bytes that it held outside the page tables. The pages must lie below 2 ^ 48, their frames and the regions with the new
  -- tables below 2 ^ 52.
  pub map_gva-IsMapped :
      gva₀ + npages * 4096 ≤ 2 ^ 48
      → gpa₀ + npages * 4096 ≤ 2 ^ 52
      → gva < 2 ^ 64
      → gpa < 2 ^ 64
      → let res = map_gva host locals gva npages gpa m in
        (res.0 ≡ success) × IsMapped locals T (top + 4096 + npages * 12288) gva₀ npages gpa₀ m res.1
  unfolding map_gva
  map_gva-IsMapped room room' lt lt' =
      let r = ensure_root-Rooted host honest willing T m top below (omega arith) paged in
      let s =
        map_pages-PagesStep host locals honest willing npages r.T' (ensure_root host m).1
          (top + 4096) gva₀ gpa₀ r.tree r.below space (omega arith) room (omega arith) room' in
      rw (page_mask gva lt, page_mask gpa lt', and_then-success (ensure_root host m) _ r.ok)
        (
          refl,
          record {
            T' = s.T';
            tree = s.tree;
            root = λ z. r.root (sym s.pml4.0 ∙ z);
            below = s.below;
            kept = λ a h. s.kept a (r.kept a h);
            spares = Spares-trans r.kept r.spares s.spares;
            inside = λ a lo hi.
                let at : s.T' 0 (page_number a) ≡ some (gpa₀ + (a / 4096 - gva₀ / 4096) * 4096) =
                  ap (s.T' 0) (omega arith) ∙ s.inside (a / 4096 - gva₀ / 4096) (omega arith) in
                gva_to_gpa-IsTree locals s.T' _ a _ s.tree at ∙ omega arith;
            at = λ j lt. s.inside j lt;
            same_root = λ ne. s.pml4.1 ∙ r.same_root ne;
            frames = λ q o. s.elsewhere q o ∙ r.frames q;
          },
        )
