-- ===== src/Mem/Paging/Root.antt =====
-- The root table: `map_gva` makes it at its first call.
use masters_proj.Prelude.{
  ℕ, suc, ◌+◌, ◌-◌, ◌*◌, ◌%◌, ◌^◌, ◌≤◌, ◌<◌, ◌≡◌, ◌≢◌, refl, ◌⊎◌, inl, inr, arith, sym, ◌∙◌, subst,
  some, none, ◌==◌, ne→==-false, true,
}
use masters_proj.Mem.State.{Mem, Host, Status, success}
use masters_proj.Mem.Gpa.{Block, gpa_to_hva}
use masters_proj.Mem.Gpa.Layout.{IsValid}
use masters_proj.Mem.Access.View.{view, Mapped, view-Mapped}
use masters_proj.Mem.Access.Alloc.{Honest, Willing, NewBlock, NewBlock-apart, Below, Below-add}
use masters_proj.Mem.Access.Grant.{vm_mem_alloc-NewBlock, find_free_mem_region-le}
use masters_proj.Mem.Access.Word.{Word, Holds-zeros}
use masters_proj.Mem.Paging.{ensure_root}
use masters_proj.Mem.Paging.Tree.{Tree, entry_of, IsTree, Spares}
use masters_proj.Mem.Paging.Level.{set_tree}

-- No page is mapped, and there is not even a root.
abbrev pub empty_tree : Tree
empty_tree = λ l q. none

-- The page tables are those of `T`, or none are there yet.
abbrev pub IsPaged : Tree → Mem → Type 0
IsPaged T m =
    ((m.pml4 ≢ 0) × IsTree T m) ⊎ ((m.pml4 ≡ 0) × IsValid m.regions × ((l q : ℕ) → T l q ≡ none))

-- What the first statement of `map_gva` leaves for the rest.
pub record Rooted (T : Tree) (top : ℕ) (m : Mem) (res : Status × Mem) : Type 0 where
  pub T' : Tree
  pub ok : res.0 ≡ success
  pub root : res.1.pml4 ≢ 0
  pub tree : IsTree T' res.1
  pub frames : (q : ℕ) → T' 0 q ≡ T 0 q
  pub below : Below (top + 4096) res.1.regions
  pub kept : (a : ℕ) → Mapped m a → Mapped res.1 a
  pub spares : Spares T T' m res.1
  pub same_root : m.pml4 ≢ 0 → res.1.pml4_gpa ≡ m.pml4_gpa

-- A tree of the root alone.
abbrev pub root_tree : ℕ → Tree
root_tree g = set_tree empty_tree 4 0 g

root_only : (g l q t : ℕ) → root_tree g l q ≡ some t → (l ≡ 4) × (q ≡ 0) × (t ≡ g)
root_only g l q t h = ground arith

pub view-root : (m : Mem) (h g a : ℕ) → view (record m { pml4 = h; pml4_gpa = g }) a ≡ view m a
unfolding view gpa_to_hva
view-root m h g a = refl

hva-root :
    (m : Mem) (h g a : ℕ) → gpa_to_hva m a ≡ gpa_to_hva (record m { pml4 = h; pml4_gpa = g }) a
unfolding gpa_to_hva
hva-root m h g a = refl

abbrev pub rooted : Mem → Block → Mem
rooted m b = record m { pml4 = b.hva; pml4_gpa = b.gpa }

pub root-IsTree :
    (m m' : Mem) (b : Block)
    → NewBlock 1 m b m'
    → b.gpa + 4096 ≤ 2 ^ 52
    → IsTree (root_tree b.gpa) (rooted m' b)
root-IsTree m m' b new bound = record {
  valid = new.valid;
  root = refl;
  aligned = λ l p t h.
      let (_, _, e) = root_only b.gpa l p t h in
      subst (λ y. (y % 4096 ≡ 0) × (y + 4096 ≤ 2 ^ 52)) (sym e) (new.aligned, bound);
  mapped = λ l p t h i lt.
      let (_, _, e) = root_only b.gpa (suc l) p t h in
      view-Mapped _ (t + i) 0 (
        view-root m' b.hva b.gpa (t + i)
        ∙ subst (λ y. view m' (y + i) ≡ some 0) (sym e) (new.zeros i (omega arith)));
  distinct = λ l p l' p' t h h'.
      let (e, e₁, _) = root_only b.gpa (suc l) p t h in
      let (e', e₁', _) = root_only b.gpa (suc l') p' t h' in (omega arith, omega arith);
  entries = λ l p i t h lt.
      let (e, e₁, e₂) = root_only b.gpa (suc l) p t h in
      let nothing : root_tree b.gpa l (p * 512 + i) ≡ none = ground arith in
      subst (λ v. Word (rooted m' b) (t + i * 8) (entry_of v)) (sym nothing)
        (Holds-zeros _ (t + i * 8) 8 λ c lo hi.
          view-root m' b.hva b.gpa c
          ∙ subst (λ a. view m' a ≡ some 0) (omega arith) (new.zeros (c - b.gpa) (omega arith)));
  orphans = λ l p i lt li h. ground arith;
}

module _ (host : Host) (honest : Honest host) (willing : Willing host) (T : Tree) (m : Mem)
    (top : ℕ) (below : Below top m.regions) (space : top + 4096 ≤ 2 ^ 52) where
  -- After the check for a root there is one, with no frame set or lost.
  pub ensure_root-Rooted : IsPaged T m → Rooted T top m (ensure_root host m)
  unfolding ensure_root
  ensure_root-Rooted (inl (ne, tree)) = rw (ne→==-false m.pml4 0 ne) (record {
    T' = T;
    ok = refl;
    root = ne;
    tree = tree;
    frames = λ q. refl;
    below = Below-add top 4096 m.regions below;
    kept = λ a h. h;
    spares = record { on = λ a h out. (out, refl) };
    same_root = λ _. refl;
  })
  ensure_root-Rooted (inr (e, valid, empty)) =
      let (b, m', a, new) =
        vm_mem_alloc-NewBlock host honest m valid 1 (omega arith)
          (λ g f.
            omega
              (arith, find_free_mem_region-le 1 top g m.regions (omega arith) valid.layout below f))
          (omega arith) willing in
      let null : (m.pml4 == 0) ≡ true = ground arith in
      rw (null, a)
        (record {
          T' = root_tree b.gpa;
          ok = refl;
          root = new.hva;
          tree = root-IsTree m m' b new (omega (arith, (new.below top below).0));
          frames = λ q. sym (empty 0 q);
          below = (new.below top below).1;
          same_root = λ ne. absurd (ne e);
          spares = record {
            on = λ a h out. (
              λ l p t k.
                  subst (λ x. (a < x) ⊎ (x + 4096 ≤ a)) (sym (root_only b.gpa (suc l) p t k).2)
                    (NewBlock-apart new a h),
              view-root m' b.hva b.gpa a ∙ (new.old a h).1,
            );
          };
          kept = λ a h. subst (λ y. y ≢ 0) (hva-root m' b.hva b.gpa a) (new.old a h).0;
        })
