-- ===== src/Mem/Paging/Level.antt =====
-- One level of the walk that `map_gva` makes: `next_table` finds or makes the table below an entry.
use masters_proj.Prelude.{
  ℕ, suc, ◌+◌, ◌-◌, ◌*◌, ◌^◌, ◌≤◌, ◌<◌, ◌≡◌, ◌≢◌, refl, ◌⊎◌, inl, inr, arith, sym, ◌∙◌, subst, ap,
  some, none, Option-cases, ◌==◌, if◌then◌else◌, ◌&&◌, ne→==-false,
}
use native.Mathlib.Decide.{ℕ_discrete}
use masters_proj.Mem.State.{Mem, Host}
use masters_proj.Mem.Gpa.{Block, vm_mem_alloc}
use masters_proj.Mem.Access.{read64, write64}
use masters_proj.Mem.Access.View.{view, Mapped, view-Mapped}
use masters_proj.Mem.Access.Alloc.{Honest, Willing, NewBlock, NewBlock-apart, Below, Below-add}
use masters_proj.Mem.Access.Grant.{vm_mem_alloc-NewBlock, find_free_mem_region-le}
use masters_proj.Mem.Access.Word.{
  MappedRange, Word, Holds-zeros, read64-Word, write64-regions, Mapped-write64, write64-pml4,
}
use masters_proj.Mem.Paging.{Locals, alloc_table, next_table}
use masters_proj.Mem.Paging.Decode.{present-eq, entry_page}
use masters_proj.Mem.Paging.Tree.{
  Tree, entry_of, IsTree, IsTree-kept, Sets, IsOutside, Spares, view-write_entry,
}
use masters_proj.Mem.Paging.Entry.{write-IsTree, write-IsTree_new}

-- An allocation keeps the tree.
pub alloc-IsTree :
    {npages : ℕ} {b : Block} (T : Tree) (m m' : Mem)
    → NewBlock npages m b m'
    → IsTree T m
    → IsTree T m'
alloc-IsTree T m m' new = IsTree-kept T m m' new.valid new.pml4_gpa new.old

-- The tree with one entry set.
abbrev pub set_tree : Tree → (l q x : ℕ) → Tree
set_tree T l q x = λ l' q'. if (l' == l) && (q' == q) then some x else T l' q'

pub set_tree-Sets : (T : Tree) (l q x : ℕ) → Sets l q x T (set_tree T l q x)
set_tree-Sets T l q x = record { at = ground arith; elsewhere = λ l' q' h. ground arith }

-- `T'` has all that `T` has, and the same frames.
pub record Extends (T T' : Tree) : Type 0 where
  pub keeps : (l q v : ℕ) → T l q ≡ some v → T' l q ≡ some v
  pub frames : (q : ℕ) → T' 0 q ≡ T 0 q

-- What a step down to the place `(l, q)` gives.
pub record Step (T : Tree) (top l q : ℕ) (m : Mem) (res : ℕ × Mem) : Type 0 where
  pub T' : Tree
  pub tree : IsTree T' res.1
  pub at : T' l q ≡ some res.0
  pub extends : Extends T T'
  pub below : Below (top + 4096) res.1.regions
  pub kept : (a : ℕ) → Mapped m a → Mapped res.1 a
  pub pml4 : (res.1.pml4 ≡ m.pml4) × (res.1.pml4_gpa ≡ m.pml4_gpa)
  pub spares : Spares T T' m res.1

module _ (host : Host) (locals : Locals) (honest : Honest host) (willing : Willing host) (T : Tree)
    (m : Mem) (tree : IsTree T m) (top : ℕ) (below : Below top m.regions)
    (space : top + 4096 ≤ 2 ^ 52) (k p i t : ℕ) (table : T (suc (suc k)) p ≡ some t)
    (index : i < 512) (upper : k < 4) where
  abbrev place : ℕ
  place = p * 512 + i

  entry_read :
      (v : ℕ) → entry_of (T (suc k) place) ≡ v → v < 2 ^ 64 → read64 m (t + i * 8) locals.entry ≡ v
  entry_read v e lt =
      read64-Word m (t + i * 8) v locals.entry tree.valid lt
        (subst (Word m (t + i * 8)) e (tree.entries (suc k) p i t table index))

  found :
      (x : ℕ)
      → T (suc k) place ≡ some x
      → next_table host locals (t + i * 8) m ≡ (x, write64 (t + i * 8) (x + 3) m)
  unfolding next_table
  found x e =
      let (al, bd) = tree.aligned (suc k) place x e in
      let at : read64 m (t + i * 8) locals.entry ≡ x + 3 =
        entry_read (x + 3) (ap entry_of e) (omega arith) in
      rw (at, ne→==-false (x + 3) 0 (omega arith), entry_page x al (omega arith), present-eq x al)
        refl

  allocated : (b : Block) × (m₁ : Mem) × (vm_mem_alloc host 1 m ≡ (some b, m₁)) × NewBlock 1 m b m₁
  allocated =
      vm_mem_alloc-NewBlock host honest m tree.valid 1 (omega arith)
        (λ g e. omega (
          arith,
          find_free_mem_region-le 1 top g m.regions (omega arith) tree.valid.layout below e,
        ))
        (omega arith) willing

  made :
      (b : Block) (m₁ : Mem)
      → T (suc k) place ≡ none
      → vm_mem_alloc host 1 m ≡ (some b, m₁)
      → NewBlock 1 m b m₁
      → next_table host locals (t + i * 8) m ≡ (b.gpa, write64 (t + i * 8) (b.gpa + 3) m₁)
  unfolding next_table alloc_table
  made b m₁ e a new =
      let at : read64 m (t + i * 8) locals.entry ≡ 0 = entry_read 0 (ap entry_of e) (omega arith) in
      rw (at, a, present-eq b.gpa new.aligned) refl

  old-Step :
      (x : ℕ)
      → T (suc k) place ≡ some x
      → Step T top (suc k) place m (next_table host locals (t + i * 8) m)
  old-Step x e =
      let (al, bd) = tree.aligned (suc k) place x e in
      subst (Step T top (suc k) place m) (sym (found x e)) (record {
        T' = T;
        tree =
            write-IsTree T T m tree (suc k) p i t x table index
              (record { at = e; elsewhere = λ l q o. refl }) al bd (λ l q. refl);
        at = e;
        extends = record { keeps = λ l q v h. h; frames = λ q. refl };
        below =
            rw (write64-regions m (t + i * 8) (x + 3) tree.valid)
              (Below-add top 4096 m.regions below);
        kept = λ a. Mapped-write64 m (t + i * 8) (x + 3) tree.valid a;
        pml4 = write64-pml4 m (t + i * 8) (x + 3) tree.valid;
        spares = record {
          on = λ a ma out. (out, view-write_entry T m (suc k) p i t (x + 3) a tree table index out);
        };
      })

  module _ (b : Block) (m₁ : Mem) (e : T (suc k) place ≡ none) (new : NewBlock 1 m b m₁) where
    tree₁ : IsTree T m₁
    tree₁ = alloc-IsTree T m m₁ new tree

    bound₁ : b.gpa + 4096 ≤ 2 ^ 52
    bound₁ = omega (arith, (new.below top below).0)

    T₁ : Tree
    T₁ = set_tree T (suc k) place b.gpa

    sets₁ : Sets (suc k) place b.gpa T T₁
    unfolding T₁
    sets₁ = set_tree-Sets T (suc k) place b.gpa

    other_page : (l q u : ℕ) → T (suc l) q ≡ some u → u ≢ b.gpa
    other_page l q u h same =
        new.fresh 0 (omega arith)
          (subst (λ a. Mapped m a) (omega arith) (tree.mapped l q u h 0 (omega arith)))

    page_mapped : MappedRange m₁ b.gpa 4096
    page_mapped j lt = view-Mapped m₁ (b.gpa + j) 0 (new.zeros j (omega arith))

    page_zeros : (j : ℕ) → j < 512 → Word m₁ (b.gpa + j * 8) 0
    page_zeros j lt = Holds-zeros m₁ (b.gpa + j * 8) 8 λ c lo hi.
        subst (λ a. view m₁ a ≡ some 0) (omega arith) (new.zeros (c - b.gpa) (omega arith))

    keeps_old : (l q v : ℕ) → T l q ≡ some v → T₁ l q ≡ some v
    keeps_old l q v h = elim (ℕ_discrete l (suc k)) [
      | no ne ↦ sets₁.elsewhere l q (inl ne) ∙ h
      | yes el ↦ elim (ℕ_discrete q place) [
        | no ne ↦ sets₁.elsewhere l q (inr ne) ∙ h
        | yes eq ↦
            let gone : some v ≡ none = sym h ∙ ap (λ a. T a q) el ∙ ap (T (suc k)) eq ∙ e in cc
      ]
    ]

    table_cases : (l q u : ℕ) → T₁ (suc l) q ≡ some u → (T (suc l) q ≡ some u) ⊎ (u ≡ b.gpa)
    unfolding T₁
    table_cases l q u h = ground arith

    -- The new table lies where nothing was mapped.
    spares₁ : (a : ℕ) → Mapped m a → IsOutside T a → IsOutside T₁ a
    spares₁ a ma out l q u h = elim (table_cases l q u h) [
      | inl old ↦ out l q u old
      | inr eq ↦ subst (λ x. (a < x) ⊎ (x + 4096 ≤ a)) (sym eq) (NewBlock-apart new a ma)
    ]

    new-Step : Step T top (suc k) place m (b.gpa, write64 (t + i * 8) (b.gpa + 3) m₁)
    new-Step = record {
      T' = T₁;
      tree =
          write-IsTree_new T T₁ m₁ tree₁ k p i t b.gpa table index sets₁ new.aligned bound₁ upper e
            other_page page_mapped page_zeros;
      at = sets₁.at;
      extends = record { keeps = keeps_old; frames = λ q. sets₁.elsewhere 0 q (inl (omega arith)) };
      below = rw (write64-regions m₁ (t + i * 8) (b.gpa + 3) tree₁.valid) (new.below top below).1;
      kept = λ a h. Mapped-write64 m₁ (t + i * 8) (b.gpa + 3) tree₁.valid a (new.old a h).0;
      pml4 = (
        (write64-pml4 m₁ (t + i * 8) (b.gpa + 3) tree₁.valid).0 ∙ new.pml4,
        (write64-pml4 m₁ (t + i * 8) (b.gpa + 3) tree₁.valid).1 ∙ new.pml4_gpa,
      );
      spares = record {
        on = λ a ma out. (
          spares₁ a ma out,
          view-write_entry T m₁ (suc k) p i t (b.gpa + 3) a tree₁ table index out
              ∙ (new.old a ma).1,
        );
      };
    }

  -- Below an entry of a table `next_table` returns the table that hangs there, or hangs a new
  -- empty one there; no frame changes.
  pub next_table-Step : Step T top (suc k) place m (next_table host locals (t + i * 8) m)
  next_table-Step = elim (Option-cases (T (suc k) place)) [
    | inr (x, e) ↦ old-Step x e
    | inl e ↦
        let (b, m₁, a, new) = allocated in
        subst (Step T top (suc k) place m) (sym (made b m₁ e a new)) (new-Step b m₁ e new)
  ]
