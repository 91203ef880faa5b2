-- ===== src/Mem/Paging/Tree.antt =====
-- What the guest page tables stand for, and when memory holds them.
use masters_proj.Prelude.{
  ℕ, suc, ◌+◌, ◌*◌, ◌%◌, ◌^◌, ◌≤◌, ◌<◌, ◌≡◌, ◌≢◌, ◌⊎◌, inl, inr, arith, sym, ◌∙◌, subst, ap, Option,
  some, none,
}
use masters_proj.Prelude.Bytes.{le_bytes}
use native.Mathlib.Decide.{ℕ_discrete}
use masters_proj.Mem.State.{Mem}
use masters_proj.Mem.Gpa.Layout.{IsValid}
use masters_proj.Mem.Access.{write64}
use masters_proj.Mem.Access.View.{view, Mapped}
use masters_proj.Mem.Access.Grant.{same-hva}
use masters_proj.Mem.Access.Word.{
  Holds-same, MappedRange, Word, write64-regions, write64-pml4, write64-Word, write64-Word_other,
  view-write64,
}

-- The table of a level from 4 (the root) down to 1 for the pages whose number begins with a
-- prefix, and at level 0 the frame of a page.
abbrev pub Tree : Type 0
Tree = (level prefix : ℕ) → Option ℕ

abbrev pub entry_of : Option ℕ → ℕ
entry_of none = 0
entry_of (some t) = t + 3

-- Memory holds the tree: each table is a mapped page of its own, and its entries are those of the
-- next level; no table hangs below a missing one.
pub record IsTree (T : Tree) (m : Mem) : Type 0 where
  pub valid : IsValid m.regions
  pub root : T 4 0 ≡ some m.pml4_gpa
  pub aligned : (l p t : ℕ) → T l p ≡ some t → (t % 4096 ≡ 0) × (t + 4096 ≤ 2 ^ 52)
  pub mapped : (l p t : ℕ) → T (suc l) p ≡ some t → MappedRange m t 4096
  pub distinct :
      (l p l' p' t : ℕ) → T (suc l) p ≡ some t → T (suc l') p' ≡ some t → (l ≡ l') × (p ≡ p')
  pub entries :
      (l p i t : ℕ)
      → T (suc l) p ≡ some t
      → i < 512
      → Word m (t + i * 8) (entry_of (T l (p * 512 + i)))
  pub orphans : (l p i : ℕ) → l < 4 → i < 512 → T (suc l) p ≡ none → T l (p * 512 + i) ≡ none

-- A change that keeps what was mapped keeps the tree.
pub IsTree-kept :
    (T : Tree) (m m' : Mem)
    → IsValid m'.regions
    → m'.pml4_gpa ≡ m.pml4_gpa
    → ((a : ℕ) → Mapped m a → Mapped m' a × (view m' a ≡ view m a))
    → IsTree T m
    → IsTree T m'
IsTree-kept T m m' valid root old tree = record {
  valid = valid;
  root = tree.root ∙ ap some (sym root);
  aligned = tree.aligned;
  mapped = λ l p t h i lt. (old (t + i) (tree.mapped l p t h i lt)).0;
  distinct = tree.distinct;
  entries = λ l p i t h lt.
      Holds-same m m' (t + i * 8) (le_bytes 8 (entry_of (T l (p * 512 + i))))
        (λ c mc lo hi. (old c mc).1) (tree.entries l p i t h lt);
  orphans = tree.orphans;
}

-- `T'` is `T` but for one entry.
pub record Sets (l q x : ℕ) (T T' : Tree) : Type 0 where
  pub at : T' l q ≡ some x
  pub elsewhere : (l' q' : ℕ) → (l' ≢ l) ⊎ (q' ≢ q) → T' l' q' ≡ T l' q'

-- An address that lies in no table.
abbrev pub IsOutside : Tree → ℕ → Type 0
IsOutside T a = (l p t : ℕ) → T (suc l) p ≡ some t → (a < t) ⊎ (t + 4096 ≤ a)

-- Memory that is in use for other things than tables stays so, with what it holds.
pub record Spares (T T' : Tree) (m m' : Mem) : Type 0 where
  pub on : (a : ℕ) → Mapped m a → IsOutside T a → IsOutside T' a × (view m' a ≡ view m a)

pub Spares-trans :
    {T T' T'' : Tree} {m m' m'' : Mem}
    → ((a : ℕ) → Mapped m a → Mapped m' a)
    → Spares T T' m m'
    → Spares T' T'' m' m''
    → Spares T T'' m m''
Spares-trans kept s s' = record {
  on = λ a ma out.
      let (out', same) = s.on a ma out in
      let (out'', same') = s'.on a (kept a ma) out' in (out'', same' ∙ same);
}

-- A range inside a mapped page.
pub MappedRange-sub :
    (m : Mem) (t i n : ℕ) → MappedRange m t 4096 → i + n ≤ 4096 → MappedRange m (t + i) n
MappedRange-sub m t i n h b j lt = subst (Mapped m) (omega arith) (h (i + j) (omega arith))

-- The write of one entry.
module _ (T T' : Tree) (m : Mem) (tree : IsTree T m) (l p i t x : ℕ) (table : T (suc l) p ≡ some t)
    (index : i < 512) (sets : Sets l (p * 512 + i) x T T') where
  abbrev pub slot : ℕ
  slot = t + i * 8

  abbrev pub m' : Mem
  m' = write64 slot (x + 3) m

  pub slot_mapped : MappedRange m slot 8
  slot_mapped = MappedRange-sub m t (i * 8) 8 (tree.mapped l p t table) (omega arith)

  -- Another slot has another place in the tree.
  pub other_place :
      (l₁ p₁ j t₁ : ℕ)
      → T (suc l₁) p₁ ≡ some t₁
      → j < 512
      → t₁ + j * 8 ≢ slot
      → (l₁ ≢ l) ⊎ (p₁ * 512 + j ≢ p * 512 + i)
  other_place l₁ p₁ j t₁ h lt other = elim (ℕ_discrete l₁ l) [
    | no ne ↦ inl ne
    | yes el ↦ inr λ e.
        let ep : p₁ ≡ p = omega arith in
        let ej : j ≡ i = omega arith in
        let same : some t₁ ≡ some t =
          sym h ∙ ap (λ k. T (suc k) p₁) el ∙ ap (T (suc l)) ep ∙ table in
        other (ground arith)
  ]

  same_place :
      (l₁ p₁ j t₁ : ℕ)
      → T (suc l₁) p₁ ≡ some t₁
      → j < 512
      → t₁ + j * 8 ≡ slot
      → T' l₁ (p₁ * 512 + j) ≡ some x
  same_place l₁ p₁ j t₁ h lt same =
      let a₁ = (tree.aligned (suc l₁) p₁ t₁ h).0 in
      let a = (tree.aligned (suc l) p t table).0 in
      let et : t₁ ≡ t = omega arith in
      let ej : j ≡ i = omega arith in
      let (el, ep) = tree.distinct l₁ p₁ l p t (h ∙ ap some et) table in
      ap (λ k. T' k (p₁ * 512 + j)) el ∙ ap (T' l) (omega arith) ∙ sets.at

  -- The entries of the tables of `T` are those of `T'` afterwards.
  pub entries_after :
      (l₁ p₁ j t₁ : ℕ)
      → T (suc l₁) p₁ ≡ some t₁
      → j < 512
      → Word m' (t₁ + j * 8) (entry_of (T' l₁ (p₁ * 512 + j)))
  entries_after l₁ p₁ j t₁ h lt = elim (ℕ_discrete (t₁ + j * 8) slot) [
    | yes same ↦
        subst (λ a. Word m' a (entry_of (T' l₁ (p₁ * 512 + j)))) (sym same)
          (subst (λ v. Word m' slot (entry_of v)) (sym (same_place l₁ p₁ j t₁ h lt same))
            (write64-Word m slot (x + 3) tree.valid slot_mapped))
    | no other ↦
        let a₁ = (tree.aligned (suc l₁) p₁ t₁ h).0 in
        let a = (tree.aligned (suc l) p t table).0 in
        let kept = sets.elsewhere l₁ (p₁ * 512 + j) (other_place l₁ p₁ j t₁ h lt other) in
        subst (λ v. Word m' (t₁ + j * 8) (entry_of v)) (sym kept)
          (write64-Word_other m slot (x + 3) tree.valid slot_mapped (t₁ + j * 8) _ (omega arith)
            (tree.entries l₁ p₁ j t₁ h lt))
  ]

  pub regions_after : m'.regions ≡ m.regions
  regions_after = write64-regions m slot (x + 3) tree.valid

  pub IsValid-after : IsValid m'.regions
  IsValid-after = subst IsValid (sym regions_after) tree.valid

  pub Mapped-after : (a : ℕ) → Mapped m a → Mapped m' a
  Mapped-after a h = subst (λ h. h ≢ 0) (sym (same-hva m m' a regions_after)) h

  pub root_after : m'.pml4_gpa ≡ m.pml4_gpa
  root_after = (write64-pml4 m slot (x + 3) tree.valid).1

  -- A place is that of the new entry, or another.
  pub place : (l₁ q₁ : ℕ) → ((l₁ ≡ l) × (q₁ ≡ p * 512 + i)) ⊎ ((l₁ ≢ l) ⊎ (q₁ ≢ p * 512 + i))
  place l₁ q₁ = elim (ℕ_discrete l₁ l) [
    | no ne ↦ inr (inl ne)
    | yes el ↦ elim (ℕ_discrete q₁ (p * 512 + i)) [ no ne ↦ inr (inr ne) | yes eq ↦ inl (el, eq) ]
  ]

  -- What stands at the place of the new entry.
  pub at_place : (l₁ q₁ t₁ : ℕ) → (l₁ ≡ l) × (q₁ ≡ p * 512 + i) → T' l₁ q₁ ≡ some t₁ → t₁ ≡ x
  at_place l₁ q₁ t₁ (el, eq) h =
      let here : T' l₁ q₁ ≡ some x = ap (λ k. T' k q₁) el ∙ ap (T' l) eq ∙ sets.at in
      let both : some t₁ ≡ some x = sym h ∙ here in ground arith

  -- Below a missing table nothing is set.
  pub orphans_after :
      (l₁ p₁ j : ℕ) → l₁ < 4 → j < 512 → T (suc l₁) p₁ ≡ none → T' l₁ (p₁ * 512 + j) ≡ none
  orphans_after l₁ p₁ j lt lj h = elim (place l₁ (p₁ * 512 + j)) [
    | inr other ↦ sets.elsewhere l₁ (p₁ * 512 + j) other ∙ tree.orphans l₁ p₁ j lt lj h
    | inl (el, eq) ↦
        let ep : p₁ ≡ p = omega arith in
        let gone : none ≡ some t = sym h ∙ ap (λ k. T (suc k) p₁) el ∙ ap (T (suc l)) ep ∙ table in
        cc
  ]

-- A write to an entry spares what lies outside the tables.
pub view-write_entry :
    (T : Tree) (m : Mem) (l p i t v a : ℕ)
    → IsTree T m
    → T (suc l) p ≡ some t
    → i < 512
    → IsOutside T a
    → view (write64 (t + i * 8) v m) a ≡ view m a
view-write_entry T m l p i t v a tree table lt out =
    view-write64 m (t + i * 8) v tree.valid
      (MappedRange-sub m t (i * 8) 8 (tree.mapped l p t table) (omega arith)) a
      (omega (arith, out l p t table))
