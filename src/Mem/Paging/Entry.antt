-- ===== src/Mem/Paging/Entry.antt =====
-- Writes that set an entry in a table that is there: one that leaves the tables alone, and one that
-- adds an empty table.
use masters_proj.Prelude.{
  ℕ, suc, ◌+◌, ◌*◌, ◌%◌, ◌^◌, ◌≤◌, ◌<◌, ◌≡◌, ◌≢◌, ◌⊎◌, inl, inr, arith, sym, ◌∙◌, subst, ap, some,
  none,
}
use masters_proj.Mem.State.{Mem}
use masters_proj.Mem.Access.{write64}
use masters_proj.Mem.Access.View.{Mapped}
use masters_proj.Mem.Access.Word.{MappedRange, Word, write64-Word_other}
use masters_proj.Mem.Paging.Tree.{
  Tree, entry_of, IsTree, Sets, m', slot_mapped, entries_after, IsValid-after, Mapped-after,
  root_after, place, at_place, orphans_after,
}

module _ (T T' : Tree) (m : Mem) (tree : IsTree T m) (l p i t x : ℕ) (table : T (suc l) p ≡ some t)
    (index : i < 512) (sets : Sets l (p * 512 + i) x T T') (al : x % 4096 ≡ 0)
    (bound : x + 4096 ≤ 2 ^ 52) where
  abbrev after : Mem
  after = m' T T' m tree l p i t x table index sets

  aligned_after : (l₁ q₁ t₁ : ℕ) → T' l₁ q₁ ≡ some t₁ → (t₁ % 4096 ≡ 0) × (t₁ + 4096 ≤ 2 ^ 52)
  aligned_after l₁ q₁ t₁ h = elim (place T T' m tree l p i t x table index sets l₁ q₁) [
    | inr other ↦ tree.aligned l₁ q₁ t₁ (sym (sets.elsewhere l₁ q₁ other) ∙ h)
    | inl here ↦
        subst (λ y. (y % 4096 ≡ 0) × (y + 4096 ≤ 2 ^ 52))
          (sym (at_place T T' m tree l p i t x table index sets l₁ q₁ t₁ here h)) (al, bound)
  ]

  -- The tables stay as they are: a frame is set, or an entry is written again.
  pub write-IsTree :
      ((l₁ p₁ : ℕ) → T' (suc l₁) p₁ ≡ T (suc l₁) p₁) → IsTree T' (write64 (t + i * 8) (x + 3) m)
  write-IsTree tables = record {
    valid = IsValid-after T T' m tree l p i t x table index sets;
    root =
        tables 3 0 ∙ tree.root ∙ ap some (sym (root_after T T' m tree l p i t x table index sets));
    aligned = aligned_after;
    mapped = λ l₁ p₁ t₁ h j lt.
        Mapped-after T T' m tree l p i t x table index sets _
          (tree.mapped l₁ p₁ t₁ (sym (tables l₁ p₁) ∙ h) j lt);
    distinct = λ l₁ p₁ l₂ p₂ t₁ h k.
        tree.distinct l₁ p₁ l₂ p₂ t₁ (sym (tables l₁ p₁) ∙ h) (sym (tables l₂ p₂) ∙ k);
    entries = λ l₁ p₁ j t₁ h lt.
        entries_after T T' m tree l p i t x table index sets l₁ p₁ j t₁ (sym (tables l₁ p₁) ∙ h) lt;
    orphans = λ l₁ p₁ j lt lj h.
        orphans_after T T' m tree l p i t x table index sets l₁ p₁ j lt lj (sym (tables l₁ p₁) ∙ h);
  }

-- An empty table `x` is added at a place where there was none.
module _ (T T' : Tree) (m : Mem) (tree : IsTree T m) (k p i t x : ℕ)
    (table : T (suc (suc k)) p ≡ some t) (index : i < 512)
    (sets : Sets (suc k) (p * 512 + i) x T T') (al : x % 4096 ≡ 0) (bound : x + 4096 ≤ 2 ^ 52)
    (upper : k < 4) (absent : T (suc k) (p * 512 + i) ≡ none)
    (fresh : (l q u : ℕ) → T (suc l) q ≡ some u → u ≢ x) (page : MappedRange m x 4096)
    (zeros : (j : ℕ) → j < 512 → Word m (x + j * 8) 0) where
  abbrev written : Mem
  written = m' T T' m tree (suc k) p i t x table index sets

  -- A table of the new tree is the new one, or an old one.
  split :
      (l q u : ℕ)
      → T' (suc l) q ≡ some u
      → ((l ≡ k) × (q ≡ p * 512 + i) × (u ≡ x)) ⊎ ((T (suc l) q ≡ some u) × (u ≢ x))
  split l q u h = elim (place T T' m tree (suc k) p i t x table index sets (suc l) q) [
    | inl here ↦ inl (
      omega arith,
      here.1,
      at_place T T' m tree (suc k) p i t x table index sets (suc l) q u here h,
    )
    | inr other ↦ let old = sym (sets.elsewhere (suc l) q other) ∙ h in inr (old, fresh l q u old)
  ]

  mapped_new : (l q u : ℕ) → T' (suc l) q ≡ some u → MappedRange written u 4096
  mapped_new l q u h j lt =
      Mapped-after T T' m tree (suc k) p i t x table index sets (u + j) (elim (split l q u h) [
        | inl (_, _, e) ↦ subst (λ y. Mapped m (y + j)) (sym e) (page j lt)
        | inr (old, _) ↦ tree.mapped l q u old j lt
      ])

  distinct_new :
      (l q l' q' u : ℕ) → T' (suc l) q ≡ some u → T' (suc l') q' ≡ some u → (l ≡ l') × (q ≡ q')
  distinct_new l q l' q' u h h' = elim (split l q u h) [
    | inl (el, eq, e) ↦ elim (split l' q' u h') [
      | inl (el', eq', _) ↦ (el ∙ sym el', eq ∙ sym eq')
      | inr (_, ne) ↦ absurd (ne e)
    ]
    | inr (old, ne) ↦ elim (split l' q' u h') [
      | inl (_, _, e) ↦ absurd (ne e)
      | inr (old', _) ↦ tree.distinct l q l' q' u old old'
    ]
  ]

  entries_new :
      (l q j u : ℕ)
      → T' (suc l) q ≡ some u
      → j < 512
      → Word written (u + j * 8) (entry_of (T' l (q * 512 + j)))
  entries_new l q j u h lt = elim (split l q u h) [
    | inr (old, _) ↦ entries_after T T' m tree (suc k) p i t x table index sets l q j u old lt
    | inl (el, eq, e) ↦
        let none_yet : T' l (q * 512 + j) ≡ none =
          sets.elsewhere l (q * 512 + j) (inl (omega arith))
          ∙ ap (λ a. T a (q * 512 + j)) el
          ∙ ap (λ a. T k (a * 512 + j)) eq
          ∙ tree.orphans k (p * 512 + i) j upper lt absent in
        let a = (tree.aligned (suc (suc k)) p t table).0 in
        let ne = fresh (suc k) p t table in
        subst (λ v. Word written (u + j * 8) (entry_of v)) (sym none_yet)
          (subst (λ y. Word written (y + j * 8) 0) (sym e)
            (write64-Word_other m (t + i * 8) (x + 3) tree.valid
              (slot_mapped T T' m tree (suc k) p i t x table index sets) (x + j * 8) 0 (omega arith)
              (zeros j lt)))
  ]

  orphans_new : (l q j : ℕ) → l < 4 → j < 512 → T' (suc l) q ≡ none → T' l (q * 512 + j) ≡ none
  orphans_new l q j lt lj h =
      orphans_after T T' m tree (suc k) p i t x table index sets l q j lt lj
        (elim (place T T' m tree (suc k) p i t x table index sets (suc l) q) [
          | inr other ↦ sym (sets.elsewhere (suc l) q other) ∙ h
          | inl (el, eq) ↦ ap (λ a. T a q) el ∙ ap (T (suc k)) eq ∙ absent
        ])

  root_new : T' 4 0 ≡ some written.pml4_gpa
  root_new =
      let moved = root_after T T' m tree (suc k) p i t x table index sets in
      elim (place T T' m tree (suc k) p i t x table index sets 4 0) [
        | inr other ↦ sets.elsewhere 4 0 other ∙ tree.root ∙ ap some (sym moved)
        | inl (el, eq) ↦
            let gone : some m.pml4_gpa ≡ none =
              sym tree.root ∙ ap (λ a. T a 0) el ∙ ap (T (suc k)) eq ∙ absent in
            cc
      ]

  pub write-IsTree_new : IsTree T' (write64 (t + i * 8) (x + 3) m)
  write-IsTree_new = record {
    valid = IsValid-after T T' m tree (suc k) p i t x table index sets;
    root = root_new;
    aligned = aligned_after T T' m tree (suc k) p i t x table index sets al bound;
    mapped = mapped_new;
    distinct = distinct_new;
    entries = entries_new;
    orphans = orphans_new;
  }
