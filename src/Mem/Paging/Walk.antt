-- ===== src/Mem/Paging/Walk.antt =====
-- `gva_to_gpa` follows the tree.
use masters_proj.Prelude.{
  ℕ, suc, ◌+◌, ◌*◌, ◌%◌, ◌/◌, ◌<◌, ◌≡◌, inl, inr, arith, sym, ◌∙◌, subst, ap, some, none,
  Option-cases, bit_and, u64,
}
use masters_proj.Mem.State.{Mem}
use masters_proj.Mem.Access.{read64}
use masters_proj.Mem.Access.Word.{Word, read64-Word}
use masters_proj.Mem.Paging.{Locals, gva_to_gpa, decode_gva}
use masters_proj.Mem.Paging.Decode.{page_number, decode_gva_lem, entry_frame, frame_offset}
use masters_proj.Mem.Paging.Tree.{Tree, entry_of, IsTree}

-- Above what is there, all is there.
pub parent :
    (T : Tree) (m : Mem) (l n x : ℕ)
    → IsTree T m
    → l < 4
    → T l n ≡ some x
    → (t : ℕ) × (T (suc l) (n / 512) ≡ some t)
parent T m l n x tree lt h = elim (Option-cases (T (suc l) (n / 512))) [
  | inr found ↦ found
  | inl gone ↦
      let split : n / 512 * 512 + n % 512 ≡ n = omega arith in
      let none_here : T l n ≡ none =
        sym (ap (T l) split) ∙ tree.orphans l (n / 512) (n % 512) lt (omega arith) gone in
      let clash : some x ≡ none = sym h ∙ none_here in cc
]

-- The entry of the table at `t` that leads on to `x`.
pub follow :
    (T : Tree) (m : Mem) (l n t x old : ℕ)
    → IsTree T m
    → T (suc l) (n / 512) ≡ some t
    → T l n ≡ some x
    → bit_and (read64 m (t + n % 512 * 8) old) 0xFFFFFFFFFF000 ≡ x
follow T m l n t x old tree table h =
    let (al, bd) = tree.aligned l n x h in
    let split : n / 512 * 512 + n % 512 ≡ n = omega arith in
    let word : Word m (t + n % 512 * 8) (x + 3) =
      subst (λ v. Word m (t + n % 512 * 8) (entry_of v)) (ap (T l) split ∙ h)
        (tree.entries l (n / 512) (n % 512) t table (omega arith)) in
    rw (read64-Word m (t + n % 512 * 8) (x + 3) old tree.valid (omega arith) word)
      (entry_frame x al (omega arith))

-- The same at the slot that the code computes.
follow_at :
    (T : Tree) (m : Mem) (l n t x old idx : ℕ)
    → IsTree T m
    → T (suc l) (n / 512) ≡ some t
    → T l n ≡ some x
    → idx ≡ n % 512 * 8
    → bit_and (read64 m (u64 (t + idx)) old) 0xFFFFFFFFFF000 ≡ x
follow_at T m l n t x old idx tree table h e =
    let (al, bd) = tree.aligned (suc l) (n / 512) t table in
    let slot : u64 (t + idx) ≡ t + n % 512 * 8 = omega arith in
    rw slot (follow T m l n t x old tree table h)

-- In a state that holds the page tables of a tree, `gva_to_gpa` translates an address whose page
-- has a frame in the tree to its place in that frame, whatever the local `entry` holds at first.
pub gva_to_gpa-IsTree :
    (locals : Locals) (T : Tree) (m : Mem) (gva f : ℕ)
    → IsTree T m
    → T 0 (page_number gva) ≡ some f
    → gva_to_gpa locals m gva ≡ f + gva % 4096
unfolding gva_to_gpa
gva_to_gpa-IsTree locals T m gva f tree h =
    let n = page_number gva in
    let (i4, i3, i2, i1, off) = decode_gva_lem gva in
    let (t₁, h₁) = parent T m 0 n f tree (omega arith) h in
    let (t₂, h₂) = parent T m 1 (n / 512) t₁ tree (omega arith) h₁ in
    let (t₃, h₃) = parent T m 2 (n / 512 / 512) t₂ tree (omega arith) h₂ in
    let h₄ : T 4 (n / 512 / 512 / 512 / 512) ≡ some m.pml4_gpa =
      ap (T 4) (omega arith) ∙ tree.root in
    let at₃ = λ (old : ℕ).
      follow_at T m 3 (n / 512 / 512 / 512) m.pml4_gpa t₃ old (decode_gva gva).pml4_idx tree h₄ h₃
        (omega arith) in
    let at₂ = λ (old : ℕ).
      follow_at T m 2 (n / 512 / 512) t₃ t₂ old (decode_gva gva).pdpt_idx tree h₃ h₂
        (omega arith) in
    let at₁ = λ (old : ℕ).
      follow_at T m 1 (n / 512) t₂ t₁ old (decode_gva gva).pd_idx tree h₂ h₁ (omega arith) in
    let at₀ =
      λ (old : ℕ). follow_at T m 0 n t₁ f old (decode_gva gva).pt_idx tree h₁ h (omega arith) in
    rw (at₃ _, at₂ _, at₁ _, at₀ _, off)
      (frame_offset f (gva % 4096) (tree.aligned 0 n f h).0 (omega arith))
