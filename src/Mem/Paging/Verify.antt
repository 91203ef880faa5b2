-- ===== src/Mem/Paging/Verify.antt =====
-- `vm_mem_verify`, and what `gva_to_gpa` does with an address that has no page table entry.
use masters_proj.Prelude.{
  ℕ, zero, suc, ◌+◌, ◌*◌, ◌%◌, ◌/◌, ◌^◌, ◌<◌, ◌≡◌, refl, ◌↔◌, arith, sym, ◌∙◌, subst, ap, none, u64,
  ne→==-false,
}
use native.Mathlib.Decide.{ℕ_discrete}
use masters_proj.Prelude.Bits.{zero-bit_or}
use masters_proj.Mem.Gpa.Layout.{IsValid}
use masters_proj.Mem.State.{Mem, success, failure}
use masters_proj.Mem.Gpa.{gpa_to_hva}
use masters_proj.Mem.Access.{read64}
use masters_proj.Mem.Access.View.{Mapped}
use masters_proj.Mem.Access.Word.{Word, read64-Word}
use masters_proj.Mem.Paging.{Locals, gva_to_gpa, vm_mem_verify, decode_gva}
use masters_proj.Mem.Paging.Decode.{page_number, decode_gva_lem}
use masters_proj.Mem.Paging.Tree.{Tree, entry_of, IsTree}

-- The address `i` bytes on is translated to one that is mapped.
abbrev pub Reachable : Locals → Mem → (gva i : ℕ) → Type 0
Reachable locals m gva i = Mapped m (gva_to_gpa locals m (u64 (gva + i)))

-- The rest of a range.
Reachable-suc :
    (locals : Locals) (m : Mem) (gva i : ℕ)
    → gva < 2 ^ 64
    → Reachable locals m (u64 (gva + 1)) i ↔ Reachable locals m gva (suc i)
Reachable-suc locals m gva i lt =
    let e : u64 (u64 (gva + 1) + i) ≡ u64 (gva + suc i) = omega arith in
    (
      subst (λ a. Mapped m (gva_to_gpa locals m a)) e,
      subst (λ a. Mapped m (gva_to_gpa locals m a)) (sym e),
    )

Reachable-zero :
    (locals : Locals) (m : Mem) (gva : ℕ)
    → gva < 2 ^ 64
    → Reachable locals m gva 0 ↔ Mapped m (gva_to_gpa locals m gva)
Reachable-zero locals m gva lt =
    let e : u64 (gva + 0) ≡ gva = omega arith in
    (
      subst (λ a. Mapped m (gva_to_gpa locals m a)) e,
      subst (λ a. Mapped m (gva_to_gpa locals m a)) (sym e),
    )

Reachable-join :
    (locals : Locals) (m : Mem) (gva n : ℕ)
    → gva < 2 ^ 64
    → Mapped m (gva_to_gpa locals m gva)
    → ((i : ℕ) → i < n → Reachable locals m (u64 (gva + 1)) i)
    → (i : ℕ) → i < suc n
    → Reachable locals m gva i
Reachable-join locals m gva n lt h all zero l = (Reachable-zero locals m gva lt).1 h
Reachable-join locals m gva n lt h all (suc i) l =
    (Reachable-suc locals m gva i lt).0 (all i (omega arith))

-- For a 64-bit address, `vm_mem_verify` returns 0 exactly if every address of the range is
-- translated to a guest physical address that a region backs.
pub vm_mem_verify_iff :
    (locals : Locals) (m : Mem) (gva n : ℕ)
    → gva < 2 ^ 64
    → (vm_mem_verify locals m gva n ≡ success) ↔ ((i : ℕ) → i < n → Reachable locals m gva i)
unfolding vm_mem_verify
vm_mem_verify_iff locals m gva zero lt = (λ _ i h. absurd (omega arith), λ _. refl)
vm_mem_verify_iff locals m gva (suc n) lt =
    let rest = vm_mem_verify_iff locals m (u64 (gva + 1)) n (omega arith) in
    elim (ℕ_discrete (gpa_to_hva m (gva_to_gpa locals m gva)) 0) [
      | yes null ↦ (
        λ e. let clash : failure ≡ success = rw null at e in cc,
        λ all. absurd ((Reachable-zero locals m gva lt).0 (all 0 (omega arith)) null),
      )
      | no found ↦ (
        λ e. Reachable-join locals m gva n lt found (rest.0 (rw (ne→==-false _ 0 found) at e)),
        λ all.
            rw (ne→==-false _ 0 found)
              (rest.1 λ i l. (Reachable-suc locals m gva i lt).1 (all (suc i) (omega arith))),
      )
    ]

-- An entry of zero leads to page zero.
zero_entry :
    (locals : Locals) (T : Tree) (m : Mem) (gva : ℕ)
    → IsTree T m
    → T 3 (page_number gva / 2 ^ 27) ≡ none
    → (old : ℕ) → read64 m (u64 (m.pml4_gpa + (decode_gva gva).pml4_idx)) old ≡ 0
zero_entry locals T m gva tree gone old =
    let n = page_number gva in
    let i4 = (decode_gva_lem gva).0 in
    let (al, bd) = tree.aligned 4 0 m.pml4_gpa tree.root in
    let slot : u64 (m.pml4_gpa + (decode_gva gva).pml4_idx) ≡ m.pml4_gpa + n / 2 ^ 27 * 8 =
      omega arith in
    let place : 0 * 512 + n / 2 ^ 27 ≡ n / 2 ^ 27 = omega arith in
    rw slot (
      read64-Word m _ 0 old tree.valid (omega arith) (
        subst (λ v. Word m (m.pml4_gpa + n / 2 ^ 27 * 8) (entry_of v)) (ap (T 3) place ∙ gone)
          (tree.entries 3 0 (n / 2 ^ 27) m.pml4_gpa tree.root (omega arith))))

-- The walk over four empty entries.
empty_walk :
    (locals : Locals) (m : Mem) (gva : ℕ)
    → IsValid m.regions
    → ((old : ℕ) → read64 m (u64 (m.pml4_gpa + (decode_gva gva).pml4_idx)) old ≡ 0)
    → Word m (decode_gva gva).pdpt_idx 0
    → Word m (decode_gva gva).pd_idx 0
    → Word m (decode_gva gva).pt_idx 0
    → gva_to_gpa locals m gva ≡ gva % 4096
unfolding gva_to_gpa
empty_walk locals m gva valid w₄ w₃ w₂ w₁ =
    let (i4, i3, i2, i1, off) = decode_gva_lem gva in
    let s₃ : u64 (0 + (decode_gva gva).pdpt_idx) ≡ (decode_gva gva).pdpt_idx = omega arith in
    let s₂ : u64 (0 + (decode_gva gva).pd_idx) ≡ (decode_gva gva).pd_idx = omega arith in
    let s₁ : u64 (0 + (decode_gva gva).pt_idx) ≡ (decode_gva gva).pt_idx = omega arith in
    let r₃ = read64-Word m (decode_gva gva).pdpt_idx 0 0 valid (omega arith) w₃ in
    let r₂ = read64-Word m (decode_gva gva).pd_idx 0 0 valid (omega arith) w₂ in
    let r₁ = read64-Word m (decode_gva gva).pt_idx 0 0 valid (omega arith) w₁ in
    rw (w₄ locals.entry, s₃, r₃, s₂, r₂, s₁, r₁, off) (zero-bit_or (gva % 4096))

-- `gva_to_gpa` does not look at the PRESENT bit. In a state with well-formed page tables, an
-- address whose entry in the root table is empty is looked up in page zero instead; if the three
-- entries that are met there are zero too, the result is the address's offset in page zero, and
-- `vm_mem_verify` accepts the address if that is mapped, although no page table maps it.
pub gva_to_gpa-unmapped :
    (locals : Locals) (T : Tree) (m : Mem) (gva : ℕ)
    → IsTree T m
    → gva < 2 ^ 64
    → T 3 (page_number gva / 2 ^ 27) ≡ none
    → Word m (decode_gva gva).pdpt_idx 0
    → Word m (decode_gva gva).pd_idx 0
    → Word m (decode_gva gva).pt_idx 0
    → Mapped m (gva % 4096)
    → (gva_to_gpa locals m gva ≡ gva % 4096) × (vm_mem_verify locals m gva 1 ≡ success)
gva_to_gpa-unmapped locals T m gva tree lt gone w₃ w₂ w₁ h =
    let e = empty_walk locals m gva tree.valid (zero_entry locals T m gva tree gone) w₃ w₂ w₁ in
    let reach : Mapped m (gva_to_gpa locals m gva) = subst (Mapped m) (sym e) h in
    (
      e,
      (vm_mem_verify_iff locals m gva 1 lt).1
          (Reachable-join locals m gva 0 lt reach (λ i l. absurd (omega arith))),
    )
