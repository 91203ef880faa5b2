-- ===== src/Mem/Paging/Page.antt =====
-- `map_gva` maps its pages one after the other: `map_page` sets one frame and leaves the others.
use masters_proj.Prelude.{
  ℕ, suc, ◌+◌, ◌*◌, ◌%◌, ◌/◌, ◌^◌, ◌≤◌, ◌<◌, ◌≡◌, ◌≢◌, inl, inr, arith, sym, ◌∙◌, subst, some,
  bit_and, u64,
}
use masters_proj.Prelude.Bits.{page_mask}
use masters_proj.Mem.State.{Mem, Host}
use masters_proj.Mem.Access.{write64}
use masters_proj.Mem.Access.Alloc.{Honest, Willing, Below}
use masters_proj.Mem.Access.View.{Mapped}
use masters_proj.Mem.Access.Word.{write64-regions, Mapped-write64, write64-pml4}
use masters_proj.Mem.Paging.{Locals, decode_gva, next_table, map_page, present}
use masters_proj.Mem.Paging.Decode.{page_number, decode_gva_lem, present-eq}
use masters_proj.Mem.Paging.Tree.{Tree, IsTree, Sets, Spares, Spares-trans, view-write_entry}
use masters_proj.Mem.Paging.Entry.{write-IsTree}
use masters_proj.Mem.Paging.Level.{Step, next_table-Step, set_tree, set_tree-Sets}

-- What mapping the page `n` to the frame `f` gives.
pub record PageStep (T : Tree) (top n f : ℕ) (m m' : Mem) : Type 0 where
  pub T' : Tree
  pub tree : IsTree T' m'
  pub at : T' 0 n ≡ some f
  pub elsewhere : (q : ℕ) → q ≢ n → T' 0 q ≡ T 0 q
  pub below : Below top m'.regions
  pub kept : (a : ℕ) → Mapped m a → Mapped m' a
  pub pml4 : (m'.pml4 ≡ m.pml4) × (m'.pml4_gpa ≡ m.pml4_gpa)
  pub spares : Spares T T' m m'

-- A step down, and then the rest.
Step-PageStep :
    {T : Tree} {top top' l q n f : ℕ} {m m' : Mem} {res : ℕ × Mem} (s : Step T top l q m res)
    → PageStep s.T' top' n f res.1 m'
    → PageStep T top' n f m m'
Step-PageStep s rest = record {
  T' = rest.T';
  tree = rest.tree;
  at = rest.at;
  elsewhere = λ q ne. rest.elsewhere q ne ∙ s.extends.frames q;
  below = rest.below;
  kept = λ a h. rest.kept a (s.kept a h);
  pml4 = (rest.pml4.0 ∙ s.pml4.0, rest.pml4.1 ∙ s.pml4.1);
  spares = Spares-trans s.kept s.spares rest.spares;
}

module _ (host : Host) (locals : Locals) (honest : Honest host) (willing : Willing host) where
  -- A step down from the table of `p` to the place `q` below it.
  Step-at :
      (T : Tree) (m : Mem) (top k p q t idx : ℕ)
      → IsTree T m
      → Below top m.regions
      → top + 4096 ≤ 2 ^ 52
      → k < 4
      → T (suc (suc k)) p ≡ some t
      → q / 512 ≡ p
      → idx ≡ q % 512 * 8
      → Step T top (suc k) q m (next_table host locals (u64 (t + idx)) m)
  Step-at T m top k p q t idx tree below space upper table e₁ e₂ =
      let (al, bd) = tree.aligned (suc (suc k)) p t table in
      let slot : u64 (t + idx) ≡ t + q % 512 * 8 = omega arith in
      let place : p * 512 + q % 512 ≡ q = omega arith in
      rw slot (
        subst (λ a. Step T top (suc k) a m (next_table host locals (t + q % 512 * 8) m)) place
          (next_table-Step host locals honest willing T m tree top below space k p (q % 512) t table
            (omega arith) upper))

  -- The write of the last entry.
  leaf :
      (T : Tree) (m : Mem) (top n t idx gpa : ℕ)
      → IsTree T m
      → Below top m.regions
      → T 1 (n / 512) ≡ some t
      → idx ≡ n % 512 * 8
      → gpa < 2 ^ 64
      → gpa / 4096 * 4096 + 4096 ≤ 2 ^ 52
      → PageStep T top n
          (gpa / 4096 * 4096)
          m
          (write64 (u64 (t + idx)) (present (bit_and gpa 0xFFFFFFFFFFFFF000)) m)
  leaf T m top n t idx gpa tree below table e lt bound =
      let f = gpa / 4096 * 4096 in
      let (al, bd) = tree.aligned 1 (n / 512) t table in
      let slot : u64 (t + idx) ≡ t + n % 512 * 8 = omega arith in
      let place : n / 512 * 512 + n % 512 ≡ n = omega arith in
      let sets = set_tree-Sets T 0 n f in
      rw (slot, page_mask gpa lt, present-eq f (omega arith))
        (record {
          T' = set_tree T 0 n f;
          tree =
              write-IsTree T (set_tree T 0 n f) m tree 0 (n / 512) (n % 512) t f table (omega arith)
                (subst (λ a. Sets 0 a f T (set_tree T 0 n f)) (sym place) sets) (omega arith) bound
                (λ l p. sets.elsewhere (suc l) p (inl (omega arith)));
          at = sets.at;
          elsewhere = λ q ne. sets.elsewhere 0 q (inr ne);
          below = rw (write64-regions m (t + n % 512 * 8) (f + 3) tree.valid) below;
          kept = λ a. Mapped-write64 m (t + n % 512 * 8) (f + 3) tree.valid a;
          pml4 = write64-pml4 m (t + n % 512 * 8) (f + 3) tree.valid;
          spares = record {
            on = λ a ma out. (
              λ l p u h. out l p u (sym (sets.elsewhere (suc l) p (inl (omega arith))) ∙ h),
              view-write_entry T m 0 (n / 512) (n % 512) t (f + 3) a tree table (omega arith) out,
            );
          };
        })

  -- In a state with well-formed page tables, and with a host that grants every request, with
  -- zeroed blocks that share no memory, the body of the loop of `map_gva` gives the page of `gva`
  -- the frame of `gpa`, leaves all other pages and the root table as they are, and uses up three
  -- pages of guest memory at most. The frame and the regions with the new tables must lie below 2
  -- ^ 52.
  pub map_page-PageStep :
      (T : Tree) (m : Mem) (top gva gpa : ℕ)
      → IsTree T m
      → Below top m.regions
      → top + 3 * 4096 ≤ 2 ^ 52
      → gpa < 2 ^ 64
      → gpa / 4096 * 4096 + 4096 ≤ 2 ^ 52
      → PageStep T
          (top + 3 * 4096)
          (page_number gva)
          (gpa / 4096 * 4096)
          m
          (map_page host locals gva gpa m)
  unfolding map_page
  map_page-PageStep T m top gva gpa tree below space lt bound =
      let n = page_number gva in
      let (i4, i3, i2, i1, off) = decode_gva_lem gva in
      let s₃ =
        Step-at T m top 2 0 (n / 512 / 512 / 512) m.pml4_gpa (decode_gva gva).pml4_idx tree below
          (omega arith) (omega arith) tree.root (omega arith) (omega arith) in
      let s₂ =
        Step-at s₃.T' _ (top + 4096) 1 (n / 512 / 512 / 512) (n / 512 / 512) _
          (decode_gva gva).pdpt_idx s₃.tree s₃.below (omega arith) (omega arith) s₃.at (omega arith)
          (omega arith) in
      let s₁ =
        Step-at s₂.T' _ (top + 4096 + 4096) 0 (n / 512 / 512) (n / 512) _ (decode_gva gva).pd_idx
          s₂.tree s₂.below (omega arith) (omega arith) s₂.at (omega arith) (omega arith) in
      let s₀ =
        leaf s₁.T' _ (top + 4096 + 4096 + 4096) n _ (decode_gva gva).pt_idx gpa s₁.tree s₁.below
          s₁.at (omega arith) lt bound in
      let m' = map_page host locals gva gpa m in
      subst (λ a. PageStep T a n (gpa / 4096 * 4096) m m') (omega arith)
        (Step-PageStep s₃ (Step-PageStep s₂ (Step-PageStep s₁ s₀)))
