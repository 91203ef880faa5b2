-- ===== src/Main/Low.antt =====
-- The low 64 KB of the guest, which `vm_mem_init` maps and all of `main` but the page tables and the
-- application lies in, and writes that stay inside it.
use masters_proj.Prelude.{
  ℕ, suc, ◌+◌, ◌*◌, ◌≤◌, ◌<◌, ◌≡◌, ◌≢◌, refl, List, length, arith, sym, ◌∙◌, some, ap,
}
use native.Mathlib.Decide.{dec_lt}
use masters_proj.Prelude.Bytes.{le_bytes, length-le_bytes}
use masters_proj.Mem.State.{Mem}
use masters_proj.Mem.Gpa.Layout.{IsValid}
use masters_proj.Mem.Access.{vm_mem_write, write64}
use masters_proj.Mem.Access.Grant.{same-hva}
use masters_proj.Mem.Access.View.{view, Mapped, vm_mem_write-Written}
use masters_proj.Mem.Access.Word.{MappedRange, Holds-same}
use masters_proj.Mem.Paging.Tree.{Tree, IsTree, IsOutside, entry_of}
use masters_proj.Cpu.State.{Hypervisor}
use masters_proj.Cpu.Setup.{write_words, vcpu_setup_ia32}

-- Guest memory with its page tables above the low pages, which are mapped.
pub record IsLow (T : Tree) (m : Mem) : Type 0 where
  pub tree : IsTree T m
  pub root : m.pml4 ≢ 0
  pub mapped : (a : ℕ) → a < 0x10000 → Mapped m a
  pub outside : (a : ℕ) → a < 0x10000 → IsOutside T a

-- A change in the low pages alone.
pub record LowChange (m m' : Mem) : Type 0 where
  pub regions : m'.regions ≡ m.regions
  pub pml4 : (m'.pml4 ≡ m.pml4) × (m'.pml4_gpa ≡ m.pml4_gpa)
  pub high : (a : ℕ) → 0x10000 ≤ a → view m' a ≡ view m a

pub LowChange-refl : (m : Mem) → LowChange m m
LowChange-refl m = record { regions = refl; pml4 = (refl, refl); high = λ a h. refl }

pub LowChange-trans : {m m' m'' : Mem} → LowChange m m' → LowChange m' m'' → LowChange m m''
LowChange-trans c d = record {
  regions = d.regions ∙ c.regions;
  pml4 = (d.pml4.0 ∙ c.pml4.0, d.pml4.1 ∙ c.pml4.1);
  high = λ a h. d.high a h ∙ c.high a h;
}

pub Mapped-same : (m m' : Mem) (a : ℕ) → m'.regions ≡ m.regions → Mapped m a → Mapped m' a
Mapped-same m m' a e h z = h (sym (same-hva m m' a e) ∙ z)

-- An address in a table is above the low pages.
table_high :
    (T : Tree) (l p t c : ℕ)
    → ((a : ℕ) → a < 0x10000 → IsOutside T a)
    → T (suc l) p ≡ some t
    → t ≤ c
    → c < t + 4096
    → 0x10000 ≤ c
table_high T l p t c outside e lo hi = elim (dec_lt c 0x10000) [
  | yes lt ↦ absurd (omega (arith, outside c lt l p t e))
  | no ge ↦ omega arith
]

pub LowChange-IsLow : (T : Tree) (m m' : Mem) → LowChange m m' → IsLow T m → IsLow T m'
LowChange-IsLow T m m' c low = record {
  tree = record {
    valid = rw c.regions low.tree.valid;
    root = low.tree.root ∙ ap some (sym c.pml4.1);
    aligned = low.tree.aligned;
    mapped = λ l p t e i lt. Mapped-same m m' (t + i) c.regions (low.tree.mapped l p t e i lt);
    distinct = low.tree.distinct;
    entries = λ l p i t e lt.
        Holds-same m m' (t + i * 8) (le_bytes 8 (entry_of (T l (p * 512 + i))))
          (λ a ma lo hi. c.high a (table_high T l p t a low.outside e (omega arith) (omega arith)))
          (low.tree.entries l p i t e lt);
    orphans = low.tree.orphans;
  };
  root = λ z. low.root (sym c.pml4.0 ∙ z);
  mapped = λ a lt. Mapped-same m m' a c.regions (low.mapped a lt);
  outside = low.outside;
}

pub MappedRange-low :
    (T : Tree) (m : Mem) (a n : ℕ) → IsLow T m → a + n ≤ 0x10000 → MappedRange m a n
MappedRange-low T m a n low le i lt = low.mapped (a + i) (omega arith)

-- A write into the low pages.
pub vm_mem_write-LowChange :
    (a : ℕ) (bs : List ℕ) (m : Mem)
    → IsValid m.regions
    → a + length bs ≤ 0x10000
    → LowChange m (vm_mem_write a bs m).1
vm_mem_write-LowChange a bs m valid le =
    let w = vm_mem_write-Written a bs m valid in
    record {
      regions = w.regions;
      pml4 = (w.pml4, w.pml4_gpa);
      high = λ c h. w.outside c (omega (arith, w.count));
    }

pub write64-LowChange :
    (a v : ℕ) (m : Mem) → IsValid m.regions → a + 8 ≤ 0x10000 → LowChange m (write64 a v m)
unfolding write64
write64-LowChange a v m valid le =
    vm_mem_write-LowChange a (le_bytes 8 v) m valid (omega (arith, length-le_bytes 8 v))

pub vcpu_setup_ia32-LowChange :
    (hv : Hypervisor) (c : hv.Vcpu) (m : Mem)
    → IsValid m.regions
    → LowChange m (vcpu_setup_ia32 hv c m).2
unfolding vcpu_setup_ia32 write_words
vcpu_setup_ia32-LowChange hv c m valid =
    let c₁ = write64-LowChange 0 0 m valid (omega arith) in
    let m₁ = write64 0 0 m in
    let c₂ = write64-LowChange 8 0 m₁ (rw c₁.regions valid) (omega arith) in
    let d₂ = LowChange-trans c₁ c₂ in
    let m₂ = write64 8 0 m₁ in
    let c₃ = write64-LowChange 16 0x00cf9a000000ffff m₂ (rw d₂.regions valid) (omega arith) in
    let d₃ = LowChange-trans d₂ c₃ in
    let m₃ = write64 16 0x00cf9a000000ffff m₂ in
    let c₄ = write64-LowChange 24 0x00cf92000000ffff m₃ (rw d₃.regions valid) (omega arith) in
    let d₄ = LowChange-trans d₃ c₄ in
    let m₄ = write64 24 0x00cf92000000ffff m₃ in
    LowChange-trans d₄ (
      vm_mem_write-LowChange 0x6ffc (le_bytes 4 m₄.pml4_gpa) m₄ (rw d₄.regions valid) (omega arith))
