-- ===== src/Main/Boot.antt =====
-- What the low pages hold while `main` prepares the guest: words, the stack, the application.
use masters_proj.Prelude.{
  ℕ, ◌+◌, ◌*◌, ◌≤◌, ◌<◌, ◌≡◌, ◌⊎◌, List, length, arith, sym, ◌∙◌, subst, some, ap, sub64,
}
use masters_proj.Prelude.Bytes.{le_bytes, length-le_bytes}
use masters_proj.Mem.State.{Mem, Status}
use masters_proj.Mem.Access.{vm_mem_write}
use masters_proj.Mem.Access.View.{view, Holds}
use masters_proj.Mem.Access.Word.{MappedRange, Word, Holds-same, vm_mem_write-full}
use masters_proj.Mem.Paging.Tree.{Tree}
use masters_proj.Cpu.State.{Works, Hypervisor, rip, rsp, rreg}
use masters_proj.Cpu.Run.{push, push64}
use masters_proj.Cpu.Run.Push.{push-Pushed, pushed-full}
use masters_proj.Loader.{num_pages_of}
use masters_proj.Main.Low.{
  LowChange-trans, IsLow, LowChange, LowChange-IsLow, MappedRange-low, vm_mem_write-LowChange,
}

-- A stretch of guest memory looks the same.
abbrev pub Keeps : (lo hi : ℕ) → Mem → Mem → Type 0
Keeps lo hi m m' = (c : ℕ) → lo ≤ c → c < hi → view m' c ≡ view m c

pub Holds-kept :
    (m m' : Mem) (a lo hi : ℕ) (bs : List ℕ)
    → Keeps lo hi m m'
    → lo ≤ a
    → a + length bs ≤ hi
    → Holds m a bs
    → Holds m' a bs
Holds-kept m m' a lo hi bs k le le' =
    Holds-same m m' a bs (λ c mc l h. k c (omega arith) (omega arith))

-- The CPU and the low pages, as the kernel relies on them.
pub record Booting (hv : Hypervisor) (T : Tree) (c : hv.Vcpu) (m : Mem) : Type 0 where
  pub low : IsLow T m
  pub frames : (q : ℕ) → q < 16 → T 0 q ≡ some (q * 4096)
  pub at_rip : rreg hv c rip ≡ 0x8000
  pub root : Holds m 0x6ffc (le_bytes 4 m.pml4_gpa)

-- A change of low memory that keeps the word for the root.
pub Booting-low :
    {hv : Hypervisor} {T : Tree} {c : hv.Vcpu} {m : Mem} (c' : hv.Vcpu) (m' : Mem)
    → Booting hv T c m
    → LowChange m m'
    → Keeps 0x6ffc 0x7000 m m'
    → rreg hv c' rip ≡ rreg hv c rip
    → Booting hv T c' m'
Booting-low {hv} {T} {m} c' m' b change keeps same = record {
  low = LowChange-IsLow T m m' change b.low;
  frames = b.frames;
  at_rip = same ∙ b.at_rip;
  root =
      subst (λ g. Holds m' 0x6ffc (le_bytes 4 g)) (sym change.pml4.1)
        (Holds-kept m m' 0x6ffc 0x6ffc 0x7000 (le_bytes 4 m.pml4_gpa) keeps (omega arith)
          (omega arith) b.root);
}

-- The application behind the page tables.
pub record AppAt (size : ℕ) (contents : ℕ → ℕ) (T : Tree) (m : Mem) : Type 0 where
  pub at : (j : ℕ) → j < num_pages_of size → T 0 (0x100000 + j) ≡ some (0x100000000 + j * 4096)
  pub bytes : (i : ℕ) → i < size → view m (0x100000000 + i) ≡ some (contents i)

pub AppAt-low :
    {size : ℕ} {contents : ℕ → ℕ} {T : Tree} (m m' : Mem)
    → LowChange m m'
    → AppAt size contents T m
    → AppAt size contents T m'
AppAt-low m m' change a = record {
  at = a.at;
  bytes = λ i lt. change.high (0x100000000 + i) (omega arith) ∙ a.bytes i lt;
}

-- One push in the low pages, with the stack pointer `sp` after it.
pub record LowPush (hv : Hypervisor) (v sp : ℕ) (c : hv.Vcpu) (m : Mem) (r : Status × hv.Vcpu × Mem)
    : Type 0 where
  pub at_rsp : rreg hv r.1 rsp ≡ sp
  pub same_rip : rreg hv r.1 rip ≡ rreg hv c rip
  pub word : Word r.2 sp v
  pub outside : (a : ℕ) → (a < sp) ⊎ (sp + 8 ≤ a) → view r.2 a ≡ view m a
  pub change : LowChange m r.2

pub push64-LowPush :
    (hv : Hypervisor) (works : Works hv) (T : Tree) (v sp : ℕ) (c : hv.Vcpu) (m : Mem)
    → IsLow T m
    → rreg hv c rsp ≡ sp + 8
    → sp + 8 ≤ 0x10000
    → LowPush hv v sp c m (push64 hv v c m)
unfolding push64
push64-LowPush hv works T v sp c m low e le =
    let bs = le_bytes 8 v in
    let valid = low.tree.valid in
    let n : length bs ≡ 8 = length-le_bytes 8 v in
    let to : sub64 (rreg hv c rsp) (length bs) ≡ sp = rw e (omega arith) in
    let range : MappedRange m (sub64 (rreg hv c rsp) (length bs)) (length bs) =
      rw to (MappedRange-low T m sp (length bs) low (omega arith)) in
    let whole = (vm_mem_write-full (sub64 (rreg hv c rsp) (length bs)) bs m valid range).0 in
    let full = pushed-full hv works bs c m valid whole in
    let p = push-Pushed hv works bs c m valid in
    let (at, holds) = p.done (ap (λ r. r.0) full) in
    record {
      at_rsp = at ∙ to;
      same_rip = p.regs rip λ z. cc;
      word = subst (λ a. Holds (push hv bs c m).2 a bs) to holds;
      outside = λ a o. p.outside a (rw to o);
      change =
          subst (λ x. LowChange m x)
            (ap (λ a. (vm_mem_write a bs m).1) (sym to) ∙ sym (ap (λ r. r.2) full))
            (vm_mem_write-LowChange sp bs m valid (omega arith));
    }

-- Three values on a stack whose top is 0x6ffc.
pub record ThreePushes (hv : Hypervisor) (v₂ v₃ : ℕ) (c : hv.Vcpu) (m : Mem) (c' : hv.Vcpu)
    (m' : Mem) : Type 0 where
  pub at_rsp : rreg hv c' rsp ≡ 0x6fe4
  pub same_rip : rreg hv c' rip ≡ rreg hv c rip
  pub first : Word m' 0x6ff4 0x7100
  pub second : Word m' 0x6fec v₂
  pub third : Word m' 0x6fe4 v₃
  pub above : Keeps 0x6ffc 0x10000 m m'
  pub change : LowChange m m'

pub three_pushes :
    (hv : Hypervisor) (works : Works hv) (T : Tree) (v₂ v₃ : ℕ) (c : hv.Vcpu) (m : Mem)
    → IsLow T m
    → rreg hv c rsp ≡ 0x6ffc
    → let r₁ = push64 hv 0x7100 c m in
      let r₂ = push64 hv v₂ r₁.1 r₁.2 in
      let r₃ = push64 hv v₃ r₂.1 r₂.2 in ThreePushes hv v₂ v₃ c m r₃.1 r₃.2
three_pushes hv works T v₂ v₃ c m low top =
    let p₁ = push64-LowPush hv works T 0x7100 0x6ff4 c m low top (omega arith) in
    let r₁ = push64 hv 0x7100 c m in
    let low₁ = LowChange-IsLow T m r₁.2 p₁.change low in
    let p₂ = push64-LowPush hv works T v₂ 0x6fec r₁.1 r₁.2 low₁ p₁.at_rsp (omega arith) in
    let r₂ = push64 hv v₂ r₁.1 r₁.2 in
    let low₂ = LowChange-IsLow T r₁.2 r₂.2 p₂.change low₁ in
    let p₃ = push64-LowPush hv works T v₃ 0x6fe4 r₂.1 r₂.2 low₂ p₂.at_rsp (omega arith) in
    let m₃ = (push64 hv v₃ r₂.1 r₂.2).2 in
    record {
      at_rsp = p₃.at_rsp;
      same_rip = p₃.same_rip ∙ p₂.same_rip ∙ p₁.same_rip;
      first =
          Holds-kept r₁.2 m₃ 0x6ff4 0x6ff4 0x6ffc (le_bytes 8 0x7100)
            (λ c lo hi. p₃.outside c (omega arith) ∙ p₂.outside c (omega arith)) (omega arith)
            (omega arith) p₁.word;
      second =
          Holds-kept r₂.2 m₃ 0x6fec 0x6fec 0x6ff4 (le_bytes 8 v₂)
            (λ c lo hi. p₃.outside c (omega arith)) (omega arith) (omega arith) p₂.word;
      third = p₃.word;
      above = λ c lo hi.
          p₃.outside c (omega arith) ∙ p₂.outside c (omega arith) ∙ p₁.outside c (omega arith);
      change = LowChange-trans p₁.change (LowChange-trans p₂.change p₃.change);
    }
