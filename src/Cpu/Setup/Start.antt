-- ===== src/Cpu/Setup/Start.antt =====
-- The registers and the memory that `vcpu_setup_ia32` leaves.
use masters_proj.Prelude.{
  ℕ, ◌+◌, ◌≤◌, ◌<◌, ◌≡◌, ◌≢◌, refl, ◌⊎◌, inl, inr, List, [], ◌∷◌, All, arith, subst, ◌∙◌,
}
use masters_proj.Prelude.Bytes.{le_bytes}
use masters_proj.Mem.State.{Mem}
use masters_proj.Mem.Gpa.Layout.{IsValid}
use masters_proj.Mem.Access.{write64, vm_mem_write}
use masters_proj.Mem.Access.View.{view, Mapped, Holds}
use masters_proj.Mem.Access.Word.{
  MappedRange, Word, Holds-same, vm_mem_write-full, write64-Word, view-write64, write64-regions,
  write64-pml4, Mapped-write64,
}
use masters_proj.Cpu.State.{
  Reg, rip, rflags, rax, rcx, rdx, rbx, rsi, rdi, rsp, rbp, Hypervisor, Works, rreg, wreg,
  rreg-wreg_same, rreg-wreg_other,
}
use masters_proj.Cpu.Setup.{write_regs, write_words, start_regs, descriptors, vcpu_setup_ia32}

-- The registers that are written behind RIP, and behind RFLAGS.
abbrev after_rflags : List (Reg × ℕ)
after_rflags =
    (rax, 0) ∷ (rcx, 0) ∷ (rdx, 0) ∷ (rbx, 0) ∷ (rsi, 0) ∷ (rdi, 0) ∷ (rsp, 0x6ffc) ∷ (rbp, 0) ∷ []

abbrev after_rip : List (Reg × ℕ)
after_rip = (rflags, 2) ∷ after_rflags

module _ (hv : Hypervisor) (works : Works hv) where
  rreg-write_regs :
      (rs : List (Reg × ℕ)) (c : hv.Vcpu) (r : Reg)
      → All (λ w. w.0 ≢ r) rs
      → rreg hv (write_regs hv rs c) r ≡ rreg hv c r
  unfolding write_regs
  rreg-write_regs [] c r h = refl
  rreg-write_regs ((s, v) ∷ rs) c r h =
      rreg-write_regs rs (wreg hv s v c) r h.1 ∙ rreg-wreg_other hv works c v s r h.0

  -- The registers of a CPU that is about to start.
  start_regs-set :
      (c : hv.Vcpu)
      → let c' = write_regs hv start_regs c in
        (rreg hv c' rip ≡ 0x8000) × (rreg hv c' rflags ≡ 2) × (rreg hv c' rsp ≡ 0x6ffc)
  unfolding write_regs
  start_regs-set c =
      let c₁ = wreg hv rip 0x8000 c in
      let c₂ = wreg hv rflags 2 c₁ in
      let c₃ =
        wreg hv rdi 0
          (wreg hv rsi 0 (wreg hv rbx 0 (wreg hv rdx 0 (wreg hv rcx 0 (wreg hv rax 0 c₂))))) in
      (
        rreg-write_regs after_rip c₁ rip (
          λ e. cc,
          (
            λ e. cc,
            (λ e. cc, (λ e. cc, (λ e. cc, (λ e. cc, (λ e. cc, (λ e. cc, (λ e. cc, tt))))))),
          ),
        )
            ∙ rreg-wreg_same hv works c 0x8000 rip (omega arith),
        rreg-write_regs after_rflags c₂ rflags (
          λ e. cc,
          (λ e. cc, (λ e. cc, (λ e. cc, (λ e. cc, (λ e. cc, (λ e. cc, (λ e. cc, tt))))))),
        )
            ∙ rreg-wreg_same hv works c₁ 2 rflags (omega arith),
        rreg-write_regs ((rbp, 0) ∷ []) (wreg hv rsp 0x6ffc c₃) rsp (λ e. cc, tt)
            ∙ rreg-wreg_same hv works c₃ 0x6ffc rsp (omega arith),
      )

-- Words in order of address, from `lo` to `top`.
abbrev Ascending : (lo top : ℕ) → List (ℕ × ℕ) → Type 0
Ascending lo top [] = lo ≤ top
Ascending lo top ((a, v) ∷ ws) = (lo ≤ a) × Ascending (a + 8) top ws

Ascending-le : (lo top : ℕ) (ws : List (ℕ × ℕ)) → Ascending lo top ws → lo ≤ top
Ascending-le lo top [] h = h
Ascending-le lo top ((a, v) ∷ ws) h = omega (arith, h.0, Ascending-le (a + 8) top ws h.1)

-- What writing such words gives.
record WordsWritten (lo top : ℕ) (ws : List (ℕ × ℕ)) (m m' : Mem) : Type 0 where
  words : All (λ w. Word m' w.0 w.1) ws
  outside : (c : ℕ) → (c < lo) ⊎ (top ≤ c) → view m' c ≡ view m c
  regions : m'.regions ≡ m.regions
  pml4_gpa : m'.pml4_gpa ≡ m.pml4_gpa
  kept : (c : ℕ) → Mapped m c → Mapped m' c

write_words-WordsWritten :
    (lo top : ℕ) (ws : List (ℕ × ℕ)) (m : Mem)
    → IsValid m.regions
    → Ascending lo top ws
    → ((c : ℕ) → lo ≤ c → c < top → Mapped m c)
    → WordsWritten lo top ws m (write_words ws m)
unfolding write_words
write_words-WordsWritten lo top [] m valid h mapped = record {
  words = tt;
  outside = λ c o. refl;
  regions = refl;
  pml4_gpa = refl;
  kept = λ c h. h;
}
write_words-WordsWritten lo top ((a, v) ∷ ws) m valid h mapped =
    let le = Ascending-le (a + 8) top ws h.1 in
    let here : MappedRange m a 8 = λ i lt. mapped (a + i) (omega (arith, h.0)) (omega arith) in
    let m₁ = write64 a v m in
    let same = write64-regions m a v valid in
    let keep = Mapped-write64 m a v valid in
    let rest =
      write_words-WordsWritten (a + 8) top ws m₁ (rw same valid) h.1
        (λ c lo' hi. keep c (mapped c (omega (arith, h.0)) hi)) in
    record {
      words = (
        Holds-same m₁ (write_words ws m₁) a (le_bytes 8 v) (λ c mc lo' hi. rest.outside c (inl hi))
            (write64-Word m a v valid here),
        rest.words,
      );
      outside = λ c o.
          rest.outside c (omega (arith, h.0))
          ∙ view-write64 m a v valid here c (omega (arith, h.0));
      regions = rest.regions ∙ same;
      pml4_gpa = rest.pml4_gpa ∙ (write64-pml4 m a v valid).1;
      kept = λ c mc. rest.kept c (keep c mc);
    }

-- On a CPU whose calls succeed, and in a state with well-formed regions where the first 32 bytes
-- and the 4 bytes below 0x7000 are mapped, `vcpu_setup_ia32` leaves RIP at 0x8000, RSP at 0x6ffc
-- and RFLAGS 2; null descriptors stand at 0 and 8, the code and data descriptors at 16 and 24, and
-- the low 4 bytes of the root table's address at RSP; no byte outside of these 32 and 4 bytes of
-- guest memory has changed.
pub vcpu_setup_ia32-start :
    (hv : Hypervisor) (works : Works hv) (c : hv.Vcpu) (m : Mem)
    → IsValid m.regions
    → MappedRange m 0 32
    → MappedRange m 0x6ffc 4
    → let r = vcpu_setup_ia32 hv c m in
      (rreg hv r.1 rip ≡ 0x8000)
      × (rreg hv r.1 rflags ≡ 2)
      × (rreg hv r.1 rsp ≡ 0x6ffc)
      × Word r.2 0 0
      × Word r.2 8 0
      × Word r.2 16 0x00cf9a000000ffff
      × Word r.2 24 0x00cf92000000ffff
      × Holds r.2 0x6ffc (le_bytes 4 m.pml4_gpa)
      × ((a : ℕ) → 32 ≤ a → (a < 0x6ffc) ⊎ (0x7000 ≤ a) → view r.2 a ≡ view m a)
unfolding vcpu_setup_ia32
vcpu_setup_ia32-start hv works c m valid low stack =
    let w =
      write_words-WordsWritten 0 32 descriptors m valid
        (omega arith, (omega arith, (omega arith, (omega arith, omega arith))))
        (λ a lo hi. subst (Mapped m) (omega arith) (low a hi)) in
    let m₁ = write_words descriptors m in
    let top : MappedRange m₁ 0x6ffc 4 = λ i lt. w.kept (0x6ffc + i) (stack i lt) in
    let (n, holds, outside) =
      vm_mem_write-full 0x6ffc (le_bytes 4 m₁.pml4_gpa) m₁ (rw w.regions valid) top in
    let m₂ = (vm_mem_write 0x6ffc (le_bytes 4 m₁.pml4_gpa) m₁).1 in
    let later = λ (b v : ℕ) (room : b + 8 ≤ 0x6ffc) (h : Word m₁ b v).
      Holds-same m₁ m₂ b (le_bytes 8 v) (λ a ma lo hi. outside a (inl (omega arith))) h in
    let (i, f, s) = start_regs-set hv works _ in
    (
      i,
      f,
      s,
      later 0 0 (omega arith) w.words.0,
      later 8 0 (omega arith) w.words.1.0,
      later 16 0x00cf9a000000ffff (omega arith) w.words.1.1.0,
      later 24 0x00cf92000000ffff (omega arith) w.words.1.1.1.0,
      subst (λ g. Holds m₂ 0x6ffc (le_bytes 4 g)) w.pml4_gpa holds,
      λ a lo o. outside a (omega arith) ∙ w.outside a (inr lo),
    )
