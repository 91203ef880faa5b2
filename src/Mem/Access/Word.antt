-- ===== src/Mem/Access/Word.antt =====
-- Reads and writes that meet no unmapped address, and the eight-byte ones of page table entries.
use native.Mathlib.Decide.{ℕ_discrete}
use masters_proj.Prelude.{
  ℕ, zero, suc, ◌+◌, ◌^◌, ◌≤◌, ◌<◌, ◌≡◌, ◌≢◌, ◌⊎◌, List, [], length, take, take-length, ◌∷◌, arith,
  sym, ◌∙◌, subst, ap, some, none,
}
use masters_proj.Prelude.Bytes.{le_bytes, le_value, length-le_bytes, le_value-le_bytes}
use masters_proj.Mem.State.{Mem}
use masters_proj.Mem.Gpa.Layout.{IsValid}
use masters_proj.Mem.Access.{vm_mem_read, vm_mem_write, read64, write64}
use masters_proj.Mem.Access.Grant.{same-hva}
use masters_proj.Mem.Access.View.{
  view, view-Mapped, Mapped, Holds, Written, vm_mem_write-Written, vm_mem_read-Holds,
}

abbrev pub MappedRange : Mem → (a n : ℕ) → Type 0
MappedRange m a n = (i : ℕ) → i < n → Mapped m (a + i)

view-none-Mapped : (m : Mem) (a : ℕ) → view m a ≡ none → ¬ Mapped m a
unfolding view
view-none-Mapped m a e h = ground arith

module _ (a : ℕ) (bs : List ℕ) (m : Mem) (v : IsValid m.regions)
    (mapped : MappedRange m a (length bs)) where
  abbrev w : Written a bs m (vm_mem_write a bs m).0 (vm_mem_write a bs m).1
  w = vm_mem_write-Written a bs m v

  count_full : (vm_mem_write a bs m).0 ≡ length bs
  count_full = elim (ℕ_discrete (vm_mem_write a bs m).0 (length bs)) [
    | yes e ↦ e
    | no ne ↦
        let short : (vm_mem_write a bs m).0 < length bs = omega (arith, w.count) in
        absurd (view-none-Mapped m _ (w.stop short) (mapped _ short))
  ]

  -- In a state with well-formed regions, and into mapped memory, `vm_mem_write` writes the whole
  -- buffer: it returns its length, the bytes stand at `gpa`, and all other bytes are as before.
  pub vm_mem_write-full :
      let r = vm_mem_write a bs m in
      (r.0 ≡ length bs)
      × Holds r.1 a bs
      × ((c : ℕ) → (c < a) ⊎ (a + length bs ≤ c) → view r.1 c ≡ view m c)
  vm_mem_write-full = (
    count_full,
    subst (Holds (vm_mem_write a bs m).1 a) (ap (λ k. take k bs) count_full ∙ take-length bs)
        w.inside,
    λ c o. w.outside c (rw count_full o),
  )

  -- In a state with well-formed regions, less than 2 ^ 31 bytes that were written to mapped memory
  -- are what a read of the same length returns, with that length.
  pub vm_mem_read-vm_mem_write :
      (buf : List ℕ)
      → length bs < 2 ^ 31
      → length buf ≡ length bs
      → vm_mem_read (vm_mem_write a bs m).1 a buf ≡ (length bs, bs)
  vm_mem_read-vm_mem_write buf short e =
      vm_mem_read-Holds _ a buf bs (rw w.regions v) vm_mem_write-full.1 e

-- A write that meets no unmapped address, with what it leaves alone.
pub record FullWrite (a : ℕ) (bs : List ℕ) (m : Mem) (r : ℕ × Mem) : Type 0 where
  pub count : r.0 ≡ length bs
  pub holds : Holds r.1 a bs
  pub outside : (c : ℕ) → (c < a) ⊎ (a + length bs ≤ c) → view r.1 c ≡ view m c
  pub regions : r.1.regions ≡ m.regions
  pub valid : IsValid r.1.regions
  pub pml4 : (r.1.pml4 ≡ m.pml4) × (r.1.pml4_gpa ≡ m.pml4_gpa)
  pub kept : (c : ℕ) → Mapped m c → Mapped r.1 c

pub vm_mem_write-FullWrite :
    (a : ℕ) (bs : List ℕ) (m : Mem)
    → IsValid m.regions
    → MappedRange m a (length bs)
    → FullWrite a bs m (vm_mem_write a bs m)
vm_mem_write-FullWrite a bs m valid range =
    let w = vm_mem_write-Written a bs m valid in
    let (count, holds, outside) = vm_mem_write-full a bs m valid range in
    record {
      count = count;
      holds = holds;
      outside = outside;
      regions = w.regions;
      valid = rw w.regions valid;
      pml4 = (w.pml4, w.pml4_gpa);
      kept = λ c mc z. mc (sym (same-hva m (vm_mem_write a bs m).1 c w.regions) ∙ z);
    }

-- Bytes stay where the memory under them looks the same.
pub Holds-same :
    (m m' : Mem) (b : ℕ) (bs : List ℕ)
    → ((c : ℕ) → Mapped m c → b ≤ c → c < b + length bs → view m' c ≡ view m c)
    → Holds m b bs
    → Holds m' b bs
Holds-same m m' b [] same h = tt
Holds-same m m' b (x ∷ bs) same h = (
  same b (view-Mapped m b x h.0) (omega arith) (omega arith) ∙ h.0,
  Holds-same m m' (b + 1) bs (λ c mc lo hi. same c mc (omega arith) (omega arith)) h.1,
)

pub Holds-zeros :
    (m : Mem) (b n : ℕ)
    → ((c : ℕ) → b ≤ c → c < b + n → view m c ≡ some 0)
    → Holds m b (le_bytes n 0)
Holds-zeros m b zero z = tt
Holds-zeros m b (suc n) z = (
  z b (omega arith) (omega arith),
  Holds-zeros m (b + 1) n (λ c lo hi. z c (omega arith) (omega arith)),
)

-- The bytes of the `uint64_t` `v` stand at `a`.
abbrev pub Word : Mem → (a v : ℕ) → Type 0
Word m a v = Holds m a (le_bytes 8 v)

pub read64-Word :
    (m : Mem) (a v old : ℕ) → IsValid m.regions → v < 2 ^ 64 → Word m a v → read64 m a old ≡ v
unfolding read64
read64-Word m a v old valid lt h =
    ap (λ r. le_value r.1)
      (vm_mem_read-Holds m a (le_bytes 8 old) (le_bytes 8 v) valid h
        (length-le_bytes 8 old ∙ sym (length-le_bytes 8 v)))
    ∙ le_value-le_bytes 8 v lt

pub write64-regions : (m : Mem) (a v : ℕ) → IsValid m.regions → (write64 a v m).regions ≡ m.regions
unfolding write64
write64-regions m a v valid = (vm_mem_write-Written a (le_bytes 8 v) m valid).regions

pub Mapped-write64 :
    (m : Mem) (a v : ℕ) → IsValid m.regions → (c : ℕ) → Mapped m c → Mapped (write64 a v m) c
Mapped-write64 m a v valid c =
    subst (λ h. h ≢ 0) (sym (same-hva m (write64 a v m) c (write64-regions m a v valid)))

pub write64-pml4 :
    (m : Mem) (a v : ℕ)
    → IsValid m.regions
    → ((write64 a v m).pml4 ≡ m.pml4) × ((write64 a v m).pml4_gpa ≡ m.pml4_gpa)
unfolding write64
write64-pml4 m a v valid =
    let w = vm_mem_write-Written a (le_bytes 8 v) m valid in (w.pml4, w.pml4_gpa)

module _ (m : Mem) (a v : ℕ) (valid : IsValid m.regions) (mapped : MappedRange m a 8) where
  pub write64-Word : Word (write64 a v m) a v
  unfolding write64
  write64-Word = (vm_mem_write-full a (le_bytes 8 v) m valid mapped).1

  pub view-write64 : (c : ℕ) → (c < a) ⊎ (a + 8 ≤ c) → view (write64 a v m) c ≡ view m c
  unfolding write64
  view-write64 = (vm_mem_write-full a (le_bytes 8 v) m valid mapped).2

  pub write64-Word_other :
      (b x : ℕ) → (b + 8 ≤ a) ⊎ (a + 8 ≤ b) → Word m b x → Word (write64 a v m) b x
  write64-Word_other b x apart h =
      Holds-same m (write64 a v m) b (le_bytes 8 x) (λ c mc lo hi. view-write64 c (omega arith)) h
