-- ===== src/Mem/Access/View.antt =====
-- Guest memory as a partial map from addresses to bytes, which is what `vm_mem_read` and
-- `vm_mem_write` work on.
use masters_proj.Prelude.{
  ℕ, suc, ◌+◌, ◌^◌, ◌≤◌, ◌<◌, ◌≡◌, ◌≢◌, refl, ◌⊎◌, inl, inr, true, List, [], length, take, ap, ◌∷◌,
  arith, Bool-cases, sym, ◌∙◌, if◌then◌else◌, Option, some, none, ◌==◌, u64, ne→==-false,
}
use masters_proj.Mem.State.{Mem}
use masters_proj.Mem.Gpa.{gpa_to_hva}
use masters_proj.Mem.Gpa.Layout.{IsValid}
use masters_proj.Mem.Gpa.Lookup.{Maps-lt, Maps-inj, gpa_to_hva-Maps_iff}
use masters_proj.Mem.Access.{poke, vm_mem_read, vm_mem_write}

-- The byte at a guest address, if one is mapped there.
unfoldable pub view : Mem → ℕ → Option ℕ
view m a = if gpa_to_hva m a == 0 then none else some (m.bytes (gpa_to_hva m a))

abbrev pub Mapped : Mem → ℕ → Type 0
Mapped m a = gpa_to_hva m a ≢ 0

-- The bytes from an address on.
abbrev pub Holds : Mem → ℕ → List ℕ → Type 0
Holds m a [] = Unit
Holds m a (b ∷ bs) = (view m a ≡ some b) × Holds m (a + 1) bs

pub Mapped-lt : (m : Mem) (a : ℕ) → IsValid m.regions → Mapped m a → a + 1 < 2 ^ 64
Mapped-lt m a v h =
    Maps-lt 0 m.regions v.layout ((gpa_to_hva-Maps_iff m a (gpa_to_hva m a) v).0 (refl, h))

-- Two guest addresses have no byte in common.
pub gpa_to_hva-inj :
    (m : Mem) (a b : ℕ) → IsValid m.regions → Mapped m a → gpa_to_hva m a ≡ gpa_to_hva m b → a ≡ b
gpa_to_hva-inj m a b v h e =
    Maps-inj m.regions v.separate ((gpa_to_hva-Maps_iff m a (gpa_to_hva m a) v).0 (refl, h))
      ((gpa_to_hva-Maps_iff m b (gpa_to_hva m a) v).0 (sym e, h))

gpa_to_hva-poke : (m : Mem) (h b a : ℕ) → gpa_to_hva (poke m h b) a ≡ gpa_to_hva m a
unfolding gpa_to_hva
gpa_to_hva-poke m h b a = refl

-- A store changes the byte at its own address alone.
pub view-poke :
    (m : Mem) (a v c : ℕ)
    → IsValid m.regions
    → Mapped m a
    → view (poke m (gpa_to_hva m a) v) c ≡ (if a == c then some v else view m c)
unfolding view
view-poke m a v c ok h =
    ground (arith, gpa_to_hva-poke m (gpa_to_hva m a) v c, gpa_to_hva-inj m a c ok h)

view-none : (m : Mem) (a : ℕ) → (gpa_to_hva m a == 0) ≡ true → view m a ≡ none
unfolding view
view-none m a h = rw h

pub view-Mapped : (m : Mem) (a b : ℕ) → view m a ≡ some b → Mapped m a
unfolding view
view-Mapped m a b h = ground arith

view-byte : (m : Mem) (a b : ℕ) → view m a ≡ some b → m.bytes (gpa_to_hva m a) ≡ b
unfolding view
view-byte m a b h = ground arith

-- `vm_mem_read` of mapped bytes returns all of them.
pub vm_mem_read-Holds :
    (m : Mem) (a : ℕ) (buf bs : List ℕ)
    → IsValid m.regions
    → Holds m a bs
    → length buf ≡ length bs
    → vm_mem_read m a buf ≡ (length bs, bs)
unfolding vm_mem_read
vm_mem_read-Holds m a [] [] v h e = refl
vm_mem_read-Holds m a [] (b ∷ bs) v h e = absurd (omega arith)
vm_mem_read-Holds m a (x ∷ buf) [] v h e = absurd (omega arith)
vm_mem_read-Holds m a (x ∷ buf) (b ∷ bs) v h e =
    let mapped = view-Mapped m a b h.0 in
    let next : u64 (a + 1) ≡ a + 1 = omega (arith, Mapped-lt m a v mapped) in
    rw (next, ne→==-false _ _ mapped, vm_mem_read-Holds m (a + 1) buf bs v h.1 (omega arith))
      (ap (λ x. (suc (length bs), x ∷ bs)) (view-byte m a b h.0))

-- How a write ends: the state differs from `m` in the first `k` bytes of `bs`, which stand from `a`
-- on, and all were written unless the next address is not mapped.
pub record Written (a : ℕ) (bs : List ℕ) (m : Mem) (k : ℕ) (m' : Mem) : Type 0 where
  pub regions : m'.regions ≡ m.regions
  pub pml4 : m'.pml4 ≡ m.pml4
  pub pml4_gpa : m'.pml4_gpa ≡ m.pml4_gpa
  pub count : k ≤ length bs
  pub inside : Holds m' a (take k bs)
  pub outside : (c : ℕ) → (c < a) ⊎ (a + k ≤ c) → view m' c ≡ view m c
  pub stop : k < length bs → view m (a + k) ≡ none

Written-stop : (m : Mem) (a b : ℕ) (bs : List ℕ) → view m a ≡ none → Written a (b ∷ bs) m 0 m
Written-stop m a b bs h = record {
  regions = refl;
  pml4 = refl;
  pml4_gpa = refl;
  count = omega arith;
  inside = tt;
  outside = λ c o. refl;
  stop = λ l. ap (view m) (omega arith) ∙ h;
}

Written-step :
    (m m' : Mem) (a b k : ℕ) (bs : List ℕ)
    → IsValid m.regions
    → Mapped m a
    → Written (a + 1) bs (poke m (gpa_to_hva m a) b) k m'
    → Written a (b ∷ bs) m (suc k) m'
Written-step m m' a b k bs v h w = record {
  regions = w.regions;
  pml4 = w.pml4;
  pml4_gpa = w.pml4_gpa;
  count = omega (arith, w.count);
  inside = (w.outside a (omega arith) ∙ ground (arith, view-poke m a b a v h), w.inside);
  outside = λ c o. w.outside c (omega arith) ∙ ground (arith, view-poke m a b c v h);
  stop = λ l.
      let next : a + suc k ≡ a + 1 + k = omega arith in
      ground (arith, next, view-poke m a b (a + 1 + k) v h, w.stop (omega arith));
}

-- In a state with well-formed regions `vm_mem_write` stores the bytes in order from `gpa` on and
-- stops early only at an address that is not mapped; it changes no other byte of guest memory, no
-- region and not the root table.
pub vm_mem_write-Written :
    (a : ℕ) (bs : List ℕ) (m : Mem)
    → IsValid m.regions
    → Written a bs m (vm_mem_write a bs m).0 (vm_mem_write a bs m).1
unfolding vm_mem_write
vm_mem_write-Written a [] m v = record {
  regions = refl;
  pml4 = refl;
  pml4_gpa = refl;
  count = omega arith;
  inside = tt;
  outside = λ c o. refl;
  stop = λ l. elim l [ ];
}
vm_mem_write-Written a (b ∷ bs) m v = elim (Bool-cases (gpa_to_hva m a == 0)) [
  | inl null ↦ rw null (Written-stop m a b bs (view-none m a null))
  | inr found ↦
      let h : Mapped m a = ground arith in
      let next : u64 (a + 1) ≡ a + 1 = omega (arith, Mapped-lt m a v h) in
      rw (found, next)
        (Written-step m _ a b _ bs v h
          (vm_mem_write-Written (a + 1) bs (poke m (gpa_to_hva m a) b) v))
]
