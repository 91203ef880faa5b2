-- ===== src/Mem/Access/Alloc.antt =====
-- `vm_mem_alloc` seen from the guest: a new block of zero bytes, and all else as before.
use masters_proj.Prelude.{
  ℕ, ◌+◌, ◌-◌, ◌*◌, ◌%◌, ◌/◌, ◌^◌, ◌≤◌, ◌<◌, ◌≡◌, ◌≢◌, refl, ◌⊎◌, inl, inr, true, List, [], ◌∷◌,
  arith, sym, subst, ◌∙◌, ap, Option, some, none, ne→==-false, All,
}
use native.Mathlib.Decide.{dec_lt}
use masters_proj.Mem.State.{Region, Mem, Host, Status, success, call_valloc}
use masters_proj.Mem.Gpa.{gpa_to_hva, map_gpa, Block}
use masters_proj.Mem.Gpa.Layout.{IsValid, Apart, end_of, insert-All}
use masters_proj.Mem.Gpa.Lookup.{Backs, Maps, here, there, Maps-outside, gpa_to_hva-Maps_iff}
use masters_proj.Mem.Gpa.Free.{IsFree}
use masters_proj.Mem.Gpa.Map.{new_region, map_gpa-IsValid, map_gpa-effect, map_gpa-regions}
use masters_proj.Mem.Access.View.{view, Mapped}

-- What the program relies on in `valloc`: a block that it returns shares no byte with the blocks
-- in use, and (not promised by its manual, but needed for page tables) holds zeros.
pub record Honest (host : Host) : Type 0 where
  pub fresh :
      (m : Mem) (npages g : ℕ)
      → npages * 4096 < 2 ^ 64
      → host.valloc m (npages * 4096) ≢ 0
      → All
          (Apart (record { gpa = g; npages = npages; hva = host.valloc m (npages * 4096) }))
          m.regions
  pub zeroed : (m : Mem) (a : ℕ) → host.fill m a ≡ 0

-- A host that grants every request.
pub record Willing (host : Host) : Type 0 where
  pub has_memory : (m : Mem) (size : ℕ) → host.valloc m size ≢ 0
  pub has_room : (m : Mem) → host.malloc m ≡ true
  pub maps_all : (m : Mem) (hva gpa size : ℕ) → host.hv_vm_map m hva gpa size ≡ true

-- All regions end at or below `top`.
abbrev pub Below : ℕ → List Region → Type 0
Below top = All λ r. end_of r ≤ top

pub Below-IsFree : (top npages : ℕ) (rs : List Region) → Below top rs → IsFree top npages rs
Below-IsFree top npages [] b = tt
Below-IsFree top npages (r ∷ rs) b = (inl b.0, Below-IsFree top npages rs b.1)

pub Below-add : (top n : ℕ) (rs : List Region) → Below top rs → Below (top + n) rs
Below-add top n [] b = tt
Below-add top n (r ∷ rs) b = (omega arith, Below-add top n rs b.1)

-- A block that meets no region has no mapped address.
pub free-not-Maps :
    (g npages a : ℕ) {h : ℕ} (rs : List Region)
    → IsFree g npages rs
    → g ≤ a
    → a < g + npages * 4096
    → ¬ Maps rs a h
free-not-Maps g npages a [] f lo hi m = elim m [ ]
free-not-Maps g npages a (r ∷ rs) f lo hi (here b) = ground arith
free-not-Maps g npages a (r ∷ rs) f lo hi (there m) = free-not-Maps g npages a rs f.1 lo hi m

pub view-bytes :
    (m m' : Mem) (a : ℕ)
    → gpa_to_hva m' a ≡ gpa_to_hva m a
    → m'.bytes (gpa_to_hva m a) ≡ m.bytes (gpa_to_hva m a)
    → view m' a ≡ view m a
unfolding view
view-bytes m m' a e f = rw (e, f) refl

pub view-of : (m : Mem) (a h b : ℕ) → gpa_to_hva m a ≡ h → h ≢ 0 → m.bytes h ≡ b → view m a ≡ some b
unfolding view
view-of m a h b e ne f = rw (e, ne→==-false h 0 ne, f) refl

-- What a successful allocation of a block gives.
pub record NewBlock (npages : ℕ) (m : Mem) (b : Block) (m' : Mem) : Type 0 where
  pub aligned : b.gpa % 4096 ≡ 0
  pub hva : b.hva ≢ 0
  pub valid : IsValid m'.regions
  pub below :
      (top : ℕ) → Below top m.regions → (b.gpa ≤ top) × Below (top + npages * 4096) m'.regions
  pub bound : b.gpa + npages * 4096 < 2 ^ 64
  pub pml4 : m'.pml4 ≡ m.pml4
  pub pml4_gpa : m'.pml4_gpa ≡ m.pml4_gpa
  pub old : (a : ℕ) → Mapped m a → (Mapped m' a) × (view m' a ≡ view m a)
  pub fresh : (i : ℕ) → i < npages * 4096 → ¬ Mapped m (b.gpa + i)
  pub zeros : (i : ℕ) → i < npages * 4096 → view m' (b.gpa + i) ≡ some 0

module _ (host : Host) (honest : Honest host) (m : Mem) (v : IsValid m.regions) (npages g : ℕ)
    (pages : 0 < npages) (size : npages * 4096 < 2 ^ 64) (al : g % 4096 ≡ 0)
    (free : IsFree g npages m.regions) (bound : g + npages * 4096 < 2 ^ 64)
    (low : (h : ℕ) → IsFree h npages m.regions → g ≤ h) where
  abbrev pub got : ℕ × Mem
  got = call_valloc host (npages * 4096) m

  abbrev pub res : Status × Mem
  res = map_gpa host g npages got.0 got.1

  base : g / 4096 * 4096 ≡ g
  base = omega arith

  apart : got.0 ≢ 0 → All (Apart (new_region g npages got.0)) m.regions
  apart h = honest.fresh m npages (g / 4096 * 4096) size h

  pub got_old :
      (a : ℕ) → got.0 ≢ 0 → Mapped m a → got.1.bytes (gpa_to_hva m a) ≡ m.bytes (gpa_to_hva m a)
  got_old a h ma =
      let outside =
        Maps-outside (new_region g npages got.0) m.regions (apart h)
          ((gpa_to_hva-Maps_iff m a _ v).0 (refl, ma)) in
      ground arith

  got_new : (i : ℕ) → got.0 ≢ 0 → i < npages * 4096 → got.1.bytes (got.0 + i) ≡ 0
  got_new i h lt = ground (arith, honest.zeroed m (got.0 + i))

  pub res-NewBlock :
      got.0 ≢ 0 → res.0 ≡ success → NewBlock npages m (record { hva = got.0; gpa = g }) res.1
  res-NewBlock h e =
      let b' : g / 4096 * 4096 + npages * 4096 < 2 ^ 64 = omega arith in
      let v' =
        map_gpa-IsValid host g npages got.0 got.1 v (omega arith) b' (omega arith) (apart h) in
      let grow = (map_gpa-effect host g npages got.0 got.1 v.layout (omega arith) b').0 e in
      record {
        aligned = al;
        hva = h;
        valid = v';
        below = λ top b. (
          low top (Below-IsFree top npages m.regions b),
          rw (map_gpa-regions host g npages got.0 got.1 v.layout (omega arith) b' e) (
              insert-All (λ r. end_of r ≤ top + npages * 4096) _ m.regions
                (omega (arith, low top (Below-IsFree top npages m.regions b)))
                (Below-add top (npages * 4096) m.regions b)),
        );
        bound = bound;
        pml4 = grow.2;
        pml4_gpa = grow.3;
        old = λ a ma.
            let mm = (gpa_to_hva-Maps_iff m a _ v).0 (refl, ma) in
            let at = (gpa_to_hva-Maps_iff res.1 a _ v').1 ((grow.0 a _).1 (inr mm)) in
            (
              λ z. ma (sym at.0 ∙ z),
              view-bytes m res.1 a at.0 (ap (λ f. f (gpa_to_hva m a)) grow.1 ∙ got_old a h ma),
            );
        fresh = λ i lt ma.
            free-not-Maps g npages (g + i) m.regions free (omega arith) (omega arith)
              ((gpa_to_hva-Maps_iff m (g + i) _ v).0 (refl, ma));
        zeros = λ i lt.
            let backs : Backs (new_region g npages got.0) (g + i) (got.0 + i) = record {
              above = omega arith;
              below = omega arith;
              at = omega arith;
            } in
            let at =
              (gpa_to_hva-Maps_iff res.1 (g + i) _ v').1 ((grow.0 (g + i) _).1 (inl backs)) in
            view-of res.1 (g + i) (got.0 + i) 0 at.0 at.1
              (ap (λ f. f (got.0 + i)) grow.1 ∙ got_new i h lt);
      }

-- What was mapped lies outside the new block.
pub NewBlock-apart :
    {npages : ℕ} {m m' : Mem} {b : Block}
    → NewBlock npages m b m'
    → (a : ℕ) → Mapped m a
    → (a < b.gpa) ⊎ (b.gpa + npages * 4096 ≤ a)
NewBlock-apart {npages} {m} {b} new a ma = elim (dec_lt a b.gpa) [
  | yes lt ↦ inl lt
  | no ge ↦ elim (dec_lt a (b.gpa + npages * 4096)) [
    | yes lt ↦ absurd (new.fresh (a - b.gpa) (omega arith) (subst (Mapped m) (omega arith) ma))
    | no ge' ↦ inr (omega arith)
  ]
]

-- A failed allocation leaves guest memory as it was.
pub record Unchanged (m m' : Mem) : Type 0 where
  pub regions : m'.regions ≡ m.regions
  pub pml4 : m'.pml4 ≡ m.pml4
  pub pml4_gpa : m'.pml4_gpa ≡ m.pml4_gpa
  pub views : (a : ℕ) → view m' a ≡ view m a

-- How `vm_mem_alloc` ends.
pub data Allocation (npages : ℕ) (m : Mem) : Option Block × Mem → Type 0 where
  granted : {b : Block} {m' : Mem} → NewBlock npages m b m' → Allocation npages m (some b, m')
  denied : {m' : Mem} → Unchanged m m' → Allocation npages m (none, m')
