-- ===== src/Mem/Gpa/Lookup.antt =====
-- `gpa_to_hva` against the relation between guest and host addresses that a list of regions means.
use masters_proj.Prelude.{
  ℕ, ◌+◌, ◌-◌, ◌*◌, ◌^◌, ◌≤◌, ◌<◌, ◌≡◌, ◌≢◌, refl, ◌⊎◌, inl, inr, ◌↔◌, List, [], ◌∷◌, arith, leb,
  ltb, All, Bool-cases, sym, ◌∙◌, subst,
}
use masters_proj.Mem.State.{Region, Mem}
use masters_proj.Mem.Gpa.{region_end, passed, reached, locate, gpa_to_hva}
use masters_proj.Mem.Gpa.Layout.{end_of, Layout, Apart, Separate, IsValid, region_end-eq, insert}

-- Region `r` backs the guest address `a` by the host address `h`.
pub record Backs (r : Region) (a h : ℕ) : Type 0 where
  pub above : r.gpa ≤ a
  pub below : a < end_of r
  pub at : h ≡ r.hva + (a - r.gpa)

-- Some region of the list does.
pub data Maps : List Region → ℕ → ℕ → Type 0 where
  here : {r : Region} {rs : List Region} {a h : ℕ} → Backs r a h → Maps (r ∷ rs) a h
  there : {r : Region} {rs : List Region} {a h : ℕ} → Maps rs a h → Maps (r ∷ rs) a h

-- A backed address lies at or above the start of the list.
pub Maps-ge : {a h : ℕ} (lo : ℕ) (rs : List Region) → Layout lo rs → Maps rs a h → lo ≤ a
Maps-ge lo [] l m = elim m [ ]
Maps-ge lo (r ∷ rs) l (here b) = omega arith
Maps-ge lo (r ∷ rs) l (there m) = omega (arith, Maps-ge (end_of r) rs l.2 m)

pub locate_complete :
    {a h : ℕ} (lo : ℕ) (rs : List Region) → Layout lo rs → Maps rs a h → locate a rs ≡ h
unfolding locate
locate_complete lo [] l m = elim m [ ]
locate_complete lo (r ∷ rs) l (here b) = ground (arith, region_end-eq r l.1)
locate_complete lo (r ∷ rs) l (there m) =
    ground
      (arith, region_end-eq r l.1, Maps-ge (end_of r) rs l.2 m, locate_complete (end_of r) rs l.2 m)

pub locate_sound :
    (a : ℕ) (lo : ℕ) (rs : List Region) → Layout lo rs → locate a rs ≢ 0 → Maps rs a (locate a rs)
unfolding locate
locate_sound a lo [] l h = absurd (h refl)
locate_sound a lo (r ∷ rs) l h = elim (Bool-cases (leb r.gpa a)) [
  | inl above ↦ elim (Bool-cases (ltb a (region_end r))) [
    | inl below ↦
        rw (above, below)
          (here (record {
            above = ground arith;
            below = ground (arith, region_end-eq r l.1);
            at = refl;
          }))
    | inr past ↦ rw (above, past) (there (locate_sound a (end_of r) rs l.2 (rw (above, past) at h)))
  ]
  | inr early ↦ absurd (rw early at h refl)
]

pub Maps-hva : {a h : ℕ} (lo : ℕ) (rs : List Region) → Layout lo rs → Maps rs a h → 0 < h
Maps-hva lo [] l m = elim m [ ]
Maps-hva lo (r ∷ rs) l (here b) = omega arith
Maps-hva lo (r ∷ rs) l (there m) = Maps-hva (end_of r) rs l.2 m

pub Maps-lt : {a h : ℕ} (lo : ℕ) (rs : List Region) → Layout lo rs → Maps rs a h → a + 1 < 2 ^ 64
Maps-lt lo [] l m = elim m [ ]
Maps-lt lo (r ∷ rs) l (here b) = omega arith
Maps-lt lo (r ∷ rs) l (there m) = Maps-lt (end_of r) rs l.2 m

-- In a well-formed state `gpa_to_hva` returns a host address exactly for the guest addresses that
-- a region covers, and it is the region's; for all others it returns NULL.
pub gpa_to_hva-Maps_iff :
    (m : Mem) (a h : ℕ) → IsValid m.regions → ((gpa_to_hva m a ≡ h) × (h ≢ 0)) ↔ Maps m.regions a h
unfolding gpa_to_hva
gpa_to_hva-Maps_iff m a h v = (
  λ (e, ne).
      subst (λ k. Maps m.regions a k) e (locate_sound a 0 m.regions v.layout λ z. ne (sym e ∙ z)),
  λ b. (
    locate_complete 0 m.regions v.layout b,
    λ z. absurd (omega (arith, Maps-hva 0 m.regions v.layout b)),
  ),
)

pub Maps-cons :
    {r : Region} {rs : List Region} {a h : ℕ} → Maps (r ∷ rs) a h → Backs r a h ⊎ Maps rs a h
Maps-cons (here b) = inl b
Maps-cons (there m) = inr m

-- What is mapped after an insertion.
pub insert-Maps :
    {a h : ℕ} (new : Region) (rs : List Region)
    → Maps (insert new rs) a h
    → Backs new a h ⊎ Maps rs a h
unfolding passed reached
insert-Maps new [] (here b) = inl b
insert-Maps new [] (there m) = elim m [ ]
insert-Maps {a} {h} new (r ∷ rs) m = elim (Bool-cases (leb (region_end r) new.gpa)) [
  | inl past ↦ elim (Maps-cons (rw past at m)) [
    | inl b ↦ inr (here b)
    | inr m' ↦ elim (insert-Maps new rs m') [ inl b ↦ inl b | inr old ↦ inr (there old) ]
  ]
  | inr early ↦ Maps-cons (rw early at m)
]

pub Maps-insert_new :
    {a h : ℕ} (new : Region) (rs : List Region) → Backs new a h → Maps (insert new rs) a h
unfolding passed reached
Maps-insert_new new [] b = here b
Maps-insert_new new (r ∷ rs) b = elim (Bool-cases (leb (region_end r) new.gpa)) [
  | inl past ↦ rw past (there (Maps-insert_new new rs b))
  | inr early ↦ rw early (here b)
]

pub Maps-insert_old :
    {a h : ℕ} (new : Region) (rs : List Region) → Maps rs a h → Maps (insert new rs) a h
unfolding passed reached
Maps-insert_old new [] m = elim m [ ]
Maps-insert_old new (r ∷ rs) m = elim (Bool-cases (leb (region_end r) new.gpa)) [
  | inl past ↦
      rw past (elim (Maps-cons m) [ inl b ↦ here b | inr m' ↦ there (Maps-insert_old new rs m') ])
  | inr early ↦ rw early (there m)
]

-- A mapping of the rest lies outside the host memory of a region that is apart from the rest.
pub Maps-outside :
    {a h : ℕ} (r : Region) (rs : List Region)
    → All (Apart r) rs
    → Maps rs a h
    → (h < r.hva) ⊎ (r.hva + r.npages * 4096 ≤ h)
Maps-outside r [] s m = elim m [ ]
Maps-outside r (x ∷ rs) s (here b) = ground arith
Maps-outside r (x ∷ rs) s (there m) = Maps-outside r rs s.1 m

pub Maps-inj : {a b h : ℕ} (rs : List Region) → Separate rs → Maps rs a h → Maps rs b h → a ≡ b
Maps-inj [] s m n = elim m [ ]
Maps-inj (r ∷ rs) s (here p) (here q) = omega arith
Maps-inj (r ∷ rs) s (here p) (there n) = absurd (omega (arith, Maps-outside r rs s.0 n))
Maps-inj (r ∷ rs) s (there m) (here q) = absurd (omega (arith, Maps-outside r rs s.0 m))
Maps-inj (r ∷ rs) s (there m) (there n) = Maps-inj rs s.1 m n
