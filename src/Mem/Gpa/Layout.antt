-- ===== src/Mem/Gpa/Layout.antt =====
-- What the list of regions is meant to be, and that an insertion where `map_gpa` stops keeps it so.
use masters_proj.Prelude.{
  ℕ, ◌+◌, ◌*◌, ◌%◌, ◌^◌, ◌≤◌, ◌<◌, ◌≡◌, ◌⊎◌, inl, inr, true, List, [], ◌∷◌, ◌++◌, arith, leb,
  leb→le, All, Bool-cases,
}
use masters_proj.Mem.State.{Region}
use masters_proj.Mem.Gpa.{region_end, passed, reached, has_next}

-- The end of a region, with no wrap.
abbrev pub end_of : Region → ℕ
end_of r = r.gpa + r.npages * 4096

-- A region of whole pages below the end of the address space, mapped somewhere.
pub record IsRegion (r : Region) : Type 0 where
  pub nonempty : 0 < r.npages
  pub aligned : r.gpa % 4096 ≡ 0
  pub bounded : end_of r < 2 ^ 64
  pub mapped : 0 < r.hva

-- The regions are in order of address, do not overlap, and begin at `lo` at the earliest.
abbrev pub Layout : ℕ → List Region → Type 0
Layout lo [] = Unit
Layout lo (r ∷ rs) = (lo ≤ r.gpa) × IsRegion r × Layout (end_of r) rs

-- Two regions are backed by different host memory.
abbrev pub Apart : Region → Region → Type 0
Apart r s = (r.hva + r.npages * 4096 ≤ s.hva) ⊎ (s.hva + s.npages * 4096 ≤ r.hva)

abbrev pub Separate : List Region → Type 0
Separate [] = Unit
Separate (r ∷ rs) = All (Apart r) rs × Separate rs

-- The list is well formed.
pub record IsValid (rs : List Region) : Type 0 where
  pub layout : Layout 0 rs
  pub separate : Separate rs

pub region_end-eq : (r : Region) → IsRegion r → region_end r ≡ end_of r
region_end-eq r v = omega arith

pub Layout-weaken : (lo lo' : ℕ) (rs : List Region) → lo' ≤ lo → Layout lo rs → Layout lo' rs
Layout-weaken lo lo' [] h l = tt
Layout-weaken lo lo' (r ∷ rs) h l = (omega arith, l.1, l.2)

-- The insertion of `map_gpa`.
abbrev pub insert : Region → List Region → List Region
insert new rs = passed new.gpa rs ++ new ∷ reached new.gpa rs

pub insert-Layout :
    (lo : ℕ) (new : Region) (rs : List Region)
    → lo ≤ new.gpa
    → IsRegion new
    → Layout lo rs
    → has_next (end_of new) (reached new.gpa rs) ≡ true
    → Layout lo (insert new rs)
unfolding passed reached
insert-Layout lo new [] h v l fits = (h, v, tt)
insert-Layout lo new (r ∷ rs) h v l fits = elim (Bool-cases (leb (region_end r) new.gpa)) [
  | inl past ↦ rw past (
    l.0,
    l.1,
    insert-Layout (end_of r) new rs
        (omega (arith, leb→le (region_end r) new.gpa past, region_end-eq r l.1)) v l.2
        (rw past at fits),
  )
  | inr here ↦ rw here (h, v, (ground arith, l.1, l.2))
]

module _ {ℓ} (P : Region → Type ℓ) where
  pub insert-All : (new : Region) (rs : List Region) → P new → All P rs → All P (insert new rs)
  unfolding passed reached
  insert-All new [] p ps = (p, tt)
  insert-All new (r ∷ rs) p ps = elim (Bool-cases (leb (region_end r) new.gpa)) [
    | inl past ↦ rw past (ps.0, insert-All new rs p ps.1)
    | inr here ↦ rw here (p, ps)
  ]

Apart-sym : (r s : Region) → Apart r s → Apart s r
Apart-sym r s (inl h) = inr h
Apart-sym r s (inr h) = inl h

pub insert-Separate :
    (new : Region) (rs : List Region) → All (Apart new) rs → Separate rs → Separate (insert new rs)
unfolding passed reached
insert-Separate new [] h s = (tt, tt)
insert-Separate new (r ∷ rs) h s = elim (Bool-cases (leb (region_end r) new.gpa)) [
  | inl past ↦
      rw past
        (insert-All (Apart r) new rs (Apart-sym new r h.0) s.0, insert-Separate new rs h.1 s.1)
  | inr here ↦ rw here (h, s)
]
