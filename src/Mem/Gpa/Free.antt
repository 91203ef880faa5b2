-- ===== src/Mem/Gpa/Free.antt =====
-- `find_free_mem_region` finds the first gap that is large enough.
use masters_proj.Prelude.{
  ℕ, ◌+◌, ◌*◌, ◌%◌, ◌^◌, ◌≤◌, ◌<◌, ◌≡◌, refl, ◌⊎◌, inl, inr, true, List, [], ◌∷◌, arith, leb, ltb,
  leb→le, All, sub64, Bool-cases, some, none,
}
use masters_proj.Mem.State.{Region}
use masters_proj.Mem.Gpa.{
  region_end, reached, has_next, size_of, find_free_from, find_free_mem_region,
}
use masters_proj.Mem.Gpa.Layout.{end_of, IsRegion, Layout, region_end-eq}

-- A block of `npages` pages at `g` lies in a gap of the list: `map_gpa` would stop there, and
-- every region lies before or behind the block.
pub record IsGap (lo npages : ℕ) (rs : List Region) (g : ℕ) : Type 0 where
  pub above : lo ≤ g
  pub aligned : g % 4096 ≡ 0
  pub disjoint : All (λ r. (end_of r ≤ g) ⊎ (g + npages * 4096 ≤ r.gpa)) rs
  pub next : has_next (g + npages * 4096) (reached g rs) ≡ true

All-behind :
    (lo e g : ℕ) (rs : List Region)
    → Layout lo rs
    → e ≤ lo
    → All (λ r. (end_of r ≤ g) ⊎ (e ≤ r.gpa)) rs
All-behind lo e g [] l h = tt
All-behind lo e g (r ∷ rs) l h = (inr (omega arith), All-behind (end_of r) e g rs l.2 (omega arith))

-- A gap behind a region's end is a gap of the longer list.
IsGap-cons :
    {lo npages g : ℕ} {rs : List Region} (r : Region)
    → IsRegion r
    → lo ≤ r.gpa
    → IsGap (end_of r) npages rs g
    → IsGap lo npages (r ∷ rs) g
unfolding reached
IsGap-cons {g} r v h gap = record {
  above = omega arith;
  aligned = gap.aligned;
  disjoint = (inl gap.above, gap.disjoint);
  next = ground (arith, region_end-eq r v, gap.next, gap.above);
}

pub find_free_from-IsGap :
    (npages lo : ℕ) (rs : List Region)
    → 0 < npages
    → npages * 4096 < 2 ^ 64
    → lo % 4096 ≡ 0
    → lo < 2 ^ 64
    → Layout lo rs
    → IsGap lo npages rs (find_free_from npages lo rs)
unfolding find_free_from reached
find_free_from-IsGap npages lo [] p s al b l = record {
  above = omega arith;
  aligned = al;
  disjoint = tt;
  next = refl;
}
find_free_from-IsGap npages lo (r ∷ rs) p s al b l =
    elim (Bool-cases (leb (size_of npages) (sub64 r.gpa lo))) [
      | inl enough ↦ rw enough (record {
        above = omega arith;
        aligned = al;
        disjoint = (
          inr (gap_size (leb→le _ _ enough)),
          All-behind (end_of r) _ lo rs l.2 (omega (arith, gap_size (leb→le _ _ enough))),
        );
        next = ground (arith, region_end-eq r l.1, gap_size (leb→le _ _ enough));
      })
      | inr little ↦
          rw (little, region_end-eq r l.1)
            (IsGap-cons r l.1 l.0
              (find_free_from-IsGap npages (end_of r) rs p s (omega arith) (omega arith) l.2))
    ]
  where
    gap_size : size_of npages ≤ sub64 r.gpa lo → lo + npages * 4096 ≤ r.gpa
    gap_size h = omega arith

-- No region of the list meets the block of `npages` pages at `g`.
abbrev pub IsFree : (g npages : ℕ) → List Region → Type 0
IsFree g npages = All λ r. (end_of r ≤ g) ⊎ (g + npages * 4096 ≤ r.gpa)

find_free_from-le :
    (npages lo g : ℕ) (rs : List Region)
    → npages * 4096 < 2 ^ 64
    → lo ≤ g
    → Layout lo rs
    → IsFree g npages rs
    → find_free_from npages lo rs ≤ g
unfolding find_free_from
find_free_from-le npages lo g [] s h l f = h
find_free_from-le npages lo g (r ∷ rs) s h l (inl behind, f) =
    ground (arith, region_end-eq r l.1, find_free_from-le npages (end_of r) g rs s behind l.2 f)
find_free_from-le npages lo g (r ∷ rs) s h l (inr before, f) = ground arith

-- In a well-formed list, and for a number of pages whose size fits in 64 bits,
-- `find_free_mem_region` fails for zero pages; otherwise it finds a page-aligned block that meets
-- no region, and the lowest one.
pub find_free_mem_region-lowest :
    (npages : ℕ) (rs : List Region)
    → npages * 4096 < 2 ^ 64
    → Layout 0 rs
    → ((npages ≡ 0) × (find_free_mem_region npages rs ≡ none))
      ⊎ ((g : ℕ) × (0 < npages)
          × (find_free_mem_region npages rs ≡ some g)
          × (g % 4096 ≡ 0)
          × IsFree g npages rs
          × ((h : ℕ) → IsFree h npages rs → g ≤ h))
unfolding find_free_mem_region
find_free_mem_region-lowest npages rs s l = elim (Bool-cases (ltb npages 1)) [
  | inl zero_pages ↦ inl (ground arith, rw zero_pages refl)
  | inr some_pages ↦
      let gap = find_free_from-IsGap npages 0 rs (ground arith) s refl (omega arith) l in
      inr (
        find_free_from npages 0 rs,
        ground arith,
        rw some_pages refl,
        gap.aligned,
        gap.disjoint,
        λ h f. find_free_from-le npages 0 h rs s (omega arith) l f,
      )
]

-- In a well-formed list the test of `map_gpa` is the absence of an overlap.
pub has_next-IsFree :
    (lo g npages : ℕ) (rs : List Region)
    → 0 < npages
    → Layout lo rs
    → has_next (g + npages * 4096) (reached g rs) ≡ true
    → IsFree g npages rs
unfolding reached
has_next-IsFree lo g npages [] p l h = tt
has_next-IsFree lo g npages (r ∷ rs) p l h = elim (Bool-cases (leb (region_end r) g)) [
  | inl past ↦ (
    inl (omega (arith, leb→le _ _ past, region_end-eq r l.1)),
    has_next-IsFree (end_of r) g npages rs p l.2 (rw past at h),
  )
  | inr early ↦
      let before = leb→le _ _ (rw early at h) in
      (inr before, All-behind (end_of r) _ g rs l.2 (omega arith))
]

pub IsFree-has_next :
    (lo g npages : ℕ) (rs : List Region)
    → 0 < npages
    → Layout lo rs
    → IsFree g npages rs
    → has_next (g + npages * 4096) (reached g rs) ≡ true
unfolding reached
IsFree-has_next lo g npages [] p l f = refl
IsFree-has_next lo g npages (r ∷ rs) p l (inl behind, f) =
    ground (arith, region_end-eq r l.1, IsFree-has_next (end_of r) g npages rs p l.2 f)
IsFree-has_next lo g npages (r ∷ rs) p l (inr before, f) = ground (arith, region_end-eq r l.1)
