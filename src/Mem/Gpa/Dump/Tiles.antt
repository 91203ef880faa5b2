-- ===== src/Mem/Gpa/Dump/Tiles.antt =====
-- Lines that follow each other without a gap, and those that `vm_mem_dump` prints for a list of
-- regions.
use masters_proj.Prelude.{
  ℕ, ◌+◌, ◌*◌, ◌%◌, ◌≤◌, ◌<◌, ◌≡◌, refl, inl, inr, List, [], ◌∷◌, ◌++◌, arith, ltb, sub64, sym,
  if◌then◌else◌, Bool-cases, ◌∙◌,
}
use masters_proj.Mem.State.{Region}
use masters_proj.Mem.Gpa.{region_end}
use masters_proj.Mem.Gpa.Layout.{IsRegion, Layout, end_of, region_end-eq}
use masters_proj.Mem.Gpa.Dump.{Usage, free, used, MemLine, mem_line}

-- The message before that for a region, if there is one, and all messages.
abbrev pub gap : (start : ℕ) → Region → List MemLine
gap start p = if ltb start p.gpa then mem_line free start p.gpa ∷ [] else []

abbrev pub lines_from : (start : ℕ) → List Region → List MemLine
lines_from start [] = []
lines_from start (p ∷ ps) =
    gap start p ++ mem_line used p.gpa (region_end p) ∷ lines_from (region_end p) ps

-- A line with this usage shows the address `a`.
pub data Covers (usage : Usage) (a : ℕ) : List MemLine → Type 0 where
  this :
      {l : MemLine} {ls : List MemLine}
      → l.usage ≡ usage
      → l.first ≤ a
      → a ≤ l.last
      → Covers usage a (l ∷ ls)
  later : {l : MemLine} {ls : List MemLine} → Covers usage a ls → Covers usage a (l ∷ ls)

-- Each line begins where the one before it ended, and has the pages that it says, at least one.
abbrev pub Tiles : ℕ → List MemLine → Type 0
Tiles start [] = Unit
Tiles start (l ∷ ls) =
    (l.first ≡ start)
    × (0 < l.npages)
    × (l.last + 1 ≡ start + l.npages * 4096)
    × Tiles (l.last + 1) ls

-- Where the lines end.
abbrev pub end_of_lines : ℕ → List MemLine → ℕ
end_of_lines start [] = start
end_of_lines start (l ∷ ls) = end_of_lines (l.last + 1) ls

pub Tiles-Covers :
    {a : ℕ} (start : ℕ) (ls : List MemLine)
    → Tiles start ls
    → start ≤ a
    → a < end_of_lines start ls
    → (u : Usage) × Covers u a ls
Tiles-Covers start [] t lo hi = absurd (omega arith)
Tiles-Covers {a} start (l ∷ ls) t lo hi = elim (Bool-cases (ltb l.last a)) [
  | inl past ↦ let (u, c) = Tiles-Covers (l.last + 1) ls t.3 (ground arith) hi in (u, later c)
  | inr inside ↦ (l.usage, this refl (omega (arith, t.0)) (ground arith))
]

pub Covers-range :
    {u : Usage} {a : ℕ} (start : ℕ) (ls : List MemLine)
    → Tiles start ls
    → Covers u a ls
    → (start ≤ a) × (a < end_of_lines start ls)
Covers-range start [] t c = elim c [ ]
Covers-range start (l ∷ ls) t (this e lo hi) =
    (omega (arith, t.0), omega (arith, Tiles-le (l.last + 1) ls t.3))
  where
    Tiles-le : (start : ℕ) (ls : List MemLine) → Tiles start ls → start ≤ end_of_lines start ls
    Tiles-le start [] t = omega arith
    Tiles-le start (l ∷ ls) t = omega (arith, t.2, Tiles-le (l.last + 1) ls t.3)
Covers-range start (l ∷ ls) t (later c) =
    let (lo, hi) = Covers-range (l.last + 1) ls t.3 c in (omega (arith, t.2), hi)

pub Covers-unique :
    {u v : Usage} {a : ℕ} (start : ℕ) (ls : List MemLine)
    → Tiles start ls
    → Covers u a ls
    → Covers v a ls
    → u ≡ v
Covers-unique start [] t c d = elim c [ ]
Covers-unique start (l ∷ ls) t (this e lo hi) (this e' lo' hi') = sym e ∙ e'
Covers-unique start (l ∷ ls) t (this e lo hi) (later d) =
    absurd (omega (arith, (Covers-range (l.last + 1) ls t.3 d).0))
Covers-unique start (l ∷ ls) t (later c) (this e lo hi) =
    absurd (omega (arith, (Covers-range (l.last + 1) ls t.3 c).0))
Covers-unique start (l ∷ ls) t (later c) (later d) = Covers-unique (l.last + 1) ls t.3 c d

-- The end of the last region.
abbrev end_of_regions : ℕ → List Region → ℕ
end_of_regions lo [] = lo
end_of_regions lo (r ∷ rs) = end_of_regions (end_of r) rs

-- A region's own line.
pub used-Tile :
    (r : Region)
    → IsRegion r
    → let l = mem_line used r.gpa (region_end r) in (l.npages ≡ r.npages) × (l.last + 1 ≡ end_of r)
used-Tile r v = (omega (arith, region_end-eq r v), omega (arith, region_end-eq r v))

free-Tile :
    (start : ℕ) (r : Region)
    → IsRegion r
    → start % 4096 ≡ 0
    → start < r.gpa
    → let l = mem_line free start r.gpa in
      (0 < l.npages) × (l.last + 1 ≡ start + l.npages * 4096) × (l.last + 1 ≡ r.gpa)
free-Tile start r v al lt = (omega arith, omega arith, omega arith)

pub lines_from-Tiles :
    (lo : ℕ) (rs : List Region)
    → Layout lo rs
    → lo % 4096 ≡ 0
    → Tiles lo (lines_from lo rs) × (end_of_lines lo (lines_from lo rs) ≡ end_of_regions lo rs)
lines_from-Tiles lo [] l al = (tt, refl)
lines_from-Tiles lo (r ∷ rs) l al =
    let v = l.1 in
    let (pages, ends) = used-Tile r v in
    let e = region_end-eq r v in
    let (tiles, same) = lines_from-Tiles (end_of r) rs l.2 (omega (arith, v.aligned)) in
    let rest : let next = sub64 (region_end r) 1 + 1 in
        let ls = lines_from (region_end r) rs in
        Tiles next ls × (end_of_lines next ls ≡ end_of_regions (end_of r) rs) =
      rw (ends, e) (tiles, same) in
    elim (Bool-cases (ltb lo r.gpa)) [
      | inl some_free ↦
          let (some_pages, whole, next) = free-Tile lo r v al (ground arith) in
          rw some_free (
            (
              refl,
              some_pages,
              whole,
              (sym next, omega (arith, v.nonempty), omega (arith, ends, pages, next), rest.0),
            ),
            rest.1,
          )
      | inr none_free ↦
          let at : r.gpa ≡ lo = ground (arith, l.0) in
          rw none_free
            ((at, omega (arith, v.nonempty), omega (arith, ends, pages, at), rest.0), rest.1)
    ]
