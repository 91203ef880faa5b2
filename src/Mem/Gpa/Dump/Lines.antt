-- ===== src/Mem/Gpa/Dump/Lines.antt =====
-- What the lines that `vm_mem_dump` prints say of the memory.
use masters_proj.Prelude.{
  ℕ, ◌+◌, ◌-◌, ◌≤◌, ◌<◌, ◌≡◌, ◌≢◌, refl, ◌⊎◌, inl, inr, ◌↔◌, List, [], ◌∷◌, ◌++◌, arith, ltb, sym,
  Bool-cases, ap, ◌∙◌, Option,
}
use native.Mathlib.Decide.{ℕ_discrete}
use mathlib.Core.List.{append_assoc}
use masters_proj.Logging.{
  LogLevel, debug, debug-cases, Logger, init_logging, dlog, with_printed, dlog-printed, dlog-quiet,
  with_printed-nil, with_printed-append,
}
use masters_proj.Mem.State.{Region, Mem}
use masters_proj.Mem.Gpa.{region_end}
use masters_proj.Mem.Gpa.Layout.{IsRegion, Layout, IsValid, end_of, region_end-eq}
use masters_proj.Mem.Gpa.Lookup.{Maps, here, there, Backs, Maps-cons, gpa_to_hva-Maps_iff}
use masters_proj.Mem.Gpa.{gpa_to_hva}
use masters_proj.Mem.Gpa.Dump.{
  Usage, free, used, MemLine, mem_line, dump_region, dump_from, vm_mem_dump,
}
use masters_proj.Mem.Gpa.Dump.Tiles.{
  gap, lines_from, Covers, this, later, Tiles, end_of_lines, Tiles-Covers, Covers-range,
  Covers-unique, used-Tile, lines_from-Tiles,
}

free≢used : free ≢ used
free≢used e = cc

Covers-cons :
    {u : Usage} {a : ℕ} {l : MemLine} {ls : List MemLine}
    → Covers u a (l ∷ ls)
    → ((l.usage ≡ u) × (l.first ≤ a) × (a ≤ l.last)) ⊎ Covers u a ls
Covers-cons (this e lo hi) = inl (e, lo, hi)
Covers-cons (later c) = inr c

-- A gap shows no address in use.
gap-used :
    (a lo : ℕ) (r : Region) (ls : List MemLine) → Covers used a (gap lo r ++ ls) ↔ Covers used a ls
gap-used a lo r ls = elim (Bool-cases (ltb lo r.gpa)) [
  | inl some_free ↦
      rw some_free (
        λ c. elim (Covers-cons c) [ inl (e, _, _) ↦ absurd (free≢used e) | inr d ↦ d ],
        λ d. later d,
      )
  | inr none_free ↦ rw none_free (λ c. c, λ d. d)
]

-- A region's own line shows the addresses that it backs.
region-used :
    (a : ℕ) (r : Region) (ls : List MemLine)
    → IsRegion r
    → Covers used a (mem_line used r.gpa (region_end r) ∷ ls)
      ↔ (((h : ℕ) × Backs r a h) ⊎ Covers used a ls)
region-used a r ls v =
    let ends = (used-Tile r v).1 in
    (
      λ c. elim (Covers-cons c) [
        | inl (e, lo, hi) ↦
            inl (
              r.hva + (a - r.gpa),
              record { above = lo; below = omega (arith, ends, hi); at = refl },
            )
        | inr d ↦ inr d
      ],
      λ o. elim o [
        | inl (h, b) ↦ this refl b.above (omega (arith, ends, b.below))
        | inr d ↦ later d
      ],
    )

-- The lines of regions in use.
lines_from-used :
    (a lo : ℕ) (rs : List Region)
    → Layout lo rs
    → Covers used a (lines_from lo rs) ↔ ((h : ℕ) × Maps rs a h)
lines_from-used a lo [] l = (λ c. elim c [ ], λ (h, mm). elim mm [ ])
lines_from-used a lo (r ∷ rs) l =
    let ls = lines_from (region_end r) rs in
    let rest : Covers used a ls ↔ ((h : ℕ) × Maps rs a h) =
      rw (region_end-eq r l.1) (lines_from-used a (end_of r) rs l.2) in
    let skip_gap = gap-used a lo r (mem_line used r.gpa (region_end r) ∷ ls) in
    let own = region-used a r ls l.1 in
    (
      λ c. elim (own.0 (skip_gap.0 c)) [
        | inl (h, b) ↦ (h, here b)
        | inr d ↦ let (h, mm) = rest.0 d in (h, there mm)
      ],
      λ (h, mm).
          skip_gap.1
            (own.1 (elim (Maps-cons mm) [ inl b ↦ inl (h, b) | inr mm' ↦ inr (rest.1 (h, mm')) ])),
    )

-- What the lines of a dump say of a memory: they follow each other from address 0 on, an address is
-- in a line `used` exactly if it is mapped, and in a line `free` exactly if it is not and lies below the
-- end of the last line.
pub record Shows (m : Mem) (ls : List MemLine) : Type 0 where
  pub tiles : Tiles 0 ls
  pub used_iff : (a : ℕ) → Covers used a ls ↔ (gpa_to_hva m a ≢ 0)
  pub free_iff : (a : ℕ) → Covers free a ls ↔ ((gpa_to_hva m a ≡ 0) × (a < end_of_lines 0 ls))

free_or_used :
    (a : ℕ) (u : Usage) (ls : List MemLine) → Covers u a ls → ¬ Covers used a ls → Covers free a ls
free_or_used a free ls c n = c
free_or_used a used ls c n = absurd (n c)

lines_from-Shows : (m : Mem) → IsValid m.regions → Shows m (lines_from 0 m.regions)
lines_from-Shows m v =
    let ls = lines_from 0 m.regions in
    let tiles = (lines_from-Tiles 0 m.regions v.layout refl).0 in
    let used_iff : (a : ℕ) → Covers used a ls ↔ (gpa_to_hva m a ≢ 0) = λ a.
      let (to, from) = lines_from-used a 0 m.regions v.layout in
      (
        λ c.
            let (h, mm) = to c in
            let (e, ne) = (gpa_to_hva-Maps_iff m a h v).1 mm in λ z. ne (sym e ∙ z),
        λ ne. from (gpa_to_hva m a, (gpa_to_hva-Maps_iff m a (gpa_to_hva m a) v).0 (refl, ne)),
      ) in
    record {
      tiles = tiles;
      used_iff = used_iff;
      free_iff = λ a. (
        λ c. (
          elim (ℕ_discrete (gpa_to_hva m a) 0) [
            | yes z ↦ z
            | no ne ↦ absurd (free≢used (Covers-unique 0 ls tiles c ((used_iff a).1 ne)))
          ],
          (Covers-range 0 ls tiles c).1,
        ),
        λ (z, lt).
            let (u, c) = Tiles-Covers 0 ls tiles (omega arith) lt in
            free_or_used a u ls c (λ d. (used_iff a).0 d z),
      );
    }

-- What is printed at the level DEBUG, and that nothing is at another.
dump_region-printed :
    (start : ℕ) (r : Region) (l : Logger MemLine)
    → l.level ≡ debug
    → dump_region start r l
      ≡ with_printed (gap start r ++ mem_line used r.gpa (region_end r) ∷ []) l
unfolding dump_region
dump_region-printed start r l e = elim (Bool-cases (ltb start r.gpa)) [
  | inl some_free ↦ rw some_free (
      ap (dlog (mem_line used r.gpa (region_end r))) (dlog-printed (mem_line free start r.gpa) l e)
      ∙ dlog-printed (mem_line used r.gpa (region_end r)) _ e
      ∙ with_printed-append (mem_line free start r.gpa ∷ []) _ l)
  | inr none_free ↦ rw none_free (dlog-printed (mem_line used r.gpa (region_end r)) l e)
]

dump_from-printed :
    (start : ℕ) (rs : List Region) (l : Logger MemLine)
    → l.level ≡ debug
    → dump_from start rs l ≡ with_printed (lines_from start rs) l
unfolding dump_from
dump_from-printed start [] l e = sym (with_printed-nil l)
dump_from-printed start (r ∷ rs) l e =
    let own = mem_line used r.gpa (region_end r) ∷ [] in
    let rest = lines_from (region_end r) rs in
    ap (dump_from (region_end r) rs) (dump_region-printed start r l e)
    ∙ dump_from-printed (region_end r) rs (with_printed (gap start r ++ own) l) e
    ∙ with_printed-append (gap start r ++ own) rest l
    ∙ ap (λ ls. with_printed ls l) (append_assoc (gap start r) own rest)

dump_from-quiet :
    (start : ℕ) (rs : List Region) (l : Logger MemLine) → l.level ≢ debug → dump_from start rs l ≡ l
unfolding dump_from dump_region
dump_from-quiet start [] l ne = refl
dump_from-quiet start (r ∷ rs) l ne = elim (Bool-cases (ltb start r.gpa)) [
  | inl some_free ↦
      rw
        (
          some_free,
          dlog-quiet (mem_line free start r.gpa) l ne,
          dlog-quiet (mem_line used r.gpa (region_end r)) l ne,
        )
        (dump_from-quiet (region_end r) rs l ne)
  | inr none_free ↦
      rw (none_free, dlog-quiet (mem_line used r.gpa (region_end r)) l ne)
        (dump_from-quiet (region_end r) rs l ne)
]

-- In a state with well-formed regions, `vm_mem_dump` prints, after `init_logging` with the level
-- DEBUG, lines that show the memory: they follow each other without a gap from address 0 on, each of
-- the whole number of pages that it names; an address is in a line `used` exactly if `gpa_to_hva`
-- finds it, and in a line `free` exactly if it does not and the address lies below the end of the
-- last line. After `init_logging` with any other level it prints nothing.
pub vm_mem_dump-Shows :
    (m : Mem) (level : LogLevel) (fildes : Option (List ℕ)) (l : Logger MemLine)
    → IsValid m.regions
    → let l' = init_logging level fildes l in
      ((level ≡ debug)
        × ((ls : List MemLine) × (vm_mem_dump m l' ≡ with_printed ls l') × Shows m ls))
      ⊎ ((level ≢ debug) × (vm_mem_dump m l' ≡ l'))
unfolding vm_mem_dump init_logging
vm_mem_dump-Shows m level fildes l v =
    let l' = init_logging level fildes l in
    elim (debug-cases level) [
      | inl e ↦
          inl
            (e, (lines_from 0 m.regions, dump_from-printed 0 m.regions l' e, lines_from-Shows m v))
      | inr ne ↦ inr (ne, dump_from-quiet 0 m.regions l' ne)
    ]
