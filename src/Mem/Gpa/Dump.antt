-- ===== src/Mem/Gpa/Dump.antt =====
-- `vm_mem_dump` of src/vm_mem.c: the map of guest memory that it prints.
pub mod Tiles
pub mod Lines
use masters_proj.Prelude.{ℕ, ◌/◌, List, [], ◌∷◌, ltb, sub64, if◌then◌else◌}
use masters_proj.Logging.{Logger, dlog}
use masters_proj.Mem.State.{page_size, Region, Mem}
use masters_proj.Mem.Gpa.{region_end}

pub data Usage : Type 0 where
  free used : Usage

-- A line: the first and the last address, and the number of pages.
pub record MemLine : Type 0 where
  pub first : ℕ
  pub last : ℕ
  pub npages : ℕ
  pub usage : Usage

-- The message for the addresses from `start` to below `end`.
abbrev pub mem_line : Usage → (start end : ℕ) → MemLine
mem_line usage start end = record {
  first = start;
  last = sub64 end 1;
  npages = sub64 end start / page_size;
  usage = usage;
}

-- The body of the loop.
unfoldable pub dump_region : (start : ℕ) → Region → Logger MemLine → Logger MemLine
dump_region start p l =
    let l' = if ltb start p.gpa then dlog (mem_line free start p.gpa) l else l in
    dlog (mem_line used p.gpa (region_end p)) l'

-- The loop, at a `start`.
unfoldable pub dump_from : (start : ℕ) → List Region → Logger MemLine → Logger MemLine
unfolding dump_region
dump_from start [] l = l
dump_from start (p ∷ ps) l = dump_from (region_end p) ps (dump_region start p l)

unfoldable pub vm_mem_dump : Mem → Logger MemLine → Logger MemLine
unfolding dump_from
vm_mem_dump m l = dump_from 0 m.regions l
