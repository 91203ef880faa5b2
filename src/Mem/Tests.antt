-- ===== src/Mem/Tests.antt =====
-- The theorems on guest memory at concrete states: a host that allocates upwards, the initial
-- state, and a guest with one page.
mod Tables
use masters_proj.Prelude.{
  ℕ, ◌+◌, ◌*◌, ◌%◌, ◌^◌, ◌≤◌, ◌<◌, ◌≡◌, ◌≢◌, refl, ◌↔◌, ◌⊎◌, inl, inr, List, [], ◌∷◌, Bool, true,
  Option, none, some, arith, All, length, ap, sym, ◌∙◌, subst, u64,
}
use masters_proj.Prelude.Bytes.{le_bytes}
use masters_proj.Mem.State.{Region, Mem, Host, Status, success, failure}
use masters_proj.Mem.Gpa.{Block, locate, gpa_to_hva, map_gpa, vm_mem_alloc, find_free_mem_region}
use masters_proj.Mem.Gpa.Layout.{IsValid, IsRegion, Layout, Apart}
use masters_proj.Mem.Gpa.Lookup.{Maps, Backs, here, gpa_to_hva-Maps_iff}
use masters_proj.Mem.Gpa.Free.{IsFree, find_free_mem_region-lowest}
use masters_proj.Mem.Gpa.Map.{
  map_gpa_iff, new_region, Granted, Extends, SameMemory, Withdrawn, map_gpa-IsValid, map_gpa-effect,
}
use masters_proj.Logging.{Logger, debug, info, init_logging, with_printed}
use masters_proj.Mem.Gpa.Dump.{MemLine, vm_mem_dump}
use masters_proj.Mem.Gpa.Dump.Lines.{Shows, vm_mem_dump-Shows}
use masters_proj.Mem.Access.{vm_mem_read, vm_mem_write}
use masters_proj.Mem.Access.Abstract.{
  Access, read_at, write_at, run_accesses, run_map, run_accesses-run_map,
}
use masters_proj.Mem.Access.View.{view, Mapped, Holds}
use masters_proj.Mem.Access.Alloc.{Honest, Willing, Below, NewBlock, Allocation}
use masters_proj.Mem.Access.Grant.{
  vm_mem_alloc-Allocation, vm_mem_alloc-NewBlock, find_free_mem_region-le,
}
use masters_proj.Mem.Access.Word.{
  MappedRange, Holds-same, Word, vm_mem_write-full, vm_mem_read-vm_mem_write,
}
use masters_proj.Mem.Paging.{
  Locals, gva_to_gpa, map_page, map_gva, ensure_root, vm_mem_verify, vm_mem_init, decode_gva,
}
use masters_proj.Mem.Paging.Decode.{page_number, decode_gva_parts}
use masters_proj.Mem.Paging.Tree.{Tree, IsTree}
use masters_proj.Mem.Paging.Walk.{gva_to_gpa-IsTree}
use masters_proj.Mem.Paging.Page.{PageStep, map_page-PageStep}
use masters_proj.Mem.Paging.Root.{
  empty_tree, Rooted, root_tree, rooted, root-IsTree, view-root, ensure_root-Rooted,
}
use masters_proj.Mem.Paging.Map.{IsMapped, map_gva-IsMapped}
use masters_proj.Mem.Paging.Verify.{Reachable, vm_mem_verify_iff, gva_to_gpa-unmapped}
use masters_proj.Mem.Paging.Init.{IsIdentity, vm_mem_init-IsIdentity}

-- An address above all blocks in use.
abbrev pub above : List Region → ℕ
above [] = 4096
above (r ∷ rs) = r.hva + r.npages * 4096 + above rs

abbrev pub sample_host : Host
sample_host = record {
  valloc = λ m size. above m.regions;
  fill = λ m a. 0;
  malloc = λ m. true;
  hv_vm_map = λ m hva gpa size. true;
}

pub above-Apart :
    (g n h : ℕ) (rs : List Region)
    → above rs ≤ h
    → All (Apart (record { gpa = g; npages = n; hva = h })) rs
above-Apart g n h [] le = tt
above-Apart g n h (r ∷ rs) le = (inr (omega arith), above-Apart g n h rs (omega arith))

pub above-ne : (rs : List Region) → 0 < above rs
above-ne [] = omega arith
above-ne (r ∷ rs) = omega (arith, above-ne rs)

pub sample-Honest : Honest sample_host
sample-Honest = record {
  fresh = λ m npages g size ne. above-Apart g npages (above m.regions) m.regions (omega arith);
  zeroed = λ m a. refl;
}

pub sample-Willing : Willing sample_host
sample-Willing = record {
  has_memory = λ m size z. absurd (omega (arith, above-ne m.regions));
  has_room = λ m. refl;
  maps_all = λ m hva gpa size. refl;
}

abbrev pub junk : Locals
junk = record { entry = 77; table = 88 }

abbrev pub fresh_mem : Mem
fresh_mem = record { regions = []; pml4 = 0; pml4_gpa = 0; bytes = λ a. 0; log = [] }

abbrev pub one_region : Region
one_region = record { gpa = 0; npages = 1; hva = 4096 }

abbrev pub one_page : Mem
one_page = record { regions = one_region ∷ []; pml4 = 0; pml4_gpa = 0; bytes = λ a. 0; log = [] }

pub one_page-IsValid : IsValid one_page.regions
one_page-IsValid = record {
  layout = (
    omega arith,
    record { nonempty = omega arith; aligned = refl; bounded = omega arith; mapped = omega arith },
    tt,
  );
  separate = (tt, tt);
}

sixteen_pages : IsIdentity junk 16 (vm_mem_init sample_host junk 16 fresh_mem).1
sixteen_pages =
    (vm_mem_init-IsIdentity sample_host junk 16 fresh_mem sample-Honest sample-Willing
      (record { regions = refl; pml4 = refl }) (omega arith) (omega arith)).1

pub one_page-room :
    (g : ℕ) → find_free_mem_region 2 one_page.regions ≡ some g → g + 2 * 4096 < 2 ^ 64
one_page-room g e = omega (
  arith,
  find_free_mem_region-le 2 4096 g one_page.regions (omega arith) one_page-IsValid.layout
      (omega arith, tt) e,
)

vm_mem_init-IsIdentity_example :
    let res = vm_mem_init sample_host junk 16 fresh_mem in
    (res.0 ≡ success) × IsIdentity junk 16 res.1
vm_mem_init-IsIdentity_example =
    vm_mem_init-IsIdentity sample_host junk 16 fresh_mem sample-Honest sample-Willing
      (record { regions = refl; pml4 = refl }) (omega arith) (omega arith)

map_gva-IsMapped_example :
    let res = map_gva sample_host junk 0x400123 2 0x10000 fresh_mem in
    (res.0 ≡ success)
    × IsMapped junk empty_tree (0 + 4096 + 2 * 12288) 0x400000 2 0x10000 fresh_mem res.1
map_gva-IsMapped_example =
    map_gva-IsMapped sample_host junk sample-Honest sample-Willing empty_tree fresh_mem 0 0x400123 2
      0x10000 tt (inr (refl, record { layout = tt; separate = tt }, λ l q. refl)) (omega arith)
      (omega arith) (omega arith) (omega arith) (omega arith)

map_gpa-IsValid_example : IsValid (map_gpa sample_host 0x5000 3 0x20000 one_page).1.regions
map_gpa-IsValid_example =
    map_gpa-IsValid sample_host 0x5000 3 0x20000 one_page one_page-IsValid (omega arith)
      (omega arith) (omega arith) (inr (omega arith), tt)

map_gpa_iff_example :
    ((map_gpa sample_host 0x5000 3 0x20000 one_page).0 ≡ success)
    ↔ Granted sample_host (new_region 0x5000 3 0x20000) one_page
map_gpa_iff_example =
    map_gpa_iff sample_host 0x5000 3 0x20000 one_page one_page-IsValid.layout (omega arith)
      (omega arith)

map_gpa-effect_example :
    let r = new_region 0x5000 3 0x20000 in
    let res = map_gpa sample_host 0x5000 3 0x20000 one_page in
    (res.0 ≡ success → Extends r one_page res.1)
    × (res.0 ≡ failure → SameMemory one_page res.1 × Withdrawn sample_host r one_page res.1.log)
map_gpa-effect_example =
    map_gpa-effect sample_host 0x5000 3 0x20000 one_page one_page-IsValid.layout (omega arith)
      (omega arith)

vm_mem_alloc-Allocation_example : Allocation 2 one_page (vm_mem_alloc sample_host 2 one_page)
vm_mem_alloc-Allocation_example =
    vm_mem_alloc-Allocation sample_host sample-Honest one_page one_page-IsValid 2 (omega arith)
      one_page-room

vm_mem_alloc-NewBlock_example :
    (b : Block) × (m' : Mem) × (vm_mem_alloc sample_host 2 one_page ≡ (some b, m'))
    × NewBlock 2 one_page b m'
vm_mem_alloc-NewBlock_example =
    vm_mem_alloc-NewBlock sample_host sample-Honest one_page one_page-IsValid 2 (omega arith)
      one_page-room (omega arith) sample-Willing

abbrev wanted : ℕ
wanted = 2

abbrev fifth_byte : ℕ
fifth_byte = 4101

find_free_mem_region-lowest_example :
    ((wanted ≡ 0) × (find_free_mem_region 2 one_page.regions ≡ none))
    ⊎ ((g : ℕ) × (0 < 2)
        × (find_free_mem_region 2 one_page.regions ≡ some g)
        × (g % 4096 ≡ 0)
        × IsFree g 2 one_page.regions
        × ((h : ℕ) → IsFree h 2 one_page.regions → g ≤ h))
find_free_mem_region-lowest_example =
    find_free_mem_region-lowest 2 one_page.regions (omega arith) one_page-IsValid.layout

gpa_to_hva-Maps_iff_example :
    ((gpa_to_hva one_page 5 ≡ fifth_byte) × (fifth_byte ≢ 0)) ↔ Maps one_page.regions 5 4101
gpa_to_hva-Maps_iff_example = gpa_to_hva-Maps_iff one_page 5 4101 one_page-IsValid

pub one_page-Mapped : (a : ℕ) → a < 4096 → Mapped one_page a
unfolding gpa_to_hva locate
one_page-Mapped a lt = ground arith

pub one_page-zero : (a : ℕ) → a < 4096 → view one_page a ≡ some 0
unfolding view gpa_to_hva locate
one_page-zero a lt = ground arith

vm_mem_read-vm_mem_write_example :
    vm_mem_read (vm_mem_write 100 (1 ∷ 2 ∷ 3 ∷ []) one_page).1 100 (0 ∷ 0 ∷ 0 ∷ [])
    ≡ (3, 1 ∷ 2 ∷ 3 ∷ [])
vm_mem_read-vm_mem_write_example =
    vm_mem_read-vm_mem_write 100 (1 ∷ 2 ∷ 3 ∷ []) one_page one_page-IsValid
      (λ i lt. one_page-Mapped (100 + i) (omega arith)) (0 ∷ 0 ∷ 0 ∷ []) (omega arith) refl

-- A log, and a page below a gap below two more pages.
abbrev new_log : Logger MemLine
new_log = record { level = info; fildes = none; printed = [] }

abbrev with_gap : Mem
with_gap = record one_page {
  regions =
      record { gpa = 0; npages = 1; hva = 4096 }
      ∷ record { gpa = 0x3000; npages = 2; hva = 0x8000 }
      ∷ [];
}

with_gap-IsValid : IsValid with_gap.regions
with_gap-IsValid = omega arith

vm_mem_dump-Shows_example :
    let l' = init_logging debug none new_log in
    ((debug ≡ debug)
      × ((ls : List MemLine) × (vm_mem_dump with_gap l' ≡ with_printed ls l') × Shows with_gap ls))
    ⊎ ((debug ≢ debug) × (vm_mem_dump with_gap l' ≡ l'))
vm_mem_dump-Shows_example = vm_mem_dump-Shows with_gap debug none new_log with_gap-IsValid

-- A write over the end of the page, and a read of what it left.
abbrev over_the_end : List Access
over_the_end = write_at 4094 (1 ∷ 2 ∷ 3 ∷ []) ∷ read_at 4093 (9 ∷ 9 ∷ 9 ∷ []) ∷ []

run_accesses-run_map_example :
    let r = run_accesses over_the_end one_page in
    (run_map over_the_end (view one_page) ≡ (r.0, view r.1)) × IsValid r.1.regions
run_accesses-run_map_example =
    run_accesses-run_map over_the_end one_page one_page-IsValid (omega arith, (omega arith, tt))

-- Two bytes of three are written, and read again behind a byte that is there.
over_the_end-results :
    (run_accesses over_the_end one_page).0
    ≡ (2, 1 ∷ 2 ∷ 3 ∷ []) ∷ (3, one_page.bytes 8189 ∷ 1 ∷ 2 ∷ []) ∷ []
unfolding run_accesses vm_mem_write vm_mem_read gpa_to_hva locate
over_the_end-results = refl
