-- ===== src/Mem/Gpa.antt =====
-- The list of regions of src/vm_mem.c: `find_free_mem_region`, `map_gpa`, `gpa_to_hva` and
-- `vm_mem_alloc`. A `uint64_t` or `size_t` is a number with its wrap written out.
pub mod Layout
pub mod Lookup
pub mod Free
pub mod Map
pub mod Dump
use masters_proj.Prelude.{
  ℕ, ◌+◌, ◌-◌, ◌*◌, ◌%◌, ◌^◌, Bool, true, false, List, [], ◌∷◌, ◌++◌, Option, none, some, bit_and,
  ltb, leb, ◌==◌, if◌then◌else◌, u64, sub64,
}
use masters_proj.Mem.State.{
  page_size, Region, HostCall, mallocs, frees, maps, unmaps, Mem, Host, Status, success, failure,
  logged, call_valloc,
}

-- `npages * CONF_PAGE_SIZE`.
abbrev pub size_of : ℕ → ℕ
size_of npages = u64 (npages * page_size)

-- `p->gpa + p->npages * CONF_PAGE_SIZE`.
abbrev pub region_end : Region → ℕ
region_end p = u64 (p.gpa + size_of p.npages)

-- The loop of `find_free_mem_region`, at a `start` and the regions from `p` on.
unfoldable pub find_free_from : ℕ → ℕ → List Region → ℕ
find_free_from npages start [] = start
find_free_from npages start (p ∷ ps) =
    if leb (size_of npages) (sub64 p.gpa start)
    then start
    else find_free_from npages (region_end p) ps

-- `none` is the result -1, on which `*gpa` is not written.
unfoldable pub find_free_mem_region : ℕ → List Region → Option ℕ
unfolding find_free_from
find_free_mem_region npages regions =
    if ltb npages 1 then none else some (find_free_from npages 0 regions)

-- The loop of `map_gpa` leaves its pointer `p` between the regions that it passed ...
unfoldable pub passed : ℕ → List Region → List Region
passed gpa [] = []
passed gpa (p ∷ ps) = if leb (region_end p) gpa then p ∷ passed gpa ps else []

-- ... and those from `*p` on.
unfoldable pub reached : ℕ → List Region → List Region
reached gpa [] = []
reached gpa (p ∷ ps) = if leb (region_end p) gpa then reached gpa ps else p ∷ ps

-- Whether `next` is set: `*p` is NULL, or begins behind the new region.
abbrev pub has_next : ℕ → List Region → Bool
has_next end [] = true
has_next end (p ∷ ps) = leb end p.gpa

-- The node from `malloc` is linked between `*p` and `next`; without one the mapping is undone.
unfoldable pub link_region : Host → Region → Mem → Status × Mem
unfolding passed reached
link_region host new m =
    let m' = logged mallocs m in
    if host.malloc m
    then (
      success,
      record m' { regions = passed new.gpa m.regions ++ new ∷ reached new.gpa m.regions },
    )
    else (failure, logged (unmaps new.gpa (size_of new.npages)) m')

-- `hv_vm_map`, and what follows it.
unfoldable pub install_region : Host → Region → Mem → Status × Mem
unfolding link_region
install_region host new m =
    let m' = logged (maps new.hva new.gpa (size_of new.npages)) m in
    if host.hv_vm_map m new.hva new.gpa (size_of new.npages)
    then link_region host new m'
    else (failure, m')

unfoldable pub map_gpa : Host → (gpa npages hva : ℕ) → Mem → Status × Mem
unfolding reached install_region
map_gpa host gpa npages hva m =
    let base = bit_and gpa 0xFFFFFFFFFFFFF000 in
    if ltb npages 1
    then (failure, m)
    else if has_next (u64 (base + size_of npages)) (reached base m.regions)
    then install_region host (record { gpa = base; npages = npages; hva = hva }) m
    else (failure, m)

-- The loop of `gpa_to_hva`; 0 is NULL.
unfoldable pub locate : ℕ → List Region → ℕ
locate gpa [] = 0
locate gpa (p ∷ ps) =
    if leb p.gpa gpa
    then (if ltb gpa (region_end p) then p.hva + (gpa - p.gpa) else locate gpa ps)
    else 0

unfoldable pub gpa_to_hva : Mem → ℕ → ℕ
unfolding locate
gpa_to_hva m gpa = locate gpa m.regions

-- What `vm_mem_alloc` returns and stores at `gpa`.
pub record Block : Type 0 where
  pub hva : ℕ
  pub gpa : ℕ

-- What follows `map_gpa` of the new block: on failure the block is given back.
abbrev pub keep_block : Block → Status × Mem → Option Block × Mem
keep_block b (success, m) = (some b, m)
keep_block b (failure, m) = (none, logged (frees b.hva) m)

-- `vm_mem_alloc` with the result `hva` of `valloc` for a free region at `gpa`.
unfoldable pub use_block : Host → (npages gpa hva : ℕ) → Mem → Option Block × Mem
use_block host npages gpa hva m =
    if hva == 0
    then (none, logged (frees 0) m)
    else keep_block (record { hva = hva; gpa = gpa }) (map_gpa host gpa npages hva m)

-- `vm_mem_alloc` after a free region was found at `gpa`.
unfoldable pub alloc_at : Host → (npages gpa : ℕ) → Mem → Option Block × Mem
alloc_at host npages gpa m =
    let got = call_valloc host (size_of npages) m in use_block host npages gpa got.0 got.1

-- `none` is the result NULL, on which `*gpa` is not written.
unfoldable pub vm_mem_alloc : Host → ℕ → Mem → Option Block × Mem
vm_mem_alloc host npages m = elim (find_free_mem_region npages m.regions) [
  | none ↦ (none, logged (frees 0) m)
  | some gpa ↦ alloc_at host npages gpa m
]
