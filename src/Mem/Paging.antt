-- ===== src/Mem/Paging.antt =====
-- The guest page tables of src/vm_mem.c: `decode_gva`, `map_gva`, `gva_to_gpa`, `vm_mem_verify`
-- and `vm_mem_init`.
pub mod Decode
pub mod Tree
pub mod Entry
pub mod Level
pub mod Walk
pub mod Page
pub mod Root
pub mod Map
pub mod Verify
pub mod Init
use masters_proj.Prelude.{
  ℕ, zero, suc, ◌+◌, ◌*◌, ◌/◌, ◌^◌, Option, none, some, bit_and, bit_or, ◌==◌, if◌then◌else◌, u64,
  u16,
}
use masters_proj.Mem.State.{page_size, Mem, Host, Status, success, failure}
use masters_proj.Mem.Gpa.{Block, gpa_to_hva, vm_mem_alloc}
use masters_proj.Mem.Access.{read64, write64}

-- `struct virtual_address`.
pub record VirtualAddress : Type 0 where
  pub pml4_idx : ℕ
  pub pdpt_idx : ℕ
  pub pd_idx : ℕ
  pub pt_idx : ℕ
  pub offset : ℕ

unfoldable pub decode_gva : ℕ → VirtualAddress
decode_gva gva = record {
  pml4_idx = u16 (bit_and (gva / 2 ^ 39) 0x1FF * 8);
  pdpt_idx = u16 (bit_and (gva / 2 ^ 30) 0x1FF * 8);
  pd_idx = u16 (bit_and (gva / 2 ^ 21) 0x1FF * 8);
  pt_idx = u16 (bit_and (gva / 2 ^ 12) 0x1FF * 8);
  offset = bit_and gva 0xFFF;
}

-- What the locals of `map_gva` and of `gva_to_gpa` hold before they are set: it shows where the
-- code may read one.
pub record Locals : Type 0 where
  pub entry : ℕ
  pub table : ℕ

-- `0 | PRESENT | WRITE | gpa`.
abbrev pub present : ℕ → ℕ
present gpa = bit_or (bit_or (bit_or 0 0x1) 0x2) gpa

-- `vm_mem_alloc(1, &gpa)`, whose result is ignored: on failure the local stays as it was.
abbrev pub block_gpa : ℕ → Option Block → ℕ
block_gpa old none = old
block_gpa old (some b) = b.gpa

unfoldable pub alloc_table : Host → (old : ℕ) → Mem → ℕ × Mem
alloc_table host old m = let r = vm_mem_alloc host 1 m in (block_gpa old r.0, r.1)

-- The step that `map_gva` takes at each of the three upper levels: read the entry at `slot`, make
-- a table if there is none, and write the entry back. The result is the table's address.
unfoldable pub next_table : Host → Locals → (slot : ℕ) → Mem → ℕ × Mem
unfolding alloc_table
next_table host locals slot m =
    let entry = read64 m slot locals.entry in
    let r =
      if entry == 0
      then alloc_table host locals.table m
      else (bit_and entry 0xFFFFFFFFFFFFF000, m) in
    (r.0, write64 slot (present r.0) r.1)

-- The body of the loop of `map_gva`.
unfoldable pub map_page : Host → Locals → (gva gpa : ℕ) → Mem → Mem
map_page host locals gva gpa m =
    let va = decode_gva gva in
    let pdpt = next_table host locals (u64 (m.pml4_gpa + va.pml4_idx)) m in
    let pd = next_table host locals (u64 (pdpt.0 + va.pdpt_idx)) pdpt.1 in
    let pt = next_table host locals (u64 (pd.0 + va.pd_idx)) pd.1 in
    write64 (u64 (pt.0 + va.pt_idx)) (present (bit_and gpa 0xFFFFFFFFFFFFF000)) pt.1

-- Its loop.
unfoldable pub map_pages : Host → Locals → (npages gva gpa : ℕ) → Mem → Mem
map_pages host locals zero gva gpa m = m
map_pages host locals (suc n) gva gpa m =
    map_pages host locals n (u64 (gva + page_size)) (u64 (gpa + page_size))
      (map_page host locals gva gpa m)

-- The root table is allocated at the first call. `pml4` is 0 if that fails.
abbrev pub set_root : Option Block × Mem → Status × Mem
set_root (none, m) = (failure, record m { pml4 = 0 })
set_root (some b, m) = (success, record m { pml4 = b.hva; pml4_gpa = b.gpa })

unfoldable pub ensure_root : Host → Mem → Status × Mem
ensure_root host m = if m.pml4 == 0 then set_root (vm_mem_alloc host 1 m) else (success, m)

abbrev pub and_then : Status × Mem → (Mem → Status × Mem) → Status × Mem
and_then (success, m) k = k m
and_then (failure, m) k = (failure, m)

unfoldable pub map_gva : Host → Locals → (gva npages gpa : ℕ) → Mem → Status × Mem
map_gva host locals gva npages gpa m =
    let gva' = bit_and gva 0xFFFFFFFFFFFFF000 in
    let gpa' = bit_and gpa 0xFFFFFFFFFFFFF000 in
    and_then (ensure_root host m) λ m'. (success, map_pages host locals npages gva' gpa' m')

-- The walk. A read that comes up short leaves bytes of the former entry.
unfoldable pub gva_to_gpa : Locals → Mem → ℕ → ℕ
gva_to_gpa locals m gva =
    let va = decode_gva gva in
    let pml4e = read64 m (u64 (m.pml4_gpa + va.pml4_idx)) locals.entry in
    let pdpte = read64 m (u64 (bit_and pml4e 0xFFFFFFFFFF000 + va.pdpt_idx)) pml4e in
    let pde = read64 m (u64 (bit_and pdpte 0xFFFFFFFFFF000 + va.pd_idx)) pdpte in
    let pte = read64 m (u64 (bit_and pde 0xFFFFFFFFFF000 + va.pt_idx)) pde in
    bit_or (bit_and pte 0xFFFFFFFFFF000) va.offset

unfoldable pub vm_mem_verify : Locals → Mem → (gva nbytes : ℕ) → Status
vm_mem_verify locals m gva zero = success
vm_mem_verify locals m gva (suc n) =
    if gpa_to_hva m (gva_to_gpa locals m gva) == 0
    then failure
    else vm_mem_verify locals m (u64 (gva + 1)) n

-- `vm_mem_init` after its allocation: the block must lie at address 0, and is mapped there.
abbrev pub init_block : Host → Locals → ℕ → Option Block × Mem → Status × Mem
init_block host locals num_pages (none, m) = (failure, m)
init_block host locals num_pages (some b, m) =
    if b.gpa == 0 then map_gva host locals 0 num_pages b.gpa m else (failure, m)

unfoldable pub vm_mem_init : Host → Locals → ℕ → Mem → Status × Mem
vm_mem_init host locals num_pages m =
    init_block host locals num_pages (vm_mem_alloc host num_pages m)
