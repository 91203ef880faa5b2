-- ===== src/Mem/Tests/Tables.antt =====
-- The theorems on page tables at concrete states: the root table of a new guest, and one beside a
-- page of zeros at address 0.
use masters_proj.Prelude.{
  ℕ, ◌+◌, ◌*◌, ◌/◌, ◌%◌, ◌^◌, ◌≤◌, ◌<◌, ◌≡◌, refl, ◌↔◌, inr, some, arith, ◌∙◌,
}
use masters_proj.Mem.State.{Mem, success}
use masters_proj.Mem.Gpa.{Block, vm_mem_alloc}
use masters_proj.Mem.Access.View.{view, view-Mapped}
use masters_proj.Mem.Access.Alloc.{NewBlock}
use masters_proj.Mem.Access.Grant.{vm_mem_alloc-NewBlock, find_free_mem_region-le}
use masters_proj.Mem.Access.Word.{Holds-zeros, Word}
use masters_proj.Mem.Paging.{gva_to_gpa, map_page, ensure_root, vm_mem_verify, decode_gva}
use masters_proj.Mem.Paging.Decode.{page_number, decode_gva_parts}
use masters_proj.Mem.Paging.Walk.{gva_to_gpa-IsTree}
use masters_proj.Mem.Paging.Page.{PageStep, map_page-PageStep}
use masters_proj.Mem.Paging.Root.{
  empty_tree, Rooted, root_tree, rooted, root-IsTree, view-root, ensure_root-Rooted,
}
use masters_proj.Mem.Paging.Verify.{Reachable, vm_mem_verify_iff, gva_to_gpa-unmapped}
use masters_proj.Mem.Tests.{
  sample_host, sample-Honest, sample-Willing, junk, fresh_mem, one_page, one_page-IsValid,
  one_page-Mapped, one_page-zero,
}

start : Rooted empty_tree 0 fresh_mem (ensure_root sample_host fresh_mem)
start =
    ensure_root-Rooted sample_host sample-Honest sample-Willing empty_tree fresh_mem 0 tt
      (omega arith) (inr (refl, record { layout = tt; separate = tt }, λ l q. refl))

abbrev start_mem : Mem
start_mem = (ensure_root sample_host fresh_mem).1

one_entry :
    PageStep start.T'
      (4096 + 3 * 4096)
      (page_number 0x400123)
      0x2000
      start_mem
      (map_page sample_host junk 0x400123 0x2000 start_mem)
one_entry =
    map_page-PageStep sample_host junk sample-Honest sample-Willing start.T' start_mem 4096 0x400123
      0x2000 start.tree start.below (omega arith) (omega arith) (omega arith)

gva_to_gpa-IsTree_example :
    gva_to_gpa junk (map_page sample_host junk 0x400123 0x2000 start_mem) 0x400123
    ≡ 0x2000 + 0x400123 % 4096
gva_to_gpa-IsTree_example =
    gva_to_gpa-IsTree junk one_entry.T' (map_page sample_host junk 0x400123 0x2000 start_mem)
      0x400123 0x2000 one_entry.tree one_entry.at

decode_gva_parts_example :
    let va = decode_gva 0x7fff5fc22bee in
    (va.pml4_idx + 8 ≤ 4096)
    × (va.pdpt_idx + 8 ≤ 4096)
    × (va.pd_idx + 8 ≤ 4096)
    × (va.pt_idx + 8 ≤ 4096)
    × (va.offset < 4096)
    × (va.pml4_idx / 8 * 2 ^ 39
          + va.pdpt_idx / 8 * 2 ^ 30
          + va.pd_idx / 8 * 2 ^ 21
          + va.pt_idx / 8 * 2 ^ 12
          + va.offset
        ≡ 0x7fff5fc22bee % 2 ^ 48)
decode_gva_parts_example = decode_gva_parts 0x7fff5fc22bee

vm_mem_verify_iff_example :
    (vm_mem_verify junk start_mem 0x7000 3 ≡ success)
    ↔ ((i : ℕ) → i < 3 → Reachable junk start_mem 0x7000 i)
vm_mem_verify_iff_example = vm_mem_verify_iff junk start_mem 0x7000 3 (omega arith)

-- A root table that is allocated behind page zero.
beside :
    (b : Block) × (m' : Mem) × (vm_mem_alloc sample_host 1 one_page ≡ (some b, m'))
    × NewBlock 1 one_page b m'
beside =
    vm_mem_alloc-NewBlock sample_host sample-Honest one_page one_page-IsValid 1 (omega arith)
      (λ g e. omega (
        arith,
        find_free_mem_region-le 1 4096 g one_page.regions (omega arith) one_page-IsValid.layout
            (omega arith, tt) e,
      ))
      (omega arith) sample-Willing

abbrev beside_mem : Mem
beside_mem = rooted beside.1 beside.0

beside-zero : (a : ℕ) → a < 4096 → view beside_mem a ≡ some 0
beside-zero a lt =
    view-root beside.1 beside.0.hva beside.0.gpa a
    ∙ (beside.3.old a (one_page-Mapped a lt)).1
    ∙ one_page-zero a lt

gva_to_gpa-unmapped_example :
    (gva_to_gpa junk beside_mem (2 ^ 39 + 5) ≡ 5)
    × (vm_mem_verify junk beside_mem (2 ^ 39 + 5) 1 ≡ success)
unfolding decode_gva
gva_to_gpa-unmapped_example =
    gva_to_gpa-unmapped junk (root_tree beside.0.gpa) beside_mem (2 ^ 39 + 5)
      (root-IsTree one_page beside.1 beside.0 beside.3
        (omega (arith, (beside.3.below 4096 (omega arith, tt)).0)))
      (omega arith) refl page_zero page_zero page_zero
      (view-Mapped beside_mem 5 0 (beside-zero 5 (omega arith)))
  where
    page_zero : Word beside_mem 0 0
    page_zero = Holds-zeros beside_mem 0 8 λ c lo hi. beside-zero c (omega arith)
