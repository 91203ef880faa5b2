-- ===== src/Mem/State.antt =====
-- The globals of src/vm_mem.c, the memory of the host process, and the calls that leave the
-- program: `valloc`, `malloc`, `free`, `hv_vm_map` and `hv_vm_unmap`.
use masters_proj.Prelude.{ℕ, ◌+◌, Bool, ◌&&◌, List, ◌∷◌, leb, ltb, ◌==◌, if◌then◌else◌}

-- CONF_PAGE_SIZE of src/conf.h.
abbrev pub page_size : ℕ
page_size = 0x1000

-- `struct mem_region`, less its `next`: the linked list is a list.
pub record Region : Type 0 where
  pub gpa : ℕ
  pub npages : ℕ
  pub hva : ℕ

-- What the program has asked of the host, the latest first.
pub data HostCall : Type 0 where
  vallocs : (size : ℕ) → HostCall
  mallocs : HostCall
  frees : (hva : ℕ) → HostCall
  maps : (hva gpa size : ℕ) → HostCall
  unmaps : (gpa size : ℕ) → HostCall

-- `mem_regions`, `pml4` (a pointer, 0 for NULL) and `pml4_gpa`; the bytes of the host process by
-- address; and the calls made so far.
pub record Mem : Type 0 where
  pub regions : List Region
  pub pml4 : ℕ
  pub pml4_gpa : ℕ
  pub bytes : ℕ → ℕ
  pub log : List HostCall

-- How the host answers, which may depend on all that happened before: the block that `valloc`
-- returns (0 for NULL) and what its bytes hold, whether `malloc` finds room for a node, and
-- whether `hv_vm_map` returns HV_SUCCESS.
pub record Host : Type 0 where
  pub valloc : Mem → (size : ℕ) → ℕ
  pub fill : Mem → (hva : ℕ) → ℕ
  pub malloc : Mem → Bool
  pub hv_vm_map : Mem → (hva gpa size : ℕ) → Bool

-- What a function returns: 0, or -1.
pub data Status : Type 0 where
  success : Status
  failure : Status

abbrev pub logged : HostCall → Mem → Mem
logged c m = record m { log = c ∷ m.log }

-- `valloc(size)`: its result, and the state after it. A new block holds what the host left there.
abbrev pub call_valloc : Host → ℕ → Mem → ℕ × Mem
call_valloc host size m =
    let hva = host.valloc m size in
    let filled = λ (a : ℕ). if leb hva a && ltb a (hva + size) then host.fill m a else m.bytes a in
    (hva, record m { bytes = if hva == 0 then m.bytes else filled; log = vallocs size ∷ m.log })
