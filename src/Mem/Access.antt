-- ===== src/Mem/Access.antt =====
-- Byte access to guest memory in src/vm_mem.c: `vm_mem_read` and `vm_mem_write`.
pub mod View
pub mod Alloc
pub mod Grant
pub mod Word
pub mod Abstract
use masters_proj.Prelude.{ℕ, suc, ◌+◌, List, [], ◌∷◌, ◌==◌, if◌then◌else◌, u64, leb}
use masters_proj.Prelude.Bytes.{le_bytes, le_value}
use masters_proj.Mem.State.{Mem}
use masters_proj.Mem.Gpa.{gpa_to_hva}

-- `*hva = v`.
abbrev pub poke : Mem → ℕ → ℕ → Mem
poke m hva v = record m { bytes = λ a. if a == hva then v else m.bytes a }

-- The loop over a buffer with the contents `buf`: how many bytes were read, and the buffer after it.
unfoldable pub vm_mem_read : Mem → (gpa : ℕ) → (buf : List ℕ) → ℕ × List ℕ
vm_mem_read m gpa [] = (0, [])
vm_mem_read m gpa (b ∷ bs) =
    let hva = gpa_to_hva m gpa in
    let rest = vm_mem_read m (u64 (gpa + 1)) bs in
    if hva == 0 then (0, b ∷ bs) else (suc rest.0, m.bytes hva ∷ rest.1)

-- How many bytes were written, and the state after it.
unfoldable pub vm_mem_write : (gpa : ℕ) → (buf : List ℕ) → Mem → ℕ × Mem
vm_mem_write gpa [] m = (0, m)
vm_mem_write gpa (b ∷ bs) m =
    let hva = gpa_to_hva m gpa in
    let rest = vm_mem_write (u64 (gpa + 1)) bs (poke m hva b) in
    if hva == 0 then (0, m) else (suc rest.0, rest.1)

-- A read into a `uint64_t` that holds `old`, and a write of one.
unfoldable pub read64 : Mem → (gpa old : ℕ) → ℕ
unfolding vm_mem_read
read64 m gpa old = le_value (vm_mem_read m gpa (le_bytes 8 old)).1

unfoldable pub write64 : (gpa v : ℕ) → Mem → Mem
unfolding vm_mem_write
write64 gpa v m = (vm_mem_write gpa (le_bytes 8 v) m).1
