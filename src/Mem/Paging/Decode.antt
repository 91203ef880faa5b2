-- ===== src/Mem/Paging/Decode.antt =====
-- The fields of a guest virtual address, `decode_gva`, as arithmetic; and page table entries.
use masters_proj.Prelude.{ℕ, ◌+◌, ◌*◌, ◌/◌, ◌%◌, ◌^◌, ◌≤◌, ◌<◌, ◌≡◌, arith, bit_and, bit_or, ap}
use masters_proj.Prelude.Bits.{bit_and-low, bit_or-fields, fields-bit_or, frame_mask, page_mask}
use masters_proj.Mem.Paging.{decode_gva, present}

-- The number of a page, of the 48 bits of an address that are translated.
abbrev pub page_number : ℕ → ℕ
page_number gva = gva / 4096 % 2 ^ 36

-- Every index is that of an eight-byte entry in a page, and the offset lies in a page.
pub decode_gva_lem :
    (gva : ℕ)
    → let va = decode_gva gva in
      let n = page_number gva in
      (va.pml4_idx ≡ n / 2 ^ 27 * 8)
      × (va.pdpt_idx ≡ n / 2 ^ 18 % 512 * 8)
      × (va.pd_idx ≡ n / 2 ^ 9 % 512 * 8)
      × (va.pt_idx ≡ n % 512 * 8)
      × (va.offset ≡ gva % 4096)
unfolding decode_gva
decode_gva_lem gva = (
  omega (arith, bit_and-low 9 (gva / 2 ^ 39)),
  omega (arith, bit_and-low 9 (gva / 2 ^ 30)),
  omega (arith, bit_and-low 9 (gva / 2 ^ 21)),
  omega (arith, bit_and-low 9 (gva / 2 ^ 12)),
  omega (arith, bit_and-low 12 gva),
)

-- The five fields of `decode_gva` are in range, and they hold the low 48 bits of the address and
-- nothing else.
pub decode_gva_parts :
    (gva : ℕ)
    → let va = decode_gva gva in
      (va.pml4_idx + 8 ≤ 4096)
      × (va.pdpt_idx + 8 ≤ 4096)
      × (va.pd_idx + 8 ≤ 4096)
      × (va.pt_idx + 8 ≤ 4096)
      × (va.offset < 4096)
      × (va.pml4_idx / 8 * 2 ^ 39
            + va.pdpt_idx / 8 * 2 ^ 30
            + va.pd_idx / 8 * 2 ^ 21
            + va.pt_idx / 8 * 2 ^ 12
            + va.offset
          ≡ gva % 2 ^ 48)
decode_gva_parts gva =
    let (p4, p3, p2, p1, off) = decode_gva_lem gva in
    (omega arith, omega arith, omega arith, omega arith, omega arith, omega arith)

pub present-eq : (t : ℕ) → t % 4096 ≡ 0 → present t ≡ t + 3
present-eq t al =
    let e : t ≡ t / 4096 * 2 ^ 12 = omega arith in
    omega (arith, ap (bit_or 3) e, bit_or-fields 12 3 (t / 4096) (omega arith))

-- What the masks leave of an entry.
pub entry_page : (t : ℕ) → t % 4096 ≡ 0 → t < 2 ^ 52 → bit_and (t + 3) 0xFFFFFFFFFFFFF000 ≡ t
entry_page t al lt = omega (arith, page_mask (t + 3) (omega arith))

pub entry_frame : (t : ℕ) → t % 4096 ≡ 0 → t < 2 ^ 52 → bit_and (t + 3) 0xFFFFFFFFFF000 ≡ t
entry_frame t al lt = omega (arith, frame_mask (t + 3))

pub frame_offset : (t o : ℕ) → t % 4096 ≡ 0 → o < 4096 → bit_or t o ≡ t + o
frame_offset t o al lt =
    let e : t ≡ t / 4096 * 2 ^ 12 = omega arith in
    omega (arith, ap (λ (x : ℕ). bit_or x o) e, fields-bit_or 12 o (t / 4096) lt)
