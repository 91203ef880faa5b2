-- ===== src/Cpu/Syscall/Buffer.antt =====
-- The buffer that a system call hands to the host.
use masters_proj.Prelude.{
  ℕ, ◌+◌, ◌*◌, ◌/◌, ◌%◌, ◌^◌, ◌<◌, ◌≡◌, refl, arith, ap, ◌∙◌, some, bit_and, List, [], ◌∷◌, u64,
}
use masters_proj.Prelude.Bits.{frame_mask}
use masters_proj.Mem.State.{Region, Mem}
use masters_proj.Mem.Gpa.{gpa_to_hva}
use masters_proj.Mem.Gpa.Layout.{IsValid, Layout, end_of}
use masters_proj.Mem.Gpa.Lookup.{Maps, here, there, gpa_to_hva-Maps_iff}
use masters_proj.Mem.Access.{read64}
use masters_proj.Mem.Access.View.{view, Mapped}
use masters_proj.Mem.Access.Alloc.{view-of}
use masters_proj.Mem.Paging.{Locals, gva_to_gpa}
use masters_proj.Mem.Paging.Decode.{page_number, decode_gva_lem, frame_offset}
use masters_proj.Cpu.Syscall.{Env, Machine, host_address}

-- The last entry of a walk, and its frame.
abbrev entry_at : Locals → Mem → (i4 i3 i2 i1 : ℕ) → ℕ
entry_at locals m i4 i3 i2 i1 =
    let pml4e = read64 m (u64 (m.pml4_gpa + i4)) locals.entry in
    let pdpte = read64 m (u64 (bit_and pml4e 0xFFFFFFFFFF000 + i3)) pml4e in
    let pde = read64 m (u64 (bit_and pdpte 0xFFFFFFFFFF000 + i2)) pdpte in
    read64 m (u64 (bit_and pde 0xFFFFFFFFFF000 + i1)) pde

-- The page that a walk ends at.
abbrev frame_of : Locals → Mem → (n : ℕ) → ℕ
frame_of locals m n =
    bit_and
      (entry_at locals m (n / 2 ^ 27 * 8) (n / 2 ^ 18 % 512 * 8) (n / 2 ^ 9 % 512 * 8)
        (n % 512 * 8))
      0xFFFFFFFFFF000

-- A walk depends on the page number; the offset is added at the end.
gva_to_gpa-offset :
    (locals : Locals) (m : Mem) (gva : ℕ)
    → gva_to_gpa locals m gva ≡ frame_of locals m (page_number gva) + gva % 4096
unfolding gva_to_gpa
gva_to_gpa-offset locals m gva =
    let (i4, i3, i2, i1, off) = decode_gva_lem gva in
    let n = page_number gva in
    let e =
      entry_at locals m (n / 2 ^ 27 * 8) (n / 2 ^ 18 % 512 * 8) (n / 2 ^ 9 % 512 * 8)
        (n % 512 * 8) in
    rw (i4, i3, i2, i1, off)
      (frame_offset (frame_of locals m n) (gva % 4096) (omega (arith, frame_mask e)) (omega arith))

-- Addresses of one page are translated to addresses of one page.
pub gva_to_gpa-page :
    (locals : Locals) (m : Mem) (gva i : ℕ)
    → gva % 4096 + i < 4096
    → (gva_to_gpa locals m (gva + i) ≡ gva_to_gpa locals m gva + i)
      × (gva_to_gpa locals m gva % 4096 + i < 4096)
gva_to_gpa-page locals m gva i lt =
    let same : page_number (gva + i) ≡ page_number gva = omega arith in
    let off : (gva + i) % 4096 ≡ gva % 4096 + i = omega arith in
    let n = page_number gva in
    let e =
      entry_at locals m (n / 2 ^ 27 * 8) (n / 2 ^ 18 % 512 * 8) (n / 2 ^ 9 % 512 * 8)
        (n % 512 * 8) in
    let a = gva_to_gpa-offset locals m gva in
    let b = gva_to_gpa-offset locals m (gva + i) in
    (
      b ∙ ap (λ k. frame_of locals m k + (gva + i) % 4096) same ∙ omega (arith, a),
      omega (arith, a, frame_mask e),
    )

-- A page lies in one region.
pub Maps-page :
    {a h : ℕ} (i lo : ℕ) (rs : List Region)
    → Layout lo rs
    → a % 4096 + i < 4096
    → Maps rs a h
    → Maps rs (a + i) (h + i)
Maps-page i lo [] l lt mm = elim mm [ ]
Maps-page i lo (r ∷ rs) l lt (here b) = here (record {
  above = omega (arith, b.above);
  below = omega (arith, b.below, b.above, l.1.aligned);
  at = omega (arith, b.at, b.above);
})
Maps-page i lo (r ∷ rs) l lt (there mm) = there (Maps-page i (end_of r) rs l.2 lt mm)

-- In a state with well-formed regions, bytes of a guest buffer that lies in one page stand one
-- after the other in the host: where its first byte is mapped, the pointer that a system call
-- hands to the host for it, plus `i`, is where the byte `i` of the buffer is kept, and so what the
-- guest sees there.
pub host_address-page :
    (env : Env) (s : Machine env) (gva i : ℕ)
    → IsValid s.mem.regions
    → Mapped s.mem (gva_to_gpa env.locals s.mem gva)
    → gva % 4096 + i < 4096
    → (host_address env s (gva + i) ≡ host_address env s gva + i)
      × (view s.mem (gva_to_gpa env.locals s.mem (gva + i))
          ≡ some (s.mem.bytes (host_address env s gva + i)))
host_address-page env s gva i v h lt =
    let g = gva_to_gpa env.locals s.mem gva in
    let (e, room) = gva_to_gpa-page env.locals s.mem gva i lt in
    let mm = (gpa_to_hva-Maps_iff s.mem g _ v).0 (refl, h) in
    let (at, ne) =
      (gpa_to_hva-Maps_iff s.mem (g + i) _ v).1 (Maps-page i 0 s.mem.regions v.layout room mm) in
    let to = ap (gpa_to_hva s.mem) e ∙ at in
    (to, ap (view s.mem) e ∙ view-of s.mem (g + i) _ _ at ne refl)
