-- ===== src/Mem/Access/Abstract.antt =====
-- What reads and writes of guest memory promise: a partial map from addresses to bytes, with no
-- regions and no host memory. The functions of src/vm_mem.c implement it.
use masters_proj.Prelude.{
  ℕ, suc, ◌+◌, ◌≡◌, refl, ap, sym, ◌∙◌, subst, List, [], ◌∷◌, Option, some, none, arith, ◌==◌,
  if◌then◌else◌, u64, ne→==-false, All, length, ◌<◌, ◌^◌,
}
use native.Mathlib.Decide.{ℕ_discrete}
use masters_proj.Mem.State.{Mem}
use masters_proj.Mem.Gpa.{gpa_to_hva}
use masters_proj.Mem.Gpa.Layout.{IsValid}
use masters_proj.Mem.Access.{poke, vm_mem_read, vm_mem_write}
use masters_proj.Mem.Access.View.{view, view-poke, Mapped-lt, vm_mem_write-Written}
use masters_proj.Mem.Access.Alloc.{view-of}

abbrev pub PartialMap : Type 0
PartialMap = ℕ → Option ℕ

-- A read into a buffer, and a write: how many bytes, and the buffer or the map after it. Both stop
-- at the first address that has no byte.
abbrev read_byte : Option ℕ → (buf : List ℕ) → ℕ × List ℕ → ℕ × List ℕ
read_byte none buf rest = (0, buf)
read_byte (some x) buf rest = (suc rest.0, x ∷ rest.1)

unfoldable pub read_map : PartialMap → ℕ → List ℕ → ℕ × List ℕ
read_map v a [] = (0, [])
read_map v a (b ∷ bs) = read_byte (v a) (b ∷ bs) (read_map v (a + 1) bs)

abbrev pub set_byte : ℕ → ℕ → PartialMap → PartialMap
set_byte a b v c = if a == c then some b else v c

abbrev write_byte : Option ℕ → PartialMap → ℕ × PartialMap → ℕ × PartialMap
write_byte none v rest = (0, v)
write_byte (some x) v rest = (suc rest.0, rest.1)

unfoldable pub write_map : ℕ → List ℕ → PartialMap → ℕ × PartialMap
write_map a [] v = (0, v)
write_map a (b ∷ bs) v = write_byte (v a) v (write_map (a + 1) bs (set_byte a b v))

view-null : (m : Mem) (a : ℕ) → gpa_to_hva m a ≡ 0 → view m a ≡ none
unfolding view
view-null m a e = rw e refl

-- One read.
pub vm_mem_read-read_map :
    (m : Mem) (a : ℕ) (buf : List ℕ)
    → IsValid m.regions
    → vm_mem_read m a buf ≡ read_map (view m) a buf
unfolding vm_mem_read read_map
vm_mem_read-read_map m a [] v = refl
vm_mem_read-read_map m a (b ∷ bs) v = elim (ℕ_discrete (gpa_to_hva m a) 0) [
  | yes null ↦ rw (null, view-null m a null) refl
  | no found ↦
      let next : u64 (a + 1) ≡ a + 1 = omega (arith, Mapped-lt m a v found) in
      let rest = vm_mem_read-read_map m (a + 1) bs v in
      rw (next, ne→==-false _ 0 found, view-of m a _ _ refl found refl)
        (ap (λ p. (suc p.0, m.bytes (gpa_to_hva m a) ∷ p.1)) rest)
]

-- One write.
vm_mem_write-write_map :
    (a : ℕ) (bs : List ℕ) (m : Mem)
    → IsValid m.regions
    → let r = vm_mem_write a bs m in write_map a bs (view m) ≡ (r.0, view r.1)
unfolding vm_mem_write write_map
vm_mem_write-write_map a [] m v = refl
vm_mem_write-write_map a (b ∷ bs) m v = elim (ℕ_discrete (gpa_to_hva m a) 0) [
  | yes null ↦ rw (null, view-null m a null) refl
  | no found ↦
      let next : u64 (a + 1) ≡ a + 1 = omega (arith, Mapped-lt m a v found) in
      let m' = poke m (gpa_to_hva m a) b in
      let same : set_byte a b (view m) ≡ view m' = λ i c. sym (view-poke m a b c v found) i in
      let rest = vm_mem_write-write_map (a + 1) bs m' v in
      rw (next, ne→==-false _ 0 found, view-of m a _ _ refl found refl)
        (ap (λ p. (suc p.0, p.1)) (ap (write_map (a + 1) bs) same ∙ rest))
]

-- A read or a write, as the rest of the program makes them, and a sequence of them. The result of
-- an access is the number of bytes and the buffer after it.
pub data Access : Type 0 where
  read_at : (gpa : ℕ) (buf : List ℕ) → Access
  write_at : (gpa : ℕ) (buf : List ℕ) → Access

abbrev pub Result : Type 0
Result = ℕ × List ℕ

abbrev access : Access → Mem → Result × Mem
access (read_at gpa buf) m = (vm_mem_read m gpa buf, m)
access (write_at gpa buf) m = let r = vm_mem_write gpa buf m in ((r.0, buf), r.1)

abbrev access_map : Access → PartialMap → Result × PartialMap
access_map (read_at gpa buf) v = (read_map v gpa buf, v)
access_map (write_at gpa buf) v = let r = write_map gpa buf v in ((r.0, buf), r.1)

unfoldable pub run_accesses : List Access → Mem → List Result × Mem
run_accesses [] m = ([], m)
run_accesses (o ∷ os) m =
    let r = access o m in let rest = run_accesses os r.1 in (r.0 ∷ rest.0, rest.1)

unfoldable pub run_map : List Access → PartialMap → List Result × PartialMap
run_map [] v = ([], v)
run_map (o ∷ os) v = let r = access_map o v in let rest = run_map os r.1 in (r.0 ∷ rest.0, rest.1)

-- One access of either kind.
access-access_map :
    (o : Access) (m : Mem)
    → IsValid m.regions
    → let r = access o m in (access_map o (view m) ≡ (r.0, view r.1)) × IsValid r.1.regions
access-access_map (read_at gpa buf) m v =
    (ap (λ r. (r, view m)) (sym (vm_mem_read-read_map m gpa buf v)), v)
access-access_map (write_at gpa buf) m v = (
  ap (λ r. ((r.0, buf), r.1)) (vm_mem_write-write_map gpa buf m v),
  subst IsValid (sym (vm_mem_write-Written gpa buf m v).regions) v,
)

-- The bytes that an access asks for.
abbrev pub length_of : Access → ℕ
length_of (read_at gpa buf) = length buf
length_of (write_at gpa buf) = length buf

-- From a state with well-formed regions, any sequence of reads and writes by `vm_mem_read` and
-- `vm_mem_write`, each of less than 2 ^ 31 bytes, gives the results that the same sequence gives on
-- the partial map from guest addresses to bytes, leaves memory that is the map which that sequence
-- leaves, and leaves the regions well formed.
pub run_accesses-run_map :
    (os : List Access) (m : Mem)
    → IsValid m.regions
    → All (λ o. length_of o < 2 ^ 31) os
    → let r = run_accesses os m in (run_map os (view m) ≡ (r.0, view r.1)) × IsValid r.1.regions
unfolding run_accesses run_map
run_accesses-run_map [] m v short = (refl, v)
run_accesses-run_map (o ∷ os) m v short =
    let (one, v₁) = access-access_map o m v in
    let m₁ = (access o m).1 in
    let (rest, v₂) = run_accesses-run_map os m₁ v₁ short.1 in
    (
      ap (λ p. let q = run_map os p.1 in (p.0 ∷ q.0, q.1)) one
          ∙ ap (λ q. ((access o m).0 ∷ q.0, q.1)) rest,
      v₂,
    )
