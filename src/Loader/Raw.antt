-- ===== src/Loader/Raw.antt =====
-- `load_raw`: what it writes, and that it gives back what it took.
use native.Mathlib.Decide.{ℕ_discrete}
use mathlib.Core.List.{append_assoc}
use masters_proj.Mem.Access.Grant.{same-hva}
use masters_proj.Prelude.{
  Option-cases, ℕ, ◌+◌, ◌≤◌, ◌<◌, ◌^◌, ◌≢◌, ◌≡◌, refl, ◌⊎◌, inl, inr, true, List, [], ◌∷◌, ◌++◌,
  Option, none, some, ◌==◌, arith, sym, ◌∙◌, ap, length, ne→==-false,
}
use masters_proj.Prelude.Bytes.{slice, length-slice}
use masters_proj.Mem.State.{Mem, success}
use masters_proj.Mem.Gpa.Layout.{IsValid}
use masters_proj.Mem.Access.{vm_mem_write}
use masters_proj.Mem.Access.View.{vm_mem_write-Written, view, Holds}
use masters_proj.Mem.Access.Word.{MappedRange, vm_mem_write-full}
use masters_proj.Loader.Pages.{IsFile, after_mmap, view-after_mmap, slice-after_mmap}
use masters_proj.Loader.{
  System, FileCall, opens, closes, mmaps, munmaps, World, called, copy_raw, map_raw, read_raw,
  load_raw, map_failed,
}

-- Calls, the latest first, that give back all that they take, in the order of brackets: what
-- `munmap` gets is a mapping.
pub data IsBalanced : List FileCall → Type 0 where
  nothing : IsBalanced []
  failed_mmap : (hva size : ℕ) → hva ≡ 0 → IsBalanced (mmaps hva size ∷ [])
  mapped :
      (hva size : ℕ)
      → hva ≢ 0
      → hva ≢ map_failed
      → IsBalanced (munmaps hva size ∷ mmaps hva size ∷ [])
  file : {c : List FileCall} (fd : ℕ) → IsBalanced c → IsBalanced (closes fd ∷ c ++ opens fd ∷ [])

-- A stretch of calls after those of `w` that is balanced.
pub record Balances (w w' : World) : Type 0 where
  pub since : List FileCall
  pub added : w'.calls ≡ since ++ w.calls
  pub balanced : IsBalanced since

-- What `load_raw` leaves: the file's bytes at `gpa`, and all else as it was.
pub record RawLoaded (gpa size : ℕ) (contents : ℕ → ℕ) (m m' : Mem) : Type 0 where
  pub holds : Holds m' gpa (slice contents 0 size)
  pub outside : (c : ℕ) → (c < gpa) ⊎ (gpa + size ≤ c) → view m' c ≡ view m c
  pub regions : m'.regions ≡ m.regions
  pub pml4 : (m'.pml4 ≡ m.pml4) × (m'.pml4_gpa ≡ m.pml4_gpa)

module _ (sys : System) where
  map_raw-Balances :
      (gpa fd st_size : ℕ) (w : World)
      → (sys.mmap w.mem st_size (some fd)).0 ≢ map_failed
      → Balances w (map_raw sys gpa fd st_size w).1
  unfolding map_raw copy_raw
  map_raw-Balances gpa fd st_size w known =
      let buf = (sys.mmap w.mem st_size (some fd)).0 in
      elim (ℕ_discrete buf 0) [
        | yes null ↦ rw null (record {
          since = mmaps 0 st_size ∷ [];
          added = refl;
          balanced = failed_mmap 0 st_size refl;
        })
        | no ne ↦ rw (ne→==-false buf 0 ne) (record {
          since = munmaps buf st_size ∷ mmaps buf st_size ∷ [];
          added = refl;
          balanced = mapped buf st_size ne known;
        })
      ]

  Balances-file :
      (fd : ℕ) (w w' : World)
      → Balances (called (opens fd) w) w'
      → Balances w (called (closes fd) w')
  Balances-file fd w w' b = record {
    since = closes fd ∷ b.since ++ opens fd ∷ [];
    added =
        ap (λ cs. closes fd ∷ cs) (b.added ∙ sym (append_assoc b.since (opens fd ∷ []) w.calls));
    balanced = file fd b.balanced;
  }

  read_raw-Balances :
      (path : List ℕ) (gpa fd : ℕ) (w : World)
      → ((size : ℕ) → (sys.mmap w.mem size (some fd)).0 ≢ map_failed)
      → Balances w (read_raw sys path gpa fd (called (opens fd) w)).1
  unfolding read_raw
  read_raw-Balances path gpa fd w known =
      let w₁ = called (opens fd) w in
      elim (Option-cases (sys.stat path)) [
        | inl e ↦
            rw e (Balances-file fd w w₁ (record { since = []; added = refl; balanced = nothing }))
        | inr (size, e) ↦ rw e (
            Balances-file fd w (map_raw sys gpa fd size w₁).1
              (map_raw-Balances gpa fd size w₁ (known size)))
      ]

  -- Where `mmap` does not answer MAP_FAILED, and whatever else the system answers, `load_raw` closes
  -- the file that it opened, and before that unmaps the memory that `mmap` gave it: on success, and
  -- on the errors of `open`, `stat` and `vm_mem_write` and an answer NULL of `mmap`.
  pub load_raw-Balances :
      (path : Option (List ℕ)) (gpa : ℕ) (w : World)
      → ((fd size : ℕ) → (sys.mmap w.mem size (some fd)).0 ≢ map_failed)
      → Balances w (load_raw sys path gpa w).1
  unfolding load_raw
  load_raw-Balances none gpa w known = record { since = []; added = refl; balanced = nothing }
  load_raw-Balances (some path) gpa w known = elim (Option-cases (sys.open_fd path)) [
    | inl e ↦ rw (e, load_raw) (record { since = []; added = refl; balanced = nothing })
    | inr (fd, e) ↦ rw (e, load_raw) (read_raw-Balances path gpa fd w (known fd))
  ]

  -- In a state with well-formed regions, where the memory from `gpa` on is mapped for the file's
  -- size of less than 2 ^ 31 bytes, and with a system that opens and maps the file, `load_raw`
  -- returns 0; the file's bytes then stand from `gpa` on, and the rest of guest memory, the regions and the root table are as
  -- before.
  pub load_raw-RawLoaded :
      (path : List ℕ) (gpa size : ℕ) (contents : ℕ → ℕ) (w : World)
      → IsFile sys path size contents
      → size < 2 ^ 31
      → IsValid w.mem.regions
      → MappedRange w.mem gpa size
      → let r = load_raw sys (some path) gpa w in
        (r.0 ≡ success) × RawLoaded gpa size contents w.mem r.1.mem
  unfolding load_raw read_raw map_raw copy_raw
  load_raw-RawLoaded path gpa size contents w is short valid range =
      let m = after_mmap is w.mem valid in
      let bs = slice contents 0 size in
      let len : length bs ≡ size = length-slice contents 0 size in
      let full =
        vm_mem_write-full gpa bs m valid
          λ i lt ma. range i (omega arith) (sym (same-hva w.mem m (gpa + i) refl) ∙ ma) in
      let written = vm_mem_write-Written gpa bs m valid in
      let same : ((vm_mem_write gpa bs m).0 == size) ≡ true = ground (arith, full.0, len) in
      rw
        (
          is.opened,
          load_raw,
          is.sized,
          ne→==-false _ 0 (is.mapped w.mem),
          slice-after_mmap is w.mem valid,
          same,
        )
        (
          refl,
          record {
            holds = full.1;
            outside = λ c o. full.2 c (omega (arith, len)) ∙ view-after_mmap is w.mem valid c;
            regions = written.regions;
            pml4 = (written.pml4, written.pml4_gpa);
          },
        )
