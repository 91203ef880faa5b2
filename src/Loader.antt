-- ===== src/Loader.antt =====
-- `load_raw` and `load_mach_obj` of src/loader.c.
pub mod Tests
pub mod Raw
pub mod Pages
pub mod Object
pub mod Entry
use masters_proj.Prelude.{
  ℕ, ◌+◌, ◌-◌, ◌^◌, ◌%◌, ◌/◌, List, [], ◌∷◌, Option, none, some, ◌==◌, ltb, u64, if◌then◌else◌,
}
use masters_proj.Prelude.Bytes.{slice}
use masters_proj.Mem.State.{page_size, Mem, Host, Status, success, failure}
use masters_proj.Mem.Gpa.{map_gpa}
use masters_proj.Mem.Access.{vm_mem_write}
use masters_proj.Mem.Paging.{Locals, map_gva, and_then}
use masters_proj.Cpu.State.{stored}
use masters_proj.MachO.Library.{Stdio, Format}
use masters_proj.MachO.{Parsed, read_entry_point_cmd}

-- The calls of the system on files: a descriptor, if `open` gives one; the size that `stat` gives;
-- the address that `mmap` returns for a descriptor, and the bytes of the process after it; and the
-- stream of `fopen`. A path is a string of bytes.
pub record System : Type 1 where
  pub stdio : Stdio
  pub open_fd : (path : List ℕ) → Option ℕ
  pub stat : (path : List ℕ) → Option ℕ
  pub mmap : Mem → (size : ℕ) (fd : Option ℕ) → ℕ × (ℕ → ℕ)
  pub fopen : (path : List ℕ) → Option stdio.File

-- MAP_FAILED of <sys/mman.h>, for which `load_raw` does not test.
abbrev pub map_failed : ℕ
map_failed = 2 ^ 64 - 1

-- What was asked of the system.
pub data FileCall : Type 0 where
  opens closes : (fd : ℕ) → FileCall
  mmaps munmaps : (hva size : ℕ) → FileCall
  fopens fcloses : FileCall

pub record World : Type 0 where
  pub mem : Mem
  pub calls : List FileCall

abbrev pub called : FileCall → World → World
called c w = record w { calls = c ∷ w.calls }

-- What the locals hold before they are set: the magic number and the entry point command,
-- `st.st_size`, and the locals of `map_gva`.
pub record Stack : Type 0 where
  pub magic : ℕ
  pub entry_point : List ℕ
  pub st_size : ℕ
  pub locals : Locals

-- The number of pages of a file.
unfoldable pub num_pages_of : (st_size : ℕ) → ℕ
num_pages_of st_size =
    if ltb 0 (st_size % page_size) then st_size / page_size + 1 else st_size / page_size

module _ (sys : System) where
  abbrev pub call_mmap : (size : ℕ) (fd : Option ℕ) → World → ℕ × World
  call_mmap size fd w =
      let r = sys.mmap w.mem size fd in
      (r.0, called (mmaps r.0 size) (record w { mem = record w.mem { bytes = r.1 } }))

  -- `load_raw` with the file mapped at `buf`.
  unfoldable pub copy_raw : (gpa buf st_size : ℕ) → World → Status × World
  copy_raw gpa buf st_size w =
      let r = vm_mem_write gpa (slice w.mem.bytes buf st_size) w.mem in
      (
        if r.0 == st_size then success else failure,
        called (munmaps buf st_size) (record w { mem = r.1 }),
      )

  unfoldable pub map_raw : (gpa fd st_size : ℕ) → World → Status × World
  unfolding copy_raw
  map_raw gpa fd st_size w =
      let buf = call_mmap st_size (some fd) w in
      if buf.0 == 0 then (failure, buf.1) else copy_raw gpa buf.0 st_size buf.1

  -- After `open`: the file is closed on every path.
  unfoldable pub read_raw : (path : List ℕ) (gpa fd : ℕ) → World → Status × World
  unfolding map_raw
  read_raw path gpa fd w =
      let r : Status × World = elim (sys.stat path) [
        | none ↦ (failure, w)
        | some st_size ↦ map_raw gpa fd st_size w
      ] in
      (r.0, called (closes fd) r.1)

  -- `none` is the path NULL.
  unfoldable pub load_raw : (path : Option (List ℕ)) (gpa : ℕ) → World → Status × World
  unfolding read_raw
  load_raw none gpa w = (failure, w)
  load_raw (some path) gpa w = elim (sys.open_fd path) [
    | none ↦ (failure, w)
    | some fd ↦ read_raw path gpa fd (called (opens fd) w)
  ]

  module _ (fmt : Format) (host : Host) (stack : Stack) where
    -- The address of the entry point, if the parser found one.
    unfoldable pub set_entryoff : (gva entryoff : ℕ) → Parsed sys.stdio → ℕ
    set_entryoff gva entryoff p =
        if p.status == 0 then u64 (fmt.entryoff p.entry + gva) else entryoff

    -- The guest's mappings of a file at `hva`.
    unfoldable pub map_file : (gpa gva num_pages hva : ℕ) → Mem → Status × Mem
    map_file gpa gva num_pages hva m =
        and_then (map_gpa host gpa num_pages hva m) (map_gva host stack.locals gva num_pages gpa)

    -- The second block of `load_mach_obj`: neither `open` nor `stat` is checked.
    unfoldable pub load_pages : (path : List ℕ) (gpa gva : ℕ) → World → Status × World
    unfolding map_file num_pages_of
    load_pages path gpa gva w =
        let fd = sys.open_fd path in
        let w₁ : World = elim fd [ none ↦ w | some f ↦ called (opens f) w ] in
        let st_size = stored stack.st_size (sys.stat path) in
        let hva = call_mmap st_size fd w₁ in
        let r = map_file gpa gva (num_pages_of st_size) hva.0 hva.1.mem in
        if hva.0 == 0 then (failure, hva.1) else (r.0, record hva.1 { mem = r.1 })

    -- The result, `*entryoff`, and the state.
    unfoldable pub load_mach_obj :
        (path : Option (List ℕ)) (entryoff : ℕ) → World → Status × ℕ × World
    unfolding set_entryoff load_pages
    load_mach_obj none entryoff w = (failure, entryoff, w)
    load_mach_obj (some path) entryoff w = elim (sys.fopen path) [
      | none ↦ (failure, entryoff, w)
      | some f ↦
          let p = read_entry_point_cmd sys.stdio fmt stack.magic stack.entry_point f in
          let r = load_pages path 0x100000000 0x100000000 (called fcloses (called fopens w)) in
          (r.0, set_entryoff 0x100000000 entryoff p, r.1)
    ]
