-- ===== src/MachO/Entry.antt =====
-- `read_entry_point_cmd`: from the magic number to the entry point.
use masters_proj.Prelude.{ℕ, ◌+◌, ◌^◌, ◌≤◌, ◌<◌, ◌≡◌, refl, Bool, true, false, List, arith, ap, u32}
use masters_proj.Prelude.Bytes.{slice, le_bytes, le_value, length-le_bytes}
use masters_proj.MachO.Library.{Stdio, Format}
use masters_proj.MachO.{
  is_fat, is_magic_64, should_swap_bytes, swap_if, read_magic, load_header, read_mach_header,
  read_entry_point_cmd,
}
use masters_proj.MachO.Walk.{
  Reads, Inside, find_main, entry_answer, load_bytes-slice, read_segment_commands-find_main,
}

-- The magic number of a file, and what follows from it.
abbrev pub magic_of : (ℕ → ℕ) → ℕ
magic_of contents = le_value (slice contents 0 4)

abbrev pub header_size : Format → (is_64 : Bool) → ℕ
header_size fmt true = fmt.mach_header_64_size
header_size fmt false = fmt.mach_header_size

abbrev pub swap_header : Format → (is_64 : Bool) → List ℕ → List ℕ
swap_header fmt true = fmt.swap_mach_header_64
swap_header fmt false = fmt.swap_mach_header

-- The header of the file, in the byte order of the host.
abbrev pub header_of : Format → (contents : ℕ → ℕ) (is_64 is_swap : Bool) → List ℕ
header_of fmt contents is_64 is_swap =
    swap_if is_swap (swap_header fmt is_64) (slice contents 0 (header_size fmt is_64))

-- The number of commands that follow the header.
abbrev pub ncmds_of : Format → (contents : ℕ → ℕ) (is_64 is_swap : Bool) → ℕ
ncmds_of fmt contents is_64 is_swap = fmt.ncmds is_64 (header_of fmt contents is_64 is_swap)

module _ (io : Stdio) (fmt : Format) (contents : ℕ → ℕ) (len : ℕ) (reads : Reads io contents len)
    (small : len < 2 ^ 31) where
  magic_read :
      (junk : ℕ) (f : io.File) → 4 ≤ len → (read_magic io fmt junk 0 f).0 ≡ magic_of contents
  unfolding read_magic
  magic_read junk f h =
      let n = length-le_bytes 4 junk in ap le_value (reads.at f (le_bytes 4 junk) 0 (omega arith))

  load_header-of :
      (is_64 is_swap : Bool) (f : io.File)
      → header_size fmt is_64 ≤ len
      → let h = load_header io fmt 0 is_64 is_swap f in
        (h.0 ≡ header_of fmt contents is_64 is_swap) × (h.1 ≡ header_size fmt is_64)
  unfolding load_header
  load_header-of true is_swap f h = (
    ap (swap_if is_swap fmt.swap_mach_header_64) (
        load_bytes-slice io fmt contents len reads small 0 fmt.mach_header_64_size f (omega arith)),
    refl,
  )
  load_header-of false is_swap f h = (
    ap (swap_if is_swap fmt.swap_mach_header)
        (load_bytes-slice io fmt contents len reads small 0 fmt.mach_header_size f (omega arith)),
    refl,
  )

  read_mach_header-find_main :
      (is_64 is_swap : Bool) (entry : List ℕ) (f : io.File)
      → header_size fmt is_64 ≤ len
      → Inside fmt contents is_swap len
          (ncmds_of fmt contents is_64 is_swap)
          (header_size fmt is_64)
      → let p = read_mach_header io fmt 0 is_64 is_swap entry f in
        (p.status, p.entry)
        ≡ entry_answer fmt contents is_swap entry (
            find_main fmt contents is_swap
              (ncmds_of fmt contents is_64 is_swap)
              (header_size fmt is_64))
  unfolding read_mach_header
  read_mach_header-find_main is_64 is_swap entry f h inside =
      let (same, size) = load_header-of is_64 is_swap f h in
      let wrap : u32 (0 + header_size fmt is_64) ≡ header_size fmt is_64 = omega arith in
      rw (same, size, wrap)
        (read_segment_commands-find_main io fmt contents len reads small is_swap _
          (header_size fmt is_64) entry _ inside)

  -- On a file of less than 2 ^ 31 bytes that is not fat, and whose header and load commands up to
  -- the first LC_MAIN lie inside it, `read_entry_point_cmd` returns 0 and the bytes of that LC_MAIN
  -- if there is one among the header's `ncmds`, and otherwise 1 with the buffer as it was. (The
  -- header and the load commands are read in the host's byte order.)
  pub read_entry_point_cmd-find_main :
      (junk : ℕ) (entry : List ℕ) (f : io.File)
      → let magic = magic_of contents in
        let is_64 = is_magic_64 fmt magic in
        let is_swap = should_swap_bytes fmt magic in
        let p = read_entry_point_cmd io fmt junk entry f in
        4 ≤ len
        → is_fat fmt magic ≡ false
        → header_size fmt is_64 ≤ len
        → Inside fmt contents is_swap len
            (ncmds_of fmt contents is_64 is_swap)
            (header_size fmt is_64)
        → (p.status, p.entry)
          ≡ entry_answer fmt contents is_swap entry (
              find_main fmt contents is_swap
                (ncmds_of fmt contents is_64 is_swap)
                (header_size fmt is_64))
  unfolding read_entry_point_cmd
  read_entry_point_cmd-find_main junk entry f four thin room inside =
      rw (magic_read junk f four, thin)
        (read_mach_header-find_main (is_magic_64 fmt (magic_of contents))
          (should_swap_bytes fmt (magic_of contents)) entry _ room inside)
