-- ===== src/MachO.antt =====
-- The parser of src/macho_parser.c: the magic number, the headers, the walk over load commands.
-- The formats and the C library's calls on files are interfaces. An `int` offset is its bit pattern.
pub mod Library
pub mod Walk
pub mod Entry
pub mod Dump
pub mod Tests
use masters_proj.Prelude.{
  ℕ, zero, suc, ◌+◌, ◌*◌, Bool, true, false, ◌||◌, List, [], ◌∷◌, ◌++◌, ◌==◌, if◌then◌else◌, u32,
  sign_extend,
}
use masters_proj.Prelude.Bytes.{le_bytes, le_value}
use masters_proj.MachO.Library.{Stdio, Format, CpuName, i386, x86_64, arm, arm64, unknown}

-- What is logged: a header, a segment, or an entry point.
pub data Line : Type 0 where
  commands : (cpu : CpuName) (ncmds : ℕ) → Line
  segname : (segment : List ℕ) → Line
  entry_point : (entryoff : ℕ) → Line

-- The load commands that the walk tells apart, LC_SEGMENT_64, LC_SEGMENT and LC_MAIN.
pub data Command : Type 0 where
  segment_64 segment main other : Command

module _ (fmt : Format) where
  unfoldable pub is_magic_64 : ℕ → Bool
  is_magic_64 magic = magic == fmt.mh_magic_64 || magic == fmt.mh_cigam_64

  unfoldable pub should_swap_bytes : ℕ → Bool
  should_swap_bytes magic =
      magic == fmt.mh_cigam || (magic == fmt.mh_cigam_64 || magic == fmt.fat_cigam)

  unfoldable pub is_fat : ℕ → Bool
  is_fat magic = magic == fmt.fat_magic || magic == fmt.fat_cigam

  abbrev pub cpu_type_names : List (ℕ × CpuName)
  cpu_type_names =
      (fmt.cpu_type_i386, i386)
      ∷ (fmt.cpu_type_x86_64, x86_64)
      ∷ (fmt.cpu_type_arm, arm)
      ∷ (fmt.cpu_type_arm64, arm64)
      ∷ []

  -- The tests on `cmd->cmd`, in order.
  unfoldable pub kind : (cmd : ℕ) → Command
  kind cmd =
      if cmd == fmt.lc_segment_64
      then segment_64
      else if cmd == fmt.lc_segment
      then segment
      else if cmd == fmt.lc_main
      then main
      else other

unfoldable pub find_name : ℕ → List (ℕ × CpuName) → CpuName
find_name cpu [] = unknown
find_name cpu ((t, name) ∷ ts) = if cpu == t then name else find_name cpu ts

unfoldable pub cpu_type_name : Format → ℕ → CpuName
unfolding find_name
cpu_type_name fmt cpu = find_name cpu (cpu_type_names fmt)

-- `calloc`.
abbrev pub zeros : ℕ → List ℕ
zeros zero = []
zeros (suc n) = 0 ∷ zeros n

-- `if (is_swap) swap(p, 0)`.
abbrev pub swap_if : Bool → (List ℕ → List ℕ) → List ℕ → List ℕ
swap_if true swap bytes = swap bytes
swap_if false swap bytes = bytes

-- The result, `*entry_point`, the lines that were logged, and the file.
pub record Parsed (io : Stdio) : Type 0 where
  pub status : ℕ
  pub entry : List ℕ
  pub lines : List Line
  pub file : io.File

abbrev pub logging : {io : Stdio} → List Line → Parsed io → Parsed io
logging lines p = record p { lines = lines ++ p.lines }

-- The loop ends at LC_MAIN.
abbrev pub at_main {ℓ} : {A : Type ℓ} → Command → A → A → A
at_main main found rest = found
at_main segment_64 found rest = rest
at_main segment found rest = rest
at_main other found rest = rest

module _ (io : Stdio) (fmt : Format) where
  -- The buffer on the stack holds `junk` until it is read.
  unfoldable pub read_magic : (junk offset : ℕ) → io.File → ℕ × io.File
  read_magic junk offset f =
      let r = io.fread (le_bytes 4 junk) (io.fseek (sign_extend offset) f) in (le_value r.0, r.1)

  unfoldable pub load_bytes : (offset size : ℕ) → io.File → List ℕ × io.File
  load_bytes offset size f = io.fread (zeros size) (io.fseek (sign_extend offset) f)

  -- The load command at `offset`, and the file after it was read.
  unfoldable pub load_command : (offset : ℕ) (is_swap : Bool) → io.File → List ℕ × io.File
  unfolding load_bytes
  load_command offset is_swap f =
      let r = load_bytes offset fmt.load_command_size f in
      (swap_if is_swap fmt.swap_load_command r.0, r.1)

  -- What a segment command logs, and the file after its segment was read.
  unfoldable pub load_segment :
      Command → (offset : ℕ) (is_swap : Bool) → io.File → List Line × io.File
  unfolding load_bytes
  load_segment segment_64 offset is_swap f =
      let r = load_bytes offset fmt.segment_command_64_size f in
      (segname (swap_if is_swap fmt.swap_segment_command_64 r.0) ∷ [], r.1)
  load_segment segment offset is_swap f =
      let r = load_bytes offset fmt.segment_command_size f in
      (segname (swap_if is_swap fmt.swap_segment_command r.0) ∷ [], r.1)
  load_segment main offset is_swap f = ([], f)
  load_segment other offset is_swap f = ([], f)

  -- LC_MAIN: the command is copied as it stands in the file.
  unfoldable pub load_main : (offset : ℕ) → io.File → Parsed io
  unfolding load_bytes
  load_main offset f =
      let r = load_bytes offset fmt.entry_point_command_size f in
      record { status = 0; entry = r.0; lines = entry_point (fmt.entryoff r.0) ∷ []; file = r.1 }

  unfoldable pub read_segment_commands :
      (ncmds offset : ℕ) (is_swap : Bool) (entry : List ℕ) → io.File → Parsed io
  unfolding load_command load_segment load_main
  read_segment_commands zero offset is_swap entry f = record {
    status = 1;
    entry = entry;
    lines = [];
    file = f;
  }
  read_segment_commands (suc n) offset is_swap entry f =
      let cmd = load_command offset is_swap f in
      let k = kind fmt (fmt.cmd cmd.0) in
      let s = load_segment k offset is_swap cmd.1 in
      let rest = read_segment_commands n (u32 (offset + fmt.cmdsize cmd.0)) is_swap entry s.1 in
      at_main k (load_main offset cmd.1) (logging s.0 rest)

  -- The header at `offset` after its bytes were swapped, its size, and the file.
  unfoldable pub load_header : (offset : ℕ) (is_64 is_swap : Bool) → io.File → List ℕ × ℕ × io.File
  unfolding load_bytes
  load_header offset true is_swap f =
      let r = load_bytes offset fmt.mach_header_64_size f in
      (swap_if is_swap fmt.swap_mach_header_64 r.0, fmt.mach_header_64_size, r.1)
  load_header offset false is_swap f =
      let r = load_bytes offset fmt.mach_header_size f in
      (swap_if is_swap fmt.swap_mach_header r.0, fmt.mach_header_size, r.1)

  -- `ncmds` and `cputype` stand in both headers.
  abbrev pub header_line : (is_64 : Bool) → List ℕ → Line
  header_line is_64 h = commands (cpu_type_name fmt (fmt.cputype is_64 h)) (fmt.ncmds is_64 h)

  unfoldable pub read_mach_header :
      (offset : ℕ) (is_64 is_swap : Bool) (entry : List ℕ) → io.File → Parsed io
  unfolding load_header
  read_mach_header offset is_64 is_swap entry f =
      let h = load_header offset is_64 is_swap f in
      logging (header_line is_64 h.0 ∷ [])
        (read_segment_commands (fmt.ncmds is_64 h.0) (u32 (offset + h.1)) is_swap entry h.2)

  unfoldable pub read_entry_point_cmd : (junk : ℕ) (entry : List ℕ) → io.File → Parsed io
  unfolding read_magic
  read_entry_point_cmd junk entry f =
      let m = read_magic junk 0 f in
      if is_fat fmt m.0
      then record { status = 1; entry = entry; lines = []; file = m.1 }
      else read_mach_header 0 (is_magic_64 fmt m.0) (should_swap_bytes fmt m.0) entry m.1
