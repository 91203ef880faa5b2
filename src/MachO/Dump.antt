-- ===== src/MachO/Dump.antt =====
-- The functions of src/macho_parser.c that only log, and that they log what the reader of the entry
-- point logs.
use masters_proj.Prelude.{
  ℕ, zero, suc, ◌+◌, ◌≡◌, refl, Bool, false, List, [], ◌∷◌, ◌++◌, arith, ap, sym, ◌∙◌, u32,
  if◌then◌else◌,
}
use mathlib.Core.List.{append_assoc}
use masters_proj.MachO.Library.{Stdio, Format}
use masters_proj.MachO.{
  Line, Command, segment_64, segment, main, other, kind, is_fat, is_magic_64, should_swap_bytes,
  swap_if, Parsed, load_bytes, load_command, load_segment, load_main, at_main, logging, read_magic,
  read_segment_commands, load_header, header_line, read_mach_header, read_entry_point_cmd,
}

module _ (io : Stdio) (fmt : Format) where
  -- What a load command logs, and the file after it.
  unfoldable pub dump_command :
      Command → (offset : ℕ) (is_swap : Bool) → io.File → List Line × io.File
  unfolding load_segment load_main
  dump_command main offset is_swap f = let p = load_main io fmt offset f in (p.lines, p.file)
  dump_command segment_64 offset is_swap f = load_segment io fmt segment_64 offset is_swap f
  dump_command segment offset is_swap f = load_segment io fmt segment offset is_swap f
  dump_command other offset is_swap f = load_segment io fmt other offset is_swap f

  unfoldable pub dump_segment_commands :
      (offset : ℕ) (is_swap : Bool) (ncmds : ℕ) → io.File → List Line × io.File
  unfolding load_command dump_command
  dump_segment_commands offset is_swap zero f = ([], f)
  dump_segment_commands offset is_swap (suc n) f =
      let cmd = load_command io fmt offset is_swap f in
      let s = dump_command (kind fmt (fmt.cmd cmd.0)) offset is_swap cmd.1 in
      let rest = dump_segment_commands (u32 (offset + fmt.cmdsize cmd.0)) is_swap n s.1 in
      (s.0 ++ rest.0, rest.1)

  unfoldable pub dump_mach_header :
      (offset : ℕ) (is_64 is_swap : Bool) → io.File → List Line × io.File
  unfolding load_header
  dump_mach_header offset is_64 is_swap f =
      let h = load_header io fmt offset is_64 is_swap f in
      let r = dump_segment_commands (u32 (offset + h.1)) is_swap (fmt.ncmds is_64 h.0) h.2 in
      (header_line io fmt is_64 h.0 ∷ r.0, r.1)

  -- One architecture of a fat file.
  unfoldable pub dump_arch : (junk arch_offset : ℕ) (is_swap : Bool) → io.File → List Line × io.File
  unfolding load_bytes read_magic
  dump_arch junk arch_offset is_swap f =
      let r = load_bytes io fmt arch_offset fmt.fat_arch_size f in
      let offset = u32 (fmt.arch_offset (swap_if is_swap fmt.swap_fat_arch r.0)) in
      let m = read_magic io fmt junk offset r.1 in
      dump_mach_header offset (is_magic_64 fmt m.0) (should_swap_bytes fmt m.0) m.1

  unfoldable pub dump_archs :
      (junk nfat_arch arch_offset : ℕ) (is_swap : Bool) → io.File → List Line × io.File
  unfolding dump_arch
  dump_archs junk zero arch_offset is_swap f = ([], f)
  dump_archs junk (suc n) arch_offset is_swap f =
      let a = dump_arch junk arch_offset is_swap f in
      let rest = dump_archs junk n (u32 (arch_offset + fmt.fat_arch_size)) is_swap a.1 in
      (a.0 ++ rest.0, rest.1)

  unfoldable pub dump_fat_header : (junk : ℕ) (is_swap : Bool) → io.File → List Line × io.File
  unfolding load_bytes dump_archs
  dump_fat_header junk is_swap f =
      let r = load_bytes io fmt 0 fmt.fat_header_size f in
      let n = fmt.nfat_arch (swap_if is_swap fmt.swap_fat_header r.0) in
      dump_archs junk n fmt.fat_header_size is_swap r.1

  unfoldable pub dump_segments : (junk : ℕ) → io.File → List Line × io.File
  unfolding read_magic dump_fat_header dump_mach_header
  dump_segments junk f =
      let m = read_magic io fmt junk 0 f in
      if is_fat fmt m.0
      then dump_fat_header junk (should_swap_bytes fmt m.0) m.1
      else dump_mach_header 0 (is_magic_64 fmt m.0) (should_swap_bytes fmt m.0) m.1

-- The lines of a dump are those of the reader, and then what stands behind the entry point: nothing
-- if the reader found none.
pub record Continues (io : Stdio) (p : Parsed io) (d : List Line) : Type 0 where
  pub rest : List Line
  pub same : d ≡ p.lines ++ rest
  pub whole : p.status ≡ 1 → rest ≡ []

Continues-logging :
    {io : Stdio} {p : Parsed io} {d : List Line} (ls : List Line)
    → Continues io p d
    → Continues io (logging ls p) (ls ++ d)
Continues-logging {p} ls c = record {
  rest = c.rest;
  same = ap (λ d. ls ++ d) c.same ∙ sym (append_assoc ls p.lines c.rest);
  whole = c.whole;
}

module _ (io : Stdio) (fmt : Format) where
  at_command :
      (k : Command) (n offset next : ℕ) (is_swap : Bool) (entry : List ℕ) (f : io.File)
      → ((g : io.File)
          → Continues io
              (read_segment_commands io fmt n next is_swap entry g)
              (dump_segment_commands io fmt next is_swap n g).0)
      → let s = load_segment io fmt k offset is_swap f in
        let d = dump_command io fmt k offset is_swap f in
        Continues io
          (at_main k
            (load_main io fmt offset f)
            (logging s.0 (read_segment_commands io fmt n next is_swap entry s.1)))
          (d.0 ++ (dump_segment_commands io fmt next is_swap n d.1).0)
  unfolding dump_command load_main
  at_command main n offset next is_swap entry f ih = record {
    rest = (dump_segment_commands io fmt next is_swap n (load_main io fmt offset f).file).0;
    same = refl;
    whole = λ e. absurd (omega arith);
  }
  at_command segment_64 n offset next is_swap entry f ih =
      let s = load_segment io fmt segment_64 offset is_swap f in Continues-logging s.0 (ih s.1)
  at_command segment n offset next is_swap entry f ih =
      let s = load_segment io fmt segment offset is_swap f in Continues-logging s.0 (ih s.1)
  at_command other n offset next is_swap entry f ih =
      let s = load_segment io fmt other offset is_swap f in Continues-logging s.0 (ih s.1)

  dump_segment_commands-Continues :
      (n offset : ℕ) (is_swap : Bool) (entry : List ℕ) (f : io.File)
      → Continues io
          (read_segment_commands io fmt n offset is_swap entry f)
          (dump_segment_commands io fmt offset is_swap n f).0
  unfolding read_segment_commands dump_segment_commands
  dump_segment_commands-Continues zero offset is_swap entry f = record {
    rest = [];
    same = refl;
    whole = λ e. refl;
  }
  dump_segment_commands-Continues (suc n) offset is_swap entry f =
      let cmd = load_command io fmt offset is_swap f in
      let next = u32 (offset + fmt.cmdsize cmd.0) in
      at_command (kind fmt (fmt.cmd cmd.0)) n offset next is_swap entry cmd.1
        (dump_segment_commands-Continues n next is_swap entry)

  -- For a file that is not fat, `dump_segments` logs what `read_entry_point_cmd` logs up to the
  -- entry point and then goes on; if that finds no entry point, the two log the same.
  pub dump_segments-Continues :
      (junk : ℕ) (entry : List ℕ) (f : io.File)
      → is_fat fmt (read_magic io fmt junk 0 f).0 ≡ false
      → Continues io (read_entry_point_cmd io fmt junk entry f) (dump_segments io fmt junk f).0
  unfolding read_entry_point_cmd dump_segments read_mach_header dump_mach_header
  dump_segments-Continues junk entry f thin =
      let m = read_magic io fmt junk 0 f in
      let sw = should_swap_bytes fmt m.0 in
      let is_64 = is_magic_64 fmt m.0 in
      let h = load_header io fmt 0 is_64 sw m.1 in
      rw thin (
        Continues-logging (header_line io fmt is_64 h.0 ∷ [])
          (dump_segment_commands-Continues (fmt.ncmds is_64 h.0) (u32 (0 + h.1)) sw entry h.2))
