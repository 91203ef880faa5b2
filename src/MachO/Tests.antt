-- ===== src/MachO/Tests.antt =====
-- The theorems on the parser at a file with a segment and an entry point.
use masters_proj.Prelude.{
  ℕ, zero, suc, ◌+◌, ◌≡◌, refl, false, List, [], ◌∷◌, ◌++◌, length, take, arith, some,
}
use masters_proj.Prelude.Bytes.{slice, le_bytes, le_value}
use masters_proj.MachO.Library.{Stdio, Format}
use masters_proj.MachO.{
  kind, is_fat, is_magic_64, should_swap_bytes, read_magic, read_entry_point_cmd,
}
use masters_proj.MachO.Walk.{Reads, entry_answer}
use masters_proj.MachO.Entry.{read_entry_point_cmd-find_main}
use masters_proj.MachO.Dump.{Continues, dump_segments, dump_segments-Continues}

abbrev byte_at : List ℕ → ℕ → ℕ
byte_at [] i = 0
byte_at (b ∷ bs) zero = b
byte_at (b ∷ bs) (suc i) = byte_at bs i

abbrev zero_bytes : ℕ → List ℕ
zero_bytes n = le_bytes n 0

-- A header with two commands, an LC_SEGMENT_64 and an LC_MAIN.
abbrev sample_bytes : List ℕ
sample_bytes =
    le_bytes 4 0xfeedfacf
    ++ le_bytes 4 0x1000007
    ++ zero_bytes 8
    ++ le_bytes 4 2
    ++ zero_bytes 12
    ++ le_bytes 4 0x19
    ++ le_bytes 4 72
    ++ zero_bytes 64
    ++ le_bytes 4 0x80000028
    ++ le_bytes 4 24
    ++ le_bytes 8 0xf30
    ++ zero_bytes 8

-- A file is its position.
abbrev pub sample_stdio : Stdio
sample_stdio = record {
  File = ℕ;
  fseek = λ offset f. offset;
  fread = λ buf f. (slice (byte_at sample_bytes) f (length buf), f + length buf);
}

abbrev drop : ℕ → List ℕ → List ℕ
drop zero bs = bs
drop (suc n) [] = []
drop (suc n) (b ∷ bs) = drop n bs

abbrev value : (offset size : ℕ) → List ℕ → ℕ
value offset size bytes = le_value (take size (drop offset bytes))

abbrev flip : List ℕ → List ℕ
flip (a ∷ b ∷ c ∷ d ∷ rest) = d ∷ c ∷ b ∷ a ∷ flip rest
flip bytes = bytes

-- The constants and structures of the headers named, and their swaps; those of a segment as far as
-- the two numbers before its name.
abbrev pub sample_format : Format
sample_format = record {
  mh_magic_64 = 0xfeedfacf;
  mh_cigam_64 = 0xcffaedfe;
  mh_cigam = 0xcefaedfe;
  fat_magic = 0xcafebabe;
  fat_cigam = 0xbebafeca;
  cpu_type_i386 = 7;
  cpu_type_x86_64 = 0x1000007;
  cpu_type_arm = 12;
  cpu_type_arm64 = 0x100000c;
  lc_segment_64 = 0x19;
  lc_segment = 1;
  lc_main = 0x80000028;
  mach_header_64_size = 32;
  mach_header_size = 28;
  load_command_size = 8;
  segment_command_64_size = 72;
  segment_command_size = 56;
  entry_point_command_size = 24;
  fat_header_size = 8;
  fat_arch_size = 20;
  ncmds = λ is_64. value 16 4;
  cputype = λ is_64. value 4 4;
  cmd = value 0 4;
  cmdsize = value 4 4;
  entryoff = value 8 8;
  nfat_arch = value 4 4;
  arch_offset = value 8 4;
  swap_mach_header_64 = flip;
  swap_mach_header = flip;
  swap_load_command = flip;
  swap_segment_command_64 = λ bytes. flip (take 8 bytes) ++ drop 8 bytes;
  swap_segment_command = λ bytes. flip (take 8 bytes) ++ drop 8 bytes;
  swap_fat_header = flip;
  swap_fat_arch = flip;
}

abbrev pub sample_file : ℕ → ℕ
sample_file = byte_at sample_bytes

pub sample-Reads : Reads sample_stdio sample_file 128
sample-Reads = record { at = λ f buf off le. refl }

read_entry_point_cmd-find_main_example :
    let p = read_entry_point_cmd sample_stdio sample_format 7 (zero_bytes 24) 5 in
    (p.status, p.entry) ≡ entry_answer sample_format sample_file false (zero_bytes 24) (some 104)
unfolding is_magic_64 is_fat should_swap_bytes kind
read_entry_point_cmd-find_main_example =
    read_entry_point_cmd-find_main sample_stdio sample_format sample_file 128 sample-Reads
      (omega arith) 7 (zero_bytes 24) 5 (omega arith) refl (omega arith)
      (omega arith, (omega arith, omega arith))

dump_segments-Continues_example :
    Continues sample_stdio
      (read_entry_point_cmd sample_stdio sample_format 7 (zero_bytes 24) 5)
      (dump_segments sample_stdio sample_format 7 5).0
unfolding is_fat read_magic
dump_segments-Continues_example =
    dump_segments-Continues sample_stdio sample_format 7 (zero_bytes 24) 5 refl
