-- ===== src/MachO/Library.antt =====
-- What <mach-o/loader.h>, <mach-o/fat.h> and <mach-o/swap.h> define, and the calls of <stdio.h> on
-- an open file.
use masters_proj.Prelude.{ℕ, Bool, List}

-- The names that src/macho_parser.c gives to processors.
pub data CpuName : Type 0 where
  i386 x86_64 arm arm64 unknown : CpuName

-- The numbers; the sizes of the structures; their fields, read from their bytes (the first argument
-- of `ncmds` and `cputype` says which of the two headers it is); and the swaps of byte order.
pub record Format : Type 0 where
  pub mh_magic_64 : ℕ
  pub mh_cigam_64 : ℕ
  pub mh_cigam : ℕ
  pub fat_magic : ℕ
  pub fat_cigam : ℕ
  pub cpu_type_i386 : ℕ
  pub cpu_type_x86_64 : ℕ
  pub cpu_type_arm : ℕ
  pub cpu_type_arm64 : ℕ
  pub lc_segment_64 : ℕ
  pub lc_segment : ℕ
  pub lc_main : ℕ
  pub mach_header_64_size : ℕ
  pub mach_header_size : ℕ
  pub load_command_size : ℕ
  pub segment_command_64_size : ℕ
  pub segment_command_size : ℕ
  pub entry_point_command_size : ℕ
  pub fat_header_size : ℕ
  pub fat_arch_size : ℕ
  pub ncmds : (is_64 : Bool) → List ℕ → ℕ
  pub cputype : (is_64 : Bool) → List ℕ → ℕ
  pub cmd : List ℕ → ℕ
  pub cmdsize : List ℕ → ℕ
  pub entryoff : List ℕ → ℕ
  pub nfat_arch : List ℕ → ℕ
  pub arch_offset : List ℕ → ℕ
  pub swap_mach_header_64 : List ℕ → List ℕ
  pub swap_mach_header : List ℕ → List ℕ
  pub swap_load_command : List ℕ → List ℕ
  pub swap_segment_command_64 : List ℕ → List ℕ
  pub swap_segment_command : List ℕ → List ℕ
  pub swap_fat_header : List ℕ → List ℕ
  pub swap_fat_arch : List ℕ → List ℕ

-- A file with its position. `fread` fills a buffer, whose bytes it gets and returns; `fseek` takes
-- its offset widened to 64 bits.
pub record Stdio : Type 1 where
  pub File : Type 0
  pub fseek : (offset : ℕ) → File → File
  pub fread : (buf : List ℕ) → File → List ℕ × File
