-- ===== src/Loader/Tests.antt =====
-- The theorems on the loader at a guest with one page and a system with one file.
use masters_proj.Prelude.{
  ℕ, List, ◌+◌, ◌-◌, ◌*◌, ◌≤◌, ◌<◌, ◌≡◌, refl, ◌&&◌, ◌⊎◌, inr, some, leb, ltb, if◌then◌else◌, arith,
  [], ◌∷◌,
}
use masters_proj.Prelude.Bytes.{le_bytes}
use masters_proj.Mem.State.{success}
use masters_proj.Mem.Access.Word.{MappedRange}
use masters_proj.Mem.Paging.Root.{empty_tree}
use masters_proj.Mem.Tests.{
  above, above-Apart, above-ne, sample_host, sample-Honest, sample-Willing, junk, one_page,
  one_page-IsValid, one_page-Mapped,
}
use masters_proj.MachO.{is_magic_64, is_fat, should_swap_bytes, kind}
use masters_proj.MachO.Tests.{sample_stdio, sample_format, sample_file, sample-Reads}
use masters_proj.Loader.{System, Stack, World, num_pages_of, load_raw, load_mach_obj}
use masters_proj.Loader.Pages.{IsFile}
use masters_proj.Loader.Raw.{RawLoaded, Balances, load_raw-Balances, load_raw-RawLoaded}
use masters_proj.Loader.Object.{IsLoaded, load_mach_obj-IsLoaded}
use masters_proj.Loader.Entry.{IsProgram, load_mach_obj-find_main}

-- Memory with `n` bytes of a file at `hva`.
abbrev overlay : (hva n : ℕ) (contents bytes : ℕ → ℕ) → ℕ → ℕ
overlay hva n contents bytes a =
    if leb hva a && ltb a (hva + n) then contents (a - hva) else bytes a

overlay-inside :
    (hva n : ℕ) (contents bytes : ℕ → ℕ) (i : ℕ)
    → i < n
    → overlay hva n contents bytes (hva + i) ≡ contents i
overlay-inside hva n contents bytes i lt =
    let e : hva + i - hva ≡ i = omega arith in ground (arith, e)

overlay-outside :
    (hva n : ℕ) (contents bytes : ℕ → ℕ) (a : ℕ)
    → (a < hva) ⊎ (hva + n ≤ a)
    → overlay hva n contents bytes a ≡ bytes a
overlay-outside hva n contents bytes a o = ground arith

abbrev pub sample_system : System
sample_system = record {
  stdio = sample_stdio;
  open_fd = λ path. some 3;
  stat = λ path. some 128;
  mmap = λ m size fd.
      let hva = above m.regions in
      (hva, overlay hva (num_pages_of size * 4096) sample_file m.bytes);
  fopen = λ path. some 5;
}

small_file : num_pages_of 128 ≡ 1
unfolding num_pages_of
small_file = refl

pub sample-IsFile : (path : List ℕ) → IsFile sample_system path 128 sample_file
sample-IsFile path = record {
  fd = 3;
  opened = refl;
  sized = refl;
  mapped = λ m z. absurd (omega (arith, above-ne m.regions));
  inside = λ m i lt.
      overlay-inside (above m.regions) (num_pages_of 128 * 4096) sample_file m.bytes i
        (omega (arith, small_file));
  apart = λ m g. above-Apart g (num_pages_of 128) (above m.regions) m.regions (omega arith);
  outside =
      λ m a o. overlay-outside (above m.regions) (num_pages_of 128 * 4096) sample_file m.bytes a o;
}

abbrev pub sample_stack : Stack
sample_stack = record { magic = 7; entry_point = le_bytes 24 0; st_size = 55; locals = junk }

abbrev sample_world : World
sample_world = record { mem = one_page; calls = [] }

load_raw-Balances_example :
    Balances sample_world (load_raw sample_system (some (9 ∷ [])) 0x8000 sample_world).1
load_raw-Balances_example =
    load_raw-Balances sample_system (some (9 ∷ [])) 0x8000 sample_world
      λ fd size e. absurd (omega arith)

load_raw-RawLoaded_example :
    let r = load_raw sample_system (some (9 ∷ [])) 0x800 sample_world in
    (r.0 ≡ success) × RawLoaded 0x800 128 sample_file one_page r.1.mem
load_raw-RawLoaded_example =
    load_raw-RawLoaded sample_system (9 ∷ []) 0x800 128 sample_file sample_world
      (sample-IsFile (9 ∷ [])) (omega arith) one_page-IsValid one_range
  where
    one_range : MappedRange one_page 0x800 128
    one_range = λ i lt. one_page-Mapped (0x800 + i) (omega arith)

load_mach_obj-IsLoaded_example :
    let r =
      load_mach_obj sample_system sample_format sample_host sample_stack
        (some (9 ∷ []))
        0
        sample_world in
    (r.0 ≡ success) × IsLoaded junk 0x100000000 128 sample_file empty_tree one_page r.2.mem
load_mach_obj-IsLoaded_example =
    load_mach_obj-IsLoaded (sample-IsFile (9 ∷ [])) sample_host sample-Honest sample-Willing
      sample_stack sample_format empty_tree 5 0 sample_world refl
      (inr (refl, one_page-IsValid, λ l q. refl)) (omega arith, tt) (omega arith) (omega arith)

pub sample-IsProgram : IsProgram sample_system sample_format sample_file 128 104
unfolding is_magic_64 is_fat should_swap_bytes kind
sample-IsProgram = record {
  reads = sample-Reads;
  small = omega arith;
  magic = omega arith;
  thin = refl;
  room = omega arith;
  inside = (omega arith, (omega arith, omega arith));
  found = refl;
}

load_mach_obj-find_main_example :
    (load_mach_obj sample_system sample_format sample_host sample_stack
      (some (9 ∷ []))
      0
      sample_world).1
    ≡ 0x100000f30
unfolding is_magic_64 is_fat should_swap_bytes kind
load_mach_obj-find_main_example =
    load_mach_obj-find_main sample_system sample_format sample_host sample_stack sample_file 128
      sample-Reads (omega arith) (9 ∷ []) 0 5 sample_world refl (omega arith) refl (omega arith)
      (omega arith, (omega arith, omega arith))
