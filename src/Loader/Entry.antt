-- ===== src/Loader/Entry.antt =====
-- `load_mach_obj`: the entry point of the program.
use masters_proj.Prelude.{
  ℕ, ◌+◌, ◌^◌, ◌≤◌, ◌<◌, ◌≡◌, refl, Option, some, none, Bool, false, List, if◌then◌else◌, ◌==◌, ◌∙◌,
  ap, u64,
}
use masters_proj.Prelude.Bytes.{slice}
use masters_proj.Mem.State.{Host}
use masters_proj.MachO.Library.{Format}
use masters_proj.MachO.{is_magic_64, should_swap_bytes, is_fat}
use masters_proj.MachO.Walk.{Reads, Inside, find_main, entry_answer}
use masters_proj.MachO.Entry.{magic_of, header_size, ncmds_of, read_entry_point_cmd-find_main}
use masters_proj.Loader.{System, World, Stack, load_mach_obj, set_entryoff}

-- What `*entryoff` is to be: the place of an entry point command, or as it was.
abbrev pub entry_address : Format → (contents : ℕ → ℕ) (entryoff : ℕ) → Option ℕ → ℕ
entry_address fmt contents entryoff none = entryoff
entry_address fmt contents entryoff (some off) =
    u64 (fmt.entryoff (slice contents off fmt.entry_point_command_size) + 0x100000000)

address :
    (fmt : Format) (contents : ℕ → ℕ) (is_swap : Bool) (entry : List ℕ) (entryoff : ℕ)
    (o : Option ℕ)
    → let r = entry_answer fmt contents is_swap entry o in
      (if r.0 == 0 then u64 (fmt.entryoff r.1 + 0x100000000) else entryoff)
      ≡ entry_address fmt contents entryoff o
address fmt contents is_swap entry entryoff none = refl
address fmt contents is_swap entry entryoff (some off) = refl

module _ (sys : System) (fmt : Format) (host : Host) (stack : Stack) (contents : ℕ → ℕ) (len : ℕ)
    (reads : Reads sys.stdio contents len) (small : len < 2 ^ 31) where
  -- On a file of less than 2 ^ 31 bytes that can be opened and is not fat, and whose header and load
  -- commands up to the first LC_MAIN lie inside it, whether or not its pages can be mapped:
  -- `load_mach_obj` sets `*entryoff` to 0x100000000 plus the `entryoff` of that LC_MAIN, modulo
  -- 2 ^ 64, and leaves it as it was if there is none.
  pub load_mach_obj-find_main :
      (path : List ℕ) (entryoff : ℕ) (f : sys.stdio.File) (w : World)
      → let magic = magic_of contents in
        let is_64 = is_magic_64 fmt magic in
        let is_swap = should_swap_bytes fmt magic in
        let n = ncmds_of fmt contents is_64 is_swap in
        sys.fopen path ≡ some f
        → 4 ≤ len
        → is_fat fmt magic ≡ false
        → header_size fmt is_64 ≤ len
        → Inside fmt contents is_swap len n (header_size fmt is_64)
        → (load_mach_obj sys fmt host stack (some path) entryoff w).1
          ≡ entry_address fmt contents entryoff
              (find_main fmt contents is_swap n (header_size fmt is_64))
  unfolding load_mach_obj set_entryoff
  load_mach_obj-find_main path entryoff f w e four thin room inside =
      let same =
        read_entry_point_cmd-find_main sys.stdio fmt contents len reads small stack.magic
          stack.entry_point f four thin room inside in
      let magic = magic_of contents in
      let is_swap = should_swap_bytes fmt magic in
      let size = header_size fmt (is_magic_64 fmt magic) in
      let found =
        find_main fmt contents is_swap (ncmds_of fmt contents (is_magic_64 fmt magic) is_swap)
          size in
      rw (e, load_mach_obj)
        (ap
            (λ (r : ℕ × List ℕ).
              if r.0 == 0 then u64 (fmt.entryoff r.1 + 0x100000000) else entryoff)
            same
          ∙ address fmt contents is_swap stack.entry_point entryoff found)

-- A program of less than 2 ^ 31 bytes that is not fat, whose header and load commands up to the first
-- LC_MAIN, at `off`, lie inside it.
pub record IsProgram (sys : System) (fmt : Format) (contents : ℕ → ℕ) (size off : ℕ) : Type 0 where
  pub reads : Reads sys.stdio contents size
  pub small : size < 2 ^ 31
  pub magic : 4 ≤ size
  pub thin : is_fat fmt (magic_of contents) ≡ false
  pub room : header_size fmt (is_magic_64 fmt (magic_of contents)) ≤ size
  pub inside :
      let is_64 = is_magic_64 fmt (magic_of contents) in
      let is_swap = should_swap_bytes fmt (magic_of contents) in
      Inside fmt contents is_swap size (ncmds_of fmt contents is_64 is_swap) (header_size fmt is_64)
  pub found :
      let is_64 = is_magic_64 fmt (magic_of contents) in
      let is_swap = should_swap_bytes fmt (magic_of contents) in
      find_main fmt contents is_swap (ncmds_of fmt contents is_64 is_swap) (header_size fmt is_64)
      ≡ some off

-- Where it starts.
abbrev pub start_of : Format → (contents : ℕ → ℕ) (off : ℕ) → ℕ
start_of fmt contents off =
    u64 (fmt.entryoff (slice contents off fmt.entry_point_command_size) + 0x100000000)

pub load_mach_obj-IsProgram :
    (sys : System) (fmt : Format) (host : Host) (stack : Stack) (contents : ℕ → ℕ) (size off : ℕ)
    (path : List ℕ) (entryoff : ℕ) (f : sys.stdio.File) (w : World)
    → IsProgram sys fmt contents size off
    → sys.fopen path ≡ some f
    → (load_mach_obj sys fmt host stack (some path) entryoff w).1 ≡ start_of fmt contents off
load_mach_obj-IsProgram sys fmt host stack contents size off path entryoff f w p opened =
    load_mach_obj-find_main sys fmt host stack contents size p.reads p.small path entryoff f w
      opened p.magic p.thin p.room p.inside
    ∙ ap (entry_address fmt contents entryoff) p.found
