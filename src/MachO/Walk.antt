-- ===== src/MachO/Walk.antt =====
-- `read_entry_point_cmd` on a file whose load commands lie inside it.
use masters_proj.Prelude.{
  ℕ, zero, suc, ◌+◌, ◌^◌, ◌≤◌, ◌<◌, ◌≡◌, ◌≢◌, refl, Bool, List, length, arith, ap, ◌∙◌, subst, u32,
  Option, none, some, ◌⊎◌, inl, inr, sign_extend,
}
use masters_proj.Prelude.Bytes.{slice}
use masters_proj.MachO.Library.{Stdio, Format}
use masters_proj.MachO.{
  Command, segment_64, segment, main, other, kind, zeros, swap_if, load_bytes, load_command,
  load_segment, load_main, at_main, read_segment_commands,
}

-- `fseek` and `fread` as <stdio.h> has them on a file of `len` bytes: what is read from an offset
-- inside it are the bytes there, wherever the position was.
pub record Reads (io : Stdio) (contents : ℕ → ℕ) (len : ℕ) : Type 0 where
  pub at :
      (f : io.File) (buf : List ℕ) (off : ℕ)
      → off + length buf ≤ len
      → (io.fread buf (io.fseek off f)).0 ≡ slice contents off (length buf)

length-zeros : (n : ℕ) → length (zeros n) ≡ n
length-zeros zero = refl
length-zeros (suc n) = ap suc (length-zeros n)

pub widen : (off : ℕ) → off < 2 ^ 31 → sign_extend off ≡ off
widen off lt = ground arith

at_main-other {ℓ} :
    {A : Type ℓ} (k : Command) (found rest : A) → k ≢ main → at_main k found rest ≡ rest
at_main-other segment_64 found rest ne = refl
at_main-other segment found rest ne = refl
at_main-other main found rest ne = absurd (ne refl)
at_main-other other found rest ne = refl

main_cases : (k : Command) → (k ≡ main) ⊎ (k ≢ main)
main_cases main = inl refl
main_cases segment_64 = inr λ e. cc
main_cases segment = inr λ e. cc
main_cases other = inr λ e. cc

module _ (fmt : Format) (contents : ℕ → ℕ) (is_swap : Bool) where
  -- The command at an offset of the file, in the byte order of the host.
  abbrev pub command_at : ℕ → List ℕ
  command_at off = swap_if is_swap fmt.swap_load_command (slice contents off fmt.load_command_size)

  -- Whether it is LC_MAIN, and where the next one begins.
  abbrev pub kind_at : ℕ → Command
  kind_at off = kind fmt (fmt.cmd (command_at off))

  abbrev pub next_at : ℕ → ℕ
  next_at off = off + fmt.cmdsize (command_at off)

  -- The offset of the first LC_MAIN among the `n` commands from `off` on.
  abbrev pub find_main : (n off : ℕ) → Option ℕ
  find_main zero off = none
  find_main (suc n) off = at_main (kind_at off) (some off) (find_main n (next_at off))

  -- The commands from `off` on, up to the first LC_MAIN, lie in a file of `len` bytes.
  abbrev pub Inside : (len n off : ℕ) → Type 0
  Inside len zero off = off ≤ len
  Inside len (suc n) off =
      (off + fmt.load_command_size ≤ len)
      × at_main (kind_at off) (off + fmt.entry_point_command_size ≤ len)
          (Inside len n (next_at off))

  -- What the walk answers: the command that it found, or the buffer as it was.
  abbrev pub entry_answer : (entry : List ℕ) → Option ℕ → ℕ × List ℕ
  entry_answer entry none = (1, entry)
  entry_answer entry (some off) = (0, slice contents off fmt.entry_point_command_size)

module _ (io : Stdio) (fmt : Format) (contents : ℕ → ℕ) (len : ℕ) (reads : Reads io contents len)
    (small : len < 2 ^ 31) where
  pub load_bytes-slice :
      (off size : ℕ) (f : io.File)
      → off + size ≤ len
      → (load_bytes io fmt off size f).0 ≡ slice contents off size
  unfolding load_bytes
  load_bytes-slice off size f h =
      let n = length-zeros size in
      ap (λ a. (io.fread (zeros size) (io.fseek a f)).0) (widen off (omega arith))
      ∙ reads.at f (zeros size) off (omega arith)
      ∙ ap (slice contents off) n

  module _ (is_swap : Bool) where
    load_command-slice :
        (off : ℕ) (f : io.File)
        → off + fmt.load_command_size ≤ len
        → (load_command io fmt off is_swap f).0 ≡ command_at fmt contents is_swap off
    unfolding load_command
    load_command-slice off f h =
        ap (swap_if is_swap fmt.swap_load_command) (load_bytes-slice off fmt.load_command_size f h)

    -- The file behind the command at an offset.
    abbrev behind : (off : ℕ) → io.File → io.File
    behind off f =
        let c = load_command io fmt off is_swap f in
        (load_segment io fmt (kind_at fmt contents is_swap off) off is_swap c.1).1

    step_main :
        (n off : ℕ) (entry : List ℕ) (f : io.File)
        → off + fmt.load_command_size ≤ len
        → kind_at fmt contents is_swap off ≡ main
        → read_segment_commands io fmt (suc n) off is_swap entry f
          ≡ load_main io fmt off (load_command io fmt off is_swap f).1
    unfolding read_segment_commands
    step_main n off entry f h e = rw (load_command-slice off f h, e) refl

    step_other :
        (n off : ℕ) (entry : List ℕ) (f : io.File)
        → off + fmt.load_command_size ≤ len
        → kind_at fmt contents is_swap off ≢ main
        → let p = read_segment_commands io fmt (suc n) off is_swap entry f in
          let q =
            read_segment_commands io fmt n
              (u32 (next_at fmt contents is_swap off))
              is_swap
              entry
              (behind off f) in
          (p.status ≡ q.status) × (p.entry ≡ q.entry)
    unfolding read_segment_commands
    step_other n off entry f h ne =
        rw (load_command-slice off f h, at_main-other (kind_at fmt contents is_swap off) _ _ ne)
          (refl, refl)

    Inside-le : (n off : ℕ) → Inside fmt contents is_swap len n off → off ≤ len
    Inside-le zero off h = h
    Inside-le (suc n) off h = omega (arith, h.0)

    pub read_segment_commands-find_main :
        (n off : ℕ) (entry : List ℕ) (f : io.File)
        → Inside fmt contents is_swap len n off
        → let p = read_segment_commands io fmt n off is_swap entry f in
          (p.status, p.entry)
          ≡ entry_answer fmt contents is_swap entry (find_main fmt contents is_swap n off)
    unfolding read_segment_commands load_main
    read_segment_commands-find_main zero off entry f h = refl
    read_segment_commands-find_main (suc n) off entry f h =
        elim (main_cases (kind_at fmt contents is_swap off)) [
          | inl e ↦
              rw (step_main n off entry f h.0 e, e)
                (ap (λ b. (0, b))
                  (load_bytes-slice off fmt.entry_point_command_size _ (rw e at h.1)))
          | inr ne ↦
              let next = next_at fmt contents is_swap off in
              let rest : Inside fmt contents is_swap len n next =
                subst (λ T. T) (at_main-other (kind_at fmt contents is_swap off) _ _ ne) h.1 in
              let wrap : u32 next ≡ next = omega (arith, Inside-le n next rest) in
              let (s, e) = step_other n off entry f h.0 ne in
              let g = behind off f in
              let same : (read_segment_commands io fmt n (u32 next) is_swap entry g)
                  ≡ read_segment_commands io fmt n next is_swap entry g =
                ap (λ a. read_segment_commands io fmt n a is_swap entry g) wrap in
              rw
                (
                  at_main-other (kind_at fmt contents is_swap off) (some off)
                      (find_main fmt contents is_swap n next) ne,
                  s,
                  e,
                  same,
                )
                (read_segment_commands-find_main n next entry g rest)
        ]
