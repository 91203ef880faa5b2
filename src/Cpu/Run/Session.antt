-- ===== src/Cpu/Run/Session.antt =====
-- A whole run of a guest that writes, and what the host has received at its end.
use masters_proj.Prelude.{
  ℕ, suc, ◌+◌, ◌%◌, ◌≤◌, ◌<◌, ◌≡◌, ◌≢◌, refl, ap, ◌∙◌, sym, true, false, some, none, List, [], ◌∷◌,
  ◌++◌, length, arith, u32,
}
use mathlib.Core.List.{append-nil, append_assoc}
use mathlib.Core.Option
use mathlib.Core.Option.{some-injective}
use masters_proj.Prelude.Bytes.{slice}
use masters_proj.Mem.State.{success}
use masters_proj.Mem.Gpa.Layout.{IsValid}
use masters_proj.Mem.Access.View.{view}
use masters_proj.Mem.Paging.{gva_to_gpa, vm_mem_verify}
use masters_proj.Cpu.State.{rax, rdi, rsi, rdx, exit_reason, other, Works, rvmcs}
use masters_proj.Cpu.Syscall.{Env, Machine, reg, host_address, answer}
use masters_proj.Cpu.Syscall.Sent.{write_answer}
use masters_proj.Cpu.Run.{at_syscall, enter_guest, vcpu_step, vcpu_run}
use masters_proj.Cpu.Run.Loop.{run_last, run_next}
use masters_proj.Cpu.Run.Service.{answered, vcpu_step-Sent}

-- What a host does that completes every write: it appends the bytes to an output.
pub record Appends (env : Env) (output : env.World → List ℕ) : Type 0 where
  pub host :
      (fildes buf nbyte : ℕ) (b : ℕ → ℕ) (w : env.World)
      → output (env.os.os_write fildes buf nbyte b w).2 ≡ output w ++ slice b buf nbyte
  pub no_plugin : env.ops.cb_write ≡ none
  pub not_interactive : env.syscall_interactive ≡ false

-- The guest sees these bytes from an address on.
abbrev pub Sees : (env : Env) → Machine env → (gva : ℕ) → List ℕ → Type 0
Sees env g gva [] = Unit
Sees env g gva (b ∷ bs) =
    (view g.mem (gva_to_gpa env.locals g.mem gva) ≡ some b) × Sees env g (gva + 1) bs

-- The guest leaves, in the state `g`, to write these bytes from a buffer in one page.
pub record WritesNow (env : Env) (s g : Machine env) (bs : List ℕ) : Type 0 where
  pub went : enter_guest env s ≡ (true, g)
  pub reason : env.hv.reason_of (rvmcs env.hv 0 g.cpu exit_reason) ≡ other
  pub call : at_syscall env g ≡ true
  pub code : reg env g rax ≡ 0x2000004
  pub valid : IsValid g.mem.regions
  pub some_bytes : 0 < reg env g rdx
  pub in_page : reg env g rsi % 4096 + reg env g rdx ≤ 4096
  pub accepted : vm_mem_verify env.locals g.mem (reg env g rsi) (reg env g rdx) ≡ success
  pub count : length bs ≡ reg env g rdx
  pub sees : Sees env g (reg env g rsi) bs

-- The state after such a write.
abbrev pub after_write : (env : Env) → Machine env → Machine env
after_write env g =
    answered env g (
      write_answer env g (u32 (reg env g rdi)) (host_address env g (reg env g rsi)) (reg env g rdx))

-- A run from one state to another in which the guest writes these buffers; all other exits, the
-- last one included, leave the output as it is.
pub data Session (env : Env) (output : env.World → List ℕ)
    : Machine env → List (List ℕ) → Machine env → Type 0 where
  ends :
      (s : Machine env)
      → (vcpu_step env s).0 ≢ 0
      → output (vcpu_step env s).1.world ≡ output s.world
      → Session env output s [] (vcpu_step env s).1
  silent :
      (s e : Machine env) (bufs : List (List ℕ))
      → (vcpu_step env s).0 ≡ 0
      → output (vcpu_step env s).1.world ≡ output s.world
      → Session env output (vcpu_step env s).1 bufs e
      → Session env output s bufs e
  writes :
      (s g e : Machine env) (bs : List ℕ) (bufs : List (List ℕ))
      → WritesNow env s g bs
      → Session env output (after_write env g) bufs e
      → Session env output s (bs ∷ bufs) e

abbrev pub joined : List (List ℕ) → List ℕ
joined [] = []
joined (bs ∷ bufs) = bs ++ joined bufs

-- The host's bytes from an address on, where they are those that the guest sees.
slice-Sees :
    (env : Env) (g : Machine env) (b : ℕ → ℕ) (bs : List ℕ) (gva buf : ℕ)
    → ((i : ℕ)
        → i < length bs
        → view g.mem (gva_to_gpa env.locals g.mem (gva + i)) ≡ some (b (buf + i)))
    → Sees env g gva bs
    → slice b buf (length bs) ≡ bs
slice-Sees env g b [] gva buf same sees = refl
slice-Sees env g b (x ∷ bs) gva buf same sees =
    let at = λ (a : ℕ). view g.mem (gva_to_gpa env.locals g.mem a) in
    let first : b buf ≡ x = some-injective _ _ (
      ap (λ h. some (b h)) (omega arith)
      ∙ sym (same 0 (omega arith))
      ∙ ap at (omega arith)
      ∙ sees.0) in
    let rest =
      slice-Sees env g b bs (gva + 1) (buf + 1)
        (λ i lt.
          ap at (omega arith) ∙ same (suc i) (omega arith) ∙ ap (λ h. some (b h)) (omega arith))
        sees.1 in
    ap (λ y. y ∷ slice b (buf + 1) (length bs)) first ∙ ap (λ ys. x ∷ ys) rest

module _ (env : Env) (output : env.World → List ℕ) (appends : Appends env output) where
  -- A write with no plugin is the host's.
  write_answer-host :
      (g : Machine env) (fildes buf nbyte : ℕ)
      → output (write_answer env g fildes buf nbyte).2
        ≡ output g.world ++ slice g.mem.bytes buf nbyte
  unfolding answer
  write_answer-host g fildes buf nbyte =
      ap
        (λ cb.
          output
            (answer (Option.map (λ f. f fildes buf nbyte) cb) (env.os.os_write fildes buf nbyte)
              g.mem.bytes g.world).2)
        appends.no_plugin
      ∙ appends.host fildes buf nbyte g.mem.bytes g.world

  enter_guest-world : (s g : Machine env) → enter_guest env s ≡ (true, g) → s.world ≡ g.world
  unfolding enter_guest
  enter_guest-world s g e = ap (λ r. r.1.world) e

  -- One write.
  vcpu_step-writes :
      (works : Works env.hv) (s g : Machine env) (bs : List ℕ)
      → WritesNow env s g bs
      → (vcpu_step env s ≡ (0, after_write env g))
        × (output (after_write env g).world ≡ output s.world ++ bs)
  vcpu_step-writes works s g bs w =
      let buf = host_address env g (reg env g rsi) in
      let (does, same) =
        vcpu_step-Sent env works s g w.went w.reason w.call w.code w.valid appends.not_interactive
          w.some_bytes w.in_page w.accepted in
      let sent : slice g.mem.bytes buf (reg env g rdx) ≡ bs =
        ap (slice g.mem.bytes buf) (sym w.count)
        ∙ slice-Sees env g g.mem.bytes bs (reg env g rsi) buf
            (λ i lt. same i (omega (arith, lt, w.count))) w.sees in
      (
        does,
        write_answer-host g (u32 (reg env g rdi)) buf (reg env g rdx)
            ∙ ap (λ bytes. output g.world ++ bytes) sent
            ∙ ap (λ v. output v ++ bs) (sym (enter_guest-world s g w.went)),
      )

  -- On a CPU whose calls succeed, with a host that appends every write to an output, with no
  -- plugin for writes and not interactively: a run in which the guest writes some buffers, each
  -- in one page, ends with enough fuel, and the output is then what it was before, followed by
  -- the bytes that the guest saw in these buffers when it wrote them, all of them and in order.
  pub vcpu_run-Session :
      (works : Works env.hv) (s e : Machine env) (bufs : List (List ℕ))
      → Session env output s bufs e
      → (fuel : ℕ) × (vcpu_run env fuel s ≡ some e)
        × (output e.world ≡ output s.world ++ joined bufs)
  vcpu_run-Session works s e bufs (ends _ stop same) =
      (1, run_last env 0 s stop, same ∙ sym (append-nil (output s.world)))
  vcpu_run-Session works s e bufs (silent _ _ _ go same rest) =
      let (n, runs, out) = vcpu_run-Session works (vcpu_step env s).1 e bufs rest in
      (suc n, run_next env n s go ∙ runs, out ∙ ap (λ o. o ++ joined bufs) same)
  vcpu_run-Session works s e bufs (writes _ g _ bs later now rest) =
      let (does, sent) = vcpu_step-writes works s g bs now in
      let (n, runs, out) = vcpu_run-Session works (after_write env g) e later rest in
      (
        suc n,
        run_next env n s (ap (λ r. r.0) does) ∙ ap (λ r. vcpu_run env n r.1) does ∙ runs,
        out ∙ ap (λ o. o ++ joined later) sent ∙ append_assoc (output s.world) bs (joined later),
      )
