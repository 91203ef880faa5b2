-- ===== src/Cpu/Syscall.antt =====
-- The system calls of a guest, src/emu_syscall.c, and the calls of the host and of a plugin that
-- answer them. A C `int` is its bit pattern, a number below 2 ^ 32; a `ssize_t` one below 2 ^ 64.
pub mod Ends
pub mod Effect
pub mod Buffer
pub mod Received
pub mod Sent
use masters_proj.Prelude.{
  ℕ, ◌+◌, ◌-◌, ◌%◌, ◌^◌, Bool, true, false, Option, none, some, ◌==◌, ltb, if◌then◌else◌, u32,
  sign_extend,
}
use mathlib.Core.Option
use masters_proj.Mem.State.{Mem, Status, success, failure}
use masters_proj.Mem.Gpa.{gpa_to_hva}
use masters_proj.Mem.Paging.{Locals, gva_to_gpa, vm_mem_verify}
use masters_proj.Cpu.State.{Reg, rax, rdx, rsi, rdi, Hypervisor, rreg, wreg}

-- A call on the host's bytes and on the rest of the world: its result, and both after it.
abbrev pub Call : Type 0 → Type 0 → Type 0
Call W A = (ℕ → ℕ) → W → A × (ℕ → ℕ) × W

-- The host's calls.
pub record Os (W : Type 0) : Type 0 where
  pub getchar : W → ℕ × W
  pub os_write : (fildes buf nbyte : ℕ) → Call W ℕ
  pub os_read : (fildes buf nbyte : ℕ) → Call W ℕ
  pub os_open : (path flags mode : ℕ) → Call W ℕ
  pub os_close : (fd : ℕ) → Call W ℕ

-- `struct plugin_ops`. A missing callback is NULL; one that declines the call answers `none`.
pub record PluginOps (W : Type 0) : Type 0 where
  pub cb_write : Option ((fildes buf nbyte : ℕ) → Call W (Option ℕ))
  pub cb_read : Option ((fildes buf nbyte : ℕ) → Call W (Option ℕ))
  pub cb_open : Option ((path flags mode : ℕ) → Call W (Option ℕ))
  pub cb_close : Option ((fd : ℕ) → Call W (Option ℕ))

-- What stays the same while a guest runs.
pub record Env : Type 1 where
  pub hv : Hypervisor
  pub World : Type 0
  pub os : Os World
  pub ops : PluginOps World
  pub syscall_interactive : Bool
  pub locals : Locals

-- What changes.
pub record Machine (env : Env) : Type 0 where
  pub cpu : env.hv.Vcpu
  pub mem : Mem
  pub world : env.World

-- What a handler returns: 0, 1, or -1.
pub data Outcome : Type 0 where
  handled quit failed : Outcome

-- A callback that declines leaves the call to the host, in the world after it.
abbrev pub settle : {W : Type 0} → Call W ℕ → Option ℕ × (ℕ → ℕ) × W → ℕ × (ℕ → ℕ) × W
settle host (some ret, b, w) = (ret, b, w)
settle host (none, b, w) = host b w

-- `ops->cb == NULL || ops->cb(...)`, and the host's call.
unfoldable pub answer : {W : Type 0} → Option (Call W (Option ℕ)) → Call W ℕ → Call W ℕ
answer none host b w = host b w
answer (some cb) host b w = settle host (cb b w)

module _ (env : Env) where
  abbrev pub reg : Machine env → Reg → ℕ
  reg s r = rreg env.hv s.cpu r

  abbrev pub set_reg : Reg → ℕ → Machine env → Machine env
  set_reg r v s = record s { cpu = wreg env.hv r v s.cpu }

  -- `gpa_to_hva(gva_to_gpa(gva))`.
  abbrev pub host_address : Machine env → ℕ → ℕ
  host_address s gva = gpa_to_hva s.mem (gva_to_gpa env.locals s.mem gva)

  -- The answer to a call, and RAX.
  unfoldable pub finish :
      (widen : ℕ → ℕ)
      → Option (Call env.World (Option ℕ))
      → Call env.World ℕ
      → Machine env
      → Machine env
  unfolding answer
  finish widen cb host s =
      let r = answer cb host s.mem.bytes s.world in
      set_reg rax (widen r.0) (record s { mem = record s.mem { bytes = r.1 }; world = r.2 })

  -- In interactive mode a key is read first, and `q` ends the run.
  unfoldable pub prompt :
      (Machine env → Outcome × Machine env) → Machine env → Outcome × Machine env
  prompt k s =
      let key = env.os.getchar s.world in
      let s' = record s { world = key.1 } in
      if env.syscall_interactive then (if key.0 % 256 == 113 then (quit, s') else k s') else k s

  abbrev pub on_success :
      Status → (Machine env → Outcome × Machine env) → Machine env → Outcome × Machine env
  on_success success k s = k s
  on_success failure k s = (failed, s)

  -- `vm_mem_verify` comes first in a call with a buffer.
  unfoldable pub verified :
      (gva nbyte : ℕ) → (Machine env → Outcome × Machine env) → Machine env → Outcome × Machine env
  verified gva nbyte k s = on_success (vm_mem_verify env.locals s.mem gva nbyte) k s

  unfoldable pub emu_syscall_write : Machine env → Outcome × Machine env
  unfolding finish prompt verified
  emu_syscall_write s =
      let fildes = u32 (reg s rdi) in
      let buf_gva = reg s rsi in
      let nbyte = reg s rdx in
      let buf = host_address s buf_gva in
      let cb = Option.map (λ f. f fildes buf nbyte) env.ops.cb_write in
      verified buf_gva nbyte
        (prompt λ s'. (handled, finish (λ ret. ret) cb (env.os.os_write fildes buf nbyte) s')) s

  unfoldable pub emu_syscall_open : Machine env → Outcome × Machine env
  unfolding finish prompt
  emu_syscall_open s =
      let path = host_address s (reg s rdi) in
      let flags = u32 (reg s rsi) in
      let mode = u32 (reg s rdx) in
      let cb = Option.map (λ f. f path flags mode) env.ops.cb_open in
      prompt (λ s'. (handled, finish sign_extend cb (env.os.os_open path flags mode) s')) s

  unfoldable pub emu_syscall_close : Machine env → Outcome × Machine env
  unfolding finish prompt
  emu_syscall_close s =
      let fd = u32 (reg s rdi) in
      let cb = Option.map (λ f. f fd) env.ops.cb_close in
      prompt (λ s'. (handled, finish sign_extend cb (env.os.os_close fd) s')) s

  unfoldable pub emu_syscall_read : Machine env → Outcome × Machine env
  unfolding finish prompt verified
  emu_syscall_read s =
      let fildes = u32 (reg s rdi) in
      let buf_gva = reg s rsi in
      let nbyte = reg s rdx in
      let buf = host_address s buf_gva in
      let cb = Option.map (λ f. f fildes buf nbyte) env.ops.cb_read in
      verified buf_gva nbyte
        (prompt λ s'. (handled, finish (λ ret. ret) cb (env.os.os_read fildes buf nbyte) s')) s

  -- The numbers are SYSCALL_WRITE, SYSCALL_OPEN, SYSCALL_CLOSE and SYSCALL_READ.
  unfoldable pub emu_syscall : Machine env → Outcome × Machine env
  unfolding emu_syscall_write emu_syscall_open emu_syscall_close emu_syscall_read
  emu_syscall s =
      let syscall_code = reg s rax in
      if syscall_code == 0x2000004
      then emu_syscall_write s
      else if syscall_code == 0x2000005
      then emu_syscall_open s
      else if syscall_code == 0x2000006
      then emu_syscall_close s
      else if syscall_code == 0x2000003
      then emu_syscall_read s
      else (failed, s)
