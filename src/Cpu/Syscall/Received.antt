-- ===== src/Cpu/Syscall/Received.antt =====
-- What the guest sees after a `read`.
use masters_proj.Prelude.{
  ℕ, ◌+◌, ◌-◌, ◌%◌, ◌≤◌, ◌<◌, ◌≡◌, refl, ◌∙◌, subst, ◌⊎◌, inl, inr, false, some, arith, u32,
}
use native.Mathlib.Decide.{ℕ_discrete, dec_lt}
use mathlib.Core.Option
use masters_proj.Mem.State.{Mem, success}
use masters_proj.Mem.Gpa.{gpa_to_hva}
use masters_proj.Mem.Gpa.Layout.{IsValid}
use masters_proj.Mem.Gpa.Lookup.{gpa_to_hva-Maps_iff}
use masters_proj.Mem.Access.View.{view, Mapped, gpa_to_hva-inj}
use masters_proj.Mem.Access.Alloc.{view-of, view-bytes}
use masters_proj.Mem.Paging.{gva_to_gpa, vm_mem_verify}
use masters_proj.Mem.Paging.Verify.{vm_mem_verify_iff}
use masters_proj.Cpu.State.{rax, rdi, rsi, rdx, Works, rreg-lt}
use masters_proj.Cpu.Syscall.{
  Env, Machine, handled, reg, set_reg, host_address, answer, finish, emu_syscall, emu_syscall_read,
}
use masters_proj.Cpu.Syscall.Ends.{prompt_off, verified_success}
use masters_proj.Cpu.Syscall.Buffer.{gva_to_gpa-page, Maps-page}

-- The bytes of the host before and after `k` bytes of data were stored in a buffer of `n`.
pub record Delivered (buf n k : ℕ) (content b b' : ℕ → ℕ) : Type 0 where
  pub count : k ≤ n
  pub inside : (i : ℕ) → i < k → b' (buf + i) ≡ content i
  pub outside : (h : ℕ) → (h < buf) ⊎ (buf + k ≤ h) → b' h ≡ b h

-- The same in guest memory, from an address on.
pub record Received (gpa k : ℕ) (content : ℕ → ℕ) (m m' : Mem) : Type 0 where
  pub inside : (i : ℕ) → i < k → view m' (gpa + i) ≡ some (content i)
  pub outside : (c : ℕ) → (c < gpa) ⊎ (gpa + k ≤ c) → view m' c ≡ view m c

-- Memory with other bytes.
gpa_to_hva-bytes :
    (m : Mem) (b' : ℕ → ℕ) (a : ℕ) → gpa_to_hva (record m { bytes = b' }) a ≡ gpa_to_hva m a
unfolding gpa_to_hva
gpa_to_hva-bytes m b' a = refl

view-unmapped :
    (m m' : Mem) (a : ℕ)
    → gpa_to_hva m' a ≡ gpa_to_hva m a
    → gpa_to_hva m a ≡ 0
    → view m' a ≡ view m a
unfolding view
view-unmapped m m' a e z = rw (e, z) refl

-- A buffer in one page stands in one piece in the host.
Delivered-Received :
    (m : Mem) (gpa n k : ℕ) (content b' : ℕ → ℕ)
    → IsValid m.regions
    → Mapped m gpa
    → gpa % 4096 + n ≤ 4096
    → Delivered (gpa_to_hva m gpa) n k content m.bytes b'
    → Received gpa k content m (record m { bytes = b' })
Delivered-Received m gpa n k content b' v h room d =
    let mm = (gpa_to_hva-Maps_iff m gpa _ v).0 (refl, h) in
    let at = λ (i : ℕ) (lt : i < k).
      (gpa_to_hva-Maps_iff m (gpa + i) _ v).1
        (Maps-page i 0 m.regions v.layout (omega (arith, d.count)) mm) in
    let m' : Mem = record m { bytes = b' } in
    let same = gpa_to_hva-bytes m b' in
    let apart : (c : ℕ)
        → (c < gpa) ⊎ (gpa + k ≤ c)
        → Mapped m c
        → (gpa_to_hva m c < gpa_to_hva m gpa) ⊎ (gpa_to_hva m gpa + k ≤ gpa_to_hva m c) =
      λ c o mc. elim (dec_lt (gpa_to_hva m c) (gpa_to_hva m gpa)) [
        | yes lt ↦ inl lt
        | no ge ↦ elim (dec_lt (gpa_to_hva m c) (gpa_to_hva m gpa + k)) [
          | no past ↦ inr (omega arith)
          | yes lt ↦
              let i = gpa_to_hva m c - gpa_to_hva m gpa in
              let hit : gpa_to_hva m c ≡ gpa_to_hva m (gpa + i) =
                omega (arith, (at i (omega arith)).0) in
              let is : c ≡ gpa + i = gpa_to_hva-inj m c (gpa + i) v mc hit in absurd (omega arith)
        ]
      ] in
    record {
      inside = λ i lt.
          view-of m' (gpa + i) (gpa_to_hva m gpa + i) (content i) (same (gpa + i) ∙ (at i lt).0)
            (at i lt).1 (d.inside i lt);
      outside = λ c o. elim (ℕ_discrete (gpa_to_hva m c) 0) [
        | yes z ↦ view-unmapped m m' c (same c) z
        | no mc ↦ view-bytes m m' c (same c) (d.outside (gpa_to_hva m c) (apart c o mc))
      ];
    }

-- The answer to a `read` of `nbyte` bytes to `buf` in the host, by the plugin or the host.
abbrev pub read_answer :
    (env : Env) → Machine env → (fildes buf nbyte : ℕ) → ℕ × (ℕ → ℕ) × env.World
read_answer env s fildes buf nbyte =
    answer (Option.map (λ f. f fildes buf nbyte) env.ops.cb_read) (env.os.os_read fildes buf nbyte)
      s.mem.bytes s.world

emu_syscall-read :
    (env : Env) (s : Machine env)
    → reg env s rax ≡ 0x2000003
    → env.syscall_interactive ≡ false
    → vm_mem_verify env.locals s.mem (reg env s rsi) (reg env s rdx) ≡ success
    → let a =
        read_answer env s
          (u32 (reg env s rdi))
          (host_address env s (reg env s rsi))
          (reg env s rdx) in
      emu_syscall env s ≡ (
        handled,
        set_reg env rax a.0 (record s { mem = record s.mem { bytes = a.1 }; world = a.2 }),
      )
unfolding emu_syscall emu_syscall_read finish
emu_syscall-read env s code quiet ok =
    let fildes = u32 (reg env s rdi) in
    let buf = host_address env s (reg env s rsi) in
    let nbyte = reg env s rdx in
    let cb = Option.map (λ f. f fildes buf nbyte) env.ops.cb_read in
    let host = env.os.os_read fildes buf nbyte in
    rw code (
      verified_success env _ _ _ s ok
      ∙ prompt_off env (λ s'. (handled, finish env (λ ret. ret) cb host s')) s quiet)

-- What a `read` with these arguments does, if its answer stores the content in its buffer.
abbrev pub Reads : (env : Env) → Machine env → (fildes gva nbyte : ℕ) → Type 0
Reads env s fildes gva nbyte =
    let a = read_answer env s (u32 fildes) (host_address env s gva) nbyte in
    (k : ℕ) (content : ℕ → ℕ)
    → 0 < nbyte
    → gva % 4096 + nbyte ≤ 4096
    → vm_mem_verify env.locals s.mem gva nbyte ≡ success
    → Delivered (host_address env s gva) nbyte k content s.mem.bytes a.1
    → (emu_syscall env s ≡ (
      handled,
      set_reg env rax a.0 (record s { mem = record s.mem { bytes = a.1 }; world = a.2 }),
    ))
      × Received (gva_to_gpa env.locals s.mem gva) k content s.mem (record s.mem { bytes = a.1 })

-- In a state with well-formed regions, a `read` that is not interactive.
pub emu_syscall-Reads :
    (env : Env) (s : Machine env)
    → Works env.hv
    → IsValid s.mem.regions
    → reg env s rax ≡ 0x2000003
    → env.syscall_interactive ≡ false
    → Reads env s (reg env s rdi) (reg env s rsi) (reg env s rdx)
emu_syscall-Reads env s works v code quiet k content some_bytes room ok d =
    let gva = reg env s rsi in
    let lt = rreg-lt env.hv works s.cpu rsi in
    let mapped : Mapped s.mem (gva_to_gpa env.locals s.mem gva) =
      subst (λ a. Mapped s.mem (gva_to_gpa env.locals s.mem a)) (omega arith)
        ((vm_mem_verify_iff env.locals s.mem gva (reg env s rdx) lt).0 ok 0 some_bytes) in
    let g = gva_to_gpa env.locals s.mem gva in
    let last : g % 4096 + (reg env s rdx - 1) < 4096 =
      (gva_to_gpa-page env.locals s.mem gva (reg env s rdx - 1) (omega arith)).1 in
    let fits : g % 4096 + reg env s rdx ≤ 4096 = omega (arith, last, some_bytes) in
    (
      emu_syscall-read env s code quiet ok,
      Delivered-Received s.mem g (reg env s rdx) k content _ v mapped fits d,
    )
