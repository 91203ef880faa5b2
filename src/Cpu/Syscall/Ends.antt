-- ===== src/Cpu/Syscall/Ends.antt =====
-- What the parts of a system call keep, and how a call with a prompt or a buffer ends.
use masters_proj.Prelude.{
  ℕ, ◌%◌, ◌≡◌, ◌≢◌, refl, ◌⊎◌, inl, inr, ◌↔◌, Bool-cases, true, false, Option, ◌==◌,
}
use masters_proj.Mem.State.{Status, success, failure}
use masters_proj.Mem.Paging.{vm_mem_verify}
use masters_proj.Cpu.State.{Reg, rax, Works, rreg-wreg_other}
use masters_proj.Cpu.Syscall.{
  Call, Outcome, handled, quit, failed, Env, Machine, reg, finish, prompt, verified,
}

-- What every call leaves as it was: all registers but RAX, the regions and the root table.
pub record Keeps (env : Env) (s s' : Machine env) : Type 0 where
  pub regs : (r : Reg) → rax ≢ r → reg env s' r ≡ reg env s r
  pub regions : s'.mem.regions ≡ s.mem.regions
  pub pml4 : s'.mem.pml4 ≡ s.mem.pml4
  pub pml4_gpa : s'.mem.pml4_gpa ≡ s.mem.pml4_gpa

-- The results of a call, and what each implies.
pub record Ends (env : Env) (s : Machine env) (r : Outcome × Machine env) : Type 0 where
  pub keeps : Keeps env s r.1
  pub unchanged : r.0 ≡ failed → r.1 ≡ s
  pub asked : r.0 ≡ quit → env.syscall_interactive ≡ true

-- The state after a key was read.
abbrev keyed : (env : Env) → Machine env → Machine env
keyed env s = record s { world = (env.os.getchar s.world).1 }

Status-cases : (s : Status) → (s ≡ success) ⊎ (s ≡ failure)
Status-cases success = inl refl
Status-cases failure = inr refl

module _ (env : Env) where
  module _ (k : Machine env → Outcome × Machine env) (s : Machine env) where
    pub prompt_off : env.syscall_interactive ≡ false → prompt env k s ≡ k s
    unfolding prompt
    prompt_off e = rw e refl

    prompt_quit :
        env.syscall_interactive ≡ true
        → ((env.os.getchar s.world).0 % 256 == 113) ≡ true
        → prompt env k s ≡ (quit, keyed env s)
    unfolding prompt
    prompt_quit e q = rw (e, q) refl

    prompt_go :
        env.syscall_interactive ≡ true
        → ((env.os.getchar s.world).0 % 256 == 113) ≡ false
        → prompt env k s ≡ k (keyed env s)
    unfolding prompt
    prompt_go e q = rw (e, q) refl

  pub verified_success :
      (gva n : ℕ) (k : Machine env → Outcome × Machine env) (s : Machine env)
      → vm_mem_verify env.locals s.mem gva n ≡ success
      → verified env gva n k s ≡ k s
  unfolding verified
  verified_success gva n k s e = rw e refl

  verified_failure :
      (gva n : ℕ) (k : Machine env → Outcome × Machine env) (s : Machine env)
      → vm_mem_verify env.locals s.mem gva n ≡ failure
      → verified env gva n k s ≡ (failed, s)
  unfolding verified
  verified_failure gva n k s e = rw e refl

  Keeps-world : (s s' : Machine env) → Keeps env (keyed env s) s' → Keeps env s s'
  Keeps-world s s' k = record {
    regs = k.regs;
    regions = k.regions;
    pml4 = k.pml4;
    pml4_gpa = k.pml4_gpa;
  }

  Keeps-refl : (s : Machine env) → Keeps env s s
  Keeps-refl s = record { regs = λ r ne. refl; regions = refl; pml4 = refl; pml4_gpa = refl }

  pub failed-Ends : (s : Machine env) → Ends env s (failed, s)
  failed-Ends s = record { keeps = Keeps-refl s; unchanged = λ _. refl; asked = λ e. cc }

  module _ (works : Works env.hv) where
    finish-Keeps :
        (widen : ℕ → ℕ) (cb : Option (Call env.World (Option ℕ))) (host : Call env.World ℕ)
        (s : Machine env)
        → Keeps env s (finish env widen cb host s)
    unfolding finish
    finish-Keeps widen cb host s = record {
      regs = λ r ne. rreg-wreg_other env.hv works s.cpu _ rax r ne;
      regions = refl;
      pml4 = refl;
      pml4_gpa = refl;
    }

    -- A call that asks the user first, and does not fail then.
    prompt-Ends :
        (f : Machine env → Machine env) (s : Machine env)
        → ((s' : Machine env) → Keeps env s' (f s'))
        → Ends env s (prompt env (λ s'. (handled, f s')) s)
          × ((prompt env (λ s'. (handled, f s')) s).0 ≢ failed)
    prompt-Ends f s keeps = elim (Bool-cases env.syscall_interactive) [
      | inr off ↦
          rw (prompt_off _ s off)
            (record { keeps = keeps s; unchanged = λ e. cc; asked = λ e. cc }, λ e. cc)
      | inl on ↦ elim (Bool-cases ((env.os.getchar s.world).0 % 256 == 113)) [
        | inl q ↦ rw (prompt_quit _ s on q) (
          record {
            keeps = Keeps-world s (keyed env s) (Keeps-refl (keyed env s));
            unchanged = λ e. cc;
            asked = λ e. on;
          },
          λ e. cc,
        )
        | inr go ↦ rw (prompt_go _ s on go) (
          record {
            keeps = Keeps-world s _ (keeps (keyed env s));
            unchanged = λ e. cc;
            asked = λ e. on;
          },
          λ e. cc,
        )
      ]
    ]

    pub call-Ends :
        (widen : ℕ → ℕ) (cb : Option (Call env.World (Option ℕ))) (host : Call env.World ℕ)
        (s : Machine env)
        → let r = prompt env (λ s'. (handled, finish env widen cb host s')) s in
          Ends env s r × (r.0 ≢ failed)
    call-Ends widen cb host s =
        prompt-Ends (finish env widen cb host) s (finish-Keeps widen cb host)

    -- A call with a buffer fails exactly if the buffer is not mapped.
    pub buffer-Ends :
        (gva nbyte : ℕ) (cb : Option (Call env.World (Option ℕ))) (host : Call env.World ℕ)
        (s : Machine env)
        → let r =
            verified env gva nbyte (prompt env λ s'. (handled, finish env (λ v. v) cb host s')) s in
          Ends env s r × ((r.0 ≡ failed) ↔ (vm_mem_verify env.locals s.mem gva nbyte ≡ failure))
    buffer-Ends gva nbyte cb host s =
        elim (Status-cases (vm_mem_verify env.locals s.mem gva nbyte)) [
          | inl ok ↦
              let (ends, ne) = call-Ends (λ v. v) cb host s in
              rw (verified_success gva nbyte _ s ok, ok) (ends, (λ e. absurd (ne e), λ e. cc))
          | inr bad ↦
              rw (verified_failure gva nbyte _ s bad, bad) (failed-Ends s, (λ _. refl, λ _. refl))
        ]
