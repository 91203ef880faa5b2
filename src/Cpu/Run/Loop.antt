-- ===== src/Cpu/Run/Loop.antt =====
-- `vcpu_run` as a relation, and a guest that it runs for ever.
use masters_proj.Prelude.{
  ℕ, zero, suc, ◌+◌, ◌*◌, ◌/◌, ◌%◌, ◌≡◌, ◌≢◌, refl, ◌↔◌, true, arith, ap, sym, ◌∙◌, subst, some,
  none, bit_and, ◌==◌, ne→==-false,
}
use native.Mathlib.Decide.{ℕ_discrete}
use mathlib.Core.Option.{some-injective}
use masters_proj.Prelude.Bits.{bit_and-low, bit_and-high}
use masters_proj.Cpu.State.{mov_cr, exit_reason, exit_qualification, rvmcs}
use masters_proj.Cpu.Emu.{emu_mov_cr}
use masters_proj.Cpu.Syscall.{Env, Machine}
use masters_proj.Cpu.Run.{handle_exit, enter_guest, vcpu_step, vcpu_run}

-- A run from one state to the state in which the loop ends.
pub data Runs (env : Env) : Machine env → Machine env → Type 0 where
  last : (s : Machine env) → (vcpu_step env s).0 ≢ 0 → Runs env s (vcpu_step env s).1
  next :
      (s s' : Machine env)
      → (vcpu_step env s).0 ≡ 0
      → Runs env (vcpu_step env s).1 s'
      → Runs env s s'

module _ (env : Env) where
  pub run_last :
      (n : ℕ) (s : Machine env)
      → (vcpu_step env s).0 ≢ 0
      → vcpu_run env (suc n) s ≡ some (vcpu_step env s).1
  unfolding vcpu_run
  run_last n s ne = rw (ne→==-false _ 0 ne) refl

  pub run_next :
      (n : ℕ) (s : Machine env)
      → (vcpu_step env s).0 ≡ 0
      → vcpu_run env (suc n) s ≡ vcpu_run env n (vcpu_step env s).1
  unfolding vcpu_run
  run_next n s e = let t : ((vcpu_step env s).0 == 0) ≡ true = ground arith in rw t refl

  Runs-vcpu_run : (n : ℕ) (s s' : Machine env) → vcpu_run env n s ≡ some s' → Runs env s s'
  unfolding vcpu_run
  Runs-vcpu_run zero s s' h = cc
  Runs-vcpu_run (suc n) s s' h = elim (ℕ_discrete (vcpu_step env s).0 0) [
    | yes e ↦ next s s' e (Runs-vcpu_run n _ s' (sym (run_next n s e) ∙ h))
    | no ne ↦ subst (Runs env s) (some-injective _ _ (sym (run_last n s ne) ∙ h)) (last s ne)
  ]

  vcpu_run-Runs : (s s' : Machine env) → Runs env s s' → (n : ℕ) × (vcpu_run env n s ≡ some s')
  vcpu_run-Runs s s' (last _ ne) = (1, run_last 0 s ne)
  vcpu_run-Runs s s' (next _ _ e r) =
      let (n, h) = vcpu_run-Runs _ s' r in (suc n, run_next n s e ∙ h)

  -- The loop with some fuel ends in the state `s'` exactly if a finite chain of iterations leads
  -- there, each but the last with `stop` 0.
  pub vcpu_run_iff : (s s' : Machine env) → ((n : ℕ) × (vcpu_run env n s ≡ some s')) ↔ Runs env s s'
  vcpu_run_iff s s' = (λ h. Runs-vcpu_run h.0 s s' h.1, vcpu_run-Runs s s')

  -- A run that is done with some fuel ends in the same state with more.
  pub vcpu_run-more :
      (n k : ℕ) (s s' : Machine env) → vcpu_run env n s ≡ some s' → vcpu_run env (n + k) s ≡ some s'
  unfolding vcpu_run
  vcpu_run-more zero k s s' h = cc
  vcpu_run-more (suc n) k s s' h =
      let count : suc n + k ≡ suc (n + k) = omega arith in
      rw count (elim (ℕ_discrete (vcpu_step env s).0 0) [
        | yes e ↦ run_next (n + k) s e ∙ vcpu_run-more n k _ s' (sym (run_next n s e) ∙ h)
        | no ne ↦ run_last (n + k) s ne ∙ sym (run_last n s ne) ∙ h
      ])

  mov_cr-other :
      (s : Machine env)
      → rvmcs env.hv 0 s.cpu exit_qualification % 256 ≢ 0
      → handle_exit env mov_cr s ≡ (0, s)
  unfolding handle_exit emu_mov_cr
  mov_cr-other s ne =
      let q = rvmcs env.hv 0 s.cpu exit_qualification in
      let lo : bit_and q 15 ≡ q % 16 = bit_and-low 4 q in
      let hi : bit_and q 240 ≡ q / 16 % 16 * 16 =
        bit_and-high 4 q 15 ∙ ap (λ x. x * 16) (bit_and-low 4 (q / 16)) in
      elim (ℕ_discrete (bit_and q 15) 0) [
        | no n ↦ rw (ne→==-false _ 0 n) refl
        | yes e ↦
            let t : (bit_and q 15 == 0) ≡ true = ground arith in
            let f : bit_and q 240 ≢ 0 = λ z. ne (omega arith) in rw (t, ne→==-false _ 0 f) refl
      ]

  step-mov_cr :
      (s : Machine env)
      → enter_guest env s ≡ (true, s)
      → env.hv.reason_of (rvmcs env.hv 0 s.cpu exit_reason) ≡ mov_cr
      → rvmcs env.hv 0 s.cpu exit_qualification % 256 ≢ 0
      → vcpu_step env s ≡ (0, s)
  unfolding vcpu_step
  step-mov_cr s enter reason ne = rw (enter, reason) (mov_cr-other s ne)

  -- Only a move to CR0 is emulated. A guest that stands at another access to a control register,
  -- and exits there with its state unchanged when it is entered, is never done: the handler neither
  -- stops the loop nor moves RIP on, so that no number of iterations ends the run.
  pub vcpu_run-stuck :
      (s : Machine env)
      → enter_guest env s ≡ (true, s)
      → env.hv.reason_of (rvmcs env.hv 0 s.cpu exit_reason) ≡ mov_cr
      → rvmcs env.hv 0 s.cpu exit_qualification % 256 ≢ 0
      → (n : ℕ) → vcpu_run env n s ≡ none
  unfolding vcpu_run
  vcpu_run-stuck s enter reason ne zero = refl
  vcpu_run-stuck s enter reason ne (suc n) =
      let step = step-mov_cr s enter reason ne in
      run_next n s (ap (λ r. r.0) step)
      ∙ ap (λ r. vcpu_run env n r.1) step
      ∙ vcpu_run-stuck s enter reason ne n
