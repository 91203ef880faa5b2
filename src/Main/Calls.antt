-- ===== src/Main/Calls.antt =====
-- The calls of `main` on the virtual machine, on all its paths.
use masters_proj.Prelude.{
  ℕ, ◌≡◌, ◌⊎◌, Bool, true, false, List, ◌∷◌, Option, none, some, ap, length, if◌then◌else◌,
}
use masters_proj.Mem.State.{Status, success, failure}
use masters_proj.Main.{
  Site, VmCall, creates_vm, creates_vcpu, destroys_vcpu, destroys_vm, Process, Label, vcpu_destroy,
  vm_mem_destroy, vm_destroy, Step, proceeds, jumps, and_next, unless, set_vcpu, create_vm,
  init_memory, create_vcpu, setup_vcpu, load_kernel, load_policy, load_app, setup_args, push_value,
  push_args, launch,
}

-- What a process has called when it stands at a label: the virtual CPU is asked for before the jump
-- to `vcpu_destroy`, and only then.
abbrev pub At : {site : Site} → List VmCall → Label → Process site → Type 0
At calls vcpu_destroy s = s.calls ≡ creates_vcpu ∷ creates_vm ∷ calls
At calls vm_mem_destroy s = s.calls ≡ creates_vm ∷ calls
At calls vm_destroy s = s.calls ≡ creates_vm ∷ calls

-- A stage ends so that a process which goes on has made the calls `now`.
pub data Stage {site : Site} (calls now : List VmCall) : Step site → Type 0 where
  goes : {s : Process site} → s.calls ≡ now → Stage calls now (proceeds s)
  stops :
      {to : Label} {ret_val : ℕ} {s : Process site}
      → At calls to s
      → Stage calls now (jumps to ret_val s)

abbrev pub one : List VmCall → List VmCall
one calls = creates_vm ∷ calls

abbrev pub two : List VmCall → List VmCall
two calls = creates_vcpu ∷ creates_vm ∷ calls

module _ {site : Site} (calls : List VmCall) where
  Stage-and_next :
      {now later : List VmCall} {r : Step site} (k : Process site → Step site)
      → Stage calls now r
      → ((s : Process site) → s.calls ≡ now → Stage calls later (k s))
      → Stage calls later (and_next r k)
  Stage-and_next k (goes e) next = next _ e
  Stage-and_next k (stops a) next = stops a

  Stage-unless :
      (to : Label) {now : List VmCall} (ret_val : ℕ) (st : Status) (s : Process site)
      → s.calls ≡ now
      → At calls to s
      → Stage calls now (unless to ret_val st s)
  Stage-unless to ret_val success s e a = goes e
  Stage-unless to ret_val failure s e a = stops a

  Stage-if :
      {now : List VmCall} {r r' : Step site} (b : Bool)
      → Stage calls now r
      → Stage calls now r'
      → Stage calls now (if b then r else r')
  Stage-if true h h' = h
  Stage-if false h h' = h'

  create_vm-Stage : (s : Process site) → s.calls ≡ calls → Stage calls (one calls) (create_vm s)
  unfolding create_vm
  create_vm-Stage s e =
      let made = ap (λ cs. creates_vm ∷ cs) e in Stage-if site.hv_vm_create (goes made) (stops made)

  Stage-vcpu :
      (o : Option site.hv.Vcpu) (s : Process site)
      → s.calls ≡ one calls
      → Stage calls (two calls) (set_vcpu o s)
  Stage-vcpu none s e = stops (ap (λ cs. creates_vcpu ∷ cs) e)
  Stage-vcpu (some c) s e = goes (ap (λ cs. creates_vcpu ∷ cs) e)

  setup_vcpu-Stage :
      (s : Process site) → s.calls ≡ two calls → Stage calls (two calls) (setup_vcpu s)
  unfolding setup_vcpu
  setup_vcpu-Stage s e = Stage-if _ (goes e) (stops e)

  load_policy-Stage :
      (path : Option (List ℕ)) (s : Process site)
      → s.calls ≡ two calls
      → Stage calls (two calls) (load_policy path s)
  unfolding load_policy
  load_policy-Stage none s e = goes e
  load_policy-Stage (some path) s e = Stage-unless vcpu_destroy 0 _ _ e e

  pub launch-Stage :
      (kernel : List ℕ) (plugin : Option (List ℕ)) (app : List ℕ) (args : List (List ℕ))
      (s : Process site)
      → s.calls ≡ calls
      → Stage calls (two calls) (launch kernel plugin app args s)
  unfolding launch init_memory create_vcpu load_kernel load_app setup_args push_args push_value
  launch-Stage kernel plugin app args s e =
      let vm =
        Stage-and_next init_memory (create_vm-Stage s e)
          (λ s e. Stage-unless vm_mem_destroy 1 _ _ e e) in
      let cpu =
        Stage-and_next setup_vcpu (Stage-and_next create_vcpu vm (Stage-vcpu site.hv_vcpu_create))
          setup_vcpu-Stage in
      let kernel =
        Stage-and_next (load_kernel kernel) cpu (λ s e. Stage-unless vcpu_destroy 0 _ _ e e) in
      let policy = Stage-and_next (load_policy plugin) kernel (load_policy-Stage plugin) in
      let ready =
        Stage-and_next (load_app app) policy (λ s e. Stage-unless vcpu_destroy 0 _ _ e e) in
      let set =
        Stage-and_next (setup_args (app ∷ args)) ready
          (λ s e. Stage-unless vcpu_destroy 0 _ _ e e) in
      Stage-and_next (push_args (length (app ∷ args))) set (λ s e. goes e)

-- What `main` has called by its end, if it created a virtual machine.
abbrev pub Ended : (before : List VmCall) (after : List VmCall) → Type 0
Ended before after =
    (after ≡ destroys_vm ∷ creates_vm ∷ before)
    ⊎ (after ≡ destroys_vm ∷ destroys_vcpu ∷ creates_vcpu ∷ creates_vm ∷ before)
