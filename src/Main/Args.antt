-- ===== src/Main/Args.antt =====
-- The loop of `main` that lays out the arguments of the application in guest memory.
use masters_proj.Prelude.{
  ℕ, ◌+◌, ◌*◌, ◌^◌, ◌≤◌, ◌<◌, ◌≡◌, refl, ◌⊎◌, List, [], ◌∷◌, ◌++◌, length, true, arith, ◌∙◌, subst,
  ◌==◌, if◌then◌else◌, u64,
}
use masters_proj.Prelude.Bytes.{le_bytes, length-le_bytes}
use masters_proj.Mem.State.{Mem, Status, success, failure}
use masters_proj.Mem.Gpa.Layout.{IsValid}
use masters_proj.Mem.Access.{vm_mem_write}
use masters_proj.Mem.Access.View.{view, Mapped, Holds}
use masters_proj.Mem.Access.Word.{MappedRange, Word, Holds-same, FullWrite, vm_mem_write-FullWrite}

-- A string with its NUL.
abbrev pub terminated : List ℕ → List ℕ
terminated str = str ++ 0 ∷ []

unfoldable pub write_args : (argv : List (List ℕ)) (argv_addr args_addr : ℕ) → Mem → Status × Mem
write_args [] argv_addr args_addr m = (success, m)
write_args (str ∷ argv) argv_addr args_addr m =
    let w = vm_mem_write argv_addr (le_bytes 8 args_addr) m in
    let nbytes = length (terminated str) in
    let v = vm_mem_write args_addr (terminated str) w.1 in
    let rest = write_args argv (u64 (argv_addr + 8)) (u64 (args_addr + nbytes)) v.1 in
    if w.0 == 8 then (if v.0 == nbytes then rest else (failure, v.1)) else (failure, w.1)

-- The bytes that the strings take.
abbrev pub total : List (List ℕ) → ℕ
total [] = 0
total (str ∷ argv) = length (terminated str) + total argv

-- What a C program finds there: an array of pointers to the strings.
abbrev pub ArgsAt : Mem → (argv_addr args_addr : ℕ) → List (List ℕ) → Type 0
ArgsAt m argv_addr args_addr [] = Unit
ArgsAt m argv_addr args_addr (str ∷ argv) =
    Word m argv_addr args_addr
    × Holds m args_addr (terminated str)
    × ArgsAt m (argv_addr + 8) (args_addr + length (terminated str)) argv

-- What the loop leaves.
pub record ArgsWritten (argv : List (List ℕ)) (argv_addr args_addr : ℕ) (m : Mem) (r : Status × Mem)
    : Type 0 where
  pub ok : r.0 ≡ success
  pub args : ArgsAt r.1 argv_addr args_addr argv
  pub outside :
      (c : ℕ)
      → (c < argv_addr) ⊎ (argv_addr + length argv * 8 ≤ c)
      → (c < args_addr) ⊎ (args_addr + total argv ≤ c)
      → view r.1 c ≡ view m c
  pub regions : r.1.regions ≡ m.regions
  pub pml4 : (r.1.pml4 ≡ m.pml4) × (r.1.pml4_gpa ≡ m.pml4_gpa)

-- One argument, and then the rest.
ArgsWritten-cons :
    (str : List ℕ) (argv : List (List ℕ)) (p a : ℕ) (m m₁ m₂ : Mem) (r : Status × Mem) {i j : ℕ}
    → p + length (str ∷ argv) * 8 ≤ a
    → FullWrite p (le_bytes 8 a) m (i, m₁)
    → FullWrite a (terminated str) m₁ (j, m₂)
    → ArgsWritten argv (p + 8) (a + length (terminated str)) m₂ r
    → ArgsWritten (str ∷ argv) p a m r
ArgsWritten-cons str argv p a m m₁ m₂ r apart w v rest = record {
  ok = rest.ok;
  args = (
    Holds-same m₁ r.1 p (le_bytes 8 a)
        (λ c mc lo hi. rest.outside c (omega arith) (omega arith) ∙ v.outside c (omega arith))
        w.holds,
    Holds-same m₂ r.1 a (terminated str) (λ c mc lo hi. rest.outside c (omega arith) (omega arith))
        v.holds,
    rest.args,
  );
  outside = λ c o o'.
      rest.outside c (omega arith) (omega arith)
      ∙ v.outside c (omega arith)
      ∙ w.outside c (omega arith);
  regions = rest.regions ∙ v.regions ∙ w.regions;
  pml4 = (rest.pml4.0 ∙ v.pml4.0 ∙ w.pml4.0, rest.pml4.1 ∙ v.pml4.1 ∙ w.pml4.1);
}

-- In a state with well-formed regions where the array and the strings have mapped memory, the array
-- before the strings with no overlap, the loop succeeds: the array holds the addresses of the
-- arguments, in order, each string stands at its address with its NUL, and the rest of guest
-- memory is as before.
pub write_args-ArgsWritten :
    (argv : List (List ℕ)) (argv_addr args_addr : ℕ) (m : Mem)
    → IsValid m.regions
    → MappedRange m argv_addr (length argv * 8)
    → MappedRange m args_addr (total argv)
    → argv_addr + length argv * 8 ≤ args_addr
    → args_addr + total argv < 2 ^ 64
    → ArgsWritten argv argv_addr args_addr m (write_args argv argv_addr args_addr m)
unfolding write_args
write_args-ArgsWritten [] argv_addr args_addr m valid ptrs strs apart room = record {
  ok = refl;
  args = tt;
  outside = λ c o o'. refl;
  regions = refl;
  pml4 = (refl, refl);
}
write_args-ArgsWritten (str ∷ argv) p a m valid ptrs strs apart room =
    let n = length (terminated str) in
    let w =
      vm_mem_write-FullWrite p (le_bytes 8 a) m valid
        λ i lt. ptrs i (omega (arith, length-le_bytes 8 a)) in
    let m₁ = (vm_mem_write p (le_bytes 8 a) m).1 in
    let v =
      vm_mem_write-FullWrite a (terminated str) m₁ w.valid
        λ i lt. w.kept (a + i) (strs i (omega arith)) in
    let m₂ = (vm_mem_write a (terminated str) m₁).1 in
    let kept : (c : ℕ) → Mapped m c → Mapped m₂ c = λ c mc. v.kept c (w.kept c mc) in
    let next : u64 (p + 8) ≡ p + 8 = omega arith in
    let next' : u64 (a + n) ≡ a + n = omega arith in
    let rest =
      write_args-ArgsWritten argv (p + 8) (a + n) m₂ v.valid
        (λ i lt. subst (Mapped m₂) (omega arith) (kept (p + (8 + i)) (ptrs (8 + i) (omega arith))))
        (λ i lt. subst (Mapped m₂) (omega arith) (kept (a + (n + i)) (strs (n + i) (omega arith))))
        (omega arith) (omega arith) in
    let eight : ((vm_mem_write p (le_bytes 8 a) m).0 == 8) ≡ true = ground (arith, w.count) in
    let whole : ((vm_mem_write a (terminated str) m₁).0 == n) ≡ true = ground (arith, v.count) in
    rw (eight, whole, next, next') (ArgsWritten-cons str argv p a m m₁ m₂ _ apart w v rest)
