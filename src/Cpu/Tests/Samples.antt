-- ===== src/Cpu/Tests/Samples.antt =====
-- A CPU whose registers and fields are two functions, a host, and a guest with one page of memory
-- and no page tables.
use masters_proj.Prelude.{
  ℕ, ◌+◌, ◌%◌, ◌^◌, ◌<◌, ◌≡◌, refl, ◌∙◌, [], ◌∷◌, true, false, none, some, arith, ap, ◌==◌,
  if◌then◌else◌,
}
use masters_proj.Mem.State.{Mem}
use masters_proj.Mem.Gpa.{locate, gpa_to_hva}
use masters_proj.Mem.Gpa.Layout.{IsValid}
use masters_proj.Mem.Access.View.{Mapped}
use masters_proj.Cpu.State.{Reg, Field, other, mov_cr, hlt, Hypervisor, Works}
use masters_proj.Cpu.Syscall.{Env, Machine}

unfoldable pub Reg_discrete : Discrete Reg
Reg_discrete = hlevel

unfoldable pub Field_discrete : Discrete Field
Field_discrete = hlevel

-- `v` where the decision is yes.
abbrev pick : {P : Type 0} → Dec P → (v w : ℕ) → ℕ
pick (yes p) v w = v
pick (no n) v w = w

pick-yes : {P : Type 0} (d : Dec P) (v w : ℕ) → P → pick d v w ≡ v
pick-yes (yes p) v w q = refl
pick-yes (no n) v w q = absurd (n q)

pick-no : {P : Type 0} (d : Dec P) (v w : ℕ) → ¬ P → pick d v w ≡ w
pick-no (yes p) v w n = absurd (n p)
pick-no (no _) v w n = refl

pub record SampleCpu : Type 0 where
  pub regs : Reg → ℕ
  pub fields : Field → ℕ

abbrev pub sample_cpu : SampleCpu
sample_cpu = record { regs = λ r. 0; fields = λ f. 0 }

abbrev pub sample_hv : Hypervisor
sample_hv = record {
  Vcpu = SampleCpu;
  read_register = λ c r. some (c.regs r % 2 ^ 64);
  write_register = λ r v c. (true, record c { regs = λ s. pick (Reg_discrete r s) v (c.regs s) });
  read_vmcs = λ c f. some (c.fields f % 2 ^ 64);
  write_vmcs = λ f v c. record c { fields = λ g. pick (Field_discrete f g) v (c.fields g) };
  enable_native_msr = λ msr c. (true, c);
  run = λ c m. (true, c, m);
  reason_of = λ v. if v == 28 then mov_cr else if v == 12 then hlt else other;
}

small : (v : ℕ) → v < 2 ^ 64 → v % 2 ^ 64 ≡ v
small v lt = omega arith

pub sample_works : Works sample_hv
sample_works = record {
  write_ok = λ r v c. refl;
  reg_read = λ c r. (c.regs r % 2 ^ 64, refl, omega arith);
  reg_same = λ r v c lt.
      ap some (ap (λ x. x % 2 ^ 64) (pick-yes (Reg_discrete r r) v _ refl) ∙ small v lt);
  reg_other = λ r s v c ne. ap some (ap (λ x. x % 2 ^ 64) (pick-no (Reg_discrete r s) v _ ne));
  vmcs_read = λ c f. (c.fields f % 2 ^ 64, refl, omega arith);
  vmcs_same = λ f v c lt.
      ap some (ap (λ x. x % 2 ^ 64) (pick-yes (Field_discrete f f) v _ refl) ∙ small v lt);
  vmcs_other = λ f g v c ne. ap some (ap (λ x. x % 2 ^ 64) (pick-no (Field_discrete f g) v _ ne));
  reg_vmcs = λ f v c r ne. refl;
  vmcs_reg = λ r v c f ne. refl;
}

abbrev pub sample_env : Env
sample_env = record {
  hv = sample_hv;
  World = ℕ;
  os = record {
    getchar = λ w. (w, w + 1);
    os_write = λ fildes buf nbyte b w. (nbyte, b, w);
    os_read = λ fildes buf nbyte b w. (nbyte, b, w);
    os_open = λ path flags mode b w. (3, b, w);
    os_close = λ fd b w. (0, b, w);
  };
  ops = record { cb_write = none; cb_read = none; cb_open = none; cb_close = none };
  syscall_interactive = false;
  locals = record { entry = 77; table = 88 };
}

abbrev pub page_mem : Mem
page_mem = record {
  regions = record { gpa = 0; npages = 1; hva = 4096 } ∷ [];
  pml4 = 0;
  pml4_gpa = 0;
  bytes = λ a. 0;
  log = [];
}

pub page_mem-IsValid : IsValid page_mem.regions
page_mem-IsValid = record {
  layout = (
    omega arith,
    record { nonempty = omega arith; aligned = refl; bounded = omega arith; mapped = omega arith },
    tt,
  );
  separate = (tt, tt);
}

pub page_mem-Mapped : (a : ℕ) → a < 4096 → Mapped page_mem a
unfolding gpa_to_hva locate
page_mem-Mapped a lt = ground arith

abbrev pub machine : SampleCpu → Machine sample_env
machine c = record { cpu = c; mem = page_mem; world = 0 }

-- Eight pages, with a root table behind them.
abbrev pub setup_mem : Mem
setup_mem = record {
  regions = record { gpa = 0; npages = 8; hva = 4096 } ∷ [];
  pml4 = 4096;
  pml4_gpa = 0x8000;
  bytes = λ a. 0;
  log = [];
}

pub setup_mem-IsValid : IsValid setup_mem.regions
setup_mem-IsValid = record {
  layout = (
    omega arith,
    record { nonempty = omega arith; aligned = refl; bounded = omega arith; mapped = omega arith },
    tt,
  );
  separate = (tt, tt);
}

pub setup_mem-Mapped : (a : ℕ) → a < 0x8000 → Mapped setup_mem a
unfolding gpa_to_hva locate
setup_mem-Mapped a lt = ground arith
