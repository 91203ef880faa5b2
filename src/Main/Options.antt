-- ===== src/Main/Options.antt =====
-- The options of the command line in `main` of src/hvexec.c, from what `getopt` returns.
pub mod Last
use masters_proj.Prelude.{
  ℕ, Bool, true, false, ◌&&◌, List, [], ◌∷◌, Option, none, some, ◌==◌, if◌then◌else◌,
}
use masters_proj.Logging.{LogLevel, debug, info, warn, error, silent}

-- An option with `optarg`, or a character that is none of them.
pub data Opt : Type 0 where
  opt_i : Opt
  opt_l opt_o opt_k opt_s : (optarg : List ℕ) → Opt
  opt_other : Opt

-- The locals that the options set, and `syscall_interactive`. `none` is stdout, or NULL.
pub record Settings : Type 0 where
  pub syscall_interactive : Bool
  pub log_level : LogLevel
  pub log_output : Option (List ℕ)
  pub kernel_path : Option (List ℕ)
  pub plugin_path : Option (List ℕ)

abbrev pub defaults : Settings
defaults = record {
  syscall_interactive = false;
  log_level = debug;
  log_output = none;
  kernel_path = none;
  plugin_path = none;
}

-- `!strcmp(s, t)`.
unfoldable pub same : (s t : List ℕ) → Bool
same [] [] = true
same [] (c ∷ t) = false
same (b ∷ s) [] = false
same (b ∷ s) (c ∷ t) = b == c && same s t

-- The names of the levels, in ASCII.
abbrev pub level_names : List (List ℕ × LogLevel)
level_names =
    (68 ∷ 69 ∷ 66 ∷ 85 ∷ 71 ∷ [], debug)
    ∷ (73 ∷ 78 ∷ 70 ∷ 79 ∷ [], info)
    ∷ (87 ∷ 65 ∷ 82 ∷ 78 ∷ [], warn)
    ∷ (69 ∷ 82 ∷ 82 ∷ 79 ∷ 82 ∷ [], error)
    ∷ (83 ∷ 73 ∷ 76 ∷ 69 ∷ 78 ∷ 84 ∷ [], silent)
    ∷ []

unfoldable pub find_level : List ℕ → List (List ℕ × LogLevel) → Option LogLevel
find_level s [] = none
find_level s ((name, level) ∷ ls) = if same s name then some level else find_level s ls

abbrev pub with_level : Settings → Option LogLevel → Option Settings
with_level s none = none
with_level s (some level) = some (record s { log_level = level })

-- Whether `fopen(path, "a")` opens the file is the system's answer.
module _ (opens_log : (path : List ℕ) → Bool) where
  -- The `switch`; `none` is `return 1`.
  unfoldable pub set_option : Opt → Settings → Option Settings
  set_option opt_i s = some (record s { syscall_interactive = true })
  set_option (opt_l optarg) s = with_level s (find_level optarg level_names)
  set_option (opt_o optarg) s =
      if opens_log optarg then some (record s { log_output = some optarg }) else none
  set_option (opt_k optarg) s = some (record s { kernel_path = some optarg })
  set_option (opt_s optarg) s = some (record s { plugin_path = some optarg })
  set_option opt_other s = none

  -- The loop.
  unfoldable pub set_options : List Opt → Settings → Option Settings
  set_options [] s = some s
  set_options (o ∷ os) s = elim (set_option o s) [ none ↦ none | some s' ↦ set_options os s' ]
