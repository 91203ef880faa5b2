-- ===== src/Main/Options/Last.antt =====
-- What a command line means: each setting is that of its last option.
use masters_proj.Prelude.{
  ℕ, Bool, true, false, ◌&&◌, ◌≡◌, refl, ◌∙◌, ap, inl, inr, List, [], ◌∷◌, Option, Option-cases,
  none, some, if◌then◌else◌,
}
use masters_proj.Logging.{LogLevel}
use masters_proj.Main.Options.{
  Opt, opt_i, opt_l, opt_o, opt_k, opt_s, opt_other, Settings, level_names, find_level, with_level,
  set_option, set_options,
}

abbrev pub or_else {ℓ} : {A : Type ℓ} → Option A → Option A → Option A
or_else (some x) y = some x
or_else none y = y

abbrev pub or_default {ℓ} : {A : Type ℓ} → A → Option A → A
or_default x none = x
or_default x (some y) = y

-- The last value that a list of options gives.
abbrev pub last_of {ℓ} : {A : Type ℓ} → (Opt → Option A) → List Opt → Option A
last_of f [] = none
last_of f (o ∷ os) = or_else (last_of f os) (f o)

or_default-last {ℓ} :
    {A : Type ℓ} (x : A) (o o' : Option A)
    → or_default (or_default x o) o' ≡ or_default x (or_else o' o)
or_default-last x o none = refl
or_default-last x o (some y) = refl

-- What each option gives for each setting.
abbrev pub interactive_of : Opt → Option Bool
interactive_of opt_i = some true
interactive_of o = none

abbrev pub level_of : Opt → Option LogLevel
level_of (opt_l optarg) = find_level optarg level_names
level_of o = none

abbrev pub output_of : Opt → Option (Option (List ℕ))
output_of (opt_o optarg) = some (some optarg)
output_of o = none

abbrev pub kernel_of : Opt → Option (Option (List ℕ))
kernel_of (opt_k optarg) = some (some optarg)
kernel_of o = none

abbrev pub plugin_of : Opt → Option (Option (List ℕ))
plugin_of (opt_s optarg) = some (some optarg)
plugin_of o = none

abbrev pub settings_of : List Opt → Settings → Settings
settings_of os s = record {
  syscall_interactive = or_default s.syscall_interactive (last_of interactive_of os);
  log_level = or_default s.log_level (last_of level_of os);
  log_output = or_default s.log_output (last_of output_of os);
  kernel_path = or_default s.kernel_path (last_of kernel_of os);
  plugin_path = or_default s.plugin_path (last_of plugin_of os);
}

abbrev is_some {ℓ} : {A : Type ℓ} → Option A → Bool
is_some none = false
is_some (some x) = true

module _ (opens_log : List ℕ → Bool) where
  -- An option that is known, with a level that has a name or a file that can be opened.
  abbrev pub accepted : Opt → Bool
  accepted opt_i = true
  accepted (opt_l optarg) = is_some (find_level optarg level_names)
  accepted (opt_o optarg) = opens_log optarg
  accepted (opt_k optarg) = true
  accepted (opt_s optarg) = true
  accepted opt_other = false

  abbrev pub all_accepted : List Opt → Bool
  all_accepted [] = true
  all_accepted (o ∷ os) = accepted o && all_accepted os

  with_level-of :
      (l : Option LogLevel) (s : Settings)
      → with_level s l
        ≡ (if is_some l then some (record s { log_level = or_default s.log_level l }) else none)
  with_level-of none s = refl
  with_level-of (some l) s = refl

  set_option-of :
      (o : Opt) (s : Settings)
      → set_option opens_log o s ≡ (if accepted o then some (settings_of (o ∷ []) s) else none)
  unfolding set_option
  set_option-of opt_i s = refl
  set_option-of (opt_l optarg) s = with_level-of (find_level optarg level_names) s
  set_option-of (opt_o optarg) s = refl
  set_option-of (opt_k optarg) s = refl
  set_option-of (opt_s optarg) s = refl
  set_option-of opt_other s = refl

  settings_of-cons :
      (o : Opt) (os : List Opt) (s : Settings)
      → settings_of os (settings_of (o ∷ []) s) ≡ settings_of (o ∷ os) s
  settings_of-cons o os s =
      rw
        (
          or_default-last s.syscall_interactive (interactive_of o) (last_of interactive_of os),
          or_default-last s.log_level (level_of o) (last_of level_of os),
          or_default-last s.log_output (output_of o) (last_of output_of os),
          or_default-last s.kernel_path (kernel_of o) (last_of kernel_of os),
          or_default-last s.plugin_path (plugin_of o) (last_of plugin_of os),
        )
        refl

  after : Option Settings → List Opt → Option Settings
  after none os = none
  after (some s) os = set_options opens_log os s

  set_options-cons :
      (o : Opt) (os : List Opt) (s : Settings)
      → set_options opens_log (o ∷ os) s ≡ after (set_option opens_log o s) os
  unfolding set_options after
  set_options-cons o os s = elim (Option-cases (set_option opens_log o s)) [
    | inl e ↦ rw (e, set_options) refl
    | inr (s', e) ↦ rw (e, set_options) refl
  ]

  after-accepted :
      (b : Bool) (o : Opt) (os : List Opt) (s : Settings)
      → set_options opens_log os (settings_of (o ∷ []) s)
        ≡ (if all_accepted os then some (settings_of os (settings_of (o ∷ []) s)) else none)
      → after (if b then some (settings_of (o ∷ []) s) else none) os
        ≡ (if b && all_accepted os then some (settings_of (o ∷ os) s) else none)
  unfolding after
  after-accepted true o os s e = e ∙ rw (settings_of-cons o os s) refl
  after-accepted false o os s e = refl

  -- The loop over the options succeeds exactly if each of them is accepted, and each setting is
  -- then the value of its last option, or its default if there is none.
  pub set_options-last_of :
      (os : List Opt) (s : Settings)
      → set_options opens_log os s ≡ (if all_accepted os then some (settings_of os s) else none)
  unfolding set_options
  set_options-last_of [] s = refl
  set_options-last_of (o ∷ os) s =
      set_options-cons o os s
      ∙ ap (λ r. after r os) (set_option-of o s)
      ∙ after-accepted (accepted o) o os s (set_options-last_of os (settings_of (o ∷ []) s))
