-- ===== src/Plugin/Redirect.antt =====
-- The plugin test/plugin.c, which answers `open` of one file by another file.
pub mod Effect
use masters_proj.Prelude.{
  ℕ, ◌+◌, ◌≡◌, ◌≢◌, refl, Bool, true, false, ◌&&◌, not, List, [], ◌∷◌, Option, none, some, ◌==◌,
  if◌then◌else◌,
}
use masters_proj.Cpu.Syscall.{Call, PluginOps}

-- The calls of the plugin on the C library, and the address of its string `redirect`,
-- whose bytes are `redirect_path`.
pub record Libc (W : Type 0) : Type 0 where
  pub realpath : (path : ℕ) → Call W ℕ
  pub os_open : (path flags mode : ℕ) → Call W ℕ
  pub release : (ptr : ℕ) → (ℕ → ℕ) → W → (ℕ → ℕ) × W
  pub redirect : ℕ

-- The string `private`, in ASCII.
abbrev pub private_path : List ℕ
private_path =
    47 ∷ 85 ∷ 115 ∷ 101 ∷ 114 ∷ 115 ∷ 47 ∷ 110 ∷ 108 ∷ 111 ∷ 103 ∷ 110 ∷ 47 ∷ 68 ∷ 111 ∷ 99 ∷ 117
    ∷ 109 ∷ 101 ∷ 110 ∷ 116 ∷ 115 ∷ 47 ∷ 104 ∷ 118 ∷ 101 ∷ 120 ∷ 101 ∷ 99 ∷ 47 ∷ 65 ∷ 84 ∷ 84 ∷ 82
    ∷ 73 ∷ 66 ∷ []

-- The string `redirect`, less its NUL.
abbrev pub redirect_path : List ℕ
redirect_path =
    47 ∷ 85 ∷ 115 ∷ 101 ∷ 114 ∷ 115 ∷ 47 ∷ 110 ∷ 108 ∷ 111 ∷ 103 ∷ 110 ∷ 47 ∷ 68 ∷ 111 ∷ 99 ∷ 117
    ∷ 109 ∷ 101 ∷ 110 ∷ 116 ∷ 115 ∷ 47 ∷ 104 ∷ 118 ∷ 101 ∷ 120 ∷ 101 ∷ 99 ∷ 47 ∷ 116 ∷ 101 ∷ 115
    ∷ 116 ∷ 47 ∷ 112 ∷ 108 ∷ 117 ∷ 103 ∷ 105 ∷ 110 ∷ 46 ∷ 99 ∷ []

-- `strncmp(s, prefix, strlen(prefix)) == 0` for the string at an address.
unfoldable pub starts_with : (ℕ → ℕ) → (s : ℕ) → (prefix : List ℕ) → Bool
starts_with b s [] = true
starts_with b s (c ∷ cs) = b s == c && starts_with b (s + 1) cs

module _ {W : Type 0} (libc : Libc W) where
  abbrev pub cb_write : (fildes buf nbyte : ℕ) → Call W (Option ℕ)
  cb_write fildes buf nbyte b w = (none, b, w)

  -- `free` gets the path back only where it is redirected.
  unfoldable pub cb_open : (path flags mode : ℕ) → Call W (Option ℕ)
  unfolding starts_with
  cb_open path flags mode b w =
      let full = libc.realpath path b w in
      let opened = libc.os_open libc.redirect flags mode full.1 full.2 in
      let freed = libc.release full.0 opened.1 opened.2 in
      if not (full.0 == 0) && starts_with full.1 full.0 private_path
      then (some opened.0, freed.0, freed.1)
      else (none, full.1, full.2)

  abbrev pub plugin_init : PluginOps W → ℕ × PluginOps W
  plugin_init ops = (0, record ops { cb_write = some cb_write; cb_open = some cb_open })
