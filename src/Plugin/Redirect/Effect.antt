-- ===== src/Plugin/Redirect/Effect.antt =====
-- What the guest's system calls do once the plugin test/plugin.c is loaded.
use masters_proj.Prelude.{
  ℕ, ◌+◌, ◌≡◌, ◌≢◌, refl, ap, ◌∙◌, sym, ◌⊎◌, inl, inr, true, false, List, [], ◌∷◌, ◌++◌, ◌≤◌, ◌<◌,
  length, Option, none, some, ◌==◌, arith, ne→==-false, u32, sign_extend, Bool-cases, false≢true,
}
use native.Mathlib.Decide.{ℕ_discrete}
use masters_proj.Mem.State.{success}
use masters_proj.Cpu.State.{rax, rdi, rsi, rdx}
use masters_proj.Cpu.Syscall.{
  Call, PluginOps, Env, Machine, Outcome, handled, reg, set_reg, host_address, answer, finish,
  prompt, emu_syscall, emu_syscall_open,
}
use masters_proj.Plugin.{Linker, Plugins, load_plugin, open_plugin, init_plugin}
use masters_proj.Plugin.Redirect.{
  Libc, private_path, redirect_path, starts_with, cb_open, plugin_init,
}

-- The bytes of a string from an address on.
abbrev pub StartsWith : (ℕ → ℕ) → (s : ℕ) → List ℕ → Type 0
StartsWith b s [] = Unit
StartsWith b s (c ∷ cs) = (b s ≡ c) × StartsWith b (s + 1) cs

-- The path, after `realpath`, is one that the plugin keeps private.
abbrev pub IsPrivate : {W : Type 0} → ℕ × (ℕ → ℕ) × W → Type 0
IsPrivate full = (full.0 ≢ 0) × StartsWith full.1 full.0 private_path

-- The string that a constant of the plugin is, with its NUL.
abbrev pub redirect_string : List ℕ
redirect_string = redirect_path ++ 0 ∷ []

-- The plugin's constant stands in the host's bytes, and `realpath` does not write to it.
pub record HasRedirect {W : Type 0} (libc : Libc W) (bytes : ℕ → ℕ) : Type 0 where
  pub stands : StartsWith bytes libc.redirect redirect_string
  pub kept :
      (path : ℕ) (w : W) (a : ℕ)
      → libc.redirect ≤ a
      → a < libc.redirect + length redirect_string
      → (libc.realpath path bytes w).1 a ≡ bytes a

-- The directory of both paths.
abbrev directory : List ℕ
directory =
    47 ∷ 85 ∷ 115 ∷ 101 ∷ 114 ∷ 115 ∷ 47 ∷ 110 ∷ 108 ∷ 111 ∷ 103 ∷ 110 ∷ 47 ∷ 68 ∷ 111 ∷ 99 ∷ 117
    ∷ 109 ∷ 101 ∷ 110 ∷ 116 ∷ 115 ∷ 47 ∷ 104 ∷ 118 ∷ 101 ∷ 120 ∷ 101 ∷ 99 ∷ 47 ∷ []

-- One string does not go on in two ways.
StartsWith-unique :
    (b : ℕ → ℕ) (s : ℕ) (pre : List ℕ) (c d : ℕ) (cs ds : List ℕ)
    → StartsWith b s (pre ++ c ∷ cs)
    → StartsWith b s (pre ++ d ∷ ds)
    → c ≡ d
StartsWith-unique b s [] c d cs ds h k = sym h.0 ∙ k.0
StartsWith-unique b s (x ∷ pre) c d cs ds h k = StartsWith-unique b (s + 1) pre c d cs ds h.1 k.1

StartsWith-same :
    (b b' : ℕ → ℕ) (s : ℕ) (cs : List ℕ)
    → ((a : ℕ) → s ≤ a → a < s + length cs → b' a ≡ b a)
    → StartsWith b s cs
    → StartsWith b' s cs
StartsWith-same b b' s [] same h = tt
StartsWith-same b b' s (c ∷ cs) same h = (
  same s (omega arith) (omega arith) ∙ h.0,
  StartsWith-same b b' (s + 1) cs (λ a lo hi. same a (omega arith) (omega arith)) h.1,
)

redirect_lem : (b : ℕ → ℕ) (s : ℕ) → StartsWith b s redirect_string → ¬ StartsWith b s private_path
redirect_lem b s h k = absurd (
    omega (
      arith,
      StartsWith-unique b s directory 116 65
          (101 ∷ 115 ∷ 116 ∷ 47 ∷ 112 ∷ 108 ∷ 117 ∷ 103 ∷ 105 ∷ 110 ∷ 46 ∷ 99 ∷ 0 ∷ [])
          (84 ∷ 84 ∷ 82 ∷ 73 ∷ 66 ∷ []) h k,
    ))

starts_with-StartsWith :
    (b : ℕ → ℕ) (s : ℕ) (cs : List ℕ) → StartsWith b s cs → starts_with b s cs ≡ true
unfolding starts_with
starts_with-StartsWith b s [] h = refl
starts_with-StartsWith b s (c ∷ cs) h =
    let e : (b s == c) ≡ true = ground (arith, h.0) in
    rw e (starts_with-StartsWith b (s + 1) cs h.1)

pub StartsWith-starts_with :
    (b : ℕ → ℕ) (s : ℕ) (cs : List ℕ) → starts_with b s cs ≡ true → StartsWith b s cs
unfolding starts_with
StartsWith-starts_with b s [] h = tt
StartsWith-starts_with b s (c ∷ cs) h = elim (Bool-cases (b s == c)) [
  | inl e ↦ (ground arith, StartsWith-starts_with b (s + 1) cs (rw e at h))
  | inr e ↦ absurd (false≢true (rw e at h))
]

IsPrivate-cases : {W : Type 0} (full : ℕ × (ℕ → ℕ) × W) → IsPrivate full ⊎ (¬ IsPrivate full)
IsPrivate-cases full = elim (ℕ_discrete full.0 0) [
  | yes e ↦ inr λ h. h.0 e
  | no ne ↦ elim (Bool-cases (starts_with full.1 full.0 private_path)) [
    | inl t ↦ inl (ne, StartsWith-starts_with full.1 full.0 private_path t)
    | inr f ↦ inr λ h. false≢true (sym f ∙ starts_with-StartsWith full.1 full.0 private_path h.1)
  ]
]

module _ {W : Type 0} (libc : Libc W) (path flags mode : ℕ) (b : ℕ → ℕ) (w : W) where
  -- `cb_open` on its two branches.
  cb_open-private :
      let full = libc.realpath path b w in
      let opened = libc.os_open libc.redirect flags mode full.1 full.2 in
      IsPrivate full
      → cb_open libc path flags mode b w ≡ (
        some opened.0,
        (libc.release full.0 opened.1 opened.2).0,
        (libc.release full.0 opened.1 opened.2).1,
      )
  unfolding cb_open
  cb_open-private h =
      let full = libc.realpath path b w in
      rw (ne→==-false full.0 0 h.0, starts_with-StartsWith full.1 full.0 private_path h.1) refl

  cb_open-other :
      let full = libc.realpath path b w in
      ¬ IsPrivate full → cb_open libc path flags mode b w ≡ (none, full.1, full.2)
  unfolding cb_open
  cb_open-other n =
      let full = libc.realpath path b w in
      elim (ℕ_discrete full.0 0) [
        | yes e ↦ rw e refl
        | no ne ↦ elim (Bool-cases (starts_with full.1 full.0 private_path)) [
          | inl t ↦ absurd (n (ne, StartsWith-starts_with full.1 full.0 private_path t))
          | inr f ↦ rw (ne→==-false full.0 0 ne, f) refl
        ]
      ]

-- RAX and the state of the host after a call.
abbrev pub returned :
    (env : Env) → (ret : ℕ) (b : ℕ → ℕ) → env.World → Machine env → Outcome × Machine env
returned env ret b w s = (
  handled,
  set_reg env rax (sign_extend ret) (record s { mem = record s.mem { bytes = b }; world = w }),
)

emu_syscall-open :
    (env : Env) (s : Machine env)
    → reg env s rax ≡ 0x2000005
    → emu_syscall env s ≡ emu_syscall_open env s
unfolding emu_syscall
emu_syscall-open env s e = rw e refl

-- An `open` by a callback, and by the host after a callback has declined.
module _ (env : Env) (quiet : env.syscall_interactive ≡ false)
    (cb : (path flags mode : ℕ) → Call env.World (Option ℕ)) (set : env.ops.cb_open ≡ some cb)
    (s : Machine env) where
  open_answered :
      let path = host_address env s (reg env s rdi) in
      let r = cb path (u32 (reg env s rsi)) (u32 (reg env s rdx)) s.mem.bytes s.world in
      (ret : ℕ) (b : ℕ → ℕ) (w : env.World)
      → r ≡ (some ret, b, w)
      → emu_syscall_open env s ≡ returned env ret b w s
  unfolding emu_syscall_open prompt finish answer
  open_answered ret b w e = rw (quiet, set, e) refl

  open_declined :
      let path = host_address env s (reg env s rdi) in
      let flags = u32 (reg env s rsi) in
      let mode = u32 (reg env s rdx) in
      (b : ℕ → ℕ) (w : env.World)
      → cb path flags mode s.mem.bytes s.world ≡ (none, b, w)
      → let r = env.os.os_open path flags mode b w in
        emu_syscall_open env s ≡ returned env r.0 r.1 r.2 s
  unfolding emu_syscall_open prompt finish answer
  open_declined b w e = rw (quiet, set, e) refl

-- Loading the library that holds this plugin.
load_plugin-init :
    {W : Type 0} (libc : Libc W) (linker : Linker (PluginOps W)) (path : List ℕ)
    (p : Plugins (PluginOps W))
    → linker.dlopen path ≢ 0
    → linker.dlsym (linker.dlopen path) ≢ 0
    → linker.plugin_init (linker.dlsym (linker.dlopen path)) ≡ plugin_init libc
    → let r = load_plugin linker (some path) p in
      (r.0 ≡ success) × (r.1.ops ≡ (plugin_init libc p.ops).1)
unfolding load_plugin open_plugin init_plugin
load_plugin-init libc linker path p ne ne' init =
    rw (ne→==-false _ 0 ne, ne→==-false _ 0 ne', init) (refl, refl)

-- How an `open` ends: in place of a file behind a private path, the one is opened whose name is
-- `redirect_path`, which is not such a path.
abbrev pub OpenEnds : (env : Env) → Libc env.World → Machine env → Type 0
OpenEnds env libc s =
    let path = host_address env s (reg env s rdi) in
    let flags = u32 (reg env s rsi) in
    let mode = u32 (reg env s rdx) in
    let full = libc.realpath path s.mem.bytes s.world in
    let opened = libc.os_open libc.redirect flags mode full.1 full.2 in
    let freed = libc.release full.0 opened.1 opened.2 in
    let host = env.os.os_open path flags mode full.1 full.2 in
    (IsPrivate full
      × StartsWith full.1 libc.redirect redirect_string
      × (¬ StartsWith full.1 libc.redirect private_path)
      × (emu_syscall env s ≡ returned env opened.0 freed.0 freed.1 s))
    ⊎ ((¬ IsPrivate full) × (emu_syscall env s ≡ returned env host.0 host.1 host.2 s))

-- Where the linker finds a library whose `plugin_init` is that of test/plugin.c, `load_plugin`
-- returns 0. A guest that then runs with the operations loaded, not interactively, and calls
-- `open`, while the plugin's constant string stands in the host's memory and `realpath` does not
-- write to it, gets the following. If the real path of the file exists and starts with the private
-- path, it gets what `open` returns for the address of the constant with the same flags and mode,
-- where the string `redirect_path` with its NUL stands at that moment and not one that starts with
-- the private path. In all other cases it gets what the host's `open` returns for the path it gave.
pub load_plugin-OpenEnds :
    (env : Env) (libc : Libc env.World) (linker : Linker (PluginOps env.World)) (path : List ℕ)
    (p : Plugins (PluginOps env.World)) (s : Machine env)
    → linker.dlopen path ≢ 0
    → linker.dlsym (linker.dlopen path) ≢ 0
    → linker.plugin_init (linker.dlsym (linker.dlopen path)) ≡ plugin_init libc
    → env.ops ≡ (load_plugin linker (some path) p).1.ops
    → env.syscall_interactive ≡ false
    → reg env s rax ≡ 0x2000005
    → HasRedirect libc s.mem.bytes
    → ((load_plugin linker (some path) p).0 ≡ success) × OpenEnds env libc s
load_plugin-OpenEnds env libc linker path p s ne ne' init run quiet code has =
    let (ok, ops) = load_plugin-init libc linker path p ne ne' init in
    let set : env.ops.cb_open ≡ some (cb_open libc) = ap (λ o. o.cb_open) (run ∙ ops) in
    let name = host_address env s (reg env s rdi) in
    let flags = u32 (reg env s rsi) in
    let mode = u32 (reg env s rdx) in
    let full = libc.realpath name s.mem.bytes s.world in
    let opened = libc.os_open libc.redirect flags mode full.1 full.2 in
    let freed = libc.release full.0 opened.1 opened.2 in
    let start = emu_syscall-open env s code in
    let there =
      StartsWith-same s.mem.bytes full.1 libc.redirect redirect_string (has.kept name s.world)
        has.stands in
    (
      ok,
      elim (IsPrivate-cases full) [
        | inl h ↦ inl (
          h,
          there,
          redirect_lem full.1 libc.redirect there,
          start
              ∙ open_answered env quiet (cb_open libc) set s opened.0 freed.0 freed.1
                  (cb_open-private libc name flags mode s.mem.bytes s.world h),
        )
        | inr n ↦ inr (
          n,
          start
              ∙ open_declined env quiet (cb_open libc) set s full.1 full.2
                  (cb_open-other libc name flags mode s.mem.bytes s.world n),
        )
      ],
    )
