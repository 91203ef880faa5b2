-- ===== src/Plugin.antt =====
-- `load_plugin` of src/plugin.c over the calls of the dynamic linker.
pub mod Redirect
mod Tests
use masters_proj.Prelude.{
  List, ℕ, zero, suc, ◌+◌, ◌≡◌, ◌≢◌, refl, ◌↔◌, ◌⊎◌, inl, inr, Option, none, some, arith, ◌==◌,
  if◌then◌else◌, ne→==-false,
}
use native.Mathlib.Decide.{ℕ_discrete}
use masters_proj.Mem.State.{Status, success, failure}

-- The dynamic linker, with 0 for NULL, and the function `plugin_init` at an address: its result,
-- and the operations after it.
pub record Linker (Ops : Type 0) : Type 0 where
  pub dlopen : (path : List ℕ) → ℕ
  pub dlsym : (handle : ℕ) → ℕ
  pub plugin_init : (address : ℕ) → Ops → ℕ × Ops

-- `_ops`, and how many handles were opened and closed.
pub record Plugins (Ops : Type 0) : Type 0 where
  pub ops : Ops
  pub opened : ℕ
  pub closed : ℕ

module _ {Ops : Type 0} (linker : Linker Ops) where
  abbrev pub dlclose : Plugins Ops → Plugins Ops
  dlclose p = record p { closed = p.closed + 1 }

  -- `load_plugin` with the address of `plugin_init`.
  unfoldable pub init_plugin : (address : ℕ) → Plugins Ops → Status × Plugins Ops
  init_plugin address p =
      let r = linker.plugin_init address p.ops in
      let p' = record p { ops = r.1 } in
      if address == 0
      then (failure, dlclose p)
      else if r.0 == 0
      then (success, p')
      else (failure, dlclose p')

  unfoldable pub open_plugin : (path : List ℕ) → Plugins Ops → Status × Plugins Ops
  unfolding init_plugin
  open_plugin path p =
      let plugin = linker.dlopen path in
      if plugin == 0
      then (failure, p)
      else init_plugin (linker.dlsym plugin) (record p { opened = p.opened + 1 })

  -- `none` is the path NULL.
  unfoldable pub load_plugin : Option (List ℕ) → Plugins Ops → Status × Plugins Ops
  unfolding open_plugin
  load_plugin none p = (failure, p)
  load_plugin (some path) p = open_plugin path p

  -- What a load gives: on success the operations that `plugin_init` set and a handle that stays
  -- open, on failure no handle more.
  pub record Loaded (path : List ℕ) (p : Plugins Ops) (r : Status × Plugins Ops) : Type 0 where
    pub done :
        r.0 ≡ success
        → let address = linker.dlsym (linker.dlopen path) in
          (linker.dlopen path ≢ 0)
          × (address ≢ 0)
          × ((linker.plugin_init address p.ops).0 ≡ 0)
          × (r.1.ops ≡ (linker.plugin_init address p.ops).1)
          × (r.1.opened ≡ p.opened + 1)
          × (r.1.closed ≡ p.closed)
    pub balanced : r.0 ≡ failure → r.1.opened + p.closed ≡ p.opened + r.1.closed

  -- If `load_plugin` returns 0, the library was opened, its `plugin_init` was found and returned 0,
  -- the operations are those that it set, and the handle stays open. If it returns -1, every handle
  -- that it opened was closed again.
  pub load_plugin-Loaded :
      (path : List ℕ) (p : Plugins Ops) → Loaded path p (load_plugin (some path) p)
  unfolding load_plugin open_plugin init_plugin
  load_plugin-Loaded path p = elim (ℕ_discrete (linker.dlopen path) 0) [
    | yes e ↦ rw e (record { done = λ f. cc; balanced = λ f. refl })
    | no n₁ ↦ elim (ℕ_discrete (linker.dlsym (linker.dlopen path)) 0) [
      | yes e ↦ rw (ne→==-false _ 0 n₁, e) (record { done = λ f. cc; balanced = λ f. omega arith })
      | no n₂ ↦
          elim (ℕ_discrete (linker.plugin_init (linker.dlsym (linker.dlopen path)) p.ops).0 0) [
            | yes e ↦
                rw (ne→==-false _ 0 n₁, ne→==-false _ 0 n₂, e)
                  (record { done = λ _. (n₁, n₂, e, refl, refl, refl); balanced = λ f. cc })
            | no n₃ ↦
                rw (ne→==-false _ 0 n₁, ne→==-false _ 0 n₂, ne→==-false _ 0 n₃)
                  (record { done = λ f. cc; balanced = λ f. omega arith })
          ]
    ]
  ]
