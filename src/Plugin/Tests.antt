-- ===== src/Plugin/Tests.antt =====
-- A linker that finds one library.
use masters_proj.Prelude.{
  ℕ, ◌+◌, ◌-◌, ◌≡◌, ◌&&◌, List, leb, ltb, if◌then◌else◌, refl, [], ◌∷◌, Option, none, some,
  get_elem?, arith,
}
use masters_proj.Mem.State.{Mem, success}
use masters_proj.Cpu.State.{rax, rreg, wreg}
use masters_proj.Cpu.Syscall.{PluginOps, Env, Machine}
use masters_proj.Cpu.Tests.Samples.{Reg_discrete, sample_env, sample_hv, sample_cpu, page_mem}
use masters_proj.Plugin.Redirect.{Libc, private_path, redirect_path, starts_with, plugin_init}
use masters_proj.Plugin.Redirect.Effect.{
  OpenEnds, HasRedirect, redirect_string, StartsWith-starts_with, load_plugin-OpenEnds,
}
use masters_proj.Plugin.{
  Linker, Plugins, Loaded, load_plugin, open_plugin, init_plugin, load_plugin-Loaded,
}

abbrev sample_linker : Linker ℕ
sample_linker = record {
  dlopen = λ path. 1;
  dlsym = λ handle. 9;
  plugin_init = λ address ops. (0, 42);
}

abbrev no_plugins : Plugins ℕ
no_plugins = record { ops = 0; opened = 0; closed = 0 }

load_plugin-Loaded_example :
    Loaded sample_linker (5 ∷ []) no_plugins (load_plugin sample_linker (some (5 ∷ [])) no_plugins)
load_plugin-Loaded_example = load_plugin-Loaded sample_linker (5 ∷ []) no_plugins

-- A library that resolves every path to the private one, stored from 0x9000 on, with the plugin's
-- constant at 0x20000, and a linker for the plugin over it.
abbrev character : Option ℕ → ℕ
character none = 0
character (some c) = c

-- Bytes with a string and its NUL at an address.
abbrev with_string : (s : ℕ) → List ℕ → (ℕ → ℕ) → ℕ → ℕ
with_string s cs b a = if leb s a && ltb a (s + 64) then character (get_elem? cs (a - s)) else b a

abbrev sample_libc : Libc ℕ
sample_libc = record {
  realpath = λ path b w. (0x9000, with_string 0x9000 private_path b, w);
  os_open = λ path flags mode b w. (path, b, w + 1);
  release = λ ptr b w. (b, w + 1);
  redirect = 0x20000;
}

abbrev redirect_linker : Linker (PluginOps ℕ)
redirect_linker = record {
  dlopen = λ path. 1;
  dlsym = λ handle. 9;
  plugin_init = λ address. plugin_init sample_libc;
}

abbrev no_callbacks : Plugins (PluginOps ℕ)
no_callbacks = record { ops = sample_env.ops; opened = 0; closed = 0 }

abbrev redirect_env : Env
redirect_env = record sample_env { ops = (plugin_init sample_libc sample_env.ops).1 }

abbrev open_mem : Mem
open_mem = record page_mem { bytes = with_string 0x20000 redirect_path page_mem.bytes }

open_mem-HasRedirect : HasRedirect sample_libc open_mem.bytes
unfolding starts_with
open_mem-HasRedirect = record {
  stands = StartsWith-starts_with open_mem.bytes 0x20000 redirect_string refl;
  kept = λ path w a lo hi. ground arith;
}

-- A guest at an `open`.
abbrev at_open : Machine redirect_env
at_open = record { cpu = wreg sample_hv rax 0x2000005 sample_cpu; mem = open_mem; world = 0 }

load_plugin-OpenEnds_example :
    ((load_plugin redirect_linker (some (5 ∷ [])) no_callbacks).0 ≡ success)
    × OpenEnds redirect_env sample_libc at_open
unfolding load_plugin open_plugin init_plugin rreg wreg Reg_discrete
load_plugin-OpenEnds_example =
    load_plugin-OpenEnds redirect_env sample_libc redirect_linker (5 ∷ []) no_callbacks at_open
      (λ e. absurd (omega arith)) (λ e. absurd (omega arith)) refl refl refl refl
      open_mem-HasRedirect
