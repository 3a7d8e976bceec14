-- ===== src/Schema/Plugins/Examples.antt =====
-- The theorem about the cache at a plug-in that is edited, and tests.
use text.Mathlib.Text
use franka_deploy.Common.{ℕ, ◌≡◌, refl, none, some, [], ◌∷◌, if◌then◌else◌}
use franka_deploy.Schema.Plugins.{
  Modules, rsplit_dot, load_module, resolve, load_plugin, clear_cache,
}
use franka_deploy.Schema.Plugins.Cache

-- A file user_plugins.py with one function, which gives a number.
abbrev files : ℕ → Modules ℕ ℕ
files n = record {
  exists = λ name. Text.◌==◌ name "user_plugins";
  exec_module = λ name. some n;
  import_module = λ name. none;
  getattr = λ m name. if Text.◌==◌ name "embed" then some m else none;
}

last_dot : rsplit_dot "pkg.mod.embed" ≡ some ("pkg.mod", "embed")
unfolding rsplit_dot
last_dot = refl

no_such_function : (load_plugin (files 1) [] "user_plugins.other").1 ≡ none
unfolding load_plugin resolve load_module rsplit_dot
no_such_function = refl

embed_loaded : (load_plugin (files 1) [] "embed").1 ≡ some 1
unfolding load_plugin resolve load_module rsplit_dot
embed_loaded = refl

-- The file changes from 1 to 2, and another name is loaded in between.
load_plugin-loads_example :
    let later =
      Cache.loads (load_plugin (files 1) [] "embed").0 ((files 2, "user_plugins.embed") ∷ []) in
    (load_plugin (files 2) later "embed" ≡ (later, some 1))
    × ((load_plugin (files 2) (clear_cache later) "embed").1 ≡ resolve (files 2) "embed")
load_plugin-loads_example =
    Cache.load_plugin-loads (files 1) (files 2) [] ((files 2, "user_plugins.embed") ∷ []) "embed" 1
      embed_loaded
