-- ===== src/Schema/Plugins.antt =====
-- franka_deploy/schema/plugins.py: the functions of the user, by name, and their cache.
-- What the files and Python's import give is a parameter; `none` is an exception.
pub mod Cache
mod Examples
use Prim.Native.Char.{code}
use Prim.Native.String.{String}
use text.Mathlib.Text
use franka_deploy.Common.{◌==◌, Bool, Option, none, some, List, [], ◌∷◌, if◌then◌else◌}
use franka_deploy.Schema.Options.{◌>>=◌}

-- The directory and the packages as they are at a call: whether the directory has a file for a name, what running
-- that file gives, what an import gives, and the functions of a module.
pub record Modules (Module Fn : Type 0) : Type 0 where
  pub exists : String → Bool
  pub exec_module : String → Option Module
  pub import_module : String → Option Module
  pub getattr : Module → String → Option Fn

-- `dotted_path.rsplit(".", 1)`, none without a dot.
unfoldable pub rsplit_dot : String → Option (String × String)
rsplit_dot String.[] = none
rsplit_dot (String.◌∷◌ c s) =
    let rest = rsplit_dot s in
    elim rest [
      | some (name, fn) ↦ some (String.◌∷◌ c name, fn)
      | none ↦ if code c == b'.' then some ("", s) else none
    ]

abbrev pub names_of : Option (String × String) → String → String × String
names_of none dotted_path = ("user_plugins", dotted_path)
names_of (some (name, fn)) dotted_path = (name, fn)

module _ {Fn : Type 0} where
  -- `_cache`.
  abbrev pub cached : String → List (String × Fn) → Option Fn
  cached k [] = none
  cached k ((j, fn) ∷ rest) = if Text.◌==◌ j k then some fn else cached k rest

  abbrev pub kept : String → List (String × Fn) → Option Fn → List (String × Fn) × Option Fn
  kept dotted_path cache none = (cache, none)
  kept dotted_path cache (some fn) = ((dotted_path, fn) ∷ cache, some fn)

  unfoldable pub clear_cache : List (String × Fn) → List (String × Fn)
  clear_cache cache = []

module _ {Module Fn : Type 0} where
  unfoldable pub load_module : Modules Module Fn → String → Option Module
  load_module ms name = if ms.exists name then ms.exec_module name else ms.import_module name

  -- The function of a name that is not in the cache.
  unfoldable pub resolve : Modules Module Fn → String → Option Fn
  unfolding load_module rsplit_dot
  resolve ms dotted_path =
      let (module_name, fn_name) = names_of (rsplit_dot dotted_path) dotted_path in
      do m ← load_module ms module_name; ms.getattr m fn_name

  abbrev pub or_resolve :
      Option Fn → Modules Module Fn → List (String × Fn) → String → List (String × Fn) × Option Fn
  or_resolve (some fn) ms cache dotted_path = (cache, some fn)
  or_resolve none ms cache dotted_path = kept dotted_path cache (resolve ms dotted_path)

  unfoldable pub load_plugin :
      Modules Module Fn → List (String × Fn) → String → List (String × Fn) × Option Fn
  unfolding resolve
  load_plugin ms cache dotted_path = or_resolve (cached dotted_path cache) ms cache dotted_path
