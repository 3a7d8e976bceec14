-- ===== src/Schema/Plugins/Cache.antt =====
-- What a plug-in that was loaded once is from then on.
use Prim.Native.String.{String}
use text.Mathlib.TextEquality.{eq_iff}
use text.Mathlib.TextPositions.{eq_refl}
use franka_deploy.Common.{
  ◌≡◌, refl, ◌∙◌, arith, inl, inr, some, Option-cases, List, [], ◌∷◌, none-some,
}
use franka_deploy.Schema.Plugins.{Modules, cached, resolve, load_plugin, clear_cache}

module _ {Module Fn : Type 0} where
  -- Loads, each with the files as they are then.
  unfoldable pub loads : List (String × Fn) → List (Modules Module Fn × String) → List (String × Fn)
  unfolding load_plugin
  loads cache [] = cache
  loads cache ((ms, k) ∷ more) = loads (load_plugin ms cache k).0 more

  cached_after :
      (ms : Modules Module Fn) (cache : List (String × Fn)) (j k : String) (fn : Fn)
      → cached k cache ≡ some fn
      → cached k (load_plugin ms cache j).0 ≡ some fn
  unfolding load_plugin
  cached_after ms cache j k fn here = elim (Option-cases (cached j cache)) [
    | inr (g, hit) ↦ rw (hit, load_plugin) here
    | inl miss ↦ elim (Option-cases (resolve ms j)) [
      | inl fails ↦ rw (miss, load_plugin) (rw (fails, load_plugin) here)
      | inr (g, loaded) ↦
          rw (miss, load_plugin) (rw (loaded, load_plugin) (ground (arith, eq_iff j k, here, miss)))
    ]
  ]

  load_plugin_result :
      (ms : Modules Module Fn) (cache : List (String × Fn)) (k : String) (fn : Fn)
      → (load_plugin ms cache k).1 ≡ some fn
      → cached k (load_plugin ms cache k).0 ≡ some fn
  unfolding load_plugin
  load_plugin_result ms cache k fn given = elim (Option-cases (cached k cache)) [
    | inr (g, hit) ↦
        let same : some g ≡ some fn = rw (hit, load_plugin) at given in
        rw (hit, load_plugin) (hit ∙ same)
    | inl miss ↦ elim (Option-cases (resolve ms k)) [
      | inl fails ↦
          absurd (none-some fn (rw (fails, load_plugin) at (rw (miss, load_plugin) at given)))
      | inr (g, loaded) ↦
          let same : some g ≡ some fn =
            rw (loaded, load_plugin) at (rw (miss, load_plugin) at given) in
          rw (miss, load_plugin) (rw (loaded, load_plugin) (simp (eq_refl, same)))
    ]
  ]

  loads_kept :
      (cache : List (String × Fn)) (more : List (Modules Module Fn × String)) (k : String) (fn : Fn)
      → cached k cache ≡ some fn
      → cached k (loads cache more) ≡ some fn
  unfolding loads
  loads_kept cache [] k fn here = here
  loads_kept cache ((ms, j) ∷ more) k fn here =
      loads_kept (load_plugin ms cache j).0 more k fn (cached_after ms cache j k fn here)

  load_hit :
      (ms : Modules Module Fn) (cache : List (String × Fn)) (k : String) (fn : Fn)
      → cached k cache ≡ some fn
      → load_plugin ms cache k ≡ (cache, some fn)
  unfolding load_plugin
  load_hit ms cache k fn here = rw (here, load_plugin) refl

  fresh : (now : Modules Module Fn) (k : String) → (load_plugin now [] k).1 ≡ resolve now k
  unfolding load_plugin
  fresh now k = elim (Option-cases (resolve now k)) [
    | inl fails ↦ rw (fails, load_plugin) refl
    | inr (fn, loaded) ↦ rw (loaded, load_plugin) refl
  ]

  -- A plug-in that was loaded once stays the same function, whatever else is loaded and however the files
  -- change. Only after the cache is cleared is it what the files give then.
  pub load_plugin-loads :
      (ms now : Modules Module Fn) (cache : List (String × Fn))
      (more : List (Modules Module Fn × String)) (k : String) (fn : Fn)
      → (load_plugin ms cache k).1 ≡ some fn
      → let later = loads (load_plugin ms cache k).0 more in
        (load_plugin now later k ≡ (later, some fn))
        × ((load_plugin now (clear_cache later) k).1 ≡ resolve now k)
  unfolding clear_cache
  load_plugin-loads ms now cache more k fn given =
      let first = (load_plugin ms cache k).0 in
      (
        load_hit now (loads first more) k fn
            (loads_kept first more k fn (load_plugin_result ms cache k fn given)),
        fresh now k,
      )
