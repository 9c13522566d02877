-- ===== src/Tests/Plugin.antt =====
-- plugin/ with two plugins that write what they do into a list.
use beacon_auth.Prelude.{
  ℕ, String, ◌≡◌, refl, Bool, true, false, Option, none, some, List, [], ◌∷◌, ◌++◌, Perm, ℤ, pos,
  select, All,
}
use beacon_auth.Core.Types.{failed, ok, err}
use beacon_auth.Plugin.{
  Hook, HookConfig, Plugin, Manager, new_manager, initialize, execute, match_path, match_all,
  lower_priority,
}
use beacon_auth.Plugin.Registered.{Registered, all_middleware, initialize_lem}
use beacon_auth.Plugin.Hooked.{all_hooks, run_all, outcome, execute-run_all}
use beacon_auth.Memory.Sorted.{IsOrdered}

abbrev Log : Type 0
Log = List String

abbrev writes : String → Hook Log String
writes name = record { matcher = match_path "/sign-in"; handler = λ d log. (ok tt, name ∷ log) }

abbrev fails : Hook Log String
fails = record { matcher = match_all; handler = λ d log. (err (failed "no"), "failed" ∷ log) }

abbrev plugin_of : String → ℕ → Plugin Log String String String
plugin_of name priority = record {
  id = name;
  init = λ log. (ok tt, name ∷ log);
  endpoints = (name, "endpoint") ∷ [];
  hooks = some (record { before = writes name ∷ []; after = [] });
  middleware = record { path = "/"; middleware = name; priority = pos priority } ∷ [];
}

abbrev plugins : List (Plugin Log String String String)
plugins = plugin_of "twofa" 20 ∷ plugin_of "oauth" 10 ∷ []

abbrev started : Manager Log String String String
started = elim (initialize (new_manager plugins) []).0 [ ok m ↦ m | err e ↦ new_manager plugins ]

initialize_lem_example :
    All (λ (p : Plugin Log String String String). Registered p.endpoints started.endpoints) plugins
    × Perm started.middleware (all_middleware plugins)
    × IsOrdered lower_priority started.middleware
unfolding initialize beacon_auth.Prelude.Dict.get beacon_auth.Prelude.Dict.put
initialize_lem_example =
    initialize_lem plugins started [] (initialize (new_manager plugins) []).1 refl

execute-run_all_example :
    outcome (
      execute "before hook "
        (("twofa", writes "a" ∷ fails ∷ writes "b" ∷ []) ∷ [])
        "/sign-in"
        "POST"
        "data"
        [])
    ≡ run_all
        (select
          (λ (h : Hook Log String). h.matcher "/sign-in" "POST")
          (all_hooks (("twofa", writes "a" ∷ fails ∷ writes "b" ∷ []) ∷ [])))
        "data"
        []
execute-run_all_example =
    execute-run_all "before hook " (("twofa", writes "a" ∷ fails ∷ writes "b" ∷ []) ∷ []) "/sign-in"
      "POST" "data" []

abbrev two_hooks : HookConfig Log String
two_hooks = record { before = writes "a" ∷ []; after = fails ∷ [] }
