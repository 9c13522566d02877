-- ===== src/Plugin.antt =====
-- plugin/plugin.go, plugin/manager.go and plugin/hooks.go: the registry of plugins and of their hooks.
-- `S` is the state that plugins and hooks act on, `E` an endpoint, `M` a middleware, `D` the data that
-- a hook is given. A Go map is walked in an unspecified order: whoever walks one is given a list.
pub mod Registered
pub mod Hooked
use beacon_auth.Prelude.{
  ℕ, suc, String, str_append, Bool, true, false, ◌&&◌, Option, none, some, List, [], ◌∷◌, ◌++◌, ℤ,
  pos, ltb, ltb_ℤ, length, first, is_some, ◌==◌, if◌then◌else◌,
}
use beacon_auth.Prelude.Dict.{Dict, get, put, has}
use beacon_auth.Core.Value.{itoa}
use beacon_auth.Core.Types.{Error, failed, Result, Done, ok, err}
use beacon_auth.Core.Query.{Op}
use beacon_auth.Core.World.{relabel}
use beacon_auth.Memory.Sort.{insertion_sort}

pub record Hook (S D : Type 0) : Type 0 where
  pub matcher : String → String → Bool
  pub handler : D → Op S Unit

pub record HookConfig (S D : Type 0) : Type 0 where
  pub before : List (Hook S D)
  pub after : List (Hook S D)

pub record MiddlewareConfig (M : Type 0) : Type 0 where
  pub path : String
  pub middleware : M
  pub priority : ℤ

pub record Plugin (S E M D : Type 0) : Type 0 where
  pub id : String
  pub init : Op S Unit
  pub endpoints : Dict E
  pub hooks : Option (HookConfig S D)
  pub middleware : List (MiddlewareConfig M)

pub record HookRegistry (S D : Type 0) : Type 0 where
  pub before_hooks : Dict (List (Hook S D))
  pub after_hooks : Dict (List (Hook S D))

pub record Manager (S E M D : Type 0) : Type 0 where
  pub plugins : List (Plugin S E M D)
  pub endpoints : Dict E
  pub hooks : HookRegistry S D
  pub middleware : List (MiddlewareConfig M)

abbrev pub new_hook_registry : {S D : Type 0} → HookRegistry S D
new_hook_registry = record { before_hooks = []; after_hooks = [] }

abbrev pub new_manager : {S E M D : Type 0} → List (Plugin S E M D) → Manager S E M D
new_manager ps = record { plugins = ps; endpoints = []; hooks = new_hook_registry; middleware = [] }

-- The text of a hook's error: when it ran, its plugin, and its place.
abbrev pub hook_failed : String → String → ℕ → Error
hook_failed kind id i =
    failed (str_append kind (str_append id (str_append "[" (str_append (itoa (pos i)) "] failed"))))

module _ {S : Type 0} where
  abbrev pub after_hook : Error → Done × S → (S → Done × S) → Done × S
  after_hook e (ok u, s) rest = rest s
  after_hook e (err x, s) rest = (err e, s)

  abbrev pub after_plugin : Done × S → (S → Done × S) → Done × S
  after_plugin (ok u, s) rest = rest s
  after_plugin (err x, s) rest = (err x, s)

module _ {S D : Type 0} where
  -- `r.hooks[id]`: a missing key is an empty slice
  abbrev pub hooks_of : Dict (List (Hook S D)) → String → List (Hook S D)
  hooks_of m id = elim (get m id) [ none ↦ [] | some hs ↦ hs ]

  abbrev pub add_hooks : Dict (List (Hook S D)) → String → List (Hook S D) → Dict (List (Hook S D))
  add_hooks m id hs = if ltb 0 (length hs) then put m id (hooks_of m id ++ hs) else m

  unfoldable pub register : String → Option (HookConfig S D) → HookRegistry S D → HookRegistry S D
  register id none r = r
  register id (some c) r = record {
    before_hooks = add_hooks r.before_hooks id c.before;
    after_hooks = add_hooks r.after_hooks id c.after;
  }

  -- The inner loop over the hooks of a plugin, from a place on.
  unfoldable pub execute_plugin :
      String → String → ℕ → List (Hook S D) → String → String → D → Op S Unit
  execute_plugin kind id i [] path method d s = (ok tt, s)
  execute_plugin kind id i (h ∷ hs) path method d s =
      let rest = execute_plugin kind id (suc i) hs path method d in
      if h.matcher path method
      then after_hook (hook_failed kind id i) (h.handler d s) rest
      else rest s

  -- `ExecuteBefore` and `ExecuteAfter` over the entries of the map, in the order in which it is walked.
  unfoldable pub execute : String → Dict (List (Hook S D)) → String → String → D → Op S Unit
  unfolding execute_plugin
  execute kind [] path method d s = (ok tt, s)
  execute kind ((id, hs) ∷ es) path method d s =
      after_plugin (execute_plugin kind id 0 hs path method d s) (execute kind es path method d)

abbrev pub match_all : String → String → Bool
match_all path method = true

abbrev pub match_path : String → String → String → Bool
match_path target path method = path == target

abbrev pub match_method : String → String → String → Bool
match_method target path method = method == target

abbrev pub match_path_and_method : String → String → String → String → Bool
match_path_and_method target_path target_method path method =
    path == target_path && method == target_method

module _ {E : Type 0} where
  -- The loop that registers the endpoints of a plugin: a path that is there already is an error.
  unfoldable pub register_endpoints : Dict E → Dict E → Result (Dict E)
  register_endpoints [] m = ok m
  register_endpoints ((path, e) ∷ es) m =
      let rest = register_endpoints es (put m path e) in
      if has m path then err (failed (str_append "endpoint conflict: " path)) else rest

abbrev pub lower_priority : {M : Type 0} → MiddlewareConfig M → MiddlewareConfig M → Bool
lower_priority a b = ltb_ℤ a.priority b.priority

module _ {S E M D : Type 0} where
  -- One round of `Initialize`, after the plugin's Init and its endpoints.
  abbrev pub add_plugin : Plugin S E M D → Dict E → Manager S E M D → Manager S E M D
  add_plugin p endpoints m = record m {
    endpoints = endpoints;
    hooks = register p.id p.hooks m.hooks;
    middleware = m.middleware ++ p.middleware;
  }

  abbrev pub init_failed : Plugin S E M D → Error
  init_failed p = failed (str_append "failed to initialize plugin " p.id)

  -- The loop of `Initialize`; what was registered before an error stays in the Go object, which its
  -- callers then drop.
  unfoldable pub initialize_plugins :
      List (Plugin S E M D) → Manager S E M D → S → Result (Manager S E M D) × S
  unfolding register_endpoints
  initialize_plugins [] m s = (ok m, s)
  initialize_plugins (p ∷ ps) m s =
      let (r, s') = p.init s in
      elim r [
        | err x ↦ (err (init_failed p), s')
        | ok u ↦ elim (register_endpoints p.endpoints m.endpoints) [
          | err x ↦ (err x, s')
          | ok endpoints ↦ initialize_plugins ps (add_plugin p endpoints m) s'
        ]
      ]

  -- sort.Slice by a number. Beyond twelve middlewares, those of equal priority may be in another order.
  abbrev pub sort_middleware : Manager S E M D → Manager S E M D
  sort_middleware m = record m { middleware = insertion_sort lower_priority m.middleware }

  abbrev pub sorted_result : Result (Manager S E M D) × S → Result (Manager S E M D) × S
  sorted_result (ok m, s) = (ok (sort_middleware m), s)
  sorted_result (err x, s) = (err x, s)

  unfoldable pub initialize : Manager S E M D → S → Result (Manager S E M D) × S
  unfolding initialize_plugins
  initialize m s = sorted_result (initialize_plugins m.plugins m s)

  abbrev pub get_plugin : Manager S E M D → String → Option (Plugin S E M D)
  get_plugin m id = first (λ p. p.id == id) m.plugins

  abbrev pub has_plugin : Manager S E M D → String → Bool
  has_plugin m id = is_some (get_plugin m id)
