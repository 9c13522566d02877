-- ===== src/Plugin/Registered.antt =====
-- plugin/manager.go: what a successful Initialize has registered.
use mathlib.Core.List.{append-nil, append_assoc}
use beacon_auth.Prelude.{
  String, ◌≡◌, ◌∙◌, subst, true, false, some, List, [], ◌∷◌, ◌++◌, Perm, arith, All, eq_iff,
  eq_refl, Bool-cases, inl, inr,
}
use beacon_auth.Prelude.Dict.{Dict, get, put, has, get-put}
use beacon_auth.Core.Types.{Result-cases, ok}
use beacon_auth.Memory.Sort.{insertion_sort}
use beacon_auth.Memory.Sorted.{IsOrdered, insertion_sort-perm, insertion_sort-IsOrdered}
use beacon_auth.Plugin.{
  MiddlewareConfig, Plugin, Manager, register_endpoints, add_plugin, initialize, initialize_plugins,
  lower_priority, sort_middleware, new_manager,
}

module _ {E : Type 0} where
  -- The paths of the entries have their endpoints in the map.
  abbrev pub Registered : Dict E → Dict E → Type 0
  Registered es m = All (λ (x : String × E). get m x.0 ≡ some x.1) es

  -- No binding is lost.
  abbrev pub Extends : Dict E → Dict E → Type 0
  Extends m n = (path : String) (e : E) → get m path ≡ some e → get n path ≡ some e

  All-Extends : (es m n : Dict E) → Extends m n → Registered es m → Registered es n
  All-Extends [] m n x h = tt
  All-Extends ((path, e) ∷ es) m n x h = (x path e h.0, All-Extends es m n x h.1)

  put-Extends : (m : Dict E) (path : String) (e : E) → has m path ≡ false → Extends m (put m path e)
  put-Extends m path e h k v g = ground (arith, get-put m path k e, eq_iff path k)

  register_endpoints_lem :
      (es m n : Dict E) → register_endpoints es m ≡ ok n → Extends m n × Registered es n
  unfolding register_endpoints
  register_endpoints_lem [] m n h = (λ path e g. ground arith, tt)
  register_endpoints_lem ((path, e) ∷ es) m n h = elim (Bool-cases (has m path)) [
    | inl taken ↦ absurd (ground arith)
    | inr free ↦
        let (x, r) = register_endpoints_lem es (put m path e) n (ground arith) in
        (
          λ k v g. x k v (put-Extends m path e free k v g),
          (x path e (ground (arith, get-put m path path e, eq_refl path)), r),
        )
  ]

module _ {S E M D : Type 0} where
  -- The middleware of the plugins, in order.
  pub all_middleware : List (Plugin S E M D) → List (MiddlewareConfig M)
  all_middleware [] = []
  all_middleware (p ∷ ps) = p.middleware ++ all_middleware ps

  initialize_plugins_lem :
      (ps : List (Plugin S E M D)) (m n : Manager S E M D) (s v : S)
      → initialize_plugins ps m s ≡ (ok n, v)
      → Extends m.endpoints n.endpoints
        × All (λ (p : Plugin S E M D). Registered p.endpoints n.endpoints) ps
        × (n.middleware ≡ m.middleware ++ all_middleware ps)
  unfolding initialize_plugins all_middleware
  initialize_plugins_lem [] m n s v h =
      let same : n ≡ m = ground arith in (λ path e g. rw same g, tt, rw (same, append-nil))
  initialize_plugins_lem (p ∷ ps) m n s v h = elim (Result-cases (p.init s).0) [
    | inr (x, e) ↦ absurd (ground arith)
    | inl (u, e) ↦ elim (Result-cases (register_endpoints p.endpoints m.endpoints)) [
      | inr (x, k) ↦ absurd (ground arith)
      | inl (endpoints, k) ↦
          (let (x, r) = register_endpoints_lem p.endpoints m.endpoints endpoints k in
            let next : initialize_plugins ps (add_plugin p endpoints m) (p.init s).1 ≡ (ok n, v) =
              rw (e, k) at h in
            let (y, rs, mw) =
              initialize_plugins_lem ps (add_plugin p endpoints m) n (p.init s).1 v next in
            (
              λ path a g. y path a (x path a g),
              (All-Extends p.endpoints endpoints n.endpoints y r, rs),
              mw ∙ append_assoc m.middleware p.middleware (all_middleware ps),
            ))
    ]
  ]

priority-asym :
    {M : Type 0} (a b : MiddlewareConfig M) → lower_priority a b ≡ true → lower_priority b a ≡ false
priority-asym a b h = ground arith

module _ {S E M D : Type 0} where
  -- After a successful Initialize of a new manager, each path of each plugin leads to the endpoint
  -- that this plugin gave it, so no two plugins share a path; and the middleware is that of all plugins,
  -- none lost and none twice, with no one before another of lower priority number.
  pub initialize_lem :
      (ps : List (Plugin S E M D)) (n : Manager S E M D) (s v : S)
      → initialize (new_manager ps) s ≡ (ok n, v)
      → All (λ (p : Plugin S E M D). Registered p.endpoints n.endpoints) ps
        × Perm n.middleware (all_middleware ps)
        × IsOrdered lower_priority n.middleware
  unfolding initialize
  initialize_lem ps n s v h = elim (Result-cases (initialize_plugins ps (new_manager ps) s).0) [
    | inr (x, e) ↦ absurd (ground arith)
    | inl (m, e) ↦
        (let w = (initialize_plugins ps (new_manager ps) s).1 in
          let run : initialize_plugins ps (new_manager ps) s ≡ (ok m, w) = ground arith in
          let same : n ≡ sort_middleware m = ground arith in
          let (x, r, mw) = initialize_plugins_lem ps (new_manager ps) m s w run in
          (
            rw same r,
            rw same (
                subst (Perm (insertion_sort lower_priority m.middleware)) mw
                  (insertion_sort-perm lower_priority m.middleware)),
            rw same (insertion_sort-IsOrdered lower_priority priority-asym m.middleware),
          ))
  ]
