-- ===== src/Instance/Made.antt =====
-- beaconauth.go, core/auth.go: what New guarantees, and what its sessions are good for.
use beacon_auth.Prelude.{
  String, ◌≡◌, ◌≢◌, refl, subst, Option, none, some, List, arith, eq_iff, Option-cases, inl, inr,
}
use beacon_auth.Core.Types.{Result, Result-cases, ok, err, User, Session, SessionOptions}
use beacon_auth.Core.Query.{Adapter}
use beacon_auth.Core.World.{World, Act, bind-ok, pure}
use beacon_auth.Core.Contract.{Contract}
use beacon_auth.Internal.{new_internal_adapter}
use beacon_auth.Session.Stores.{Externals, Manager, new_manager}
use beacon_auth.Session.Manager
use beacon_auth.Session.Manager.Mismatch.{get-create_cookie}
use beacon_auth.Session.Database.Stored.{IsFresh}
use beacon_auth.Middleware.{
  Context, Next, with_request, unauthorized, auth_middleware, get_request_session,
}
use beacon_auth.Instance.{
  Config, Setting, Instance, apply_settings, validate, session_config, init_plugins, with_manager,
  new, default_config,
}

-- What is true of an instance that New has made.
pub record IsInstance {S R P : Type 0} (x : Externals R) (i : Instance S R P) : Type 0 where
  pub adapter : Adapter S
  pub has_secret : i.config.secret ≢ ""
  pub has_base_url : i.config.base_url ≢ ""
  pub has_adapter : i.config.adapter ≡ some adapter
  pub has_manager :
      new_manager x (some (session_config i.config)) (some adapter) ≡ ok i.session_manager

module _ {S R P : Type 0} (x : Externals R) (init : P → Act S R Unit) where
  validate-ok :
      (c : Config S P)
      → validate c ≡ ok tt
      → (a : Adapter S) × (c.secret ≢ "") × (c.base_url ≢ "") × (c.adapter ≡ some a)
  unfolding validate
  validate-ok c h = elim (Option-cases c.adapter) [
    | inl e ↦ absurd (ground arith)
    | inr (a, e) ↦ (a, ground (arith, eq_iff c.secret ""), ground (arith, eq_iff c.base_url ""), e)
  ]

  with_manager-ok :
      (c : Config S P) (r : Result (Manager S R)) (w v : World S R) (i : Instance S R P)
      → with_manager x init c r w ≡ (ok i, v)
      → (r ≡ ok i.session_manager) × (i.config ≡ c)
  with_manager-ok c (err e) w v i h = absurd (ground arith)
  with_manager-ok c (ok m) w v i h =
      let (u, h₁, k) =
        bind-ok (init_plugins x init c.plugins)
          (λ _. pure (record { config = c; session_manager = m })) w i v h in
      (ground arith, ground arith)

  -- New succeeds only with a secret, a base URL and an adapter; and its session manager is then the one
  -- that NewManager makes of the configuration with that adapter.
  pub new-IsInstance :
      (settings : List (Setting S P)) (w v : World S R) (i : Instance S R P)
      → new x init settings w ≡ (ok i, v)
      → IsInstance x i
  unfolding new
  new-IsInstance settings w v i h = elim (Result-cases (apply_settings settings default_config)) [
    | inr (e, k) ↦ absurd (ground arith)
    | inl (c, k) ↦ elim (Result-cases (validate c)) [
      | inr (e, l) ↦ absurd (ground arith)
      | inl (u, l) ↦
          (let (a, secret, url, has) = validate-ok c l in
            let (made, same) =
              with_manager-ok c (new_manager x (some (session_config c)) c.adapter) w v i
                (rw (k, l) at h) in
            record {
              adapter = a;
              has_secret = rw same secret;
              has_base_url = rw same url;
              has_adapter = rw same has;
              has_manager = rw (same, ← has) made;
            })
    ]
  ]

module _ {S R P : Type 0} (x : Externals R) (init : P → Act S R Unit) (next : Next S R) where
  unfound-401 :
      (m : Manager S R) (c : Context) (cookies : String → Option String) (w : World S R)
      (token : String)
      → cookies m.config.cookie_name ≡ some token
      → (Manager.get m token w).0.session ≡ none
      → (auth_middleware m next (with_request c cookies) w).0 ≡ unauthorized
  unfolding auth_middleware get_request_session
  unfound-401 m c cookies w token k gone = rw (k, gone)

  -- An instance that New has made refuses a request whose cookie is the token that its session manager
  -- has handed out for a new session: if its adapter meets the contract and no row had either the
  -- session's own token or the one that was handed out.
  pub auth_middleware-create :
      (settings : List (Setting S P)) (w₀ v₀ : World S R) (i : Instance S R P) (a : Adapter S)
      (laws : Contract a) (user_id : String) (opts : Option SessionOptions) (w v : World S R)
      (s : Session) (u : Option User) (token : String) (c : Context)
      (cookies : String → Option String)
      → new x init settings w₀ ≡ (ok i, v₀)
      → i.config.adapter ≡ some a
      → Manager.create i.session_manager user_id opts w ≡ (ok (s, u, token), v)
      → IsFresh (new_internal_adapter a none x.show_time) laws w.db s.token
      → IsFresh (new_internal_adapter a none x.show_time) laws w.db token
      → cookies i.session_manager.config.cookie_name ≡ some token
      → (auth_middleware i.session_manager next (with_request c cookies) v).0 ≡ unauthorized
  unfolding session_config
  auth_middleware-create settings w₀ v₀ i a laws user_id opts w v s u token c cookies made has h
        fresh unknown k =
      let y = new-IsInstance x init settings w₀ v₀ i made in
      let same : y.adapter ≡ a = ground (arith, y.has_adapter) in
      let manager : new_manager x (some (session_config i.config)) (some a) ≡ ok i.session_manager =
        subst (λ b. new_manager x (some (session_config i.config)) (some b) ≡ ok i.session_manager)
          same y.has_manager in
      unfound-401 i.session_manager c cookies v token k
        (get-create_cookie x (session_config i.config) a laws i.session_manager refl refl refl
          manager user_id opts w v s u token h fresh unknown).1
