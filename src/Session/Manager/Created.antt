-- ===== src/Session/Manager/Created.antt =====
-- session/manager.go: what `Create` has done when it succeeds.
use beacon_auth.Prelude.{
  ℕ, String, ◌≡◌, ◌<◌, refl, sym, ap, ◌∙◌, subst, Option, none, some, List, [], arith, Option-cases,
  inl, inr,
}
use beacon_auth.Core.Value.{Time, add_time}
use beacon_auth.Core.Types.{ok, Session, User, SessionOptions}
use beacon_auth.Core.World.{World, bind-ok, now, pure, ◌>>=◌}
use beacon_auth.Core.Encoding.{take_bytes}
use beacon_auth.Core.Contract.{Contract}
use beacon_auth.Internal.{InternalAdapter, find_user_by_id, user_query}
use beacon_auth.Session.Config.{Config, db_only}
use beacon_auth.Session.Database.Stored.{
  IsFresh, set_stored_run, get_stored-set_stored, map_to_session-row,
}
use beacon_auth.Session.Database.{set_stored}
use beacon_auth.Session.Manager.{
  get, create, draft, store_layers, expiry, new_session, fetch_user, given_user, store_in_db,
  store_in_redis, final_token,
}
use beacon_auth.Session.Stores.{Manager}
use beacon_auth.Session.Random.{charset_string}

new_session_fields :
    (id user_id token : String) (e t : Time) (opts : Option SessionOptions)
    → ((new_session id user_id token e t opts).user_id ≡ user_id)
      × ((new_session id user_id token e t opts).token ≡ token)
      × ((new_session id user_id token e t opts).impersonated_by ≡ "")
      × ((new_session id user_id token e t opts).metadata ≡ [])
new_session_fields id user_id token e t none = (refl, refl, refl, refl)
new_session_fields id user_id token e t (some o) = (refl, refl, refl, refl)

module _ {S R : Type 0} (m : Manager S R) where
  -- A new session belongs to the user and has a random token over the letters and digits; making it
  -- leaves the database alone.
  pub record IsDraft (user_id : String) (w v : World S R) (s : Session) : Type 0 where
    pub owner : s.user_id ≡ user_id
    pub no_impersonation : s.impersonated_by ≡ ""
    pub no_metadata : s.metadata ≡ []
    pub bytes : List ℕ
    pub random : s.token ≡ charset_string bytes
    pub same_db : v.db ≡ w.db

  -- The expiry costs readings of the clock, and nothing else.
  pub expiry_run :
      (opts : Option SessionOptions) (w : World S R)
      → (e : Time) × (v : World S R) × (expiry m opts w ≡ (ok e, v))
        × (v.db ≡ w.db)
        × (v.entropy ≡ w.entropy)
  expiry_run none w = (_, _, refl, refl, refl)
  expiry_run (some o) w = elim (Option-cases o.expires_in) [
    | inl e ↦ (add_time (w.clock 0) m.config.expires_in, (now w).1, ground arith, refl, refl)
    | inr (d, e) ↦ (add_time (w.clock 1) d, (now (now w).1).1, ground arith, refl, refl)
  ]

  pub draft-IsDraft :
      (user_id : String) (opts : Option SessionOptions) (w : World S R) (s : Session)
      → (draft m user_id opts w).0 ≡ ok s
      → IsDraft user_id w (draft m user_id opts w).1 s
  unfolding draft
  draft-IsDraft user_id opts w s h =
      let (e, v, run, db, draws) = expiry_run opts w in
      elim (Option-cases (w.entropy 0)) [
        | inl none₀ ↦ absurd (ground arith)
        | inr (f, some₀) ↦ elim (Option-cases (w.entropy 1)) [
          | inl none₁ ↦ absurd (ground arith)
          | inr (g, some₁) ↦
              (let d₀ : v.entropy 0 ≡ some f = ap (λ (x : ℕ → Option (ℕ → ℕ)). x 0) draws ∙ some₀ in
                let d₁ : v.entropy 1 ≡ some g =
                  ap (λ (x : ℕ → Option (ℕ → ℕ)). x 1) draws ∙ some₁ in
                let made : s
                    ≡ new_session (charset_string (take_bytes 16 f)) user_id
                        (charset_string (take_bytes 32 g)) e (v.clock 0) opts =
                  ground arith in
                let fields =
                  new_session_fields (charset_string (take_bytes 16 f)) user_id
                    (charset_string (take_bytes 32 g)) e (v.clock 0) opts in
                record {
                  owner = ground arith;
                  no_impersonation = ground arith;
                  no_metadata = ground arith;
                  bytes = take_bytes 32 g;
                  random = ground arith;
                  same_db = ground arith;
                })
        ]
      ]

-- A manager with the database as its only store.
abbrev pub db_manager : {S R : Type 0} → Config → InternalAdapter S → Manager S R
db_manager c d = record {
  config = c;
  cookie_store = none;
  redis_store = none;
  db_store = some d;
  strategy = db_only;
}

module _ {S R : Type 0} (c : Config) (d : InternalAdapter S) (laws : Contract d.adapter) where
  find_user_db : (id : String) (w : World S R) → (find_user_by_id d id w).1.db ≡ w.db
  unfolding find_user_by_id
  find_user_db id w = ground (arith, laws.find_one_run (user_query "id" id) w.db)

  pub fetch_user_db :
      (m : Manager S R) (g : Option User) (id : String) (w : World S R)
      → m.db_store ≡ some d
      → (fetch_user m g id w).1.db ≡ w.db
  fetch_user_db m (some u) id w e = refl
  fetch_user_db m none id w e = ground (arith, find_user_db id w)

  pub store_layers_same :
      (m : Manager S R) (s : Session) (u : Option User) (w v : World S R)
      (r : Session × Option User × String)
      → store_layers m s u w ≡ (ok r, v)
      → r.0 ≡ s
  unfolding store_layers
  store_layers_same m s u w v r h =
      let (a, h₁, k₁) =
        bind-ok (store_in_db m s)
          (λ _. store_in_redis m s u >>= λ _. final_token m s u >>= λ t. pure (s, u, t)) w r v h in
      let (b, h₂, k₂) =
        bind-ok (store_in_redis m s u) (λ _. final_token m s u >>= λ t. pure (s, u, t)) _ r v k₁ in
      let (t, h₃, k₃) = bind-ok (final_token m s u) (λ t. pure (s, u, t)) _ r v k₂ in ground arith

  store_layers_db :
      (s : Session) (u : Option User) (w v : World S R) (r : Session × Option User × String)
      → IsFresh d laws w.db s.token
      → store_layers (db_manager c d) s u w ≡ (ok r, v)
      → (r ≡ (s, u, s.token)) × (v ≡ (set_stored d s w).1)
  unfolding store_layers
  store_layers_db s u w v r f h = ground (arith, set_stored_run d laws s w f)

  -- With the database, over an adapter that meets the contract, as the only store, a session that
  -- Create has returned belongs to the user and is found by Get under the token that was handed
  -- out, exactly as it was returned, until it expires: if no row had its token before.
  pub get-create :
      (user_id : String) (opts : Option SessionOptions) (w v : World S R) (s : Session)
      (u : Option User) (token : String)
      → create (db_manager c d) user_id opts w ≡ (ok (s, u, token), v)
      → IsFresh d laws w.db s.token
      → (v.clock 0).instant < s.expires_at.instant
      → (s.user_id ≡ user_id) × ((get (db_manager c d) token v).0.session ≡ some s)
  unfolding create get
  get-create user_id opts w v s u token h fresh alive =
      let m = db_manager {S = S} {R = R} c d in
      let (s', h₁, k₁) =
        bind-ok (draft m user_id opts)
          (λ x. fetch_user m (given_user opts) user_id >>= (λ y. store_layers m x y)) w
          (s, u, token) v h in
      let (u', h₂, k₂) =
        bind-ok (fetch_user m (given_user opts) user_id) (λ y. store_layers m s' y)
          (draft m user_id opts w).1 (s, u, token) v k₁ in
      let x = draft-IsDraft m user_id opts w s' h₁ in
      let w₂ = (fetch_user m (given_user opts) user_id (draft m user_id opts w).1).1 in
      let same : w₂.db ≡ w.db = fetch_user_db m (given_user opts) user_id _ refl ∙ x.same_db in
      let s_same : s ≡ s' = store_layers_same m s' u' w₂ v (s, u, token) k₂ in
      let fresh' : IsFresh d laws w₂.db s'.token =
        subst (λ b. IsFresh d laws b s'.token) (sym same)
          (subst (λ k. IsFresh d laws w.db k.token) s_same fresh) in
      let stored = store_layers_db s' u' w₂ v (s, u, token) fresh' k₂ in
      let handed : token ≡ s'.token = ground (arith, stored.0) in
      (
        rw s_same x.owner,
        rw (handed, s_same)
            (get_stored-set_stored d laws s' w₂ v fresh' (ap (λ (z : World S R). z.db) stored.1)
                (subst (λ k. (v.clock 0).instant < k.expires_at.instant) s_same alive)
              ∙ ap some (map_to_session-row s' x.no_impersonation x.no_metadata)),
      )
