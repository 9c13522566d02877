-- ===== src/Session/Manager/Keeps.antt =====
-- session/manager.go: `Create` writes to no table but that of the sessions.
use beacon_auth.Prelude.{
  String, ◌≡◌, refl, ap, ◌∙◌, false, Option, none, some, arith, ◌==◌, Bool-cases, Option-cases, inl,
  inr,
}
use beacon_auth.Core.Types.{
  Error, user_not_found, session_not_found, failed, Result-cases, Session, User, SessionOptions,
}
use beacon_auth.Core.World.{World, Act, now, pure, on_db, ◌>>=◌}
use beacon_auth.Core.Contract.{Contract}
use beacon_auth.Internal.{InternalAdapter, find_session_with_user, Lookup}
use beacon_auth.Internal.Sessions.{find_session_run}
use beacon_auth.Session.Cookie.{CookieStore, create_token, unix}
use beacon_auth.Session.Database.{session_row, set_stored, set_found, token_query, refreshed}
use beacon_auth.Session.Redis.{RedisStore, set_with_user, until, positive}
use beacon_auth.Session.Manager.{
  create, draft, store_layers, fetch_user, given_user, store_in_db, store_in_redis, final_token,
}
use beacon_auth.Session.Stores.{Manager}
use beacon_auth.Session.Manager.Created.{expiry_run, fetch_user_db}

module _ {S R : Type 0} (d : InternalAdapter S) (laws : Contract d.adapter) (j : String) where
  -- The rows of the table stay what they are.
  abbrev pub Keeps : {A : Type 0} → Act S R A → Type 0
  Keeps f = (w : World S R) → laws.rows (f w).1.db j ≡ laws.rows w.db j

  Keeps-bind :
      {A B : Type 0} (f : Act S R A) (g : A → Act S R B)
      → Keeps f
      → ((a : A) → Keeps (g a))
      → Keeps (f >>= g)
  Keeps-bind f g k l w = elim (Result-cases (f w).0) [
    | inl (a, e) ↦ ground (arith, k w, l a (f w).1)
    | inr (x, e) ↦ ground (arith, k w)
  ]

  set_with_user-Keeps :
      (r : RedisStore R) (s : Session) (u : Option User) → Keeps (set_with_user r s u)
  unfolding set_with_user
  set_with_user-Keeps r s u w =
      elim (Result-cases (r.codec.marshal (record { session = s; user = u }))) [
        | inl (text, e) ↦ elim (Bool-cases (positive (until (w.clock 0) s.expires_at))) [
          | inl p ↦ ground arith
          | inr p ↦ ground arith
        ]
        | inr (x, e) ↦ ground arith
      ]

  create_token-Keeps :
      (c : CookieStore) (s : Session) (u : Option User) → Keeps (create_token c s u)
  unfolding create_token
  create_token-Keeps c s u w =
      elim (Result-cases (
        c.codec.marshal
          (record { session = s; user = u; issuer = c.issuer; issued_at = unix (w.clock 0) }))) [
            | inl (text, e) ↦ ground arith
            | inr (x, e) ↦ ground arith
          ]

  update_token-Keeps :
      (s : Session) (old : Session)
      → ("sessions" == j) ≡ false
      → Keeps (
          now >>= λ t.
          on_db (d.adapter.update (token_query s.token) (refreshed s t)) >>= λ x. pure tt)
  update_token-Keeps s old other w = ground (
    arith,
    laws.update_result (token_query s.token) (refreshed s (w.clock 0)) w.db,
    laws.update_rows (token_query s.token) (refreshed s (w.clock 0)) w.db j,
  )

  create_row-Keeps :
      (s : Session)
      → ("sessions" == j) ≡ false
      → Keeps (on_db (d.adapter.create "sessions" (session_row s)) >>= λ x. pure tt)
  create_row-Keeps s other w = ground (
    arith,
    laws.create_result "sessions" (session_row s) w.db,
    laws.create_rows "sessions" (session_row s) w.db j,
  )

  set_found-Keeps :
      (s : Session) (old : Option Session) (e : Option Error)
      → ("sessions" == j) ≡ false
      → Keeps (set_found d s old e)
  set_found-Keeps s old (some user_not_found) other w = refl
  set_found-Keeps s old (some (failed text)) other w = refl
  set_found-Keeps s (some o) none other w = update_token-Keeps s o other w
  set_found-Keeps s (some o) (some session_not_found) other w = update_token-Keeps s o other w
  set_found-Keeps s none none other w = create_row-Keeps s other w
  set_found-Keeps s none (some session_not_found) other w = create_row-Keeps s other w

  set_stored-Keeps : (s : Session) → ("sessions" == j) ≡ false → Keeps (set_stored d s)
  unfolding set_stored
  set_stored-Keeps s other w =
      let x = (find_session_with_user d s.token w).0 in
      set_found-Keeps s x.session x.error other (find_session_with_user d s.token w).1
      ∙ ap (λ (p : Lookup × World S R). laws.rows p.1.db j) (find_session_run d laws s.token w)

  draft-Keeps :
      (m : Manager S R) (user_id : String) (opts : Option SessionOptions)
      → Keeps (draft m user_id opts)
  unfolding draft
  draft-Keeps m user_id opts w =
      let (e, v, run, db, draws) = expiry_run m opts w in
      elim (Option-cases (v.entropy 0)) [
        | inl n ↦ ground arith
        | inr (f, n) ↦ elim (Option-cases (v.entropy 1)) [
          | inl k ↦ ground arith
          | inr (g, k) ↦ ground arith
        ]
      ]

  store_layers-Keeps :
      (m : Manager S R) (s : Session) (u : Option User)
      → ("sessions" == j) ≡ false
      → m.db_store ≡ some d
      → Keeps (store_layers m s u)
  unfolding store_layers
  store_layers-Keeps m s u other db =
      Keeps-bind (store_in_db m s)
        (λ _. store_in_redis m s u >>= λ _. final_token m s u >>= λ t. pure (s, u, t))
        (λ w. rw db (set_stored-Keeps s other w))
        (λ _.
          Keeps-bind (store_in_redis m s u) (λ _. final_token m s u >>= λ t. pure (s, u, t))
            (λ w. elim (Option-cases m.redis_store) [
              | inl e ↦ rw e
              | inr (r, e) ↦ rw e (set_with_user-Keeps r s u w)
            ])
            (λ _.
              Keeps-bind (final_token m s u) (λ t. pure (s, u, t))
                (λ w. elim (Option-cases m.cookie_store) [
                  | inl e ↦ rw e
                  | inr (c, e) ↦ rw e (create_token-Keeps c s u w)
                ])
                (λ t w. refl)))

  -- Create on a manager with a database, over an adapter that meets the contract, changes the rows
  -- of no table but that of the sessions, whether or not it succeeds.
  pub create-Keeps :
      (m : Manager S R) (user_id : String) (opts : Option SessionOptions)
      → ("sessions" == j) ≡ false
      → m.db_store ≡ some d
      → Keeps (create m user_id opts)
  unfolding create
  create-Keeps m user_id opts other db =
      Keeps-bind (draft m user_id opts)
        (λ s. fetch_user m (given_user opts) user_id >>= λ u. store_layers m s u)
        (draft-Keeps m user_id opts)
        (λ s.
          Keeps-bind (fetch_user m (given_user opts) user_id) (λ u. store_layers m s u)
            (λ w.
              ap (λ b. laws.rows b j)
                (fetch_user_db m.config d laws m (given_user opts) user_id w db))
            (λ u. store_layers-Keeps m s u other db))
