-- ===== src/Session/Manager/Deleted.antt =====
-- session/manager.go: what `Delete` takes away, whichever stores are enabled beside the database, and
-- what Redis answers after `Create`.
use beacon_auth.Prelude.{
  ℕ, ◌+◌, String, ◌≡◌, ◌≤◌, sym, ap, ◌∙◌, subst, Option, none, some, arith, length, select, is_some,
  Option-cases, inl, inr,
}
use beacon_auth.Core.Value.{Time}
use beacon_auth.Core.Types.{ok, Session, User, SessionOptions}
use beacon_auth.Core.Query.{Adapter}
use beacon_auth.Core.World.{World, bind-ok, wrap-ok, pure, ◌>>=◌}
use beacon_auth.Core.Contract.{Contract}
use beacon_auth.Internal.{InternalAdapter, Lookup}
use beacon_auth.Internal.Revoke.{has_token, find-revoke_session}
use beacon_auth.Internal.Sessions.{find_session_run}
use beacon_auth.Session.Config.{Config, redis_first, determine_strategy}
use beacon_auth.Session.Cookie.{lookup_found, no_session}
use beacon_auth.Session.Redis.{RedisStore, set_with_user, delete_cached, get_cached, key, next_time}
use beacon_auth.Session.Redis.Commands
use beacon_auth.Session.Redis.Commands.{
  delete_cached_run, get_cached_missing, get_cached_hit, set_with_user_value, cache_ttl-Lasts,
  Lasts, Within, millisecond,
}
use beacon_auth.Session.Manager.Steady.{
  Steady, draft-Steadily, fetch_user-Steadily, store_in_db-Steadily,
}
use beacon_auth.Session.Database.{delete_stored, get_stored}
use beacon_auth.Session.Manager.{
  get_from_redis, get_from_db, get, delete, create, draft, fetch_user, given_user, store_layers,
  store_in_db, store_in_redis, final_token,
}
use beacon_auth.Session.Stores.{Manager, Externals, new_manager}

-- The strategy is the one that the stores determine.
unfoldable pub IsMade : {S R : Type 0} → Manager S R → Type 0
IsMade m =
    m.strategy
    ≡ determine_strategy (is_some m.cookie_store) (is_some m.redis_store) (is_some m.db_store)

pub new_manager-IsMade :
    {S R : Type 0} (x : Externals R) (c : Option Config) (a : Option (Adapter S)) (m : Manager S R)
    → new_manager x c a ≡ ok m
    → IsMade m
unfolding new_manager IsMade
new_manager-IsMade x none a m h = ground arith
new_manager-IsMade x (some c) a m h = ground arith

module _ {S R : Type 0} (m : Manager S R) (d : InternalAdapter S) (laws : Contract d.adapter) where
  -- The database and the clock decide what a lookup finds.
  get_stored_same :
      (token : String) (v z : World S R)
      → z.db ≡ v.db
      → z.clock ≡ v.clock
      → (get_stored d token z).0 ≡ (get_stored d token v).0
  unfolding get_stored
  get_stored_same token v z same_db same_clock =
      rw (find_session_run d laws token z, find_session_run d laws token v, same_db, same_clock)

  -- Redis knows nothing of the token, and the database has no session for it.
  get-nowhere :
      (token : String) (z : World S R) (r : RedisStore R) (commands : Commands.Contract r.client)
      → m.strategy ≡ redis_first
      → m.db_store ≡ some d
      → m.redis_store ≡ some r
      → commands.value z.cache (next_time z) (key r token) ≡ none
      → (get_stored d token z).0.session ≡ none
      → (get m token z).0.session ≡ none
  unfolding get
  get-nowhere token z r commands strategy db redis missing unknown =
      let found : get_from_redis m token z ≡ (no_session, z) =
        ground (arith, get_cached_missing r commands token z missing) in
      let from_db : get_from_db m token z ≡ get_stored d token z = ground arith in
      rw (strategy, found, from_db)
        (elim (Option-cases (get_stored d token z).0.error) [
          | inl e ↦ ground arith
          | inr (x, e) ↦ ground arith
        ])

  delete-db_only :
      (token : String) (w : World S R)
      → IsMade m
      → m.db_store ≡ some d
      → m.redis_store ≡ none
      → length (select (has_token d laws token) (laws.rows w.db "sessions")) ≤ 1
      → ((delete m token w).0 ≡ ok tt) × ((get m token (delete m token w).1).0.session ≡ none)
  unfolding IsMade determine_strategy delete get delete_stored get_stored
  delete-db_only token w made db redis one = (
    ground (arith, find-revoke_session d laws token w one),
    ground (arith, find-revoke_session d laws token w one),
  )

  delete-redis :
      (token : String) (w : World S R) (r : RedisStore R)
      → Commands.Contract r.client
      → IsMade m
      → m.db_store ≡ some d
      → m.redis_store ≡ some r
      → length (select (has_token d laws token) (laws.rows w.db "sessions")) ≤ 1
      → ((delete m token w).0 ≡ ok tt) × ((get m token (delete m token w).1).0.session ≡ none)
  unfolding IsMade determine_strategy delete delete_stored
  delete-redis token w r commands made db redis one =
      let v = (delete_stored d token w).1 in
      let z = (delete_cached r token v).1 in
      let (done, missing, same_db, same_clock) = delete_cached_run r commands token v in
      let (revoked, unknown) = find-revoke_session d laws token w one in
      let after : (delete m token w).1 ≡ z = ground arith in
      let nowhere : (get_stored d token z).0.session ≡ none =
        ap (λ (f : Lookup). f.session) (get_stored_same token v z same_db same_clock)
        ∙ (unfold get_stored in unknown) in
      (
        ground arith,
        rw after (
            get-nowhere token z r commands (ground arith) db redis (missing (next_time z)) nowhere),
      )

  -- With the database, over an adapter that meets the contract, and any other stores enabled, and
  -- the strategy that these stores determine, Delete succeeds and Get then finds nothing under the
  -- token: if the token is that of one row at most, and the Redis connection, if there is one, does
  -- not fail.
  pub get-delete :
      (token : String) (w : World S R)
      → IsMade m
      → m.db_store ≡ some d
      → ((r : RedisStore R) → m.redis_store ≡ some r → Commands.Contract r.client)
      → length (select (has_token d laws token) (laws.rows w.db "sessions")) ≤ 1
      → ((delete m token w).0 ≡ ok tt) × ((get m token (delete m token w).1).0.session ≡ none)
  get-delete token w made db commands one = elim (Option-cases m.redis_store) [
    | inl e ↦ delete-db_only token w made db e one
    | inr (r, e) ↦ delete-redis token w r (commands r e) made db e one
  ]

module _ {S R : Type 0} (m : Manager S R) (r : RedisStore R)
    (commands : Commands.Contract r.client) where
  get-redis :
      (token : String) (w : World S R) (s : Session) (u : Option User)
      → IsMade m
      → m.redis_store ≡ some r
      → (get_cached r token w).0 ≡ lookup_found s u
      → (get m token w).0 ≡ lookup_found s u
  unfolding IsMade determine_strategy get
  get-redis token w s u made redis h = elim (Option-cases m.db_store) [
    | inl e ↦ ground arith
    | inr (d, e) ↦ ground arith
  ]

  store_layers_redis :
      (s : Session) (u : Option User) (w v : World S R) (x : Session × Option User × String)
      → m.redis_store ≡ some r
      → m.cookie_store ≡ none
      → Steady w.clock
      → store_layers m s u w ≡ (ok x, v)
      → (text : String) × (x ≡ (s, u, s.token))
        × (r.codec.marshal (record { session = s; user = u }) ≡ ok text)
        × ((t : ℕ)
            → next_time v ≤ t
            → t + millisecond ≤ s.expires_at.instant
            → Within r.ttl (next_time v) t
            → commands.value v.cache t (key r s.token) ≡ some text)
  unfolding store_layers
  store_layers_redis s u w v x redis cookie steady h =
      let rest = λ (_ : Unit). final_token m s u >>= λ t. pure (s, u, t) in
      let (a, h₁, k₁) = bind-ok (store_in_db m s) (λ _. store_in_redis m s u >>= rest) w x v h in
      let z = (store_in_db m s w).1 in
      let (b, h₂, k₂) = bind-ok (store_in_redis m s u) rest z x v k₁ in
      let cached : (set_with_user r s u z).0 ≡ ok tt =
        wrap-ok "failed to store session in Redis" (set_with_user r s u) z b (rw redis at h₂) in
      let (text, e, left, read, value) = set_with_user_value r commands s u z cached in
      let ran : (store_in_redis m s u z).1 ≡ (set_with_user r s u z).1 = rw redis in
      let done : (final_token m s u >>= λ t. pure (s, u, t)) (store_in_redis m s u z).1
          ≡ (ok (s, u, s.token), (store_in_redis m s u z).1) =
        rw cookie in
      let made : (ok (s, u, s.token), (store_in_redis m s u z).1) ≡ (ok x, v) = sym done ∙ k₂ in
      let same : v ≡ (set_with_user r s u z).1 = sym (ap (λ p. p.1) made) ∙ ran in
      let next : next_time v ≡ (z.clock 1).instant =
        ap (λ (y : World S R). next_time y) same ∙ ap (λ (t : Time). t.instant) read in
      (
        text,
        ground arith,
        e,
        λ t order ends within.
            subst (λ (y : World S R). commands.value y.cache t (key r s.token) ≡ some text)
              (sym same)
              (value t (subst (λ n. n ≤ t) next order) (
                cache_ttl-Lasts r.ttl s.expires_at.instant (z.clock 0).instant (z.clock 1).instant t
                  (store_in_db-Steadily m s w steady 0) left ends
                  (subst (λ n. Within r.ttl n t) next within))),
      )

  found_at :
      (x : Session × Option User × String) (s : Session) (u : Option User) (v : World S R)
      (text : String)
      → x ≡ (s, u, s.token)
      → r.codec.marshal (record { session = s; user = u }) ≡ ok text
      → commands.value v.cache (next_time v) (key r s.token) ≡ some text
      → IsMade m
      → m.redis_store ≡ some r
      → ((t : String)
          → r.codec.marshal (record { session = x.0; user = x.1 }) ≡ ok t
          → r.codec.unmarshal t ≡ ok (record { session = x.0; user = x.1 }))
      → next_time v ≤ x.0.expires_at.instant
      → (get m x.2 v).0 ≡ lookup_found x.0 x.1
  found_at (s', u', token) s u v text same e value made redis round alive =
      let parts : (s' ≡ s) × (u' ≡ u) × (token ≡ s.token) = ground arith in
      get-redis token v s' u' made redis (
        get_cached_hit r commands token text s' u' v (rw parts.2 value)
          (round text (rw (parts.0, parts.1) e)) alive)

  -- Where no cookie store is enabled and Redis is, over a connection that does not fail, with the
  -- strategy that the stores determine and a clock that does not go back, a Create that succeeds has
  -- left its session in Redis. A later Get, with nothing done to Redis in between, finds exactly the
  -- session and the user that Create returned, under the token that was handed out: if at that time
  -- there is a millisecond or more left of the session and, where a time to live is configured, of
  -- that time, counted from the end of Create; and if unmarshalling undoes marshalling on them.
  pub get-create_redis :
      (user_id : String) (opts : Option SessionOptions) (w v later : World S R) (s : Session)
      (u : Option User) (token : String)
      → IsMade m
      → m.redis_store ≡ some r
      → m.cookie_store ≡ none
      → Steady w.clock
      → create m user_id opts w ≡ (ok (s, u, token), v)
      → ((text : String)
          → r.codec.marshal (record { session = s; user = u }) ≡ ok text
          → r.codec.unmarshal text ≡ ok (record { session = s; user = u }))
      → later.cache ≡ v.cache
      → next_time v ≤ next_time later
      → next_time later + millisecond ≤ s.expires_at.instant
      → Within r.ttl (next_time v) (next_time later)
      → (get m token later).0 ≡ lookup_found s u
  unfolding create
  get-create_redis user_id opts w v later s u token made redis cookie steady h round cache order
        ends within =
      let (s', h₁, k₁) =
        bind-ok (draft m user_id opts)
          (λ x. fetch_user m (given_user opts) user_id >>= (λ y. store_layers m x y)) w
          (s, u, token) v h in
      let z = (draft m user_id opts w).1 in
      let fetch = fetch_user m (given_user opts) user_id in
      let (u', h₂, k₂) = bind-ok fetch (λ y. store_layers m s' y) z (s, u, token) v k₁ in
      let kept : Steady (fetch z).1.clock =
        fetch_user-Steadily m (given_user opts) user_id z
          (draft-Steadily m user_id opts w steady) in
      let (text, same, e, value) =
        store_layers_redis s' u' (fetch z).1 v (s, u, token) redis cookie kept k₂ in
      let expires : s'.expires_at.instant ≡ s.expires_at.instant = ground arith in
      let there : commands.value later.cache (next_time later) (key r s'.token) ≡ some text =
        rw cache (value (next_time later) order (omega arith) within) in
      found_at (s, u, token) s' u' later text same e there made redis round (omega arith)
