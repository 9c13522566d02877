-- ===== src/Session/Manager.antt =====
-- session/manager.go: the manager over the stores that are enabled.
pub mod Created
pub mod Mismatch
pub mod Deleted
pub mod Keeps
pub mod Steady
pub mod Updated
use Prim.Native.String.{slice}
use mathlib.Core.Option
use beacon_auth.Prelude.{
  ℕ, zero, suc, ◌+◌, ◌%◌, String, str_append, Bool, true, false, ◌&&◌, not, Option, none, some,
  List, [], ◌∷◌, ℤ, pos, sub_ℕ, ltb_ℤ, is_some, ◌==◌, if◌then◌else◌,
}
use beacon_auth.Core.Value.{Time, add_time}
use beacon_auth.Core.Types.{Error, failed, Result, Done, ok, err, Session, User, SessionOptions}
use beacon_auth.Core.Query.{Adapter}
use beacon_auth.Core.World.{
  World, Act, on_cache, pure, fail, read_clock, now, read_random, wrap, continue, ◌>>=◌, ◌>>◌,
}
use beacon_auth.Core.Encoding.{take_bytes}
use beacon_auth.Internal.{InternalAdapter, Lookup, new_internal_adapter, find_user_by_id}
use beacon_auth.Session.Config.{
  Config, default_config, Strategy, redis_first, db_first, cookie_only, redis_only, db_only,
  determine_strategy,
}
use beacon_auth.Session.Cookie.{
  CookieCodec, CookieStore, get_cookie, create_token, no_session, lookup_found,
}
use beacon_auth.Session.Redis.{
  RedisClient, DataCodec, RedisStore, get_cached, set_with_user, set_cached, delete_cached,
  delete_cached_by_user,
}
use beacon_auth.Session.Database.{
  get_stored, set_stored, delete_stored, delete_stored_by_user, cleanup_stored, close_stored,
}
use beacon_auth.Session.Stores.{Manager}
use beacon_auth.Session.Random.{generate_random_string, generate_id, generate_token}

abbrev pub new_session : String → String → String → Time → Time → Option SessionOptions → Session
new_session id user_id token expires_at t none = record {
  id = id;
  user_id = user_id;
  token = token;
  expires_at = expires_at;
  ip_address = "";
  user_agent = "";
  created_at = t;
  updated_at = t;
  impersonated_by = "";
  metadata = [];
}
new_session id user_id token expires_at t (some o) = record {
  id = id;
  user_id = user_id;
  token = token;
  expires_at = expires_at;
  ip_address = o.ip_address;
  user_agent = o.user_agent;
  created_at = t;
  updated_at = t;
  impersonated_by = "";
  metadata = [];
}

abbrev pub given_user : Option SessionOptions → Option User
given_user none = none
given_user (some o) = o.user

module _ {S R : Type 0} (m : Manager S R) where
  abbrev pub get_from_cookie : String → World S R → Lookup × World S R
  get_from_cookie token w = elim m.cookie_store [
    | none ↦ (no_session, w)
    | some c ↦ get_cookie c token w
  ]

  abbrev pub get_from_redis : String → World S R → Lookup × World S R
  get_from_redis token w = elim m.redis_store [
    | none ↦ (no_session, w)
    | some r ↦ get_cached r token w
  ]

  abbrev pub get_from_db : String → World S R → Lookup × World S R
  get_from_db token w = elim m.db_store [ none ↦ (no_session, w) | some d ↦ get_stored d token w ]

  -- `_ = m.redisStore.SetWithUser(…)`: an error is ignored
  abbrev pub cache_found : Session → Option User → World S R → World S R
  cache_found s u w = elim m.redis_store [ none ↦ w | some r ↦ (set_with_user r s u w).1 ]

  -- The second half of the strategy that asks Redis first.
  abbrev pub then_db : Lookup → World S R → Lookup × World S R
  then_db found w = elim found.error [
    | some e ↦ (record { session = none; user = none; error = some e }, w)
    | none ↦ elim found.session [
      | none ↦ (no_session, w)
      | some s ↦ (lookup_found s found.user, cache_found s found.user w)
    ]
  ]

  abbrev pub redis_then_db : String → Lookup → World S R → Lookup × World S R
  redis_then_db token found w = elim found.error [
    | some e ↦ (let (f, w') = get_from_db token w in then_db f w')
    | none ↦ elim found.session [
      | none ↦ (let (f, w') = get_from_db token w in then_db f w')
      | some s ↦ (lookup_found s found.user, w)
    ]
  ]

  abbrev pub db_then_redis : String → Lookup → World S R → Lookup × World S R
  db_then_redis token found w = elim found.error [
    | some e ↦ get_from_redis token w
    | none ↦ elim found.session [
      | none ↦ get_from_redis token w
      | some s ↦ (lookup_found s found.user, cache_found s found.user w)
    ]
  ]

  abbrev pub get_by : Strategy → String → World S R → Lookup × World S R
  get_by cookie_only token w = get_from_cookie token w
  get_by redis_only token w = get_from_redis token w
  get_by db_only token w = get_from_db token w
  get_by redis_first token w = let (f, w') = get_from_redis token w in redis_then_db token f w'
  get_by db_first token w = let (f, w') = get_from_db token w in db_then_redis token f w'

  unfoldable pub get : String → World S R → Lookup × World S R
  get token w = get_by m.strategy token w

  -- The expiry: an age among the options has the clock read once more.
  abbrev pub expiry : Option SessionOptions → Act S R Time
  expiry none = do t ← now; pure (add_time t m.config.expires_in)
  expiry (some o) = elim o.expires_in [
    | none ↦ (do t ← now; pure (add_time t m.config.expires_in))
    | some d ↦ (do now; t ← now; pure (add_time t d))
  ]

  abbrev pub fetch_user : Option User → String → Act S R (Option User)
  fetch_user (some u) user_id = pure (some u)
  fetch_user none user_id = elim m.db_store [
    | none ↦ pure none
    | some d ↦ (do u ← wrap "failed to find user" (find_user_by_id d user_id); pure (some u))
  ]

  abbrev pub store_in_db : Session → Act S R Unit
  store_in_db s = elim m.db_store [
    | none ↦ pure tt
    | some d ↦ wrap "failed to store session in database" (set_stored d s)
  ]

  abbrev pub store_in_redis : Session → Option User → Act S R Unit
  store_in_redis s u = elim m.redis_store [
    | none ↦ pure tt
    | some r ↦ wrap "failed to store session in Redis" (set_with_user r s u)
  ]

  -- The token that is handed out.
  abbrev pub final_token : Session → Option User → Act S R String
  final_token s u = elim m.cookie_store [
    | none ↦ pure s.token
    | some c ↦ wrap "failed to create cookie token" (create_token c s u)
  ]

  -- The first half of `Create`: the session object.
  unfoldable pub draft : String → Option SessionOptions → Act S R Session
  unfolding generate_random_string
  draft user_id opts = do
    expires_at ← expiry opts
    id ← wrap "failed to generate session ID" generate_id
    token ← wrap "failed to generate token" generate_token
    t ← now
    pure (new_session id user_id token expires_at t opts)

  -- The second half: every enabled layer, in order.
  unfoldable pub store_layers : Session → Option User → Act S R (Session × Option User × String)
  store_layers s user = do
    store_in_db s
    store_in_redis s user
    primary ← final_token s user
    pure (s, user, primary)

  unfoldable pub create : String → Option SessionOptions → Act S R (Session × Option User × String)
  unfolding draft store_layers
  create user_id opts = do
    s ← draft user_id opts
    user ← fetch_user (given_user opts) user_id
    store_layers s user

  -- `Update` also changes the session that it is given; that is returned beside the result.
  abbrev pub refresh_db : Session → Act S R Unit
  refresh_db s = elim m.db_store [
    | none ↦ pure tt
    | some d ↦ wrap "failed to update session in database" (set_stored d s)
  ]

  abbrev pub refresh_redis : Session → Act S R Unit
  refresh_redis s = elim m.redis_store [
    | none ↦ pure tt
    | some r ↦ wrap "failed to update session in Redis" (set_cached r s)
  ]

  abbrev pub refreshed_session : Session → World S R → Session × World S R
  refreshed_session s w =
      if m.config.absolute_expiry
      then (let (t, w₁) = read_clock w in (record s { updated_at = t }, w₁))
      else (let (t, w₁) = read_clock w in
          let (u, w₂) = read_clock w₁ in
          (record s { expires_at = add_time t m.config.expires_in; updated_at = u }, w₂))

  abbrev pub refresh_stores : Session → Act S R Unit
  refresh_stores s = refresh_db s >> refresh_redis s

  unfoldable pub update : Session → World S R → Done × Session × World S R
  update s w =
      let (t, w₁) = read_clock w in
      let (s', w₂) = refreshed_session s w₁ in
      let (r, w₃) = refresh_stores s' w₂ in
      if ltb_ℤ (sub_ℕ t.instant s.updated_at.instant) m.config.update_age
      then (ok tt, s, w₁)
      else (r, s', w₃)

  -- The last error of the calls that are made one after the other.
  abbrev pub last_error : Done → Done → Done
  last_error r (err e) = err e
  last_error r (ok u) = r

  abbrev pub in_db : (InternalAdapter S → Act S R Unit) → Act S R Unit
  in_db f w = elim m.db_store [ none ↦ (ok tt, w) | some d ↦ f d w ]

  abbrev pub in_redis : (RedisStore R → Act S R Unit) → Act S R Unit
  in_redis f w = elim m.redis_store [ none ↦ (ok tt, w) | some r ↦ f r w ]

  abbrev pub both :
      (InternalAdapter S → Act S R Unit) → (RedisStore R → Act S R Unit) → Act S R Unit
  both f g w = let (r₁, w₁) = in_db f w in let (r₂, w₂) = in_redis g w₁ in (last_error r₁ r₂, w₂)

  unfoldable pub delete : String → Act S R Unit
  delete token = both (λ d. delete_stored d token) (λ r. delete_cached r token)

  -- `none`: the fuel for the scan of the keys ran out.
  unfoldable pub delete_by_user_id : ℕ → String → World S R → Option Done × World S R
  delete_by_user_id fuel user_id w =
      let (r₁, w₁) = in_db (λ d. delete_stored_by_user d user_id) w in
      elim m.redis_store [
        | none ↦ (some r₁, w₁)
        | some r ↦
            (let (o, w₂) = delete_cached_by_user r fuel user_id w₁ in
              (Option.map (last_error r₁) o, w₂))
      ]

  -- Redis drops expired keys by itself.
  unfoldable pub cleanup : Act S R Unit
  cleanup = both cleanup_stored (λ r. pure tt)

  -- The cookie store has nothing to close.
  unfoldable pub close : Act S R Unit
  close = both close_stored (λ r. on_cache r.client.close)
