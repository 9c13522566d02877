-- ===== src/Session/Redis.antt =====
-- session/redis_store.go over a Redis client and a JSON codec, which are parameters.
pub mod Commands
pub mod Scanned
use beacon_auth.Prelude.{
  ℕ, zero, suc, String, str_append, Bool, true, false, ◌&&◌, Option, none, some, List, [], ◌∷◌,
  ◌++◌, ℤ, pos, negsuc, sub_ℕ, ltb_ℤ, nat_eq, not, ◌==◌, if◌then◌else◌,
}
use beacon_auth.Core.Value.{Time, after}
use beacon_auth.Core.Types.{Error, failed, session_not_found, Result, Done, ok, err, Session, User}
use beacon_auth.Core.Query.{Op}
use beacon_auth.Core.World.{World, Act, on_cache, read_clock, wrap}
use beacon_auth.Internal.{Lookup}
use beacon_auth.Session.Cookie.{no_session, lookup_error, lookup_found}

-- The commands of the client that the store sends; `none` is redis.Nil. GET and SET are told the time at
-- which the server carries them out, in nanoseconds.
pub record RedisClient (R : Type 0) : Type 0 where
  pub get : ℕ → String → Op R (Option String)
  pub set : ℕ → String → String → ℤ → Op R Unit
  pub del : String → Op R Unit
  pub scan : ℕ → String → ℕ → Op R (List String × ℕ)
  pub close : Op R Unit

-- `SessionData`; data whose session is null makes `Get` panic and is left out.
pub record SessionData : Type 0 where
  pub session : Session
  pub user : Option User

pub record DataCodec : Type 0 where
  pub marshal : SessionData → Result String
  pub unmarshal : String → Result SessionData

pub record RedisStore (R : Type 0) : Type 0 where
  pub client : RedisClient R
  pub codec : DataCodec
  pub prefix : String
  pub ttl : ℤ

-- `time.Until(t)`, read at `now`
abbrev pub until : Time → Time → ℤ
until now t = sub_ℕ t.instant now.instant

abbrev pub positive : ℤ → Bool
positive d = ltb_ℤ (pos 0) d

-- The shorter of the time that is left and the configured time, where one is configured.
abbrev pub cache_ttl : ℤ → ℤ → ℤ
cache_ttl configured left =
    if positive configured && ltb_ℤ configured left then configured else left

module _ {R : Type 0} (r : RedisStore R) where
  abbrev pub key : String → String
  key token = str_append r.prefix token

  -- One round of the second loop: a key whose data cannot be read is passed over.
  abbrev pub of_user : String → Result SessionData → Bool
  of_user user_id (err e) = false
  of_user user_id (ok d) = d.session.user_id == user_id

-- The time of a command: the next reading of the clock.
abbrev pub next_time : {S R : Type 0} → World S R → ℕ
next_time w = (w.clock 0).instant

module _ {S R : Type 0} (r : RedisStore R) where
  unfoldable pub delete_cached : String → Act S R Unit
  delete_cached token w = wrap "redis delete error" (on_cache (r.client.del (key r token))) w

  -- After the data have been read: the expiry, and the clean-up of what has expired.
  abbrev pub check_data : String → Result SessionData → World S R → Lookup × World S R
  check_data token (err e) w = (lookup_error (failed "failed to unmarshal session data"), w)
  check_data token (ok d) w =
      let (t, w₁) = read_clock w in
      if after t d.session.expires_at
      then (lookup_error session_not_found, (delete_cached token w₁).1)
      else (lookup_found d.session d.user, w₁)

  abbrev pub got : String → Result (Option String) × World S R → Lookup × World S R
  got token (err e, w) = (lookup_error (failed "redis get error"), w)
  got token (ok none, w) = (no_session, w)
  got token (ok (some text), w) = check_data token (r.codec.unmarshal text) w

  unfoldable pub get_cached : String → World S R → Lookup × World S R
  unfolding delete_cached
  get_cached token w = got token (on_cache (r.client.get (next_time w) (key r token)) w)

  -- Set and SetWithUser after the data have been marshalled.
  abbrev pub write_cached : Session → Result String → Act S R Unit
  write_cached s (err e) w = (err (failed "failed to marshal session data"), w)
  write_cached s (ok text) w =
      let (t, w₁) = read_clock w in
      let left = until t s.expires_at in
      if positive left
      then wrap "redis set error"
          (on_cache (r.client.set (next_time w₁) (key r s.token) text (cache_ttl r.ttl left))) w₁
      else (err (failed "session already expired"), w₁)

  unfoldable pub set_with_user : Session → Option User → Act S R Unit
  set_with_user s u w = write_cached s (r.codec.marshal (record { session = s; user = u })) w

  unfoldable pub set_cached : Session → Act S R Unit
  set_cached s w = write_cached s (r.codec.marshal (record { session = s; user = none })) w

  -- The loop that collects the keys; `none` is out of fuel.
  unfoldable pub scan_loop :
      ℕ → ℕ → List String → World S R → Option (Result (List String)) × World S R
  scan_loop zero cursor keys w = (none, w)
  scan_loop (suc fuel) cursor keys w =
      let (page, w') = on_cache (r.client.scan cursor (str_append r.prefix "*") 100) w in
      elim page [
        | err e ↦ (some (err (failed "redis scan error")), w')
        | ok (more, next) ↦
            let rest = scan_loop fuel next (keys ++ more) w' in
            if nat_eq next 0 then (some (ok (keys ++ more)), w') else rest
      ]

  abbrev pub delete_if : String → String → Result (Option String) × World S R → World S R
  delete_if user_id k (ok (some text), w) =
      if of_user r user_id (r.codec.unmarshal text) then (on_cache (r.client.del k) w).1 else w
  delete_if user_id k (_, w) = w

  unfoldable pub delete_keys : String → List String → World S R → World S R
  delete_keys user_id [] w = w
  delete_keys user_id (k ∷ ks) w =
      delete_keys user_id ks (delete_if user_id k (on_cache (r.client.get (next_time w) k) w))

  unfoldable pub delete_cached_by_user : ℕ → String → World S R → Option Done × World S R
  unfolding scan_loop delete_keys
  delete_cached_by_user fuel user_id w =
      let (found, w') = scan_loop fuel 0 [] w in
      elim found [
        | none ↦ (none, w')
        | some (err e) ↦ (some (err e), w')
        | some (ok keys) ↦ (some (ok tt), delete_keys user_id keys w')
      ]
