-- ===== src/Session/Redis/Commands.antt =====
-- session/redis_store.go: what its callers rely on of the Redis commands GET, SET and DEL, and what
-- the store makes of them.
use beacon_auth.Prelude.{
  ℕ, suc, ◌+◌, ◌-◌, String, ◌≡◌, ◌≤◌, refl, true, false, ◌&&◌, Option, none, some, arith, ℤ, pos,
  negsuc, ltb_ℤ, sub_ℕ, Bool-cases, inl, inr,
}
use beacon_auth.Core.Types.{Result-cases, ok, Session, User}
use beacon_auth.Core.World.{World}
use beacon_auth.Session.Cookie.{lookup_found, no_session}
use beacon_auth.Session.Redis.{
  RedisClient, RedisStore, delete_cached, get_cached, set_with_user, key, positive, until,
  cache_ttl, next_time,
}

-- A time to live is sent in milliseconds: it is cut down to a whole number of them, and to no less than
-- one.
abbrev pub millisecond : ℕ
millisecond = 1000000

-- A connection that does not fail: GET answers the value that the key has at the time, SET with a
-- positive time to live puts one there that stays for that time and is then gone, to within a
-- millisecond, and DEL takes it away.
pub record Contract {R : Type 0} (client : RedisClient R) : Type 0 where
  pub value : R → ℕ → String → Option String
  pub get_run : (t : ℕ) (k : String) (c : R) → client.get t k c ≡ (ok (value c t k), c)
  pub set_value :
      (t u : ℕ) (k v : String) (ttl : ℕ) (c : R)
      → t ≤ u
      → u + millisecond ≤ t + ttl
      → value (client.set t k v (pos ttl) c).1 u k ≡ some v
  pub set_over :
      (t u : ℕ) (k v : String) (ttl : ℕ) (c : R)
      → t + suc ttl + millisecond ≤ u
      → value (client.set t k v (pos (suc ttl)) c).1 u k ≡ none
  pub del_result : (k : String) (c : R) → (client.del k c).0 ≡ ok tt
  pub del_value : (t : ℕ) (k : String) (c : R) → value (client.del k c).1 t k ≡ none

-- Where some time is left of a session, the time to live in the cache is positive and not longer
-- than what is left.
pub cache_ttl-positive :
    (configured left : ℤ)
    → positive left ≡ true
    → (positive (cache_ttl configured left) ≡ true)
      × (ltb_ℤ left (cache_ttl configured left) ≡ false)
cache_ttl-positive configured left h =
    elim (Bool-cases (positive configured && ltb_ℤ configured left)) [
      | inl e ↦ (ground arith, ground arith)
      | inr e ↦ (ground arith, ground arith)
    ]

-- A value with a time to live that is given at a time is sure to be there at a later time.
abbrev pub Lasts : ℤ → ℕ → ℕ → Type 0
Lasts (pos ttl) t u = u + millisecond ≤ t + ttl
Lasts (negsuc n) t u = ⊥

-- The configured time to live, where one is configured, has not yet ended.
abbrev pub Within : ℤ → ℕ → ℕ → Type 0
Within configured t u = positive configured ≡ true → Lasts configured t u

-- What the cache is given for a session that ends a millisecond after a time, or later, is there at
-- that time.
pub cache_ttl-Lasts :
    (configured : ℤ) (end start t u : ℕ)
    → start ≤ t
    → positive (sub_ℕ end start) ≡ true
    → u + millisecond ≤ end
    → Within configured t u
    → Lasts (cache_ttl configured (sub_ℕ end start)) t u
cache_ttl-Lasts configured end start t u order left ends within =
    let whole : sub_ℕ end start ≡ pos (end - start) = ground arith in
    let rest : u + millisecond ≤ t + (end - start) = ground arith in
    elim (Bool-cases (positive configured && ltb_ℤ configured (sub_ℕ end start))) [
      | inl e ↦ rw e (within (ground arith))
      | inr e ↦ rw (e, whole) rest
    ]

module _ {R : Type 0} {client : RedisClient R} (laws : Contract client) where
  set_value_lasting :
      (ttl : ℤ) (t u : ℕ) (k text : String) (c : R)
      → t ≤ u
      → Lasts ttl t u
      → laws.value (client.set t k text ttl c).1 u k ≡ some text
  set_value_lasting (pos n) t u k text c order lasts = laws.set_value t u k text n c order lasts
  set_value_lasting (negsuc n) t u k text c order lasts = absurd lasts

module _ {S R : Type 0} (r : RedisStore R) (laws : Contract r.client) where
  pub delete_cached_run :
      (token : String) (w : World S R)
      → ((delete_cached r token w).0 ≡ ok tt)
        × ((t : ℕ) → laws.value (delete_cached r token w).1.cache t (key r token) ≡ none)
        × ((delete_cached r token w).1.db ≡ w.db)
        × ((delete_cached r token w).1.clock ≡ w.clock)
  unfolding delete_cached
  delete_cached_run token w = (
    ground (arith, laws.del_result (key r token) w.cache),
    λ t. laws.del_value t (key r token) w.cache,
    refl,
    refl,
  )

  pub get_cached_missing :
      (token : String) (w : World S R)
      → laws.value w.cache (next_time w) (key r token) ≡ none
      → get_cached r token w ≡ (no_session, w)
  unfolding get_cached
  get_cached_missing token w h = ground (arith, laws.get_run (next_time w) (key r token) w.cache)

  pub get_cached_hit :
      (token text : String) (s : Session) (u : Option User) (w : World S R)
      → laws.value w.cache (next_time w) (key r token) ≡ some text
      → r.codec.unmarshal text ≡ ok (record { session = s; user = u })
      → next_time w ≤ s.expires_at.instant
      → (get_cached r token w).0 ≡ lookup_found s u
  unfolding get_cached
  get_cached_hit token text s u w h k alive =
      ground (arith, laws.get_run (next_time w) (key r token) w.cache)

  -- A successful SetWithUser read the clock once, when some of the session's time was left, and has
  -- put the marshalled session under its token, where it stays for the time to live.
  pub set_with_user_value :
      (s : Session) (u : Option User) (w : World S R)
      → (set_with_user r s u w).0 ≡ ok tt
      → (text : String) × (r.codec.marshal (record { session = s; user = u }) ≡ ok text)
        × (positive (until (w.clock 0) s.expires_at) ≡ true)
        × ((set_with_user r s u w).1.clock 0 ≡ w.clock 1)
        × ((t : ℕ)
            → (w.clock 1).instant ≤ t
            → Lasts (cache_ttl r.ttl (until (w.clock 0) s.expires_at)) (w.clock 1).instant t
            → laws.value (set_with_user r s u w).1.cache t (key r s.token) ≡ some text)
  unfolding set_with_user
  set_with_user_value s u w h =
      elim (Result-cases (r.codec.marshal (record { session = s; user = u }))) [
        | inr (x, e) ↦ absurd (ground arith)
        | inl (text, e) ↦
            let left = until (w.clock 0) s.expires_at in
            elim (Bool-cases (positive left)) [
              | inr k ↦ absurd (ground arith)
              | inl k ↦ (
                text,
                e,
                k,
                rw (e, k) refl,
                λ t order lasts.
                    rw (e, k)
                      (set_value_lasting laws (cache_ttl r.ttl left) (w.clock 1).instant t
                        (key r s.token) text w.cache order lasts),
              )
            ]
      ]
