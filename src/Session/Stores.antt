-- ===== src/Session/Stores.antt =====
-- session/manager.go: the stores of a manager, and how it is made.

use beacon_auth.Prelude.{String, ◌&&◌, not, Option, none, some, ℤ, is_some, ◌==◌, if◌then◌else◌}
use beacon_auth.Core.Value.{Time}
use beacon_auth.Core.Types.{failed, Result, ok, err}
use beacon_auth.Core.Query.{Adapter}
use beacon_auth.Internal.{InternalAdapter, new_internal_adapter}
use beacon_auth.Session.Config.{Config, default_config, Strategy, determine_strategy}
use beacon_auth.Session.Cookie.{CookieCodec, CookieStore}
use beacon_auth.Session.Redis.{RedisClient, DataCodec, RedisStore}

pub record Manager (S R : Type 0) : Type 0 where
  pub config : Config
  pub cookie_store : Option CookieStore
  pub redis_store : Option (RedisStore R)
  pub db_store : Option (InternalAdapter S)
  pub strategy : Strategy

-- What `NewManager` does not make itself: the codecs, the Redis connection (redis.NewClient and the
-- first ping), and the printing of times.
pub record Externals (R : Type 0) : Type 0 where
  pub cookie_codec : CookieCodec
  pub data_codec : DataCodec
  pub connect : String → String → ℤ → Result (RedisClient R)
  pub show_time : Time → String

module _ {R : Type 0} (x : Externals R) where
  abbrev new_redis_store : Config → Result (Option (RedisStore R))
  new_redis_store c =
      if c.enable_redis_store && not (c.redis_addr == "")
      then elim (x.connect c.redis_addr c.redis_password c.redis_db) [
        | err e ↦ err (failed "failed to create Redis store")
        | ok client ↦ ok (
            some (record {
              client = client;
              codec = x.data_codec;
              prefix = c.redis_prefix;
              ttl = c.expires_in;
            }))
      ]
      else ok none

  abbrev new_cookie_store : Config → Option CookieStore
  new_cookie_store c =
      if c.enable_cookie_store
      then some (record { secret = c.secret; issuer = c.issuer; codec = x.cookie_codec })
      else none

module _ {S R : Type 0} (x : Externals R) where
  abbrev new_db_store : Config → Option (Adapter S) → Option (InternalAdapter S)
  new_db_store c none = none
  new_db_store c (some db) =
      if c.enable_db_store then some (new_internal_adapter db none x.show_time) else none

  abbrev manager_with : Config → Option (InternalAdapter S) → Option (RedisStore R) → Manager S R
  manager_with c db redis = record {
    config = c;
    cookie_store = new_cookie_store x c;
    redis_store = redis;
    db_store = db;
    strategy = determine_strategy (is_some (new_cookie_store x c)) (is_some redis) (is_some db);
  }

  -- `none` is a nil configuration, or a nil adapter.
  unfoldable pub new_manager : Option Config → Option (Adapter S) → Result (Manager S R)
  new_manager none db = elim (new_redis_store x default_config) [
    | err e ↦ err e
    | ok redis ↦ ok (manager_with default_config (new_db_store default_config db) redis)
  ]
  new_manager (some c) db = elim (new_redis_store x c) [
    | err e ↦ err e
    | ok redis ↦ ok (manager_with c (new_db_store c db) redis)
  ]
