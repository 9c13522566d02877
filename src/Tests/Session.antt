-- ===== src/Tests/Session.antt =====
-- session/ with its stores at concrete inputs.
use beacon_auth.Prelude.{
  ◌+◌, String, ◌≡◌, refl, true, false, Option, none, some, [], pos, negsuc, ltb_ℤ, arith,
}
use beacon_auth.Prelude.Dict.{get}
use beacon_auth.Core.Value.{Time}
use beacon_auth.Core.Types.{failed, Result, ok, err, User, Session, SessionOptions}
use beacon_auth.Core.World.{World}
use beacon_auth.Memory.{Memory, new}
use beacon_auth.Session.Config
use beacon_auth.Session.Config.{Config, default_config, redis_first}
use beacon_auth.Session.Cookie.{
  CookieCodec, CookieStore, CookiePayload, get_cookie, create_token, lookup_found, sign,
}
use beacon_auth.Session.Cookie.Signed.{IsSigned, get_cookie-IsSigned, get_cookie-create_token}
use beacon_auth.Session.Redis.{RedisStore, DataCodec, SessionData, positive, cache_ttl}
use beacon_auth.Session.Redis.Commands.{cache_ttl-positive}
use beacon_auth.Session.Database.{set_stored}
use beacon_auth.Session.Stores.{Manager, Externals}
use beacon_auth.Session.Manager
use beacon_auth.Session.Manager.Created.{db_manager, get-create}
use beacon_auth.Session.Manager.Mismatch.{cookie_manager}
use beacon_auth.Session.Manager.Deleted.{IsMade, get-delete, get-create_redis}
use beacon_auth.Session.Manager.Keeps.{create-Keeps}
use beacon_auth.Tests.World.{
  Cache, show, laws, internal, at, world, empty_world, keys, keys_contract, two_sessions, taken,
  no_one, no_session_at_all,
}

-- A session, and a codec that knows only it.
abbrev sample : Session
sample = record no_session_at_all { id = "i"; user_id = "ann"; token = "t"; expires_at = at 9000 }

abbrev payload : CookiePayload
payload = record {
  session = sample;
  user = some no_one;
  issuer = "beaconauth";
  issued_at = negsuc 62135596799;
}

abbrev cookie_codec : CookieCodec
cookie_codec = record {
  marshal = λ p. ok "json";
  unmarshal = λ s. ok payload;
  base64 = λ s. "abcd";
  unbase64 = λ s. ok "json";
  mac = λ k s. "mackey";
}

abbrev cookies : CookieStore
cookies = record { secret = "key"; issuer = "beaconauth"; codec = cookie_codec }

get_cookie-IsSigned_example : IsSigned cookies "abcd.mackey" (at 1000) sample
unfolding get_cookie beacon_auth.Session.Cookie.split_dots
get_cookie-IsSigned_example = get_cookie-IsSigned cookies "abcd.mackey" empty_world sample refl

get_cookie-create_token_example :
    (get_cookie cookies "abcd.mackey" (create_token cookies sample (some no_one) empty_world).1).0
    ≡ lookup_found sample (some no_one)
unfolding create_token get_cookie
get_cookie-create_token_example =
    get_cookie-create_token cookies sample (some no_one) empty_world
      (create_token cookies sample (some no_one) empty_world).1 "abcd.mackey" refl (λ text e. refl)
      (λ text. refl) (λ key text. refl) (omega arith)

cache_ttl-positive_example :
    (positive (cache_ttl (pos 60) (pos 20)) ≡ true)
    × (ltb_ℤ (pos 20) (cache_ttl (pos 60) (pos 20)) ≡ false)
cache_ttl-positive_example = cache_ttl-positive (pos 60) (pos 20) refl

-- What Create returns for Ann, whose data are given.
abbrev options : Option SessionOptions
options = some (record {
  user = some no_one;
  ip_address = "::1";
  user_agent = "";
  remember_me = false;
  expires_in = none;
})

abbrev nothing : Session × Option User × String
nothing = (no_session_at_all, none, "")

abbrev plain : Manager Memory Unit
plain = db_manager default_config internal

abbrev plain_run : Result (Session × Option User × String) × World Memory Unit
plain_run = Manager.create plain "ann" options empty_world

abbrev plain_made : Session × Option User × String
plain_made = taken plain_run.0 nothing

get-create_example :
    (plain_made.0.user_id ≡ "ann")
    × ((Manager.get plain plain_made.2 plain_run.1).0.session ≡ some plain_made.0)
unfolding Manager.create set_stored beacon_auth.Internal.find_session_with_user
    beacon_auth.Memory.find_one get beacon_auth.Memory.create
    beacon_auth.Memory.Refines.memory_contract
get-create_example =
    get-create default_config internal laws "ann" options empty_world plain_run.1 plain_made.0
      plain_made.1 plain_made.2 refl refl (omega arith)

create-Keeps_example :
    laws.rows (Manager.create plain "ann" options (world two_sessions tt)).1.db "users"
    ≡ laws.rows two_sessions "users"
create-Keeps_example =
    create-Keeps internal laws "users" plain "ann" options refl refl (world two_sessions tt)

get-delete_example :
    ((Manager.delete plain "s1" (world two_sessions tt)).0 ≡ ok tt)
    × ((Manager.get plain "s1" (Manager.delete plain "s1" (world two_sessions tt)).1).0.session
        ≡ none)
unfolding IsMade Config.determine_strategy beacon_auth.Memory.Refines.memory_contract get
    beacon_auth.Memory.Where.matches_where beacon_auth.Memory.Where.matches_clause
    beacon_auth.Memory.Compare.equal beacon_auth.Core.Value.sprint
get-delete_example =
    get-delete plain internal laws "s1" (world two_sessions tt) refl refl
      (λ r e. absurd (ground arith)) (omega arith)

-- The same with Redis in front.
abbrev redis_of : DataCodec → RedisStore (Cache)
redis_of c = record { client = keys; codec = c; prefix = "beacon:session:"; ttl = pos 600000000000 }

abbrev layered_with : DataCodec → Manager Memory (Cache)
layered_with c = record {
  config = default_config;
  cookie_store = none;
  redis_store = some (redis_of c);
  db_store = some internal;
  strategy = redis_first;
}

abbrev forgetful : DataCodec
forgetful = record { marshal = λ d. ok "json"; unmarshal = λ s. err (failed "json") }

abbrev cached_run : DataCodec → Result (Session × Option User × String) × World Memory (Cache)
cached_run c = Manager.create (layered_with c) "ann" options (world new [])

abbrev cached_made : Session × Option User × String
cached_made = taken (cached_run forgetful).0 nothing

-- The codec that knows what Create made.
abbrev data_codec : DataCodec
data_codec = record {
  marshal = λ d. ok "json";
  unmarshal = λ s. ok (record { session = cached_made.0; user = cached_made.1 });
}

-- Some time later, another database and another clock.
abbrev later : World Memory Cache
later = record {
  db = two_sessions;
  cache = (cached_run data_codec).1.cache;
  clock = λ n. at (5000 + n);
  entropy = λ n. none;
}

get-create_redis_example :
    (Manager.get (layered_with data_codec) cached_made.2 later).0
    ≡ lookup_found cached_made.0 (some no_one)
unfolding IsMade Config.determine_strategy Manager.create set_stored
    beacon_auth.Internal.find_session_with_user beacon_auth.Memory.find_one get
    beacon_auth.Memory.create beacon_auth.Session.Redis.set_with_user
get-create_redis_example =
    get-create_redis (layered_with data_codec) (redis_of data_codec) keys_contract "ann" options
      (world new []) (cached_run data_codec).1 later cached_made.0 cached_made.1 cached_made.2 refl
      refl refl (λ n. omega arith) refl (λ t e. refl) refl (omega arith) (omega arith)
      (λ within. omega arith)

-- The manager of the configuration without Redis.
abbrev externals : Externals Unit
externals = record {
  cookie_codec = cookie_codec;
  data_codec = forgetful;
  connect = λ addr password n. err (failed "no Redis");
  show_time = show;
}

abbrev without_redis : Config
without_redis = record default_config { enable_redis_store = false }

abbrev signing : Manager Memory Unit
signing =
    cookie_manager without_redis
      (record { secret = ""; issuer = "beaconauth"; codec = cookie_codec }) internal

abbrev signed_run : Result (Session × Option User × String) × World Memory Unit
signed_run = Manager.create signing "ann" options empty_world

abbrev signed_made : Session × Option User × String
signed_made = taken signed_run.0 nothing
