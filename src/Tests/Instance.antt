-- ===== src/Tests/Instance.antt =====
-- beaconauth.go: an instance with a database in memory.
use beacon_auth.Prelude.{ℕ, String, ◌≡◌, refl, false, Option, none, some, List, [], ◌∷◌}
use beacon_auth.Core.Types.{failed, Result, ok, err, User, Session, SessionOptions}
use beacon_auth.Core.World.{World, Act, pure}
use beacon_auth.Memory.{Memory}
use beacon_auth.Session.Stores.{Externals, Manager, new_manager}
use beacon_auth.Session.Manager
use beacon_auth.Auth.Http.{auth_response}
use beacon_auth.Middleware.{Context, Next, with_request, unauthorized, auth_middleware}
use beacon_auth.Instance.{
  Config, Setting, Instance, default_config, with_secret, with_base_url, with_adapter, new,
  session_config,
}
use beacon_auth.Instance.Made.{auth_middleware-create}
use beacon_auth.Tests.World.{
  show, db, laws, internal, empty_world, taken, no_one, no_session_at_all,
}

abbrev externals : Externals Unit
externals = record {
  cookie_codec = record {
    marshal = λ p. ok "json";
    unmarshal = λ s. err (failed "json");
    base64 = λ s. "anNvbg";
    unbase64 = λ s. ok "json";
    mac = λ k s. "mac";
  };
  data_codec = record { marshal = λ d. ok "json"; unmarshal = λ s. err (failed "json") };
  connect = λ addr password n. err (failed "no Redis");
  show_time = show;
}

-- A plugin is its name, and needs no start.
abbrev start : String → Act Memory Unit Unit
start name = pure tt

abbrev settings : List (Setting Memory String)
settings = with_secret "key" ∷ with_base_url "https://example.com" ∷ with_adapter db ∷ []

abbrev config : Config Memory String
config = record default_config {
  secret = "key";
  base_url = "https://example.com";
  adapter = some db;
}

abbrev manager : Manager Memory Unit
manager = record {
  config = session_config config;
  cookie_store =
      some (record { secret = "key"; issuer = "BeaconAuth App"; codec = externals.cookie_codec });
  redis_store = none;
  db_store = some internal;
  strategy = beacon_auth.Session.Config.db_only;
}

abbrev instance_made : Instance Memory Unit String
instance_made = record { config = config; session_manager = manager }

abbrev echo : Next Memory Unit
echo c w = (record { status = 200; set_cookie = none; body = auth_response c.user c.session "" }, w)

abbrev options : Option SessionOptions
options = some (record {
  user = some no_one;
  ip_address = "";
  user_agent = "";
  remember_me = false;
  expires_in = none;
})

abbrev run : Result (Session × Option User × String) × World Memory Unit
run = Manager.create manager "ann" options empty_world

abbrev made : Session × Option User × String
made = taken run.0 (no_session_at_all, none, "")

abbrev bare : Context
bare = record { session = none; user = none; request = none }

abbrev cookies : String → Option String
cookies name = some "anNvbg.mac"

auth_middleware-create_example :
    (auth_middleware manager echo (with_request bare cookies) run.1).0 ≡ unauthorized
unfolding new beacon_auth.Instance.apply_settings beacon_auth.Instance.validate new_manager
    session_config beacon_auth.Session.Config.determine_strategy Manager.create
    beacon_auth.Session.Database.set_stored beacon_auth.Internal.find_session_with_user
    beacon_auth.Memory.find_one beacon_auth.Prelude.Dict.get beacon_auth.Memory.create
    beacon_auth.Session.Cookie.create_token beacon_auth.Memory.Refines.memory_contract
auth_middleware-create_example =
    auth_middleware-create externals start echo settings empty_world empty_world instance_made db
      laws "ann" options empty_world run.1 made.0 made.1 "anNvbg.mac" bare cookies refl refl refl
      refl refl refl
