-- ===== src/Session/Config.antt =====
-- session/types.go: the configuration and the strategies.
use beacon_auth.Prelude.{String, Bool, true, false, not, ◌&&◌, ℤ, pos, if◌then◌else◌}

pub record Config : Type 0 where
  pub cookie_name : String
  pub cookie_domain : String
  pub cookie_path : String
  pub cookie_secure : Bool
  pub cookie_http_only : Bool
  pub cookie_same_site : String
  pub expires_in : ℤ
  pub update_age : ℤ
  pub absolute_expiry : Bool
  pub enable_cookie_store : Bool
  pub enable_redis_store : Bool
  pub enable_db_store : Bool
  pub redis_addr : String
  pub redis_password : String
  pub redis_db : ℤ
  pub redis_prefix : String
  pub secret : String
  pub issuer : String

-- `DefaultConfig`: durations in nanoseconds
abbrev pub default_config : Config
default_config = record {
  cookie_name = "beacon_session";
  cookie_domain = "";
  cookie_path = "/";
  cookie_secure = true;
  cookie_http_only = true;
  cookie_same_site = "lax";
  expires_in = pos 604800000000000;
  update_age = pos 86400000000000;
  absolute_expiry = false;
  enable_cookie_store = true;
  enable_redis_store = true;
  enable_db_store = true;
  redis_addr = "";
  redis_password = "";
  redis_db = pos 0;
  redis_prefix = "beacon:session:";
  secret = "";
  issuer = "beaconauth";
}

pub data Strategy : Type 0 where
  redis_first db_first cookie_only redis_only db_only : Strategy

-- `determineStrategy`, from which stores there are
unfoldable pub determine_strategy : Bool → Bool → Bool → Strategy
determine_strategy cookie redis db =
    if cookie && not redis && not db
    then cookie_only
    else if redis && not db
    then redis_only
    else if db && not redis
    then db_only
    else if redis && db
    then redis_first
    else db_only
