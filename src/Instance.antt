-- ===== src/Instance.antt =====
-- core/config.go, core/auth.go (New) and beaconauth.go: the options, the checks of the configuration,
-- and the session manager of an instance. `P` is a plugin with its Init as an operation on the database.
-- The logger, the mailer, the rate limits, the hooks and the OAuth providers are not kept; the router
-- that New builds is left out.
pub mod Made
use Prim.Native.Char.{code}
use beacon_auth.Prelude.{
  ℕ, String, str_append, Bool, true, false, not, Option, none, some, List, [], ◌∷◌, ◌++◌, ℤ, pos,
  nat_eq, ◌==◌, if◌then◌else◌,
}
use beacon_auth.Core.Types.{Error, failed, Result, Done, ok, err}
use beacon_auth.Core.Query.{Adapter}
use beacon_auth.Core.World.{World, Act, pure, fail, relabel, continue, ◌>>=◌, ◌>>◌}
use beacon_auth.Session.Config.{Config as StoreConfig}
use beacon_auth.Session.Stores
use beacon_auth.Session.Stores.{Externals, Manager}

pub record EmailPasswordConfig : Type 0 where
  pub enabled : Bool
  pub min_password_length : ℕ
  pub require_verification : Bool
  pub password_hash_cost : ℕ
  pub reset_password_expiry : ℤ

pub record SessionConfig : Type 0 where
  pub expires_in : ℤ
  pub update_age : ℤ
  pub cookie_name : String
  pub cookie_secure : Bool
  pub cookie_http_only : Bool
  pub cookie_same_site : String
  pub cookie_domain : String
  pub cookie_path : String

pub record Config (S P : Type 0) : Type 0 where
  pub app_name : String
  pub base_url : String
  pub base_path : String
  pub secret : String
  pub adapter : Option (Adapter S)
  pub email_password : Option EmailPasswordConfig
  pub session : SessionConfig
  pub plugins : List P

abbrev pub default_config : {S P : Type 0} → Config S P
default_config = record {
  app_name = "BeaconAuth App";
  base_url = "";
  base_path = "/auth";
  secret = "";
  adapter = none;
  email_password = some (record {
    enabled = true;
    min_password_length = 8;
    require_verification = false;
    password_hash_cost = 10;
    reset_password_expiry = pos 3600000000000;
  });
  session = record {
    expires_in = pos 604800000000000;
    update_age = pos 3600000000000;
    cookie_name = "beaconauth_session";
    cookie_secure = true;
    cookie_http_only = true;
    cookie_same_site = "lax";
    cookie_domain = "";
    cookie_path = "/";
  };
  plugins = [];
}

-- `Option` of core/config.go.
abbrev pub Setting : Type 0 → Type 0 → Type 0
Setting S P = Config S P → Result (Config S P)

module _ {S P : Type 0} where
  abbrev pub with_secret : String → Setting S P
  with_secret secret c = ok (record c { secret = secret })

  abbrev pub with_base_url : String → Setting S P
  with_base_url url c = ok (record c { base_url = url })

  abbrev pub with_base_path : String → Setting S P
  with_base_path path c = ok (record c { base_path = path })

  abbrev pub with_adapter : Adapter S → Setting S P
  with_adapter a c = ok (record c { adapter = some a })

  abbrev pub with_plugins : List P → Setting S P
  with_plugins ps c = ok (record c { plugins = c.plugins ++ ps })

  abbrev pub with_session_config : SessionConfig → Setting S P
  with_session_config s c = ok (record c { session = s })

  abbrev pub with_email_password : Option EmailPasswordConfig → Setting S P
  with_email_password e c = ok (record c { email_password = e })

  -- The loop over the options.
  unfoldable pub apply_settings : List (Setting S P) → Config S P → Result (Config S P)
  apply_settings [] c = ok c
  apply_settings (o ∷ os) c = elim (o c) [ err e ↦ err e | ok c' ↦ apply_settings os c' ]

  unfoldable pub validate : Config S P → Done
  validate c = if c.secret == "" then err (failed "secret is required") else elim c.adapter [
    | none ↦ err (failed "adapter is required")
    | some a ↦ if c.base_url == "" then err (failed "base URL is required") else ok tt
  ]

  -- The configuration of the sessions, as the factory in beaconauth.go makes it.
  unfoldable pub session_config : Config S P → StoreConfig
  session_config c = record {
    cookie_name = c.session.cookie_name;
    cookie_domain = c.session.cookie_domain;
    cookie_path = c.session.cookie_path;
    cookie_secure = c.session.cookie_secure;
    cookie_http_only = c.session.cookie_http_only;
    cookie_same_site = c.session.cookie_same_site;
    expires_in = c.session.expires_in;
    update_age = c.session.update_age;
    absolute_expiry = false;
    enable_cookie_store = true;
    enable_redis_store = false;
    enable_db_store = true;
    redis_addr = "";
    redis_password = "";
    redis_db = pos 0;
    redis_prefix = "";
    secret = c.secret;
    issuer = c.app_name;
  }

pub record Instance (S R P : Type 0) : Type 0 where
  pub config : Config S P
  pub session_manager : Manager S R

module _ {S R P : Type 0} (x : Externals R) (init : P → Act S R Unit) where
  -- The loop over the plugins.
  unfoldable pub init_plugins : List P → Act S R Unit
  init_plugins [] = pure tt
  init_plugins (p ∷ ps) = init p >> init_plugins ps

  abbrev pub with_manager : Config S P → Result (Manager S R) → Act S R (Instance S R P)
  with_manager c (err e) = fail (failed "failed to create session manager")
  with_manager c (ok m) = do
    init_plugins c.plugins
    pure (record { config = c; session_manager = m })

  abbrev pub with_valid : Config S P → Done → Act S R (Instance S R P)
  with_valid c (err e) = fail e
  with_valid c (ok u) = with_manager c (Stores.new_manager x (some (session_config c)) c.adapter)

  abbrev pub with_settings : Result (Config S P) → Act S R (Instance S R P)
  with_settings (err e) = fail e
  with_settings (ok c) = with_valid c (validate c)

  -- `New`
  unfoldable pub new : List (Setting S P) → Act S R (Instance S R P)
  unfolding init_plugins
  new settings = with_settings (apply_settings settings default_config)
