-- ===== src/Tests/Plugins.antt =====
-- plugins/: a registration and a login, a second factor with a backup code, and the callback of a provider.
use beacon_auth.Prelude.{
  ℕ, String, str_append, ◌≡◌, ◌≤◌, refl, ◌⊎◌, Bool, true, false, Option, none, some, List, [], ◌∷◌,
  pos, ◌==◌, eq_refl, arith, length, select, if◌then◌else◌,
}
use beacon_auth.Core.Value.{Value, str, bool, Record}
use beacon_auth.Core.Types.{ok, User, Account}
use beacon_auth.Core.World.{World}
use beacon_auth.Memory.{Memory}
use beacon_auth.Internal.{create_user, find_account_by_provider}
use beacon_auth.Session.Config
use beacon_auth.Session.Manager
use beacon_auth.Session.Manager.Created.{db_manager}
use beacon_auth.Auth.{PasswordHasher}
use beacon_auth.Plugins.Context.{AuthContext, Answer}
use beacon_auth.Plugins.EmailPassword as EmailPassword
use beacon_auth.Plugins.EmailPassword.{
  RegisterRequest, LoginRequest, handle_register, handle_login, create_session_and_response,
}
use beacon_auth.Plugins.EmailPassword.LoggedIn.{handle_login_sound}
use beacon_auth.Plugins.EmailPassword.Registered.{handle_login-handle_register}
use beacon_auth.Plugins.TwoFactor as TwoFactor
use beacon_auth.Plugins.FactorRows.{get_secret, check_backup_code, consume_backup_code}
use beacon_auth.Plugins.TwoFactor.{Totp, VerifyRequest, handle_verify}
use beacon_auth.Plugins.TwoFactor.Verified.{IsVerified, handle_verify-IsVerified}
use beacon_auth.Plugins.TwoFactor.Codes.{check-consume}
use beacon_auth.Plugins.OAuth as OAuth
use beacon_auth.Plugins.OAuth.{
  OAuthProvider, OAuthTokens, OAuthUserInfo, CallbackRequest, handle_callback, redirect_uri,
  start_session, clearing,
}
use beacon_auth.Plugins.OAuth.Callback.{vouching, handle_callback_sound, handle_callback-vouching}
use beacon_auth.Tests.World.{laws, db, internal, world, empty_world}

-- A hash that is the password itself.
abbrev hasher : PasswordHasher
hasher = record { hash = λ p salt. ok p; verify = λ p k. ok (p == k) }

abbrev pub context : AuthContext Memory Unit
context = record {
  app_name = "App";
  base_url = "https://app.example";
  base_path = "auth/";
  session = record {
    expires_in = pos 1000;
    update_age = pos 10;
    cookie_name = "s";
    cookie_secure = true;
    cookie_http_only = true;
    cookie_same_site = "lax";
    cookie_domain = "";
    cookie_path = "/";
  };
  min_password_length = 8;
  use_secure_cookies = true;
  adapter = db;
  data_manager = internal;
  session_manager = db_manager Config.default_config internal;
  hasher = hasher;
  to_lower = λ s. s;
}

abbrev asked : RegisterRequest
asked = record { email = "bob@example.com"; password = "correct horse"; name = "Bob" }

abbrev joined : Answer × World Memory Unit
joined = handle_register context (ok asked) empty_world

abbrev asked_in : LoginRequest
asked_in = record { email = "bob@example.com"; password = "correct horse" }

handle_login-handle_register_example :
    (user : User) × (start : World Memory Unit) × (middle : World Memory Unit) × (start.db
      ≡ empty_world.db)
    × (create_user internal "bob@example.com" "Bob" start ≡ (ok user, middle))
    × (handle_login context (ok asked_in) joined.1
        ≡ create_session_and_response context user.id (some user) joined.1)
unfolding beacon_auth.Prelude.Dict.get beacon_auth.Prelude.Dict.put
    beacon_auth.Core.Encoding.string_bytes beacon_auth.Core.Encoding.base64_url
    beacon_auth.Core.Encoding.take_bytes beacon_auth.Core.Value.sprint
    beacon_auth.Internal.find_user_by_email beacon_auth.Internal.find_user_by_id
    beacon_auth.Internal.with_id beacon_auth.Internal.find_session_with_user
    beacon_auth.Internal.Data.user_data beacon_auth.Internal.Data.credential_account_data
    beacon_auth.Internal.create_credential_account beacon_auth.Internal.Rows.map_to_user
    beacon_auth.Internal.Rows.map_to_account beacon_auth.Internal.Rows.map_to_session
    beacon_auth.Internal.Rows.text_at beacon_auth.Internal.Rows.to_string
    beacon_auth.Memory.find_one beacon_auth.Memory.create beacon_auth.Memory.update
    beacon_auth.Memory.Where.matches_where beacon_auth.Memory.Where.matches_clause
    beacon_auth.Memory.Where.holds beacon_auth.Memory.Compare.equal
    beacon_auth.Plugins.Context.new_session_cookie beacon_auth.Session.Database.session_row
    beacon_auth.Session.Database.set_stored beacon_auth.Session.Random.charset_string
    beacon_auth.Session.Random.generate_random_string beacon_auth.Memory.Refines.memory_contract
    beacon_auth.Core.Value.itoa beacon_auth.Core.Value.decimal_loop beacon_auth.Prelude.Dict.assign
    Manager.create Manager.draft Manager.store_layers create_user find_account_by_provider
    handle_register create_session_and_response EmailPassword.parse_same_site
handle_login-handle_register_example =
    handle_login-handle_register context laws asked empty_world
      (λ p h salt e. ground (arith, eq_refl p)) refl refl refl

handle_login_sound_example :
    (q : LoginRequest) × (a : Account) × (u : Option User) × (v : World Memory Unit) × (ok asked_in
      ≡ ok q)
    × ((find_account_by_provider internal "local" q.email joined.1).0 ≡ ok (some a))
    × (ok (q.password == a.password) ≡ ok true)
    × (handle_login context (ok asked_in) joined.1
        ≡ create_session_and_response context a.user_id u v)
unfolding beacon_auth.Prelude.Dict.get beacon_auth.Prelude.Dict.put
    beacon_auth.Core.Encoding.string_bytes beacon_auth.Core.Encoding.base64_url
    beacon_auth.Core.Encoding.take_bytes beacon_auth.Core.Value.sprint
    beacon_auth.Internal.find_user_by_email beacon_auth.Internal.find_user_by_id
    beacon_auth.Internal.with_id beacon_auth.Internal.find_session_with_user
    beacon_auth.Internal.Data.user_data beacon_auth.Internal.Data.credential_account_data
    beacon_auth.Internal.create_credential_account beacon_auth.Internal.Rows.map_to_user
    beacon_auth.Internal.Rows.map_to_account beacon_auth.Internal.Rows.map_to_session
    beacon_auth.Internal.Rows.text_at beacon_auth.Internal.Rows.to_string
    beacon_auth.Memory.find_one beacon_auth.Memory.create beacon_auth.Memory.update
    beacon_auth.Memory.Where.matches_where beacon_auth.Memory.Where.matches_clause
    beacon_auth.Memory.Where.holds beacon_auth.Memory.Compare.equal
    beacon_auth.Plugins.Context.new_session_cookie beacon_auth.Session.Database.session_row
    beacon_auth.Session.Database.set_stored beacon_auth.Session.Random.charset_string
    beacon_auth.Session.Random.generate_random_string beacon_auth.Memory.Refines.memory_contract
    beacon_auth.Core.Value.itoa beacon_auth.Core.Value.decimal_loop beacon_auth.Prelude.Dict.assign
    Manager.create Manager.draft Manager.store_layers create_user find_account_by_provider
    handle_register create_session_and_response EmailPassword.parse_same_site handle_login
handle_login_sound_example = handle_login_sound context (ok asked_in) joined.1 refl

-- A code is right when it is the secret.
abbrev totp : Totp
totp = record {
  generate = λ issuer account bytes. ok ("SECRET", "otpauth://");
  validate = λ code secret t. code == secret;
  to_hex = λ bytes. "00";
}

abbrev pub enrolled : Memory
enrolled = record {
  tables =
      (
        "users",
        (("id", str "ann")
              ∷ ("email", str "ann@example.com")
              ∷ ("two_factor_enabled", bool true)
              ∷ [])
            ∷ [],
      )
      ∷ (
        "two_factors",
        (("user_id", str "ann") ∷ ("secret", str "SECRET") ∷ ("confirmed", bool true) ∷ []) ∷ [],
      )
      ∷ (
        "two_factor_backup_codes",
        (("user_id", str "ann") ∷ ("code", str "12ab") ∷ ("used", bool false) ∷ []) ∷ [],
      )
      ∷ [];
  next_id = 1;
}

abbrev second : VerifyRequest
second = record { email = "ann@example.com"; code = "12ab" }

handle_verify-IsVerified_example : IsVerified context totp (ok second) (world enrolled tt)
unfolding beacon_auth.Prelude.Dict.get beacon_auth.Prelude.Dict.put
    beacon_auth.Core.Encoding.string_bytes beacon_auth.Core.Encoding.base64_url
    beacon_auth.Core.Encoding.take_bytes beacon_auth.Core.Value.sprint
    beacon_auth.Internal.find_user_by_email beacon_auth.Internal.find_user_by_id
    beacon_auth.Internal.with_id beacon_auth.Internal.find_session_with_user
    beacon_auth.Internal.Data.user_data beacon_auth.Internal.Data.credential_account_data
    beacon_auth.Internal.create_credential_account beacon_auth.Internal.Rows.map_to_user
    beacon_auth.Internal.Rows.map_to_account beacon_auth.Internal.Rows.map_to_session
    beacon_auth.Internal.Rows.text_at beacon_auth.Internal.Rows.to_string
    beacon_auth.Memory.find_one beacon_auth.Memory.create beacon_auth.Memory.update
    beacon_auth.Memory.Where.matches_where beacon_auth.Memory.Where.matches_clause
    beacon_auth.Memory.Where.holds beacon_auth.Memory.Compare.equal
    beacon_auth.Plugins.Context.new_session_cookie beacon_auth.Session.Database.session_row
    beacon_auth.Session.Database.set_stored beacon_auth.Session.Random.charset_string
    beacon_auth.Session.Random.generate_random_string beacon_auth.Memory.Refines.memory_contract
    beacon_auth.Core.Value.itoa beacon_auth.Core.Value.decimal_loop beacon_auth.Prelude.Dict.assign
    Manager.create Manager.draft Manager.store_layers create_user find_account_by_provider
    handle_verify get_secret check_backup_code consume_backup_code TwoFactor.start_session
    TwoFactor.parse_same_site
handle_verify-IsVerified_example =
    handle_verify-IsVerified context totp (ok second) (world enrolled tt) refl

check-consume_example :
    (check_backup_code context "ann" "12ab"
      (consume_backup_code context "ann" "12ab" (world enrolled tt)).1).0
    ≡ false
unfolding beacon_auth.Prelude.Dict.get beacon_auth.Memory.Where.matches_where
    beacon_auth.Memory.Where.matches_clause beacon_auth.Memory.Compare.equal
    beacon_auth.Core.Value.sprint beacon_auth.Memory.Refines.memory_contract
    beacon_auth.Memory.Where.holds
check-consume_example = check-consume context laws "ann" "12ab" (world enrolled tt) (omega arith)

abbrev tokens : OAuthTokens
tokens = record {
  access_token = "t";
  refresh_token = "";
  expires_at = none;
  id_token = "";
  token_type = "bearer";
}

abbrev someone : OAuthUserInfo
someone = record {
  id = "42";
  email = "ann@example.com";
  email_verified = false;
  name = "Ann";
  first_name = "";
  last_name = "";
  picture = "";
  raw_data = [];
}

abbrev provider : OAuthProvider
provider = record {
  id = "github";
  name = "GitHub";
  create_authorization_url = λ state uri options. ok uri;
  exchange_code = λ code verifier uri. ok tokens;
  get_user_info = λ token. ok someone;
  refresh_token = λ token. ok tokens;
  init = ok tt;
}

abbrev pub returned : CallbackRequest
returned = record {
  query = λ name. if name == "state" then "xyz" else "code";
  cookie = λ name. some "xyz";
}

handle_callback_sound_example :
    (some "xyz" ≡ some (returned.query "state"))
    × ((returned.query "code" == "") ≡ false)
    × (t : OAuthTokens) × (i : OAuthUserInfo) × (o : Option Account) × (v : World Memory Unit) × (ok
          tokens
        ≡ ok t)
    × (ok someone ≡ ok i)
    × (find_account_by_provider internal "github" i.id (world enrolled tt) ≡ (ok o, v))
    × ((a : Account)
        → o ≡ some a
        → handle_callback context provider returned (world enrolled tt)
          ≡ clearing context (start_session context a.user_id v))
unfolding beacon_auth.Prelude.Dict.get beacon_auth.Prelude.Dict.put
    beacon_auth.Core.Encoding.string_bytes beacon_auth.Core.Encoding.base64_url
    beacon_auth.Core.Encoding.take_bytes beacon_auth.Core.Value.sprint
    beacon_auth.Internal.find_user_by_email beacon_auth.Internal.find_user_by_id
    beacon_auth.Internal.with_id beacon_auth.Internal.find_session_with_user
    beacon_auth.Internal.Data.user_data beacon_auth.Internal.Data.credential_account_data
    beacon_auth.Internal.create_credential_account beacon_auth.Internal.Rows.map_to_user
    beacon_auth.Internal.Rows.map_to_account beacon_auth.Internal.Rows.map_to_session
    beacon_auth.Internal.Rows.text_at beacon_auth.Internal.Rows.to_string
    beacon_auth.Memory.find_one beacon_auth.Memory.create beacon_auth.Memory.update
    beacon_auth.Memory.Where.matches_where beacon_auth.Memory.Where.matches_clause
    beacon_auth.Memory.Where.holds beacon_auth.Memory.Compare.equal
    beacon_auth.Plugins.Context.new_session_cookie beacon_auth.Session.Database.session_row
    beacon_auth.Session.Database.set_stored beacon_auth.Session.Random.charset_string
    beacon_auth.Session.Random.generate_random_string beacon_auth.Memory.Refines.memory_contract
    beacon_auth.Core.Value.itoa beacon_auth.Core.Value.decimal_loop beacon_auth.Prelude.Dict.assign
    Manager.create Manager.draft Manager.store_layers create_user find_account_by_provider
    handle_callback OAuth.accepted OAuth.start_session OAuth.link_account
    beacon_auth.Internal.create_oauth_account beacon_auth.Internal.Data.oauth_account_data
    OAuth.parse_same_site redirect_uri
handle_callback_sound_example =
    handle_callback_sound context provider returned (world enrolled tt) refl

handle_callback-vouching_example :
    handle_callback context (vouching true provider) returned (world enrolled tt)
    ≡ handle_callback context provider returned (world enrolled tt)
handle_callback-vouching_example =
    handle_callback-vouching context true provider returned (world enrolled tt)
