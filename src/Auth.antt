-- ===== src/Auth.antt =====
-- auth/handlers.go: the HTTP handlers of sign up, sign in, sign out and the current session.
pub mod Http
pub mod SignIn
pub mod Registered
pub mod SignUp
pub mod Answers
use mathlib.Core.Option
use beacon_auth.Prelude.{
  ℕ, String, Bool, true, false, ◌&&◌, not, Option, none, some, List, [], ◌∷◌, ◌==◌, if◌then◌else◌,
}
use beacon_auth.Prelude.Dict.{get}
use beacon_auth.Core.Value.{Time, Value, str, Record}
use beacon_auth.Core.Types.{
  Error, user_not_found, failed, Result, ok, err, User, Session, SessionOptions,
}
use beacon_auth.Core.Query.{op_equal, Query, Adapter, clause, query}
use beacon_auth.Core.World.{World, Act, pure, fail, on_db, continue, ◌>>=◌, ◌>>◌, read_random}
use beacon_auth.Internal.{
  InternalAdapter, new_internal_adapter, find_user_by_email, create_user, create_credential_account,
}
use beacon_auth.Session.Config
use beacon_auth.Session.Manager
use beacon_auth.Session.Stores.{Manager}
use Http.{
  Request, SignUpRequest, SignInRequest, Cookie, Response, Config, default_config, auth_response,
  signed_out, write_error, get_ip_address, parse_same_site, validate_sign_up,
}

-- `crypto.PasswordHasher`: a hash is made of the password and the bytes that rand.Read gives.
pub record PasswordHasher : Type 0 where
  pub hash : String → Option (ℕ → ℕ) → Result String
  pub verify : String → String → Result Bool

pub record Handler (S R : Type 0) : Type 0 where
  pub internal : InternalAdapter S
  pub session_manager : Manager S R
  pub hasher : PasswordHasher
  pub config : Config

abbrev config_or_default : Option Config → Config
config_or_default none = default_config
config_or_default (some c) = c

unfoldable pub new_handler :
    {S R : Type 0}
    → Adapter S
    → Manager S R
    → Option Config
    → PasswordHasher
    → (Time → String)
    → Handler S R
new_handler db m c hasher show_time = record {
  internal = new_internal_adapter db none show_time;
  session_manager = m;
  hasher = hasher;
  config = config_or_default c;
}

-- The query for the credentials of a user.
abbrev pub credential_query : String → Query
credential_query user_id = query "accounts" (
    clause "user_id" op_equal (str user_id)
    ∷ clause "provider_type" op_equal (str "credential")
    ∷ [])

abbrev pub password_of : Option Value → Result String
password_of (some (str hash)) = ok hash
password_of _ = err (failed "password hash not found")

abbrev pub stored_hash : Option Record → Result String
stored_hash none = err user_not_found
stored_hash (some r) = password_of (get r "password")

-- `valid, err := Verify(…); err != nil || !valid`
abbrev pub passes : Result Bool → Bool
passes (err e) = false
passes (ok valid) = valid

module _ {S R : Type 0} (h : Handler S R) where
  unfoldable pub session_cookie : String → Time → Cookie
  session_cookie token expires_at =
      let c = h.session_manager.config in
      record {
        name = c.cookie_name;
        value = token;
        path = c.cookie_path;
        domain = c.cookie_domain;
        expires = expires_at;
        is_deleted = false;
        secure = c.cookie_secure;
        http_only = c.cookie_http_only;
        same_site = some (parse_same_site c.cookie_same_site);
      }

  -- `clearSessionCookie`: the cookie of the epoch, which is the instant of the Unix time 0
  unfoldable pub cleared_cookie : Time → Cookie
  cleared_cookie epoch =
      let c = h.session_manager.config in
      record {
        name = c.cookie_name;
        value = "";
        path = c.cookie_path;
        domain = c.cookie_domain;
        expires = epoch;
        is_deleted = true;
        secure = c.cookie_secure;
        http_only = c.cookie_http_only;
        same_site = none;
      }

  -- The common end of SignUp and SignIn, with the status of a success.
  abbrev pub session_response :
      ℕ → User → Result (Session × Option User × String) × World S R → Response × World S R
  session_response status user (err e, w) =
      (write_error 500 "session_error" "Failed to create session", w)
  session_response status user (ok (s, u, token), w) = (
    record {
      status = status;
      set_cookie = some (session_cookie token s.expires_at);
      body = auth_response (some user) (some s) token;
    },
    w,
  )

  abbrev pub session_options : {B : Type 0} → Request B → User → SessionOptions
  session_options r user = record {
    user = some user;
    ip_address = get_ip_address r;
    user_agent = r.header "User-Agent";
    remember_me = false;
    expires_in = none;
  }

  unfoldable pub start_session :
      {B : Type 0} → ℕ → Request B → User → World S R → Response × World S R
  start_session status r user w =
      session_response status user
        (Manager.create h.session_manager user.id (some (session_options r user)) w)

  unfoldable pub create_user_with_password : String → String → String → Act S R User
  create_user_with_password email name hash = do
    user ← create_user h.internal email name
    create_credential_account h.internal user.id email hash
    pure user

  unfoldable pub get_user_password_hash : String → Act S R String
  get_user_password_hash user_id w =
      let (r, w') = on_db (h.internal.adapter.find_one (credential_query user_id)) w in
      continue r (λ row v. (stored_hash row, v)) w'

  -- SignUp from the creation of the user on.
  abbrev pub registered : Request SignUpRequest → Result User × World S R → Response × World S R
  registered r (err e, w) = (write_error 500 "create_error" "Failed to create user", w)
  registered r (ok user, w) = start_session 201 r user w

  abbrev pub with_hash :
      Request SignUpRequest → SignUpRequest → Result String → World S R → Response × World S R
  with_hash r q (err e) w = (write_error 500 "hash_error" "Failed to hash password", w)
  with_hash r q (ok hash) w = registered r (create_user_with_password q.email q.name hash w)

  -- SignUp from the search for a user with the address on.
  abbrev pub if_free :
      Request SignUpRequest → SignUpRequest → Result User × World S R → Response × World S R
  if_free r q (ok user, w) =
      (write_error 409 "user_exists" "User with this email already exists", w)
  if_free r q (err user_not_found, w) =
      let (salt, w') = read_random w in with_hash r q (h.hasher.hash q.password salt) w'
  if_free r q (err e, w) = (write_error 500 "database_error" "Failed to check existing user", w)

  abbrev pub validated :
      Request SignUpRequest → SignUpRequest → Option String → World S R → Response × World S R
  validated r q (some problem) w = (write_error 400 "validation_error" problem, w)
  validated r q none w = if_free r q (find_user_by_email h.internal q.email w)

  abbrev pub sign_up_body :
      Request SignUpRequest → Result SignUpRequest → World S R → Response × World S R
  sign_up_body r (err e) w = (write_error 400 "invalid_request" "Invalid request body", w)
  sign_up_body r (ok q) w = validated r q (validate_sign_up h.config q) w

  unfoldable pub sign_up : Request SignUpRequest → World S R → Response × World S R
  sign_up r w =
      if h.config.allow_signup
      then sign_up_body r r.body w
      else (write_error 403 "signup_disabled" "Sign up is disabled", w)

  -- SignIn from the check of the password on.
  abbrev pub verified : Request SignInRequest → User → Bool → World S R → Response × World S R
  verified r user valid w =
      if valid
      then (if h.config.require_verification && not user.email_verified
          then (
            write_error 403 "email_not_verified" "Please verify your email before signing in",
            w,
          )
          else start_session 200 r user w)
      else (write_error 401 "invalid_credentials" "Invalid email or password", w)

  abbrev pub with_credentials :
      Request SignInRequest → String → User → Result String × World S R → Response × World S R
  with_credentials r password user (err e, w) =
      (write_error 500 "database_error" "Failed to retrieve credentials", w)
  with_credentials r password user (ok hash, w) =
      verified r user (passes (h.hasher.verify password hash)) w

  abbrev pub with_user :
      Request SignInRequest → String → Result User × World S R → Response × World S R
  with_user r password (ok user, w) =
      with_credentials r password user (get_user_password_hash user.id w)
  with_user r password (err user_not_found, w) =
      (write_error 401 "invalid_credentials" "Invalid email or password", w)
  with_user r password (err e, w) = (write_error 500 "database_error" "Failed to find user", w)

  abbrev pub sign_in_body :
      Request SignInRequest → Result SignInRequest → World S R → Response × World S R
  sign_in_body r (err e) w = (write_error 400 "invalid_request" "Invalid request body", w)
  sign_in_body r (ok q) w =
      if not (q.email == "") && not (q.password == "")
      then with_user r q.password (find_user_by_email h.internal q.email w)
      else (write_error 400 "validation_error" "Email and password are required", w)

  unfoldable pub sign_in : Request SignInRequest → World S R → Response × World S R
  sign_in r w = sign_in_body r r.body w

  abbrev pub sign_out_token : Time → Option String → World S R → Response × World S R
  sign_out_token epoch none w = (write_error 400 "no_session" "No session found", w)
  sign_out_token epoch (some token) w = (
    record { status = 200; set_cookie = some (cleared_cookie epoch); body = signed_out },
    (Manager.delete h.session_manager token w).1,
  )

  unfoldable pub sign_out : {B : Type 0} → Time → Request B → World S R → Response × World S R
  sign_out epoch r w = sign_out_token epoch (r.cookie h.session_manager.config.cookie_name) w

  abbrev pub current : Option User → Option Session → Response
  current user none = write_error 401 "no_session" "No active session"
  current user (some s) = record {
    status = 200;
    set_cookie = none;
    body = auth_response user (some s) "";
  }

  unfoldable pub get_session : {B : Type 0} → Request B → Response
  get_session r = current r.user r.session
