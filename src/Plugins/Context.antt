-- ===== src/Plugins/Context.antt =====
-- core/context.go (AuthContext), and the answers of the plugins' handlers. The plugins' parseSameSite is
-- a parameter of the cookie: it lower-cases the setting first, which needs the letters of Unicode.
use beacon_auth.Prelude.{ℕ, String, Bool, false, some, List, [], ℤ}
use beacon_auth.Core.Value.{add_time}
use beacon_auth.Core.Types.{User}
use beacon_auth.Core.Query.{Adapter}
use beacon_auth.Core.World.{World, read_clock}
use beacon_auth.Internal.{InternalAdapter}
use beacon_auth.Session.Stores.{Manager}
use beacon_auth.Instance.{SessionConfig}
use beacon_auth.Auth.{PasswordHasher}
use beacon_auth.Auth.Http.{SameSite, Cookie}

-- What the plugins read of AuthContext and its configuration. `same_site` is strings.ToLower followed by
-- the switch of parseSameSite.
pub record AuthContext (S R : Type 0) : Type 0 where
  pub app_name : String
  pub base_url : String
  pub base_path : String
  pub session : SessionConfig
  pub min_password_length : ℕ
  pub use_secure_cookies : Bool
  pub adapter : Adapter S
  pub data_manager : InternalAdapter S
  pub session_manager : Manager S R
  pub hasher : PasswordHasher
  pub to_lower : String → String

-- A cookie of a session, or the state of an OAuth login with its age in seconds.
pub data SetCookie : Type 0 where
  session_cookie : Cookie → SetCookie
  state_cookie : String → Bool → ℤ → SetCookie

-- What is written: the text of http.Error, a user, `{"success":true}`, the answer of two-factor
-- enrolment (secret, URI and backup codes), a user who has passed two-factor verification, or a
-- redirection; `aborted` where the handler panics and the server drops the connection.
pub data Content : Type 0 where
  error_text : String → Content
  user_json : User → Content
  success : Content
  enrolment : String → String → List String → Content
  verified_json : User → Content
  location : String → Content
  aborted : Content

pub record Answer : Type 0 where
  pub status : ℕ
  pub cookies : List SetCookie
  pub content : Content

-- http.Error
abbrev pub http_error : String → ℕ → Answer
http_error text status = record { status = status; cookies = []; content = error_text text }

module _ {S R : Type 0} (c : AuthContext S R) where
  -- The session cookie of the plugins, with the expiry from the clock.
  unfoldable pub new_session_cookie : SameSite → String → World S R → Cookie × World S R
  new_session_cookie same_site token w =
      let (t, w') = read_clock w in
      (
        record {
          name = c.session.cookie_name;
          value = token;
          path = c.session.cookie_path;
          domain = c.session.cookie_domain;
          expires = add_time t c.session.expires_in;
          is_deleted = false;
          secure = c.session.cookie_secure;
          http_only = c.session.cookie_http_only;
          same_site = some same_site;
        },
        w',
      )
