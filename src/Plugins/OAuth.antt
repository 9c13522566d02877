-- ===== src/Plugins/OAuth.antt =====
-- plugins/oauth/oauth.go: the login and the callback of a provider, which is the interface of
-- plugins/oauth/providers/provider.go. The answer of a provider is a function of what it is asked.
pub mod Callback
use Prim.Native.Char.{code}
use Prim.Native.String.{slice}
use beacon_auth.Prelude.{
  ℕ, suc, ◌≡◌, String, str_append, Bool, true, false, not, ◌&&◌, Option, none, some, List, [], ◌∷◌,
  ℤ, pos, negsuc, nat_eq, ◌==◌, if◌then◌else◌,
}
use beacon_auth.Prelude.Dict.{Dict, get, put}
use beacon_auth.Core.Value.{Time, Record}
use beacon_auth.Core.Types.{
  Error, user_not_found, session_not_found, failed, Result, Done, ok, err, User, Session, Account,
}
use beacon_auth.Core.World.{World, read_random}
use beacon_auth.Core.Encoding.{take_bytes, base64_url}
use beacon_auth.Internal.{
  find_user_by_email, create_user, create_oauth_account, find_account_by_provider,
}
use beacon_auth.Session.Manager
use beacon_auth.Auth.Http.{SameSite, lax, strict, none_mode}
use beacon_auth.Plugins.Context.{
  AuthContext, SetCookie, session_cookie, state_cookie, Content, location, error_text, Answer,
  http_error, new_session_cookie,
}

pub record AuthOptions : Type 0 where
  pub scopes : List String
  pub use_pkce : Bool
  pub nonce : String
  pub extra_params : Dict String

pub record OAuthTokens : Type 0 where
  pub access_token : String
  pub refresh_token : String
  pub expires_at : Option Time
  pub id_token : String
  pub token_type : String

pub record OAuthUserInfo : Type 0 where
  pub id : String
  pub email : String
  pub email_verified : Bool
  pub name : String
  pub first_name : String
  pub last_name : String
  pub picture : String
  pub raw_data : Record

-- `OAuthProvider`; an authorization URL is its text.
pub record OAuthProvider : Type 0 where
  pub id : String
  pub name : String
  pub create_authorization_url : String → String → Option AuthOptions → Result String
  pub exchange_code : String → String → String → Result OAuthTokens
  pub get_user_info : String → Result OAuthUserInfo
  pub refresh_token : String → Result OAuthTokens
  pub init : Done

-- The parameters of the URL, "" where one is missing, and the cookies.
pub record CallbackRequest : Type 0 where
  pub query : String → String
  pub cookie : String → Option String

-- New: the providers by their identifiers, a later one in place of an earlier one.
unfoldable pub new_plugin : List OAuthProvider → Dict OAuthProvider
new_plugin ps = add_all ps []
  where
    add_all : List OAuthProvider → Dict OAuthProvider → Dict OAuthProvider
    add_all [] d = d
    add_all (q ∷ qs) d = add_all qs (put d q.id q)

-- Init: the first error stops the loop.
unfoldable pub init_providers : Dict OAuthProvider → Done
init_providers [] = ok tt
init_providers ((id, q) ∷ d) = elim q.init [ err e ↦ err e | ok u ↦ init_providers d ]

-- `strings.HasPrefix(basePath, "/")`
abbrev pub starts_with_slash : String → Bool
starts_with_slash String.[] = false
starts_with_slash (String.◌∷◌ c s) = nat_eq (code c) b'/'

-- `strings.TrimRight(basePath, "/")`
unfoldable pub trim_slashes : String → String
trim_slashes String.[] = ""
trim_slashes (String.◌∷◌ c s) =
    let rest = trim_slashes s in
    if nat_eq (code c) b'/' && rest == "" then "" else String.◌∷◌ c rest

module _ {S R : Type 0} (p : AuthContext S R) where
  -- `parseSameSite`
  unfoldable pub parse_same_site : String → SameSite
  parse_same_site s =
      let t = p.to_lower s in
      if t == "lax"
      then lax
      else if t == "strict"
      then strict
      else if t == "none"
      then none_mode
      else lax

  unfoldable pub rooted_path : String
  rooted_path = trim_slashes (
      if not (p.base_path == "") && not (starts_with_slash p.base_path)
      then str_append "/" p.base_path
      else p.base_path)

  unfoldable pub redirect_uri : OAuthProvider → String
  redirect_uri q =
      str_append p.base_url
        (str_append rooted_path (str_append "/oauth/" (str_append q.id "/callback")))

  abbrev pub state_set : String → SetCookie
  state_set state = state_cookie state p.use_secure_cookies (pos 300)

  abbrev pub state_cleared : SetCookie
  state_cleared = state_cookie "" p.use_secure_cookies (negsuc 0)

  -- An answer that also clears or sets the cookie of the state.
  abbrev pub with_cookie : SetCookie → Answer → Answer
  with_cookie cookie a = record a { cookies = cookie ∷ a.cookies }

  abbrev pub redirected : String → Answer
  redirected url = record { status = 307; cookies = []; content = location url }

  abbrev pub login_url : Result String → Answer
  login_url (err e) = http_error "Failed to create authorization URL" 500
  login_url (ok url) = redirected url

  -- handleLogin, from what rand.Read answered
  abbrev pub login_state : OAuthProvider → Option (ℕ → ℕ) → Answer
  login_state q none = http_error "Failed to generate state" 500
  login_state q (some bytes) =
      let state = base64_url (take_bytes 32 bytes) in
      with_cookie (state_set state)
        (login_url (q.create_authorization_url state (redirect_uri q) none))

  unfoldable pub handle_login : OAuthProvider → World S R → Answer × World S R
  handle_login q w = let (bytes, w') = read_random w in (login_state q bytes, w')

  -- The end of handleCallback.
  abbrev pub with_session : Result (Session × Option User × String) × World S R → Answer × World S R
  with_session (err e, w) = (http_error "Failed to create session" 500, w)
  with_session (ok (s, u, token), w) =
      let (cookie, w') =
        new_session_cookie p (parse_same_site p.session.cookie_same_site) token w in
      (with_cookie (session_cookie cookie) (redirected "/"), w')

  unfoldable pub start_session : String → World S R → Answer × World S R
  start_session user_id w = with_session (Manager.create p.session_manager user_id none w)

  abbrev pub with_account : String → Result Account × World S R → Answer × World S R
  with_account user_id (err e, w) = (http_error "Failed to create account" 500, w)
  with_account user_id (ok a, w) = start_session user_id w

  -- A new account of a user.
  unfoldable pub link_account :
      OAuthProvider → OAuthTokens → OAuthUserInfo → String → World S R → Answer × World S R
  link_account q t i user_id w = with_account user_id (
      create_oauth_account p.data_manager user_id q.id i.id t.access_token t.refresh_token
        t.expires_at w)

  abbrev pub with_new_user :
      OAuthProvider → OAuthTokens → OAuthUserInfo → Result User × World S R → Answer × World S R
  with_new_user q t i (err e, w) = (http_error "Failed to create user" 500, w)
  with_new_user q t i (ok user, w) = link_account q t i user.id w

  abbrev pub add_user : OAuthProvider → OAuthTokens → OAuthUserInfo → World S R → Answer × World S R
  add_user q t i w = with_new_user q t i (create_user p.data_manager i.email i.name w)

  abbrev pub with_user :
      OAuthProvider → OAuthTokens → OAuthUserInfo → Result User × World S R → Answer × World S R
  with_user q t i (ok user, w) = link_account q t i user.id w
  with_user q t i (err user_not_found, w) = add_user q t i w
  with_user q t i (err e, w) = (http_error "Database error" 500, w)

  abbrev pub find_or_add_user :
      OAuthProvider → OAuthTokens → OAuthUserInfo → World S R → Answer × World S R
  find_or_add_user q t i w =
      if i.email == ""
      then add_user q t i w
      else with_user q t i (find_user_by_email p.data_manager i.email w)

  -- handleCallback from the search for the account on.
  abbrev pub with_found :
      OAuthProvider
      → OAuthTokens
      → OAuthUserInfo
      → Result (Option Account) × World S R
      → Answer × World S R
  with_found q t i (err e, w) = (http_error "Database error" 500, w)
  with_found q t i (ok (some a), w) = start_session a.user_id w
  with_found q t i (ok none, w) = find_or_add_user q t i w

  abbrev pub with_info :
      OAuthProvider → OAuthTokens → Result OAuthUserInfo → World S R → Answer × World S R
  with_info q t (err e) w = (http_error "Failed to get user info" 500, w)
  with_info q t (ok i) w = with_found q t i (find_account_by_provider p.data_manager q.id i.id w)

  abbrev pub with_tokens : OAuthProvider → Result OAuthTokens → World S R → Answer × World S R
  with_tokens q (err e) w = (http_error "Failed to exchange code" 500, w)
  with_tokens q (ok t) w = with_info q t (q.get_user_info t.access_token) w

  -- handleCallback once the state is accepted.
  unfoldable pub accepted : OAuthProvider → String → World S R → Answer × World S R
  accepted q given w =
      if given == ""
      then (http_error "Missing code param" 400, w)
      else with_tokens q (q.exchange_code given "" (redirect_uri q)) w

  abbrev pub clearing : Answer × World S R → Answer × World S R
  clearing (a, w) = (with_cookie state_cleared a, w)

  abbrev pub check_state :
      OAuthProvider → CallbackRequest → Option String → World S R → Answer × World S R
  check_state q r none w = (http_error "Invalid state param" 400, w)
  check_state q r (some state) w =
      if state == r.query "state"
      then clearing (accepted q (r.query "code") w)
      else (http_error "Invalid state param" 400, w)

  unfoldable pub handle_callback : OAuthProvider → CallbackRequest → World S R → Answer × World S R
  handle_callback q r w = check_state q r (r.cookie "oauth_state") w

-- Endpoints: a pair of paths for each provider.
unfoldable pub endpoints : Dict OAuthProvider → List String
endpoints [] = []
endpoints ((id, q) ∷ d) =
    str_append "/oauth/" (str_append id "/login")
    ∷ str_append "/oauth/" (str_append id "/callback")
    ∷ endpoints d
