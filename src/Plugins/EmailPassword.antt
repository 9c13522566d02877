-- ===== src/Plugins/EmailPassword.antt =====
-- plugins/emailpassword/emailpassword.go: registration and login.
pub mod LoggedIn
pub mod NewUser
pub mod Registered
use beacon_auth.Prelude.{
  ℕ, String, Bool, true, false, Option, none, some, List, [], ◌∷◌, ltb, length, ◌==◌, ◌||◌,
  if◌then◌else◌,
}
use beacon_auth.Core.Types.{Error, Result, ok, err, User, Session, Account}
use beacon_auth.Core.Encoding.{string_bytes}
use beacon_auth.Core.World.{World, read_random}
use beacon_auth.Internal.{
  find_user_by_email, create_user, create_credential_account, find_account_by_provider,
}
use beacon_auth.Session.Manager
use beacon_auth.Auth.Http.{SameSite, lax, strict, none_mode}
use beacon_auth.Plugins.Context.{
  AuthContext, SetCookie, session_cookie, Content, user_json, success, Answer, http_error,
  new_session_cookie,
}

pub record RegisterRequest : Type 0 where
  pub email : String
  pub password : String
  pub name : String

pub record LoginRequest : Type 0 where
  pub email : String
  pub password : String

module _ {S R : Type 0} (p : AuthContext S R) where
  -- `parseSameSite`
  unfoldable pub parse_same_site : String → SameSite
  parse_same_site s =
      let t = p.to_lower s in
      if t == "lax"
      then lax
      else if t == "strict"
      then strict
      else if t == "none"
      then none_mode
      else lax

  abbrev pub content_of : Option User → Content
  content_of none = success
  content_of (some user) = user_json user

  -- `createSessionAndResponse`
  abbrev pub session_answer :
      Option User → Result (Session × Option User × String) × World S R → Answer × World S R
  session_answer user (err e, w) = (http_error "Failed to create session" 500, w)
  session_answer user (ok (s, u, token), w) =
      let (cookie, w') =
        new_session_cookie p (parse_same_site p.session.cookie_same_site) token w in
      (record { status = 200; cookies = session_cookie cookie ∷ []; content = content_of user }, w')

  unfoldable pub create_session_and_response : String → Option User → World S R → Answer × World S R
  create_session_and_response user_id user w =
      session_answer user (Manager.create p.session_manager user_id none w)

  -- handleRegister from the new account on.
  abbrev pub with_account : User → Result Account × World S R → Answer × World S R
  with_account user (err e, w) = (http_error "Failed to create account" 500, w)
  with_account user (ok a, w) = create_session_and_response user.id (some user) w

  abbrev pub with_new_user : String → String → Result User × World S R → Answer × World S R
  with_new_user email hash (err e, w) = (http_error "Failed to create user" 500, w)
  with_new_user email hash (ok user, w) =
      with_account user (create_credential_account p.data_manager user.id email hash w)

  abbrev pub with_hash : RegisterRequest → Result String → World S R → Answer × World S R
  with_hash q (err e) w = (http_error "Internal server error" 500, w)
  with_hash q (ok hash) w = with_new_user q.email hash (create_user p.data_manager q.email q.name w)

  -- The error of the search is not looked at.
  abbrev pub if_free : RegisterRequest → Result User × World S R → Answer × World S R
  if_free q (ok user, w) = (http_error "Email already exists" 409, w)
  if_free q (err e, w) =
      let (salt, w') = read_random w in with_hash q (p.hasher.hash q.password salt) w'

  abbrev pub register_body : Result RegisterRequest → World S R → Answer × World S R
  register_body (err e) w = (http_error "Invalid request body" 400, w)
  register_body (ok q) w =
      if q.email == "" || q.password == ""
      then (http_error "Email and password are required" 400, w)
      else if ltb (length (string_bytes q.password)) p.min_password_length
      then (http_error "Password too short" 400, w)
      else if_free q (find_user_by_email p.data_manager q.email w)

  unfoldable pub handle_register : Result RegisterRequest → World S R → Answer × World S R
  handle_register body w = register_body body w

  abbrev pub found_or_nil : Result User → Option User
  found_or_nil (ok user) = some user
  found_or_nil (err e) = none

  -- handleLogin from the check of the password on.
  abbrev pub with_valid : LoginRequest → Account → Result Bool → World S R → Answer × World S R
  with_valid q a (err e) w = (http_error "Internal server error" 500, w)
  with_valid q a (ok false) w = (http_error "Invalid email or password" 401, w)
  with_valid q a (ok true) w =
      let (user, w') = find_user_by_email p.data_manager q.email w in
      create_session_and_response a.user_id (found_or_nil user) w'

  abbrev pub with_found : LoginRequest → Result (Option Account) × World S R → Answer × World S R
  with_found q (err e, w) = (http_error "Internal server error" 500, w)
  with_found q (ok none, w) = (http_error "Invalid email or password" 401, w)
  with_found q (ok (some a), w) = with_valid q a (p.hasher.verify q.password a.password) w

  abbrev pub login_body : Result LoginRequest → World S R → Answer × World S R
  login_body (err e) w = (http_error "Invalid request body" 400, w)
  login_body (ok q) w = with_found q (find_account_by_provider p.data_manager "local" q.email w)

  unfoldable pub handle_login : Result LoginRequest → World S R → Answer × World S R
  handle_login body w = login_body body w
