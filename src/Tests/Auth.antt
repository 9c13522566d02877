-- ===== src/Tests/Auth.antt =====
-- auth/handlers.go: a sign up, a sign in and a sign out.
use beacon_auth.Prelude.{
  ℕ, String, str_append, ◌≡◌, ◌≢◌, ◌≤◌, refl, Bool, true, false, Option, none, some, List, [], ◌∷◌,
  ◌==◌, eq_refl, arith,
}
use beacon_auth.Core.Types.{Result, ok, User, Session}
use beacon_auth.Core.World.{World}
use beacon_auth.Memory.{Memory}
use beacon_auth.Session.Config
use beacon_auth.Session.Manager
use beacon_auth.Session.Stores.{Manager}
use beacon_auth.Session.Manager.Created.{db_manager}
use beacon_auth.Auth.{
  Handler, PasswordHasher, new_handler, sign_up, sign_in, sign_out, start_session, cleared_cookie,
}
use beacon_auth.Auth.Http.{
  Request, SignUpRequest, SignInRequest, Body, Response, auth_response, error_response, signed_out,
}
use beacon_auth.Auth.SignIn.{IsAuthenticated, sign_in-IsAuthenticated}
use beacon_auth.Auth.SignUp.{sign_in-sign_up}
use beacon_auth.Auth.Answers.{sign_up_refused}
use beacon_auth.Tests.World.{laws, internal, empty_world, no_one}

-- A hash that is the password itself.
abbrev hasher : PasswordHasher
hasher = record { hash = λ p salt. ok p; verify = λ p k. ok (p == k) }

abbrev plain : Manager Memory Unit
plain = db_manager Config.default_config internal

abbrev handler : Handler Memory Unit
handler = record {
  internal = internal;
  session_manager = plain;
  hasher = hasher;
  config = record { min_password_length = 8; require_verification = false; allow_signup = true };
}

abbrev request_of : {B : Type 0} → Result B → Request B
request_of b = record {
  body = b;
  header = λ name. "";
  cookie = λ name. some "s1";
  remote_addr = "[::1]:9";
  session = none;
  user = none;
}

abbrev asked_up : SignUpRequest
asked_up = record { email = "bob@example.com"; password = "correct horse"; name = "Bob" }

abbrev asked_in : SignInRequest
asked_in = record { email = "bob@example.com"; password = "correct horse" }

abbrev joined : Response × World Memory Unit
joined = sign_up handler (request_of (ok asked_up)) empty_world

abbrev user_in : Body → User
user_in (auth_response (some u) s t) = u
user_in _ = no_one

abbrev session_in : Body → Option Session
session_in (auth_response u s t) = s
session_in _ = none

abbrev token_in : Body → String
token_in (auth_response u s t) = t
token_in _ = ""

sign_in-IsAuthenticated_example :
    IsAuthenticated handler laws (request_of (ok asked_in)) joined.1.db
unfolding sign_in sign_up start_session Manager.create beacon_auth.Session.Random.charset_string
    Manager.draft beacon_auth.Session.Random.generate_random_string Manager.store_layers
    beacon_auth.Auth.Http.validate_sign_up beacon_auth.Auth.Http.is_valid_email
    beacon_auth.Auth.create_user_with_password beacon_auth.Auth.get_user_password_hash
    beacon_auth.Auth.session_cookie beacon_auth.Auth.Http.get_ip_address
    beacon_auth.Auth.Http.parse_same_site beacon_auth.Internal.find_user_by_email
    beacon_auth.Internal.create_user beacon_auth.Internal.with_id
    beacon_auth.Internal.create_credential_account beacon_auth.Internal.store_account
    beacon_auth.Internal.find_session_with_user beacon_auth.Memory.find_one
    beacon_auth.Memory.create beacon_auth.Memory.Where.matches_where beacon_auth.Memory.Where.holds
    beacon_auth.Memory.Where.matches_clause beacon_auth.Memory.Compare.equal
    beacon_auth.Memory.Compare.greater_than beacon_auth.Prelude.Dict.get
    beacon_auth.Prelude.Dict.put beacon_auth.Core.Encoding.string_bytes
    beacon_auth.Core.Encoding.take_bytes beacon_auth.Core.Encoding.base64_url
    beacon_auth.Internal.Data.user_data beacon_auth.Internal.Data.credential_account_data
    beacon_auth.Internal.Rows.map_to_user beacon_auth.Internal.Rows.map_to_account
    beacon_auth.Internal.Rows.map_to_session beacon_auth.Internal.Rows.text_at
    beacon_auth.Internal.Rows.to_string beacon_auth.Session.Database.set_stored
    beacon_auth.Session.Database.session_row beacon_auth.Memory.Refines.memory_contract
    beacon_auth.Core.Value.sprint
sign_in-IsAuthenticated_example =
    sign_in-IsAuthenticated handler laws (request_of (ok asked_in)) joined.1 refl

sign_in-sign_up_example :
    sign_in handler (request_of (ok asked_in)) joined.1
    ≡ start_session handler 200 (request_of (ok asked_in)) (user_in joined.0.body) joined.1
unfolding sign_in sign_up start_session Manager.create beacon_auth.Session.Random.charset_string
    Manager.draft beacon_auth.Session.Random.generate_random_string Manager.store_layers
    beacon_auth.Auth.Http.validate_sign_up beacon_auth.Auth.Http.is_valid_email
    beacon_auth.Auth.create_user_with_password beacon_auth.Auth.get_user_password_hash
    beacon_auth.Auth.session_cookie beacon_auth.Auth.Http.get_ip_address
    beacon_auth.Auth.Http.parse_same_site beacon_auth.Internal.find_user_by_email
    beacon_auth.Internal.create_user beacon_auth.Internal.with_id
    beacon_auth.Internal.create_credential_account beacon_auth.Internal.store_account
    beacon_auth.Internal.find_session_with_user beacon_auth.Memory.find_one
    beacon_auth.Memory.create beacon_auth.Memory.Where.matches_where beacon_auth.Memory.Where.holds
    beacon_auth.Memory.Where.matches_clause beacon_auth.Memory.Compare.equal
    beacon_auth.Memory.Compare.greater_than beacon_auth.Prelude.Dict.get
    beacon_auth.Prelude.Dict.put beacon_auth.Core.Encoding.string_bytes
    beacon_auth.Core.Encoding.take_bytes beacon_auth.Core.Encoding.base64_url
    beacon_auth.Internal.Data.user_data beacon_auth.Internal.Data.credential_account_data
    beacon_auth.Internal.Rows.map_to_user beacon_auth.Internal.Rows.map_to_account
    beacon_auth.Internal.Rows.map_to_session beacon_auth.Internal.Rows.text_at
    beacon_auth.Internal.Rows.to_string beacon_auth.Session.Database.set_stored
    beacon_auth.Session.Database.session_row beacon_auth.Memory.Refines.memory_contract
sign_in-sign_up_example =
    sign_in-sign_up handler laws (request_of (ok asked_up)) (request_of (ok asked_in)) asked_up
      empty_world (user_in joined.0.body) (session_in joined.0.body) (token_in joined.0.body) refl
      (λ p k salt e. ground (arith, eq_refl k)) refl refl refl refl refl refl

sign_up_refused_example :
    ((sign_up handler (request_of (ok asked_up)) joined.1).0.status ≢ 201
      → (sign_up handler (request_of (ok asked_up)) joined.1).0.status ≢ 500
      → ((sign_up handler (request_of (ok asked_up)) joined.1).1 ≡ joined.1)
        × ((sign_up handler (request_of (ok asked_up)) joined.1).0.set_cookie ≡ none))
    × ((q : SignUpRequest) (u : User)
        → true ≡ true
        → ok asked_up ≡ ok q
        → beacon_auth.Auth.Http.validate_sign_up handler.config q ≡ none
        → (beacon_auth.Internal.find_user_by_email internal q.email joined.1).0 ≡ ok u
        → (sign_up handler (request_of (ok asked_up)) joined.1).0.status ≡ 409)
sign_up_refused_example = sign_up_refused handler laws (request_of (ok asked_up)) joined.1
