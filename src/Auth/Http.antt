-- ===== src/Auth/Http.antt =====
-- auth/handlers.go: requests, responses, and the checks of what a request says.
use beacon_auth.Prelude.{
  ℕ, String, Bool, true, false, ◌&&◌, Option, none, some, List, [], ◌∷◌, ltb, nat_eq, ◌==◌, not,
  length, if◌then◌else◌,
}
use beacon_auth.Core.Value.{Time}
use beacon_auth.Core.Types.{Result, User, Session}
use beacon_auth.Core.Encoding.{string_bytes}

pub record SignUpRequest : Type 0 where
  pub email : String
  pub password : String
  pub name : String

pub record SignInRequest : Type 0 where
  pub email : String
  pub password : String

-- What a handler reads of a request: the body as the JSON decoder leaves it, a header by its name (""
-- where it is missing), a cookie by its name, and what the session middleware has put in the context.
pub record Request (B : Type 0) : Type 0 where
  pub body : Result B
  pub header : String → String
  pub cookie : String → Option String
  pub remote_addr : String
  pub session : Option Session
  pub user : Option User

pub data SameSite : Type 0 where
  lax strict none_mode : SameSite

-- `max_age` is negative where the cookie is deleted.
pub record Cookie : Type 0 where
  pub name : String
  pub value : String
  pub path : String
  pub domain : String
  pub expires : Time
  pub is_deleted : Bool
  pub secure : Bool
  pub http_only : Bool
  pub same_site : Option SameSite

pub data Body : Type 0 where
  auth_response : Option User → Option Session → String → Body
  error_response : String → String → Body
  signed_out : Body

pub record Response : Type 0 where
  pub status : ℕ
  pub set_cookie : Option Cookie
  pub body : Body

abbrev pub write_error : ℕ → String → String → Response
write_error status code message = record {
  status = status;
  set_cookie = none;
  body = error_response code message;
}

pub record Config : Type 0 where
  pub min_password_length : ℕ
  pub require_verification : Bool
  pub allow_signup : Bool

abbrev pub default_config : Config
default_config = record {
  min_password_length = 8;
  require_verification = false;
  allow_signup = true;
}

-- `getIPAddress`
unfoldable pub get_ip_address : {B : Type 0} → Request B → String
get_ip_address r =
    if not (r.header "X-Forwarded-For" == "")
    then r.header "X-Forwarded-For"
    else if not (r.header "X-Real-IP" == "")
    then r.header "X-Real-IP"
    else r.remote_addr

-- `parseSameSite`
unfoldable pub parse_same_site : String → SameSite
parse_same_site s =
    if s == "strict"
    then strict
    else if s == "lax"
    then lax
    else if s == "none"
    then none_mode
    else lax

-- `s[i:i+len(substr)] == substr` where the slice starts
abbrev pub starts_with : List ℕ → List ℕ → Bool
starts_with [] s = true
starts_with (p ∷ ps) [] = false
starts_with (p ∷ ps) (b ∷ bs) = nat_eq p b && starts_with ps bs

-- `contains`: the loop over the places where the text may start
abbrev pub contains : List ℕ → List ℕ → Bool
contains [] sub = starts_with sub []
contains (b ∷ bs) sub = if starts_with sub (b ∷ bs) then true else contains bs sub

unfoldable pub is_valid_email : String → Bool
is_valid_email email =
    ltb 3 (length (string_bytes email))
    && contains (string_bytes email) (string_bytes "@")
    && contains (string_bytes email) (string_bytes ".")

-- `validateSignUpRequest`; `none` is a nil error. The number in the third message is left out.
unfoldable pub validate_sign_up : Config → SignUpRequest → Option String
validate_sign_up c r =
    if r.email == ""
    then some "email is required"
    else if r.password == ""
    then some "password is required"
    else if ltb (length (string_bytes r.password)) c.min_password_length
    then some "password must be at least the configured number of characters"
    else if is_valid_email r.email
    then none
    else some "invalid email format"
