-- ===== src/Plugins/Google.antt =====
-- plugins/oauth/providers/google.go over net/http, net/url, encoding/json, SHA-256 and base64, which are
-- parameters. The time at which an answer is read is a parameter as well.
pub mod Unproven
use beacon_auth.Prelude.{
  ℕ, zero, suc, ◌*◌, String, str_append, Bool, ◌||◌, Option, none, some, List, [], ◌∷◌, ◌++◌, ℤ,
  pos, negsuc, nat_eq, ◌==◌, if◌then◌else◌,
}
use beacon_auth.Prelude.Dict.{Dict}
use beacon_auth.Core.Value.{Time, str, bool, itoa, add_time}
use beacon_auth.Core.Types.{failed, Result, Done, ok, err}
use beacon_auth.Sql.Text.{concat, join}
use beacon_auth.Plugins.OAuth.{AuthOptions, OAuthTokens, OAuthUserInfo, OAuthProvider}
use beacon_auth.Plugins.Requests.{
  HttpRequest, HttpResponse, scopes_or, option_scopes, with_extra, authorized,
}

-- The JSON of a token, and of a profile.
pub record TokenResult : Type 0 where
  pub access_token : String
  pub refresh_token : String
  pub token_type : String
  pub expires_in : ℤ
  pub id_token : String

pub record Profile : Type 0 where
  pub id : String
  pub email : String
  pub verified_email : Bool
  pub name : String
  pub given_name : String
  pub family_name : String
  pub picture : String
  pub locale : String

-- http.Client.Do, url.Values.Encode, the JSON decoders, SHA-256, base64.RawURLEncoding, time.Now.
pub record Wire : Type 0 where
  pub send : HttpRequest → Result HttpResponse
  pub encode : Dict String → String
  pub decode_token : String → Result TokenResult
  pub decode_profile : String → Result Profile
  pub sha256 : String → List ℕ
  pub raw_base64 : List ℕ → String
  pub now : Time

pub record GoogleProvider : Type 0 where
  pub client_id : String
  pub client_secret : String
  pub scopes : List String
  pub access_type : String

pub record GoogleOptions : Type 0 where
  pub client_id : String
  pub client_secret : String
  pub scopes : List String
  pub access_type : String

abbrev pub no_options : GoogleOptions
no_options = record { client_id = ""; client_secret = ""; scopes = []; access_type = "" }

abbrev pub given_options : Option GoogleOptions → GoogleOptions
given_options none = no_options
given_options (some o) = o

unfoldable pub new_google : Option GoogleOptions → GoogleProvider
new_google opts =
    let o = given_options opts in
    record {
      client_id = o.client_id;
      client_secret = o.client_secret;
      scopes = scopes_or ("openid" ∷ "email" ∷ "profile" ∷ []) o.scopes;
      access_type = if o.access_type == "" then "online" else o.access_type;
    }

-- `make([]byte, n)`
abbrev pub zero_bytes : ℕ → List ℕ
zero_bytes zero = []
zero_bytes (suc n) = 0 ∷ zero_bytes n

-- The time at which a token that lasts for a number of seconds expires.
abbrev pub expiry : Time → ℤ → Option Time
expiry now (pos zero) = none
expiry now (pos (suc n)) = some (add_time now (pos (suc n * 1000000000)))
expiry now (negsuc n) = none

module _ (wire : Wire) (p : GoogleProvider) where
  unfoldable pub init : Done
  init =
      if p.client_id == "" || p.client_secret == ""
      then err (failed "google client ID and secret are required")
      else ok tt

  abbrev pub generate_code_verifier : String
  generate_code_verifier = wire.raw_base64 (zero_bytes 32)

  abbrev pub generate_code_challenge : String → String
  generate_code_challenge verifier = wire.raw_base64 (wire.sha256 verifier)

  abbrev pub authorization_query : String → String → Option AuthOptions → Dict String
  authorization_query state redirect_uri options = with_extra options (
      ("client_id", p.client_id)
      ∷ ("redirect_uri", redirect_uri)
      ∷ ("response_type", "code")
      ∷ ("state", state)
      ∷ ("access_type", p.access_type)
      ∷ ("scope", join " " (option_scopes p.scopes options))
      ∷ ("code_challenge", generate_code_challenge generate_code_verifier)
      ∷ ("code_challenge_method", "S256")
      ∷ ("include_granted_scopes", "true")
      ∷ [])

  unfoldable pub create_authorization_url : String → String → Option AuthOptions → Result String
  create_authorization_url state redirect_uri options = ok (
      str_append "https://accounts.google.com/o/oauth2/v2/auth?"
        (wire.encode (authorization_query state redirect_uri options)))

  -- A request to the endpoint of the tokens.
  abbrev pub token_request : Dict String → HttpRequest
  token_request form = record {
    method = "POST";
    url = "https://oauth2.googleapis.com/token";
    headers = ("Content-Type", "application/x-www-form-urlencoded") ∷ [];
    body = wire.encode form;
  }

  abbrev pub exchange_form : String → String → String → Dict String
  exchange_form code verifier redirect_uri =
      ("client_id", p.client_id)
      ∷ ("client_secret", p.client_secret)
      ∷ ("code", code)
      ∷ ("redirect_uri", redirect_uri)
      ∷ ("grant_type", "authorization_code")
      ∷ (if verifier == "" then [] else ("code_verifier", verifier) ∷ [])

  abbrev pub exchange_tokens : Result TokenResult → Result OAuthTokens
  exchange_tokens (err e) = err e
  exchange_tokens (ok t) =
      if t.access_token == ""
      then err (failed "empty access token received")
      else ok (record {
        access_token = t.access_token;
        refresh_token = t.refresh_token;
        expires_at = expiry wire.now t.expires_in;
        id_token = t.id_token;
        token_type = t.token_type;
      })

  -- A refreshed token has no new refresh token and no identity.
  abbrev pub refreshed_tokens : Result TokenResult → Result OAuthTokens
  refreshed_tokens (err e) = err e
  refreshed_tokens (ok t) = ok (record {
    access_token = t.access_token;
    refresh_token = "";
    expires_at = expiry wire.now t.expires_in;
    id_token = "";
    token_type = t.token_type;
  })

  -- The answer to a request for tokens; `what` is the start of the error.
  abbrev pub answered :
      String → (Result TokenResult → Result OAuthTokens) → Result HttpResponse → Result OAuthTokens
  answered what tokens (err e) = err e
  answered what tokens (ok a) =
      if nat_eq a.status_code 200
      then tokens (wire.decode_token a.body)
      else err
          (failed (concat (what ∷ " (status " ∷ itoa (pos a.status_code) ∷ "): " ∷ a.body ∷ [])))

  unfoldable pub exchange_code : String → String → String → Result OAuthTokens
  exchange_code code verifier redirect_uri =
      answered "failed to exchange token" exchange_tokens
        (wire.send (token_request (exchange_form code verifier redirect_uri)))

  unfoldable pub refresh_token : String → Result OAuthTokens
  refresh_token token = answered "failed to refresh token" refreshed_tokens (
      wire.send (
        token_request (
          ("client_id", p.client_id)
          ∷ ("client_secret", p.client_secret)
          ∷ ("refresh_token", token)
          ∷ ("grant_type", "refresh_token")
          ∷ [])))

  abbrev pub info_of : Result Profile → Result OAuthUserInfo
  info_of (err e) = err e
  info_of (ok u) = ok (record {
    id = u.id;
    email = u.email;
    email_verified = u.verified_email;
    name = u.name;
    first_name = u.given_name;
    last_name = u.family_name;
    picture = u.picture;
    raw_data =
        ("id", str u.id)
        ∷ ("email", str u.email)
        ∷ ("verified_email", bool u.verified_email)
        ∷ ("name", str u.name)
        ∷ ("given_name", str u.given_name)
        ∷ ("family_name", str u.family_name)
        ∷ ("picture", str u.picture)
        ∷ ("locale", str u.locale)
        ∷ [];
  })

  abbrev pub with_profile : Result HttpResponse → Result OAuthUserInfo
  with_profile (err e) = err e
  with_profile (ok a) =
      if nat_eq a.status_code 200
      then info_of (wire.decode_profile a.body)
      else err
          (failed (concat ("failed to get user info: status " ∷ itoa (pos a.status_code) ∷ [])))

  unfoldable pub get_user_info : String → Result OAuthUserInfo
  get_user_info token =
      with_profile (wire.send (authorized "https://www.googleapis.com/oauth2/v2/userinfo" token))

  -- The provider as the plugin sees it.
  unfoldable pub google : OAuthProvider
  unfolding init create_authorization_url exchange_code refresh_token get_user_info
  google = record {
    id = "google";
    name = "Google";
    create_authorization_url = create_authorization_url;
    exchange_code = exchange_code;
    get_user_info = get_user_info;
    refresh_token = refresh_token;
    init = init;
  }
