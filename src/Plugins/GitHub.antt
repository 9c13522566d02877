-- ===== src/Plugins/GitHub.antt =====
-- plugins/oauth/providers/github.go over net/http, net/url and encoding/json, which are parameters. A
-- request that is sent has an answer with a status and a body, or an error. A JSON number without a
-- fraction is an `int`, which prints as it does; a fraction is left out.
pub mod Vouched
use Prim.Native.Char.{code}
use beacon_auth.Prelude.{
  ℕ, String, str_append, Bool, true, false, not, ◌||◌, Option, none, some, List, [], ◌∷◌, first,
  pos, nat_eq, ◌==◌, if◌then◌else◌,
}
use beacon_auth.Prelude.Dict.{Dict, get, put, assign}
use beacon_auth.Core.Value.{Time, Value, nil, str, Record, itoa, sprint}
use beacon_auth.Core.Types.{failed, Result, Done, ok, err}
use beacon_auth.Sql.Text.{concat, join}
use beacon_auth.Plugins.Requests.{
  HttpRequest, HttpResponse, scopes_or, option_scopes, with_extra, authorized,
}
use beacon_auth.Plugins.OAuth.{AuthOptions, OAuthTokens, OAuthUserInfo, OAuthProvider}

-- The JSON of a token, and of an item in the list of addresses.
pub record TokenResult : Type 0 where
  pub access_token : String
  pub token_type : String
  pub scope : String

pub record GitHubEmail : Type 0 where
  pub email : String
  pub primary : Bool
  pub verified : Bool

-- http.Client.Do, url.Values.Encode and the JSON decoders.
pub record Wire : Type 0 where
  pub send : HttpRequest → Result HttpResponse
  pub encode : Dict String → String
  pub decode_token : String → Result TokenResult
  pub decode_user : String → Result Record
  pub decode_emails : String → Result (List GitHubEmail)
  pub show_time : Time → String

pub record GitHubProvider : Type 0 where
  pub client_id : String
  pub client_secret : String
  pub scopes : List String

unfoldable pub new_git_hub : String → String → List String → GitHubProvider
new_git_hub client_id client_secret scopes = record {
  client_id = client_id;
  client_secret = client_secret;
  scopes = scopes_or ("user:email" ∷ []) scopes;
}

-- The address among the listed ones that is primary, and whether it is verified.
abbrev pub primary_address : Option GitHubEmail → String × Bool
primary_address none = ("", false)
primary_address (some e) = (e.email, e.verified)

abbrev pub or_address : String × Bool → Option GitHubEmail → String × Bool
or_address a none = a
or_address a (some e) = (e.email, true)

-- Without a primary address, the first that is verified.
unfoldable pub listed_address : List GitHubEmail → String × Bool
listed_address es =
    let a = primary_address (first (λ e. e.primary) es) in
    if a.0 == "" then or_address a (first (λ e. e.verified) es) else a

-- The answer to the request for the list; what cannot be read is passed over.
abbrev pub decoded_address : Result (List GitHubEmail) → String × Bool
decoded_address (err e) = ("", false)
decoded_address (ok es) = listed_address es

-- `userMap["email"].(string)`, which nobody vouches for
abbrev pub profile_address : String × Bool → Option Value → String × Bool
profile_address a (some (str s)) = (s, false)
profile_address a v = a

abbrev pub text_or_empty : Option Value → String
text_or_empty (some (str s)) = s
text_or_empty v = ""

abbrev pub or_nil : Option Value → Value
or_nil none = nil
or_nil (some v) = v

-- strings.SplitN(name, " ", 2): the parts before and after the first blank.
unfoldable pub first_name : String → String
first_name String.[] = ""
first_name (String.◌∷◌ c s) =
    let rest = first_name s in if nat_eq (code c) b' ' then "" else String.◌∷◌ c rest

unfoldable pub last_name : String → String
last_name String.[] = ""
last_name (String.◌∷◌ c s) = let rest = last_name s in if nat_eq (code c) b' ' then s else rest

abbrev pub token_of : TokenResult → Result OAuthTokens
token_of t =
    if t.access_token == ""
    then err (failed "empty access token received")
    else ok (record {
      access_token = t.access_token;
      refresh_token = "";
      expires_at = none;
      id_token = "";
      token_type = t.token_type;
    })

module _ (wire : Wire) (p : GitHubProvider) where
  unfoldable pub init : Done
  init =
      if p.client_id == "" || p.client_secret == ""
      then err (failed "GitHub client ID and secret are required")
      else ok tt

  unfoldable pub create_authorization_url : String → String → Option AuthOptions → Result String
  create_authorization_url state redirect_uri options =
      let q =
        ("client_id", p.client_id)
        ∷ ("redirect_uri", redirect_uri)
        ∷ ("state", state)
        ∷ ("scope", join " " (option_scopes p.scopes options))
        ∷ [] in
      ok (
        str_append "https://github.com/login/oauth/authorize?" (wire.encode (with_extra options q)))

  abbrev pub decoded_token : Result TokenResult → Result OAuthTokens
  decoded_token (err e) = err e
  decoded_token (ok t) = token_of t

  abbrev pub exchanged : Result HttpResponse → Result OAuthTokens
  exchanged (err e) = err e
  exchanged (ok a) =
      if nat_eq a.status_code 200
      then decoded_token (wire.decode_token a.body)
      else err (
          failed (
            concat (
              "failed to exchange token (status "
              ∷ itoa (pos a.status_code)
              ∷ "): "
              ∷ a.body
              ∷ [])))

  unfoldable pub exchange_code : String → String → String → Result OAuthTokens
  exchange_code code verifier redirect_uri = exchanged (
      wire.send (record {
        method = "POST";
        url = "https://github.com/login/oauth/access_token";
        headers =
            ("Accept", "application/json")
            ∷ ("Content-Type", "application/x-www-form-urlencoded")
            ∷ [];
        body = wire.encode (
            ("client_id", p.client_id)
            ∷ ("client_secret", p.client_secret)
            ∷ ("code", code)
            ∷ ("redirect_uri", redirect_uri)
            ∷ []);
      }))

  unfoldable pub user_info : Record → String × Bool → OAuthUserInfo
  user_info user listed =
      let a = if listed.0 == "" then profile_address listed (get user "email") else listed in
      let name = text_or_empty (get user "name") in
      record {
        id = sprint wire.show_time (or_nil (get user "id"));
        email = a.0;
        email_verified = a.1;
        name = name;
        first_name = first_name name;
        last_name = last_name name;
        picture = text_or_empty (get user "avatar_url");
        raw_data = user;
      }

  abbrev pub with_emails : Record → Result HttpResponse → Result OAuthUserInfo
  with_emails user (err e) = err e
  with_emails user (ok a) = ok (
      user_info user (
        if nat_eq a.status_code 200
        then decoded_address (wire.decode_emails a.body)
        else ("", false)))

  abbrev pub with_user : String → Result Record → Result OAuthUserInfo
  with_user token (err e) = err e
  with_user token (ok user) =
      with_emails user (wire.send (authorized "https://api.github.com/user/emails" token))

  abbrev pub with_profile : String → Result HttpResponse → Result OAuthUserInfo
  with_profile token (err e) = err e
  with_profile token (ok a) =
      if nat_eq a.status_code 200
      then with_user token (wire.decode_user a.body)
      else err
          (failed (concat ("failed to get user info: status " ∷ itoa (pos a.status_code) ∷ [])))

  unfoldable pub get_user_info : String → Result OAuthUserInfo
  get_user_info token =
      with_profile token (wire.send (authorized "https://api.github.com/user" token))

  unfoldable pub refresh_token : String → Result OAuthTokens
  refresh_token token = err (failed "refresh token not supported by GitHub")

  -- The provider as the plugin sees it.
  unfoldable pub git_hub : OAuthProvider
  unfolding init create_authorization_url exchange_code get_user_info refresh_token
  git_hub = record {
    id = "github";
    name = "GitHub";
    create_authorization_url = create_authorization_url;
    exchange_code = exchange_code;
    get_user_info = get_user_info;
    refresh_token = refresh_token;
    init = init;
  }
