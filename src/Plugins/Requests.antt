-- ===== src/Plugins/Requests.antt =====
-- plugins/oauth/providers: the requests and answers of net/http, and what the providers do alike with
-- the options of a login.
use beacon_auth.Prelude.{ℕ, String, str_append, Option, none, some, List, [], ◌∷◌}
use beacon_auth.Prelude.Dict.{Dict, assign}
use beacon_auth.Plugins.OAuth.{AuthOptions}

pub record HttpRequest : Type 0 where
  pub method : String
  pub url : String
  pub headers : Dict String
  pub body : String

pub record HttpResponse : Type 0 where
  pub status_code : ℕ
  pub body : String

abbrev pub scopes_or : List String → List String → List String
scopes_or default [] = default
scopes_or default (s ∷ ss) = s ∷ ss

abbrev pub option_scopes : List String → Option AuthOptions → List String
option_scopes scopes none = scopes
option_scopes scopes (some o) = scopes_or scopes o.scopes

abbrev pub with_extra : Option AuthOptions → Dict String → Dict String
with_extra none q = q
with_extra (some o) q = assign q o.extra_params

-- A request for `url` with the access token.
abbrev pub authorized : String → String → HttpRequest
authorized url token = record {
  method = "GET";
  url = url;
  headers = ("Authorization", str_append "Bearer " token) ∷ [];
  body = "";
}
