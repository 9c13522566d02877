-- ===== src/Tests/Google.antt =====
-- Runs of the Google provider at concrete inputs.
use beacon_auth.Prelude.{
  ◌≡◌, refl, sym, ap, ◌∙◌, String, true, false, Option, none, some, [], pos, nat_eq, ◌==◌,
  if◌then◌else◌,
}
use beacon_auth.Prelude.Dict.{Dict, get}
use beacon_auth.Core.Value.{zero_time}
use beacon_auth.Core.Types.{Result, ok, err}
use beacon_auth.Plugins.OAuth.{handle_callback}
use beacon_auth.Plugins.Requests.{HttpRequest, HttpResponse}
use beacon_auth.Plugins.Google as Google
use beacon_auth.Plugins.Google.{TokenResult, Profile, Wire, GoogleProvider, token_request, google}
use beacon_auth.Plugins.Google.Unproven.{handle_callback-unproven}
use beacon_auth.Tests.World.{world}
use beacon_auth.Tests.Plugins.{context, returned, enrolled}

abbrev verifier_text : Option String → String
verifier_text none = ""
verifier_text (some v) = v

-- Google here reads no more of a form than its code verifier.
abbrev encode : Dict String → String
encode form = verifier_text (get form "code_verifier")

abbrev answer : HttpRequest → Result HttpResponse
answer r = ok (record { status_code = if r.body == "" then 400 else 200; body = "" })

abbrev tokens : TokenResult
tokens = record {
  access_token = "t";
  refresh_token = "";
  token_type = "Bearer";
  expires_in = pos 3599;
  id_token = "";
}

abbrev profile : Profile
profile = record {
  id = "1";
  email = "a@b.c";
  verified_email = true;
  name = "A B";
  given_name = "A";
  family_name = "B";
  picture = "";
  locale = "en";
}

abbrev wire : Wire
wire = record {
  send = answer;
  encode = encode;
  decode_token = λ body. ok tokens;
  decode_profile = λ body. ok profile;
  sha256 = λ text. [];
  raw_base64 = λ bytes. "challenge";
  now = zero_time;
}

abbrev provider : GoogleProvider
provider = Google.new_google none

wire_refuses :
    (form : Dict String) (a : HttpResponse)
    → get form "grant_type" ≡ some "authorization_code"
    → get form "code_verifier" ≡ none
    → wire.send (token_request wire provider form) ≡ ok a
    → nat_eq a.status_code 200 ≡ false
wire_refuses form a g n e =
    ap (λ (x : Result HttpResponse). elim x [ ok b ↦ nat_eq b.status_code 200 | err f ↦ false ])
      (sym e)
    ∙ rw n refl

-- With a verifier the same exchange has its tokens.
exchange_code_run :
    Google.exchange_code wire provider "code" "verifier" "uri"
    ≡ ok (record {
      access_token = "t";
      refresh_token = "";
      expires_at = some (record { instant = 3599000000000; zone = "UTC" });
      id_token = "";
      token_type = "Bearer";
    })
unfolding Google.exchange_code get
exchange_code_run = refl

handle_callback-unproven_example :
    ¬ ((handle_callback context (google wire provider) returned (world enrolled tt)).0.status ≡ 307)
handle_callback-unproven_example =
    handle_callback-unproven wire provider context returned (world enrolled tt) wire_refuses
