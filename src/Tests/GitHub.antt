-- ===== src/Tests/GitHub.antt =====
-- Runs of the GitHub provider at concrete inputs.
use beacon_auth.Prelude.{◌≡◌, refl, true, false, [], ◌∷◌, pos}
use beacon_auth.Prelude.Dict.{get}
use beacon_auth.Core.Value.{str, int, Record, sprint}
use beacon_auth.Core.Types.{Result, ok}
use beacon_auth.Plugins.OAuth.{OAuthUserInfo}
use beacon_auth.Plugins.GitHub as GitHub
use beacon_auth.Plugins.Requests.{HttpRequest, HttpResponse, authorized}
use beacon_auth.Plugins.GitHub.{TokenResult, GitHubEmail, Wire, GitHubProvider}
use beacon_auth.Plugins.GitHub.Vouched.{Vouched, get_user_info_sound}
use beacon_auth.Tests.World.{show}

abbrev profile : Record
profile = ("id", int (pos 583231)) ∷ ("name", str "Mona Lisa Octocat") ∷ []

abbrev old_address : GitHubEmail
old_address = record { email = "old@b.c"; primary = false; verified = false }

abbrev main_address : GitHubEmail
main_address = record { email = "mona@b.c"; primary = true; verified = true }

abbrev answer : HttpRequest → Result HttpResponse
answer r = ok (record { status_code = 200; body = r.url })

abbrev token_result : TokenResult
token_result = record { access_token = "t"; token_type = "bearer"; scope = "user:email" }

abbrev wire : Wire
wire = record {
  send = answer;
  encode = λ d. "";
  decode_token = λ body. ok token_result;
  decode_user = λ body. ok profile;
  decode_emails = λ body. ok (old_address ∷ main_address ∷ []);
  show_time = show;
}

abbrev provider : GitHubProvider
provider = GitHub.new_git_hub "client" "secret" []

abbrev mona : OAuthUserInfo
mona = record {
  id = "583231";
  email = "mona@b.c";
  email_verified = true;
  name = "Mona Lisa Octocat";
  first_name = "Mona";
  last_name = "Lisa Octocat";
  picture = "";
  raw_data = profile;
}

get_user_info_run : GitHub.get_user_info wire provider "t" ≡ ok mona
unfolding GitHub.get_user_info GitHub.user_info sprint GitHub.listed_address get GitHub.first_name
    GitHub.last_name
get_user_info_run = refl

get_user_info_sound_example :
    Vouched wire provider
      (wire.send (authorized "https://api.github.com/user/emails" "t"))
      "mona@b.c"
get_user_info_sound_example = get_user_info_sound wire provider "t" mona get_user_info_run refl
