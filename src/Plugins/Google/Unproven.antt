-- ===== src/Plugins/Google/Unproven.antt =====
-- plugins/oauth/providers/google.go behind plugins/oauth/oauth.go: the code verifier of a login.
use beacon_auth.Prelude.{String, ◌≡◌, refl, true, false, none, some, arith, nat_eq}
use beacon_auth.Prelude.Dict.{Dict, get}
use beacon_auth.Core.Types.{Result, ok, err}
use beacon_auth.Core.World.{World}
use beacon_auth.Plugins.Requests.{HttpResponse}
use beacon_auth.Plugins.Context.{AuthContext}
use beacon_auth.Plugins.OAuth.{CallbackRequest, OAuthTokens, handle_callback, redirect_uri}
use beacon_auth.Plugins.OAuth.Callback.{handle_callback_sound}
use beacon_auth.Plugins.Google.{
  Wire, GoogleProvider, TokenResult, token_request, answered, exchange_form, exchange_code,
  exchange_tokens, google,
}

module _ (wire : Wire) (p : GoogleProvider) where
  refused_answer :
      (x : Result HttpResponse) (what : String) (t : OAuthTokens)
      (tokens : Result TokenResult → Result OAuthTokens)
      → ((a : HttpResponse) → x ≡ ok a → nat_eq a.status_code 200 ≡ false)
      → answered wire p what tokens x ≡ ok t
      → false ≡ true
  refused_answer (err e) what t tokens h = λ k. ground arith
  refused_answer (ok a) what t tokens h = rw (h a refl) (λ k. absurd (ground arith))

  -- If Google answers no request for the tokens of a code with status 200 that lacks the code
  -- verifier, as is to be where the login has announced a challenge, then the callback of the Google
  -- provider redirects no request: it never sends the verifier.
  pub handle_callback-unproven :
      {S R : Type 0} (c : AuthContext S R) (r : CallbackRequest) (w : World S R)
      → ((form : Dict String) (a : HttpResponse)
          → get form "grant_type" ≡ some "authorization_code"
          → get form "code_verifier" ≡ none
          → wire.send (token_request wire p form) ≡ ok a
          → nat_eq a.status_code 200 ≡ false)
      → ¬ ((handle_callback c (google wire p) r w).0.status ≡ 307)
  unfolding google exchange_code get
  handle_callback-unproven c r w refuses redirected =
      let (cookie, filled, t, i, o, v, exchanged, told, account, rest) =
        handle_callback_sound c (google wire p) r w redirected in
      let form = exchange_form wire p (r.query "code") "" (redirect_uri c (google wire p)) in
      let no : false ≡ true =
        refused_answer (wire.send (token_request wire p form)) "failed to exchange token" t
          (exchange_tokens wire p) (λ a e. refuses form a refl refl e) exchanged in
      absurd (ground arith)
