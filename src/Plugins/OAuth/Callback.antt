-- ===== src/Plugins/OAuth/Callback.antt =====
-- plugins/oauth/oauth.go: what the callback needs, and what it does not look at.
use beacon_auth.Prelude.{
  String, ◌≡◌, refl, sym, ap, ◌∙◌, Bool, false, Option, none, some, arith, Bool-cases, Option-cases,
  inl, inr, ◌==◌, eq_iff,
}
use beacon_auth.Core.Types.{
  user_not_found, session_not_found, failed, Result, Result-cases, ok, err, User, Account,
}
use beacon_auth.Core.World.{World}
use beacon_auth.Internal.{find_user_by_email, find_account_by_provider, create_user}
use beacon_auth.Plugins.Context.{AuthContext, Answer}
use beacon_auth.Plugins.OAuth.{
  OAuthProvider, OAuthTokens, OAuthUserInfo, CallbackRequest, handle_callback, accepted,
  with_tokens, with_info, with_found, with_user, with_new_user, link_account, redirect_uri,
  start_session, clearing,
}

abbrev pub vouched : Bool → Result OAuthUserInfo → Result OAuthUserInfo
vouched b (err e) = err e
vouched b (ok i) = ok (record i { email_verified = b })

-- The provider that says of every address what `b` says.
abbrev pub vouching : Bool → OAuthProvider → OAuthProvider
vouching b q = record q { get_user_info = λ token. vouched b (q.get_user_info token) }

module _ {S R : Type 0} (p : AuthContext S R) (b : Bool) (q : OAuthProvider) (t : OAuthTokens) where
  with_new_user-vouching :
      (i : OAuthUserInfo) (x : Result User × World S R)
      → with_new_user p (vouching b q) t (record i { email_verified = b }) x
        ≡ with_new_user p q t i x
  unfolding link_account
  with_new_user-vouching i (err e, w) = refl
  with_new_user-vouching i (ok user, w) = refl

  with_user-vouching :
      (i : OAuthUserInfo) (x : Result User × World S R)
      → with_user p (vouching b q) t (record i { email_verified = b }) x ≡ with_user p q t i x
  unfolding link_account
  with_user-vouching i (ok user, w) = refl
  with_user-vouching i (err user_not_found, w) =
      with_new_user-vouching i (create_user p.data_manager i.email i.name w)
  with_user-vouching i (err session_not_found, w) = refl
  with_user-vouching i (err (failed e), w) = refl

  with_found-vouching :
      (i : OAuthUserInfo) (x : Result (Option Account) × World S R)
      → with_found p (vouching b q) t (record i { email_verified = b }) x ≡ with_found p q t i x
  with_found-vouching i (err e, w) = refl
  with_found-vouching i (ok (some a), w) = refl
  with_found-vouching i (ok none, w) = elim (Bool-cases (i.email == "")) [
    | inl h ↦ rw h (with_new_user-vouching i (create_user p.data_manager i.email i.name w))
    | inr h ↦ rw h (with_user-vouching i (find_user_by_email p.data_manager i.email w))
  ]

  with_info-vouching :
      (x : Result OAuthUserInfo) (w : World S R)
      → with_info p (vouching b q) t (vouched b x) w ≡ with_info p q t x w
  with_info-vouching (err e) w = refl
  with_info-vouching (ok i) w =
      with_found-vouching i (find_account_by_provider p.data_manager q.id i.id w)

module _ {S R : Type 0} (p : AuthContext S R) where
  with_tokens-vouching :
      (b : Bool) (q : OAuthProvider) (x : Result OAuthTokens) (w : World S R)
      → with_tokens p (vouching b q) x w ≡ with_tokens p q x w
  with_tokens-vouching b q (err e) w = refl
  with_tokens-vouching b q (ok t) w = with_info-vouching p b q t (q.get_user_info t.access_token) w

  accepted-vouching :
      (b : Bool) (q : OAuthProvider) (given : String) (w : World S R)
      → accepted p (vouching b q) given w ≡ accepted p q given w
  unfolding accepted redirect_uri
  accepted-vouching b q given w = elim (Bool-cases (given == "")) [
    | inl h ↦ rw h refl
    | inr h ↦ rw h (with_tokens-vouching b q (q.exchange_code given "" (redirect_uri p q)) w)
  ]

  -- handleCallback does the same whatever the provider says about the verification of addresses: for
  -- a provider that answers the same but calls every address verified, or none, the answer and the next
  -- state are the same.
  pub handle_callback-vouching :
      (b : Bool) (q : OAuthProvider) (r : CallbackRequest) (w : World S R)
      → handle_callback p (vouching b q) r w ≡ handle_callback p q r w
  unfolding handle_callback
  handle_callback-vouching b q r w = elim (Option-cases (r.cookie "oauth_state")) [
    | inl c ↦ rw c refl
    | inr (state, c) ↦ elim (Bool-cases (state == r.query "state")) [
      | inl h ↦ rw (c, h) (ap (clearing p) (accepted-vouching b q (r.query "code") w))
      | inr h ↦ rw (c, h) refl
    ]
  ]

  -- From an accepted state on.
  accepted_sound :
      (q : OAuthProvider) (given : String) (w : World S R)
      → (accepted p q given w).0.status ≡ 307
      → ((given == "") ≡ false)
        × (t : OAuthTokens) × (i : OAuthUserInfo) × (o : Option Account) × (q.exchange_code given ""
              (redirect_uri p q)
            ≡ ok t)
        × (q.get_user_info t.access_token ≡ ok i)
        × ((find_account_by_provider p.data_manager q.id i.id w).0 ≡ ok o)
        × (accepted p q given w
            ≡ with_found p q t i (ok o, (find_account_by_provider p.data_manager q.id i.id w).1))
  unfolding accepted
  accepted_sound q given w h = elim (Bool-cases (given == "")) [
    | inl empty ↦ absurd (ground arith)
    | inr filled ↦ elim (Result-cases (q.exchange_code given "" (redirect_uri p q))) [
      | inr (e, x) ↦ absurd (ground arith)
      | inl (t, x) ↦ elim (Result-cases (q.get_user_info t.access_token)) [
        | inr (e, y) ↦ absurd (ground arith)
        | inl (i, y) ↦ elim (Result-cases (find_account_by_provider p.data_manager q.id i.id w).0) [
          | inr (e, z) ↦ absurd (ground arith)
          | inl (o, z) ↦ (filled, t, i, o, x, y, z, ground arith)
        ]
      ]
    ]
  ]

  -- handleCallback redirects a request (307) only if its oauth_state cookie is the state in its URL and
  -- there is a code, and the provider has exchanged the code and told who the user is. If there is an
  -- account of that identity, the session is one of the account's user.
  pub handle_callback_sound :
      (q : OAuthProvider) (r : CallbackRequest) (w : World S R)
      → (handle_callback p q r w).0.status ≡ 307
      → (r.cookie "oauth_state" ≡ some (r.query "state"))
        × ((r.query "code" == "") ≡ false)
        × (t : OAuthTokens) × (i : OAuthUserInfo) × (o : Option Account) × (v : World S R)
        × (q.exchange_code (r.query "code") "" (redirect_uri p q) ≡ ok t)
        × (q.get_user_info t.access_token ≡ ok i)
        × (find_account_by_provider p.data_manager q.id i.id w ≡ (ok o, v))
        × ((a : Account)
            → o ≡ some a
            → handle_callback p q r w ≡ clearing p (start_session p a.user_id v))
  unfolding handle_callback
  handle_callback_sound q r w h = elim (Option-cases (r.cookie "oauth_state")) [
    | inl c ↦ absurd (ground arith)
    | inr (state, c) ↦ elim (Bool-cases (state == r.query "state")) [
      | inr x ↦ absurd (ground arith)
      | inl x ↦
          (let run : handle_callback p q r w ≡ clearing p (accepted p q (r.query "code") w) =
              rw (c, x) refl in
            let (filled, t, i, o, y, z, f, last) =
              accepted_sound q (r.query "code") w
                (ap (λ (k : Answer × World S R). k.0.status) (sym run) ∙ h) in
            (
              ground (arith, eq_iff state (r.query "state")),
              filled,
              t,
              i,
              o,
              (find_account_by_provider p.data_manager q.id i.id w).1,
              y,
              z,
              ground arith,
              λ a e.
                  run
                  ∙ ap (clearing p) (
                      last
                      ∙ ap
                          (λ k.
                            with_found p q t i
                              (ok k, (find_account_by_provider p.data_manager q.id i.id w).1))
                          e),
            ))
    ]
  ]
