-- ===== src/Plugins/GitHub/Vouched.antt =====
-- plugins/oauth/providers/github.go: the addresses that GitHub vouches for.
use beacon_auth.Prelude.{
  String, ◌≡◌, refl, sym, ap, ◌∙◌, subst, Bool, true, false, ◌&&◌, ◌||◌, Option, none, some, List,
  [], ◌∷◌, All, first, first-All, first_sound, arith, ◌==◌, if◌then◌else◌, eq_refl, Bool-cases,
  Option-cases, inl, inr, nat_eq,
}
use beacon_auth.Prelude.Dict.{get}
use beacon_auth.Core.Value.{Value, nil, str, int, bool, time, time_ptr, list, object, Record}
use beacon_auth.Core.Types.{Result, Result-cases, ok, err}
use beacon_auth.Plugins.OAuth.{OAuthUserInfo}
use beacon_auth.Plugins.Requests.{HttpResponse, authorized}
use beacon_auth.Plugins.GitHub.{
  GitHubEmail, Wire, GitHubProvider, primary_address, or_address, listed_address, decoded_address,
  profile_address, user_info, with_emails, with_user, with_profile, get_user_info,
}

-- The list has the address, and marks it as verified.
abbrev pub lists : String → List GitHubEmail → Bool
lists x [] = false
lists x (e ∷ es) = e.verified && e.email == x || lists x es

listed_verified :
    (all es : List GitHubEmail)
    → ((x : String) → lists x es ≡ true → lists x all ≡ true)
    → All (λ (e : GitHubEmail). e.verified ≡ true → lists e.email all ≡ true) es
listed_verified all [] h = tt
listed_verified all (e ∷ es) h = (
  λ v. h e.email (ground (arith, eq_refl e.email)),
  listed_verified all es (λ x k. h x (ground (arith, k))),
)

first-lists :
    (p : GitHubEmail → Bool) (es : List GitHubEmail) (e : GitHubEmail)
    → first p es ≡ some e
    → e.verified ≡ true
    → lists e.email es ≡ true
first-lists p es e f =
    first-All (λ (e : GitHubEmail). e.verified ≡ true → lists e.email es ≡ true) p es e
      (listed_verified es es (λ x k. k)) f

or_address-lists :
    (a : String × Bool) (es : List GitHubEmail)
    → (a.1 ≡ true → lists a.0 es ≡ true)
    → (or_address a (first (λ e. e.verified) es)).1 ≡ true
    → lists (or_address a (first (λ e. e.verified) es)).0 es ≡ true
or_address-lists a es h = elim (Option-cases (first (λ e. e.verified) es)) [
  | inl n ↦ rw n h
  | inr (e, s) ↦
      rw s (λ v. first-lists (λ e. e.verified) es e s (first_sound (λ e. e.verified) es e s))
]

primary_address-lists :
    (es : List GitHubEmail)
    → (primary_address (first (λ e. e.primary) es)).1 ≡ true
    → lists (primary_address (first (λ e. e.primary) es)).0 es ≡ true
primary_address-lists es = elim (Option-cases (first (λ e. e.primary) es)) [
  | inl n ↦ rw n (λ v. ground arith)
  | inr (e, s) ↦ rw s (first-lists (λ e. e.primary) es e s)
]

listed_address-lists :
    (es : List GitHubEmail) → (listed_address es).1 ≡ true → lists (listed_address es).0 es ≡ true
unfolding listed_address
listed_address-lists es =
    let a = primary_address (first (λ e. e.primary) es) in
    elim (Bool-cases (a.0 == "")) [
      | inl t ↦ rw t (or_address-lists a es (primary_address-lists es))
      | inr f ↦ rw f (primary_address-lists es)
    ]

profile_address_kept :
    (a : String × Bool) (v : Option Value)
    → (profile_address a v).1 ≡ true
    → profile_address a v ≡ a
profile_address_kept a none h = refl
profile_address_kept a (some nil) h = refl
profile_address_kept a (some (str s)) h = absurd (ground arith)
profile_address_kept a (some (int n)) h = refl
profile_address_kept a (some (bool b)) h = refl
profile_address_kept a (some (time t)) h = refl
profile_address_kept a (some (time_ptr t)) h = refl
profile_address_kept a (some (list xs)) h = refl
profile_address_kept a (some (object fs)) h = refl

ok_inj : {x y : OAuthUserInfo} → Path (Result OAuthUserInfo) (ok x) (ok y) → x ≡ y
ok_inj {x} e = ap (λ (r : Result OAuthUserInfo). elim r [ ok i ↦ i | err f ↦ x ]) e

module _ (wire : Wire) (p : GitHubProvider) where
  user_info_kept :
      (user : Record) (a : String × Bool)
      → (user_info wire p user a).email_verified ≡ true
      → ((user_info wire p user a).email ≡ a.0) × (a.1 ≡ true)
  unfolding user_info
  user_info_kept user a = elim (Bool-cases (a.0 == "")) [
    | inl t ↦ rw t (λ h.
        let e = profile_address_kept a (get user "email") h in
        (ap (λ x. x.0) e, ap (λ x. x.1) (sym e) ∙ h))
    | inr f ↦ rw f (λ h. (refl, h))
  ]

  -- GitHub has answered with a list of addresses that marks the address as verified.
  abbrev pub Vouched : Result HttpResponse → String → Type 0
  Vouched x email =
      (a : HttpResponse) × (es : List GitHubEmail) × (x ≡ ok a)
      × (nat_eq a.status_code 200 ≡ true)
      × (wire.decode_emails a.body ≡ ok es)
      × (lists email es ≡ true)

  decoded-Vouched :
      (a : HttpResponse)
      → (if nat_eq a.status_code 200
          then decoded_address (wire.decode_emails a.body)
          else ("", false)).1
        ≡ true
      → Vouched
          (ok a)
          (if nat_eq a.status_code 200
            then decoded_address (wire.decode_emails a.body)
            else ("", false)).0
  decoded-Vouched a = elim (Bool-cases (nat_eq a.status_code 200)) [
    | inl t ↦ elim (Result-cases (wire.decode_emails a.body)) [
      | inl (es, d) ↦ rw (t, d) (λ h. (a, es, refl, t, d, listed_address-lists es h))
      | inr (e, d) ↦ rw (t, d) (λ h. absurd (ground arith))
    ]
    | inr f ↦ rw f (λ h. absurd (ground arith))
  ]

  with_emails-Vouched :
      (user : Record) (x : Result HttpResponse) (info : OAuthUserInfo)
      → with_emails wire p user x ≡ ok info
      → info.email_verified ≡ true
      → Vouched x info.email
  with_emails-Vouched user (err e) info h v = absurd (ground arith)
  with_emails-Vouched user (ok a) info h v =
      subst (λ i. i.email_verified ≡ true → Vouched (ok a) i.email) (ok_inj h)
        (λ k.
          let kept = user_info_kept user _ k in
          subst (Vouched (ok a)) (sym kept.0) (decoded-Vouched a kept.1))
        v

  with_user-Vouched :
      (token : String) (u : Result Record) (info : OAuthUserInfo)
      → with_user wire p token u ≡ ok info
      → info.email_verified ≡ true
      → Vouched (wire.send (authorized "https://api.github.com/user/emails" token)) info.email
  with_user-Vouched token (err e) info h v = absurd (ground arith)
  with_user-Vouched token (ok user) info h v = with_emails-Vouched user _ info h v

  with_profile-Vouched :
      (token : String) (x : Result HttpResponse) (info : OAuthUserInfo)
      → with_profile wire p token x ≡ ok info
      → info.email_verified ≡ true
      → Vouched (wire.send (authorized "https://api.github.com/user/emails" token)) info.email
  with_profile-Vouched token (err e) info = λ h v. absurd (ground arith)
  with_profile-Vouched token (ok a) info = elim (Bool-cases (nat_eq a.status_code 200)) [
    | inl t ↦ rw t (λ h v. with_user-Vouched token (wire.decode_user a.body) info h v)
    | inr f ↦ rw f (λ h v. absurd (ground arith))
  ]

  -- If GetUserInfo of the GitHub provider says that the address of a user is verified, then GitHub
  -- answered the request for the addresses, sent with the access token, with status 200 and a list
  -- that has this address and marks it as verified.
  pub get_user_info_sound :
      (token : String) (info : OAuthUserInfo)
      → get_user_info wire p token ≡ ok info
      → info.email_verified ≡ true
      → Vouched (wire.send (authorized "https://api.github.com/user/emails" token)) info.email
  unfolding get_user_info
  get_user_info_sound token info h v =
      with_profile-Vouched token (wire.send (authorized "https://api.github.com/user" token)) info h
        v
