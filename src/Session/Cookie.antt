-- ===== src/Session/Cookie.antt =====
-- session/cookie_store.go: signed tokens that hold the session.
-- The JSON of a payload, raw URL base64 and the keyed hash are the fields of `CookieCodec`.
pub mod Tokens
pub mod Signed
use Prim.Native.Char.{code}
use beacon_auth.Prelude.{
  ℕ, ◌/◌, ℤ, sub_ℕ, String, str_append, Bool, true, false, Option, none, some, List, [], ◌∷◌, ltb,
  nat_eq, ◌==◌, if◌then◌else◌,
}
use beacon_auth.Core.Value.{Time, after}
use beacon_auth.Core.Types.{Error, failed, Result, ok, err, Session, User}
use beacon_auth.Core.World.{World, Act, pure, fail, read_clock, now, continue, ◌>>=◌}
use beacon_auth.Internal.{Lookup}

-- `t.Unix()`: the seconds since 1970 of a time in nanoseconds since the year 1.
abbrev pub unix : Time → ℤ
unix t = sub_ℕ (t.instant / 1000000000) 62135596800

-- `cookiePayload`; a payload whose session is null makes `Get` panic and is left out.
pub record CookiePayload : Type 0 where
  pub session : Session
  pub user : Option User
  pub issuer : String
  pub issued_at : ℤ

pub record CookieCodec : Type 0 where
  pub marshal : CookiePayload → Result String
  pub unmarshal : String → Result CookiePayload
  pub base64 : String → String
  pub unbase64 : String → Result String
  pub mac : String → String → String

pub record CookieStore : Type 0 where
  pub secret : String
  pub issuer : String
  pub codec : CookieCodec

-- strings.Split(token, ".")
abbrev onto_first : List String → (String → String) → List String
onto_first [] f = []
onto_first (s ∷ ss) f = f s ∷ ss

unfoldable pub split_dots : String → List String
split_dots String.[] = "" ∷ []
split_dots (String.◌∷◌ c s) =
    let rest = split_dots s in
    if nat_eq (code c) b'.' then "" ∷ rest else onto_first rest (λ t. String.◌∷◌ c t)

abbrev pub no_session : Lookup
no_session = record { session = none; user = none; error = none }

abbrev pub lookup_error : Error → Lookup
lookup_error e = record { session = none; user = none; error = some e }

abbrev pub lookup_found : Session → Option User → Lookup
lookup_found s u = record { session = some s; user = u; error = none }

module _ (c : CookieStore) where
  unfoldable pub sign : String → String
  sign payload = c.codec.mac c.secret payload

  -- What a payload with a good signature decodes to.
  abbrev pub decode : String → Result CookiePayload
  decode payload = elim (c.codec.unbase64 payload) [
    | err e ↦ err (failed "failed to decode payload")
    | ok bytes ↦ elim (c.codec.unmarshal bytes) [
      | err e ↦ err (failed "failed to unmarshal payload")
      | ok p ↦ ok p
    ]
  ]

  module _ {S R : Type 0} where
    -- The issuer and the expiry, last of all.
    abbrev pub check_payload : Result CookiePayload → World S R → Lookup × World S R
    check_payload (err e) w = (lookup_error e, w)
    check_payload (ok p) w =
        if p.issuer == c.issuer
        then (let (t, w') = read_clock w in
            (
              if after t p.session.expires_at then no_session else lookup_found p.session p.user,
              w',
            ))
        else (lookup_error (failed "invalid issuer"), w)

    abbrev pub get_parts : List String → World S R → Lookup × World S R
    get_parts (payload ∷ signature ∷ []) w =
        if signature == sign payload
        then check_payload (decode payload) w
        else (lookup_error (failed "invalid token signature"), w)
    get_parts _ w = (lookup_error (failed "invalid token format"), w)

    unfoldable pub get_cookie : String → World S R → Lookup × World S R
    unfolding sign
    get_cookie token w = get_parts (split_dots token) w

    unfoldable pub create_token : Session → Option User → Act S R String
    unfolding sign
    create_token s u w =
        let (t, w') = read_clock w in
        elim (c.codec.marshal
          (record { session = s; user = u; issuer = c.issuer; issued_at = unix t })) [
            | err e ↦ (err (failed "failed to marshal payload"), w')
            | ok bytes ↦ (
              ok (str_append (c.codec.base64 bytes) (str_append "." (sign (c.codec.base64 bytes)))),
              w',
            )
          ]
