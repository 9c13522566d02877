-- ===== src/Session/Cookie/Signed.antt =====
-- session/cookie_store.go: what a signed token guarantees.
use beacon_auth.Prelude.{
  String, str_append, ◌≡◌, ◌≤◌, refl, ap, subst, true, Option, some, List, [], ◌∷◌, arith, ◌==◌,
  eq_iff, eq_refl, Bool-cases, inl, inr,
}
use beacon_auth.Core.Value.{Time}
use beacon_auth.Core.Types.{Result, Result-cases, ok, err, Session, User}
use beacon_auth.Core.World.{World}
use beacon_auth.Session.Cookie.{
  CookieStore, CookiePayload, get_cookie, create_token, decode, sign, split_dots, get_parts,
  check_payload, lookup_found, unix,
}
use beacon_auth.Session.Cookie.Tokens.{join_dots, join_dots-split, split_dots-join, dot_free}

-- A token that the store has signed: a payload and its signature, with an issuer and an expiry that
-- pass at a time.
pub record IsSigned (c : CookieStore) (token : String) (t : Time) (s : Session) : Type 0 where
  pub body : String
  pub payload : CookiePayload
  pub signed : token ≡ str_append body (str_append "." (sign c body))
  pub decoded : decode c body ≡ ok payload
  pub holds : payload.session ≡ s
  pub issued : payload.issuer ≡ c.issuer
  pub unexpired : t.instant ≤ s.expires_at.instant

-- The payload of a token that is made at a time.
abbrev pub payload_of : CookieStore → Session → Option User → Time → CookiePayload
payload_of c s u t = record { session = s; user = u; issuer = c.issuer; issued_at = unix t }

module _ {S R : Type 0} (c : CookieStore) where
  check_payload-passes :
      (r : Result CookiePayload) (w : World S R) (s : Session)
      → (check_payload c r w).0.session ≡ some s
      → (p : CookiePayload) × (r ≡ ok p)
        × (p.session ≡ s)
        × (p.issuer ≡ c.issuer)
        × ((w.clock 0).instant ≤ s.expires_at.instant)
  check_payload-passes (err e) w s h = absurd (ground arith)
  check_payload-passes (ok p) w s h =
      (p, refl, ground arith, ground (arith, eq_iff p.issuer c.issuer), ground arith)

  get_parts-IsSigned :
      (parts : List String) (w : World S R) (s : Session)
      → (get_parts c parts w).0.session ≡ some s
      → IsSigned c (join_dots parts) (w.clock 0) s
  get_parts-IsSigned [] w s h = absurd (ground arith)
  get_parts-IsSigned (a ∷ []) w s h = absurd (ground arith)
  get_parts-IsSigned (a ∷ b ∷ []) w s h = elim (Bool-cases (b == sign c a)) [
    | inl e ↦
        let (p, d, same, issuer, alive) = check_payload-passes (decode c a) w s (ground arith) in
        record {
          body = a;
          payload = p;
          signed = ap (λ k. str_append a (str_append "." k)) ((eq_iff b (sign c a)).0 e);
          decoded = d;
          holds = same;
          issued = issuer;
          unexpired = alive;
        }
    | inr e ↦ absurd (ground arith)
  ]
  get_parts-IsSigned (a ∷ b ∷ d ∷ r) w s h = absurd (ground arith)

  -- The cookie store returns a session only for a token that is a payload and the signature of that
  -- payload under the store's secret, where the payload holds that session, comes from the store's
  -- issuer and has not expired.
  pub get_cookie-IsSigned :
      (token : String) (w : World S R) (s : Session)
      → (get_cookie c token w).0.session ≡ some s
      → IsSigned c token (w.clock 0) s
  unfolding get_cookie
  get_cookie-IsSigned token w s h =
      subst (λ k. IsSigned c k (w.clock 0) s) (join_dots-split token)
        (get_parts-IsSigned (split_dots token) w s h)

  -- The token that CreateToken makes gives back the session and the user, until the session has
  -- expired: if marshalling and base64 lose nothing on this payload, and neither base64 nor the
  -- signature has a dot.
  pub get_cookie-create_token :
      (s : Session) (u : Option User) (w v : World S R) (token : String)
      → create_token c s u w ≡ (ok token, v)
      → ((text : String)
          → c.codec.marshal (payload_of c s u (w.clock 0)) ≡ ok text
          → decode c (c.codec.base64 text) ≡ ok (payload_of c s u (w.clock 0)))
      → ((text : String) → dot_free (c.codec.base64 text) ≡ true)
      → ((key text : String) → dot_free (c.codec.mac key text) ≡ true)
      → (v.clock 0).instant ≤ s.expires_at.instant
      → (get_cookie c token v).0 ≡ lookup_found s u
  unfolding get_cookie create_token
  get_cookie-create_token s u w v token h round b m alive =
      elim (Result-cases (c.codec.marshal (payload_of c s u (w.clock 0)))) [
        | inl (text, e) ↦
            let body = c.codec.base64 text in
            let made : token ≡ str_append body (str_append "." (sign c body)) = ground arith in
            rw made (
              rw (split_dots-join body (sign c body) (b text) (m c.secret body))
                (ground (arith, eq_refl (sign c body), eq_refl c.issuer, round text)))
        | inr (x, e) ↦ absurd (ground arith)
      ]
