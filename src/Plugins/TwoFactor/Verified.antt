-- ===== src/Plugins/TwoFactor/Verified.antt =====
-- plugins/twofa/twofa.go: what a verified request has shown.
use beacon_auth.Prelude.{
  String, ◌≡◌, refl, true, Option, none, some, arith, ◌⊎◌, inl, inr, ◌==◌, ◌||◌, Bool-cases,
  Option-cases,
}
use beacon_auth.Prelude.Dict.{get}
use beacon_auth.Core.Value.{Value, str, bool, Record}
use beacon_auth.Core.Types.{Result, Result-cases, ok, err, User}
use beacon_auth.Core.World.{World, read_clock}
use beacon_auth.Internal.{find_user_by_email}
use beacon_auth.Plugins.Context.{AuthContext}
use beacon_auth.Plugins.FactorRows.{get_secret, check_backup_code, text_of, flag_of}
use beacon_auth.Plugins.TwoFactor.{Totp, VerifyRequest, handle_verify, verify_code}

text_of-some : (v : Option Value) (s : String) → text_of v ≡ some s → v ≡ some (str s)
text_of-some none s h = absurd (ground arith)
text_of-some (some v) s h = ground arith

flag_of-true : (v : Option Value) → flag_of v ≡ true → v ≡ some (bool true)
flag_of-true none h = absurd (ground arith)
flag_of-true (some v) h = ground arith

module _ {S R : Type 0} (p : AuthContext S R) (totp : Totp) where
  -- A user who has enrolled, and a code that is right.
  pub record IsVerified (body : Result VerifyRequest) (w : World S R) : Type 0 where
    pub asked : VerifyRequest
    pub user : User
    pub row : Record
    pub secret : String
    pub before : World S R
    pub after : World S R
    pub read : body ≡ ok asked
    pub found : find_user_by_email p.data_manager asked.email w ≡ (ok user, before)
    pub enabled : user.two_factor_enabled ≡ true
    pub enrolled : get_secret p user.id before ≡ (ok (some row), after)
    pub confirmed : get row "confirmed" ≡ some (bool true)
    pub has_secret : get row "secret" ≡ some (str secret)
    pub right :
        (totp.validate asked.code secret (after.clock 0) ≡ true)
        ⊎ ((check_backup_code p user.id asked.code (read_clock after).1).0 ≡ true)

  verify_code-200 :
      (code : String) (user : User) (v : Option Value) (w : World S R)
      → (verify_code p totp code user (text_of v) w).0.status ≡ 200
      → (secret : String) × (v ≡ some (str secret))
        × ((totp.validate code secret (w.clock 0) ≡ true)
            ⊎ ((check_backup_code p user.id code (read_clock w).1).0 ≡ true))
  verify_code-200 code user v w h = elim (Option-cases (text_of v)) [
    | inl e ↦ absurd (ground arith)
    | inr (secret, e) ↦ (
      secret,
      text_of-some v secret e,
      elim (Bool-cases (totp.validate code secret (w.clock 0))) [
        | inl x ↦ inl x
        | inr x ↦ elim (Bool-cases (check_backup_code p user.id code (read_clock w).1).0) [
          | inl y ↦ inr y
          | inr y ↦ absurd (ground arith)
        ]
      ],
    )
  ]

  -- handleVerify answers 200 only for a user with the given address who has two-factor authentication
  -- enabled and a confirmed secret, and only if the code is a TOTP code of that secret at the time of the
  -- request, or an unused backup code of the user is found.
  pub handle_verify-IsVerified :
      (body : Result VerifyRequest) (w : World S R)
      → (handle_verify p totp body w).0.status ≡ 200
      → IsVerified body w
  unfolding handle_verify
  handle_verify-IsVerified (err e) w h = absurd (ground arith)
  handle_verify-IsVerified (ok q) w h = elim (Bool-cases (q.email == "" || q.code == "")) [
    | inl x ↦ absurd (ground arith)
    | inr x ↦ elim (Result-cases (find_user_by_email p.data_manager q.email w).0) [
      | inr (e, u) ↦ absurd (ground arith)
      | inl (user, u) ↦
          (let before = (find_user_by_email p.data_manager q.email w).1 in
            elim (Bool-cases user.two_factor_enabled) [
              | inr y ↦ absurd (ground arith)
              | inl y ↦ elim (Result-cases (get_secret p user.id before).0) [
                | inr (e, s) ↦ absurd (ground arith)
                | inl (o, s) ↦ elim (Option-cases o) [
                  | inl n ↦ absurd (ground arith)
                  | inr (row, n) ↦ elim (Bool-cases (flag_of (get row "confirmed"))) [
                    | inr c ↦ absurd (ground arith)
                    | inl c ↦
                        (let after = (get_secret p user.id before).1 in
                          let (secret, t, r) =
                            verify_code-200 q.code user (get row "secret") after (ground arith) in
                          record {
                            asked = q;
                            user = user;
                            row = row;
                            secret = secret;
                            before = before;
                            after = after;
                            read = refl;
                            found = ground arith;
                            enabled = y;
                            enrolled = ground arith;
                            confirmed = flag_of-true (get row "confirmed") c;
                            has_secret = t;
                            right = r;
                          })
                  ]
                ]
              ]
            ])
    ]
  ]
