-- ===== src/Auth/SignIn.antt =====
-- auth/handlers.go: who is signed in, and what the other answers are.
use beacon_auth.Prelude.{
  String, ◌≡◌, ap, subst, Bool, true, ◌&&◌, not, Option, none, some, arith, ◌==◌, Bool-cases,
  Option-cases, inl, inr,
}
use beacon_auth.Prelude.Dict.{get}
use beacon_auth.Core.Value.{Value, str, Record}
use beacon_auth.Core.Types.{Result, Result-cases, ok, err, User}
use beacon_auth.Core.World.{World}
use beacon_auth.Core.Contract.{Contract}
use beacon_auth.Internal.{find_user_by_email, user_query}
use beacon_auth.Internal.Rows.{map_to_user}
use beacon_auth.Internal.Accounts.{first_row, find_by_email_run}
use beacon_auth.Auth.{
  Handler, sign_in, sign_in_body, with_credentials, verified, start_session, get_user_password_hash,
  stored_hash, password_of, passes, credential_query,
}
use beacon_auth.Auth.Http.{Request, SignInRequest}

-- A request of a user who is in the database, has a credential account there, and has given a
-- password that its hash accepts; with a verified address where that is required.
pub record IsAuthenticated {S R : Type 0} (h : Handler S R) (laws : Contract h.internal.adapter)
    (r : Request SignInRequest) (s : S) : Type 0 where
  pub asked : SignInRequest
  pub user_row : Record
  pub account_row : Record
  pub hash : String
  pub read : r.body ≡ ok asked
  pub has_user :
      first_row h.internal laws s "users" (user_query "email" asked.email).clauses ≡ some user_row
  pub has_account :
      first_row h.internal laws s "accounts" (credential_query (map_to_user user_row).id).clauses
      ≡ some account_row
  pub has_hash : get account_row "password" ≡ some (str hash)
  pub accepted : h.hasher.verify asked.password hash ≡ ok true
  pub verified_email :
      h.config.require_verification ≡ true → (map_to_user user_row).email_verified ≡ true

password_of-ok : (v : Option Value) (hash : String) → password_of v ≡ ok hash → v ≡ some (str hash)
password_of-ok none hash e = absurd (ground arith)
password_of-ok (some v) hash e = ground arith

passes-ok : (r : Result Bool) → passes r ≡ true → r ≡ ok true
passes-ok (ok b) e = ap ok e
passes-ok (err x) e = absurd (ground arith)

module _ {S R : Type 0} (h : Handler S R) (laws : Contract h.internal.adapter) where
  pub password_hash_run :
      (user_id : String) (w : World S R)
      → get_user_password_hash h user_id w ≡ (
        stored_hash (first_row h.internal laws w.db "accounts" (credential_query user_id).clauses),
        w,
      )
  unfolding get_user_password_hash
  password_hash_run user_id w = ground (arith, laws.find_one_run (credential_query user_id) w.db)

  pub find_user_run :
      (email : String) (w : World S R) → (find_user_by_email h.internal email w).1 ≡ w
  unfolding find_user_by_email
  find_user_run email w = ground (arith, laws.find_one_run (user_query "email" email) w.db)

  -- From the check of the password on: a 200 needs a row with a hash that the password meets.
  with_credentials-200 :
      (r : Request SignInRequest) (password : String) (user : User) (w : World S R)
      → (with_credentials h r password user (get_user_password_hash h user.id w)).0.status ≡ 200
      → (row : Record) × (hash : String) × (first_row h.internal laws w.db "accounts"
            (credential_query user.id).clauses
          ≡ some row)
        × (get row "password" ≡ some (str hash))
        × (h.hasher.verify password hash ≡ ok true)
        × (h.config.require_verification ≡ true → user.email_verified ≡ true)
  unfolding start_session
  with_credentials-200 r password user w e =
      elim (Option-cases
        (first_row h.internal laws w.db "accounts" (credential_query user.id).clauses)) [
          | inl a ↦ absurd (ground (arith, password_hash_run user.id w))
          | inr (row, a) ↦ elim (Result-cases (password_of (get row "password"))) [
            | inr (x, p) ↦ absurd (ground (arith, password_hash_run user.id w))
            | inl (hash, p) ↦
                (let run : (with_credentials h r password user (get_user_password_hash h user.id w))
                      ≡ verified h r user (passes (h.hasher.verify password hash)) w =
                    rw (password_hash_run user.id w, a, p) in
                  let answered : (verified h r user (passes (h.hasher.verify password hash))
                        w).0.status
                      ≡ 200 =
                    rw run at e in
                  elim (Bool-cases (passes (h.hasher.verify password hash))) [
                    | inr v ↦ absurd (ground arith)
                    | inl v ↦ (
                      row,
                      hash,
                      a,
                      password_of-ok (get row "password") hash p,
                      passes-ok (h.hasher.verify password hash) v,
                      λ required. elim (Bool-cases user.email_verified) [
                        | inl y ↦ y
                        | inr n ↦ absurd (ground arith)
                      ],
                    )
                  ])
          ]
        ]

  -- Over an adapter that meets the contract, SignIn answers 200 only to an authenticated request:
  -- one of a user who is in the database and has a row of credentials there, whose password hash
  -- accepts the given password, and whose address is verified where that is required.
  pub sign_in-IsAuthenticated :
      (r : Request SignInRequest) (w : World S R)
      → (sign_in h r w).0.status ≡ 200
      → IsAuthenticated h laws r w.db
  unfolding sign_in start_session
  sign_in-IsAuthenticated r w e = elim (Result-cases r.body) [
    | inr (x, b) ↦ absurd (ground arith)
    | inl (q, b) ↦
        elim (Option-cases
          (first_row h.internal laws w.db "users" (user_query "email" q.email).clauses)) [
            | inl u ↦ absurd (ground (arith, find_by_email_run h.internal laws q.email w))
            | inr (u_row, u) ↦
                (let user = map_to_user u_row in
                  let found : find_user_by_email h.internal q.email w ≡ (ok user, w) =
                    ground (
                      arith,
                      find_by_email_run h.internal laws q.email w,
                      find_user_run q.email w,
                    ) in
                  let answered : (sign_in_body h r (ok q) w).0.status ≡ 200 =
                    subst (λ x. (sign_in_body h r x w).0.status ≡ 200) b e in
                  let reached : (with_credentials h r q.password user
                        (get_user_password_hash h user.id w)).0.status
                      ≡ 200 =
                    elim (Bool-cases (not (q.email == "") && not (q.password == ""))) [
                      | inl filled ↦ rw (filled, found) at answered
                      | inr empty ↦ absurd (ground arith)
                    ] in
                  let (row, hash, a, p, v, mail) =
                    with_credentials-200 r q.password user w reached in
                  record {
                    asked = q;
                    user_row = u_row;
                    account_row = row;
                    hash = hash;
                    read = b;
                    has_user = u;
                    has_account = a;
                    has_hash = p;
                    accepted = v;
                    verified_email = mail;
                  })
          ]
  ]
