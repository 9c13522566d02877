-- ===== src/Plugins/EmailPassword/NewUser.antt =====
-- plugins/emailpassword/emailpassword.go: what a successful registration has done.
use beacon_auth.Prelude.{
  ℕ, String, ◌≡◌, refl, sym, ap, ◌∙◌, subst, Option, none, some, arith, ltb, length, ◌==◌, ◌||◌,
  Bool-cases, Option-cases, inl, inr,
}
use beacon_auth.Core.Types.{Error, Result-cases, ok, err, User, Account}
use beacon_auth.Core.World.{World, read_random}
use beacon_auth.Core.Encoding.{string_bytes}
use beacon_auth.Core.Contract.{Contract}
use beacon_auth.Internal.{find_user_by_email, user_query, create_user, create_credential_account}
use beacon_auth.Internal.Accounts.{first_row, find_by_email_run}
use beacon_auth.Plugins.Context.{AuthContext, Answer}
use beacon_auth.Plugins.EmailPassword.{
  RegisterRequest, handle_register, if_free, with_hash, create_session_and_response,
}

module _ {S R : Type 0} (p : AuthContext S R) (laws : Contract p.data_manager.adapter) where
  -- What has happened when handleRegister answers 200.
  pub record IsRegistered (q : RegisterRequest) (w v : World S R) : Type 0 where
    pub free :
        first_row p.data_manager laws w.db "users" (user_query "email" q.email).clauses ≡ none
    pub salt : Option (ℕ → ℕ)
    pub hash : String
    pub hashed : p.hasher.hash q.password salt ≡ ok hash
    pub user : User
    pub account : Account
    pub start : World S R
    pub middle : World S R
    pub last : World S R
    pub same_db : start.db ≡ w.db
    pub new_user : create_user p.data_manager q.email q.name start ≡ (ok user, middle)
    pub new_account :
        create_credential_account p.data_manager user.id q.email hash middle ≡ (ok account, last)
    pub after : v ≡ (create_session_and_response p user.id (some user) last).1

  pub find_run :
      (email : String) (w : World S R) → (find_user_by_email p.data_manager email w).1 ≡ w
  unfolding find_user_by_email
  find_run email w = ground (arith, laws.find_one_run (user_query "email" email) w.db)

  with_hash-200 :
      (q : RegisterRequest) (hash : String) (start : World S R)
      → (with_hash p q (ok hash) start).0.status ≡ 200
      → (user : User) × (account : Account) × (middle : World S R) × (last : World S R)
        × (create_user p.data_manager q.email q.name start ≡ (ok user, middle))
        × (create_credential_account p.data_manager user.id q.email hash middle
            ≡ (ok account, last))
        × (with_hash p q (ok hash) start ≡ create_session_and_response p user.id (some user) last)
  with_hash-200 q hash start h =
      elim (Result-cases (create_user p.data_manager q.email q.name start).0) [
        | inr (e, x) ↦ absurd (ground arith)
        | inl (user, x) ↦
            (let middle = (create_user p.data_manager q.email q.name start).1 in
              elim (Result-cases
                (create_credential_account p.data_manager user.id q.email hash middle).0) [
                  | inr (e, y) ↦ absurd (ground arith)
                  | inl (account, y) ↦ (
                    user,
                    account,
                    middle,
                    (create_credential_account p.data_manager user.id q.email hash middle).1,
                    ground arith,
                    ground arith,
                    ground arith,
                  )
                ])
      ]

  -- A search that fails has found no row.
  free_row :
      (email : String) (w : World S R) (e : Error)
      → (find_user_by_email p.data_manager email w).0 ≡ err e
      → first_row p.data_manager laws w.db "users" (user_query "email" email).clauses ≡ none
  free_row email w e h =
      elim (Option-cases
        (first_row p.data_manager laws w.db "users" (user_query "email" email).clauses)) [
          | inl f ↦ f
          | inr (r, f) ↦ absurd (ground (arith, find_by_email_run p.data_manager laws email w))
        ]

  if_free-IsRegistered :
      (q : RegisterRequest) (w : World S R)
      → (if_free p q (find_user_by_email p.data_manager q.email w)).0.status ≡ 200
      → IsRegistered q w (if_free p q (find_user_by_email p.data_manager q.email w)).1
  if_free-IsRegistered q w h = elim (Result-cases (find_user_by_email p.data_manager q.email w).0) [
    | inl (u, f) ↦ absurd (ground arith)
    | inr (e, f) ↦
        (let start = (read_random w).1 in
          let same = find_run q.email w in
          elim (Result-cases (p.hasher.hash q.password (w.entropy 0))) [
            | inr (x, k) ↦ absurd (ground arith)
            | inl (hash, k) ↦
                (let run : if_free p q (find_user_by_email p.data_manager q.email w)
                      ≡ with_hash p q (ok hash) start =
                    ground arith in
                  let (user, account, middle, last, x, y, z) =
                    with_hash-200 q hash start (rw run at h) in
                  record {
                    free = free_row q.email w e f;
                    salt = w.entropy 0;
                    hash = hash;
                    hashed = k;
                    user = user;
                    account = account;
                    start = start;
                    middle = middle;
                    last = last;
                    same_db = refl;
                    new_user = x;
                    new_account = y;
                    after = ap (λ (k : Answer × World S R). k.1) (run ∙ z);
                  })
          ])
  ]

  pub handle_register-IsRegistered :
      (q : RegisterRequest) (w : World S R)
      → (handle_register p (ok q) w).0.status ≡ 200
      → IsRegistered q w (handle_register p (ok q) w).1
  unfolding handle_register
  handle_register-IsRegistered q w h = elim (Bool-cases (q.email == "" || q.password == "")) [
    | inl x ↦ absurd (ground arith)
    | inr x ↦ elim (Bool-cases (ltb (length (string_bytes q.password)) p.min_password_length)) [
      | inl y ↦ absurd (ground arith)
      | inr y ↦
          (let run : handle_register p (ok q) w
                ≡ if_free p q (find_user_by_email p.data_manager q.email w) =
              ground arith in
            subst (IsRegistered q w) (ap (λ (k : Answer × World S R). k.1) (sym run)) (
              if_free-IsRegistered q w (ap (λ (k : Answer × World S R). k.0.status) (sym run) ∙ h)))
    ]
  ]
