-- ===== src/Auth/Registered.antt =====
-- auth/handlers.go: what a successful sign up has done.
use beacon_auth.Prelude.{
  ℕ, String, ◌≡◌, refl, sym, ap, ◌∙◌, subst, true, false, Option, none, some, arith, ◌==◌,
  Bool-cases, Option-cases, inl, inr,
}
use beacon_auth.Prelude.Dict.{get}
use beacon_auth.Core.Value.{str, Record}
use beacon_auth.Core.Types.{
  user_not_found, session_not_found, failed, Result-cases, ok, err, User, Session, Account,
}
use beacon_auth.Core.World.{World, bind-ok, pure, read_random, ◌>>=◌}
use beacon_auth.Core.Contract.{Contract}
use beacon_auth.Internal.{find_user_by_email, user_query, create_user, create_credential_account}
use beacon_auth.Internal.Rows.{map_to_user}
use beacon_auth.Internal.Accounts.{
  first_row, first_row-create, matches_one, matches_two, find_by_email_run, create_user_row,
  create_credential_account_row,
}
use beacon_auth.Session.Manager
use beacon_auth.Session.Manager.Keeps.{create-Keeps}
use beacon_auth.Auth.{
  Handler, sign_up, if_free, start_session, session_response, session_options, credential_query,
  create_user_with_password,
}
use beacon_auth.Auth.Http.{Request, SignUpRequest, auth_response, validate_sign_up}
use beacon_auth.Auth.SignIn.{find_user_run}

-- What has happened when SignUp answers 201.
pub record IsRegistered {S R : Type 0} (h : Handler S R) (r : Request SignUpRequest)
    (q : SignUpRequest) (w : World S R) : Type 0 where
  pub allowed : h.config.allow_signup ≡ true
  pub valid : validate_sign_up h.config q ≡ none
  pub free : (find_user_by_email h.internal q.email w).0 ≡ err user_not_found
  pub salt : Option (ℕ → ℕ)
  pub hash : String
  pub hashed : h.hasher.hash q.password salt ≡ ok hash
  pub user : User
  pub before : World S R
  pub unchanged : before.db ≡ w.db
  pub middle : World S R
  pub made : create_user_with_password h q.email q.name hash before ≡ (ok user, middle)
  pub last : sign_up h r w ≡ start_session h 201 r user middle

pub auth_response-user :
    (u v : User) (s t : Option Session) (a b : String)
    → auth_response (some u) s a ≡ auth_response (some v) t b
    → u ≡ v
auth_response-user u v s t a b e = ground arith

module _ {S R : Type 0} (h : Handler S R) (laws : Contract h.internal.adapter) where
  pub start_session-201 :
      (r : Request SignUpRequest) (user : User) (w : World S R)
      → (start_session h 201 r user w).0.status ≡ 201
      → (s : Session) × (token : String) × ((start_session h 201 r user w).0.body
          ≡ auth_response (some user) (some s) token)
  unfolding start_session
  start_session-201 r user w e =
      elim (Result-cases
        (Manager.create h.session_manager user.id (some (session_options h r user)) w).0) [
          | inl ((s, u, token), c) ↦ (s, token, ground arith)
          | inr (x, c) ↦ absurd (ground arith)
        ]

  -- Nothing but a free address gets to the hash, and nothing but a hash to the new user.
  if_free-201 :
      (r : Request SignUpRequest) (q : SignUpRequest) (w : World S R)
      → (if_free h r q (find_user_by_email h.internal q.email w)).0.status ≡ 201
      → ((find_user_by_email h.internal q.email w).0 ≡ err user_not_found)
        × (hash : String) × (h.hasher.hash q.password (w.entropy 0) ≡ ok hash)
        × (user : User) × (middle : World S R) × (create_user_with_password h q.email q.name hash
              (read_random w).1
            ≡ (ok user, middle))
        × (if_free h r q (find_user_by_email h.internal q.email w)
            ≡ start_session h 201 r user middle)
  if_free-201 r q w e =
      let same = find_user_run h laws q.email w in
      elim (Result-cases (find_user_by_email h.internal q.email w).0) [
        | inl (u, f) ↦ absurd (ground arith)
        | inr (session_not_found, f) ↦ absurd (ground arith)
        | inr (failed t, f) ↦ absurd (ground arith)
        | inr (user_not_found, f) ↦
            (let found : find_user_by_email h.internal q.email w ≡ (err user_not_found, w) =
                ground arith in
              elim (Result-cases (h.hasher.hash q.password (w.entropy 0))) [
                | inr (x, k) ↦ absurd (ground arith)
                | inl (hash, k) ↦
                    elim (Result-cases
                      (create_user_with_password h q.email q.name hash (read_random w).1).0) [
                        | inr (x, c) ↦ absurd (ground arith)
                        | inl (user, c) ↦ (
                          f,
                          hash,
                          k,
                          user,
                          (create_user_with_password h q.email q.name hash (read_random w).1).1,
                          ground arith,
                          ground arith,
                        )
                      ]
              ])
      ]

  pub sign_up-IsRegistered :
      (r : Request SignUpRequest) (q : SignUpRequest) (w : World S R)
      → r.body ≡ ok q
      → (sign_up h r w).0.status ≡ 201
      → IsRegistered h r q w
  unfolding sign_up
  sign_up-IsRegistered r q w b e = elim (Bool-cases h.config.allow_signup) [
    | inr a ↦ absurd (ground arith)
    | inl a ↦ elim (Option-cases (validate_sign_up h.config q)) [
      | inr (t, v) ↦ absurd (ground arith)
      | inl v ↦
          (let run : sign_up h r w ≡ if_free h r q (find_user_by_email h.internal q.email w) =
              ground arith in
            let (free, hash, k, user, middle, made, last) = if_free-201 r q w (rw run at e) in
            record {
              allowed = a;
              valid = v;
              free = free;
              salt = w.entropy 0;
              hash = hash;
              hashed = k;
              user = user;
              before = (read_random w).1;
              unchanged = refl;
              middle = middle;
              made = made;
              last = run ∙ last;
            })
    ]
  ]

  -- The two rows that a new user has.
  pub record HasRows (email hash : String) (user : User) (w : World S R) : Type 0 where
    pub user_row : Record
    pub account_row : Record
    pub from : user ≡ map_to_user user_row
    pub found_user :
        first_row h.internal laws w.db "users" (user_query "email" email).clauses ≡ some user_row
    pub found_account :
        first_row h.internal laws w.db "accounts" (credential_query user.id).clauses
        ≡ some account_row
    pub has_hash : get account_row "password" ≡ some (str hash)

  free_row :
      (email : String) (w : World S R)
      → (find_user_by_email h.internal email w).0 ≡ err user_not_found
      → first_row h.internal laws w.db "users" (user_query "email" email).clauses ≡ none
  free_row email w free =
      elim (Option-cases
        (first_row h.internal laws w.db "users" (user_query "email" email).clauses)) [
          | inl e ↦ e
          | inr (r, e) ↦ absurd (ground (arith, find_by_email_run h.internal laws email w))
        ]

  -- A user, and then an account, are found where none was before.
  two_rows :
      (email id : String) (d x : Record) (s t v : S)
      → get d "email" ≡ some (str email)
      → get x "user_id" ≡ some (str id)
      → get x "provider_type" ≡ some (str "credential")
      → first_row h.internal laws s "users" (user_query "email" email).clauses ≡ none
      → first_row h.internal laws s "accounts" (credential_query id).clauses ≡ none
      → t ≡ (h.internal.adapter.create "users" d s).1
      → v ≡ (h.internal.adapter.create "accounts" x t).1
      → (first_row h.internal laws v "users" (user_query "email" email).clauses ≡ some d)
        × (first_row h.internal laws v "accounts" (credential_query id).clauses ≡ some x)
  two_rows email id d x s t v mail owner kind free new made₁ made₂ =
      let ia = h.internal in
      let users : laws.rows v "users" ≡ laws.rows (ia.adapter.create "users" d s).1 "users" =
        rw (made₂, laws.create_rows "accounts" x t "users") (ap (λ z. laws.rows z "users") made₁) in
      let accounts : laws.rows t "accounts" ≡ laws.rows s "accounts" =
        rw made₁ (laws.create_rows "users" d s "accounts") in
      (
        rw users (
            first_row-create ia laws "users" (user_query "email" email).clauses d s
              (matches_one ia laws d "email" email mail) free),
        rw made₂ (
            first_row-create ia laws "accounts" (credential_query id).clauses x t
              (matches_two ia laws x "user_id" "provider_type" id "credential" owner kind)
              (rw accounts new)),
      )

  pub create_user_with_password-HasRows :
      (email name hash : String) (w v : World S R) (user : User)
      → (find_user_by_email h.internal email w).0 ≡ err user_not_found
      → first_row h.internal laws w.db "accounts" (credential_query user.id).clauses ≡ none
      → create_user_with_password h email name hash w ≡ (ok user, v)
      → HasRows email hash user v
  unfolding create_user_with_password
  create_user_with_password-HasRows email name hash w v user free new e =
      let ia = h.internal in
      let (u, e₁, k₁) =
        bind-ok (create_user ia email name)
          (λ (u : User). create_credential_account ia u.id email hash >>= λ (a : Account). pure u) w
          user v e in
      let w₁ = (create_user ia email name w).1 in
      let (a, e₂, k₂) =
        bind-ok (create_credential_account ia u.id email hash) (λ (a : Account). pure u) w₁ user v
          k₁ in
      let same : (user ≡ u) × (v ≡ (create_credential_account ia u.id email hash w₁).1) =
        ground arith in
      let (d, from, mail, called, db₁) = create_user_row ia laws email name w w₁ u (ground arith) in
      let (x, made, owner, provider, account, kind, password, db₂) =
        create_credential_account_row ia laws u.id email hash w₁ v a (ground arith) in
      let (x_user, x_account) =
        two_rows email u.id d x w.db w₁.db v.db mail owner kind (free_row email w free)
          (subst
            (λ (y : User). first_row ia laws w.db "accounts" (credential_query y.id).clauses ≡ none)
            same.0 new)
          db₁ db₂ in
      record {
        user_row = d;
        account_row = x;
        from = same.0 ∙ from;
        found_user = x_user;
        found_account =
            subst
              (λ (y : User).
                first_row ia laws v.db "accounts" (credential_query y.id).clauses ≡ some x)
              (sym same.0) x_account;
        has_hash = password;
      }

  -- A session that is started leaves the rows of the user and of the account as they are.
  pub HasRows-start_session :
      {B : Type 0} (r : Request B) (status : ℕ) (starter : User) (email hash : String) (user : User)
      (w : World S R)
      → h.session_manager.db_store ≡ some h.internal
      → HasRows email hash user w
      → HasRows email hash user (start_session h status r starter w).1
  unfolding start_session
  HasRows-start_session r status starter email hash user w db x =
      let run = Manager.create h.session_manager starter.id (some (session_options h r starter)) in
      let kept : (j : String)
          → ("sessions" == j) ≡ false
          → laws.rows (run w).1.db j ≡ laws.rows w.db j =
        λ j other. create-Keeps h.internal laws j h.session_manager starter.id _ other db w in
      let same : (session_response h status starter (run w)).1 ≡ (run w).1 =
        elim (Result-cases (run w).0) [ inl (a, e) ↦ ground arith | inr (a, e) ↦ ground arith ] in
      subst (HasRows email hash user) (sym same) (record {
        user_row = x.user_row;
        account_row = x.account_row;
        from = x.from;
        found_user = rw (kept "users" refl) x.found_user;
        found_account = rw (kept "accounts" refl) x.found_account;
        has_hash = x.has_hash;
      })
