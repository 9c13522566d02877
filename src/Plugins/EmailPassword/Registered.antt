-- ===== src/Plugins/EmailPassword/Registered.antt =====
-- plugins/emailpassword/emailpassword.go: registration followed by login.
use beacon_auth.Prelude.{
  ℕ, String, ◌≡◌, refl, ap, ◌∙◌, true, false, Option, none, some, arith, ◌==◌, inl, inr,
}
use beacon_auth.Prelude.Dict.{get}
use beacon_auth.Core.Value.{str, Record}
use beacon_auth.Core.Types.{Result-cases, ok, User}
use beacon_auth.Core.World.{World}
use beacon_auth.Core.Contract.{Contract}
use beacon_auth.Internal.{
  find_user_by_email, user_query, account_query, create_user, find_account_by_provider,
}
use beacon_auth.Internal.Rows.{map_to_user, map_to_account, text_at}
use beacon_auth.Internal.Accounts.{
  first_row, first_row-create, matches_one, matches_two, find_by_email_run, create_user_row,
  create_credential_account_row, mapped_password,
}
use beacon_auth.Session.Manager
use beacon_auth.Session.Manager.Keeps.{create-Keeps}
use beacon_auth.Plugins.Context.{AuthContext, new_session_cookie}
use beacon_auth.Plugins.EmailPassword.NewUser.{IsRegistered, find_run, handle_register-IsRegistered}
use beacon_auth.Plugins.EmailPassword.{
  RegisterRequest, handle_register, handle_login, create_session_and_response, session_answer,
}

mapped_user_id :
    (r : Record) {u : String} → get r "user_id" ≡ some (str u) → (map_to_account r).user_id ≡ u
unfolding map_to_account text_at
mapped_user_id r h = ground arith

module _ {S R : Type 0} (p : AuthContext S R) (laws : Contract p.data_manager.adapter) where
  -- The session that is started leaves the rows of the other tables alone.
  session-Keeps :
      (j user_id : String) (user : Option User) (w : World S R)
      → ("sessions" == j) ≡ false
      → p.session_manager.db_store ≡ some p.data_manager
      → laws.rows (create_session_and_response p user_id user w).1.db j ≡ laws.rows w.db j
  unfolding create_session_and_response new_session_cookie
  session-Keeps j user_id user w other db =
      let run = Manager.create p.session_manager user_id none w in
      let same : (session_answer p user run).1.db ≡ run.1.db = elim (Result-cases run.0) [
        | inl (a, e) ↦ ground arith
        | inr (a, e) ↦ ground arith
      ] in
      ap (λ s. laws.rows s j) same
      ∙ create-Keeps p.data_manager laws j p.session_manager user_id none other db w

  -- The account row and the user row that a registration leaves behind.
  record HasRows (q : RegisterRequest) (hash : String) (user : User) (v : World S R) : Type 0 where
    user_row : Record
    account_row : Record
    from : user ≡ map_to_user user_row
    found_user :
        first_row p.data_manager laws v.db "users" (user_query "email" q.email).clauses
        ≡ some user_row
    found_account :
        first_row p.data_manager laws v.db "accounts" (account_query "local" q.email).clauses
        ≡ some account_row
    owner : get account_row "user_id" ≡ some (str user.id)
    has_hash : get account_row "password" ≡ some (str hash)

  IsRegistered-HasRows :
      (q : RegisterRequest) (w v : World S R) (x : IsRegistered p laws q w v)
      → p.session_manager.db_store ≡ some p.data_manager
      → first_row p.data_manager laws w.db "accounts" (account_query "local" q.email).clauses ≡ none
      → HasRows q x.hash x.user v
  IsRegistered-HasRows q w v x db new =
      let ia = p.data_manager in
      let (d, from, mail, called, db₁) =
        create_user_row ia laws q.email q.name x.start x.middle x.user x.new_user in
      let (a, made, owner, provider, account, kind, password, db₂) =
        create_credential_account_row ia laws x.user.id q.email x.hash x.middle x.last x.account
          x.new_account in
      let kept : (j : String)
          → ("sessions" == j) ≡ false
          → laws.rows v.db j ≡ laws.rows x.last.db j =
        λ j other.
          ap (λ (k : World S R). laws.rows k.db j) x.after
          ∙ session-Keeps j x.user.id (some x.user) x.last other db in
      let users : laws.rows v.db "users" ≡ laws.rows (ia.adapter.create "users" d w.db).1 "users" =
        kept "users" refl
        ∙ rw (db₂, laws.create_rows "accounts" a x.middle.db "users")
            (ap (λ s. laws.rows s "users") (rw x.same_db at db₁)) in
      let accounts : laws.rows x.middle.db "accounts" ≡ laws.rows w.db "accounts" =
        rw (db₁, laws.create_rows "users" d x.start.db "accounts")
          (ap (λ s. laws.rows s "accounts") x.same_db) in
      record {
        user_row = d;
        account_row = a;
        from = from;
        found_user = rw users (
            first_row-create ia laws "users" (user_query "email" q.email).clauses d w.db
              (matches_one ia laws d "email" q.email mail) x.free);
        found_account =
            rw (kept "accounts" refl, db₂)
              (first_row-create ia laws "accounts" (account_query "local" q.email).clauses a
                x.middle.db
                (matches_two ia laws a "provider_id" "account_id" "local" q.email provider account)
                (rw accounts new));
        owner = owner;
        has_hash = password;
      }

  find_account_run :
      (email : String) (a : Record) (v : World S R)
      → first_row p.data_manager laws v.db "accounts" (account_query "local" email).clauses ≡ some a
      → find_account_by_provider p.data_manager "local" email v ≡ (ok (some (map_to_account a)), v)
  unfolding find_account_by_provider
  find_account_run email a v h =
      ground (arith, laws.find_one_run (account_query "local" email) v.db)

  handle_login-HasRows :
      (q : RegisterRequest) (hash : String) (user : User) (v : World S R)
      → HasRows q hash user v
      → p.hasher.verify q.password hash ≡ ok true
      → handle_login p (ok (record { email = q.email; password = q.password })) v
        ≡ create_session_and_response p user.id (some user) v
  unfolding handle_login
  handle_login-HasRows q hash user v x accepted =
      let account = map_to_account x.account_row in
      let verified : p.hasher.verify q.password account.password ≡ ok true =
        rw (mapped_password x.account_row x.has_hash) accepted in
      let found : find_user_by_email p.data_manager q.email v ≡ (ok user, v) = ground (
        arith,
        find_by_email_run p.data_manager laws q.email v,
        x.found_user,
        x.from,
        find_run p laws q.email v,
      ) in
      rw
        (
          find_account_run q.email x.account_row v x.found_account,
          verified,
          found,
          mapped_user_id x.account_row x.owner,
        )
        refl

  -- After handleRegister has answered 200, handleLogin with the same address and password starts a
  -- session of the new user: if the adapter meets the contract, Verify accepts what Hash makes, sessions
  -- are kept in the same database, and no account there has had the provider "local" and the address.
  pub handle_login-handle_register :
      (q : RegisterRequest) (w : World S R)
      → ((password hash : String) (salt : Option (ℕ → ℕ))
          → p.hasher.hash password salt ≡ ok hash
          → p.hasher.verify password hash ≡ ok true)
      → p.session_manager.db_store ≡ some p.data_manager
      → first_row p.data_manager laws w.db "accounts" (account_query "local" q.email).clauses ≡ none
      → (handle_register p (ok q) w).0.status ≡ 200
      → (user : User) × (start : World S R) × (middle : World S R) × (start.db ≡ w.db)
        × (create_user p.data_manager q.email q.name start ≡ (ok user, middle))
        × (handle_login p
              (ok (record { email = q.email; password = q.password }))
              (handle_register p (ok q) w).1
            ≡ create_session_and_response p user.id (some user) (handle_register p (ok q) w).1)
  handle_login-handle_register q w law db new h =
      let x = handle_register-IsRegistered p laws q w h in
      (
        x.user,
        x.start,
        x.middle,
        x.same_db,
        x.new_user,
        handle_login-HasRows q x.hash x.user (handle_register p (ok q) w).1
            (IsRegistered-HasRows q w (handle_register p (ok q) w).1 x db new)
            (law q.password x.hash x.salt x.hashed),
      )
