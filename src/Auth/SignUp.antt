-- ===== src/Auth/SignUp.antt =====
-- auth/handlers.go: a user who has signed up can sign in.
use beacon_auth.Prelude.{
  ℕ, String, ◌≡◌, sym, ap, ◌∙◌, subst, true, false, Option, none, some, arith, ◌==◌,
}
use beacon_auth.Core.Types.{user_not_found, ok, err, User, Session}
use beacon_auth.Core.World.{World}
use beacon_auth.Core.Contract.{Contract}
use beacon_auth.Internal.{find_user_by_email}
use beacon_auth.Internal.Accounts.{first_row, find_by_email_run}
use beacon_auth.Auth.{
  Handler, sign_up, sign_in, sign_in_body, start_session, get_user_password_hash, credential_query,
}
use beacon_auth.Auth.Http.{
  Request, Response, SignUpRequest, SignInRequest, auth_response, validate_sign_up,
}
use beacon_auth.Auth.SignIn.{find_user_run, password_hash_run}
use beacon_auth.Auth.Registered.{
  HasRows, start_session-201, sign_up-IsRegistered, create_user_with_password-HasRows,
  HasRows-start_session, auth_response-user,
}

module _ {S R : Type 0} (h : Handler S R) (laws : Contract h.internal.adapter) where
  sign_in-HasRows :
      (r : Request SignInRequest) (email password hash : String) (user : User) (w : World S R)
      → r.body ≡ ok (record { email = email; password = password })
      → (email == "") ≡ false
      → (password == "") ≡ false
      → HasRows h laws email hash user w
      → h.hasher.verify password hash ≡ ok true
      → h.config.require_verification ≡ false
      → sign_in h r w ≡ start_session h 200 r user w
  unfolding sign_in
  sign_in-HasRows r email password hash user w b filled filled' x accepted optional =
      let found : find_user_by_email h.internal email w ≡ (ok user, w) = ground (
        arith,
        find_by_email_run h.internal laws email w,
        x.found_user,
        x.from,
        find_user_run h laws email w,
      ) in
      let read : get_user_password_hash h user.id w ≡ (ok hash, w) =
        rw (password_hash_run h laws user.id w, x.found_account, x.has_hash) in
      ap (λ k. sign_in_body h r k w) b ∙ rw (filled, filled', found, read, accepted, optional)

  -- The checks of SignUp leave no field empty.
  validate_sign_up-filled :
      (q : SignUpRequest)
      → validate_sign_up h.config q ≡ none
      → ((q.email == "") ≡ false) × ((q.password == "") ≡ false)
  unfolding validate_sign_up
  validate_sign_up-filled q v = (ground arith, ground arith)

  -- After SignUp has answered 201, SignIn with the same address and password passes every check and
  -- starts a session of the user that SignUp answered with: if the adapter meets the contract,
  -- addresses need no verification, Verify accepts what Hash makes, sessions are kept in the same
  -- database, and no account there has had the new user's id.
  pub sign_in-sign_up :
      (r : Request SignUpRequest) (r' : Request SignInRequest) (q : SignUpRequest) (w : World S R)
      (user : User) (s : Option Session) (token : String)
      → h.config.require_verification ≡ false
      → ((password hash : String) (salt : Option (ℕ → ℕ))
          → h.hasher.hash password salt ≡ ok hash
          → h.hasher.verify password hash ≡ ok true)
      → h.session_manager.db_store ≡ some h.internal
      → r.body ≡ ok q
      → r'.body ≡ ok (record { email = q.email; password = q.password })
      → (sign_up h r w).0.status ≡ 201
      → (sign_up h r w).0.body ≡ auth_response (some user) s token
      → first_row h.internal laws w.db "accounts" (credential_query user.id).clauses ≡ none
      → sign_in h r' (sign_up h r w).1 ≡ start_session h 200 r' user (sign_up h r w).1
  sign_in-sign_up r r' q w user s token optional law db b b' e answer new =
      let x = sign_up-IsRegistered h laws r q w b e in
      let started = start_session-201 h laws r x.user x.middle (rw x.last at e) in
      let same : user ≡ x.user =
        auth_response-user user x.user s (some started.0) token started.1
          (sym answer ∙ ap (λ (p : Response × World S R). p.0.body) x.last ∙ started.2) in
      let free : (find_user_by_email h.internal q.email x.before).0 ≡ err user_not_found =
        find_by_email_run h.internal laws q.email x.before
        ∙ (rw x.unchanged (sym (find_by_email_run h.internal laws q.email w)) ∙ x.free) in
      let rows =
        create_user_with_password-HasRows h laws q.email q.name x.hash x.before x.middle x.user free
          (rw (x.unchanged, ← same) new) x.made in
      let kept = HasRows-start_session h laws r 201 x.user q.email x.hash x.user x.middle db rows in
      let (filled, filled') = validate_sign_up-filled q x.valid in
      sign_in-HasRows r' q.email q.password x.hash user (sign_up h r w).1 b' filled filled'
        (subst (λ y. HasRows h laws q.email x.hash y (sign_up h r w).1) (sym same)
          (subst (HasRows h laws q.email x.hash x.user)
            (ap (λ (p : Response × World S R). p.1) (sym x.last)) kept))
        (law q.password x.hash x.salt x.hashed) optional
