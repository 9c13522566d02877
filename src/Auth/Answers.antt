-- ===== src/Auth/Answers.antt =====
-- auth/handlers.go: what a refused sign up and a sign out leave behind.
use beacon_auth.Prelude.{
  String, ◌≡◌, ◌≢◌, ◌≤◌, true, none, some, arith, Bool-cases, Option-cases, inl, inr, length,
  select,
}
use beacon_auth.Core.Value.{Time}
use beacon_auth.Core.Types.{user_not_found, session_not_found, failed, Result-cases, ok, User}
use beacon_auth.Core.World.{World, read_random}
use beacon_auth.Core.Contract.{Contract}
use beacon_auth.Internal.{InternalAdapter, find_user_by_email}
use beacon_auth.Internal.Revoke.{has_token}
use beacon_auth.Session.Redis.{RedisStore}
use beacon_auth.Session.Redis.Commands
use beacon_auth.Session.Manager
use beacon_auth.Session.Manager.Deleted.{IsMade, get-delete}
use beacon_auth.Auth.{
  Handler, sign_up, if_free, start_session, session_options, create_user_with_password, sign_out,
  cleared_cookie,
}
use beacon_auth.Auth.Http.{Request, SignUpRequest, validate_sign_up}
use beacon_auth.Auth.SignIn.{find_user_run}

module _ {S R : Type 0} (h : Handler S R) (laws : Contract h.internal.adapter) where
  start_session_status :
      (r : Request SignUpRequest) (user : User) (w : World S R)
      → (start_session h 201 r user w).0.status ≢ 201
      → (start_session h 201 r user w).0.status ≡ 500
  unfolding start_session
  start_session_status r user w n =
      elim (Result-cases
        (Manager.create h.session_manager user.id (some (session_options h r user)) w).0) [
          | inl (x, c) ↦ absurd (n (ground arith))
          | inr (x, c) ↦ ground arith
        ]

  -- SignUp without a new session: an error of the server, or the world as it was.
  if_free_refused :
      (r : Request SignUpRequest) (q : SignUpRequest) (w : World S R)
      → (if_free h r q (find_user_by_email h.internal q.email w)).0.status ≢ 201
      → (if_free h r q (find_user_by_email h.internal q.email w)).0.status ≢ 500
      → ((if_free h r q (find_user_by_email h.internal q.email w)).1 ≡ w)
        × ((if_free h r q (find_user_by_email h.internal q.email w)).0.set_cookie ≡ none)
  if_free_refused r q w n k =
      let same = find_user_run h laws q.email w in
      elim (Result-cases (find_user_by_email h.internal q.email w).0) [
        | inl (u, f) ↦ (ground arith, ground arith)
        | inr (session_not_found, f) ↦ absurd (ground arith)
        | inr (failed t, f) ↦ absurd (ground arith)
        | inr (user_not_found, f) ↦ elim (Result-cases (h.hasher.hash q.password (w.entropy 0))) [
          | inr (x, e) ↦ absurd (ground arith)
          | inl (hash, e) ↦
              elim (Result-cases
                (create_user_with_password h q.email q.name hash (read_random w).1).0) [
                  | inr (x, c) ↦ absurd (ground arith)
                  | inl (user, c) ↦
                      let v =
                        (create_user_with_password h q.email q.name hash (read_random w).1).1 in
                      let run : if_free h r q (find_user_by_email h.internal q.email w)
                          ≡ start_session h 201 r user v =
                        ground arith in
                      absurd (k (rw run (start_session_status r user v (rw run at n))))
                ]
        ]
      ]

  -- Over an adapter that meets the contract, a SignUp that answers neither 201 nor 500 changes
  -- nothing and sets no cookie; and where sign up is allowed, the body can be read and passes the
  -- checks, and there is a user with the address, the answer is 409.
  pub sign_up_refused :
      (r : Request SignUpRequest) (w : World S R)
      → ((sign_up h r w).0.status ≢ 201
          → (sign_up h r w).0.status ≢ 500
          → ((sign_up h r w).1 ≡ w) × ((sign_up h r w).0.set_cookie ≡ none))
        × ((q : SignUpRequest) (u : User)
            → h.config.allow_signup ≡ true
            → r.body ≡ ok q
            → validate_sign_up h.config q ≡ none
            → (find_user_by_email h.internal q.email w).0 ≡ ok u
            → (sign_up h r w).0.status ≡ 409)
  unfolding sign_up
  sign_up_refused r w = (
    λ n k. elim (Bool-cases h.config.allow_signup) [
      | inr a ↦ (ground arith, ground arith)
      | inl a ↦ elim (Result-cases r.body) [
        | inr (x, b) ↦ (ground arith, ground arith)
        | inl (q, b) ↦ elim (Option-cases (validate_sign_up h.config q)) [
          | inr (t, v) ↦ (ground arith, ground arith)
          | inl v ↦
              (let run : sign_up h r w ≡ if_free h r q (find_user_by_email h.internal q.email w) =
                  ground arith in
                let x = if_free_refused r q w (rw run at n) (rw run at k) in
                (rw run x.0, rw run x.1))
        ]
      ]
    ],
    λ q u a b v f. ground arith,
  )

module _ {S R : Type 0} (h : Handler S R) where
  -- SignOut with a session cookie answers 200, deletes the cookie, and Get then finds nothing under
  -- the cookie's token: where sessions are kept in a database, over an adapter that meets the
  -- contract, with any other stores beside it and the strategy that these stores determine, the
  -- token is that of one row at most, and the Redis connection, if there is one, does not fail.
  pub get-sign_out :
      {B : Type 0} (epoch : Time) (r : Request B) (token : String) (w : World S R)
      (d : InternalAdapter S) (stored : Contract d.adapter)
      → r.cookie h.session_manager.config.cookie_name ≡ some token
      → IsMade h.session_manager
      → h.session_manager.db_store ≡ some d
      → ((x : RedisStore R) → h.session_manager.redis_store ≡ some x → Commands.Contract x.client)
      → length (select (has_token d stored token) (stored.rows w.db "sessions")) ≤ 1
      → ((sign_out h epoch r w).0.status ≡ 200)
        × ((sign_out h epoch r w).0.set_cookie ≡ some (cleared_cookie h epoch))
        × ((Manager.get h.session_manager token (sign_out h epoch r w).1).0.session ≡ none)
  unfolding sign_out
  get-sign_out epoch r token w d stored c made db commands one =
      let (done, gone) = get-delete h.session_manager d stored token w made db commands one in
      (ground arith, ground arith, rw c gone)
