-- ===== src/Middleware/Protected.antt =====
-- middleware/session.go, core/auth.go: which requests reach a protected handler.
use beacon_auth.Prelude.{
  String, ◌≡◌, ◌<◌, ◌≤◌, ◌⊎◌, refl, ap, ◌∙◌, Option, none, some, arith, length, select, All,
  Option-cases, inl, inr,
}
use beacon_auth.Core.Value.{Record}
use beacon_auth.Core.Types.{Error, user_not_found, Session, User}
use beacon_auth.Core.World.{World}
use beacon_auth.Core.Contract.{Contract}
use beacon_auth.Internal.{InternalAdapter, Lookup, find_session_with_user}
use beacon_auth.Internal.Rows.{map_to_session, map_to_user}
use beacon_auth.Internal.Sessions.{
  IsSessionRow, live_row, user_row, find_session_run, find_session_sound, find_session_user,
}
use beacon_auth.Internal.Revoke.{has_token}
use beacon_auth.Session.Config.{db_only}
use beacon_auth.Session.Database.{get_stored}
use beacon_auth.Session.Redis.{RedisStore}
use beacon_auth.Session.Redis.Commands
use beacon_auth.Session.Manager
use beacon_auth.Session.Stores.{Manager}
use beacon_auth.Session.Manager.Deleted.{IsMade, get-delete}
use beacon_auth.Auth.Http.{Response}
use beacon_auth.Middleware.{
  Context, Next, with_session, with_user, with_found_user, with_request, unauthorized,
  session_middleware, load_found, require_auth, auth_middleware, get_request_session,
  revoke_session,
}

-- The two middlewares in a row, over a request with no session yet.
abbrev pub protected : {S R : Type 0} → Manager S R → Next S R → (String → Option String) → Next S R
protected m next cookies = session_middleware m (require_auth next) cookies

module _ {S R : Type 0} (m : Manager S R) (next : Next S R) where
  session_same :
      (c : Context) (s : Option Session) (u : Option User)
      → (with_found_user (with_session c s) u).session ≡ s
  session_same c s none = refl
  session_same c s (some u) = refl

  -- Without a session the request is refused.
  load_found-none :
      (c : Context) (found : Lookup) (w : World S R)
      → c.session ≡ none
      → found.session ≡ none
      → load_found m (require_auth next) c (found, w) ≡ (unauthorized, w)
  unfolding require_auth
  load_found-none c found w e n = elim (Option-cases found.error) [
    | inr (x, k) ↦ ground arith
    | inl k ↦ ground (arith, session_same c found.session found.user)
  ]

  load_found-error :
      (c : Context) (found : Lookup) (w : World S R) (x : Error)
      → c.session ≡ none
      → found.error ≡ some x
      → load_found m (require_auth next) c (found, w) ≡ (unauthorized, w)
  unfolding require_auth
  load_found-error c found w x e k = ground arith

  require_auth-some :
      (c : Context) (s : Session) (w : World S R)
      → c.session ≡ some s
      → require_auth next c w ≡ next c w
  unfolding require_auth
  require_auth-some c s w e = ground arith

  -- A request is refused, or a session was found without an error and the handler sees it.
  load_found-cases :
      (c : Context) (found : Lookup) (w : World S R)
      → c.session ≡ none
      → (load_found m (require_auth next) c (found, w) ≡ (unauthorized, w))
        ⊎ ((s : Session) × (found.session ≡ some s)
            × (found.error ≡ none)
            × (load_found m (require_auth next) c (found, w)
                ≡ next (with_found_user (with_session c (some s)) found.user) w))
  load_found-cases c found w e = elim (Option-cases found.error) [
    | inr (x, k) ↦ inl (load_found-error c found w x e k)
    | inl k ↦ elim (Option-cases found.session) [
      | inl n ↦ inl (load_found-none c found w e n)
      | inr (s, n) ↦
          let c' = with_found_user (with_session c (some s)) found.user in
          inr (s, n, k, rw (k, n) (require_auth-some c' s w (session_same c (some s) found.user)))
    ]
  ]

module _ {S R : Type 0} (m : Manager S R) (d : InternalAdapter S) (laws : Contract d.adapter)
    (next : Next S R) where
  -- With the database as the only source of sessions, over an adapter that meets the contract and
  -- with rows of sessions of the types that the code writes, a request with no session in its
  -- context is refused, or reaches the protected handler with the session of its cookie's token in
  -- its context, which has not expired, and with the session's user, who is in the database: the
  -- row of the session's user id.
  pub protected_sound :
      (cookies : String → Option String) (c : Context) (w : World S R)
      → m.strategy ≡ db_only
      → m.db_store ≡ some d
      → All IsSessionRow (laws.rows w.db "sessions")
      → c.session ≡ none
      → ((protected m next cookies c w).0 ≡ unauthorized)
        ⊎ ((token : String) × (s : Session) × (row : Record) × (v : World S R) × (cookies
                m.config.cookie_name
              ≡ some token)
            × (s.token ≡ token)
            × ((w.clock 0).instant < s.expires_at.instant)
            × (user_row d laws w.db s.user_id ≡ some row)
            × (protected m next cookies c w
                ≡ next (with_user (with_session c (some s)) (map_to_user row)) v))
  unfolding session_middleware
  protected_sound cookies c w strategy db rows_ok e =
      elim (Option-cases (cookies m.config.cookie_name)) [
        | inl k ↦ inl (unfold require_auth in ground arith)
        | inr (token, k) ↦
            (let got : Manager.get m token w ≡ find_session_with_user d token w =
                (unfold Manager.get get_stored in rw (strategy, db)) in
              let found = find_session_with_user d token w in
              let run : protected m next cookies c w ≡ load_found m (require_auth next) c found =
                rw (k, got) in
              elim (load_found-cases m next c found.0 found.1 e) [
                | inl refused ↦ inl (ap (λ (p : Response × World S R). p.0) (run ∙ refused))
                | inr (s, n, good, reached) ↦
                    let sound = find_session_sound d laws token w s rows_ok n in
                    let (row, there, user) = find_session_user d laws token w s n good in
                    let shown : Option User → Response × World S R =
                      λ u. next (with_found_user (with_session c (some s)) u) found.1 in
                    inr (
                      token,
                      s,
                      row,
                      found.1,
                      k,
                      sound.0,
                      sound.1,
                      there,
                      run ∙ reached ∙ ap shown user,
                    )
              ])
      ]

  -- After RevokeSession of a token, a request with no session in its context whose cookie has that
  -- token is refused: with the database, over an adapter that meets the contract, and any other
  -- stores enabled, and the strategy that these stores determine, if the token is that of one row
  -- at most, and the Redis connection, if there is one, does not fail.
  pub protected-revoke_session :
      (token : String) (cookies : String → Option String) (c : Context) (w : World S R)
      → IsMade m
      → m.db_store ≡ some d
      → ((r : RedisStore R) → m.redis_store ≡ some r → Commands.Contract r.client)
      → length (select (has_token d laws token) (laws.rows w.db "sessions")) ≤ 1
      → c.session ≡ none
      → cookies m.config.cookie_name ≡ some token
      → (protected m next cookies c (revoke_session m token w).1).0 ≡ unauthorized
  unfolding session_middleware revoke_session
  protected-revoke_session token cookies c w made db commands one e k =
      let (done, gone) = get-delete m d laws token w made db commands one in
      let found = Manager.get m token (Manager.delete m token w).1 in
      rw k
        (ap (λ (p : Response × World S R). p.0) (load_found-none m next c found.0 found.1 e gone))

  -- A request with no session in its context, whose cookie has the token of a session whose user is
  -- gone, is refused by SessionMiddleware with RequireAuth, and let through by the middleware of
  -- the instance, which drops the error of the lookup: where the database, over an adapter that
  -- meets the contract, is the only source of sessions, the token is that of a live row, and no row
  -- has the row's user.
  pub auth_middleware-orphan :
      (token : String) (cookies : String → Option String) (c : Context) (w : World S R) (r : Record)
      → m.strategy ≡ db_only
      → m.db_store ≡ some d
      → c.session ≡ none
      → cookies m.config.cookie_name ≡ some token
      → live_row d laws w.db token (w.clock 0) ≡ some r
      → user_row d laws w.db (map_to_session r).user_id ≡ none
      → ((protected m next cookies c w).0 ≡ unauthorized)
        × ((v : World S R) × (auth_middleware m next (with_request c cookies) w
              ≡ next (with_session (with_request c cookies) (some (map_to_session r))) v))
  unfolding session_middleware auth_middleware get_request_session
  auth_middleware-orphan token cookies c w r strategy db e k live orphan =
      let got : Manager.get m token w ≡ find_session_with_user d token w =
        (unfold Manager.get get_stored in rw (strategy, db)) in
      let run = find_session_run d laws token w in
      let error : (Manager.get m token w).0.error ≡ some user_not_found =
        rw (got, run, live, orphan) in
      let session : (Manager.get m token w).0.session ≡ some (map_to_session r) =
        rw (got, run, live, orphan) in
      let found = Manager.get m token w in
      (
        rw k (
            ap (λ (p : Response × World S R). p.0)
              (load_found-error m next c found.0 found.1 user_not_found e error)),
        ((Manager.get m token w).1, rw (k, session)),
      )
