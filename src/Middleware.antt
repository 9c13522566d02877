-- ===== src/Middleware.antt =====
-- middleware/session.go and the requests' side of core/auth.go, with the values of core/context.go.
pub mod Protected
use beacon_auth.Prelude.{String, Option, none, some}
use beacon_auth.Core.Types.{
  Error, session_not_found, Result, Done, ok, err, User, Session, SessionOptions,
}
use beacon_auth.Core.World.{World, Act, pure, continue, ◌>>=◌}
use beacon_auth.Internal.{Lookup}
use beacon_auth.Session.Manager
use beacon_auth.Session.Stores.{Manager}
use beacon_auth.Auth.Http.{Response, write_error}

-- The values of a request's context; `request` is there once WithRequest has been called, and holds
-- the cookies by name.
pub record Context : Type 0 where
  pub session : Option Session
  pub user : Option User
  pub request : Option (String → Option String)

abbrev pub with_session : Context → Option Session → Context
with_session c s = record c { session = s }

abbrev pub with_user : Context → User → Context
with_user c u = record c { user = some u }

abbrev pub with_request : Context → (String → Option String) → Context
with_request c cookies = record c { request = some cookies }

-- A handler: what it answers for the context of a request, and what it does.
abbrev pub Next : Type 0 → Type 0 → Type 0
Next S R = Context → World S R → Response × World S R

-- http.Error with the status 401
abbrev pub unauthorized : Response
unauthorized = write_error 401 "Unauthorized" ""

-- The answer of RequireAuthJSON.
abbrev pub unauthorized_json : Response
unauthorized_json = write_error 401 "unauthorized" "Authentication required"

abbrev pub with_found_user : Context → Option User → Context
with_found_user c none = c
with_found_user c (some u) = with_user c u

module _ {S R : Type 0} (m : Manager S R) (next : Next S R) where
  -- SessionMiddleware after the session has been looked up.
  abbrev pub load_found : Context → Lookup × World S R → Response × World S R
  load_found c (found, w) = elim found.error [
    | some e ↦ next c w
    | none ↦ next (with_found_user (with_session c found.session) found.user) w
  ]

  abbrev pub load_token : Context → Option String → World S R → Response × World S R
  load_token c none w = next c w
  load_token c (some token) w = load_found c (Manager.get m token w)

  -- The cookies are those of the request that is served.
  unfoldable pub session_middleware : (String → Option String) → Next S R
  session_middleware cookies c w = load_token c (cookies m.config.cookie_name) w

module _ {S R : Type 0} (next : Next S R) where
  abbrev if_session : Response → Option Session → Next S R
  if_session refusal none c w = (refusal, w)
  if_session refusal (some s) c w = next c w

  unfoldable pub require_auth : Next S R
  require_auth c w = if_session unauthorized c.session c w

  unfoldable pub require_auth_json : Next S R
  require_auth_json c w = if_session unauthorized_json c.session c w

-- `beaconAuth` with a session manager.
module _ {S R : Type 0} (m : Manager S R) where
  abbrev pub with_cookie : Option String → World S R → (Option Session × Option Error) × World S R
  with_cookie none w = ((none, some session_not_found), w)
  with_cookie (some token) w =
      let (found, w') = Manager.get m token w in ((found.session, found.error), w')

  unfoldable pub get_request_session :
      Context → World S R → (Option Session × Option Error) × World S R
  get_request_session c w = elim c.request [
    | none ↦ ((none, some session_not_found), w)
    | some cookies ↦ with_cookie (cookies m.config.cookie_name) w
  ]

  unfoldable pub create_session : String → Option SessionOptions → Act S R Session
  create_session user_id opts = do x ← Manager.create m user_id opts; pure x.0

  unfoldable pub revoke_session : String → Act S R Unit
  revoke_session token = Manager.delete m token

  module _ (next : Next S R) where
    abbrev pub serve_session : Context → Option Session → World S R → Response × World S R
    serve_session c none w = (unauthorized, w)
    serve_session c (some s) w = next (with_session c (some s)) w

    -- `beaconAuth.Middleware`: the error of GetSession is dropped.
    unfoldable pub auth_middleware : Next S R
    auth_middleware c w = let ((s, e), w') = get_request_session c w in serve_session c s w'
