-- ===== src/Tests/Middleware.antt =====
-- middleware/session.go and core/auth.go over a database with two sessions, one of a user who is gone.
use beacon_auth.Prelude.{ℕ, String, ◌≡◌, ◌<◌, ◌⊎◌, refl, Option, none, some, All}
use beacon_auth.Prelude.Dict.{get}
use beacon_auth.Core.Value.{Record}
use beacon_auth.Core.Types.{Session}
use beacon_auth.Core.World.{World}
use beacon_auth.Memory.{Memory}
use beacon_auth.Internal.Rows.{map_to_session, map_to_user}
use beacon_auth.Internal.Sessions.{IsSessionRow, user_row}
use beacon_auth.Session.Config
use beacon_auth.Session.Stores.{Manager}
use beacon_auth.Session.Manager.Created.{db_manager}
use beacon_auth.Auth.Http.{auth_response}
use beacon_auth.Middleware.{
  Context, Next, unauthorized, with_user, with_session, with_request, auth_middleware,
}
use beacon_auth.Middleware.Protected.{protected, protected_sound, auth_middleware-orphan}
use beacon_auth.Tests.World.{laws, internal, at, world, session_of, two_sessions}

abbrev busy : World Memory Unit
busy = world two_sessions tt

abbrev plain : Manager Memory Unit
plain = db_manager Config.default_config internal

-- A handler that answers with what is in the context.
abbrev echo : Next Memory Unit
echo c w = (record { status = 200; set_cookie = none; body = auth_response c.user c.session "" }, w)

abbrev cookies_of : String → String → Option String
cookies_of token name = some token

abbrev bare : Context
bare = record { session = none; user = none; request = none }

session_of-IsSessionRow : (token owner : String) (n : ℕ) → IsSessionRow (session_of token owner n)
unfolding get
session_of-IsSessionRow token owner n = record {
  token = token;
  expires_at = at n;
  owner = owner;
  has_owner = refl;
  has_token = refl;
  has_expiry = refl;
}

sessions-IsSessionRow : All IsSessionRow (laws.rows two_sessions "sessions")
unfolding get beacon_auth.Memory.Refines.memory_contract
sessions-IsSessionRow =
    (session_of-IsSessionRow "s1" "ann" 9000, (session_of-IsSessionRow "s2" "bob" 9000, tt))

protected_sound_example :
    ((protected plain echo (cookies_of "s1") bare busy).0 ≡ unauthorized)
    ⊎ ((token : String) × (s : Session) × (row : Record) × (v : World Memory Unit) × (some "s1"
          ≡ some token)
        × (s.token ≡ token)
        × (1000 < s.expires_at.instant)
        × (user_row internal laws two_sessions s.user_id ≡ some row)
        × (protected plain echo (cookies_of "s1") bare busy
            ≡ echo (with_user (with_session bare (some s)) (map_to_user row)) v))
protected_sound_example =
    protected_sound plain internal laws echo (cookies_of "s1") bare busy refl refl
      sessions-IsSessionRow refl

auth_middleware-orphan_example :
    ((protected plain echo (cookies_of "s2") bare busy).0 ≡ unauthorized)
    × ((v : World Memory Unit) × (auth_middleware plain echo
            (with_request bare (cookies_of "s2"))
            busy
          ≡ echo
              (with_session
                (with_request bare (cookies_of "s2"))
                (some (map_to_session (session_of "s2" "bob" 9000))))
              v))
unfolding beacon_auth.Memory.Refines.memory_contract get beacon_auth.Memory.Where.matches_where
    beacon_auth.Memory.Where.matches_clause beacon_auth.Memory.Compare.equal
    beacon_auth.Core.Value.sprint beacon_auth.Memory.Compare.greater_than map_to_session
    beacon_auth.Internal.Rows.text_at
auth_middleware-orphan_example =
    auth_middleware-orphan plain internal laws echo "s2" (cookies_of "s2") bare busy
      (session_of "s2" "bob" 9000) refl refl refl refl refl refl
