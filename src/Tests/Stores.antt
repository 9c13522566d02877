-- ===== src/Tests/Stores.antt =====
-- session/db_store.go and session/redis_store.go: a clean-up, and a scan of two pages.
use beacon_auth.Prelude.{
  ℕ, String, ◌≡◌, refl, none, some, [], ◌∷◌, pos, nat_eq, if◌then◌else◌, arith, All,
}
use beacon_auth.Prelude.Dict.{get}
use beacon_auth.Core.Value.{Record}
use beacon_auth.Core.Types.{Result, ok, err}
use beacon_auth.Core.World.{World}
use beacon_auth.Memory.{Memory, new}
use beacon_auth.Internal.Sessions.{IsSessionRow, live_row}
use beacon_auth.Session.Database.{cleanup_stored}
use beacon_auth.Session.Database.Cleaned.{live_row-cleanup_stored}
use beacon_auth.Session.Redis.{RedisClient, RedisStore, scan_loop}
use beacon_auth.Session.Redis.Scanned.{scan_loop-concat}
use beacon_auth.Core.Types.{Session}
use beacon_auth.Internal.Rows.{map_to_session}
use beacon_auth.Session.Config.{Config, default_config}
use beacon_auth.Session.Manager
use beacon_auth.Session.Manager.Created.{db_manager}
use beacon_auth.Session.Manager.Updated.{get-update}
use beacon_auth.Tests.World.{
  laws, internal, at, world, session_of, user_of, two_sessions, no_session_at_all,
}

-- One session that has expired, and one that has not.
abbrev aged : Memory
aged = record {
  tables = ("sessions", session_of "s1" "ann" 500 ∷ session_of "s2" "bob" 9000 ∷ []) ∷ [];
  next_id = 1;
}

session_of-IsSessionRow : (token owner : String) (n : ℕ) → IsSessionRow (session_of token owner n)
unfolding get
session_of-IsSessionRow token owner n = record {
  token = token;
  expires_at = at n;
  owner = owner;
  has_owner = refl;
  has_token = refl;
  has_expiry = refl;
}

aged-IsSessionRow : All IsSessionRow (laws.rows aged "sessions")
unfolding get beacon_auth.Memory.Refines.memory_contract
aged-IsSessionRow =
    (session_of-IsSessionRow "s1" "ann" 500, (session_of-IsSessionRow "s2" "bob" 9000, tt))

abbrev aged_world : World Memory Unit
aged_world = world aged tt

live_row-cleanup_stored_example :
    ((cleanup_stored internal aged_world).0 ≡ ok tt)
    × (live_row internal laws (cleanup_stored internal aged_world).1.db "s2" (at 2000)
        ≡ some (session_of "s2" "bob" 9000))
unfolding beacon_auth.Memory.Refines.memory_contract get beacon_auth.Memory.Where.matches_where
    beacon_auth.Memory.Where.matches_clause beacon_auth.Memory.Compare.equal
    beacon_auth.Core.Value.sprint beacon_auth.Memory.Compare.greater_than
live_row-cleanup_stored_example =
    live_row-cleanup_stored internal laws "s2" (at 2000) aged_world (omega arith) aged-IsSessionRow

-- Two pages of keys, with a cursor that does not count them.
abbrev paged : RedisClient Unit
paged = record {
  get = λ t k c. (ok none, c);
  set = λ t k v ttl c. (ok tt, c);
  del = λ k c. (ok tt, c);
  scan = λ cursor pattern n c.
      (if nat_eq cursor 0 then (ok ("a" ∷ "b" ∷ [], 176), c) else (ok ("c" ∷ [], 0), c));
  close = λ c. (ok tt, c);
}

abbrev store : RedisStore Unit
store = record {
  client = paged;
  codec = record {
    marshal = λ d. ok "";
    unmarshal = λ s. err (beacon_auth.Core.Types.failed "json");
  };
  prefix = "";
  ttl = pos 0;
}

scan_loop-concat_example :
    scan_loop store 5 0 [] (world new tt) ≡ (some (ok ("a" ∷ "b" ∷ "c" ∷ [])), world new tt)
unfolding beacon_auth.Session.Redis.Scanned.Pages
scan_loop-concat_example =
    scan_loop-concat store 5 0 ("a" ∷ "b" ∷ [], 176) (("c" ∷ [], 0) ∷ []) [] (world new tt)
      (omega arith) (refl, refl, (refl, refl, tt))

-- A session of Ann that is due for a new expiry.
abbrev eager : Config
eager = record default_config { update_age = pos 10 }

abbrev due : Session
due = record no_session_at_all { id = "s1"; user_id = "ann"; token = "s1"; expires_at = at 9000 }

abbrev later : World Memory Unit
later = (Manager.update (db_manager eager internal) due (world two_sessions tt)).2

get-update_example :
    ((Manager.update (db_manager eager internal) due (world two_sessions tt)).0 ≡ ok tt)
    × ((x : Session) × ((Manager.get (db_manager {R = Unit} eager internal) "s1" later).0.session
          ≡ some x)
        × (x.token ≡ "s1")
        × (x.user_id ≡ (map_to_session (session_of "s1" "ann" 9000)).user_id)
        × (x.expires_at ≡ at 604800000001001))
unfolding beacon_auth.Memory.Refines.memory_contract get beacon_auth.Memory.Where.matches_where
    beacon_auth.Memory.Where.matches_clause beacon_auth.Memory.Compare.equal
    beacon_auth.Core.Value.sprint beacon_auth.Memory.Compare.greater_than map_to_session
    beacon_auth.Internal.Rows.text_at Manager.update beacon_auth.Session.Database.set_stored
    beacon_auth.Internal.find_session_with_user beacon_auth.Memory.find_one
    beacon_auth.Memory.update beacon_auth.Prelude.Dict.put beacon_auth.Prelude.Dict.assign
get-update_example =
    get-update eager internal laws due (world two_sessions tt) later (session_of "s1" "ann" 9000)
      (user_of "ann" "ann@example.com") refl refl (session_of-IsSessionRow "s1" "ann" 9000) refl
      refl (omega arith) refl (omega arith)
