-- ===== src/Session/Database.antt =====
-- session/db_store.go: sessions in the database.
pub mod Stored
pub mod Cleaned
pub mod Refreshed
use beacon_auth.Prelude.{ℕ, String, Option, none, some, List, [], ◌∷◌}
use beacon_auth.Core.Value.{Time, str, time, Record}
use beacon_auth.Core.Types.{
  Error, user_not_found, session_not_found, failed, Result, ok, err, Session,
}
use beacon_auth.Core.Query.{op_equal, op_less_than, Query, clause, query}
use beacon_auth.Core.World.{World, Act, pure, fail, on_db, read_clock, now, continue, ◌>>=◌, ◌>>◌}
use beacon_auth.Internal.{
  InternalAdapter, Lookup, find_session_with_user, revoke_session, revoke_all_user_sessions,
}

-- The row of a new session, as `Set` writes it.
unfoldable pub session_row : Session → Record
session_row s =
    ("id", str s.id)
    ∷ ("user_id", str s.user_id)
    ∷ ("token", str s.token)
    ∷ ("expires_at", time s.expires_at)
    ∷ ("ip_address", str s.ip_address)
    ∷ ("user_agent", str s.user_agent)
    ∷ ("created_at", time s.created_at)
    ∷ ("updated_at", time s.updated_at)
    ∷ []

abbrev pub token_query : String → Query
token_query token = query "sessions" (clause "token" op_equal (str token) ∷ [])

-- The fields that `Set` writes to a row that is there.
abbrev pub refreshed : Session → Time → Record
refreshed s t = ("expires_at", time s.expires_at) ∷ ("updated_at", time t) ∷ []

module _ {S R : Type 0} (db : InternalAdapter S) where
  unfoldable pub get_stored : String → World S R → Lookup × World S R
  get_stored token w = find_session_with_user db token w

  -- `Set` after the lookup: any error but "session not found" is returned.
  abbrev pub set_found : Session → Option Session → Option Error → Act S R Unit
  set_found s existing (some user_not_found) = fail user_not_found
  set_found s existing (some (failed text)) = fail (failed text)
  set_found s (some old) e = do
    t ← now
    on_db (db.adapter.update (token_query s.token) (refreshed s t))
    pure tt
  set_found s none e = do on_db (db.adapter.create "sessions" (session_row s)); pure tt

  unfoldable pub set_stored : Session → Act S R Unit
  set_stored s w =
      let (found, w') = find_session_with_user db s.token w in
      set_found s found.session found.error w'

  unfoldable pub delete_stored : String → Act S R Unit
  delete_stored token = revoke_session db token

  unfoldable pub delete_stored_by_user : String → Act S R Unit
  delete_stored_by_user user_id = do revoke_all_user_sessions db user_id; pure tt

  unfoldable pub cleanup_stored : Act S R Unit
  cleanup_stored = do
    t ← now
    on_db
        (db.adapter.delete_many (query "sessions" (clause "expires_at" op_less_than (time t) ∷ [])))
    pure tt

  unfoldable pub close_stored : Act S R Unit
  close_stored = on_db db.adapter.close
