-- ===== src/Session/Database/Stored.antt =====
-- session/db_store.go: a session that is stored is found, as it was.
use beacon_auth.Prelude.{String, ◌≡◌, ◌<◌, refl, none, some, [], arith, first, first-none_of_imp}
use beacon_auth.Prelude.Dict.{get}
use beacon_auth.Core.Value.{Time}
use beacon_auth.Core.Types.{ok, Session}
use beacon_auth.Core.World.{World}
use beacon_auth.Core.Contract.{Contract}
use beacon_auth.Internal.{InternalAdapter}
use beacon_auth.Internal.Rows.{map_to_session, text_at, to_string}
use beacon_auth.Internal.Sessions.{IsSessionRow, live_row, find_session_run, find_session_of_row}
use beacon_auth.Internal.NewSession.{live_row-create}
use beacon_auth.Internal.Revoke.{has_token, live-has_token}
use beacon_auth.Session.Database.{session_row, set_stored, get_stored}

-- What the code keeps in a new session besides these two fields is read back as it was written.
pub map_to_session-row :
    (s : Session) → s.impersonated_by ≡ "" → s.metadata ≡ [] → map_to_session (session_row s) ≡ s
unfolding map_to_session session_row get text_at to_string
map_to_session-row s i m = ground arith

session_row-IsSessionRow : (s : Session) → IsSessionRow (session_row s)
unfolding session_row get
session_row-IsSessionRow s = record {
  token = s.token;
  expires_at = s.expires_at;
  owner = s.user_id;
  has_owner = refl;
  has_token = refl;
  has_expiry = refl;
}

module _ {S : Type 0} (db : InternalAdapter S) (laws : Contract db.adapter) where
  -- No row has the token.
  abbrev pub IsFresh : S → String → Type 0
  IsFresh s token = first (has_token db laws token) (laws.rows s "sessions") ≡ none

  fresh-live_row :
      (s : S) (token : String) (t : Time) → IsFresh s token → live_row db laws s token t ≡ none
  fresh-live_row s token t f =
      first-none_of_imp (has_token db laws token) _ (live-has_token db laws token t)
        (laws.rows s "sessions") f

module _ {S R : Type 0} (db : InternalAdapter S) (laws : Contract db.adapter) where
  -- Under a fresh token, `Set` succeeds and adds one row to the database.
  pub set_stored_run :
      (s : Session) (w : World S R)
      → IsFresh db laws w.db s.token
      → ((set_stored db s w).0 ≡ ok tt)
        × ((set_stored db s w).1.db ≡ (db.adapter.create "sessions" (session_row s) w.db).1)
  unfolding set_stored
  set_stored_run s w f =
      let e = fresh-live_row db laws w.db s.token (w.clock 0) f in
      (
        ground (
          arith,
          find_session_run db laws s.token w,
          e,
          laws.create_result "sessions" (session_row s) w.db,
        ),
        ground (
          arith,
          find_session_run db laws s.token w,
          e,
          laws.create_result "sessions" (session_row s) w.db,
        ),
      )

  -- Over an adapter that meets the contract, a session that is stored under a token of no row is
  -- found by it, as it is read back from its row, while the database stays as it is, until the
  -- session expires.
  pub get_stored-set_stored :
      (s : Session) (w v : World S R)
      → IsFresh db laws w.db s.token
      → v.db ≡ (set_stored db s w).1.db
      → (v.clock 0).instant < s.expires_at.instant
      → (get_stored db s.token v).0.session ≡ some (map_to_session (session_row s))
  unfolding get_stored session_row-IsSessionRow
  get_stored-set_stored s w v f same alive = find_session_of_row db laws s.token v (session_row s) (
      rw (same, (set_stored_run s w f).1)
        (live_row-create db laws (session_row s) (session_row-IsSessionRow s) w.db (v.clock 0)
          (fresh-live_row db laws w.db s.token (v.clock 0) f) alive))
