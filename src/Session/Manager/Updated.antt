-- ===== src/Session/Manager/Updated.antt =====
-- session/manager.go: Update moves the expiry of a session on.
use beacon_auth.Prelude.{
  ◌≡◌, ◌<◌, ◌≤◌, refl, ap, ◌∙◌, false, some, arith, length, select, ltb_ℤ, sub_ℕ,
}
use beacon_auth.Core.Value.{Record, add_time}
use beacon_auth.Core.Types.{Result, ok, Session}
use beacon_auth.Core.World.{World, read_clock}
use beacon_auth.Core.Contract.{Contract}
use beacon_auth.Internal.{InternalAdapter}
use beacon_auth.Internal.Rows.{map_to_session}
use beacon_auth.Internal.Sessions.{IsSessionRow, live_row, user_row}
use beacon_auth.Internal.Revoke.{has_token}
use beacon_auth.Session.Config.{Config}
use beacon_auth.Session.Database.{set_stored}
use beacon_auth.Session.Database.Refreshed.{get_stored-refreshed}
use beacon_auth.Session.Manager.{get, update}
use beacon_auth.Session.Manager.Created.{db_manager}

-- The session with its expiry and its time of change moved on.
abbrev pub moved : {S R : Type 0} → Config → Session → World S R → Session
moved c s w = record s { expires_at = add_time (w.clock 1) c.expires_in; updated_at = w.clock 2 }

-- The world after three readings of the clock.
abbrev pub third : {S R : Type 0} → World S R → World S R
third w = (read_clock (read_clock (read_clock w).1).1).1

module _ {S R : Type 0} (c : Config) (d : InternalAdapter S) (laws : Contract d.adapter) where
  update_run :
      (s : Session) (w : World S R)
      → c.absolute_expiry ≡ false
      → ltb_ℤ (sub_ℕ (w.clock 0).instant s.updated_at.instant) c.update_age ≡ false
      → (set_stored d (moved c s w) (third w)).0 ≡ ok tt
      → update (db_manager c d) s w ≡ (ok tt, moved c s w, (set_stored d (moved c s w) (third w)).1)
  unfolding update
  update_run s w sliding aged done = ground arith

  -- With the database, over an adapter that meets the contract, as the only store, and a sliding
  -- expiry, Update of a session whose last change is as old as UpdateAge succeeds, moves its expiry
  -- to ExpiresIn from now, and Get then finds a session of the same token and user with exactly
  -- that expiry, until then: if the row of the session, of the types that the code writes, and its
  -- user are in the database, and the token is that of one row at most.
  pub get-update :
      (s : Session) (w v : World S R) (r u : Record)
      → c.absolute_expiry ≡ false
      → ltb_ℤ (sub_ℕ (w.clock 0).instant s.updated_at.instant) c.update_age ≡ false
      → IsSessionRow r
      → live_row d laws w.db s.token (w.clock 3) ≡ some r
      → user_row d laws w.db (map_to_session r).user_id ≡ some u
      → length (select (has_token d laws s.token) (laws.rows w.db "sessions")) ≤ 1
      → v ≡ (update (db_manager c d) s w).2
      → (v.clock 0).instant < (add_time (w.clock 1) c.expires_in).instant
      → ((update (db_manager c d) s w).0 ≡ ok tt)
        × ((x : Session) × ((get (db_manager {R = R} c d) s.token v).0.session ≡ some x)
            × (x.token ≡ s.token)
            × (x.user_id ≡ (map_to_session r).user_id)
            × (x.expires_at ≡ add_time (w.clock 1) c.expires_in))
  unfolding get
  get-update s w v r u sliding aged x live user one same alive =
      let z = (set_stored d (moved c s w) (third w)).1 in
      let done =
        (get_stored-refreshed d laws (moved c s w) (third w) (record z { clock = v.clock }) r u x
          live user one refl alive).0 in
      let run = update_run s w sliding aged done in
      let v_db : v.db ≡ z.db =
        ap (λ (k : World S R). k.db)
          (same ∙ ap (λ (p : Result Unit × Session × World S R). p.2) run) in
      (
        ap (λ (p : Result Unit × Session × World S R). p.0) run,
        (get_stored-refreshed d laws (moved c s w) (third w) v r u x live user one v_db alive).1,
      )
