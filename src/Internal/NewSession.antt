-- ===== src/Internal/NewSession.antt =====
-- adapter/internal.go: the row that CreateSession stores, and that a lookup finds it.
use beacon_auth.Prelude.{
  String, ◌≡◌, refl, sym, subst, ◌<◌, false, Option, none, some, [], ◌∷◌, arith, first-append, ◌==◌,
  eq_refl, Option-cases, inl, inr,
}
use beacon_auth.Prelude.Dict.{get, put, get-put}
use beacon_auth.Core.Value.{Time, Value, str, time, Record, add_time}
use beacon_auth.Core.Types.{ok, Session, SessionOptions}
use beacon_auth.Core.World.{World, read_clock, read_random}
use beacon_auth.Core.Encoding.{base64_url, take_bytes}
use beacon_auth.Core.Contract.{Contract}
use beacon_auth.Internal.{
  InternalAdapter, find_session_with_user, create_session, with_id, identified, generated,
  IdStrategy, application, database, random_token,
}
use beacon_auth.Internal.Data.{session_data, session_age}
use beacon_auth.Internal.Rows.{map_to_session}
use beacon_auth.Internal.Sessions.{
  IsSessionRow, live_matches, live_row, find_session_of_row, mapped_token, mapped_user,
  mapped_expiry,
}

-- The row holds the token, the owner and the expiry that CreateSession has computed.
pub record Holds (r : Record) (user_id token : String) (expires_at : Time) : Type 0 where
  pub has_user : get r "user_id" ≡ some (str user_id)
  pub has_token : get r "token" ≡ some (str token)
  pub has_expiry : get r "expires_at" ≡ some (time expires_at)

put-Holds :
    {r : Record} {u t : String} {e : Time} (k : String) (v : Value)
    → (k == "user_id") ≡ false
    → (k == "token") ≡ false
    → (k == "expires_at") ≡ false
    → Holds r u t e
    → Holds (put r k v) u t e
put-Holds {r} k v o p q x = record {
  has_user = rw (get-put r k "user_id" v, o) x.has_user;
  has_token = rw (get-put r k "token" v, p) x.has_token;
  has_expiry = rw (get-put r k "expires_at" v, q) x.has_expiry;
}

session_data-Holds :
    (u token : String) (t : Time) (opts : Option SessionOptions)
    → Holds (session_data u token t opts) u token (add_time t (session_age opts))
unfolding session_data get put
session_data-Holds u token t none = record { has_user = refl; has_token = refl; has_expiry = refl }
session_data-Holds u token t (some o) = record {
  has_user = ground arith;
  has_token = ground arith;
  has_expiry = ground arith;
}

identified-Holds :
    {d : Record} {u t : String} {e : Time} (id : Option String)
    → Holds d u t e
    → Holds (identified id d) u t e
identified-Holds none x = x
identified-Holds (some i) x = put-Holds "id" (str i) refl refl refl x

module _ {S R : Type 0} (ia : InternalAdapter S) where
  generated_db : (st : IdStrategy) (w : World S R) → (generated ia st w).1.db ≡ w.db
  unfolding generated
  generated_db application w = ground arith
  generated_db database w = refl

  -- An id, where the program makes one, changes no other field of the row, and the database waits.
  with_id_lem :
      (d : Record) (w : World S R) {u t : String} {e : Time}
      → Holds d u t e
      → (d' : Record) × (v : World S R) × (with_id ia d w ≡ (ok d', v))
        × Holds d' u t e
        × (v.db ≡ w.db)
  unfolding with_id
  with_id_lem d w x = (
    _,
    _,
    refl,
    identified-Holds (generated ia ia.id_strategy w).0 x,
    generated_db ia.id_strategy w,
  )

module _ {S : Type 0} (ia : InternalAdapter S) (laws : Contract ia.adapter) where
  pub live_row-create :
      (d : Record) (x : IsSessionRow d) (s : S) (t : Time)
      → live_row ia laws s x.token t ≡ none
      → t.instant < x.expires_at.instant
      → live_row ia laws (ia.adapter.create "sessions" d s).1 x.token t ≡ some d
  live_row-create d x s t fresh alive = rw (laws.create_rows "sessions" d s "sessions") (
      rw (first-append _ (laws.rows s "sessions") (d ∷ []) fresh)
        (ground (arith, live_matches ia laws d x x.token t, eq_refl x.token)))

module _ {S R : Type 0} (ia : InternalAdapter S) (laws : Contract ia.adapter) where
  -- A successful CreateSession has stored one row, from which the session it returns is read.
  create_session_row :
      (u : String) (opts : Option SessionOptions) (w w' : World S R) (s : Session)
      → create_session ia u opts w ≡ (ok s, w')
      → (d : Record) × (token : String) × Holds d u token (add_time (w.clock 0) (session_age opts))
        × (s ≡ map_to_session d)
        × (w'.db ≡ (ia.adapter.create "sessions" d w.db).1)
  unfolding create_session random_token
  create_session_row u opts w w' s h = elim (Option-cases (w.entropy 0)) [
    | inl e ↦ absurd (ground arith)
    | inr (f, e) ↦
        let token = base64_url (take_bytes 32 f) in
        let (d, v, run, x, db) =
          with_id_lem ia (session_data u token (w.clock 0) opts) (read_random (read_clock w).1).1
            (session_data-Holds u token (w.clock 0) opts) in
        (
          d,
          token,
          x,
          ground (arith, laws.create_result "sessions" d w.db),
          ground (arith, laws.create_result "sessions" d w.db),
        )
  ]

  -- Over an adapter that meets the contract, a session that CreateSession returns belongs to the
  -- user, expires at the requested age after the first reading of the clock, and a lookup of its
  -- token finds exactly it: as long as the clock has not reached the expiry, and no earlier
  -- unexpired row has the same token.
  pub create_session-find :
      (u : String) (opts : Option SessionOptions) (w w' : World S R) (s : Session)
      → create_session ia u opts w ≡ (ok s, w')
      → (w'.clock 0).instant < s.expires_at.instant
      → live_row ia laws w.db s.token (w'.clock 0) ≡ none
      → (s.user_id ≡ u)
        × (s.expires_at ≡ add_time (w.clock 0) (session_age opts))
        × ((find_session_with_user ia s.token w').0.session ≡ some s)
  create_session-find u opts w w' s h alive fresh =
      let (d, token, x, from, db) = create_session_row u opts w w' s h in
      let x' : IsSessionRow d = record {
        token = token;
        expires_at = add_time (w.clock 0) (session_age opts);
        owner = u;
        has_owner = x.has_user;
        has_token = x.has_token;
        has_expiry = x.has_expiry;
      } in
      let tok : token ≡ s.token = ground (arith, mapped_token d x') in
      let age : s.expires_at ≡ add_time (w.clock 0) (session_age opts) =
        ground (arith, mapped_expiry d x') in
      (
        ground (arith, mapped_user d x.has_user),
        age,
        subst (λ k. (find_session_with_user ia k w').0.session ≡ some s) tok
            (rw from (
              find_session_of_row ia laws token w' d (
                rw db (
                  live_row-create ia laws d x' w.db (w'.clock 0)
                    (subst (λ k. live_row ia laws w.db k (w'.clock 0) ≡ none) (sym tok) fresh)
                    (subst (λ e. (w'.clock 0).instant < e.instant) age alive))))),
      )
