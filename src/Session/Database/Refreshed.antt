-- ===== src/Session/Database/Refreshed.antt =====
-- session/db_store.go: `Set` of a session that is there moves its expiry.
use beacon_auth.Prelude.{
  ◌≡◌, ◌<◌, ◌≤◌, refl, sym, ◌∙◌, Bool, true, false, some, List, [], ◌∷◌, arith, length, select,
  first, change_first, first-select, first-none_of_imp, first_sound, eq_iff, Bool-cases, inl, inr,
}
use beacon_auth.Prelude.Dict.{get, put, assign, get-put}
use beacon_auth.Core.Value.{Time, str, time, Record}
use beacon_auth.Core.Types.{ok, Session}
use beacon_auth.Core.World.{World}
use beacon_auth.Core.Contract.{Contract}
use beacon_auth.Internal.{InternalAdapter, session_query}
use beacon_auth.Internal.Rows.{map_to_session}
use beacon_auth.Internal.Sessions.{
  IsSessionRow, live_row, user_row, live_matches, find_session_run, find_session_of_row,
  mapped_token, mapped_user, mapped_expiry,
}
use beacon_auth.Internal.Revoke.{has_token, live-has_token}
use beacon_auth.Session.Database.{set_stored, get_stored, token_query, refreshed}

no_more : {A : Type 0} (ys : List A) → length ys ≤ 0 → ys ≡ []
no_more [] z = refl
no_more (y ∷ ys) z = absurd (omega arith)

-- The one element that passes is changed, and found by a later test that the change passes.
first-change_first :
    {A : Type 0} (p q later : A → Bool) (f : A → A) (xs : List A) (r : A)
    → ((x : A) → q x ≡ true → p x ≡ true)
    → ((x : A) → later x ≡ true → p x ≡ true)
    → length (select p xs) ≤ 1
    → first q xs ≡ some r
    → later (f r) ≡ true
    → (first p xs ≡ some r) × (first later (change_first p f xs) ≡ some (f r))
first-change_first p q later f [] r i j one h k = absurd (ground arith)
first-change_first p q later f (x ∷ xs) r i j one h k = elim (Bool-cases (p x)) [
  | inr n ↦
      (let not_q : q x ≡ false = ground (arith, i x) in
        let not_later : later x ≡ false = ground (arith, j x) in
        let ih = first-change_first p q later f xs r i j (rw n at one) (rw not_q at h) k in
        (rw n ih.0, rw (n, not_later) ih.1))
  | inl y ↦ elim (Bool-cases (q x)) [
    | inl a ↦ (let same : x ≡ r = ground arith in (rw (y, same), rw (y, same, k)))
    | inr a ↦ absurd (
        ground (
          arith,
          first-none_of_imp p q i xs (first-select p xs (no_more (select p xs) (ground arith))),
        ))
  ]
]

-- What a refreshed row keeps, and what it does not.
refreshed_fields :
    (r : Record) (x : IsSessionRow r) (s : Session) (t : Time)
    → (get (assign r (refreshed s t)) "token" ≡ some (str x.token))
      × (get (assign r (refreshed s t)) "user_id" ≡ some (str x.owner))
      × (get (assign r (refreshed s t)) "expires_at" ≡ some (time s.expires_at))
unfolding assign
refreshed_fields r x s t =
    let once = put r "expires_at" (time s.expires_at) in
    (
      get-put once "updated_at" "token" (time t)
          ∙ get-put r "expires_at" "token" (time s.expires_at)
          ∙ x.has_token,
      get-put once "updated_at" "user_id" (time t)
          ∙ get-put r "expires_at" "user_id" (time s.expires_at)
          ∙ x.has_owner,
      get-put once "updated_at" "expires_at" (time t)
          ∙ get-put r "expires_at" "expires_at" (time s.expires_at),
    )

module _ {S : Type 0} (db : InternalAdapter S) (laws : Contract db.adapter) where
  live_row-refreshed :
      (s : Session) (t later : Time) (b : S) (r : Record) (now : Time)
      → IsSessionRow r
      → live_row db laws b s.token now ≡ some r
      → length (select (has_token db laws s.token) (laws.rows b "sessions")) ≤ 1
      → later.instant < s.expires_at.instant
      → live_row db laws (db.adapter.update (token_query s.token) (refreshed s t) b).1 s.token later
        ≡ some (assign r (refreshed s t))
  live_row-refreshed s t later b r now x live one alive =
      let (token, user, expiry) = refreshed_fields r x s t in
      let y : IsSessionRow (assign r (refreshed s t)) = record {
        token = x.token;
        expires_at = s.expires_at;
        owner = x.owner;
        has_owner = user;
        has_token = token;
        has_expiry = expiry;
      } in
      let found : laws.matches r (session_query s.token now).clauses ≡ true =
        first_sound (λ r. laws.matches r (session_query s.token now).clauses)
          (laws.rows b "sessions") r live in
      let passes : laws.matches (assign r (refreshed s t)) (session_query s.token later).clauses
          ≡ true =
        ground (
          arith,
          live_matches db laws r x s.token now,
          live_matches db laws (assign r (refreshed s t)) y s.token later,
        ) in
      rw (laws.update_rows (token_query s.token) (refreshed s t) b "sessions")
        (first-change_first (has_token db laws s.token)
          (λ r. laws.matches r (session_query s.token now).clauses)
          (λ r. laws.matches r (session_query s.token later).clauses)
          (λ r. assign r (refreshed s t)) (laws.rows b "sessions") r
          (live-has_token db laws s.token now) (live-has_token db laws s.token later) one live
          passes).1

module _ {S R : Type 0} (db : InternalAdapter S) (laws : Contract db.adapter) where
  set_found_run :
      (s : Session) (w : World S R) (r : Record) (u : Record)
      → live_row db laws w.db s.token (w.clock 0) ≡ some r
      → user_row db laws w.db (map_to_session r).user_id ≡ some u
      → ((set_stored db s w).0 ≡ ok tt)
        × ((set_stored db s w).1.db
            ≡ (db.adapter.update (token_query s.token) (refreshed s (w.clock 1)) w.db).1)
  unfolding set_stored
  set_found_run s w r u live user = (
    ground (
      arith,
      find_session_run db laws s.token w,
      laws.update_result (token_query s.token) (refreshed s (w.clock 1)) w.db,
    ),
    ground (
      arith,
      find_session_run db laws s.token w,
      laws.update_result (token_query s.token) (refreshed s (w.clock 1)) w.db,
    ),
  )

  -- Setting a session that is in the database, with its user, succeeds and gives it the expiry of the
  -- session: a lookup of the token finds, until then, a session of the same token and user with exactly
  -- that expiry; if the token is that of one row at most.
  pub get_stored-refreshed :
      (s : Session) (w v : World S R) (r u : Record)
      → IsSessionRow r
      → live_row db laws w.db s.token (w.clock 0) ≡ some r
      → user_row db laws w.db (map_to_session r).user_id ≡ some u
      → length (select (has_token db laws s.token) (laws.rows w.db "sessions")) ≤ 1
      → v.db ≡ (set_stored db s w).1.db
      → (v.clock 0).instant < s.expires_at.instant
      → ((set_stored db s w).0 ≡ ok tt)
        × ((x : Session) × ((get_stored db s.token v).0.session ≡ some x)
            × (x.token ≡ s.token)
            × (x.user_id ≡ (map_to_session r).user_id)
            × (x.expires_at ≡ s.expires_at))
  unfolding get_stored
  get_stored-refreshed s w v r u x live user one same alive =
      let (done, db') = set_found_run s w r u live user in
      let d = assign r (refreshed s (w.clock 1)) in
      let (token, owner, expiry) = refreshed_fields r x s (w.clock 1) in
      let y : IsSessionRow d = record {
        token = x.token;
        expires_at = s.expires_at;
        owner = x.owner;
        has_owner = owner;
        has_token = token;
        has_expiry = expiry;
      } in
      let found : live_row db laws v.db s.token (v.clock 0) ≡ some d =
        rw (same, db')
          (live_row-refreshed db laws s (w.clock 1) (v.clock 0) w.db r (w.clock 0) x live one
            alive) in
      let holds : laws.matches d (session_query s.token (v.clock 0)).clauses ≡ true =
        first_sound (λ r. laws.matches r (session_query s.token (v.clock 0)).clauses)
          (laws.rows v.db "sessions") d found in
      (
        done,
        (
          map_to_session d,
          find_session_of_row db laws s.token v d found,
          ground (
            arith,
            holds,
            live_matches db laws d y s.token (v.clock 0),
            mapped_token d y,
            eq_iff x.token s.token,
          ),
          mapped_user d owner ∙ sym (mapped_user r x.has_owner),
          mapped_expiry d y,
        ),
      )
