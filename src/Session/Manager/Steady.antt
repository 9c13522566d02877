-- ===== src/Session/Manager/Steady.antt =====
-- session/manager.go: `Create` reads the clock one reading after the other, so that a clock that does
-- not go back still does not go back after it.
use beacon_auth.Prelude.{ℕ, suc, ◌≤◌, String, Option, none, some, Option-cases, inl, inr}
use beacon_auth.Core.Value.{Time, Record}
use beacon_auth.Core.Types.{
  Error, user_not_found, session_not_found, failed, Result, ok, err, Session, User, SessionOptions,
}
use beacon_auth.Core.World.{World, Act, now, pure, on_db, wrap, continue, ◌>>=◌}
use beacon_auth.Internal.{
  InternalAdapter, find_session_with_user, found_session, session_query, find_user_by_id,
  user_or_missing, user_query,
}
use beacon_auth.Core.Query.{Op}
use beacon_auth.Session.Database.{set_stored, set_found, token_query, refreshed, session_row}
use beacon_auth.Session.Random.{generate_random_string, generate_id, generate_token}
use beacon_auth.Session.Manager.{draft, expiry, fetch_user, store_in_db, new_session}
use beacon_auth.Session.Stores.{Manager}

-- No reading of the clock is before the one that it follows.
abbrev pub Steady : (ℕ → Time) → Type 0
Steady clock = (n : ℕ) → (clock n).instant ≤ (clock (suc n)).instant

module _ {S R : Type 0} where
  -- A steady clock stays one.
  abbrev pub Steadily : {A : Type 0} → Act S R A → Type 0
  Steadily f = (w : World S R) → Steady w.clock → Steady (f w).1.clock

  continue-Steady :
      {A B : Type 0} (r : Result A) (g : A → Act S R B) (w : World S R)
      → ((a : A) → Steadily (g a))
      → Steady w.clock
      → Steady (continue r g w).1.clock
  continue-Steady (ok a) g w l h = l a w h
  continue-Steady (err e) g w l h = h

  bind-Steadily :
      {A B : Type 0} (f : Act S R A) (g : A → Act S R B)
      → Steadily f
      → ((a : A) → Steadily (g a))
      → Steadily (f >>= g)
  bind-Steadily f g k l w h = continue-Steady (f w).0 g (f w).1 l (k w h)

  now-Steadily : Steadily now
  now-Steadily w h n = h (suc n)

  generate_random_string-Steadily : (n : ℕ) → Steadily (generate_random_string n)
  unfolding generate_random_string
  generate_random_string-Steadily n w h = elim (Option-cases (w.entropy 0)) [
    | inl e ↦ rw e h
    | inr (f, e) ↦ rw e h
  ]

  module _ (d : InternalAdapter S) where
    found_session-Steady :
        (r : Result (Option Record)) (w : World S R)
        → Steady w.clock
        → Steady (found_session d r w).1.clock
    found_session-Steady (err e) w h = h
    found_session-Steady (ok none) w h = h
    found_session-Steady (ok (some r)) w h = h

    on_db-Steadily : {A : Type 0} (f : Op S A) → Steadily (on_db f >>= λ _. pure tt)
    on_db-Steadily f w h = continue-Steady (on_db f w).0 (λ _. pure tt) (on_db f w).1 (λ _ v k. k) h

    update_row-Steadily :
        (s : Session)
        → Steadily (
            now >>= λ t.
            on_db (d.adapter.update (token_query s.token) (refreshed s t)) >>= λ _. pure tt)
    update_row-Steadily s w h =
        on_db-Steadily (d.adapter.update (token_query s.token) (refreshed s (w.clock 0))) (now w).1
          (now-Steadily w h)

    create_row-Steadily :
        (s : Session)
        → Steadily (on_db (d.adapter.create "sessions" (session_row s)) >>= λ _. pure tt)
    create_row-Steadily s = on_db-Steadily (d.adapter.create "sessions" (session_row s))

    set_found-Steadily :
        (s : Session) (old : Option Session) (e : Option Error) → Steadily (set_found d s old e)
    set_found-Steadily s old (some user_not_found) = λ w h. h
    set_found-Steadily s old (some (failed text)) = λ w h. h
    set_found-Steadily s (some o) none = update_row-Steadily s
    set_found-Steadily s (some o) (some session_not_found) = update_row-Steadily s
    set_found-Steadily s none none = create_row-Steadily s
    set_found-Steadily s none (some session_not_found) = create_row-Steadily s

    set_stored-Steadily : (s : Session) → Steadily (set_stored d s)
    unfolding set_stored find_session_with_user
    set_stored-Steadily s w h =
        let (r, v) = on_db (d.adapter.find_one (session_query s.token (w.clock 0))) (now w).1 in
        let found = found_session d r v in
        set_found-Steadily s found.0.session found.0.error found.1
          (found_session-Steady r v (λ n. h (suc n)))

    user_or_missing-Steadily : (r : Option Record) → Steadily (user_or_missing d r)
    user_or_missing-Steadily none w h = h
    user_or_missing-Steadily (some r) w h = h

    find_user_by_id-Steadily : (id : String) → Steadily (find_user_by_id d id)
    unfolding find_user_by_id
    find_user_by_id-Steadily id w h =
        let (r, v) = on_db (d.adapter.find_one (user_query "id" id)) w in
        continue-Steady r (user_or_missing d) v (user_or_missing-Steadily) h

  module _ (m : Manager S R) where
    expiry-Steadily : (opts : Option SessionOptions) → Steadily (expiry m opts)
    expiry-Steadily none w h n = h (suc n)
    expiry-Steadily (some o) w h n = elim (Option-cases o.expires_in) [
      | inl e ↦ rw e (h (suc n))
      | inr (a, e) ↦ rw e (h (suc (suc n)))
    ]

    pub draft-Steadily :
        (user_id : String) (opts : Option SessionOptions) → Steadily (draft m user_id opts)
    unfolding draft
    draft-Steadily user_id opts =
        let last : Time → String → String → Act S R Session =
          λ e id token. now >>= λ t. pure (new_session id user_id token e t opts) in
        let tokens : Time → String → Act S R Session =
          λ e id. wrap "failed to generate token" generate_token >>= last e id in
        let ids : Time → Act S R Session =
          λ e. wrap "failed to generate session ID" generate_id >>= tokens e in
        bind-Steadily (expiry m opts) ids (expiry-Steadily opts) (λ e.
          bind-Steadily (wrap "failed to generate session ID" generate_id) (tokens e)
            (generate_random_string-Steadily 16)
            (λ id.
              bind-Steadily (wrap "failed to generate token" generate_token) (last e id)
                (generate_random_string-Steadily 32) (λ token w h n. h (suc n))))

    pub fetch_user-Steadily :
        (u : Option User) (user_id : String) → Steadily (fetch_user m u user_id)
    fetch_user-Steadily (some u) user_id w h = h
    fetch_user-Steadily none user_id w h = elim (Option-cases m.db_store) [
      | inl e ↦ rw e h
      | inr (d, e) ↦ rw e (
          bind-Steadily (wrap "failed to find user" (find_user_by_id d user_id))
            (λ u. pure (some u)) (find_user_by_id-Steadily d user_id) (λ u w h. h) w h)
    ]

    pub store_in_db-Steadily : (s : Session) → Steadily (store_in_db m s)
    store_in_db-Steadily s w h = elim (Option-cases m.db_store) [
      | inl e ↦ rw e h
      | inr (d, e) ↦ rw e (set_stored-Steadily d s w h)
    ]
