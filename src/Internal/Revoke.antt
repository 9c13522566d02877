-- ===== src/Internal/Revoke.antt =====
-- adapter/internal.go: after a session is revoked, a lookup does not return it.
use beacon_auth.Prelude.{
  String, ◌≡◌, ◌≢◌, ◌⊎◌, ◌≤◌, Bool, true, not, none, some, [], ◌∷◌, arith, select, first-All,
  first-select, first-none_of_imp, select-without_first, select-passes, All-select, length, All,
  ◌==◌, eq_iff, Option-cases, inl, inr,
}
use beacon_auth.Core.Value.{Time, str, time, Record}
use beacon_auth.Core.Types.{ok, Session}
use beacon_auth.Core.Query.{clause, query, op_equal, op_greater_than}
use beacon_auth.Core.World.{World}
use beacon_auth.Core.Contract.{Contract}
use beacon_auth.Internal.{
  InternalAdapter, find_session_with_user, session_query, revoke_session, revoke_all_user_sessions,
}
use beacon_auth.Internal.Sessions.{
  IsSessionRow, live_row, find_session_run, find_session_of_row, mapped_user,
}

module _ {S : Type 0} (ia : InternalAdapter S) (laws : Contract ia.adapter) where
  -- The test of the query that revokes by token.
  abbrev pub has_token : String → Record → Bool
  has_token token r = laws.matches r (clause "token" op_equal (str token) ∷ [])

  abbrev pub has_owner : String → Record → Bool
  has_owner user_id r = laws.matches r (clause "user_id" op_equal (str user_id) ∷ [])

  pub live-has_token :
      (token : String) (t : Time) (r : Record)
      → laws.matches r (session_query token t).clauses ≡ true
      → has_token token r ≡ true
  live-has_token token t r h = ground (
    arith,
    laws.matches_cons r (clause "token" op_equal (str token))
        (clause "expires_at" op_greater_than (time t) ∷ []),
    laws.matches_cons r (clause "token" op_equal (str token)) [],
    laws.matches_nil r,
  )

  pub has_owner_lem :
      (user_id : String) (r : Record) (x : IsSessionRow r)
      → has_owner user_id r ≡ (x.owner == user_id)
  has_owner_lem user_id r x = ground (
    arith,
    laws.matches_cons r (clause "user_id" op_equal (str user_id)) [],
    laws.matches_nil r,
    laws.holds_equal r "user_id" x.owner user_id x.has_owner,
  )

module _ {S R : Type 0} (ia : InternalAdapter S) (laws : Contract ia.adapter) where
  -- Over an adapter that meets the contract, RevokeSession succeeds, and no lookup of the token
  -- then finds a session: if the token is that of one row at most.
  pub find-revoke_session :
      (token : String) (w : World S R)
      → length (select (has_token ia laws token) (laws.rows w.db "sessions")) ≤ 1
      → ((revoke_session ia token w).0 ≡ ok tt)
        × ((find_session_with_user ia token (revoke_session ia token w).1).0.session ≡ none)
  unfolding revoke_session
  find-revoke_session token w h = (
    laws.delete_result _ w.db,
    ground (arith, find_session_run ia laws token (revoke_session ia token w).1, gone),
  )
    where
      gone : live_row ia laws (revoke_session ia token w).1.db token (w.clock 0) ≡ none
      gone =
          first-none_of_imp (has_token ia laws token) _ (live-has_token ia laws token (w.clock 0))
            (laws.rows (revoke_session ia token w).1.db "sessions")
            (first-select (has_token ia laws token)
              (laws.rows (revoke_session ia token w).1.db "sessions")
              (rw
                (laws.delete_rows (query "sessions" (clause "token" op_equal (str token) ∷ [])) w.db
                  "sessions")
                (select-without_first (has_token ia laws token) (laws.rows w.db "sessions") h)))

  -- Over an adapter that meets the contract, and with rows of sessions of the types that the code
  -- writes, RevokeAllUserSessions reports the number of the user's rows, and no lookup of any token
  -- then finds a session of that user.
  pub find-revoke_user :
      (user_id token : String) (w : World S R)
      → All IsSessionRow (laws.rows w.db "sessions")
      → ((revoke_all_user_sessions ia user_id w).0
          ≡ ok (length (select (has_owner ia laws user_id) (laws.rows w.db "sessions"))))
        × ((s : Session)
            → (find_session_with_user ia token (revoke_all_user_sessions ia user_id w).1).0.session
              ≡ some s
            → s.user_id ≢ user_id)
  unfolding revoke_all_user_sessions
  find-revoke_user user_id token w h = (
    laws.delete_many_result _ w.db,
    λ s e. not_of_user s e (Option-cases (live_row ia laws v.db token (v.clock 0))),
  )
    where
      v : World S R
      v = (revoke_all_user_sessions ia user_id w).1

      is_kept : Record → Bool
      is_kept r = not (has_owner ia laws user_id r)

      after_rows : laws.rows v.db "sessions" ≡ select is_kept (laws.rows w.db "sessions")
      after_rows =
          laws.delete_many_rows (query "sessions" (clause "user_id" op_equal (str user_id) ∷ []))
            w.db "sessions"

      not_of_user :
          (s : Session)
          → (find_session_with_user ia token v).0.session ≡ some s
          → (live_row ia laws v.db token (v.clock 0) ≡ none)
            ⊎ ((r : Record) × (live_row ia laws v.db token (v.clock 0) ≡ some r))
          → s.user_id ≢ user_id
      not_of_user s e (inl missing) = absurd (ground (arith, find_session_run ia laws token v))
      not_of_user s e (inr (r, taken)) =
          let rows_ok =
            rw (← after_rows) at (All-select IsSessionRow is_kept (laws.rows w.db "sessions") h) in
          let kept_ok = rw (← after_rows) at (select-passes is_kept (laws.rows w.db "sessions")) in
          let x = first-All IsSessionRow _ _ r rows_ok taken in
          let k = first-All (λ r. is_kept r ≡ true) _ _ r kept_ok taken in
          λ same. ground (
            arith,
            find_session_of_row ia laws token v r taken,
            mapped_user r x.has_owner,
            has_owner_lem ia laws user_id r x,
            eq_iff x.owner user_id,
            k,
          )
