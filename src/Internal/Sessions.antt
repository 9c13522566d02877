-- ===== src/Internal/Sessions.antt =====
-- adapter/internal.go: what the operations on sessions promise, over an adapter that meets the
-- contract.
use beacon_auth.Prelude.{
  String, ◌≡◌, ◌<◌, ap, sym, ◌∙◌, true, ◌&&◌, Option, none, some, arith, first, All, first-All,
  first_sound, ◌==◌, eq_iff, Option-cases, inl, inr,
}
use beacon_auth.Prelude.Dict.{get}
use beacon_auth.Core.Value.{Time, str, time, Record, after}
use beacon_auth.Core.Types.{ok, Session, session_not_found}
use beacon_auth.Core.World.{World, read_clock}
use beacon_auth.Core.Contract.{Contract}
use beacon_auth.Internal.{
  InternalAdapter, find_session_with_user, session_query, user_query, found_user, Lookup,
}
use beacon_auth.Internal.Rows.{map_to_session, map_to_user, text_at, to_string}

-- A row of the table of sessions has a token, an expiry and an owner of the types that the code writes.
pub record IsSessionRow (r : Record) : Type 0 where
  pub token : String
  pub expires_at : Time
  pub owner : String
  pub has_owner : get r "user_id" ≡ some (str owner)
  pub has_token : get r "token" ≡ some (str token)
  pub has_expiry : get r "expires_at" ≡ some (time expires_at)

pub mapped_token : (r : Record) (x : IsSessionRow r) → (map_to_session r).token ≡ x.token
unfolding map_to_session
mapped_token r x = rw x.has_token

pub mapped_user :
    (r : Record) {u : String} → get r "user_id" ≡ some (str u) → (map_to_session r).user_id ≡ u
unfolding map_to_session text_at to_string
mapped_user r h = ground arith

pub mapped_expiry : (r : Record) (x : IsSessionRow r) → (map_to_session r).expires_at ≡ x.expires_at
unfolding map_to_session
mapped_expiry r x = rw x.has_expiry

module _ {S : Type 0} (ia : InternalAdapter S) (laws : Contract ia.adapter) where
  -- The row that a lookup by token takes at a time.
  abbrev pub live_row : S → String → Time → Option Record
  live_row s token t =
      first (λ r. laws.matches r (session_query token t).clauses) (laws.rows s "sessions")

  -- The row of a user.
  abbrev pub user_row : S → String → Option Record
  user_row s id = first (λ r. laws.matches r (user_query "id" id).clauses) (laws.rows s "users")

  -- What a lookup should return, in terms of the rows.
  abbrev pub lookup_result : S → Option Record → Lookup
  lookup_result s none = record { session = none; user = none; error = some session_not_found }
  lookup_result s (some r) =
      found_user (map_to_session r) (ok (user_row s (map_to_session r).user_id))

  pub live_matches :
      (r : Record) (x : IsSessionRow r) (token : String) (t : Time)
      → laws.matches r (session_query token t).clauses
        ≡ ((x.token == token) && (after x.expires_at t && true))
  live_matches r x token t = rw (
    laws.matches_cons,
    laws.matches_cons,
    laws.matches_nil,
    laws.holds_equal r "token" x.token token x.has_token,
    laws.holds_after r "expires_at" x.expires_at t x.has_expiry,
  )

module _ {S R : Type 0} (ia : InternalAdapter S) (laws : Contract ia.adapter) where
  pub find_session_run :
      (token : String) (w : World S R)
      → find_session_with_user ia token w
        ≡ (lookup_result ia laws w.db (live_row ia laws w.db token (w.clock 0)), (read_clock w).1)
  unfolding find_session_with_user
  find_session_run token w = elim (Option-cases (live_row ia laws w.db token (w.clock 0))) [
    | inl e ↦ rw e (ground (arith, laws.find_one_run (session_query token (w.clock 0)) w.db))
    | inr (r, e) ↦ rw e (
        ground (
          arith,
          laws.find_one_run (session_query token (w.clock 0)) w.db,
          laws.find_one_run (user_query "id" (map_to_session r).user_id) w.db,
        ))
  ]

  -- Whatever becomes of its user, the session of the row that is taken is returned.
  pub find_session_of_row :
      (token : String) (w : World S R) (r : Record)
      → live_row ia laws w.db token (w.clock 0) ≡ some r
      → (find_session_with_user ia token w).0.session ≡ some (map_to_session r)
  find_session_of_row token w r e = ground (arith, find_session_run token w)

  -- Over an adapter that meets the contract, and with rows of sessions of the types that the code
  -- writes, a lookup by token returns only a session of that token, and only before its expiry,
  -- whether or not it also returns an error.
  pub find_session_sound :
      (token : String) (w : World S R) (s : Session)
      → All IsSessionRow (laws.rows w.db "sessions")
      → (find_session_with_user ia token w).0.session ≡ some s
      → (s.token ≡ token) × ((w.clock 0).instant < s.expires_at.instant)
  find_session_sound token w s rows_ok h = elim (Option-cases (live_row ia laws w.db token t)) [
    | inl e ↦ absurd (ground (arith, find_session_run token w))
    | inr (r, e) ↦
        let x : IsSessionRow r = first-All IsSessionRow _ _ r rows_ok e in
        ground (
          arith,
          find_session_run token w,
          first_sound (λ r. laws.matches r (session_query token t).clauses)
              (laws.rows w.db "sessions") r e,
          live_matches ia laws r x token t,
          mapped_token r x,
          mapped_expiry r x,
          eq_iff x.token token,
        )
  ]
    where
      t : Time
      t = w.clock 0

  -- A lookup without an error has found the row of the session's user.
  pub find_session_user :
      (token : String) (w : World S R) (s : Session)
      → (find_session_with_user ia token w).0.session ≡ some s
      → (find_session_with_user ia token w).0.error ≡ none
      → (row : Record) × (user_row ia laws w.db s.user_id ≡ some row)
        × ((find_session_with_user ia token w).0.user ≡ some (map_to_user row))
  find_session_user token w s h good =
      let found = find_session_with_user ia token w in
      elim (Option-cases (live_row ia laws w.db token (w.clock 0))) [
        | inl e ↦ absurd (ground (arith, find_session_run token w))
        | inr (r, e) ↦
            let same : map_to_session r ≡ s = ground (arith, find_session_of_row token w r e) in
            let user = user_row ia laws w.db (map_to_session r).user_id in
            let run : found.0 ≡ found_user (map_to_session r) (ok user) =
              ap (λ (p : Lookup × World S R). p.0) (find_session_run token w) ∙ rw e in
            elim (Option-cases user) [
              | inl n ↦ absurd (
                  ground (
                    arith,
                    ap (λ (x : Lookup). x.error)
                        (run ∙ ap (λ k. found_user (map_to_session r) (ok k)) n),
                  ))
              | inr (row, u) ↦ (
                row,
                ap (λ (k : Session). user_row ia laws w.db k.user_id) (sym same) ∙ u,
                ap (λ (x : Lookup). x.user)
                    (run ∙ ap (λ k. found_user (map_to_session r) (ok k)) u),
              )
            ]
      ]
