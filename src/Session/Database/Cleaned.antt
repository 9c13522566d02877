-- ===== src/Session/Database/Cleaned.antt =====
-- session/db_store.go: the clean-up takes away nothing that a lookup can still find.
use beacon_auth.Prelude.{
  String, ◌≡◌, ◌≤◌, refl, ap, Bool, false, not, some, List, [], ◌∷◌, arith, select, first, All,
  if◌then◌else◌, Bool-cases, inl, inr,
}
use beacon_auth.Core.Value.{Time, time, Record}
use beacon_auth.Core.Types.{ok}
use beacon_auth.Core.Query.{clause, query, op_less_than}
use beacon_auth.Core.World.{World}
use beacon_auth.Core.Contract.{Contract}
use beacon_auth.Internal.{InternalAdapter, session_query}
use beacon_auth.Internal.Sessions.{IsSessionRow, live_row, live_matches}
use beacon_auth.Session.Database.{cleanup_stored}

-- Elements that the test cannot pass may be dropped.
first-select_kept :
    {A : Type 0} (P : A → Type 0) (p kept : A → Bool)
    → ((x : A) → P x → kept x ≡ false → p x ≡ false)
    → (xs : List A) → All P xs
    → first p (select kept xs) ≡ first p xs
first-select_kept P p kept drop [] h = refl
first-select_kept P p kept drop (x ∷ xs) h = elim (Bool-cases (kept x)) [
  | inl k ↦ rw k (ap (λ r. if p x then some x else r) (first-select_kept P p kept drop xs h.1))
  | inr k ↦ rw (k, drop x h.0 k) (first-select_kept P p kept drop xs h.1)
]

module _ {S : Type 0} (db : InternalAdapter S) (laws : Contract db.adapter) where
  expired_not_live :
      (token : String) (t u : Time) (r : Record)
      → t.instant ≤ u.instant
      → IsSessionRow r
      → not (laws.matches r (clause "expires_at" op_less_than (time t) ∷ [])) ≡ false
      → laws.matches r (session_query token u).clauses ≡ false
  expired_not_live token t u r later x gone = ground (
    arith,
    live_matches db laws r x token u,
    laws.matches_cons r (clause "expires_at" op_less_than (time t)) [],
    laws.matches_nil r,
    laws.holds_before r "expires_at" x.expires_at t x.has_expiry,
  )

module _ {S R : Type 0} (db : InternalAdapter S) (laws : Contract db.adapter) where
  -- Over an adapter that meets the contract, and with rows of sessions of the types that the code
  -- writes, Cleanup of the database succeeds, and from then on a lookup of any token takes exactly
  -- the row that it would have taken without it.
  pub live_row-cleanup_stored :
      (token : String) (u : Time) (w : World S R)
      → (w.clock 0).instant ≤ u.instant
      → All IsSessionRow (laws.rows w.db "sessions")
      → ((cleanup_stored db w).0 ≡ ok tt)
        × (live_row db laws (cleanup_stored db w).1.db token u ≡ live_row db laws w.db token u)
  unfolding cleanup_stored
  live_row-cleanup_stored token u w later rows_ok =
      let q = query "sessions" (clause "expires_at" op_less_than (time (w.clock 0)) ∷ []) in
      let rest : laws.rows (db.adapter.delete_many q w.db).1 "sessions"
          ≡ select (λ r. not (laws.matches r q.clauses)) (laws.rows w.db "sessions") =
        laws.delete_many_rows q w.db "sessions" in
      (
        ground (arith, laws.delete_many_result q w.db),
        rw (laws.delete_many_result q w.db, rest)
            (first-select_kept IsSessionRow (λ r. laws.matches r (session_query token u).clauses)
              (λ r. not (laws.matches r q.clauses))
              (λ r x gone. expired_not_live db laws token (w.clock 0) u r later x gone)
              (laws.rows w.db "sessions") rows_ok),
      )
