-- ===== src/Plugins/TwoFactor/Codes.antt =====
-- plugins/twofa/twofa.go: backup codes that are consumed and looked up.
use beacon_auth.Prelude.{
  String, ◌≡◌, ◌≤◌, refl, sym, ◌∙◌, ap, Bool, true, false, ◌&&◌, none, some, arith, length, select,
  first, first-change_first, eq_refl,
}
use beacon_auth.Prelude.Dict.{get, put, assign, get-put}
use beacon_auth.Core.Value.{Time, str, bool, time, Record}
use beacon_auth.Core.Query.{op_equal, clause}
use beacon_auth.Core.World.{World}
use beacon_auth.Core.Contract.{Contract}
use beacon_auth.Plugins.Context.{AuthContext}
use beacon_auth.Plugins.FactorRows.{
  code_query, unused_query, used_data, check_backup_code, consume_backup_code, existing,
}

used-get : (r : Record) (t u : Time) → get (assign r (used_data t u)) "used" ≡ some (bool true)
unfolding assign
used-get r t u =
    rw
      (
        get-put (put (put r "used" (bool true)) "used_at" (time t)) "updated_at" "used" (time u),
        get-put (put r "used" (bool true)) "used_at" "used" (time t),
        get-put r "used" "used" (bool true),
      )
      refl

drop_last : (x y z : Bool) → (x && (y && (z && true))) ≡ true → (x && (y && true)) ≡ true
drop_last true true z h = refl
drop_last true false z h = h
drop_last false y z h = h

last_false : (x y : Bool) → (x && (y && (false && true))) ≡ false
last_false true true = refl
last_false true false = refl
last_false false y = refl

module _ {S R : Type 0} (p : AuthContext S R) (laws : Contract p.adapter) where
  matches_unused :
      (user_id code : String) (r : Record)
      → laws.matches r (unused_query user_id code).clauses ≡ (
          laws.holds r (clause "user_id" op_equal (str user_id))
          && (laws.holds r (clause "code" op_equal (str code))
              && (laws.holds r (clause "used" op_equal (bool false)) && true)))
  matches_unused user_id code r = simp (laws.matches_cons, laws.matches_nil)

  matches_code :
      (user_id code : String) (r : Record)
      → laws.matches r (code_query user_id code).clauses ≡ (
          laws.holds r (clause "user_id" op_equal (str user_id))
          && (laws.holds r (clause "code" op_equal (str code)) && true))
  matches_code user_id code r = simp (laws.matches_cons, laws.matches_nil)

  -- An unused code is a code.
  unused-code :
      (user_id code : String) (r : Record)
      → laws.matches r (unused_query user_id code).clauses ≡ true
      → laws.matches r (code_query user_id code).clauses ≡ true
  unused-code user_id code r h =
      matches_code user_id code r ∙ drop_last _ _ _ (sym (matches_unused user_id code r) ∙ h)

  used-fails :
      (user_id code : String) (t u : Time) (r : Record)
      → laws.matches (assign r (used_data t u)) (unused_query user_id code).clauses ≡ false
  used-fails user_id code t u r =
      matches_unused user_id code (assign r (used_data t u))
      ∙ rw (laws.holds_bool (assign r (used_data t u)) "used" true false (used-get r t u))
          (last_false _ _)

  -- Over an adapter that meets the contract, a backup code that has been consumed is not accepted again,
  -- if the user has it once.
  pub check-consume :
      (user_id code : String) (w : World S R)
      → length (
          select
            (λ r. laws.matches r (code_query user_id code).clauses)
            (laws.rows w.db "two_factor_backup_codes"))
        ≤ 1
      → (check_backup_code p user_id code (consume_backup_code p user_id code w).1).0 ≡ false
  unfolding check_backup_code consume_backup_code
  check-consume user_id code w once =
      let d = used_data (w.clock 0) (w.clock 1) in
      let changed = (p.adapter.update (code_query user_id code) d w.db).1 in
      let after : (consume_backup_code p user_id code w).1.db ≡ changed =
        ground (arith, laws.update_result (code_query user_id code) d w.db) in
      let none_left : first (λ r. laws.matches r (unused_query user_id code).clauses)
            (laws.rows changed "two_factor_backup_codes")
          ≡ none =
        rw
          (
            laws.update_rows (code_query user_id code) d w.db "two_factor_backup_codes",
            eq_refl "two_factor_backup_codes",
          )
          (first-change_first (λ r. laws.matches r (code_query user_id code).clauses)
            (λ r. laws.matches r (unused_query user_id code).clauses) (λ r. assign r d)
            (unused-code user_id code) (used-fails user_id code (w.clock 0) (w.clock 1)) _ once) in
      ap (λ s. existing p (p.adapter.find_one (unused_query user_id code) s).0) after
      ∙ rw (laws.find_one_run (unused_query user_id code) changed, none_left) refl
