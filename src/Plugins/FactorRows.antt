-- ===== src/Plugins/FactorRows.antt =====
-- plugins/twofa/twofa.go: the rows of two_factors and two_factor_backup_codes.
use beacon_auth.Prelude.{
  String, str_append, Bool, true, false, Option, none, some, List, [], ◌∷◌, if◌then◌else◌,
}
use beacon_auth.Prelude.Dict.{put}
use beacon_auth.Core.Value.{Time, Value, str, bool, time, Record}
use beacon_auth.Core.Types.{Result, ok, err}
use beacon_auth.Core.Query.{op_equal, Query, clause, query}
use beacon_auth.Core.World.{World, Act, pure, on_db, ◌>>=◌, read_clock, now}
use beacon_auth.Plugins.Context.{AuthContext}

abbrev pub secret_query : String → Query
secret_query user_id = query "two_factors" (clause "user_id" op_equal (str user_id) ∷ [])

abbrev pub codes_query : String → Query
codes_query user_id = query "two_factor_backup_codes" (clause "user_id" op_equal (str user_id) ∷ [])

abbrev pub code_query : String → String → Query
code_query user_id code =
    query "two_factor_backup_codes"
      (clause "user_id" op_equal (str user_id) ∷ clause "code" op_equal (str code) ∷ [])

abbrev pub unused_query : String → String → Query
unused_query user_id code = query "two_factor_backup_codes" (
    clause "user_id" op_equal (str user_id)
    ∷ clause "code" op_equal (str code)
    ∷ clause "used" op_equal (bool false)
    ∷ [])

abbrev pub secret_data : String → String → Bool → Time → Record
secret_data user_id secret confirmed t =
    ("user_id", str user_id)
    ∷ ("secret", str secret)
    ∷ ("confirmed", bool confirmed)
    ∷ ("updated_at", time t)
    ∷ []

abbrev pub backup_data : String → String → Time → Record
backup_data user_id code t =
    ("id", str (str_append "backup_" (str_append user_id (str_append "_" code))))
    ∷ ("user_id", str user_id)
    ∷ ("code", str code)
    ∷ ("used", bool false)
    ∷ ("created_at", time t)
    ∷ []

abbrev pub used_data : Time → Time → Record
used_data t u = ("used", bool true) ∷ ("used_at", time t) ∷ ("updated_at", time u) ∷ []

-- The codes with a new one in front.
abbrev pub continue_codes :
    {W : Type 0} → String → Result (List String) × W → Result (List String) × W
continue_codes code (err e, w) = (err e, w)
continue_codes code (ok codes, w) = (ok (code ∷ codes), w)

-- `record["secret"].(string)`
abbrev pub text_of : Option Value → Option String
text_of (some (str s)) = some s
text_of v = none

-- `record["confirmed"].(bool)`, false where it is none
abbrev pub flag_of : Option Value → Bool
flag_of (some (bool b)) = b
flag_of v = false

module _ {S R : Type 0} (p : AuthContext S R) where
  -- Whether a search has found a row, where its error is dropped.
  abbrev pub existing : Result (Option Record) → Bool
  existing (ok (some r)) = true
  existing r = false

  abbrev add_secret : String → Record → Act S R Unit
  add_secret user_id d = do
    t ← now
    r ← on_db (
        p.adapter.create "two_factors"
          (put (put d "id" (str (str_append "2fa_" user_id))) "created_at" (time t)))
    pure tt

  abbrev change_secret : String → Record → Act S R Unit
  change_secret user_id d = do r ← on_db (p.adapter.update (secret_query user_id) d); pure tt

  -- saveSecret
  unfoldable pub save_secret : String → String → Bool → Act S R Unit
  save_secret user_id secret confirmed w =
      let (r, w₁) = on_db (p.adapter.find_one (secret_query user_id)) w in
      let (t, w₂) = read_clock w₁ in
      let d = secret_data user_id secret confirmed t in
      if existing r then change_secret user_id d w₂ else add_secret user_id d w₂

  unfoldable pub get_secret : String → Act S R (Option Record)
  get_secret user_id = on_db (p.adapter.find_one (secret_query user_id))

  unfoldable pub check_backup_code : String → String → World S R → Bool × World S R
  check_backup_code user_id code w =
      let (r, w') = on_db (p.adapter.find_one (unused_query user_id code)) w in (existing r, w')

  unfoldable pub consume_backup_code : String → String → Act S R Unit
  consume_backup_code user_id code = do
    t ← now
    u ← now
    r ← on_db (p.adapter.update (code_query user_id code) (used_data t u))
    pure tt
