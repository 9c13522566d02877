-- ===== src/Core/Contract.antt =====
-- What the callers of a database adapter rely on: each operation in terms of the rows of a table.
-- `Contract` is met by adapters/memory (Memory/Refines.antt); an adapter that can fail does not meet it.
use beacon_auth.Prelude.{
  String, ◌≡◌, Bool, true, not, ◌&&◌, Option, none, some, List, [], ◌∷◌, ◌++◌, length, select,
  first, without_first, change_first, ◌==◌, if◌then◌else◌,
}
use beacon_auth.Prelude.Dict.{get, assign}
use beacon_auth.Core.Value.{Time, str, bool, time, Record, after, before}
use beacon_auth.Core.Types.{ok}
use beacon_auth.Core.Query.{
  op_equal, op_greater_than, op_less_than, WhereClause, Query, Adapter, clause,
}

abbrev pub assigned : Record → Option Record → Option Record
assigned d none = none
assigned d (some r) = some (assign r d)

pub record Contract {S : Type 0} (db : Adapter S) : Type 0 where
  pub rows : S → String → List Record
  pub holds : Record → WhereClause → Bool
  pub matches : Record → List WhereClause → Bool
  pub matches_nil : (r : Record) → matches r [] ≡ true
  pub matches_cons :
      (r : Record) (c : WhereClause) (cs : List WhereClause)
      → matches r (c ∷ cs) ≡ (holds r c && matches r cs)
  pub holds_equal :
      (r : Record) (f s v : String)
      → get r f ≡ some (str s)
      → holds r (clause f op_equal (str v)) ≡ (s == v)
  pub holds_bool :
      (r : Record) (f : String) (b c : Bool)
      → get r f ≡ some (bool b)
      → holds r (clause f op_equal (bool c)) ≡ (if c then b else not b)
  pub holds_after :
      (r : Record) (f : String) (t u : Time)
      → get r f ≡ some (time t)
      → holds r (clause f op_greater_than (time u)) ≡ after t u
  pub holds_before :
      (r : Record) (f : String) (t u : Time)
      → get r f ≡ some (time t)
      → holds r (clause f op_less_than (time u)) ≡ before t u
  pub create_result : (model : String) (d : Record) (s : S) → (db.create model d s).0 ≡ ok d
  pub create_rows :
      (model : String) (d : Record) (s : S) (j : String)
      → rows (db.create model d s).1 j ≡ (if model == j then rows s j ++ d ∷ [] else rows s j)
  pub find_one_run :
      (q : Query) (s : S)
      → db.find_one q s ≡ (ok (first (λ r. matches r q.clauses) (rows s q.model)), s)
  pub update_result :
      (q : Query) (d : Record) (s : S)
      → (db.update q d s).0 ≡ ok (assigned d (first (λ r. matches r q.clauses) (rows s q.model)))
  pub update_rows :
      (q : Query) (d : Record) (s : S) (j : String)
      → rows (db.update q d s).1 j ≡ (
          if q.model == j
          then change_first (λ r. matches r q.clauses) (λ r. assign r d) (rows s j)
          else rows s j)
  pub delete_result : (q : Query) (s : S) → (db.delete q s).0 ≡ ok tt
  pub delete_rows :
      (q : Query) (s : S) (j : String)
      → rows (db.delete q s).1 j
        ≡ (if q.model == j then without_first (λ r. matches r q.clauses) (rows s j) else rows s j)
  pub delete_many_result :
      (q : Query) (s : S)
      → (db.delete_many q s).0 ≡ ok (length (select (λ r. matches r q.clauses) (rows s q.model)))
  pub delete_many_rows :
      (q : Query) (s : S) (j : String)
      → rows (db.delete_many q s).1 j
        ≡ (if q.model == j then select (λ r. not (matches r q.clauses)) (rows s j) else rows s j)
