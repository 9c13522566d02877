-- ===== src/Memory/Refines.antt =====
-- adapters/memory meets the contract of a database adapter.
use beacon_auth.Prelude.{
  String, ◌≡◌, refl, Bool, true, false, not, some, List, [], ◌∷◌, ◌++◌, arith, length, select,
  first, without_first, change_first, ◌==◌, ◌&&◌, eq_iff, if◌then◌else◌,
}
use beacon_auth.Prelude.Dict.{get, assign, get-put}
use beacon_auth.Core.Value.{Time, str, bool, time, sprint, Record, after, before}
use beacon_auth.Core.Types.{ok}
use beacon_auth.Core.Query.{op_equal, op_greater_than, op_less_than, WhereClause, Query, clause}
use beacon_auth.Core.Contract.{Contract, assigned}
use beacon_auth.Memory.{
  Memory, rows, memory, selects, create, find_one, update, delete, delete_many,
}
use beacon_auth.Memory.Compare.{equal, greater_than, less_than}
use beacon_auth.Memory.Where.{matches_where, matches_clause, holds}
use beacon_auth.Memory.Sort.{LongSort}
use beacon_auth.Memory.Rows.{delete_rows_lem, without_first-none, change_first-none}

module _ (show_time : Time → String) where
  pub rows-create :
      (model : String) (d : Record) (m : Memory) (j : String)
      → rows (create model d m).1 j ≡ (if model == j then rows m j ++ d ∷ [] else rows m j)
  unfolding create
  rows-create model d m j =
      ground (arith, get-put m.tables model j (rows m model ++ d ∷ []), eq_iff model j)

  pub find_one_run :
      (q : Query) (m : Memory)
      → find_one show_time q m ≡ (ok (first (selects show_time q) (rows m q.model)), m)
  unfolding find_one
  find_one_run q m = ground arith

  pub update_result :
      (q : Query) (d : Record) (m : Memory)
      → (update show_time q d m).0 ≡ ok (assigned d (first (selects show_time q) (rows m q.model)))
  unfolding update
  update_result q d m = ground arith

  pub rows-delete_many :
      (q : Query) (m : Memory) (j : String)
      → rows (delete_many show_time q m).1 j
        ≡ (if q.model == j then select (λ r. not (selects show_time q r)) (rows m j) else rows m j)
  unfolding delete_many
  rows-delete_many q m j = ground (
    arith,
    get-put m.tables q.model j (select (λ r. not (selects show_time q r)) (rows m q.model)),
    delete_rows_lem (selects show_time q) (rows m q.model),
    eq_iff q.model j,
  )

  pub rows-update :
      (q : Query) (d : Record) (m : Memory) (j : String)
      → rows (update show_time q d m).1 j ≡ (
          if q.model == j
          then change_first (selects show_time q) (λ r. assign r d) (rows m j)
          else rows m j)
  unfolding update
  rows-update q d m j = ground (
    arith,
    get-put m.tables q.model j
        (change_first (selects show_time q) (λ r. assign r d) (rows m q.model)),
    change_first-none (selects show_time q) (λ r. assign r d) (rows m q.model),
    eq_iff q.model j,
  )

  pub delete_result : (q : Query) (m : Memory) → (delete show_time q m).0 ≡ ok tt
  unfolding delete
  delete_result q m = ground arith

  pub rows-delete :
      (q : Query) (m : Memory) (j : String)
      → rows (delete show_time q m).1 j
        ≡ (if q.model == j then without_first (selects show_time q) (rows m j) else rows m j)
  unfolding delete
  rows-delete q m j = ground (
    arith,
    get-put m.tables q.model j (without_first (selects show_time q) (rows m q.model)),
    without_first-none (selects show_time q) (rows m q.model),
    eq_iff q.model j,
  )

  pub delete_many_result :
      (q : Query) (m : Memory)
      → (delete_many show_time q m).0 ≡ ok (length (select (selects show_time q) (rows m q.model)))
  unfolding delete_many
  delete_many_result q m = ground (arith, delete_rows_lem (selects show_time q) (rows m q.model))

  pub holds_equal :
      (r : Record) (f s v : String)
      → get r f ≡ some (str s)
      → holds show_time r (clause f op_equal (str v)) ≡ (s == v)
  unfolding holds matches_clause equal sprint
  holds_equal r f s v h = ground arith

  pub holds_bool :
      (r : Record) (f : String) (b c : Bool)
      → get r f ≡ some (bool b)
      → holds show_time r (clause f op_equal (bool c)) ≡ (if c then b else not b)
  unfolding holds matches_clause equal sprint
  holds_bool r f true true h = ground arith
  holds_bool r f true false h = ground arith
  holds_bool r f false true h = ground arith
  holds_bool r f false false h = ground arith

  pub holds_after :
      (r : Record) (f : String) (t u : Time)
      → get r f ≡ some (time t)
      → holds show_time r (clause f op_greater_than (time u)) ≡ after t u
  unfolding holds matches_clause greater_than
  holds_after r f t u h = ground arith

  pub holds_before :
      (r : Record) (f : String) (t u : Time)
      → get r f ≡ some (time t)
      → holds show_time r (clause f op_less_than (time u)) ≡ before t u
  unfolding holds matches_clause less_than
  holds_before r f t u h = ground arith

  pub matches_nil : (r : Record) → matches_where show_time r [] ≡ true
  unfolding matches_where
  matches_nil r = refl

  pub matches_cons :
      (r : Record) (c : WhereClause) (cs : List WhereClause)
      → matches_where show_time r (c ∷ cs) ≡ (holds show_time r c && matches_where show_time r cs)
  unfolding matches_where
  matches_cons r c cs = refl

-- The contract with the rows of the tables.
unfoldable pub memory_contract :
    (show_time : Time → String) (long_sort : LongSort) → Contract (memory show_time long_sort)
unfolding create
memory_contract show_time long_sort = record {
  rows = rows;
  holds = holds show_time;
  matches = matches_where show_time;
  matches_nil = matches_nil show_time;
  matches_cons = matches_cons show_time;
  holds_equal = holds_equal show_time;
  holds_bool = holds_bool show_time;
  holds_after = holds_after show_time;
  holds_before = holds_before show_time;
  create_result = λ model d m. refl;
  create_rows = rows-create show_time;
  find_one_run = find_one_run show_time;
  update_result = update_result show_time;
  update_rows = rows-update show_time;
  delete_result = delete_result show_time;
  delete_rows = rows-delete show_time;
  delete_many_result = delete_many_result show_time;
  delete_many_rows = rows-delete_many show_time;
}

-- The in-memory adapter meets the contract of a database adapter, with the rows of its tables and its
-- own test of clauses: create, find_one, update, delete and delete_many return and do to the rows of
-- their table what the contract says, and leave the rows of every other table alone.
pub memory_refines :
    (show_time : Time → String) (long_sort : LongSort)
    → (laws : Contract (memory show_time long_sort)) × ((m : Memory) (model : String)
        → laws.rows m model ≡ rows m model)
      × ((r : Record) (cs : List WhereClause) → laws.matches r cs ≡ matches_where show_time r cs)
unfolding memory_contract get
memory_refines show_time long_sort =
    (memory_contract show_time long_sort, λ m model. refl, λ r cs. refl)
