-- ===== src/Sql/Postgres/Tx.antt =====
-- adapters/postgres/postgres.go: a transaction of pgx, and the functions that repeat those of the
-- adapter for it.
use beacon_auth.Prelude.{ℕ, String, Bool, true, false, Option, none, some, List, [], ◌∷◌}
use beacon_auth.Core.Value.{Value, Record}
use beacon_auth.Core.Types.{Result, ok}
use beacon_auth.Core.Query.{WhereClause, Query, Op, Adapter}
use beacon_auth.Sql.Text.{concat, join, dollar}
use beacon_auth.Sql.Build as Build
use beacon_auth.Sql.Build.{Statement, and_then, columns}
use beacon_auth.Sql.Driver.{
  ◌>>=◌, lift, PgxRows, Pgx, unless_failed, read_all, read_first, zip_row, given,
}

abbrev build_single_where_clause_tx : WhereClause → ℕ → Result Statement
build_single_where_clause_tx c i = Build.single_where dollar c i

abbrev build_where_clause_tx : List WhereClause → ℕ → Result Statement
build_where_clause_tx cs i = Build.where_clause dollar cs i

unfoldable pub build_select_query_tx : Query → Bool → Result Statement
build_select_query_tx q limit1 = Build.select dollar q limit1

abbrev scan_row_tx : List String → Option (List Value) → Record
scan_row_tx cols none = []
scan_row_tx cols (some vs) = zip_row cols vs []

-- The body of the loop over rows.Values and FieldDescriptions.
abbrev read_row : PgxRows → Result (List Value) → Result Record
read_row rows r = and_then r (λ (vs : List Value). ok (zip_row rows.fields vs []))

module _ {T : Type 0} (tx : Pgx T) where
  unfoldable pub create : String → Record → Op T Record
  create model d = given d (do
    let s = Build.insert dollar model d "" (concat (" RETURNING " ∷ join ", " (columns d) ∷ []))
    row ← tx.query_row s.0 s.1
    lift (ok (scan_row_tx (columns d) row)))

  unfoldable pub find_one : Query → Op T (Option Record)
  find_one q = do
    s ← lift (build_select_query_tx q true)
    rows ← tx.query s.0 s.1
    lift (read_first (read_row rows) rows.found)

  unfoldable pub find_many : Query → Op T (List Record)
  find_many q = do
    s ← lift (build_select_query_tx q false)
    rows ← tx.query s.0 s.1
    lift (
        and_then (read_all (read_row rows) rows.found)
          (λ (rs : List Record). unless_failed rows.last rs))

  unfoldable pub update : Query → Record → Op T (Option Record)
  update q d = given d (do
    s ← lift (Build.update dollar q d "" " RETURNING *")
    rows ← tx.query s.0 s.1
    lift (read_first (read_row rows) rows.found))

  unfoldable pub update_many : Query → Record → Op T ℕ
  update_many q d = given d (do s ← lift (Build.update dollar q d "" ""); tx.exec s.0 s.1)

  unfoldable pub delete : Query → Op T Unit
  delete q = do
    s ← lift (Build.on_matching dollar "DELETE FROM " q "")
    n ← tx.exec s.0 s.1
    lift (ok tt)

  unfoldable pub delete_many : Query → Op T ℕ
  delete_many q = do s ← lift (Build.on_matching dollar "DELETE FROM " q ""); tx.exec s.0 s.1

  unfoldable pub count : Query → Op T ℕ
  count q = do
    s ← lift (Build.on_matching dollar "SELECT COUNT(*) FROM " q "")
    tx.query_count s.0 s.1

  -- Ping and Close do nothing.
  unfoldable pub close : Op T Unit
  close t = (ok tt, t)

  abbrev pub postgres_transaction : Adapter T
  postgres_transaction = record {
    create = create;
    find_one = find_one;
    find_many = find_many;
    update = update;
    update_many = update_many;
    delete = delete;
    delete_many = delete_many;
    count = count;
    close = close;
  }

  -- Transaction within a transaction
  unfoldable pub nested_transaction : (Adapter T → Op T Unit) → Op T Unit
  nested_transaction fn = fn postgres_transaction
