-- ===== src/Sql/Mssql.antt =====
-- adapters/mssql/mssql.go over database/sql, which is a parameter.
use beacon_auth.Prelude.{
  ℕ, String, Bool, true, false, not, ◌&&◌, Option, none, some, List, [], ◌∷◌, ℤ, pos, eqb_ℤ,
  if◌then◌else◌,
}
use beacon_auth.Prelude.Dict.{Dict, put}
use beacon_auth.Core.Value.{Value, str, Record, itoa}
use beacon_auth.Core.Types.{Result, ok, err, failed, Done}
use beacon_auth.Core.World.{relabel}
use beacon_auth.Core.Query.{WhereClause, OrderBy, Query, Op, Adapter}
use beacon_auth.Sql.Text.{concat, question}
use beacon_auth.Sql.Build as Build
use beacon_auth.Sql.Build.{Statement, and_then, positive}
use beacon_auth.Sql.Driver.{
  ◌>>=◌, lift, Cell, bytes, plain, SqlRows, Executer, Transactions, unless_failed, read_all,
  read_first, given, transact,
}

pub record Config : Type 0 where
  pub host : String
  pub port : ℤ
  pub database : String
  pub username : String
  pub password : String
  pub params : Dict String
  pub max_conns : ℤ
  pub min_conns : ℤ

abbrev default : ℤ → ℤ → ℤ
default n m = if eqb_ℤ n (pos 0) then m else n

-- The defaults of New.
unfoldable pub with_defaults : Config → Config
with_defaults c = record c {
  port = default c.port (pos 1433);
  max_conns = default c.max_conns (pos 10);
}

-- New: net/url builds the URL from the user, the password, the host and the query parameters in the
-- order in which they are added.
unfoldable pub connect_url : (String → String → String → Dict String → String) → Config → String
connect_url url c =
    url c.username c.password (concat (c.host ∷ ":" ∷ itoa c.port ∷ []))
      (("database", c.database) ∷ c.params)

unfoldable pub new :
    {S : Type 0}
    → (String → String → String → Dict String → String)
    → (String → Config → Result S)
    → (S → Done)
    → Config
    → Result S
new {S} url open_db ping c =
    let c' = with_defaults c in
    and_then (relabel "failed to connect to database" (open_db (connect_url url c') c'))
      (λ (db : S). and_then (relabel "failed to ping database" (ping db)) (λ _. ok db))

abbrev pub build_single_where_clause : WhereClause → Result Statement
build_single_where_clause c = Build.single_where question c 1

abbrev pub build_where_clause : List WhereClause → Result Statement
build_where_clause cs = Build.where_clause question cs 1

-- `TOP` of a page without an offset
unfoldable pub top_text : Query → Bool → String
top_text q limit1 =
    if limit1 && not (positive q.offset)
    then "TOP 1 "
    else if positive q.limit && not (positive q.offset)
    then concat ("TOP " ∷ itoa q.limit ∷ " " ∷ [])
    else ""

-- An offset requires an ORDER BY.
abbrev order_or_null : List OrderBy → ℤ → String
order_or_null [] offset = if positive offset then " ORDER BY (SELECT NULL)" else ""
order_or_null (o ∷ os) offset = Build.order_text (o ∷ os)

abbrev fetch_text : Query → Bool → String
fetch_text q limit1 =
    if positive q.limit
    then concat (" FETCH NEXT " ∷ itoa q.limit ∷ " ROWS ONLY" ∷ [])
    else if limit1
    then " FETCH NEXT 1 ROWS ONLY"
    else ""

unfoldable pub rows_text : Query → Bool → String
rows_text q limit1 =
    if positive q.offset
    then concat (" OFFSET " ∷ itoa q.offset ∷ " ROWS" ∷ fetch_text q limit1 ∷ [])
    else ""

unfoldable pub build_select_query : Query → Bool → Result Statement
build_select_query q limit1 =
    Build.on_matching question (concat ("SELECT " ∷ top_text q limit1 ∷ "* FROM " ∷ [])) q
      (concat (order_or_null q.order_by q.offset ∷ rows_text q limit1 ∷ []))

-- scanRowsDynamic: a `[]byte` becomes a string.
abbrev cell_value : Cell → Value
cell_value (bytes s) = str s
cell_value (plain v) = v

unfoldable pub scan_cells : List String → List Cell → Record → Record
scan_cells [] cells row = row
scan_cells (col ∷ cols) [] row = row
scan_cells (col ∷ cols) (c ∷ cells) row = scan_cells cols cells (put row col (cell_value c))

unfoldable pub scan_rows_dynamic : SqlRows → Result (List Cell) → Result Record
scan_rows_dynamic rows r =
    and_then rows.columns
      (λ (cols : List String). and_then r (λ (cells : List Cell). ok (scan_cells cols cells [])))

-- The statements of the other methods.
unfoldable pub create_statement : String → Record → Statement
create_statement model d = Build.insert question model d " OUTPUT Inserted.*" ""

unfoldable pub update_statement : Query → Record → Result Statement
update_statement q d = Build.update question q d " OUTPUT Inserted.*" ""

unfoldable pub update_many_statement : Query → Record → Result Statement
update_many_statement q d = Build.update question q d "" ""

unfoldable pub delete_statement : Query → Result Statement
delete_statement q = Build.on_matching question "DELETE TOP(1) FROM " q ""

unfoldable pub delete_many_statement : Query → Result Statement
delete_many_statement q = Build.on_matching question "DELETE FROM " q ""

unfoldable pub count_statement : Query → Result Statement
count_statement q = Build.on_matching question "SELECT COUNT(*) FROM " q ""

abbrev returned : Option Record → Result Record
returned none = err (failed "no rows returned from insert")
returned (some r) = ok r

-- The first row, which an INSERT returns.
abbrev inserted : SqlRows → Result Record
inserted rows =
    and_then (read_first (scan_rows_dynamic rows) rows.found) (λ (r : Option Record). returned r)

module _ {S : Type 0} (db : Executer S) where
  unfoldable pub find_one : Query → Op S (Option Record)
  find_one q = do
    s ← lift (build_select_query q true)
    rows ← db.query s.0 s.1
    lift (read_first (scan_rows_dynamic rows) rows.found)

  unfoldable pub find_many : Query → Op S (List Record)
  find_many q = do
    s ← lift (build_select_query q false)
    rows ← db.query s.0 s.1
    lift (
        and_then (read_all (scan_rows_dynamic rows) rows.found)
          (λ (rs : List Record). unless_failed rows.last rs))

  unfoldable pub create : String → Record → Op S Record
  create model d =
      given d (do let s = create_statement model d; rows ← db.query s.0 s.1; lift (inserted rows))

  unfoldable pub update : Query → Record → Op S (Option Record)
  update q d = given d (do
    s ← lift (update_statement q d)
    rows ← db.query s.0 s.1
    lift (read_first (scan_rows_dynamic rows) rows.found))

  unfoldable pub update_many : Query → Record → Op S ℕ
  update_many q d = given d (do s ← lift (update_many_statement q d); n ← db.exec s.0 s.1; lift n)

  unfoldable pub delete_one : Query → Op S Unit
  delete_one q = do s ← lift (delete_statement q); n ← db.exec s.0 s.1; lift (ok tt)

  unfoldable pub delete_many : Query → Op S ℕ
  delete_many q = do s ← lift (delete_many_statement q); n ← db.exec s.0 s.1; lift n

  unfoldable pub count : Query → Op S ℕ
  count q = do s ← lift (count_statement q); db.query_count s.0 s.1

  -- The adapter, with what Close does.
  abbrev pub mssql : Op S Unit → Adapter S
  mssql close = record {
    create = create;
    find_one = find_one;
    find_many = find_many;
    update = update;
    update_many = update_many;
    delete = delete_one;
    delete_many = delete_many;
    count = count;
    close = close;
  }

  -- The same methods on a `sql.Tx`; Close does nothing.
  abbrev pub mssql_transaction : Adapter S
  mssql_transaction = mssql (lift (ok tt))

  -- Transaction within a transaction
  unfoldable pub nested_transaction : (Adapter S → Op S Unit) → Op S Unit
  nested_transaction fn = fn mssql_transaction

-- Transaction of the adapter
unfoldable pub transaction :
    {S T : Type 0} → Transactions S T → Executer T → (Adapter T → Op T Unit) → S → Done × S
transaction pool tx fn = transact pool (fn (mssql_transaction tx))
