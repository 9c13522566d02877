-- ===== src/Sql/Mysql.antt =====
-- adapters/mysql/mysql.go over database/sql, which is a parameter.
use beacon_auth.Prelude.{
  ℕ, String, Bool, true, false, Option, none, some, List, [], ◌∷◌, ℤ, pos, eqb_ℤ, if◌then◌else◌,
}
use beacon_auth.Prelude.Dict.{Dict, get, put}
use beacon_auth.Core.Value.{Value, str, Record, itoa}
use beacon_auth.Core.Types.{Result, ok, Done}
use beacon_auth.Core.World.{relabel}
use beacon_auth.Core.Query.{op_equal, WhereClause, Query, Op, Adapter, clause, query}
use beacon_auth.Sql.Text.{concat, question}
use beacon_auth.Sql.Build as Build
use beacon_auth.Sql.Build.{Statement, and_then, positive}
use beacon_auth.Sql.Driver.{
  ◌>>=◌, lift, Cell, bytes, plain, SqlRows, Executer, Transactions, unless_failed, read_all,
  read_first, given, or_nil, transact,
}

pub record Config : Type 0 where
  pub host : String
  pub port : ℤ
  pub database : String
  pub username : String
  pub password : String
  pub params : Dict String
  pub max_conns : ℤ
  pub min_conns : ℤ

abbrev default : ℤ → ℤ → ℤ
default n m = if eqb_ℤ n (pos 0) then m else n

-- The defaults of New.
unfoldable pub with_defaults : Config → Config
with_defaults c = record c {
  port = default c.port (pos 3306);
  max_conns = default c.max_conns (pos 10);
}

abbrev extra_params : Dict String → List String
extra_params [] = []
extra_params ((k, v) ∷ ps) = concat ("&" ∷ k ∷ "=" ∷ v ∷ []) ∷ extra_params ps

abbrev params_text : Dict String → String
params_text [] = "&loc=Local"
params_text (p ∷ ps) = concat (extra_params (p ∷ ps))

unfoldable pub dsn : Config → String
dsn c = concat (
    c.username
    ∷ ":"
    ∷ c.password
    ∷ "@tcp("
    ∷ c.host
    ∷ ":"
    ∷ itoa c.port
    ∷ ")/"
    ∷ c.database
    ∷ "?parseTime=true"
    ∷ params_text c.params
    ∷ [])

-- New: sql.Open with the limits of the pool, and the ping, are arguments.
unfoldable pub new : {S : Type 0} → (String → Config → Result S) → (S → Done) → Config → Result S
new {S} open_db ping c =
    let c' = with_defaults c in
    and_then (relabel "failed to connect to database" (open_db (dsn c') c'))
      (λ (db : S). and_then (relabel "failed to ping database" (ping db)) (λ _. ok db))

abbrev pub build_single_where_clause : WhereClause → Result Statement
build_single_where_clause c = Build.single_where question c 1

abbrev pub build_where_clause : List WhereClause → Result Statement
build_where_clause cs = Build.where_clause question cs 1

unfoldable pub build_select_query : Query → Bool → Result Statement
build_select_query q limit1 = Build.select question q limit1

-- scanRowsDynamic: a `[]byte` becomes a string.
abbrev cell_value : Cell → Value
cell_value (bytes s) = str s
cell_value (plain v) = v

unfoldable pub scan_cells : List String → List Cell → Record → Record
scan_cells [] cells row = row
scan_cells (col ∷ cols) [] row = row
scan_cells (col ∷ cols) (c ∷ cells) row = scan_cells cols cells (put row col (cell_value c))

unfoldable pub scan_rows_dynamic : SqlRows → Result (List Cell) → Result Record
scan_rows_dynamic rows r =
    and_then rows.columns
      (λ (cols : List String). and_then r (λ (cells : List Cell). ok (scan_cells cols cells [])))

-- The statements of the other methods.
unfoldable pub create_statement : String → Record → Statement
create_statement model d = Build.insert question model d "" ""

unfoldable pub update_statement : Query → Record → Result Statement
update_statement q d = Build.update question q d "" " LIMIT 1"

unfoldable pub update_many_statement : Query → Record → Result Statement
update_many_statement q d = Build.update question q d "" ""

unfoldable pub delete_statement : Query → Result Statement
delete_statement q = Build.on_matching question "DELETE FROM " q " LIMIT 1"

unfoldable pub delete_many_statement : Query → Result Statement
delete_many_statement q = Build.on_matching question "DELETE FROM " q ""

unfoldable pub count_statement : Query → Result Statement
count_statement q = Build.on_matching question "SELECT COUNT(*) FROM " q ""

module _ {S : Type 0} (db : Executer S) where
  unfoldable pub find_one : Query → Op S (Option Record)
  find_one q = do
    s ← lift (build_select_query q true)
    rows ← db.query s.0 s.1
    lift (read_first (scan_rows_dynamic rows) rows.found)

  unfoldable pub find_many : Query → Op S (List Record)
  find_many q = do
    s ← lift (build_select_query q false)
    rows ← db.query s.0 s.1
    lift (
        and_then (read_all (scan_rows_dynamic rows) rows.found)
          (λ (rs : List Record). unless_failed rows.last rs))

  -- The row is fetched by its id, if the data has one.
  abbrev fetch : String → Record → Option Value → Op S Record
  fetch model d none = lift (ok d)
  fetch model d (some id) = do
    r ← find_one (query model (clause "id" op_equal id ∷ []))
    lift (ok (or_nil r))

  unfoldable pub create : String → Record → Op S Record
  create model d =
      given d (do let s = create_statement model d; n ← db.exec s.0 s.1; fetch model d (get d "id"))

  unfoldable pub update : Query → Record → Op S (Option Record)
  update q d = given d (do s ← lift (update_statement q d); n ← db.exec s.0 s.1; find_one q)

  unfoldable pub update_many : Query → Record → Op S ℕ
  update_many q d = given d (do s ← lift (update_many_statement q d); n ← db.exec s.0 s.1; lift n)

  unfoldable pub delete_one : Query → Op S Unit
  delete_one q = do s ← lift (delete_statement q); n ← db.exec s.0 s.1; lift (ok tt)

  unfoldable pub delete_many : Query → Op S ℕ
  delete_many q = do s ← lift (delete_many_statement q); n ← db.exec s.0 s.1; lift n

  unfoldable pub count : Query → Op S ℕ
  count q = do s ← lift (count_statement q); db.query_count s.0 s.1

  -- The adapter, with what Close does.
  abbrev pub mysql : Op S Unit → Adapter S
  mysql close = record {
    create = create;
    find_one = find_one;
    find_many = find_many;
    update = update;
    update_many = update_many;
    delete = delete_one;
    delete_many = delete_many;
    count = count;
    close = close;
  }

  -- The same methods on a `sql.Tx`; Close does nothing.
  abbrev pub mysql_transaction : Adapter S
  mysql_transaction = mysql (lift (ok tt))

  -- Transaction within a transaction
  unfoldable pub nested_transaction : (Adapter S → Op S Unit) → Op S Unit
  nested_transaction fn = fn mysql_transaction

-- Transaction of the adapter
unfoldable pub transaction :
    {S T : Type 0} → Transactions S T → Executer T → (Adapter T → Op T Unit) → S → Done × S
transaction pool tx fn = transact pool (fn (mysql_transaction tx))
