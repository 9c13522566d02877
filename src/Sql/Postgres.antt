-- ===== src/Sql/Postgres.antt =====
-- adapters/postgres/postgres.go over a pool of pgx, which is a parameter. The child Tx has
-- the transaction, whose methods repeat those of the adapter on a `pgx.Tx`.
pub mod Tx
use beacon_auth.Prelude.{
  ℕ, suc, ◌+◌, String, Bool, true, false, ◌==◌, Option, none, some, List, [], ◌∷◌, length, ℤ, pos,
  eqb_ℤ, if◌then◌else◌,
}
use beacon_auth.Core.Value.{Value, Record, itoa}
use beacon_auth.Core.Types.{Result, ok, err, Done}
use beacon_auth.Core.World.{relabel}
use beacon_auth.Core.Query.{WhereClause, Query, Op, Adapter}
use beacon_auth.Sql.Text.{concat, join, dollar}
use beacon_auth.Sql.Build as Build
use beacon_auth.Sql.Build.{Statement, and_then, columns}
use Tx.{postgres_transaction}
use beacon_auth.Sql.Driver.{
  ◌>>=◌, lift, PgxRows, Pgx, Transactions, unless_failed, read_all, read_first, zip_row, given,
  or_nil, transact,
}

pub record Config : Type 0 where
  pub host : String
  pub port : ℤ
  pub database : String
  pub username : String
  pub password : String
  pub ssl_mode : String
  pub max_conns : ℤ
  pub min_conns : ℤ

abbrev default : ℤ → ℤ → ℤ
default n m = if eqb_ℤ n (pos 0) then m else n

-- The defaults of New.
unfoldable pub with_defaults : Config → Config
with_defaults c = record c {
  port = default c.port (pos 5432);
  ssl_mode = if c.ssl_mode == "" then "prefer" else c.ssl_mode;
  max_conns = default c.max_conns (pos 10);
  min_conns = default c.min_conns (pos 2);
}

unfoldable pub conn_string : Config → String
conn_string c = concat (
    "host="
    ∷ c.host
    ∷ " port="
    ∷ itoa c.port
    ∷ " user="
    ∷ c.username
    ∷ " password="
    ∷ c.password
    ∷ " dbname="
    ∷ c.database
    ∷ " sslmode="
    ∷ c.ssl_mode
    ∷ " pool_max_conns="
    ∷ itoa c.max_conns
    ∷ " pool_min_conns="
    ∷ itoa c.min_conns
    ∷ [])

-- New: pgxpool.ParseConfig and pgxpool.NewWithConfig are arguments.
unfoldable pub new : {P S : Type 0} → (String → Result P) → (P → Result S) → Config → Result S
new {P} {S} parse connect c =
    and_then (relabel "failed to parse connection string" (parse (conn_string (with_defaults c))))
      (λ (p : P). relabel "failed to connect to database" (connect p))

abbrev pub build_single_where_clause : WhereClause → ℕ → Result Statement
build_single_where_clause c i = Build.single_where dollar c i

abbrev pub build_where_clause : List WhereClause → ℕ → Result Statement
build_where_clause cs i = Build.where_clause dollar cs i

unfoldable pub build_select_query : Query → Bool → Result Statement
build_select_query q limit1 = Build.select dollar q limit1

-- The statements of the other methods.
unfoldable pub create_statement : String → Record → Statement
create_statement model d =
    Build.insert dollar model d "" (concat (" RETURNING " ∷ join ", " (columns d) ∷ []))

unfoldable pub update_statement : Query → Record → Result Statement
update_statement q d = Build.update dollar q d "" " RETURNING *"

unfoldable pub update_many_statement : Query → Record → Result Statement
update_many_statement q d = Build.update dollar q d "" ""

unfoldable pub delete_statement : Query → Result Statement
delete_statement q = Build.on_matching dollar "DELETE FROM " q ""

unfoldable pub count_statement : Query → Result Statement
count_statement q = Build.on_matching dollar "SELECT COUNT(*) FROM " q ""

-- scanRow
abbrev pub scan_row : List String → Option (List Value) → Record
scan_row cols none = []
scan_row cols (some vs) = zip_row cols vs []

-- scanRowsDynamic
abbrev pub scan_rows_dynamic : PgxRows → Result (List Value) → Result Record
scan_rows_dynamic rows r = and_then r (λ (vs : List Value). ok (zip_row rows.fields vs []))

abbrev pub first_row : PgxRows → Result (Option Record)
first_row rows = read_first (scan_rows_dynamic rows) rows.found

abbrev pub all_rows : PgxRows → Result (List Record)
all_rows rows =
    and_then (read_all (scan_rows_dynamic rows) rows.found)
      (λ (rs : List Record). unless_failed rows.last rs)

module _ {S : Type 0} (pool : Pgx S) where
  unfoldable pub create : String → Record → Op S Record
  create model d = given d (do
    let s = create_statement model d
    row ← pool.query_row s.0 s.1
    lift (ok (scan_row (columns d) row)))

  unfoldable pub find_one : Query → Op S (Option Record)
  find_one q = do
    s ← lift (build_select_query q true)
    rows ← pool.query s.0 s.1
    lift (first_row rows)

  unfoldable pub find_many : Query → Op S (List Record)
  find_many q = do
    s ← lift (build_select_query q false)
    rows ← pool.query s.0 s.1
    lift (all_rows rows)

  unfoldable pub update : Query → Record → Op S (Option Record)
  update q d =
      given d (do s ← lift (update_statement q d); rows ← pool.query s.0 s.1; lift (first_row rows))

  unfoldable pub update_many : Query → Record → Op S ℕ
  update_many q d = given d (do s ← lift (update_many_statement q d); pool.exec s.0 s.1)

  unfoldable pub delete : Query → Op S Unit
  delete q = do s ← lift (delete_statement q); n ← pool.exec s.0 s.1; lift (ok tt)

  unfoldable pub delete_many : Query → Op S ℕ
  delete_many q = do s ← lift (delete_statement q); pool.exec s.0 s.1

  unfoldable pub count : Query → Op S ℕ
  count q = do s ← lift (count_statement q); pool.query_count s.0 s.1

  -- The adapter, with what Close does.
  abbrev pub postgres : Op S Unit → Adapter S
  postgres close = record {
    create = create;
    find_one = find_one;
    find_many = find_many;
    update = update;
    update_many = update_many;
    delete = delete;
    delete_many = delete_many;
    count = count;
    close = close;
  }

-- Transaction of the adapter
unfoldable pub transaction :
    {S T : Type 0} → Transactions S T → Pgx T → (Adapter T → Op T Unit) → S → Done × S
transaction pool tx fn = transact pool (fn (postgres_transaction tx))
