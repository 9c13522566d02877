-- ===== src/Tests/Sql.antt =====
-- Runs of the SQL adapters at concrete inputs.
use beacon_auth.Prelude.{
  ℕ, ◌+◌, ◌≡◌, refl, arith, ◌⊎◌, inl, true, false, none, some, List, [], ◌∷◌, pos,
}
use beacon_auth.Core.Value.{Value, nil, str, int, list, Items, end, item, Record}
use beacon_auth.Core.Types.{Error, failed, ok, err}
use beacon_auth.Core.Query.{
  op_equal, op_in, op_is_null, op_other, WhereClause, Query, Op, Adapter, clause, query,
}
use beacon_auth.Sql.Text.{marks}
use beacon_auth.Sql.Build as Build
use beacon_auth.Sql.Numbered.{renumber, Counted}
use beacon_auth.Sql.Statements.{Clean}
use beacon_auth.Sql.Agree.{build_select_query-numbered}
use beacon_auth.Sql.Blank.{text, blank, blank_data, select_text-blank, write_text-blank}
use beacon_auth.Sql.Outcomes.{Atomic, transaction_all_or_nothing}
use beacon_auth.Sql.Driver.{Pgx, PgxRows, Transactions}
use beacon_auth.Sql.Postgres as Postgres
use beacon_auth.Sql.Postgres.Tx.{postgres_transaction}
use beacon_auth.Sql.Mysql as Mysql
use beacon_auth.Sql.Sqlite as Sqlite
use beacon_auth.Sql.Mssql as Mssql

abbrev clauses : List WhereClause
clauses =
    clause "email" op_equal (str "a@b.c")
    ∷ clause "role" op_in (list (item (str "admin") (item (str "owner") end)))
    ∷ clause "image" op_is_null nil
    ∷ []

abbrev users : Query
users = record {
  model = "users";
  clauses = clauses;
  joins = [];
  limit = pos 5;
  offset = pos 2;
  order_by = record { field = "name"; desc = true } ∷ [];
}

abbrev row : Record
row = ("name", str "Ann") ∷ ("image", nil) ∷ []

postgres_select :
    Postgres.build_select_query users false
    ≡ ok (
      "SELECT * FROM users WHERE email = $1 AND role IN ($2, $3) AND image IS NULL ORDER BY name DESC LIMIT 5 OFFSET 2",
      str "a@b.c" ∷ str "admin" ∷ str "owner" ∷ [],
    )
unfolding Postgres.build_select_query Build.select Build.on_matching Build.where_clause
    Build.where_loop Build.with_operator beacon_auth.Sql.Text.concat beacon_auth.Sql.Text.join
    beacon_auth.Sql.Text.lead beacon_auth.Sql.Text.places beacon_auth.Sql.Text.dollar
    beacon_auth.Core.Value.itoa Build.order_text Build.limit_text Build.offset_text
postgres_select = refl

mysql_update :
    Mysql.update_statement users row
    ≡ ok (
      "UPDATE users SET name = ?, image = ? WHERE email = ? AND role IN (?, ?) AND image IS NULL LIMIT 1",
      str "Ann" ∷ nil ∷ str "a@b.c" ∷ str "admin" ∷ str "owner" ∷ [],
    )
unfolding Mysql.update_statement Build.update Build.assignments Build.where_clause Build.where_loop
    Build.with_operator beacon_auth.Sql.Text.concat beacon_auth.Sql.Text.join
    beacon_auth.Sql.Text.lead beacon_auth.Sql.Text.places
mysql_update = refl

postgres_create : Postgres.create_statement "users" row ≡ (
  "INSERT INTO users (name, image) VALUES ($1, $2) RETURNING name, image",
  str "Ann" ∷ nil ∷ [],
)
unfolding Postgres.create_statement Build.insert beacon_auth.Sql.Text.concat
    beacon_auth.Sql.Text.join beacon_auth.Sql.Text.lead beacon_auth.Sql.Text.places
    beacon_auth.Sql.Text.dollar beacon_auth.Core.Value.itoa
postgres_create = refl

mssql_select :
    Mssql.build_select_query (query "users" []) true ≡ ok ("SELECT TOP 1 * FROM users", [])
unfolding Mssql.build_select_query Build.on_matching Build.where_clause beacon_auth.Sql.Text.concat
    Mssql.top_text Mssql.rows_text
mssql_select = refl

users-Clean : Clean users
unfolding marks
users-Clean = record { model = refl; clauses = (refl, (refl, (refl, tt))); order_by = (refl, tt) }

build_select_query-numbered_example :
    (Postgres.build_select_query users true ≡ renumber 1 (Mysql.build_select_query users true))
    × Counted (Mysql.build_select_query users true)
build_select_query-numbered_example = build_select_query-numbered users true users-Clean

select_text-blank_example :
    (text (Postgres.build_select_query users false)
      ≡ text (Postgres.build_select_query (blank users) false))
    × (text (Mysql.build_select_query users false)
        ≡ text (Mysql.build_select_query (blank users) false))
    × (text (Sqlite.build_select_query users false)
        ≡ text (Sqlite.build_select_query (blank users) false))
    × (text (Mssql.build_select_query users false)
        ≡ text (Mssql.build_select_query (blank users) false))
select_text-blank_example = select_text-blank users false

write_text-blank_example :
    ((Postgres.create_statement "users" row).0
      ≡ (Postgres.create_statement "users" (blank_data row)).0)
    × ((Mysql.create_statement "users" row).0 ≡ (Mysql.create_statement "users" (blank_data row)).0)
    × ((Sqlite.create_statement "users" row).0
        ≡ (Sqlite.create_statement "users" (blank_data row)).0)
    × ((Mssql.create_statement "users" row).0 ≡ (Mssql.create_statement "users" (blank_data row)).0)
    × (text (Postgres.update_statement users row)
        ≡ text (Postgres.update_statement (blank users) (blank_data row)))
    × (text (Mysql.update_statement users row)
        ≡ text (Mysql.update_statement (blank users) (blank_data row)))
    × (text (Sqlite.update_statement users row)
        ≡ text (Sqlite.update_statement (blank users) (blank_data row)))
    × (text (Mssql.update_statement users row)
        ≡ text (Mssql.update_statement (blank users) (blank_data row)))
    × (text (Postgres.update_many_statement users row)
        ≡ text (Postgres.update_many_statement (blank users) (blank_data row)))
    × (text (Mysql.update_many_statement users row)
        ≡ text (Mysql.update_many_statement (blank users) (blank_data row)))
    × (text (Sqlite.update_many_statement users row)
        ≡ text (Sqlite.update_many_statement (blank users) (blank_data row)))
    × (text (Mssql.update_many_statement users row)
        ≡ text (Mssql.update_many_statement (blank users) (blank_data row)))
write_text-blank_example = write_text-blank users row

-- A server that counts the statements it gets and answers none of them with a row.
abbrev no_rows : PgxRows
no_rows = record { fields = []; found = []; last = some (failed "broken") }

abbrev server : Pgx ℕ
server = record {
  query = λ sql vs n. (ok no_rows, n + 1);
  query_row = λ sql vs n. (ok none, n + 1);
  query_count = λ sql vs n. (ok 0, n + 1);
  exec = λ sql vs n. (ok 3, n + 1);
}

-- The state of a transaction: the database at its start, and as it is now.
abbrev pairs : Transactions ℕ (ℕ × ℕ)
pairs = record {
  begin = λ n. (ok (n, n), n);
  commit = λ t. (ok tt, t.1);
  rollback = λ t. (ok tt, t.0);
}

pairs-Atomic : Atomic pairs
pairs-Atomic = record {
  base = λ t. t.0;
  committed = λ t. t.1;
  begun = λ s t s' h. ground arith;
  not_begun = λ s e s' h. absurd (ground arith);
  commits = λ t. inl refl;
  rolls_back = λ t. refl;
}

abbrev inner : Pgx (ℕ × ℕ)
inner = record {
  query = λ sql vs t. (ok no_rows, (t.0, t.1 + 1));
  query_row = λ sql vs t. (ok none, (t.0, t.1 + 1));
  query_count = λ sql vs t. (ok 0, (t.0, t.1 + 1));
  exec = λ sql vs t. (ok 3, (t.0, t.1 + 1));
}

abbrev clear_users : Adapter (ℕ × ℕ) → Op (ℕ × ℕ) Unit
clear_users db = db.delete (query "users" [])

clear_users_stays : (t : ℕ × ℕ) → (clear_users (postgres_transaction inner) t).1.0 ≡ t.0
unfolding beacon_auth.Sql.Postgres.Tx.delete Build.on_matching Build.where_clause
clear_users_stays t = refl

transaction_all_or_nothing_example :
    ((t : ℕ × ℕ) × (ok (7, 7) ≡ ok t)
      × ((clear_users (postgres_transaction inner) t).0 ≡ ok tt)
      × (Postgres.transaction pairs inner clear_users 7
          ≡ (ok tt, (clear_users (postgres_transaction inner) t).1.1)))
    ⊎ ((e : Error) × (Postgres.transaction pairs inner clear_users 7 ≡ (err e, 7)))
unfolding pairs-Atomic beacon_auth.Sql.Postgres.Tx.delete
transaction_all_or_nothing_example =
    transaction_all_or_nothing pairs pairs-Atomic inner clear_users 7 clear_users_stays

abbrev strange : Query
strange = query "users" (clause "age" (op_other "~") (str "x") ∷ [])
