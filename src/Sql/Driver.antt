-- ===== src/Sql/Driver.antt =====
-- What the SQL adapters call: the pool of pgx (adapters/postgres/postgres.go) and database/sql
-- (adapters/mysql/mysql.go, adapters/sqlite/sqlite.go, adapters/mssql/mssql.go) are parameters. A row that
-- cannot be read is an error in its place; `last` is what rows.Err() says once the rows are read.
use beacon_auth.Prelude.{ℕ, String, Option, none, some, List, [], ◌∷◌}
use beacon_auth.Prelude.Dict.{put}
use beacon_auth.Core.Value.{Value, Record}
use beacon_auth.Core.Types.{Error, failed, Result, ok, err, Done}
use beacon_auth.Core.Query.{Op}
use beacon_auth.Sql.Build.{and_then}

module _ {S A : Type 0} where
  abbrev pub lift : Result A → Op S A
  lift r s = (r, s)

module _ {S A B : Type 0} where
  abbrev pub carry : Result A → (A → Op S B) → Op S B
  carry (ok a) f s = f a s
  carry (err e) f s = (err e, s)

  infixl 5 ◌>>=◌
  abbrev pub ◌>>=◌ : Op S A → (A → Op S B) → Op S B
  ◌>>=◌ m f s = let (r, s') = m s in carry r f s'

-- pgx.Rows
pub record PgxRows : Type 0 where
  pub fields : List String
  pub found : List (Result (List Value))
  pub last : Option Error

-- The calls of pgxpool.Pool and of pgx.Tx. In `query_row`, `none` is pgx.ErrNoRows.
pub record Pgx (S : Type 0) : Type 0 where
  pub query : String → List Value → Op S PgxRows
  pub query_row : String → List Value → Op S (Option (List Value))
  pub query_count : String → List Value → Op S ℕ
  pub exec : String → List Value → Op S ℕ

-- A value that Rows.Scan stores: a `[]byte`, or anything else.
pub data Cell : Type 0 where
  bytes : String → Cell
  plain : Value → Cell

-- sql.Rows
pub record SqlRows : Type 0 where
  pub columns : Result (List String)
  pub found : List (Result (List Cell))
  pub last : Option Error

-- `queryExecuter`: what sql.DB and sql.Tx share; `exec` with what RowsAffected says.
pub record Executer (S : Type 0) : Type 0 where
  pub exec : String → List Value → Op S (Result ℕ)
  pub query : String → List Value → Op S SqlRows
  pub query_count : String → List Value → Op S ℕ

-- The transactions of a database: `T` is the state while one is open.
pub record Transactions (S T : Type 0) : Type 0 where
  pub begin : S → Result T × S
  pub commit : T → Done × S
  pub rollback : T → Done × S

module _ {A : Type 0} where
  -- `if err := rows.Err(); err != nil`
  abbrev pub unless_failed : Option Error → A → Result A
  unless_failed none a = ok a
  unless_failed (some e) a = err e

module _ {A B : Type 0} where
  -- The loop over rows.Next.
  unfoldable pub read_all : (B → Result A) → List B → Result (List A)
  read_all scan [] = ok []
  read_all scan (r ∷ rs) =
      and_then (scan r) (λ (a : A). and_then (read_all scan rs) (λ (rest : List A). ok (a ∷ rest)))

  -- The first row, if rows.Next finds one.
  abbrev pub read_first : (B → Result A) → List B → Result (Option A)
  read_first scan [] = ok none
  read_first scan (r ∷ rs) = and_then (scan r) (λ (a : A). ok (some a))

-- A row as a map from its columns.
unfoldable pub zip_row : List String → List Value → Record → Record
zip_row [] vs row = row
zip_row (f ∷ fs) [] row = row
zip_row (f ∷ fs) (v ∷ vs) row = zip_row fs vs (put row f v)

module _ {S : Type 0} {A : Type 0} where
  -- `if len(data) == 0`
  abbrev pub given : Record → Op S A → Op S A
  given [] m = lift (err (failed "no data provided"))
  given (p ∷ d) m = m

-- A missing row where a map is returned: the nil map, which reads as an empty one.
abbrev pub or_nil : Option Record → Record
or_nil none = []
or_nil (some r) = r

-- Transaction over the states of `tx`.
module _ {S T : Type 0} (tx : Transactions S T) where
  abbrev pub rolled_back : Error → Done × S → Done × S
  rolled_back e (ok u, s) = (err e, s)
  rolled_back e (err rb, s) = (err (failed "transaction error"), s)

  abbrev pub finish : Done × T → Done × S
  finish (ok u, t) = tx.commit t
  finish (err e, t) = rolled_back e (tx.rollback t)

  abbrev pub started : (T → Done × T) → Result T × S → Done × S
  started fn (ok t, s) = finish (fn t)
  started fn (err e, s) = (err e, s)

  unfoldable pub transact : (T → Done × T) → S → Done × S
  transact fn s = started fn (tx.begin s)
