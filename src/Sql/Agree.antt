-- ===== src/Sql/Agree.antt =====
-- The statements of the PostgreSQL adapter against those of the MySQL adapter.
use beacon_auth.Prelude.{◌≡◌, refl, Bool}
use beacon_auth.Core.Value.{Record}
use beacon_auth.Core.Query.{Query}
use beacon_auth.Sql.Text.{marks}
use beacon_auth.Sql.Numbered.{renumber, Counted}
use beacon_auth.Sql.Statements.{Clean, ColumnsClean, select-Numbers, update-Numbers}
use beacon_auth.Sql.Postgres as Postgres
use beacon_auth.Sql.Mysql as Mysql

-- If the names in a query have no question mark, build_select_query of the PostgreSQL adapter makes the
-- statement of the MySQL adapter with its question marks numbered from left to right from 1 on, and
-- with the same arguments, of which there is one for each question mark; or both give the same error.
pub build_select_query-numbered :
    (q : Query) (limit1 : Bool)
    → Clean q
    → (Postgres.build_select_query q limit1 ≡ renumber 1 (Mysql.build_select_query q limit1))
      × Counted (Mysql.build_select_query q limit1)
unfolding Postgres.build_select_query Mysql.build_select_query
build_select_query-numbered q limit1 c = select-Numbers q limit1 c

-- If the names in a query and in the data have no question mark, UpdateMany of the PostgreSQL adapter
-- sends the statement of the MySQL adapter with its question marks numbered from left to right, the
-- columns that are set before those of the condition, and with the same arguments, of which there is
-- one for each question mark; or both give the same error.
pub update_many_statement-numbered :
    (q : Query) (d : Record)
    → Clean q
    → ColumnsClean d
    → (Postgres.update_many_statement q d ≡ renumber 1 (Mysql.update_many_statement q d))
      × Counted (Mysql.update_many_statement q d)
unfolding Postgres.update_many_statement Mysql.update_many_statement marks
update_many_statement-numbered q d c k = update-Numbers q d "" "" c k refl refl
