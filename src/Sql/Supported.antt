-- ===== src/Sql/Supported.antt =====
-- Which conditions the SQL adapters can write, and what they do with the others.
use beacon_auth.Prelude.{
  ℕ, ◌+◌, ◌≡◌, refl, ap, ◌∙◌, String, Bool, true, false, ◌&&◌, Option, none, some, is_some, List,
  [], ◌∷◌, length, arith,
}
use beacon_auth.Core.Value.{Value}
use beacon_auth.Core.Types.{Error, Result, ok, err}
use beacon_auth.Core.Query.{Operator, op_equal, op_in, op_not_in, op_other, WhereClause, Query}
use beacon_auth.Sql.Build as Build
use beacon_auth.Sql.Build.{
  Statement, and_then, elements, among, with_operator, where_loop, where_clause, on_matching,
}
use beacon_auth.Sql.Text.{dollar, question}
use beacon_auth.Sql.Driver.{Pgx}
use beacon_auth.Sql.Postgres as Postgres
use beacon_auth.Sql.Mysql as Mysql
use beacon_auth.Sql.Sqlite as Sqlite
use beacon_auth.Sql.Mssql as Mssql

-- An operator of core/interfaces.go, with a list where it wants one.
abbrev pub supported : Operator → Value → Bool
supported op_in v = is_some (elements v)
supported op_not_in v = is_some (elements v)
supported (op_other s) v = false
supported op_equal v = true
supported op v = true

abbrev pub all_supported : List WhereClause → Bool
all_supported [] = true
all_supported (c ∷ cs) = supported c.operator c.value && all_supported cs

abbrev pub is_ok : {A : Type 0} → Result A → Bool
is_ok (ok a) = true
is_ok (err e) = false

is_ok-last :
    {A B : Type 0} (r : Result A) (h : A → B) → is_ok (and_then r (λ (x : A). ok (h x))) ≡ is_ok r
is_ok-last (ok x) h = refl
is_ok-last (err e) h = refl

err_of_not_ok : {A : Type 0} (r : Result A) → is_ok r ≡ false → (e : Error) × (r ≡ err e)
err_of_not_ok (ok a) h = absurd (ground arith)
err_of_not_ok (err e) h = (e, refl)

module _ (mark : ℕ → String) where
  is_ok-among :
      (f word complaint : String) (o : Option (List Value)) (i : ℕ)
      → is_ok (among mark f word complaint o i) ≡ is_some o
  is_ok-among f word complaint none i = refl
  is_ok-among f word complaint (some vs) i = refl

  is_ok-with_operator :
      (op : Operator) (f : String) (v : Value) (i : ℕ)
      → is_ok (with_operator mark op f v i) ≡ supported op v
  unfolding with_operator
  is_ok-with_operator op_in f v i = is_ok-among f _ _ (elements v) i
  is_ok-with_operator op_not_in f v i = is_ok-among f _ _ (elements v) i
  is_ok-with_operator op_equal f v i = refl
  is_ok-with_operator op f v i = refl

  is_ok-then :
      {A B C : Type 0} (r : Result A) (g : A → Result B) (h : A → B → C) (b : Bool)
      → ((a : A) → is_ok (g a) ≡ b)
      → is_ok (and_then r (λ (a : A). and_then (g a) (λ (x : B). ok (h a x)))) ≡ (is_ok r && b)
  is_ok-then (ok a) g h b k = is_ok-last (g a) (h a) ∙ k a
  is_ok-then (err e) g h b k = refl

  is_ok-loop : (cs : List WhereClause) (i : ℕ) → is_ok (where_loop mark cs i) ≡ all_supported cs
  unfolding where_loop
  is_ok-loop [] i = refl
  is_ok-loop (c ∷ cs) i =
      is_ok-then (with_operator mark c.operator c.field c.value i) _ _ (all_supported cs)
        (λ s. is_ok-loop cs (i + length s.1))
      ∙ ap (λ b. b && all_supported cs) (is_ok-with_operator c.operator c.field c.value i)

  is_ok-where : (cs : List WhereClause) (i : ℕ) → is_ok (where_clause mark cs i) ≡ all_supported cs
  unfolding where_clause
  is_ok-where [] i = refl
  is_ok-where (c ∷ cs) i = is_ok-last (where_loop mark (c ∷ cs) i) _ ∙ is_ok-loop (c ∷ cs) i

  on_matching_refused :
      (q : Query) (e : Error)
      → where_clause mark q.clauses 1 ≡ err e
      → (head tail : String) → on_matching mark head q tail ≡ err e
  unfolding on_matching
  on_matching_refused q e h head tail = rw h refl

-- build_where_clause of the SQL adapters makes a text exactly when every clause is supported: its operator
-- is one of core/interfaces.go, and its value is a list where the operator is IN or NOT IN.
pub build_where_clause-supported :
    (cs : List WhereClause) (i : ℕ)
    → (is_ok (Postgres.build_where_clause cs i) ≡ all_supported cs)
      × (is_ok (Mysql.build_where_clause cs) ≡ all_supported cs)
      × (is_ok (Sqlite.build_where_clause cs) ≡ all_supported cs)
      × (is_ok (Mssql.build_where_clause cs) ≡ all_supported cs)
build_where_clause-supported cs i = (
  is_ok-where dollar cs i,
  is_ok-where question cs 1,
  is_ok-where question cs 1,
  is_ok-where question cs 1,
)

-- A query with a clause that is not supported reaches no PostgreSQL database: FindOne, FindMany, Delete,
-- DeleteMany and Count answer with the same error and leave the state as it was.
pub unsupported_unsent :
    {S : Type 0} (pool : Pgx S) (q : Query) (s : S)
    → all_supported q.clauses ≡ false
    → (e : Error) × (Postgres.find_one pool q s ≡ (err e, s))
      × (Postgres.find_many pool q s ≡ (err e, s))
      × (Postgres.delete pool q s ≡ (err e, s))
      × (Postgres.delete_many pool q s ≡ (err e, s))
      × (Postgres.count pool q s ≡ (err e, s))
unfolding Postgres.find_one Postgres.find_many Postgres.delete Postgres.delete_many Postgres.count
    Postgres.delete_statement Postgres.count_statement Postgres.build_select_query Build.select
unsupported_unsent pool q s h =
    let (e, w) =
      err_of_not_ok (where_clause dollar q.clauses 1) (is_ok-where dollar q.clauses 1 ∙ h) in
    let sent = on_matching_refused dollar q e w in
    (
      e,
      rw (sent _ _) refl,
      rw (sent _ _) refl,
      rw (sent _ _) refl,
      rw (sent _ _) refl,
      rw (sent _ _) refl,
    )
