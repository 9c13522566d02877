-- ===== src/Sql/Outcomes.antt =====
-- What the methods of the SQL adapters answer.
use beacon_auth.Prelude.{ℕ, ◌≡◌, ◌⊎◌, inl, inr, refl, ap, ◌∙◌, true, false, none, some, []}
use beacon_auth.Core.Types.{Error, Result, ok, err, Done, failed}
use beacon_auth.Core.Query.{Query, Op, Adapter}
use beacon_auth.Sql.Build.{Statement}
use beacon_auth.Sql.Driver.{
  Pgx, PgxRows, Transactions, transact, carry, lift, ◌>>=◌, read_all, rolled_back, finish, started,
}
use beacon_auth.Sql.Postgres as Postgres
use beacon_auth.Sql.Postgres.Tx.{postgres_transaction}
use beacon_auth.Sql.Sqlite as Sqlite

-- The result without the number of rows.
abbrev pub without_count : {S : Type 0} → Result ℕ × S → Done × S
without_count (ok n, s) = (ok tt, s)
without_count (err e, s) = (err e, s)

drop_count : {S : Type 0} (p : Result ℕ × S) → carry p.0 (λ n. lift (ok tt)) p.1 ≡ without_count p
drop_count (ok n, s) = refl
drop_count (err e, s) = refl

sent-without_count :
    {S : Type 0} (pool : Pgx S) (r : Result Statement) (s : S)
    → carry r (λ (x : Statement). pool.exec x.0 x.1 >>= λ n. lift (ok tt)) s
      ≡ without_count (carry r (λ (x : Statement). pool.exec x.0 x.1) s)
sent-without_count pool (ok x) s = drop_count (pool.exec x.0 x.1 s)
sent-without_count pool (err e) s = refl

-- Delete of the PostgreSQL adapter does what DeleteMany does and leaves out the count: it deletes
-- every matching row. The SQLite adapter sends the same statement for Delete as for DeleteMany.
pub delete-delete_many :
    {S : Type 0} (pool : Pgx S) (q : Query) (s : S)
    → (Postgres.delete pool q s ≡ without_count (Postgres.delete_many pool q s))
      × (Sqlite.delete_statement q ≡ Sqlite.delete_many_statement q)
unfolding Postgres.delete Postgres.delete_many Sqlite.delete_statement Sqlite.delete_many_statement
delete-delete_many pool q s = (sent-without_count pool (Postgres.delete_statement q) s, refl)

-- Where the rows of a query end with a read error before the first row, FindOne of the PostgreSQL adapter
-- answers that there is no row, with no error, and FindMany answers with the error.
pub find_one-unread :
    {S : Type 0} (pool : Pgx S) (q : Query) (one many : Statement) (s t u : S) (rows : PgxRows)
    (e : Error)
    → Postgres.build_select_query q true ≡ ok one
    → Postgres.build_select_query q false ≡ ok many
    → pool.query one.0 one.1 s ≡ (ok rows, t)
    → pool.query many.0 many.1 s ≡ (ok rows, u)
    → rows.found ≡ []
    → rows.last ≡ some e
    → (Postgres.find_one pool q s ≡ (ok none, t)) × (Postgres.find_many pool q s ≡ (err e, u))
unfolding Postgres.find_one Postgres.find_many read_all
find_one-unread pool q one many s t u rows e h1 h2 k1 k2 f l =
    (rw (h1, k1, f) refl, rw (h2, k2, f, l) refl)

-- What is documented of database transactions: a transaction that is not committed leaves the database
-- as it was when it began.
pub record Atomic {S T : Type 0} (tx : Transactions S T) : Type 0 where
  pub base : T → S
  pub committed : T → S
  pub begun : (s : S) (t : T) (s' : S) → tx.begin s ≡ (ok t, s') → base t ≡ s
  pub not_begun : (s : S) (e : Error) (s' : S) → tx.begin s ≡ (err e, s') → s' ≡ s
  pub commits :
      (t : T)
      → (tx.commit t ≡ (ok tt, committed t)) ⊎ ((e : Error) × (tx.commit t ≡ (err e, base t)))
  pub rolls_back : (t : T) → (tx.rollback t).1 ≡ base t

module _ {S T : Type 0} (tx : Transactions S T) (a : Atomic tx) where
  rolled_back_lem :
      (e : Error) (r : Done × S) (b : S) → r.1 ≡ b → (d : Error) × (rolled_back tx e r ≡ (err d, b))
  rolled_back_lem e (ok u, s) b h = (e, ap (λ x. (err e, x)) h)
  rolled_back_lem e (err rb, s) b h =
      (failed "transaction error", ap (λ x. (err (failed "transaction error"), x)) h)

  finish_lem :
      (p : Done × T) (b : S)
      → a.base p.1 ≡ b
      → ((p.0 ≡ ok tt) × (finish tx p ≡ (ok tt, a.committed p.1)))
        ⊎ ((e : Error) × (finish tx p ≡ (err e, b)))
  finish_lem (ok u, t) b h = elim (a.commits t) [
    | inl c ↦ inl (refl, c)
    | inr (e, c) ↦ inr (e, c ∙ ap (λ x. (err e, x)) h)
  ]
  finish_lem (err e, t) b h = inr (rolled_back_lem e (tx.rollback t) b (a.rolls_back t ∙ h))

  started_lem :
      (fn : T → Done × T) (s : S) (p : Result T × S)
      → tx.begin s ≡ p
      → ((t : T) → a.base (fn t).1 ≡ a.base t)
      → ((t : T) × (p.0 ≡ ok t)
          × ((fn t).0 ≡ ok tt)
          × (started tx fn p ≡ (ok tt, a.committed (fn t).1)))
        ⊎ ((e : Error) × (started tx fn p ≡ (err e, s)))
  started_lem fn s (ok t, s') h keep = elim (finish_lem (fn t) s (keep t ∙ a.begun s t s' h)) [
    | inl (d, c) ↦ inl (t, refl, d, c)
    | inr c ↦ inr c
  ]
  started_lem fn s (err e, s') h keep = inr (e, ap (λ x. (err e, x)) (a.not_begun s e s' h))

-- Over transactions that leave the database alone unless they are committed, and for a function whose
-- steps stay inside the transaction, Transaction of the PostgreSQL adapter is all or nothing: it answers
-- without an error, the function has succeeded, and the database is what the commit makes of what the
-- function did; or it answers with an error and the database is as before.
pub transaction_all_or_nothing :
    {S T : Type 0} (pool : Transactions S T) (a : Atomic pool) (tx : Pgx T)
    (fn : Adapter T → Op T Unit) (s : S)
    → ((t : T) → a.base (fn (postgres_transaction tx) t).1 ≡ a.base t)
    → ((t : T) × ((pool.begin s).0 ≡ ok t)
        × ((fn (postgres_transaction tx) t).0 ≡ ok tt)
        × (Postgres.transaction pool tx fn s
            ≡ (ok tt, a.committed (fn (postgres_transaction tx) t).1)))
      ⊎ ((e : Error) × (Postgres.transaction pool tx fn s ≡ (err e, s)))
unfolding Postgres.transaction transact
transaction_all_or_nothing pool a tx fn s keep =
    started_lem pool a (fn (postgres_transaction tx)) s (pool.begin s) refl keep
