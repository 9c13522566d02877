-- ===== src/Sql/Blank.antt =====
-- The statements of the SQL adapters against those for the same query with its values blanked out.
use beacon_auth.Prelude.{
  ℕ, suc, ◌+◌, ◌≡◌, refl, ap, sym, ◌∙◌, String, Bool, List, [], ◌∷◌, ◌++◌, map, length,
  length-append, subst, arith,
}
use beacon_auth.Core.Value.{Value, nil, list, Items, end, item, Record}
use beacon_auth.Core.Types.{Result, ok, err}
use beacon_auth.Core.Query.{Operator, op_equal, op_in, op_not_in, op_other, WhereClause, Query}
use beacon_auth.Sql.Text.{concat, join, places, dollar, question}
use beacon_auth.Sql.Build as Build
use beacon_auth.Sql.Build.{
  Statement, and_then, items_list, elements, values, among, with_operator, where_loop, where_clause,
  assignments, insert, update, on_matching, columns,
}
use beacon_auth.Sql.Digits.{length-values}
use beacon_auth.Sql.Postgres as Postgres
use beacon_auth.Sql.Mysql as Mysql
use beacon_auth.Sql.Sqlite as Sqlite
use beacon_auth.Sql.Mssql as Mssql

abbrev blank_items : Items → Items
blank_items end = end
blank_items (item v xs) = item nil (blank_items xs)

-- A value without its content: of a list only the length stays.
abbrev blank_value : Value → Value
blank_value (list xs) = list (blank_items xs)
blank_value v = nil

abbrev blank_clause : WhereClause → WhereClause
blank_clause c = record c { value = blank_value c.value }

abbrev pub blank : Query → Query
blank q = record q { clauses = map blank_clause q.clauses }

-- The columns of a row without their values.
abbrev pub blank_data : Record → Record
blank_data d = map (λ (p : String × Value). (p.0, nil)) d

length-blank_data : (d : Record) → length (blank_data d) ≡ length d
length-blank_data [] = refl
length-blank_data (p ∷ d) = ap suc (length-blank_data d)

columns-blank : (d : Record) → columns (blank_data d) ≡ columns d
columns-blank [] = refl
columns-blank (p ∷ d) = ap (λ k. p.0 ∷ k) (columns-blank d)

-- The text of a statement, or the error.
abbrev pub text : Result Statement → Result String
text (ok s) = ok s.0
text (err e) = err e

-- The same text (or texts) and as many arguments, or the same error.
abbrev pub Alike : {A : Type 0} → Result (A × List Value) → Result (A × List Value) → Type 0
Alike (ok s) (ok r) = (s.0 ≡ r.0) × (length s.1 ≡ length r.1)
Alike (ok s) (err e) = ⊥
Alike (err e) (ok r) = ⊥
Alike (err e) (err d) = e ≡ d

then-Alike :
    {A B : Type 0} (r s : Result (A × List Value)) (f g : A × List Value → Result (B × List Value))
    → Alike r s
    → ((x y : A × List Value) → x.0 ≡ y.0 → length x.1 ≡ length y.1 → Alike (f x) (g y))
    → Alike (and_then r f) (and_then s g)
then-Alike (ok x) (ok y) f g h k = k x y h.0 h.1
then-Alike (ok x) (err e) f g h k = absurd h
then-Alike (err e) (ok y) f g h k = absurd h
then-Alike (err e) (err d) f g h k = h

text-Alike : (r s : Result Statement) → Alike r s → text r ≡ text s
text-Alike (ok x) (ok y) h = ap ok h.0
text-Alike (ok x) (err e) h = absurd h
text-Alike (err e) (ok y) h = absurd h
text-Alike (err e) (err d) h = ap err h

length-blank : (xs : Items) → length (items_list xs) ≡ length (items_list (blank_items xs))
length-blank end = refl
length-blank (item v xs) = ap suc (length-blank xs)

module _ (mark : ℕ → String) where
  among-Alike :
      (f word complaint : String) (v : Value) (i : ℕ)
      → Alike
          (among mark f word complaint (elements v) i)
          (among mark f word complaint (elements (blank_value v)) i)
  among-Alike f word complaint (list xs) i = (
    ap (λ n. concat (f ∷ word ∷ join ", " (places mark i n) ∷ ")" ∷ [])) (length-blank xs),
    length-blank xs,
  )
  among-Alike f word complaint v i = refl

  with_operator-Alike :
      (op : Operator) (f : String) (v : Value) (i : ℕ)
      → Alike (with_operator mark op f v i) (with_operator mark op f (blank_value v) i)
  unfolding with_operator
  with_operator-Alike op_equal f v i = (refl, refl)
  with_operator-Alike op_in f v i = among-Alike f _ _ v i
  with_operator-Alike op_not_in f v i = among-Alike f _ _ v i
  with_operator-Alike (op_other s) f v i = refl
  with_operator-Alike op f v i = (refl, refl)

  append-Alike :
      (x y : String) (xs ys : List String) (us bs cs ds : List Value)
      → x ≡ y
      → length us ≡ length bs
      → xs ≡ ys
      → length cs ≡ length ds
      → (x ∷ xs ≡ y ∷ ys) × (length (us ++ cs) ≡ length (bs ++ ds))
  append-Alike x y xs ys us bs cs ds p q r t =
      (cc, omega (arith, length-append us cs, length-append bs ds))

  loop-Alike :
      (cs : List WhereClause) (i j : ℕ)
      → i ≡ j
      → Alike (where_loop mark cs i) (where_loop mark (map blank_clause cs) j)
  unfolding where_loop
  loop-Alike [] i j e = (refl, refl)
  loop-Alike (c ∷ cs) i j e =
      then-Alike _ _ _ _
        (subst
          (λ k.
            Alike (with_operator mark c.operator c.field c.value i)
              (with_operator mark c.operator c.field (blank_value c.value) k))
          e (with_operator-Alike c.operator c.field c.value i))
        (λ s t p q.
          then-Alike _ _ _ _ (loop-Alike cs (i + length s.1) (j + length t.1) (omega arith))
            (λ x y k l. append-Alike s.0 t.0 x.0 y.0 s.1 t.1 x.1 y.1 p q k l))

  where-Alike :
      (cs : List WhereClause) (i : ℕ)
      → Alike (where_clause mark cs i) (where_clause mark (map blank_clause cs) i)
  unfolding where_clause
  where-Alike [] i = (refl, refl)
  where-Alike (c ∷ cs) i =
      then-Alike _ _ _ _ (loop-Alike (c ∷ cs) i i refl)
        (λ x y p q. (ap (λ t. concat (" WHERE " ∷ join " AND " t ∷ [])) p, q))

  on_matching-Alike :
      (head : String) (q : Query) (tail : String)
      → Alike (on_matching mark head q tail) (on_matching mark head (blank q) tail)
  unfolding on_matching
  on_matching-Alike head q tail =
      then-Alike _ _ _ _ (where-Alike q.clauses 1)
        (λ x y p n. (ap (λ t. concat (head ∷ q.model ∷ t ∷ tail ∷ [])) p, n))

  assignments-blank :
      (d : Record) (i : ℕ) → assignments mark (blank_data d) i ≡ assignments mark d i
  unfolding assignments
  assignments-blank [] i = refl
  assignments-blank ((col, v) ∷ d) i =
      ap (λ k. concat (col ∷ " = " ∷ mark i ∷ []) ∷ k) (assignments-blank d (suc i))

  update-Alike :
      (q : Query) (d : Record) (middle tail : String)
      → Alike (update mark q d middle tail) (update mark (blank q) (blank_data d) middle tail)
  unfolding update
  update-Alike q d middle tail =
      then-Alike _ _ _ _
        (subst
          (λ n.
            Alike (where_clause mark q.clauses (suc (length d)))
              (where_clause mark (map blank_clause q.clauses) (suc n)))
          (sym (length-blank_data d)) (where-Alike q.clauses (suc (length d))))
        (λ x y p n. (
          ap (λ k. concat ("UPDATE " ∷ q.model ∷ " SET " ∷ join ", " k ∷ middle ∷ x.0 ∷ tail ∷ []))
                (sym (assignments-blank d 1))
              ∙ ap
                  (λ t. concat (
                    "UPDATE "
                    ∷ q.model
                    ∷ " SET "
                    ∷ join ", " (assignments mark (blank_data d) 1)
                    ∷ middle
                    ∷ t
                    ∷ tail
                    ∷ []))
                  p,
          omega (
            arith,
            length-append (values d) x.1,
            length-append (values (blank_data d)) y.1,
            length-values d,
            length-values (blank_data d),
            length-blank_data d,
          ),
        ))

  insert-blank :
      (model : String) (d : Record) (middle tail : String)
      → (insert mark model (blank_data d) middle tail).0 ≡ (insert mark model d middle tail).0
  unfolding insert
  insert-blank model d middle tail = rw (columns-blank d, length-blank_data d)

-- The text that build_select_query of an SQL adapter makes is that of the query with every value left
-- out (of a list only its length stays): no value that is searched for can change the statement. The
-- same error is given where there is one.
pub select_text-blank :
    (q : Query) (limit1 : Bool)
    → (text (Postgres.build_select_query q limit1)
        ≡ text (Postgres.build_select_query (blank q) limit1))
      × (text (Mysql.build_select_query q limit1)
          ≡ text (Mysql.build_select_query (blank q) limit1))
      × (text (Sqlite.build_select_query q limit1)
          ≡ text (Sqlite.build_select_query (blank q) limit1))
      × (text (Mssql.build_select_query q limit1)
          ≡ text (Mssql.build_select_query (blank q) limit1))
unfolding Postgres.build_select_query Mysql.build_select_query Sqlite.build_select_query
    Mssql.build_select_query Build.select Mssql.top_text Mssql.rows_text
select_text-blank q limit1 = (
  text-Alike _ _ (on_matching-Alike dollar _ q _),
  text-Alike _ _ (on_matching-Alike question _ q _),
  text-Alike _ _ (on_matching-Alike question _ q _),
  text-Alike _ _ (on_matching-Alike question _ q _),
)

-- The texts of the INSERT and UPDATE statements of each of the four SQL adapters, for one row and for
-- many, are those of the row with every value left out and of the query with every value left out:
-- they depend on the columns only. The same error is given where there is one.
pub write_text-blank :
    (q : Query) (d : Record)
    → ((Postgres.create_statement q.model d).0
        ≡ (Postgres.create_statement q.model (blank_data d)).0)
      × ((Mysql.create_statement q.model d).0 ≡ (Mysql.create_statement q.model (blank_data d)).0)
      × ((Sqlite.create_statement q.model d).0 ≡ (Sqlite.create_statement q.model (blank_data d)).0)
      × ((Mssql.create_statement q.model d).0 ≡ (Mssql.create_statement q.model (blank_data d)).0)
      × (text (Postgres.update_statement q d)
          ≡ text (Postgres.update_statement (blank q) (blank_data d)))
      × (text (Mysql.update_statement q d) ≡ text (Mysql.update_statement (blank q) (blank_data d)))
      × (text (Sqlite.update_statement q d)
          ≡ text (Sqlite.update_statement (blank q) (blank_data d)))
      × (text (Mssql.update_statement q d) ≡ text (Mssql.update_statement (blank q) (blank_data d)))
      × (text (Postgres.update_many_statement q d)
          ≡ text (Postgres.update_many_statement (blank q) (blank_data d)))
      × (text (Mysql.update_many_statement q d)
          ≡ text (Mysql.update_many_statement (blank q) (blank_data d)))
      × (text (Sqlite.update_many_statement q d)
          ≡ text (Sqlite.update_many_statement (blank q) (blank_data d)))
      × (text (Mssql.update_many_statement q d)
          ≡ text (Mssql.update_many_statement (blank q) (blank_data d)))
unfolding Postgres.create_statement Mysql.create_statement Sqlite.create_statement
    Mssql.create_statement Postgres.update_statement Mysql.update_statement Sqlite.update_statement
    Mssql.update_statement Postgres.update_many_statement Mysql.update_many_statement
    Sqlite.update_many_statement Mssql.update_many_statement
write_text-blank q d = (
  rw (columns-blank d) (
      sym (insert-blank dollar q.model d "" (concat (" RETURNING " ∷ join ", " (columns d) ∷ [])))),
  sym (insert-blank question q.model d "" ""),
  sym (insert-blank question q.model d "" ""),
  sym (insert-blank question q.model d " OUTPUT Inserted.*" ""),
  text-Alike _ _ (update-Alike dollar q d "" " RETURNING *"),
  text-Alike _ _ (update-Alike question q d "" " LIMIT 1"),
  text-Alike _ _ (update-Alike question q d "" ""),
  text-Alike _ _ (update-Alike question q d " OUTPUT Inserted.*" ""),
  text-Alike _ _ (update-Alike dollar q d "" ""),
  text-Alike _ _ (update-Alike question q d "" ""),
  text-Alike _ _ (update-Alike question q d "" ""),
  text-Alike _ _ (update-Alike question q d "" ""),
)
