-- ===== src/Sql/Build.antt =====
-- The statements of the SQL adapters. adapters/postgres/postgres.go numbers its placeholders, the
-- other adapters write question marks; `mark` is the difference. A statement is its text with the
-- arguments in the order of the placeholders. The order of the pairs in a Record is the order in
-- which the range over the map meets them.
use beacon_auth.Prelude.{
  ℕ, suc, ◌+◌, String, Bool, true, false, Option, none, some, List, [], ◌∷◌, ◌++◌, map, length, ℤ,
  pos, ltb_ℤ, if◌then◌else◌,
}
use beacon_auth.Core.Value.{Value, list, Items, end, item, Record, itoa}
use beacon_auth.Core.Types.{Result, ok, err, failed}
use beacon_auth.Core.Query.{
  Operator, op_equal, op_not_equal, op_greater_than, op_greater_or_equal, op_less_than,
  op_less_or_equal, op_like, op_in, op_not_in, op_is_null, op_is_not_null, op_other, WhereClause,
  OrderBy, Query,
}
use beacon_auth.Sql.Text.{concat, join, places}

abbrev pub Statement : Type 0
Statement = String × List Value

abbrev pub and_then {ℓ κ} : {A : Type ℓ} {B : Type κ} → Result A → (A → Result B) → Result B
and_then (ok a) f = f a
and_then (err e) f = err e

abbrev pub items_list : Items → List Value
items_list end = []
items_list (item v xs) = v ∷ items_list xs

-- `clause.Value.([]interface{})`
abbrev pub elements : Value → Option (List Value)
elements (list xs) = some (items_list xs)
elements v = none

abbrev pub columns : Record → List String
columns d = map (λ (p : String × Value). p.0) d

abbrev pub values : Record → List Value
values d = map (λ (p : String × Value). p.1) d

module _ (mark : ℕ → String) where
  abbrev pub comparison : String → String → Value → ℕ → Result Statement
  comparison f word v i = ok (concat (f ∷ word ∷ mark i ∷ []), v ∷ [])

  abbrev pub among : String → String → String → Option (List Value) → ℕ → Result Statement
  among f word complaint none i = err (failed complaint)
  among f word complaint (some vs) i =
      ok (concat (f ∷ word ∷ join ", " (places mark i (length vs)) ∷ ")" ∷ []), vs)

  unfoldable pub with_operator : Operator → String → Value → ℕ → Result Statement
  with_operator op_equal f v i = comparison f " = " v i
  with_operator op_not_equal f v i = comparison f " != " v i
  with_operator op_greater_than f v i = comparison f " > " v i
  with_operator op_greater_or_equal f v i = comparison f " >= " v i
  with_operator op_less_than f v i = comparison f " < " v i
  with_operator op_less_or_equal f v i = comparison f " <= " v i
  with_operator op_like f v i = comparison f " LIKE " v i
  with_operator op_in f v i =
      among f " IN (" "IN operator requires []interface{} value" (elements v) i
  with_operator op_not_in f v i =
      among f " NOT IN (" "NOT IN operator requires []interface{} value" (elements v) i
  with_operator op_is_null f v i = ok (concat (f ∷ " IS NULL" ∷ []), [])
  with_operator op_is_not_null f v i = ok (concat (f ∷ " IS NOT NULL" ∷ []), [])
  with_operator (op_other s) f v i = err (failed (concat ("unsupported operator: " ∷ s ∷ [])))

  -- buildSingleWhereClause
  abbrev pub single_where : WhereClause → ℕ → Result Statement
  single_where c i = with_operator c.operator c.field c.value i

  -- The loop of buildWhereClause.
  unfoldable pub where_loop : List WhereClause → ℕ → Result (List String × List Value)
  where_loop [] i = ok ([], [])
  where_loop (c ∷ cs) i = and_then (single_where c i) (λ (s : Statement).
      and_then (where_loop cs (i + length s.1))
        (λ (rest : List String × List Value). ok (s.0 ∷ rest.0, s.1 ++ rest.1)))

  -- buildWhereClause
  unfoldable pub where_clause : List WhereClause → ℕ → Result Statement
  where_clause [] i = ok ("", [])
  where_clause (c ∷ cs) i =
      and_then (where_loop (c ∷ cs) i)
        (λ (r : List String × List Value). ok (concat (" WHERE " ∷ join " AND " r.0 ∷ []), r.1))

  -- `SET` of an update: `%s = ` and a placeholder for each column
  unfoldable pub assignments : Record → ℕ → List String
  assignments [] i = []
  assignments ((col, v) ∷ d) i = concat (col ∷ " = " ∷ mark i ∷ []) ∷ assignments d (suc i)

  -- INSERT: `middle` stands before VALUES and `tail` after them.
  unfoldable pub insert : String → Record → String → String → Statement
  insert model d middle tail = (
    concat (
        "INSERT INTO "
        ∷ model
        ∷ " ("
        ∷ join ", " (columns d)
        ∷ ")"
        ∷ middle
        ∷ " VALUES ("
        ∷ join ", " (places mark 1 (length d))
        ∷ ")"
        ∷ tail
        ∷ []),
    values d,
  )

  -- UPDATE: `middle` stands before the condition and `tail` after it.
  unfoldable pub update : Query → Record → String → String → Result Statement
  update q d middle tail = and_then (where_clause q.clauses (suc (length d))) (λ (w : Statement).
      ok (
        concat (
            "UPDATE " ∷ q.model ∷ " SET " ∷ join ", " (assignments d 1) ∷ middle ∷ w.0 ∷ tail ∷ []),
        values d ++ w.1,
      ))

  -- A statement on the matching rows: `head`, the table, the condition, `tail`.
  unfoldable pub on_matching : String → Query → String → Result Statement
  on_matching head q tail =
      and_then (where_clause q.clauses 1)
        (λ (w : Statement). ok (concat (head ∷ q.model ∷ w.0 ∷ tail ∷ []), w.1))

-- `%s %s` of a field and its direction
abbrev pub order_clause : OrderBy → String
order_clause o = concat (o.field ∷ (if o.desc then " DESC" else " ASC") ∷ [])

abbrev pub positive : ℤ → Bool
positive n = ltb_ℤ (pos 0) n

unfoldable pub order_text : List OrderBy → String
order_text [] = ""
order_text (o ∷ os) = concat (" ORDER BY " ∷ join ", " (map order_clause (o ∷ os)) ∷ [])

unfoldable pub limit_text : Bool → ℤ → String
limit_text true n = " LIMIT 1"
limit_text false n = if positive n then concat (" LIMIT " ∷ itoa n ∷ []) else ""

unfoldable pub offset_text : ℤ → String
offset_text n = if positive n then concat (" OFFSET " ∷ itoa n ∷ []) else ""

-- buildSelectQuery
unfoldable pub select : (ℕ → String) → Query → Bool → Result Statement
select mark q limit1 =
    on_matching mark "SELECT * FROM " q
      (concat (order_text q.order_by ∷ limit_text limit1 q.limit ∷ offset_text q.offset ∷ []))
