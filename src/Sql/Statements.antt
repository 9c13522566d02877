-- ===== src/Sql/Statements.antt =====
-- Whole statements: numbered placeholders against question marks.
use text.Mathlib.TextLemmas.{append-nil}
use beacon_auth.Prelude.{
  ℕ, suc, ◌+◌, ◌≡◌, refl, ap, sym, ◌∙◌, String, str_append, Bool, true, false, List, [], ◌∷◌, ◌++◌,
  map, All, length, length-append, ℤ, arith, if◌then◌else◌, Bool-cases, inl, inr,
}
use beacon_auth.Core.Value.{Value, Record, itoa}
use beacon_auth.Core.Types.{Result, ok, err}
use beacon_auth.Core.Query.{OrderBy, Query}
use beacon_auth.Sql.Text.{
  concat, join, dollar, question, marks, number, number_all, marks_all, marks-append, number-append,
  number_after, marks-join, marks-concat, number-join,
}
use beacon_auth.Sql.Build.{
  Statement, and_then, values, assignments, update, on_matching, order_clause, order_text,
  limit_text, offset_text, positive, select,
}
use beacon_auth.Sql.Digits.{marks-itoa, length-values}
use beacon_auth.Sql.Numbered.{
  Numbers, placed_number, number_middle, marks_middle, FieldsClean, where_clause-Numbers,
  put-Numbers,
}

marks-page :
    (word : String) (n : ℤ)
    → marks word ≡ 0
    → marks (if positive n then concat (word ∷ itoa n ∷ []) else "") ≡ 0
unfolding marks marks_all
marks-page word n h = elim (Bool-cases (positive n)) [
  | inl e ↦ rw e (omega (arith, marks-concat (word ∷ itoa n ∷ []), marks-itoa n))
  | inr e ↦ rw e refl
]

limit-marks : (limit1 : Bool) (n : ℤ) → marks (limit_text limit1 n) ≡ 0
unfolding limit_text marks
limit-marks true n = refl
limit-marks false n = marks-page " LIMIT " n refl

offset-marks : (n : ℤ) → marks (offset_text n) ≡ 0
unfolding offset_text marks
offset-marks n = marks-page " OFFSET " n refl

-- No question mark in a name that a statement writes out.
abbrev pub OrdersClean : List OrderBy → Type 0
OrdersClean os = All (λ (o : OrderBy). marks o.field ≡ 0) os

clauses-marks : (os : List OrderBy) → OrdersClean os → marks_all (map order_clause os) ≡ 0
unfolding marks_all concat marks
clauses-marks [] h = refl
clauses-marks (o ∷ os) h = omega (arith, one o.desc, clauses-marks os h.1)
  where
    one : (d : Bool) → marks (concat (o.field ∷ (if d then " DESC" else " ASC") ∷ [])) ≡ 0
    one true = marks-append o.field " DESC" ∙ omega arith
    one false = marks-append o.field " ASC" ∙ omega arith

order-marks : (os : List OrderBy) → OrdersClean os → marks (order_text os) ≡ 0
unfolding order_text marks marks_all
order-marks [] h = refl
order-marks (o ∷ os) h = omega (
  arith,
  marks-concat (" ORDER BY " ∷ join ", " (map order_clause (o ∷ os)) ∷ []),
  marks-join ", " refl (map order_clause (o ∷ os)),
  clauses-marks (o ∷ os) h,
)

pub record Clean (q : Query) : Type 0 where
  pub model : marks q.model ≡ 0
  pub clauses : FieldsClean q.clauses
  pub order_by : OrdersClean q.order_by

last-marks : (tail : String) → marks tail ≡ 0 → marks (str_append tail "") ≡ 0
last-marks tail h = rw (append-nil tail) h

-- A statement on the matching rows.
on_matching-Numbers :
    (head : String) (q : Query) (tail : String)
    → marks head ≡ 0
    → marks tail ≡ 0
    → Clean q
    → Numbers 1 (on_matching dollar head q tail) (on_matching question head q tail)
unfolding on_matching concat
on_matching-Numbers head q tail h t c =
    put-Numbers 1 (λ w. concat (head ∷ q.model ∷ w ∷ tail ∷ [])) _ _
      (λ w.
        number_after 1 head _ h
        ∙ ap (str_append head) (number_middle 1 q.model w _ c.model (last-marks tail t)))
      (λ w. omega (
        arith,
        marks-append head (str_append q.model (str_append w (str_append tail ""))),
        marks_middle q.model w (str_append tail "") c.model (last-marks tail t),
      ))
      (where_clause-Numbers q.clauses 1 c.clauses)

page-marks :
    (q : Query) (limit1 : Bool)
    → Clean q
    → marks (concat (order_text q.order_by ∷ limit_text limit1 q.limit ∷ offset_text q.offset ∷ []))
      ≡ 0
unfolding marks_all
page-marks q limit1 c = omega (
  arith,
  marks-concat (order_text q.order_by ∷ limit_text limit1 q.limit ∷ offset_text q.offset ∷ []),
  order-marks q.order_by c.order_by,
  limit-marks limit1 q.limit,
  offset-marks q.offset,
)

pub select-Numbers :
    (q : Query) (limit1 : Bool)
    → Clean q
    → Numbers 1 (select dollar q limit1) (select question q limit1)
unfolding select marks
select-Numbers q limit1 c = on_matching-Numbers "SELECT * FROM " q _ refl (page-marks q limit1 c) c

abbrev pub ColumnsClean : Record → Type 0
ColumnsClean d = All (λ (p : String × Value). marks p.0 ≡ 0) d

assignments-number :
    (d : Record) (i : ℕ)
    → ColumnsClean d
    → (number_all i (assignments question d i) ≡ assignments dollar d i)
      × (marks_all (assignments question d i) ≡ length d)
unfolding assignments number_all marks_all marks
assignments-number [] i h = (refl, refl)
assignments-number ((col, v) ∷ d) i h =
    let (p, q) = placed_number i col h.0 " = " refl in
    let (ps, qs) = assignments-number d (suc i) h.1 in
    (
      ap
            (λ t.
              t
              ∷ number_all (i + marks (concat (col ∷ " = " ∷ question i ∷ [])))
                  (assignments question d (suc i)))
            p
          ∙ ap (λ k. concat (col ∷ " = " ∷ dollar i ∷ []) ∷ k)
              (ap (λ k. number_all k (assignments question d (suc i))) (omega arith) ∙ ps),
      omega arith,
    )

module _ (q : Query) (d : Record) (middle tail : String) where
  abbrev update_text : (ℕ → String) → String → String
  update_text mark w =
      concat
        ("UPDATE " ∷ q.model ∷ " SET " ∷ join ", " (assignments mark d 1) ∷ middle ∷ w ∷ tail ∷ [])

  module _ (c : Clean q) (k : ColumnsClean d) (m : marks middle ≡ 0) (t : marks tail ≡ 0) where
    -- The columns before the condition take the first numbers.
    update_text-number :
        (w : String)
        → number 1 (update_text question w) ≡ update_text dollar (number (suc (length d)) w)
    unfolding concat marks
    update_text-number w =
        let (p, counted) = assignments-number d 1 k in
        let set = join ", " (assignments question d 1) in
        let joined : marks set ≡ length d =
          marks-join ", " refl (assignments question d 1) ∙ counted in
        let rest = str_append middle (str_append w (str_append tail "")) in
        number_after 1 "UPDATE " _ refl
        ∙ ap (str_append "UPDATE ") (
            number_after 1 q.model _ c.model
            ∙ ap (str_append q.model) (
                number_after 1 " SET " _ refl
                ∙ ap (str_append " SET ") (
                    number-append 1 set rest
                    ∙ ap (λ j. str_append j (number (1 + marks set) rest))
                        (number-join ", " refl 1 (assignments question d 1) ∙ ap (join ", ") p)
                    ∙ ap (str_append (join ", " (assignments dollar d 1))) (
                        ap (λ n. number n rest) (omega arith)
                        ∙ number_middle (suc (length d)) middle w _ m (last-marks tail t)))))

    update_text-marks : (w : String) → marks (update_text question w) ≡ length d + marks w
    unfolding marks marks_all
    update_text-marks w = omega (
      arith,
      marks-concat (
          "UPDATE "
          ∷ q.model
          ∷ " SET "
          ∷ join ", " (assignments question d 1)
          ∷ middle
          ∷ w
          ∷ tail
          ∷ []),
      marks-join ", " refl (assignments question d 1),
      (assignments-number d 1 k).1,
      c.model,
    )

    set-Numbers :
        (rd rq : Result Statement)
        → Numbers (suc (length d)) rd rq
        → Numbers 1
            (and_then rd (λ (w : Statement). ok (update_text dollar w.0, values d ++ w.1)))
            (and_then rq (λ (w : Statement). ok (update_text question w.0, values d ++ w.1)))
    set-Numbers rd (err e) (p, n) = rw p (refl, tt)
    set-Numbers rd (ok w) (p, n) = rw p (
      ap (λ x. ok (x, values d ++ w.1)) (sym (update_text-number w.0)),
      omega (arith, update_text-marks w.0, length-append (values d) w.1, length-values d),
    )

    pub update-Numbers : Numbers 1 (update dollar q d middle tail) (update question q d middle tail)
    unfolding update
    update-Numbers = set-Numbers _ _ (where_clause-Numbers q.clauses (suc (length d)) c.clauses)
