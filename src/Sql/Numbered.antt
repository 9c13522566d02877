-- ===== src/Sql/Numbered.antt =====
-- Parts of statements: numbered placeholders against question marks, and their arguments.
use beacon_auth.Prelude.{
  ℕ, ◌+◌, ◌≡◌, refl, ap, sym, ◌∙◌, String, str_append, Option, none, some, List, [], ◌∷◌, ◌++◌, All,
  length, length-append, arith,
}
use beacon_auth.Core.Value.{Value}
use beacon_auth.Core.Types.{Result, ok, err}
use beacon_auth.Core.Query.{
  Operator, op_equal, op_not_equal, op_greater_than, op_greater_or_equal, op_less_than,
  op_less_or_equal, op_like, op_in, op_not_in, op_is_null, op_is_not_null, op_other, WhereClause,
}
use beacon_auth.Sql.Text.{
  concat, join, dollar, question, places, marks, number, number_all, marks_all, marks-append,
  number-append, number-clean, number_after, marks-join, number-join, number-places, marks-places,
}
use beacon_auth.Sql.Build.{
  Statement, and_then, elements, comparison, among, with_operator, where_loop, where_clause,
}

abbrev pub renumber : ℕ → Result Statement → Result Statement
renumber i (ok s) = ok (number i s.0, s.1)
renumber i (err e) = err e

abbrev pub Counted : Result Statement → Type 0
Counted (ok s) = marks s.0 ≡ length s.1
Counted (err e) = Unit

-- Numbering from `i` on, and as many question marks as arguments.
abbrev pub Numbers : ℕ → Result Statement → Result Statement → Type 0
Numbers i rd rq = (rd ≡ renumber i rq) × Counted rq

abbrev pub relist : ℕ → Result (List String × List Value) → Result (List String × List Value)
relist i (ok s) = ok (number_all i s.0, s.1)
relist i (err e) = err e

abbrev CountedAll : Result (List String × List Value) → Type 0
CountedAll (ok s) = marks_all s.0 ≡ length s.1
CountedAll (err e) = Unit

abbrev NumbersAll :
    ℕ → Result (List String × List Value) → Result (List String × List Value) → Type 0
NumbersAll i rd rq = (rd ≡ relist i rq) × CountedAll rq

-- Between texts without question marks only the middle is numbered.
pub number_middle :
    (i : ℕ) (s mid tail : String)
    → marks s ≡ 0
    → marks tail ≡ 0
    → number i (str_append s (str_append mid tail)) ≡ str_append s (str_append (number i mid) tail)
number_middle i s mid tail p q =
    number_after i s (str_append mid tail) p
    ∙ ap (str_append s) (
        number-append i mid tail
        ∙ ap (str_append (number i mid)) (number-clean (i + marks mid) tail q))

pub marks_middle :
    (s mid tail : String)
    → marks s ≡ 0
    → marks tail ≡ 0
    → marks (str_append s (str_append mid tail)) ≡ marks mid
marks_middle s mid tail p q =
    omega (arith, marks-append s (str_append mid tail), marks-append mid tail)

module _ (i : ℕ) (f : String) (clean : marks f ≡ 0) where
  pub placed_number :
      (word : String)
      → marks word ≡ 0
      → (number i (concat (f ∷ word ∷ question i ∷ [])) ≡ concat (f ∷ word ∷ dollar i ∷ []))
        × (marks (concat (f ∷ word ∷ question i ∷ [])) ≡ 1)
  unfolding concat number marks
  placed_number word w = (
    number_after i f (str_append word "?") clean ∙ ap (str_append f) (number_after i word "?" w),
    omega (arith, marks-append f (str_append word "?"), marks-append word "?"),
  )

  comparison-Numbers :
      (word : String) (v : Value)
      → marks word ≡ 0
      → Numbers i (comparison dollar f word v i) (comparison question f word v i)
  comparison-Numbers word v w =
      let (p, q) = placed_number word w in (ap (λ t. ok (t, v ∷ [])) (sym p), q)

  among-Numbers :
      (word complaint : String) (o : Option (List Value))
      → marks word ≡ 0
      → Numbers i (among dollar f word complaint o i) (among question f word complaint o i)
  unfolding concat marks
  among-Numbers word complaint none w = (refl, tt)
  among-Numbers word complaint (some vs) w =
      let mid = join ", " (places question i (length vs)) in
      (
        ap (λ t. ok (t, vs))
            (sym (
              number_after i f (str_append word (str_append mid ")")) clean
              ∙ ap (str_append f) (
                  number_middle i word mid ")" w refl
                  ∙ ap (λ t. str_append word (str_append t ")"))
                      (number-join ", " refl i (places question i (length vs))
                        ∙ ap (join ", ") (number-places i (length vs)))))),
        omega (
          arith,
          marks-append f (str_append word (str_append mid ")")),
          marks_middle word mid ")" w refl,
          marks-join ", " refl (places question i (length vs)),
          marks-places i (length vs),
        ),
      )

  word-Numbers :
      (word : String)
      → marks word ≡ 0
      → Numbers i (ok (concat (f ∷ word ∷ []), [])) (ok (concat (f ∷ word ∷ []), []))
  unfolding concat marks
  word-Numbers word w = (
    ap (λ t. ok (t, []))
        (sym (
          number_after i f (str_append word "") clean
          ∙ ap (str_append f)
              (number-clean i (str_append word "") (omega (arith, marks-append word ""))))),
    omega (arith, marks-append f (str_append word ""), marks-append word ""),
  )

  with_operator-Numbers :
      (op : Operator) (v : Value)
      → Numbers i (with_operator dollar op f v i) (with_operator question op f v i)
  unfolding with_operator marks
  with_operator-Numbers op_equal v = comparison-Numbers " = " v refl
  with_operator-Numbers op_not_equal v = comparison-Numbers " != " v refl
  with_operator-Numbers op_greater_than v = comparison-Numbers " > " v refl
  with_operator-Numbers op_greater_or_equal v = comparison-Numbers " >= " v refl
  with_operator-Numbers op_less_than v = comparison-Numbers " < " v refl
  with_operator-Numbers op_less_or_equal v = comparison-Numbers " <= " v refl
  with_operator-Numbers op_like v = comparison-Numbers " LIKE " v refl
  with_operator-Numbers op_in v = among-Numbers " IN (" _ (elements v) refl
  with_operator-Numbers op_not_in v = among-Numbers " NOT IN (" _ (elements v) refl
  with_operator-Numbers op_is_null v = word-Numbers " IS NULL" refl
  with_operator-Numbers op_is_not_null v = word-Numbers " IS NOT NULL" refl
  with_operator-Numbers (op_other s) v = (refl, tt)

-- The two loops in step.
step-Numbers :
    (i : ℕ) (rd rq : Result Statement) (ld lq : ℕ → Result (List String × List Value))
    → Numbers i rd rq
    → ((k : ℕ) → NumbersAll (i + k) (ld (i + k)) (lq (i + k)))
    → NumbersAll i
        (and_then rd (λ (s : Statement).
          and_then
            (ld (i + length s.1))
            (λ (r : List String × List Value). ok (s.0 ∷ r.0, s.1 ++ r.1))))
        (and_then rq (λ (s : Statement).
          and_then
            (lq (i + length s.1))
            (λ (r : List String × List Value). ok (s.0 ∷ r.0, s.1 ++ r.1))))
unfolding number_all marks_all
step-Numbers i rd (err e) ld lq (p, _) rest = rw p (refl, tt)
step-Numbers i rd (ok s) ld lq (p, n) rest =
    rw p (tail (ld (i + length s.1)) (lq (i + length s.1)) (rest (length s.1)))
  where
    tail :
        (ld lq : Result (List String × List Value))
        → NumbersAll (i + length s.1) ld lq
        → NumbersAll i
            (and_then ld (λ (r : List String × List Value). ok (number i s.0 ∷ r.0, s.1 ++ r.1)))
            (and_then lq (λ (r : List String × List Value). ok (s.0 ∷ r.0, s.1 ++ r.1)))
    tail ld (err e) (q, _) = rw q (refl, tt)
    tail ld (ok r) (q, m) = rw q (
      ap (λ k. ok (number i s.0 ∷ number_all (i + k) r.0, s.1 ++ r.1)) (sym n),
      omega (arith, length-append s.1 r.1),
    )

abbrev pub FieldsClean : List WhereClause → Type 0
FieldsClean cs = All (λ (c : WhereClause). marks c.field ≡ 0) cs

loop-Numbers :
    (cs : List WhereClause) (i : ℕ)
    → FieldsClean cs
    → NumbersAll i (where_loop dollar cs i) (where_loop question cs i)
unfolding where_loop number_all marks_all
loop-Numbers [] i h = (refl, refl)
loop-Numbers (c ∷ cs) i h =
    step-Numbers i _ _ (where_loop dollar cs) (where_loop question cs)
      (with_operator-Numbers i c.field h.0 c.operator c.value) (λ k. loop-Numbers cs (i + k) h.1)

-- A condition put into a text by `g`, which has no question marks of its own.
pub put-Numbers :
    (i : ℕ) (g : String → String) (rd rq : Result Statement)
    → ((t : String) → number i (g t) ≡ g (number i t))
    → ((t : String) → marks (g t) ≡ marks t)
    → Numbers i rd rq
    → Numbers i
        (and_then rd (λ (w : Statement). ok (g w.0, w.1)))
        (and_then rq (λ (w : Statement). ok (g w.0, w.1)))
put-Numbers i g rd (err e) p q (e1, n) = rw e1 (refl, tt)
put-Numbers i g rd (ok w) p q (e1, n) = rw e1 (ap (λ t. ok (t, w.1)) (sym (p w.0)), q w.0 ∙ n)

joined-Numbers :
    (i : ℕ) (ld lq : Result (List String × List Value))
    → NumbersAll i ld lq
    → Numbers i
        (and_then ld
          (λ (r : List String × List Value). ok (concat (" WHERE " ∷ join " AND " r.0 ∷ []), r.1)))
        (and_then lq
          (λ (r : List String × List Value). ok (concat (" WHERE " ∷ join " AND " r.0 ∷ []), r.1)))
unfolding concat marks
joined-Numbers i ld (err e) (p, n) = rw p (refl, tt)
joined-Numbers i ld (ok r) (p, n) = rw p (
  ap (λ t. ok (t, r.1))
      (sym (
        number_middle i " WHERE " (join " AND " r.0) "" refl refl
        ∙ ap (λ t. str_append " WHERE " (str_append t "")) (number-join " AND " refl i r.0))),
  marks_middle " WHERE " (join " AND " r.0) "" refl refl ∙ marks-join " AND " refl r.0 ∙ n,
)

pub where_clause-Numbers :
    (cs : List WhereClause) (i : ℕ)
    → FieldsClean cs
    → Numbers i (where_clause dollar cs i) (where_clause question cs i)
unfolding where_clause number marks
where_clause-Numbers [] i h = (refl, refl)
where_clause-Numbers (c ∷ cs) i h = joined-Numbers i _ _ (loop-Numbers (c ∷ cs) i h)
