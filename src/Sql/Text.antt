-- ===== src/Sql/Text.antt =====
-- The text of SQL statements: strings.Join, the placeholders of a statement, and how a statement
-- with question marks turns into one with numbered placeholders.
use Prim.Native.Char.{Char, code}
use Prim.Native.String.append
use text.Mathlib.TextLemmas.{append_assoc, append-nil}
use beacon_auth.Prelude.{
  ℕ, zero, suc, ◌+◌, ◌≡◌, refl, ap, sym, ◌∙◌, String, str_append, Bool, List, [], ◌∷◌, pos, arith,
  nat_eq, if◌then◌else◌, Bool-cases, inl, inr,
}
use beacon_auth.Core.Value.{itoa}

-- The parts of a text that fmt.Sprintf puts together.
unfoldable pub concat : List String → String
concat [] = ""
concat (s ∷ ss) = str_append s (concat ss)

-- `sep` before each text
unfoldable pub lead : String → List String → String
lead sep [] = ""
lead sep (s ∷ ss) = str_append sep (str_append s (lead sep ss))

-- strings.Join
unfoldable pub join : String → List String → String
join sep [] = ""
join sep (s ∷ ss) = str_append s (lead sep ss)

-- `$%d`
unfoldable pub dollar : ℕ → String
dollar i = str_append "$" (itoa (pos i))

abbrev pub question : ℕ → String
question i = "?"

-- The placeholders of `n` arguments from number `i` on.
unfoldable pub places : (ℕ → String) → ℕ → ℕ → List String
places mark i zero = []
places mark i (suc n) = mark i ∷ places mark (suc i) n

abbrev is_mark : Char → Bool
is_mark c = nat_eq (code c) b'?'

-- The number of question marks in a text.
unfoldable pub marks : String → ℕ
marks String.[] = 0
marks (String.◌∷◌ c s) = if is_mark c then suc (marks s) else marks s

-- The text with its question marks numbered from `i` on.
unfoldable pub number : ℕ → String → String
number i String.[] = ""
number i (String.◌∷◌ c s) =
    let marked = str_append (dollar i) (number (suc i) s) in
    let same = String.◌∷◌ c (number i s) in if is_mark c then marked else same

pub marks-append : (s t : String) → marks (str_append s t) ≡ marks s + marks t
unfolding marks
marks-append String.[] t = rw (append.nil t) (omega arith)
marks-append (String.◌∷◌ c s) t = rw (append.cons c s t) (ground (arith, marks-append s t))

pub number-append :
    (i : ℕ) (s t : String)
    → number i (str_append s t) ≡ str_append (number i s) (number (i + marks s) t)
unfolding number marks
number-append i String.[] t =
    rw (append.nil t, append.nil (number (i + 0) t)) (ap (λ k. number k t) (omega arith))
number-append i (String.◌∷◌ c s) t = rw (append.cons c s t) (elim (Bool-cases (is_mark c)) [
  | inl h ↦
      rw (h, number-append (suc i) s t, append_assoc)
        (ap (λ k. str_append (dollar i) (str_append (number (suc i) s) (number k t))) (omega arith))
  | inr h ↦ rw (h, number-append i s t) (sym (append.cons c (number i s) _))
])

-- A text without question marks stays as it is.
pub number-clean : (i : ℕ) (s : String) → marks s ≡ 0 → number i s ≡ s
unfolding number marks
number-clean i String.[] h = refl
number-clean i (String.◌∷◌ c s) h = ground (arith, number-clean i s)

-- The texts of a list, each numbered on from those before it.
unfoldable pub number_all : ℕ → List String → List String
number_all i [] = []
number_all i (s ∷ ss) = number i s ∷ number_all (i + marks s) ss

unfoldable pub marks_all : List String → ℕ
marks_all [] = 0
marks_all (s ∷ ss) = marks s + marks_all ss

pub marks-concat : (ss : List String) → marks (concat ss) ≡ marks_all ss
unfolding marks_all concat marks
marks-concat [] = refl
marks-concat (s ∷ ss) = marks-append s (concat ss) ∙ ap (λ k. marks s + k) (marks-concat ss)

pub number-concat : (i : ℕ) (ss : List String) → number i (concat ss) ≡ concat (number_all i ss)
unfolding number_all concat number
number-concat i [] = refl
number-concat i (s ∷ ss) =
    number-append i s (concat ss) ∙ ap (str_append (number i s)) (number-concat (i + marks s) ss)

-- A text of which the first part has no question mark.
pub number_after :
    (i : ℕ) (s t : String) → marks s ≡ 0 → number i (str_append s t) ≡ str_append s (number i t)
number_after i s t h =
    rw (number-append i s t, number-clean i s h, h)
      (ap (λ k. str_append s (number k t)) (omega arith))

module _ (sep : String) (clean : marks sep ≡ 0) where
  pub marks-lead : (ss : List String) → marks (lead sep ss) ≡ marks_all ss
  unfolding marks_all lead marks
  marks-lead [] = refl
  marks-lead (s ∷ ss) =
      rw (marks-append sep (str_append s (lead sep ss)), marks-append s (lead sep ss), clean)
        (omega (arith, marks-lead ss))

  pub marks-join : (ss : List String) → marks (join sep ss) ≡ marks_all ss
  unfolding marks_all join marks
  marks-join [] = refl
  marks-join (s ∷ ss) = marks-append s (lead sep ss) ∙ ap (λ k. marks s + k) (marks-lead ss)

  pub number-lead : (i : ℕ) (ss : List String) → number i (lead sep ss) ≡ lead sep (number_all i ss)
  unfolding number_all lead number
  number-lead i [] = refl
  number-lead i (s ∷ ss) =
      number_after i sep (str_append s (lead sep ss)) clean
      ∙ ap (str_append sep) (
          number-append i s (lead sep ss)
          ∙ ap (str_append (number i s)) (number-lead (i + marks s) ss))

  pub number-join : (i : ℕ) (ss : List String) → number i (join sep ss) ≡ join sep (number_all i ss)
  unfolding number_all join number
  number-join i [] = refl
  number-join i (s ∷ ss) =
      number-append i s (lead sep ss) ∙ ap (str_append (number i s)) (number-lead (i + marks s) ss)

-- Numbered question marks are numbered placeholders.
pub number-places : (i n : ℕ) → number_all i (places question i n) ≡ places dollar i n
unfolding number_all places number marks
number-places i zero = refl
number-places i (suc n) = rw (append-nil (dollar i)) (
    ap (λ k. dollar i ∷ k)
      (ap (λ k. number_all k (places question (suc i) n)) (omega arith) ∙ number-places (suc i) n))

pub marks-places : (i n : ℕ) → marks_all (places question i n) ≡ n
unfolding marks_all places marks
marks-places i zero = refl
marks-places i (suc n) = omega (arith, marks-places (suc i) n)
