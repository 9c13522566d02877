-- ===== src/Memory/Order.antt =====
-- The comparison that FindMany sorts by is asymmetric, so its results are in order.
use Prim.Native.Nat.{Ordering, compare as compare_nat}
use Prim.Native.Char.{code}
use Prim.Native.String.{then, compare as compare_str}
use Prim.Native.String.compare
use beacon_auth.Prelude.{
  ℕ, String, ◌≡◌, refl, true, false, Option, none, some, List, [], ◌∷◌, arith, ℤ, str_lt,
}
use beacon_auth.Core.Value.{Time, Value, nil, time, sprint, Record}
use beacon_auth.Core.Query.{OrderBy}
use beacon_auth.Memory.Compare.{compare_values, to_float64, ordering, number_ordering}
use beacon_auth.Memory.Sort.{value_at, less_by}

abbrev flip : Ordering → Ordering
flip Ordering.lt = Ordering.gt
flip Ordering.eq = Ordering.eq
flip Ordering.gt = Ordering.lt

compare-flip : (m n : ℕ) → compare_nat m n ≡ flip (compare_nat n m)
compare-flip m n = ground arith

then-flip : (o p q r : Ordering) → o ≡ flip q → p ≡ flip r → then o p ≡ flip (then q r)
then-flip o p q r h k = ground arith

str_compare-flip : (s t : String) → compare_str s t ≡ flip (compare_str t s)
str_compare-flip String.[] String.[] = refl
str_compare-flip String.[] (String.◌∷◌ d t) = rw (compare.nil-cons, compare.cons-nil)
str_compare-flip (String.◌∷◌ c s) String.[] = rw (compare.nil-cons, compare.cons-nil)
str_compare-flip (String.◌∷◌ c s) (String.◌∷◌ d t) =
    rw (compare.cons-cons, compare.cons-cons)
      (then-flip _ _ _ _ (compare-flip (code c) (code d)) (str_compare-flip s t))

number_ordering-flip :
    (x y : Option ℤ) (s t : String)
    → number_ordering x y (ordering (str_lt s t) (str_lt t s))
      ≡ flip (number_ordering y x (ordering (str_lt t s) (str_lt s t)))
number_ordering-flip (some m) (some n) s t = ground arith
number_ordering-flip (some m) none s t = ground (arith, str_compare-flip s t)
number_ordering-flip none y s t = ground (arith, str_compare-flip s t)

module _ (show_time : Time → String) where
  compare_values-flip :
      (a b : Value) → compare_values show_time a b ≡ flip (compare_values show_time b a)
  unfolding compare_values
  compare_values-flip nil nil = refl
  compare_values-flip nil b = refl
  compare_values-flip a nil = refl
  compare_values-flip (time s) (time t) = ground arith
  compare_values-flip a b =
      number_ordering-flip (to_float64 a) (to_float64 b) (sprint show_time a) (sprint show_time b)

  -- A record that comes before another by the ordering of a query does not come after it too.
  pub less_by-asym :
      (os : List OrderBy) (r s : Record)
      → less_by show_time os r s ≡ true
      → less_by show_time os s r ≡ false
  unfolding less_by
  less_by-asym [] r s h = refl
  less_by-asym (o ∷ os) r s h =
      ground
        (arith, compare_values-flip (value_at r o.field) (value_at s o.field), less_by-asym os r s)
