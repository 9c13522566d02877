-- ===== src/Memory/Compare.antt =====
-- adapters/memory/memory.go: the comparisons of stored values.
-- The float64 and float32 operands of `toFloat64` are left out, since no `Value` is one.
use Prim.Native.Nat.{Ordering}
use beacon_auth.Prelude.{
  ℕ, zero, suc, ◌+◌, ◌-◌, ◌*◌, ◌/◌, ◌%◌, ◌^◌, String, Bool, Option, none, some, ℤ, pos, negsuc, ltb,
  nat_eq, str_lt, ltb_ℤ, ◌==◌, if◌then◌else◌,
}
use beacon_auth.Core.Value.{Time, Value, nil, int, time, sprint, after, before, same_instant}

-- How many bits of `n` lie above the 53 that a float64 holds; at most 11 for a 64-bit integer.
excess_bits : ℕ → ℕ → ℕ
excess_bits zero n = 0
excess_bits (suc fuel) n =
    let rest = excess_bits fuel (n / 2) in if ltb n (2 ^ 53) then 0 else suc rest

-- `n` rounded to a multiple of 2 ^ e, ties to the even multiple.
round_even : ℕ → ℕ → ℕ
round_even zero n = n
round_even (suc e) n =
    let q = n / 2 ^ suc e in
    let r = n % 2 ^ suc e in
    if ltb r (2 ^ e)
    then q * 2 ^ suc e
    else if ltb (2 ^ e) r
    then (q + 1) * 2 ^ suc e
    else (q + q % 2) * 2 ^ suc e

-- The integer that the float64 of a 64-bit integer stands for.
round_float64 : ℤ → ℤ
unfolding excess_bits round_even
round_float64 (pos n) = pos (round_even (excess_bits 11 n) n)
round_float64 (negsuc n) =
    let m = round_even (excess_bits 11 (suc n)) (suc n) in
    if nat_eq m 0 then pos 0 else negsuc (m - 1)

unfoldable pub to_float64 : Value → Option ℤ
unfolding round_float64
to_float64 (int n) = some (round_float64 n)
to_float64 _ = none

abbrev pub number_less : Option ℤ → Option ℤ → Bool → Bool
number_less (some m) (some n) otherwise = ltb_ℤ m n
number_less _ _ otherwise = otherwise

abbrev pub ordering : Bool → Bool → Ordering
ordering less more = if less then Ordering.lt else if more then Ordering.gt else Ordering.eq

abbrev pub number_ordering : Option ℤ → Option ℤ → Ordering → Ordering
number_ordering (some m) (some n) otherwise = ordering (ltb_ℤ m n) (ltb_ℤ n m)
number_ordering _ _ otherwise = otherwise

module _ (show_time : Time → String) where
  -- The last resort of every comparison: the printed forms.
  abbrev printed_equal : Value → Value → Bool
  printed_equal a b = sprint show_time a == sprint show_time b

  abbrev printed_less : Value → Value → Bool
  printed_less a b = str_lt (sprint show_time a) (sprint show_time b)

  unfoldable pub equal : Value → Value → Bool
  equal (time s) (time t) = same_instant s t
  equal a b = printed_equal a b

  unfoldable pub greater_than : Value → Value → Bool
  greater_than (time s) (time t) = after s t
  greater_than a b = number_less (to_float64 b) (to_float64 a) (printed_less b a)

  unfoldable pub less_than : Value → Value → Bool
  less_than (time s) (time t) = before s t
  less_than a b = number_less (to_float64 a) (to_float64 b) (printed_less a b)

  -- -1, 0 and 1 are `lt`, `eq` and `gt`.
  unfoldable pub compare_values : Value → Value → Ordering
  compare_values nil nil = Ordering.eq
  compare_values nil b = Ordering.lt
  compare_values a nil = Ordering.gt
  compare_values (time s) (time t) = ordering (before s t) (after s t)
  compare_values a b =
      number_ordering (to_float64 a) (to_float64 b) (ordering (printed_less a b) (printed_less b a))
