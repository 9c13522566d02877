-- ===== src/Memory/Where.antt =====
-- adapters/memory/memory.go: whether a record matches the clauses of a query.
use Prim.Native.Char.{Char, code}
use Prim.Native.String.{find, len}
use beacon_auth.Prelude.{
  String, str_append, Bool, true, false, not, ◌&&◌, ◌||◌, none, some, List, [], ◌∷◌, leb, nat_eq,
  ◌==◌, if◌then◌else◌,
}
use beacon_auth.Prelude.Dict.{get}
use beacon_auth.Core.Value.{Time, Value, nil, str, list, Items, end, item, Record}
use beacon_auth.Core.Query.{
  Operator, op_equal, op_not_equal, op_greater_than, op_greater_or_equal, op_less_than,
  op_less_or_equal, op_like, op_in, op_not_in, op_is_null, op_is_not_null, op_other, WhereClause,
}
use beacon_auth.Memory.Compare.{equal, greater_than, less_than}

-- strings.Contains
abbrev pub str_contains : String → String → Bool
str_contains s t = leb (find s t) (len s)

-- strings.ReplaceAll(pattern, "%", ".*")
replace_percent : String → String
replace_percent String.[] = ""
replace_percent (String.◌∷◌ c s) =
    let rest = replace_percent s in
    if nat_eq (code c) b'%' then str_append ".*" rest else String.◌∷◌ c rest

-- A character of the cut set ".*".
abbrev in_cutset : Char → Bool
in_cutset c = nat_eq (code c) b'.' || nat_eq (code c) b'*'

trim_left : String → String
trim_left String.[] = ""
trim_left (String.◌∷◌ c s) = let rest = trim_left s in if in_cutset c then rest else String.◌∷◌ c s

trim_right : String → String
trim_right String.[] = ""
trim_right (String.◌∷◌ c s) =
    let rest = trim_right s in if in_cutset c && rest == "" then "" else String.◌∷◌ c rest

-- What the LIKE branch searches for.
unfoldable pub like_needle : String → String
unfolding replace_percent trim_left trim_right
like_needle pattern = trim_right (trim_left (replace_percent pattern))

unfoldable pub matches_like : Value → Value → Bool
unfolding like_needle
matches_like (str s) (str pattern) = str_contains s (like_needle pattern)
matches_like _ _ = false

unfoldable pub is_nil : Value → Bool
is_nil nil = true
is_nil _ = false

module _ (show_time : Time → String) where
  -- The loop over the list of an IN or NOT IN clause: is an item equal to the value?
  unfoldable pub any_equal : Value → Items → Bool
  any_equal v end = false
  any_equal v (item x xs) = equal show_time v x || any_equal v xs

  unfoldable pub matches_in : Value → Value → Bool
  unfolding any_equal
  matches_in v (list xs) = any_equal v xs
  matches_in v _ = false

  unfoldable pub matches_not_in : Value → Value → Bool
  unfolding any_equal
  matches_not_in v (list xs) = not (any_equal v xs)
  matches_not_in v _ = false

  unfoldable pub matches_clause : Value → Operator → Value → Bool
  unfolding matches_like is_nil matches_in matches_not_in
  matches_clause v op_equal c = equal show_time v c
  matches_clause v op_not_equal c = not (equal show_time v c)
  matches_clause v op_greater_than c = greater_than show_time v c
  matches_clause v op_greater_or_equal c = greater_than show_time v c || equal show_time v c
  matches_clause v op_less_than c = less_than show_time v c
  matches_clause v op_less_or_equal c = less_than show_time v c || equal show_time v c
  matches_clause v op_like c = matches_like v c
  matches_clause v op_in c = matches_in v c
  matches_clause v op_not_in c = matches_not_in v c
  matches_clause v op_is_null c = is_nil v
  matches_clause v op_is_not_null c = not (is_nil v)
  matches_clause v (op_other s) c = false

  -- One round of the loop: the field is there, and its value matches.
  unfoldable pub holds : Record → WhereClause → Bool
  holds r c = elim (get r c.field) [ none ↦ false | some v ↦ matches_clause v c.operator c.value ]

  unfoldable pub matches_where : Record → List WhereClause → Bool
  unfolding holds
  matches_where r [] = true
  matches_where r (c ∷ cs) = holds r c && matches_where r cs
