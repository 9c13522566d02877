-- ===== src/Core/Value.antt =====
-- The values of a Go `interface{}` that the program stores in records and compares in queries, and
-- how `fmt.Sprint` prints them. The layout of a printed time is the argument `show_time` of what
-- depends on it.
use Prim.Native.String.{slice}
use beacon_auth.Prelude.{
  ℕ, zero, suc, ◌+◌, ◌-◌, ◌/◌, ◌%◌, String, str_append, Bool, true, false, Option, none, some, List,
  [], ◌∷◌, str_lt, ℤ, pos, negsuc, ltb, nat_eq, if◌then◌else◌,
}
use beacon_auth.Prelude.Dict.{Dict}

-- A time.Time: nanoseconds since the zero time, and what else its printed form depends on (the
-- location, the monotonic reading).
pub record Time : Type 0 where
  pub instant : ℕ
  pub zone : String

-- The zero value of time.Time.
abbrev pub zero_time : Time
zero_time = record { instant = 0; zone = "UTC" }

-- `t.Add(d)` for a duration in nanoseconds
abbrev pub add_time : Time → ℤ → Time
add_time t (pos d) = record t { instant = t.instant + d }
add_time t (negsuc d) = record t { instant = t.instant - suc d }

abbrev pub after : Time → Time → Bool
after s t = ltb t.instant s.instant

abbrev pub before : Time → Time → Bool
before s t = ltb s.instant t.instant

abbrev pub same_instant : Time → Time → Bool
same_instant s t = nat_eq s.instant t.instant

mutual
  pub data Value : Type 0 where
    nil : Value
    str : String → Value
    int : ℤ → Value
    bool : Bool → Value
    time : Time → Value
    time_ptr : Option Time → Value
    list : Items → Value
    object : Fields → Value

  pub data Items : Type 0 where
    end : Items
    item : Value → Items → Items

  -- A `map[string]interface{}` inside a value.
  pub data Fields : Type 0 where
    no_fields : Fields
    field : String → Value → Fields → Fields

-- A `map[string]interface{}`: a row of a table, or the metadata of an object.
abbrev pub Record : Type 0
Record = Dict Value

abbrev pub digit : ℕ → String
digit d = slice "0123456789" d (d + 1)

-- Decimal digits, at most one for each unit of fuel.
unfoldable pub decimal_loop : ℕ → ℕ → String
decimal_loop zero n = ""
decimal_loop (suc fuel) n =
    let rest = decimal_loop fuel (n / 10) in
    if ltb n 10 then digit n else str_append rest (digit (n % 10))

-- strconv.Itoa and strconv.FormatInt in base 10; an int64 has at most 19 digits.
unfoldable pub itoa : ℤ → String
unfolding decimal_loop
itoa (pos n) = decimal_loop 20 n
itoa (negsuc n) = str_append "-" (decimal_loop 20 (suc n))

-- The pairs of a printed map stand in the order of their keys.
insert_pair : String × String → List (String × String) → List (String × String)
insert_pair p [] = p ∷ []
insert_pair p (q ∷ ps) =
    let rest = insert_pair p ps in if str_lt q.0 p.0 then q ∷ rest else p ∷ q ∷ ps

sort_pairs : List (String × String) → List (String × String)
unfolding insert_pair
sort_pairs [] = []
sort_pairs (p ∷ ps) = insert_pair p (sort_pairs ps)

show_pairs : List (String × String) → String
show_pairs [] = ""
show_pairs ((k, v) ∷ []) = str_append k (str_append ":" v)
show_pairs ((k, v) ∷ p ∷ ps) =
    str_append k (str_append ":" (str_append v (str_append " " (show_pairs (p ∷ ps)))))

module _ (show_time : Time → String) where
  unfoldable mutual
    unfolding itoa sort_pairs show_pairs

    -- fmt.Sprint of one operand
    pub sprint : Value → String
    sprint nil = "<nil>"
    sprint (str s) = s
    sprint (int n) = itoa n
    sprint (bool true) = "true"
    sprint (bool false) = "false"
    sprint (time t) = show_time t
    sprint (time_ptr none) = "<nil>"
    sprint (time_ptr (some t)) = show_time t
    sprint (list xs) = str_append "[" (str_append (sprint_items xs) "]")
    sprint (object fs) =
        str_append "map[" (str_append (show_pairs (sort_pairs (sprint_fields fs))) "]")

    pub sprint_items : Items → String
    sprint_items end = ""
    sprint_items (item v xs) = sprint_tail (sprint v) xs

    pub sprint_tail : String → Items → String
    sprint_tail s end = s
    sprint_tail s (item v xs) = str_append s (str_append " " (sprint_tail (sprint v) xs))

    pub sprint_fields : Fields → List (String × String)
    sprint_fields no_fields = []
    sprint_fields (field k v fs) = (k, sprint v) ∷ sprint_fields fs
