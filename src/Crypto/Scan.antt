-- ===== src/Crypto/Scan.antt =====
-- fmt.Sscanf as crypto/hash.go calls it: "v=%d" and "m=%d,t=%d,p=%d". What stands behind the last
-- number is not read. Of the white space before a number only the blank and the tab are skipped.
use Prim.Native.Char.{code}
use beacon_auth.Prelude.{
  ℕ, ◌+◌, ◌-◌, ◌*◌, ◌^◌, String, Bool, true, false, ◌&&◌, ◌||◌, Option, none, some, ltb, leb,
  nat_eq, if◌then◌else◌,
}

-- A literal text of the format.
unfoldable pub drop_prefix : String → String → Option String
drop_prefix String.[] s = some s
drop_prefix (String.◌∷◌ c p) String.[] = none
drop_prefix (String.◌∷◌ c p) (String.◌∷◌ d s) =
    let rest = drop_prefix p s in if nat_eq (code c) (code d) then rest else none

unfoldable pub skip_blanks : String → String
skip_blanks String.[] = ""
skip_blanks (String.◌∷◌ c s) =
    let rest = skip_blanks s in
    if nat_eq (code c) 32 || nat_eq (code c) 9 then rest else String.◌∷◌ c s

-- The digits, of which there must be one, and what follows them.
unfoldable pub scan_digits : Bool → ℕ → String → Option (ℕ × String)
scan_digits seen n String.[] = if seen then some (n, "") else none
scan_digits seen n (String.◌∷◌ c s) =
    let rest = scan_digits true (n * 10 + (code c - 48)) s in
    if leb 48 (code c) && leb (code c) 57
    then rest
    else if seen
    then some (n, String.◌∷◌ c s)
    else none

abbrev in_range : ℕ → Option (ℕ × String) → Option (ℕ × String)
in_range bound none = none
in_range bound (some (n, s)) = if ltb n bound then some (n, s) else none

-- %d into an unsigned integer of some bits
unfoldable pub scan_unsigned : ℕ → String → Option (ℕ × String)
unfolding scan_digits skip_blanks
scan_unsigned bits s = in_range (2 ^ bits) (scan_digits false 0 (skip_blanks s))

-- %d into an int, of which only the size is kept
abbrev after_sign : String → Option (ℕ × String)
after_sign String.[] = none
after_sign (String.◌∷◌ c s) =
    if nat_eq (code c) b'-'
    then in_range (2 ^ 63 + 1) (scan_digits false 0 s)
    else if nat_eq (code c) b'+'
    then in_range (2 ^ 63) (scan_digits false 0 s)
    else in_range (2 ^ 63) (scan_digits false 0 (String.◌∷◌ c s))

abbrev after_literal : String → String → (String → Option (ℕ × String)) → Option (ℕ × String)
after_literal p s f = elim (drop_prefix p s) [ none ↦ none | some rest ↦ f rest ]

unfoldable pub scan_version : String → Option ℕ
unfolding drop_prefix scan_digits skip_blanks
scan_version s = elim (after_literal "v=" s (λ rest. after_sign (skip_blanks rest))) [
  | none ↦ none
  | some (n, rest) ↦ some n
]

-- The memory, the iterations and the parallelism.
unfoldable pub scan_parameters : String → Option (ℕ × ℕ × ℕ)
unfolding drop_prefix scan_unsigned
scan_parameters s = elim (after_literal "m=" s (scan_unsigned 32)) [
  | none ↦ none
  | some (m, s₁) ↦ elim (after_literal ",t=" s₁ (scan_unsigned 32)) [
    | none ↦ none
    | some (t, s₂) ↦ elim (after_literal ",p=" s₂ (scan_unsigned 8)) [
      | none ↦ none
      | some (p, s₃) ↦ some (m, t, p)
    ]
  ]
]
