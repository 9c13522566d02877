-- ===== src/Core/Split.antt =====
-- strings.Split at one character.
use Prim.Native.Char.{Char, code}
use Prim.Native.String.append
use beacon_auth.Prelude.{
  ℕ, String, str_append, ◌≡◌, refl, sym, ap, Bool, true, not, ◌&&◌, List, [], ◌∷◌, arith, nat_eq,
  if◌then◌else◌, Bool-cases, inl, inr,
}

abbrev before_first : String → List String → List String
before_first s [] = s ∷ []
before_first s (t ∷ ts) = str_append s t ∷ ts

abbrev onto_head : (String → String) → List String → List String
onto_head f [] = []
onto_head f (s ∷ ss) = f s ∷ ss

-- The separator is given by its code.
unfoldable pub split_at : ℕ → String → List String
split_at d String.[] = "" ∷ []
split_at d (String.◌∷◌ c s) =
    let rest = split_at d s in
    if nat_eq (code c) d then "" ∷ rest else onto_head (String.◌∷◌ c) rest

-- Two lists of parts, where the last part of the first goes on in the second.
abbrev pub glue : List String → List String → List String
glue [] ts = ts
glue (s ∷ []) ts = before_first s ts
glue (s ∷ r ∷ rs) ts = s ∷ glue (r ∷ rs) ts

abbrev pub lacks : ℕ → String → Bool
lacks d String.[] = true
lacks d (String.◌∷◌ c s) = not (nat_eq (code c) d) && lacks d s

before_first-nil :
    (ts : List String) → (x : String) (xs : List String) → ts ≡ x ∷ xs → before_first "" ts ≡ ts
before_first-nil [] x xs e = absurd (ground arith)
before_first-nil (t ∷ ts) x xs e = ap (λ k. k ∷ ts) (append.nil t)

split-cons : (d : ℕ) (s : String) → (x : String) × (xs : List String) × (split_at d s ≡ x ∷ xs)
unfolding split_at
split-cons d String.[] = ("", [], refl)
split-cons d (String.◌∷◌ c s) =
    let (x, xs, e) = split-cons d s in
    elim (Bool-cases (nat_eq (code c) d)) [
      | inl h ↦ ("", x ∷ xs, rw (h, e))
      | inr h ↦ (String.◌∷◌ c x, xs, rw (h, e))
    ]

glue-onto :
    (c : Char) (x : String) (xs ts : List String)
    → glue (String.◌∷◌ c x ∷ xs) ts ≡ onto_head (String.◌∷◌ c) (glue (x ∷ xs) ts)
glue-onto c x [] [] = refl
glue-onto c x [] (t ∷ ts) = ap (λ k. k ∷ ts) (append.cons c x t)
glue-onto c x (y ∷ ys) ts = refl

-- Splitting a text that is made of two.
pub split-append :
    (d : ℕ) (s t : String) → split_at d (str_append s t) ≡ glue (split_at d s) (split_at d t)
unfolding split_at
split-append d String.[] t =
    let (x, xs, e) = split-cons d t in
    rw (append.nil t) (sym (before_first-nil (split_at d t) x xs e))
split-append d (String.◌∷◌ c s) t =
    let (x, xs, e) = split-cons d s in
    rw (append.cons c s t) (elim (Bool-cases (nat_eq (code c) d)) [
      | inl h ↦ rw (h, split-append d s t, e)
      | inr h ↦ rw (h, split-append d s t, e) (sym (glue-onto c x xs (split_at d t)))
    ])

-- A text without the separator is one part.
pub split-lacks : (d : ℕ) (s : String) → lacks d s ≡ true → split_at d s ≡ s ∷ []
unfolding split_at
split-lacks d String.[] h = refl
split-lacks d (String.◌∷◌ c s) h = ground (arith, split-lacks d s)
