-- ===== src/Session/Cookie/Tokens.antt =====
-- strings.Split at dots, and the dot that joins the parts of a token.
use Prim.Native.Char.{Char, code}
use Prim.Native.String.append
use text.Mathlib.TextEquality.{Char-path}
use beacon_auth.Prelude.{
  String, str_append, ◌≡◌, refl, sym, ap, ◌∙◌, Bool, true, not, ◌&&◌, List, [], ◌∷◌, arith, nat_eq,
  Bool-cases, inl, inr,
}
use beacon_auth.Session.Cookie.{split_dots}

abbrev is_dot : Char → Bool
is_dot c = nat_eq (code c) b'.'

-- The parts with dots between them.
abbrev pub join_dots : List String → String
join_dots [] = ""
join_dots (s ∷ []) = s
join_dots (s ∷ t ∷ ss) = str_append s (str_append "." (join_dots (t ∷ ss)))

abbrev pub dot_free : String → Bool
dot_free String.[] = true
dot_free (String.◌∷◌ c s) = not (is_dot c) && dot_free s

-- There is always a first part.
split-cons : (s : String) → (x : String) × (xs : List String) × (split_dots s ≡ x ∷ xs)
unfolding split_dots
split-cons String.[] = ("", [], refl)
split-cons (String.◌∷◌ c s) =
    let (x, xs, e) = split-cons s in
    elim (Bool-cases (is_dot c)) [
      | inl h ↦ ("", x ∷ xs, rw (h, e))
      | inr h ↦ (String.◌∷◌ c x, xs, rw (h, e))
    ]

abbrev dot : Char
dot = "."

dot_cons : (c : Char) (s : String) → is_dot c ≡ true → String.◌∷◌ c s ≡ str_append "." s
dot_cons c s h =
    ap (λ d. String.◌∷◌ d s) (Char-path c dot (ground arith))
    ∙ ap (String.◌∷◌ dot) (sym (append.nil s))
    ∙ sym (append.cons dot "" s)

join_dots-nil :
    (x : String) (xs : List String) → join_dots ("" ∷ x ∷ xs) ≡ str_append "." (join_dots (x ∷ xs))
join_dots-nil x xs = append.nil _

join_dots-onto :
    (c : Char) (x : String) (xs : List String)
    → join_dots (String.◌∷◌ c x ∷ xs) ≡ String.◌∷◌ c (join_dots (x ∷ xs))
join_dots-onto c x [] = refl
join_dots-onto c x (y ∷ ys) = append.cons c x _

-- Splitting loses nothing.
pub join_dots-split : (s : String) → join_dots (split_dots s) ≡ s
unfolding split_dots
join_dots-split String.[] = refl
join_dots-split (String.◌∷◌ c s) =
    let (x, xs, e) = split-cons s in
    let ih : join_dots (x ∷ xs) ≡ s = rw (← e) (join_dots-split s) in
    elim (Bool-cases (is_dot c)) [
      | inl h ↦ rw (h, e) (join_dots-nil x xs ∙ ap (str_append ".") ih ∙ sym (dot_cons c s h))
      | inr h ↦ rw (h, e) (join_dots-onto c x xs ∙ ap (String.◌∷◌ c) ih)
    ]

-- A text with no dot is one part.
split_dots-dot_free : (s : String) → dot_free s ≡ true → split_dots s ≡ s ∷ []
unfolding split_dots
split_dots-dot_free String.[] h = refl
split_dots-dot_free (String.◌∷◌ c s) h = ground (arith, split_dots-dot_free s)

-- Two texts with no dot, and a dot between them, are two parts.
pub split_dots-join :
    (s t : String)
    → dot_free s ≡ true
    → dot_free t ≡ true
    → split_dots (str_append s (str_append "." t)) ≡ s ∷ t ∷ []
unfolding split_dots
split_dots-join String.[] t h k =
    rw (append.nil (str_append "." t), ← dot_cons dot t refl) (rw (split_dots-dot_free t k))
split_dots-join (String.◌∷◌ c s) t h k =
    rw (append.cons c s (str_append "." t)) (ground (arith, split_dots-join s t))
