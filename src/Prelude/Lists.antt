-- ===== src/Prelude/Lists.antt =====
-- Lists with Boolean tests and native lengths.
use Prim.Native.Nat.{ℕ, zero, suc, ◌+◌, ◌≤◌}
use mathlib.Core.Path.{◌≡◌, refl, subst}
use mathlib.Core.Bool.{Bool, true, false, not}
use mathlib.Core.Option.{Option, none, some}
use mathlib.Core.List.{List, [], ◌∷◌, ◌++◌}
use native.Mathlib.Omega.{arith}
use mathlib.Core.Logic.{inl, inr}
use beacon_auth.Prelude.Tests.{if◌then◌else◌, Bool-cases}

module _ {ℓ} {A : Type ℓ} where
  abbrev pub All {κ} : (A → Type κ) → List A → Type κ
  All P [] = Unit
  All P (x ∷ xs) = P x × All P xs

  abbrev pub length : List A → ℕ
  length [] = 0
  length (x ∷ xs) = suc (length xs)

  abbrev pub take : ℕ → List A → List A
  take n [] = []
  take zero (x ∷ xs) = []
  take (suc n) (x ∷ xs) = x ∷ take n xs

  abbrev pub drop : ℕ → List A → List A
  drop n [] = []
  drop zero (x ∷ xs) = x ∷ xs
  drop (suc n) (x ∷ xs) = drop n xs

  -- The elements that pass, in order.
  abbrev pub select : (A → Bool) → List A → List A
  select p [] = []
  select p (x ∷ xs) = if p x then x ∷ select p xs else select p xs

  -- The first element that passes.
  abbrev pub first : (A → Bool) → List A → Option A
  first p [] = none
  first p (x ∷ xs) = if p x then some x else first p xs

  -- The list without its first element that passes.
  abbrev pub without_first : (A → Bool) → List A → List A
  without_first p [] = []
  without_first p (x ∷ xs) = if p x then xs else x ∷ without_first p xs

  -- `f` at the first element that passes.
  abbrev pub change_first : (A → Bool) → (A → A) → List A → List A
  change_first p f [] = []
  change_first p f (x ∷ xs) = if p x then f x ∷ xs else x ∷ change_first p f xs

  pub length-append : (xs ys : List A) → length (xs ++ ys) ≡ length xs + length ys
  length-append [] ys = omega arith
  length-append (x ∷ xs) ys = omega (arith, length-append xs ys)

  pub select-append :
      (p : A → Bool) (xs ys : List A) → select p (xs ++ ys) ≡ select p xs ++ select p ys
  select-append p [] ys = refl
  select-append p (x ∷ xs) ys = ground (arith, select-append p xs ys)

  pub length-select_split :
      (p : A → Bool) (xs : List A)
      → length (select p xs) + length (select (λ x. not (p x)) xs) ≡ length xs
  length-select_split p [] = omega arith
  length-select_split p (x ∷ xs) = ground (arith, length-select_split p xs)

  pub length-select-le : (p : A → Bool) (xs : List A) → length (select p xs) ≤ length xs
  length-select-le p [] = omega arith
  length-select-le p (x ∷ xs) = ground (arith, length-select-le p xs)

  pub first-append :
      (p : A → Bool) (xs ys : List A) → first p xs ≡ none → first p (xs ++ ys) ≡ first p ys
  first-append p [] ys h = refl
  first-append p (x ∷ xs) ys h = ground (arith, first-append p xs ys)

  pub first_sound : (p : A → Bool) (xs : List A) (a : A) → first p xs ≡ some a → p a ≡ true
  first_sound p [] a h = ground arith
  first_sound p (x ∷ xs) a h = ground (arith, first_sound p xs a)

  pub first-none : (p : A → Bool) (xs : List A) → first p xs ≡ none → select p xs ≡ []
  first-none p [] h = refl
  first-none p (x ∷ xs) h = ground (arith, first-none p xs)

module _ {ℓ κ} {A : Type ℓ} (P : A → Type κ) (p : A → Bool) where
  -- What holds of every element holds of the first that passes.
  pub first-All : (xs : List A) (a : A) → All P xs → first p xs ≡ some a → P a
  first-All [] a h e = cc
  first-All (x ∷ xs) a h e = elim (Bool-cases (p x)) [
    | inl t ↦ subst P (cc (if_step t e)) h.0
    | inr f ↦ first-All xs a h.1 (ground arith)
  ]
    where
      if_step : p x ≡ true → first p (x ∷ xs) ≡ some a → some x ≡ some a
      if_step t e = ground arith

module _ {ℓ} {A : Type ℓ} where
  pub first-select : (p : A → Bool) (xs : List A) → select p xs ≡ [] → first p xs ≡ none
  first-select p [] h = refl
  first-select p (x ∷ xs) h = ground (arith, first-select p xs)

  -- A stronger test finds nothing either.
  pub first-none_of_imp :
      (p q : A → Bool)
      → ((x : A) → q x ≡ true → p x ≡ true)
      → (xs : List A) → first p xs ≡ none
      → first q xs ≡ none
  first-none_of_imp p q imp [] h = refl
  first-none_of_imp p q imp (x ∷ xs) h = ground (arith, imp x, first-none_of_imp p q imp xs)

  pub select-without_first :
      (p : A → Bool) (xs : List A) → length (select p xs) ≤ 1 → select p (without_first p xs) ≡ []
  select-without_first p [] h = refl
  select-without_first p (x ∷ xs) h =
      ground (arith, select-without_first p xs, length_nil (select p xs))
    where
      length_nil : (ys : List A) → length ys ≤ 0 → ys ≡ []
      length_nil [] h = refl
      length_nil (y ∷ ys) h = absurd (omega arith)

  -- Where at most one element passes `p`, and `f` makes it fail a stronger test `q`, nothing passes
  -- `q` after the change.
  pub first-change_first :
      (p q : A → Bool) (f : A → A)
      → ((x : A) → q x ≡ true → p x ≡ true)
      → ((x : A) → q (f x) ≡ false)
      → (xs : List A) → length (select p xs) ≤ 1
      → first q (change_first p f xs) ≡ none
  first-change_first p q f imp fails [] h = refl
  first-change_first p q f imp fails (x ∷ xs) h = elim (Bool-cases (p x)) [
    | inl t ↦
        rw (t, fails x)
          (first-none_of_imp p q imp xs (first-select p xs (length_zero (select p xs) (rest t))))
    | inr n ↦ rw (n, not_q n) (first-change_first p q f imp fails xs (ground arith))
  ]
    where
      length_zero : (ys : List A) → length ys ≤ 0 → ys ≡ []
      length_zero [] k = refl
      length_zero (y ∷ ys) k = absurd (omega arith)

      rest : p x ≡ true → length (select p xs) ≤ 0
      rest t = ground arith

      not_q : p x ≡ false → q x ≡ false
      not_q n = ground (arith, imp x)

  pub select-passes : (p : A → Bool) (xs : List A) → All (λ x. p x ≡ true) (select p xs)
  select-passes p [] = tt
  select-passes p (x ∷ xs) = ground (arith, select-passes p xs)

module _ {ℓ κ} {A : Type ℓ} (P : A → Type κ) where
  pub All-select : (p : A → Bool) (xs : List A) → All P xs → All P (select p xs)
  All-select p [] h = tt
  All-select p (x ∷ xs) h = ground (arith, All-select p xs)

  pub All-without_first : (p : A → Bool) (xs : List A) → All P xs → All P (without_first p xs)
  All-without_first p [] h = tt
  All-without_first p (x ∷ xs) h = ground (arith, All-without_first p xs)

  pub All-append : (xs ys : List A) → All P xs → All P ys → All P (xs ++ ys)
  All-append [] ys h k = k
  All-append (x ∷ xs) ys h k = (h.0, All-append xs ys h.1 k)
