-- ===== src/Memory/Sorted.antt =====
-- The order of the results of FindMany.
use mathlib.Core.List.{reverse_aux, append-nil, perm_middle}
use mathlib.Core.List.Perm
use beacon_auth.Prelude.{
  ◌≡◌, Bool, true, false, List, [], ◌∷◌, ◌++◌, Perm, arith, Bool-cases, inl, inr,
}
use beacon_auth.Memory.Sort.{slide, insertion_loop, insertion_sort}

module _ {ℓ} {A : Type ℓ} (less : A → A → Bool) where
  -- No element is less than the one before it.
  abbrev pub IsOrdered : List A → Type 0
  IsOrdered [] = Unit {0}
  IsOrdered (x ∷ []) = Unit {0}
  IsOrdered (x ∷ y ∷ ys) = (less y x ≡ false) × IsOrdered (y ∷ ys)

  -- The same of the reversed list, as the sorting loop holds it.
  abbrev IsFalling : List A → Type 0
  IsFalling [] = Unit {0}
  IsFalling (x ∷ []) = Unit {0}
  IsFalling (x ∷ y ∷ ys) = (less x y ≡ false) × IsFalling (y ∷ ys)

  module _ (asym : (x y : A) → less x y ≡ true → less y x ≡ false) where
    slide-IsFalling : (x : A) (ys : List A) → IsFalling ys → IsFalling (slide less x ys)
    unfolding slide
    slide-IsFalling x [] h = tt
    slide-IsFalling x (y ∷ []) h = ground (arith, asym x y)
    slide-IsFalling x (y ∷ z ∷ zs) h = ground (arith, asym x y, slide-IsFalling x (z ∷ zs) h.1)

  slide-perm : (x : A) (ys : List A) → Perm (slide less x ys) (x ∷ ys)
  unfolding slide
  slide-perm x [] = Perm.refl (x ∷ [])
  slide-perm x (y ∷ ys) = elim (Bool-cases (less x y)) [
    | inl h ↦ rw h (Perm.trans (Perm.cons y (slide-perm x ys)) (Perm.swap x y ys))
    | inr h ↦ rw h (Perm.refl (x ∷ y ∷ ys))
  ]

  -- The end of the reversed part fits the head of what follows it.
  abbrev Joins : List A → List A → Type 0
  Joins [] acc = Unit {0}
  Joins (x ∷ xs) [] = Unit {0}
  Joins (x ∷ xs) (y ∷ ys) = less y x ≡ false

  reverse_aux-IsOrdered :
      (xs acc : List A)
      → IsFalling xs
      → IsOrdered acc
      → Joins xs acc
      → IsOrdered (reverse_aux xs acc)
  reverse_aux-IsOrdered [] acc f o j = o
  reverse_aux-IsOrdered (x ∷ []) [] f o j = tt
  reverse_aux-IsOrdered (x ∷ []) (y ∷ ys) f o j = (j, o)
  reverse_aux-IsOrdered (x ∷ z ∷ zs) [] f o j = reverse_aux-IsOrdered (z ∷ zs) (x ∷ []) f.1 tt f.0
  reverse_aux-IsOrdered (x ∷ z ∷ zs) (y ∷ ys) f o j =
      reverse_aux-IsOrdered (z ∷ zs) (x ∷ y ∷ ys) f.1 (j, o) f.0

  Joins-nil : (xs : List A) → Joins xs []
  Joins-nil [] = tt
  Joins-nil (x ∷ xs) = tt

  reverse_aux-perm : (xs acc : List A) → Perm (reverse_aux xs acc) (xs ++ acc)
  reverse_aux-perm [] acc = Perm.refl acc
  reverse_aux-perm (x ∷ xs) acc = Perm.trans (reverse_aux-perm xs (x ∷ acc)) (perm_middle xs acc)

  insertion_loop-perm : (xs done : List A) → Perm (insertion_loop less xs done) (xs ++ done)
  unfolding insertion_loop
  insertion_loop-perm [] done = rw append-nil at (reverse_aux-perm done [])
  insertion_loop-perm (x ∷ xs) done =
      Perm.trans (insertion_loop-perm xs (slide less x done))
        (Perm.trans (Perm.append_left xs (slide-perm x done)) (perm_middle xs done))

  pub insertion_sort-perm : (xs : List A) → Perm (insertion_sort less xs) xs
  unfolding insertion_sort
  insertion_sort-perm xs = rw append-nil at (insertion_loop-perm xs [])

  module _ (asym : (x y : A) → less x y ≡ true → less y x ≡ false) where
    insertion_loop-IsOrdered :
        (xs done : List A) → IsFalling done → IsOrdered (insertion_loop less xs done)
    unfolding insertion_loop
    insertion_loop-IsOrdered [] done f = reverse_aux-IsOrdered done [] f tt (Joins-nil done)
    insertion_loop-IsOrdered (x ∷ xs) done f =
        insertion_loop-IsOrdered xs (slide less x done) (slide-IsFalling asym x done f)

    pub insertion_sort-IsOrdered : (xs : List A) → IsOrdered (insertion_sort less xs)
    unfolding insertion_sort
    insertion_sort-IsOrdered xs = insertion_loop-IsOrdered xs [] tt
