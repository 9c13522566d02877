-- ===== src/Memory/Sort.antt =====
-- adapters/memory/memory.go: the ordering and the page of FindMany.
-- sort.Slice is an insertion sort up to twelve elements. What it makes of a longer slice is a parameter.
use Prim.Native.Nat.{Ordering}
use mathlib.Core.List.{reverse}
use beacon_auth.Prelude.{
  String, Bool, false, not, none, some, List, [], ◌∷◌, ℤ, pos, negsuc, length, take, drop, leb, ltb,
  if◌then◌else◌,
}
use beacon_auth.Prelude.Dict.{get}
use beacon_auth.Core.Value.{Time, Value, nil, Record}
use beacon_auth.Core.Query.{OrderBy}
use beacon_auth.Memory.Compare.{compare_values}

-- `record[field]`: nil where there is no such key
abbrev pub value_at : Record → String → Value
value_at r k = elim (get r k) [ none ↦ nil | some v ↦ v ]

module _ (show_time : Time → String) where
  -- The function that FindMany gives to sort.Slice.
  unfoldable pub less_by : List OrderBy → Record → Record → Bool
  less_by [] r s = false
  less_by (o ∷ os) r s = elim (compare_values show_time (value_at r o.field) (value_at s o.field)) [
    | Ordering.eq ↦ less_by os r s
    | Ordering.lt ↦ not o.desc
    | Ordering.gt ↦ o.desc
  ]

module _ {ℓ} {A : Type ℓ} (less : A → A → Bool) where
  -- The inner loop: `x` moves left past what it is less than. The sorted part is held last first.
  unfoldable pub slide : A → List A → List A
  slide x [] = x ∷ []
  slide x (y ∷ ys) = if less x y then y ∷ slide x ys else x ∷ y ∷ ys

  unfoldable pub insertion_loop : List A → List A → List A
  unfolding slide
  insertion_loop [] done = reverse done
  insertion_loop (x ∷ xs) done = insertion_loop xs (slide x done)

  unfoldable pub insertion_sort : List A → List A
  unfolding insertion_loop
  insertion_sort xs = insertion_loop xs []

-- sort.Slice on slices of more than twelve elements.
abbrev pub LongSort : Type 0
LongSort = (Record → Record → Bool) → List Record → List Record

-- sort.Slice
abbrev pub sort_slice : LongSort → (Record → Record → Bool) → List Record → List Record
sort_slice long_sort less xs =
    if leb (length xs) 12 then insertion_sort less xs else long_sort less xs

module _ {ℓ} {A : Type ℓ} where
  -- `results[offset:]`, where it applies
  unfoldable pub apply_offset : ℤ → List A → List A
  apply_offset (pos n) xs = if ltb 0 n then (if leb (length xs) n then [] else drop n xs) else xs
  apply_offset (negsuc n) xs = xs

  -- `results[:limit]`, where it applies
  unfoldable pub apply_limit : ℤ → List A → List A
  apply_limit (pos n) xs = if ltb 0 n then (if ltb n (length xs) then take n xs else xs) else xs
  apply_limit (negsuc n) xs = xs
