-- ===== src/Memory/Results.antt =====
-- What FindMany and Count return, and how many records the updates and deletes touch.
use mathlib.Core.List.Perm
use beacon_auth.Prelude.{
  ℕ, zero, suc, ap, String, ◌≡◌, ◌≢◌, ◌==◌, eq_iff, refl, ◌≤◌, List, [], ◌∷◌, Perm, arith, ℤ, pos,
  length, select, take, drop, if◌then◌else◌,
}
use beacon_auth.Prelude.Dict.{get-put}
use beacon_auth.Core.Value.{Time, Record}
use beacon_auth.Core.Types.{ok}
use beacon_auth.Core.Query.{Query, OrderBy}
use beacon_auth.Memory.{Memory, rows, selects, sorted, find_many, count, update_many, update_rows}
use beacon_auth.Memory.Sort.{less_by, insertion_sort, LongSort, apply_offset, apply_limit}
use beacon_auth.Memory.Sorted.{IsOrdered, insertion_sort-perm, insertion_sort-IsOrdered}
use beacon_auth.Memory.Order.{less_by-asym}
use beacon_auth.Memory.Rows.{update_rows_count, update_rows_length}

-- A query with no page.
abbrev pub unpaged : Query → Query
unpaged q = record q { limit = pos 0; offset = pos 0 }

abbrev pub unordered : Query → Query
unordered q = record q { order_by = [] }

module _ {ℓ} {A : Type ℓ} where
  page_nil : (l o : ℤ) → apply_limit {A = A} l (apply_offset o []) ≡ []
  unfolding apply_limit apply_offset
  page_nil l o = ground arith

  drop_all : (n : ℕ) (xs : List A) → length xs ≤ n → drop n xs ≡ []
  drop_all n [] h = refl
  drop_all zero (x ∷ xs) h = absurd (omega arith)
  drop_all (suc n) (x ∷ xs) h = drop_all n xs (omega arith)

  drop_zero : (xs : List A) → drop 0 xs ≡ xs
  drop_zero [] = refl
  drop_zero (x ∷ xs) = refl

  take_all : (n : ℕ) (xs : List A) → length xs ≤ n → take n xs ≡ xs
  take_all n [] h = refl
  take_all zero (x ∷ xs) h = absurd (omega arith)
  take_all (suc n) (x ∷ xs) h = ap (◌∷◌ x) (take_all n xs (omega arith))

  offset-drop : (n : ℕ) (xs : List A) → apply_offset (pos n) xs ≡ drop n xs
  unfolding apply_offset
  offset-drop n xs = ground (arith, drop_all n xs, drop_zero xs)

  limit-take : (n : ℕ) (xs : List A) → apply_limit (pos (suc n)) xs ≡ take (suc n) xs
  unfolding apply_limit
  limit-take n xs = ground (arith, take_all (suc n) xs)

  limit_zero : (xs : List A) → apply_limit (pos 0) xs ≡ xs
  unfolding apply_limit
  limit_zero xs = refl

module _ (show_time : Time → String) where
  abbrev pub found : Query → Memory → List Record
  found q m = select (selects show_time q) (rows m q.model)

  rows-update_many :
      (q : Query) (d : Record) (m : Memory) (j : String)
      → rows (update_many show_time q d m).1 j
        ≡ (if q.model == j then (update_rows (selects show_time q) d (rows m j)).1 else rows m j)
  unfolding update_many update_rows
  rows-update_many q d m j = ground (
    arith,
    get-put m.tables q.model j (update_rows (selects show_time q) d (rows m q.model)).1,
    eq_iff q.model j,
  )

  -- UpdateMany reports how many records match before the call, and keeps the number of records of
  -- its table and the rows of every other table.
  pub update_many_lem :
      (q : Query) (d : Record) (m : Memory)
      → ((update_many show_time q d m).0 ≡ ok (length (found q m)))
        × (length (rows (update_many show_time q d m).1 q.model) ≡ length (rows m q.model))
        × ((j : String) → q.model ≢ j → rows (update_many show_time q d m).1 j ≡ rows m j)
  unfolding update_many
  update_many_lem q d m = (
    ground (arith, update_rows_count (selects show_time q) d (rows m q.model)),
    ground (
      arith,
      update_rows_length (selects show_time q) d (rows m q.model),
      rows-update_many q d m q.model,
      eq_iff q.model q.model,
    ),
    λ j h. ground (arith, rows-update_many q d m j, eq_iff q.model j),
  )

module _ (show_time : Time → String) (long_sort : LongSort) where
  sorted_nil : (os : List OrderBy) → sorted show_time long_sort os [] ≡ []
  unfolding insertion_sort
  sorted_nil [] = refl
  sorted_nil (o ∷ os) = refl

  less_by_nil : (rs : List Record) → IsOrdered (less_by show_time []) rs
  unfolding less_by
  less_by_nil [] = tt
  less_by_nil (r ∷ []) = tt
  less_by_nil (r ∷ s ∷ rs) = (refl, less_by_nil (s ∷ rs))

  -- Up to twelve elements, sort.Slice is the insertion sort.
  sorted-insertion :
      (o : OrderBy) (os : List OrderBy) (rs : List Record)
      → length rs ≤ 12
      → sorted show_time long_sort (o ∷ os) rs ≡ insertion_sort (less_by show_time (o ∷ os)) rs
  sorted-insertion o os rs h = ground arith

  sorted-perm :
      (os : List OrderBy) (rs : List Record)
      → length rs ≤ 12
      → Perm (sorted show_time long_sort os rs) rs
  sorted-perm [] rs h = Perm.refl rs
  sorted-perm (o ∷ os) rs h =
      rw (sorted-insertion o os rs h) (insertion_sort-perm (less_by show_time (o ∷ os)) rs)

  sorted-IsOrdered :
      (os : List OrderBy) (rs : List Record)
      → length rs ≤ 12
      → IsOrdered (less_by show_time os) (sorted show_time long_sort os rs)
  sorted-IsOrdered [] rs h = less_by_nil rs
  sorted-IsOrdered (o ∷ os) rs h =
      rw (sorted-insertion o os rs h)
        (insertion_sort-IsOrdered (less_by show_time (o ∷ os)) (less_by-asym show_time (o ∷ os)) rs)

  find_many_run :
      (q : Query) (m : Memory)
      → (find_many show_time long_sort q m).0
        ≡ ok (
            apply_limit q.limit
              (apply_offset q.offset (sorted show_time long_sort q.order_by (found show_time q m))))
  unfolding find_many
  find_many_run q m = ground (arith, sorted_nil q.order_by, page_nil {A = Record} q.limit q.offset)

  unpaged_run :
      (q : Query) (m : Memory)
      → (find_many show_time long_sort (unpaged q) m).0
        ≡ ok (sorted show_time long_sort q.order_by (found show_time q m))
  unfolding apply_limit apply_offset
  unpaged_run q m = find_many_run (unpaged q) m

  -- Count is the number of records that FindMany returns for the same clauses with no page and no
  -- order.
  pub count-find_many :
      (q : Query) (m : Memory) (rs : List Record)
      → (find_many show_time long_sort (unpaged (unordered q)) m).0 ≡ ok rs
      → (count show_time q m).0 ≡ ok (length rs)
  unfolding count
  count-find_many q m rs h = ground (arith, unpaged_run (unordered q) m)

  -- With no page, and where at most twelve records of the table match, FindMany returns each matching
  -- record as often as it stands there, and nothing else; and where the query has an ordering, no
  -- returned record is less than the one before it by that ordering.
  pub find_many_sorted :
      (q : Query) (m : Memory)
      → length (found show_time q m) ≤ 12
      → (rs : List Record) × ((find_many show_time long_sort (unpaged q) m).0 ≡ ok rs)
        × Perm rs (found show_time q m)
        × IsOrdered (less_by show_time q.order_by) rs
  find_many_sorted q m few = (
    sorted show_time long_sort q.order_by (found show_time q m),
    unpaged_run q m,
    sorted-perm q.order_by (found show_time q m) few,
    sorted-IsOrdered q.order_by (found show_time q m) few,
  )

  -- FindMany with a page is the part of the unpaged result that starts at the offset, and is as
  -- long as the limit where that is positive and so much is left.
  pub find_many_page :
      (q : Query) (m : Memory) (rs : List Record) (n k : ℕ)
      → (find_many show_time long_sort (unpaged q) m).0 ≡ ok rs
      → ((find_many show_time long_sort (record q { offset = pos n; limit = pos 0 }) m).0
          ≡ ok (drop n rs))
        × ((find_many show_time long_sort (record q { offset = pos n; limit = pos (suc k) }) m).0
            ≡ ok (take (suc k) (drop n rs)))
  find_many_page q m rs n k h = (
    ground (
      arith,
      unpaged_run q m,
      find_many_run (record q { offset = pos n; limit = pos 0 }) m,
      offset-drop n rs,
      limit_zero (drop n rs),
    ),
    ground (
      arith,
      unpaged_run q m,
      find_many_run (record q { offset = pos n; limit = pos (suc k) }) m,
      offset-drop n rs,
      limit-take k (drop n rs),
    ),
  )
