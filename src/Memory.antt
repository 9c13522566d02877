-- ===== src/Memory.antt =====
-- adapters/memory/memory.go: the in-memory adapter. Records are values here, so `copyMap` is the
-- identity; the lock makes each method one step. `nextID` is set and never read.
pub mod Compare
pub mod Where
pub mod Sort
mod Rows
pub mod Refines
pub mod Sorted
mod Order
pub mod Results
use beacon_auth.Prelude.{
  ℕ, zero, suc, ◌+◌, String, Bool, true, false, not, Option, none, some, List, [], ◌∷◌, ◌++◌,
  length, select, first, without_first, change_first, if◌then◌else◌,
}
use beacon_auth.Prelude.Dict.{Dict, get, put, assign}
use beacon_auth.Core.Value.{Time, Record}
use beacon_auth.Core.Types.{Result, ok, err}
use beacon_auth.Core.Query.{WhereClause, OrderBy, Query, Op, Adapter}
use Where.{matches_where}
use Sort.{less_by, LongSort, sort_slice, apply_offset, apply_limit}

pub record Memory : Type 0 where
  pub tables : Dict (List Record)
  pub next_id : ℕ

-- `New`
abbrev pub new : Memory
new = record { tables = []; next_id = 1 }

-- `m.data[model]` where a missing key is an empty slice.
abbrev pub rows : Memory → String → List Record
rows m model = elim (get m.tables model) [ none ↦ [] | some rs ↦ rs ]

abbrev set_rows : Memory → String → List Record → Memory
set_rows m model rs = record m { tables = put m.tables model rs }

-- The loop of UpdateMany: the number of changed records, and all records.
unfoldable pub update_rows : (Record → Bool) → Record → List Record → ℕ × List Record
update_rows p d [] = (0, [])
update_rows p d (r ∷ rs) =
    let (n, rest) = update_rows p d rs in if p r then (suc n, assign r d ∷ rest) else (n, r ∷ rest)

-- The loop of DeleteMany: the number of deleted records, and the records that stay.
unfoldable pub delete_rows : (Record → Bool) → List Record → ℕ × List Record
delete_rows p [] = (0, [])
delete_rows p (r ∷ rs) =
    let (n, rest) = delete_rows p rs in if p r then (suc n, rest) else (n, r ∷ rest)

unfoldable pub create : String → Record → Op Memory Record
create model d m = (ok d, set_rows m model (rows m model ++ d ∷ []))

module _ (show_time : Time → String) where
  abbrev pub selects : Query → Record → Bool
  selects q r = matches_where show_time r q.clauses

  unfoldable pub find_one : Query → Op Memory (Option Record)
  find_one q m = elim (get m.tables q.model) [
    | none ↦ (ok none, m)
    | some rs ↦ (ok (first (selects q) rs), m)
  ]

  unfoldable pub update : Query → Record → Op Memory (Option Record)
  update q d m = elim (get m.tables q.model) [
    | none ↦ (ok none, m)
    | some rs ↦ elim (first (selects q) rs) [
      | none ↦ (ok none, m)
      | some r ↦ (
        ok (some (assign r d)),
        set_rows m q.model (change_first (selects q) (λ x. assign x d) rs),
      )
    ]
  ]

  unfoldable pub update_many : Query → Record → Op Memory ℕ
  update_many q d m = elim (get m.tables q.model) [
    | none ↦ (ok 0, m)
    | some rs ↦
        let (n, changed) = update_rows (selects q) d rs in (ok n, set_rows m q.model changed)
  ]

  unfoldable pub delete : Query → Op Memory Unit
  delete q m = elim (get m.tables q.model) [
    | none ↦ (ok tt, m)
    | some rs ↦ elim (first (selects q) rs) [
      | none ↦ (ok tt, m)
      | some r ↦ (ok tt, set_rows m q.model (without_first (selects q) rs))
    ]
  ]

  unfoldable pub delete_many : Query → Op Memory ℕ
  delete_many q m = elim (get m.tables q.model) [
    | none ↦ (ok 0, m)
    | some rs ↦ let (n, kept) = delete_rows (selects q) rs in (ok n, set_rows m q.model kept)
  ]

  unfoldable pub count : Query → Op Memory ℕ
  count q m = elim (get m.tables q.model) [
    | none ↦ (ok 0, m)
    | some rs ↦ (ok (length (select (selects q) rs)), m)
  ]

module _ (show_time : Time → String) (long_sort : LongSort) where
  -- The `if len(query.OrderBy) > 0` of FindMany.
  abbrev pub sorted : List OrderBy → List Record → List Record
  sorted [] rs = rs
  sorted (o ∷ os) rs = sort_slice long_sort (less_by show_time (o ∷ os)) rs

  unfoldable pub find_many : Query → Op Memory (List Record)
  find_many q m = elim (get m.tables q.model) [
    | none ↦ (ok [], m)
    | some rs ↦ (
      ok (
          apply_limit q.limit
            (apply_offset q.offset (sorted q.order_by (select (selects show_time q) rs)))),
      m,
    )
  ]

unfoldable pub close : Op Memory Unit
close m = (ok tt, record m { tables = [] })

-- `fn(m)`: no rollback
unfoldable pub transaction {ℓ} : {A : Type ℓ} → (Memory → A × Memory) → Memory → A × Memory
transaction fn m = fn m

-- The adapter as the rest of the program sees it.
abbrev pub memory : (Time → String) → LongSort → Adapter Memory
memory show_time long_sort = record {
  create = create;
  find_one = find_one show_time;
  find_many = find_many show_time long_sort;
  update = update show_time;
  update_many = update_many show_time;
  delete = delete show_time;
  delete_many = delete_many show_time;
  count = count show_time;
  close = close;
}
