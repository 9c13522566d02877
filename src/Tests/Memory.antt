-- ===== src/Tests/Memory.antt =====
-- adapters/memory on a table of two users.
use beacon_auth.Prelude.{arith, ℕ, String, ◌≡◌, false, List, [], ◌∷◌, pos, Perm}
use beacon_auth.Prelude.Dict.{get}
use beacon_auth.Core.Value.{str, int, Record}
use beacon_auth.Core.Types.{ok}
use beacon_auth.Core.Query.{Query, query}
use beacon_auth.Memory.{Memory, rows, find_many, count, update_many}
use beacon_auth.Memory.Sort.{less_by}
use beacon_auth.Memory.Sorted.{IsOrdered}
use beacon_auth.Memory.Refines.{memory_refines}
use beacon_auth.Memory.Results.{find_many_sorted}
use beacon_auth.Tests.World.{long_sort, show}

abbrev person : String → ℕ → Record
person name age = ("name", str name) ∷ ("age", int (pos age)) ∷ []

abbrev people : Memory
people = record { tables = ("users", person "bob" 40 ∷ person "ann" 30 ∷ []) ∷ []; next_id = 1 }

abbrev by_name : Query
by_name = record (query "users" []) { order_by = record { field = "name"; desc = false } ∷ [] }

memory_refines_example : (memory_refines show long_sort).0.rows people "users" ≡ rows people "users"
memory_refines_example = (memory_refines show long_sort).1 people "users"

find_many_sorted_example :
    (rs : List Record) × ((find_many show long_sort by_name people).0 ≡ ok rs)
    × Perm rs (person "bob" 40 ∷ person "ann" 30 ∷ [])
    × IsOrdered (less_by show by_name.order_by) rs
unfolding get beacon_auth.Memory.Where.matches_where
find_many_sorted_example = find_many_sorted show long_sort by_name people (omega arith)
