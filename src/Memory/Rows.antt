-- ===== src/Memory/Rows.antt =====
-- The loops of adapters/memory over the rows of one table.
use beacon_auth.Prelude.{
  ◌≡◌, refl, Bool, not, none, List, [], ◌∷◌, arith, length, select, first, without_first,
  change_first,
}
use beacon_auth.Core.Value.{Record}
use beacon_auth.Memory.{update_rows, delete_rows}

module _ (p : Record → Bool) where
  pub delete_rows_lem :
      (rs : List Record) → delete_rows p rs ≡ (length (select p rs), select (λ r. not (p r)) rs)
  unfolding delete_rows
  delete_rows_lem [] = refl
  delete_rows_lem (r ∷ rs) = ground (arith, delete_rows_lem rs)

  pub without_first-none : (rs : List Record) → first p rs ≡ none → without_first p rs ≡ rs
  without_first-none [] h = refl
  without_first-none (r ∷ rs) h = ground (arith, without_first-none rs)

  pub change_first-none :
      (f : Record → Record) (rs : List Record) → first p rs ≡ none → change_first p f rs ≡ rs
  change_first-none f [] h = refl
  change_first-none f (r ∷ rs) h = ground (arith, change_first-none f rs)

  pub update_rows_count :
      (d : Record) (rs : List Record) → (update_rows p d rs).0 ≡ length (select p rs)
  unfolding update_rows
  update_rows_count d [] = refl
  update_rows_count d (r ∷ rs) = ground (arith, update_rows_count d rs)

  pub update_rows_length :
      (d : Record) (rs : List Record) → length (update_rows p d rs).1 ≡ length rs
  unfolding update_rows
  update_rows_length d [] = refl
  update_rows_length d (r ∷ rs) = ground (arith, update_rows_length d rs)
