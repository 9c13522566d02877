-- ===== src/Factory/Unmapped.antt =====
-- adapter/factory.go: queries, which pass the wrapper with the field names that they have.
use beacon_auth.Prelude.{
  String, ◌≡◌, refl, sym, ap, ◌∙◌, true, false, Option, none, some, List, [], ◌∷◌, All, All-append,
  subst, first, ◌==◌, eq_iff, eq_refl, arith, Option-cases, inl, inr,
}
use beacon_auth.Prelude.Dict.{Dict, get, put, get-put}
use beacon_auth.Core.Value.{Time, Value, Record}
use beacon_auth.Core.Types.{ok, Done}
use beacon_auth.Core.Query.{Operator, WhereClause, query, clause, Adapter}
use beacon_auth.Memory.{Memory, memory, rows}
use beacon_auth.Memory.Sort.{LongSort}
use beacon_auth.Memory.Where.{matches_where, matches_clause, holds}
use beacon_auth.Memory.Refines.{memory_contract}
use beacon_auth.Factory.{
  Formats, AdapterConfig, CustomAdapter, field_name, transform_value, transform_input,
  transform_loop, custom, create, find_one, found,
}
use beacon_auth.Factory.Restored.{swapped, created_state}

other_value :
    (m : Dict String) (k j g : String)
    → get (swapped m) k ≡ none
    → get m j ≡ some g
    → (g == k) ≡ false
unfolding get
other_value [] k j g n e = ground arith
other_value ((i, h) ∷ m) k j g n e = ground (arith, eq_iff h k, eq_iff g k, other_value m k j g)

-- A field that is renamed, and that no field is renamed to, is no new name.
field_name-other :
    (m : Dict String) (k f j : String)
    → get m k ≡ some f
    → get (swapped m) k ≡ none
    → (field_name m j == k) ≡ false
unfolding field_name
field_name-other m k f j e n = elim (Option-cases (get m j)) [
  | inl a ↦
      let moved : j ≡ k → get m j ≡ get m k = λ r. ap (get m) r in
      rw a (ground (arith, eq_iff j k, moved))
  | inr (g, b) ↦ rw b (other_value m k j g n b)
]

transform_loop-missing :
    (rename : String → String) (change : Value → Value) (k : String)
    → ((j : String) → (rename j == k) ≡ false)
    → (acc d : Record) → get acc k ≡ none
    → get (transform_loop rename change acc d) k ≡ none
unfolding transform_loop
transform_loop-missing rename change k h acc [] n = n
transform_loop-missing rename change k h acc ((j, v) ∷ d) n =
    transform_loop-missing rename change k h (put acc (rename j) (change v)) d
      (get-put acc (rename j) k (change v) ∙ rw (h j) n)

module _ (fmt : Formats) (cfg : AdapterConfig) where
  get-transform_input :
      (d : Record) (k f : String)
      → cfg.custom_transform_input ≡ none
      → get cfg.field_name_mapping k ≡ some f
      → get (swapped cfg.field_name_mapping) k ≡ none
      → get (transform_input fmt cfg d) k ≡ none
  unfolding transform_input get
  get-transform_input d k f c e n =
      let rename = field_name cfg.field_name_mapping in
      let change : Value → Value = λ v. transform_value fmt cfg v true in
      ap (λ x. get (custom x (transform_loop rename change [] d)) k) c
      ∙ transform_loop-missing rename change k
          (λ j. field_name-other cfg.field_name_mapping k f j e n) [] d refl

module _ (show_time : Time → String) where
  holds_missing :
      (r : Record) (c : WhereClause) → get r c.field ≡ none → holds show_time r c ≡ false
  unfolding holds
  holds_missing r c n =
      ap
        (λ (o : Option Value). elim o [
          | none ↦ false
          | some v ↦ matches_clause show_time v c.operator c.value
        ])
        n

  first-missing :
      (k : String) (op : Operator) (v : Value) (rs : List Record)
      → All (λ (r : Record). get r k ≡ none) rs
      → first (λ r. matches_where show_time r (clause k op v ∷ [])) rs ≡ none
  unfolding matches_where
  first-missing k op v [] h = refl
  first-missing k op v (r ∷ rs) h =
      rw (holds_missing r (clause k op v) h.0) (first-missing k op v rs h.1)

-- If the mapping renames a field, and no field is renamed to it, and the rows of a table of the
-- in-memory adapter are without that field, then FindOne of the wrapper, asked for a clause on the
-- field after Create of any record in the table, finds nothing, whatever value Create was given.
pub find_one-create_renamed :
    (fmt : Formats) (cfg : AdapterConfig) (show_time : Time → String) (long_sort : LongSort)
    (transaction : (Adapter Memory → Memory → Done × Memory) → Memory → Done × Memory)
    (model k f : String) (op : Operator) (v : Value) (d : Record) (m : Memory)
    → cfg.custom_transform_input ≡ none
    → get cfg.field_name_mapping k ≡ some f
    → get (swapped cfg.field_name_mapping) k ≡ none
    → All (λ (r : Record). get r k ≡ none) (rows m model)
    → (let db : CustomAdapter Memory = record {
      base = memory show_time long_sort;
      transaction = transaction;
    } in
        (find_one fmt cfg db (query model (clause k op v ∷ [])) (create fmt cfg db model d m).1).0)
      ≡ ok none
unfolding create find_one memory_contract
find_one-create_renamed fmt cfg show_time long_sort transaction model k f op v d m c e n h =
    let db : CustomAdapter Memory = record {
      base = memory show_time long_sort;
      transaction = transaction;
    } in
    let laws = memory_contract show_time long_sort in
    let q = query model (clause k op v ∷ []) in
    let stored = transform_input fmt cfg d in
    let step = (memory show_time long_sort).create model stored m in
    let lacking : All (λ (r : Record). get r k ≡ none) (rows step.1 model) =
      subst (All (λ (r : Record). get r k ≡ none))
        (sym (laws.create_rows model stored m model ∙ rw (eq_refl model) refl))
        (All-append (λ (r : Record). get r k ≡ none) (rows m model) (stored ∷ []) h
          (get-transform_input fmt cfg d k f c e n, tt)) in
    ap (λ s. (found fmt cfg db ((memory show_time long_sort).find_one q s)).0)
      (created_state fmt cfg db step)
    ∙ ap (λ x. (found fmt cfg db x).0)
        (laws.find_one_run q step.1
          ∙ ap (λ o. (ok o, step.1)) (first-missing show_time k op v (rows step.1 model) lacking))
