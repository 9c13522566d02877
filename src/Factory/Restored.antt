-- ===== src/Factory/Restored.antt =====
-- adapter/factory.go: a row that is written through the wrapper and read back.
use mathlib.Core.List.{append_assoc, append-nil}
use beacon_auth.Prelude.{
  String, ◌≡◌, ◌⊎◌, refl, sym, ap, ◌∙◌, Bool, true, false, not, ◌||◌, none, some, [], ◌∷◌, ◌++◌,
  All, first, first-append, eq_iff, eq_refl, arith, subst, Option-cases, inl, inr,
}
use beacon_auth.Prelude.Dict.{Dict, get, has}
use beacon_auth.Core.Value.{Value, nil, str, int, bool, time, time_ptr, list, object, Record}
use beacon_auth.Core.Types.{Result, ok, err}
use beacon_auth.Core.Query.{Query}
use beacon_auth.Core.Contract.{Contract}
use beacon_auth.Factory.{
  Formats, AdapterConfig, CustomAdapter, field_name, mapped_name, fill_reverse, reverse_mapping,
  transform_value, transform_input, transform_output, transform_loop, custom, create, find_one,
  created, found,
}
use beacon_auth.Factory.Renamed.{
  Distinct, put_fresh, get-before, pairs, transform_loop-pairs, pairs-Distinct,
}

-- The mapping from its values to its keys.
abbrev pub swapped : Dict String → Dict String
swapped [] = []
swapped ((k, v) ∷ m) = (v, k) ∷ swapped m

fill_reverse-append :
    (acc m : Dict String) → Distinct (acc ++ swapped m) → fill_reverse acc m ≡ acc ++ swapped m
unfolding fill_reverse
fill_reverse-append acc [] h = sym (append-nil acc)
fill_reverse-append acc ((k, v) ∷ m) h =
    let e = append_assoc acc ((v, k) ∷ []) (swapped m) in
    ap (λ a. fill_reverse a m) (put_fresh acc v k (get-before acc (swapped m) v k h))
    ∙ fill_reverse-append (acc ++ (v, k) ∷ []) m (subst Distinct (sym e) h)
    ∙ e

reverse_mapping-swapped : (m : Dict String) → Distinct (swapped m) → reverse_mapping m ≡ swapped m
unfolding reverse_mapping
reverse_mapping-swapped m h = fill_reverse-append [] m h

get-swapped :
    (m : Dict String) (k f : String)
    → Distinct (swapped m)
    → get m k ≡ some f
    → get (swapped m) f ≡ some k
unfolding get
get-swapped [] k f h e = ground arith
get-swapped ((j, g) ∷ m) k f h e =
    ground (arith, eq_iff j k, eq_iff g f, get-swapped m k f h.1, h.0)

-- A field of a row is renamed, or it is no name that another field is renamed to.
abbrev pub fits : Dict String → String → Bool
fits m k = has m k || not (has (swapped m) k)

field_name-back :
    (m : Dict String) (k : String)
    → Distinct (swapped m)
    → fits m k ≡ true
    → field_name (reverse_mapping m) (field_name m k) ≡ k
unfolding field_name
field_name-back m k h e =
    ap (λ r. mapped_name (get r (mapped_name (get m k) k)) (mapped_name (get m k) k))
      (reverse_mapping-swapped m h)
    ∙ elim (Option-cases (get m k)) [
      | inl n ↦ ground arith
      | inr (f, g) ↦ rw (g, get-swapped m k f h g) refl
    ]

module _ (fmt : Formats) (cfg : AdapterConfig) where
  -- A value that comes back as it was.
  abbrev pub Survives : Value → Type 0
  Survives (time t) = cfg.supports_dates ≡ true
  Survives (bool b) = cfg.supports_booleans ≡ true
  Survives (object fs) =
      (cfg.supports_json ≡ true)
      ⊎ ((s : String) × (fmt.marshal fs ≡ ok s) × (fmt.unmarshal s ≡ some fs))
  Survives (str s) = (cfg.supports_json ≡ true) ⊎ (fmt.unmarshal s ≡ none)
  Survives v = Unit

  transform_value-back :
      (v : Value) → Survives v → transform_value fmt cfg (transform_value fmt cfg v true) false ≡ v
  unfolding transform_value
  transform_value-back nil h = refl
  transform_value-back (str s) (inl j) = rw j refl
  transform_value-back (str s) (inr n) = ground arith
  transform_value-back (int n) h = refl
  transform_value-back (bool b) h = rw h refl
  transform_value-back (time t) h = rw h refl
  transform_value-back (time_ptr t) h = refl
  transform_value-back (list xs) h = refl
  transform_value-back (object fs) (inl j) = ground arith
  transform_value-back (object fs) (inr (s, m, u)) = ground arith

  -- A pair whose field and value come back.
  abbrev pub Kept : String × Value → Type 0
  Kept p = (fits cfg.field_name_mapping p.0 ≡ true) × Survives p.1

  -- No custom transforms, and no two fields that are renamed to one.
  abbrev pub Plain : Type 0
  Plain =
      (cfg.custom_transform_input ≡ none)
      × (cfg.custom_transform_output ≡ none)
      × Distinct (swapped cfg.field_name_mapping)

  pairs-back :
      (d : Record)
      → Distinct (swapped cfg.field_name_mapping)
      → All Kept d
      → pairs
          (field_name (reverse_mapping cfg.field_name_mapping))
          (λ v. transform_value fmt cfg v false)
          (pairs (field_name cfg.field_name_mapping) (λ v. transform_value fmt cfg v true) d)
        ≡ d
  pairs-back [] u h = refl
  pairs-back ((k, v) ∷ d) u h =
      rw
        (
          field_name-back cfg.field_name_mapping k u h.0.0,
          transform_value-back v h.0.1,
          pairs-back d u h.1,
        )
        refl

  names-back :
      (d : Record)
      → Distinct (swapped cfg.field_name_mapping)
      → All Kept d
      → All
          (λ (p : String × Value).
            field_name
              (reverse_mapping cfg.field_name_mapping)
              (field_name cfg.field_name_mapping p.0)
            ≡ p.0)
          d
  names-back [] u h = tt
  names-back (p ∷ d) u h = (field_name-back cfg.field_name_mapping p.0 u h.0.0, names-back d u h.1)

  transform_input-pairs :
      (d : Record)
      → Plain
      → Distinct d
      → All Kept d
      → transform_input fmt cfg d
        ≡ pairs (field_name cfg.field_name_mapping) (λ v. transform_value fmt cfg v true) d
  unfolding transform_input
  transform_input-pairs d n u h =
      let rename = field_name cfg.field_name_mapping in
      let change : Value → Value = λ v. transform_value fmt cfg v true in
      ap (λ c. custom c (transform_loop rename change [] d)) n.0
      ∙ transform_loop-pairs rename change d (
          pairs-Distinct rename change (field_name (reverse_mapping cfg.field_name_mapping)) d
            (names-back d n.2 h) u)

  pub transform_output-transform_input :
      (d : Record)
      → Plain
      → Distinct d
      → All Kept d
      → transform_output fmt cfg (transform_input fmt cfg d) ≡ d
  unfolding transform_output
  transform_output-transform_input d n u h =
      let rename = field_name (reverse_mapping cfg.field_name_mapping) in
      let change : Value → Value = λ v. transform_value fmt cfg v false in
      ap (λ c. custom c (transform_loop rename change [] (transform_input fmt cfg d))) n.1
      ∙ ap (transform_loop rename change []) (transform_input-pairs d n u h)
      ∙ transform_loop-pairs rename change
          (pairs (field_name cfg.field_name_mapping) (λ v. transform_value fmt cfg v true) d)
          (subst Distinct (sym (pairs-back d n.2 h)) u)
      ∙ pairs-back d n.2 h

  module _ {S : Type 0} (db : CustomAdapter S) where
    pub created_state : (x : Result Record × S) → (created fmt cfg db x).1 ≡ x.1
    created_state (ok r, s) = refl
    created_state (err e, s) = refl

    created_ok :
        (x : Result Record × S) (r : Record)
        → x.0 ≡ ok r
        → (created fmt cfg db x).0 ≡ ok (transform_output fmt cfg r)
    created_ok x r e = ap (λ y. (created fmt cfg db (y, x.1)).0) e

    -- The row that was written is the first that matches.
    first-create :
        (laws : Contract db.base) (q : Query) (r : Record) (s : S)
        → first (λ x. laws.matches x q.clauses) (laws.rows s q.model) ≡ none
        → laws.matches r q.clauses ≡ true
        → first (λ x. laws.matches x q.clauses) (laws.rows (db.base.create q.model r s).1 q.model)
          ≡ some r
    first-create laws q r s n m =
        rw (laws.create_rows q.model r s q.model, eq_refl q.model)
          (first-append (λ x. laws.matches x q.clauses) (laws.rows s q.model) (r ∷ []) n
            ∙ rw m refl)

  -- If the database meets its contract, the wrapper has no custom transforms and renames no two
  -- fields to one, and in a record with distinct fields each field is renamed or is no new name and
  -- each value survives (dates, Booleans and maps where they are supported, or a map by way of its JSON
  -- text and a text that is no JSON map where JSON is not), then Create returns the record that it
  -- was given, and FindOne with a query that the stored row meets and no row before then finds it.
  pub find_one-create :
      {S : Type 0} (db : CustomAdapter S) (laws : Contract db.base) (q : Query) (d : Record) (s : S)
      → Plain
      → Distinct d
      → All Kept d
      → first (λ r. laws.matches r q.clauses) (laws.rows s q.model) ≡ none
      → laws.matches (transform_input fmt cfg d) q.clauses ≡ true
      → ((create fmt cfg db q.model d s).0 ≡ ok d)
        × ((find_one fmt cfg db q (create fmt cfg db q.model d s).1).0 ≡ ok (some d))
  unfolding create find_one
  find_one-create db laws q d s n u h before_none m =
      let stored = transform_input fmt cfg d in
      let step = db.base.create q.model stored s in
      let back = transform_output-transform_input d n u h in
      (
        created_ok db step stored (laws.create_result q.model stored s) ∙ ap ok back,
        ap (λ s'. (found fmt cfg db (db.base.find_one q s')).0) (created_state db step)
            ∙ ap (λ x. (found fmt cfg db x).0)
                (laws.find_one_run q step.1
                  ∙ ap (λ o. (ok o, step.1)) (first-create db laws q stored s before_none m))
            ∙ ap (λ r. ok (some r)) back,
      )
