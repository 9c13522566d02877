-- ===== src/Factory/Renamed.antt =====
-- adapter/factory.go: a row whose fields are renamed and whose values are changed, pair by pair.
use mathlib.Core.List.{append_assoc, append-nil}
use beacon_auth.Prelude.{
  String, ◌≡◌, refl, sym, ap, ◌∙◌, false, none, [], ◌∷◌, ◌++◌, All, ◌==◌, eq_iff, arith, subst,
}
use beacon_auth.Prelude.Dict.{Dict, get, put}
use beacon_auth.Core.Value.{Value, Record}
use beacon_auth.Factory.{transform_loop}

module _ {V : Type 0} where
  -- Every key of the list occurs once.
  abbrev pub Distinct : Dict V → Type 0
  Distinct [] = Unit
  Distinct ((k, v) ∷ d) = (get d k ≡ none) × Distinct d

  other_key :
      (xs d : Dict V) (j k : String) (v : V) → get (xs ++ (k, v) ∷ d) j ≡ none → (k == j) ≡ false
  unfolding get
  other_key [] d j k v e = ground arith
  other_key ((i, u) ∷ xs) d j k v e = ground (arith, other_key xs d j k v)

  pub get-before :
      (acc d : Dict V) (k : String) (v : V) → Distinct (acc ++ (k, v) ∷ d) → get acc k ≡ none
  unfolding get
  get-before [] d k v h = refl
  get-before ((j, w) ∷ acc) d k v h =
      ground (arith, get-before acc d k v h.1, other_key acc d j k v h.0, eq_iff j k, eq_iff k j)

  pub put_fresh :
      (acc : Dict V) (k : String) (v : V) → get acc k ≡ none → put acc k v ≡ acc ++ (k, v) ∷ []
  unfolding get put
  put_fresh [] k v h = refl
  put_fresh ((j, w) ∷ acc) k v h = ground (arith, put_fresh acc k v)

-- The pairs of a row, each with its new name and value.
abbrev pub pairs : (String → String) → (Value → Value) → Record → Record
pairs rename change [] = []
pairs rename change ((k, v) ∷ d) = (rename k, change v) ∷ pairs rename change d

module _ (rename : String → String) (change : Value → Value) where
  transform_loop-append :
      (acc d : Record)
      → Distinct (acc ++ pairs rename change d)
      → transform_loop rename change acc d ≡ acc ++ pairs rename change d
  unfolding transform_loop
  transform_loop-append acc [] h = sym (append-nil acc)
  transform_loop-append acc ((k, v) ∷ d) h =
      let e = append_assoc acc ((rename k, change v) ∷ []) (pairs rename change d) in
      ap (λ m. transform_loop rename change m d)
        (put_fresh acc (rename k) (change v)
          (get-before acc (pairs rename change d) (rename k) (change v) h))
      ∙ transform_loop-append (acc ++ (rename k, change v) ∷ []) d (subst Distinct (sym e) h)
      ∙ e

  pub transform_loop-pairs :
      (d : Record)
      → Distinct (pairs rename change d)
      → transform_loop rename change [] d ≡ pairs rename change d
  transform_loop-pairs d h = transform_loop-append [] d h

  -- A name that takes the field back keeps fields apart.
  module _ (back : String → String) where
    get-pairs :
        (d : Record) (k : String)
        → back (rename k) ≡ k
        → All (λ (p : String × Value). back (rename p.0) ≡ p.0) d
        → get d k ≡ none
        → get (pairs rename change d) (rename k) ≡ none
    unfolding get
    get-pairs [] k e h n = refl
    get-pairs ((j, v) ∷ d) k e h n =
        let same : rename j ≡ rename k → j ≡ k = λ r. sym h.0 ∙ ap back r ∙ e in
        ground (arith, eq_iff j k, eq_iff (rename j) (rename k), get-pairs d k e h.1, same)

    pub pairs-Distinct :
        (d : Record)
        → All (λ (p : String × Value). back (rename p.0) ≡ p.0) d
        → Distinct d
        → Distinct (pairs rename change d)
    pairs-Distinct [] h n = tt
    pairs-Distinct ((k, v) ∷ d) h n = (get-pairs d k h.0 h.1 n.0, pairs-Distinct d h.1 n.1)
