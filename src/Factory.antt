-- ===== src/Factory.antt =====
-- adapter/factory.go: the wrapper that renames the fields of a row for a database and turns values
-- that the database cannot hold into ones that it can. The JSON codec and the RFC 3339 form of a time
-- are parameters; JSON that encodes no map is `none`, and a null is the nil map.
pub mod Renamed
pub mod Restored
pub mod Unmapped
use beacon_auth.Prelude.{
  String, Bool, true, false, not, ◌&&◌, Option, none, some, List, [], ◌∷◌, map, ℕ, pos,
  if◌then◌else◌,
}
use beacon_auth.Prelude.Dict.{Dict, get, put}
use beacon_auth.Core.Value.{Time, Value, str, int, bool, time, Fields, object, Record}
use beacon_auth.Core.Types.{Result, ok, err, Done}
use beacon_auth.Core.Query.{Query, Op, Adapter}

-- encoding/json on maps, and time.RFC3339.
pub record Formats : Type 0 where
  pub marshal : Fields → Result String
  pub unmarshal : String → Option Fields
  pub rfc3339 : Time → String

-- AdapterConfig; a transform that is nil is `none`.
pub record AdapterConfig : Type 0 where
  pub id : String
  pub supports_json : Bool
  pub supports_dates : Bool
  pub supports_booleans : Bool
  pub supports_transaction : Bool
  pub field_name_mapping : Dict String
  pub custom_transform_input : Option (Record → Record)
  pub custom_transform_output : Option (Record → Record)

-- CustomAdapter; the function of a transaction is given the adapter that it works on.
pub record CustomAdapter (S : Type 0) : Type 0 where
  pub base : Adapter S
  pub transaction : (Adapter S → S → Done × S) → S → Done × S

-- `if mapped, ok := m[key]; ok`
abbrev pub mapped_name : Option String → String → String
mapped_name none key = key
mapped_name (some mapped) key = mapped

unfoldable pub field_name : Dict String → String → String
field_name m key = mapped_name (get m key) key

-- The loop that fills `reverseMapping`.
unfoldable pub fill_reverse : Dict String → Dict String → Dict String
fill_reverse acc [] = acc
fill_reverse acc ((k, v) ∷ m) = fill_reverse (put acc v k) m

unfoldable pub reverse_mapping : Dict String → Dict String
unfolding fill_reverse
reverse_mapping m = fill_reverse [] m

-- The loop over the pairs of a row: rename the field and transform the value.
unfoldable pub transform_loop : (String → String) → (Value → Value) → Record → Record → Record
transform_loop rename change acc [] = acc
transform_loop rename change acc ((k, v) ∷ d) =
    transform_loop rename change (put acc (rename k) (change v)) d

abbrev pub custom : Option (Record → Record) → Record → Record
custom none d = d
custom (some f) d = f d

module _ (fmt : Formats) (cfg : AdapterConfig) where
  -- `json.Marshal` with its error ignored
  abbrev pub marshalled : Fields → Result String → Value
  marshalled fs (ok text) = str text
  marshalled fs (err e) = object fs

  -- `json.Unmarshal`, if it reads a map
  abbrev pub parsed : String → Option Fields → Value
  parsed s none = str s
  parsed s (some fs) = object fs

  unfoldable pub transform_value : Value → Bool → Value
  transform_value (time t) input = if cfg.supports_dates then time t else str (fmt.rfc3339 t)
  transform_value (bool b) input =
      if cfg.supports_booleans then bool b else int (if b then pos 1 else pos 0)
  transform_value (object fs) input =
      if not cfg.supports_json && input then marshalled fs (fmt.marshal fs) else object fs
  transform_value (str s) input =
      if not input && not cfg.supports_json then parsed s (fmt.unmarshal s) else str s
  transform_value v input = v

  unfoldable pub transform_input : Record → Record
  transform_input d =
      custom cfg.custom_transform_input
        (transform_loop (field_name cfg.field_name_mapping) (λ v. transform_value v true) [] d)

  unfoldable pub transform_output : Record → Record
  transform_output d = custom cfg.custom_transform_output (
      transform_loop (field_name (reverse_mapping cfg.field_name_mapping))
        (λ v. transform_value v false) [] d)

  module _ {S : Type 0} (db : CustomAdapter S) where
    abbrev pub created : Result Record × S → Result Record × S
    created (err e, s) = (err e, s)
    created (ok r, s) = (ok (transform_output r), s)

    -- A missing row is passed on.
    abbrev pub found : Result (Option Record) × S → Result (Option Record) × S
    found (err e, s) = (err e, s)
    found (ok none, s) = (ok none, s)
    found (ok (some r), s) = (ok (some (transform_output r)), s)

    abbrev pub all_found : Result (List Record) × S → Result (List Record) × S
    all_found (err e, s) = (err e, s)
    all_found (ok rs, s) = (ok (map transform_output rs), s)

    unfoldable pub create : String → Record → Op S Record
    create model d s = created (db.base.create model (transform_input d) s)

    unfoldable pub find_one : Query → Op S (Option Record)
    find_one query s = found (db.base.find_one query s)

    unfoldable pub find_many : Query → Op S (List Record)
    find_many query s = all_found (db.base.find_many query s)

    unfoldable pub update : Query → Record → Op S (Option Record)
    update query d s = found (db.base.update query (transform_input d) s)

    unfoldable pub update_many : Query → Record → Op S ℕ
    update_many query d = db.base.update_many query (transform_input d)

    unfoldable pub delete : Query → Op S Unit
    delete query = db.base.delete query

    unfoldable pub delete_many : Query → Op S ℕ
    delete_many query = db.base.delete_many query

    unfoldable pub count : Query → Op S ℕ
    count query = db.base.count query

    unfoldable pub close : Op S Unit
    close = db.base.close

    -- The wrapper as a core.Adapter.
    unfoldable pub factory : Adapter S
    unfolding create find_one find_many update update_many delete delete_many count close
    factory = record {
      create = create;
      find_one = find_one;
      find_many = find_many;
      update = update;
      update_many = update_many;
      delete = delete;
      delete_many = delete_many;
      count = count;
      close = close;
    }

    -- Without transactions in the database, the function runs on the wrapper itself.
    unfoldable pub transaction : (Adapter S → S → Done × S) → S → Done × S
    transaction fn s = if cfg.supports_transaction then db.transaction fn s else fn factory s
