-- ===== src/Tests/Factory.antt =====
-- Runs of the wrapper of an adapter at concrete inputs.
use beacon_auth.Prelude.{◌≡◌, refl, inr, String, true, false, none, some, []}
use beacon_auth.Prelude.{◌∷◌, All, first, ◌==◌, if◌then◌else◌, Option, pos}
use beacon_auth.Prelude.Dict.{get, put}
use beacon_auth.Core.Value.{str, int, bool, Fields, no_fields, field, object, Record, sprint}
use beacon_auth.Core.Types.{Result, ok, err, failed}
use beacon_auth.Core.Query.{op_equal, Query, query, clause}
use beacon_auth.Memory.{Memory, rows}
use beacon_auth.Factory as Factory
use beacon_auth.Factory.{Formats, AdapterConfig, CustomAdapter}
use beacon_auth.Factory.Restored.{swapped, Plain, Kept, find_one-create}
use beacon_auth.Factory.Renamed.{Distinct}
use beacon_auth.Memory.Where.{matches_where, matches_clause, holds}
use beacon_auth.Memory.Compare.{equal}
use beacon_auth.Memory.Refines.{memory_contract}
use beacon_auth.Factory.Unmapped.{find_one-create_renamed}
use beacon_auth.Tests.World.{long_sort, show, laws, db}

abbrev encode : Fields → Result String
encode no_fields = ok "{}"
encode (field k v fs) = err (failed "unsupported")

abbrev decode : String → Option Fields
decode s = if s == "{}" then some no_fields else none

abbrev formats : Formats
formats = record { marshal = encode; unmarshal = decode; rfc3339 = show }

-- A database whose rows are found under "_id" and that holds no maps.
abbrev config : AdapterConfig
config = record {
  id = "documents";
  supports_json = false;
  supports_dates = true;
  supports_booleans = true;
  supports_transaction = false;
  field_name_mapping = ("id", "_id") ∷ [];
  custom_transform_input = none;
  custom_transform_output = none;
}

abbrev wrapped : CustomAdapter Memory
wrapped = record { base = db; transaction = λ fn m. fn db m }

abbrev nothing_yet : Memory
nothing_yet = record { tables = []; next_id = 0 }

abbrev user : Record
user =
    ("id", str "u1")
    ∷ ("active", bool true)
    ∷ ("age", int (pos 30))
    ∷ ("meta", object no_fields)
    ∷ []

abbrev by_stored_id : Query
by_stored_id = query "users" (clause "_id" op_equal (str "u1") ∷ [])

transform_input_run :
    Factory.transform_input formats config user
    ≡ ("_id", str "u1") ∷ ("active", bool true) ∷ ("age", int (pos 30)) ∷ ("meta", str "{}") ∷ []
unfolding Factory.transform_input Factory.transform_loop put Factory.field_name get
    Factory.transform_value
transform_input_run = refl

config-Plain : Plain formats config
unfolding get
config-Plain = (refl, refl, (refl, tt))

user-Distinct : Distinct user
unfolding get
user-Distinct = (refl, (refl, (refl, (refl, tt))))

user-Kept : All (Kept formats config) user
unfolding get
user-Kept = ((refl, inr refl), ((refl, refl), ((refl, tt), ((refl, inr ("{}", refl, refl)), tt))))

nothing_before :
    first (λ r. laws.matches r by_stored_id.clauses) (laws.rows nothing_yet "users") ≡ none
unfolding get memory_contract
nothing_before = refl

stored-matches :
    laws.matches (Factory.transform_input formats config user) by_stored_id.clauses ≡ true
unfolding Factory.transform_input Factory.transform_loop put Factory.field_name get
    Factory.transform_value matches_where holds matches_clause equal memory_contract sprint
stored-matches = refl

find_one-create_example :
    ((Factory.create formats config wrapped "users" user nothing_yet).0 ≡ ok user)
    × ((Factory.find_one formats config wrapped by_stored_id
          (Factory.create formats config wrapped "users" user nothing_yet).1).0
        ≡ ok (some user))
find_one-create_example =
    find_one-create formats config wrapped laws by_stored_id user nothing_yet config-Plain
      user-Distinct user-Kept nothing_before stored-matches

id_renamed : get config.field_name_mapping "id" ≡ some "_id"
unfolding get
id_renamed = refl

id_no_new_name : get (swapped config.field_name_mapping) "id" ≡ none
unfolding get
id_no_new_name = refl

none_has_id : All (λ (r : Record). get r "id" ≡ none) (rows nothing_yet "users")
unfolding get
none_has_id = tt

find_one-create_renamed_example :
    (Factory.find_one formats config wrapped
      (query "users" (clause "id" op_equal (str "u1") ∷ []))
      (Factory.create formats config wrapped "users" user nothing_yet).1).0
    ≡ ok none
find_one-create_renamed_example =
    find_one-create_renamed formats config show long_sort wrapped.transaction "users" "id" "_id"
      op_equal (str "u1") user nothing_yet refl id_renamed id_no_new_name none_has_id
