-- ===== src/Internal/Rows.antt =====
-- adapter/internal.go: the objects that are read from the rows of the database.
use beacon_auth.Prelude.{
  String, Bool, false, not, ◌||◌, Option, none, some, List, [], ◌∷◌, select, ◌==◌,
}
use beacon_auth.Prelude.Dict.{get}
use beacon_auth.Core.Value.{Time, zero_time, Value, str, int, bool, time, time_ptr, Record, itoa}
use beacon_auth.Core.Types.{User, Session, Account, Verification}

-- `toString`; a byte slice or a float64 is no `Value`
unfoldable pub to_string : Value → String
to_string (str s) = s
to_string (int n) = itoa n
to_string _ = ""

-- `if id, ok := data[k]; ok { … = toString(id) }`
unfoldable pub text_at : Record → String → String
unfolding to_string
text_at r k = elim (get r k) [ none ↦ "" | some v ↦ to_string v ]

-- `if s, ok := data[k].(string); ok { … = s }`, and so for the other types.
abbrev pub as_string : Option Value → String
as_string (some (str s)) = s
as_string _ = ""

abbrev pub as_bool : Option Value → Bool
as_bool (some (bool b)) = b
as_bool _ = false

abbrev pub as_time : Option Value → Time
as_time (some (time t)) = t
as_time _ = zero_time

-- A time or a pointer to one.
abbrev pub as_time_ptr : Option Value → Option Time
as_time_ptr (some (time t)) = some t
as_time_ptr (some (time_ptr p)) = p
as_time_ptr _ = none

abbrev is_known : List String → String → Bool
is_known [] k = false
is_known (j ∷ js) k = j == k || is_known js k

-- The loop over the fields that have no place in the object.
abbrev pub extra_fields : List String → Record → Record
extra_fields ks = select (λ e. not (is_known ks e.0))

abbrev user_fields : List String
user_fields =
    "id" ∷ "email" ∷ "email_verified" ∷ "name" ∷ "image" ∷ "two_factor_enabled" ∷ "created_at"
    ∷ "updated_at" ∷ "role" ∷ "banned" ∷ "ban_reason" ∷ "ban_expires" ∷ []

unfoldable pub map_to_user : Record → User
map_to_user r = record {
  id = text_at r "id";
  email = as_string (get r "email");
  email_verified = as_bool (get r "email_verified");
  name = as_string (get r "name");
  image = as_string (get r "image");
  two_factor_enabled = as_bool (get r "two_factor_enabled");
  created_at = as_time (get r "created_at");
  updated_at = as_time (get r "updated_at");
  role = as_string (get r "role");
  banned = as_bool (get r "banned");
  ban_reason = as_string (get r "ban_reason");
  ban_expires = as_time_ptr (get r "ban_expires");
  metadata = extra_fields user_fields r;
}

abbrev session_fields : List String
session_fields =
    "id" ∷ "user_id" ∷ "token" ∷ "expires_at" ∷ "ip_address" ∷ "user_agent" ∷ "created_at"
    ∷ "updated_at" ∷ "impersonated_by" ∷ []

unfoldable pub map_to_session : Record → Session
map_to_session r = record {
  id = text_at r "id";
  user_id = text_at r "user_id";
  token = as_string (get r "token");
  expires_at = as_time (get r "expires_at");
  ip_address = as_string (get r "ip_address");
  user_agent = as_string (get r "user_agent");
  created_at = as_time (get r "created_at");
  updated_at = as_time (get r "updated_at");
  impersonated_by = as_string (get r "impersonated_by");
  metadata = extra_fields session_fields r;
}

abbrev account_fields : List String
account_fields =
    "id" ∷ "user_id" ∷ "account_id" ∷ "provider_id" ∷ "provider_type" ∷ "password" ∷ "access_token"
    ∷ "refresh_token" ∷ "access_token_expires_at" ∷ "refresh_token_expires_at" ∷ "scope"
    ∷ "id_token" ∷ "created_at" ∷ "updated_at" ∷ []

unfoldable pub map_to_account : Record → Account
map_to_account r = record {
  id = text_at r "id";
  user_id = text_at r "user_id";
  account_id = as_string (get r "account_id");
  provider_id = as_string (get r "provider_id");
  provider_type = as_string (get r "provider_type");
  password = as_string (get r "password");
  access_token = as_string (get r "access_token");
  refresh_token = as_string (get r "refresh_token");
  access_token_expires_at = as_time_ptr (get r "access_token_expires_at");
  refresh_token_expires_at = as_time_ptr (get r "refresh_token_expires_at");
  scope = as_string (get r "scope");
  id_token = as_string (get r "id_token");
  created_at = as_time (get r "created_at");
  updated_at = as_time (get r "updated_at");
  metadata = extra_fields account_fields r;
}

unfoldable pub map_to_verification : Record → Verification
map_to_verification r = record {
  id = text_at r "id";
  identifier = as_string (get r "identifier");
  value = as_string (get r "value");
  expires_at = as_time (get r "expires_at");
  created_at = as_time (get r "created_at");
  updated_at = as_time (get r "updated_at");
}
