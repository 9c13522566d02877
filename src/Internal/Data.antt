-- ===== src/Internal/Data.antt =====
-- adapter/internal.go: the rows that the operations write.
use beacon_auth.Prelude.{String, false, Option, none, some, [], ◌∷◌, ℤ, pos, ◌==◌, if◌then◌else◌}
use beacon_auth.Prelude.Dict.{put}
use beacon_auth.Core.Value.{Time, str, bool, time, time_ptr, Record, add_time}
use beacon_auth.Core.Types.{SessionOptions}

-- Seven days in nanoseconds.
abbrev pub default_session_age : ℤ
default_session_age = pos 604800000000000

unfoldable pub user_data : String → String → Time → Record
user_data email name t =
    ("email", str email)
    ∷ ("name", str name)
    ∷ ("email_verified", bool false)
    ∷ ("created_at", time t)
    ∷ ("updated_at", time t)
    ∷ []

abbrev pub session_age : Option SessionOptions → ℤ
session_age none = default_session_age
session_age (some o) = elim o.expires_in [ none ↦ default_session_age | some d ↦ d ]

abbrev put_unless_empty : String → String → Record → Record
put_unless_empty k v d = if v == "" then d else put d k (str v)

abbrev with_options : Option SessionOptions → Record → Record
with_options none d = d
with_options (some o) d =
    put_unless_empty "user_agent" o.user_agent (put_unless_empty "ip_address" o.ip_address d)

-- The row of CreateSession without its id.
unfoldable pub session_data : String → String → Time → Option SessionOptions → Record
session_data user_id token t opts = with_options opts (
    ("user_id", str user_id)
    ∷ ("token", str token)
    ∷ ("expires_at", time (add_time t (session_age opts)))
    ∷ ("created_at", time t)
    ∷ ("updated_at", time t)
    ∷ [])

unfoldable pub account_data : String → String → String → Time → Record
account_data user_id provider account_id t =
    ("user_id", str user_id)
    ∷ ("account_id", str account_id)
    ∷ ("provider_id", str provider)
    ∷ ("provider_type", str "credential")
    ∷ ("created_at", time t)
    ∷ ("updated_at", time t)
    ∷ []

unfoldable pub oauth_account_data :
    String → String → String → String → String → Option Time → Time → Record
oauth_account_data user_id provider account_id access_token refresh_token expires_at t =
    ("user_id", str user_id)
    ∷ ("account_id", str account_id)
    ∷ ("provider_id", str provider)
    ∷ ("provider_type", str "oauth")
    ∷ ("access_token", str access_token)
    ∷ ("refresh_token", str refresh_token)
    ∷ ("access_token_expires_at", time_ptr expires_at)
    ∷ ("created_at", time t)
    ∷ ("updated_at", time t)
    ∷ []

unfoldable pub credential_account_data : String → String → String → Time → Record
credential_account_data user_id identifier password_hash t =
    ("user_id", str user_id)
    ∷ ("account_id", str identifier)
    ∷ ("provider_id", str "local")
    ∷ ("provider_type", str "credential")
    ∷ ("password", str password_hash)
    ∷ ("created_at", time t)
    ∷ ("updated_at", time t)
    ∷ []

unfoldable pub verification_data : String → String → String → Time → ℤ → Record
verification_data identifier kind token t expires_in =
    ("identifier", str identifier)
    ∷ ("token", str token)
    ∷ ("type", str kind)
    ∷ ("expires_at", time (add_time t expires_in))
    ∷ ("created_at", time t)
    ∷ []
