-- ===== src/Internal.antt =====
-- adapter/internal.go: users, sessions, accounts and verifications over any database adapter.
-- Every operation takes the adapter with its way to make ids as its first argument.
pub mod Rows
pub mod Data
pub mod Sessions
pub mod NewSession
pub mod Revoke
pub mod Accounts
use Prim.Native.String.{slice}
use mathlib.Core.Option
use beacon_auth.Prelude.{
  ℕ, String, Bool, true, false, Option, none, some, List, [], ◌∷◌, ℤ, pos, if◌then◌else◌, ◌==◌,
}
use beacon_auth.Prelude.Dict.{put}
use beacon_auth.Core.Value.{Time, Value, str, bool, time, time_ptr, Record, add_time}
use beacon_auth.Core.Types.{
  Error, user_not_found, session_not_found, failed, Result, ok, err, User, Session, Account,
  Verification, SessionOptions,
}
use beacon_auth.Core.Query.{op_equal, op_greater_than, Query, Adapter, clause, query}
use beacon_auth.Core.World.{
  World, Act, pure, fail, on_db, continue, ◌>>=◌, ◌>>◌, read_clock, now, read_random,
}
use beacon_auth.Core.Encoding.{take_bytes, base64_url, string_bytes}
use Rows.{map_to_user, map_to_session, map_to_account, map_to_verification}
use Data.{
  user_data, session_data, account_data, oauth_account_data, credential_account_data,
  verification_data,
}

pub data IdStrategy : Type 0 where
  application database : IdStrategy

-- `show_time` is the String method of time.Time, from which an id is made when rand.Read fails.
pub record InternalAdapter (S : Type 0) : Type 0 where
  pub adapter : Adapter S
  pub id_strategy : IdStrategy
  pub show_time : Time → String

-- `NewInternalAdapter`; `none` is a nil configuration or an empty strategy
abbrev pub new_internal_adapter :
    {S : Type 0} → Adapter S → Option IdStrategy → (Time → String) → InternalAdapter S
new_internal_adapter db none show_time = record {
  adapter = db;
  id_strategy = application;
  show_time = show_time;
}
new_internal_adapter db (some s) show_time = record {
  adapter = db;
  id_strategy = s;
  show_time = show_time;
}

-- What FindSessionWithUser returns: a session can come with an error.
pub record Lookup : Type 0 where
  pub session : Option Session
  pub user : Option User
  pub error : Option Error

abbrev pub user_query : String → String → Query
user_query field v = query "users" (clause field op_equal (str v) ∷ [])

abbrev pub account_query : String → String → Query
account_query provider account_id = query "accounts" (
    clause "provider_id" op_equal (str provider)
    ∷ clause "account_id" op_equal (str account_id)
    ∷ [])

abbrev pub session_query : String → Time → Query
session_query token t =
    query "sessions"
      (clause "token" op_equal (str token) ∷ clause "expires_at" op_greater_than (time t) ∷ [])

-- After the query for the user of a session.
abbrev pub found_user : Session → Result (Option Record) → Lookup
found_user s (err e) = record { session = none; user = none; error = some e }
found_user s (ok none) = record { session = some s; user = none; error = some user_not_found }
found_user s (ok (some r)) = record { session = some s; user = some (map_to_user r); error = none }

abbrev pub identified : Option String → Record → Record
identified none d = d
identified (some i) d = put d "id" (str i)

module _ {S R : Type 0} where
  -- `generateRandomStringID`, from what rand.Read answered
  random_id : (Time → String) → Option (ℕ → ℕ) → World S R → String × World S R
  random_id show_time (some f) w = (slice (base64_url (take_bytes 16 f)) 0 22, w)
  random_id show_time none w =
      let (t, w') = read_clock w in (slice (base64_url (string_bytes (show_time t))) 0 22, w')

  -- `generateSessionToken` and `generateVerificationToken`
  unfoldable pub random_token : Act S R String
  random_token w =
      let (f, w') = read_random w in
      elim f [
        | none ↦ (err (failed "rand"), w')
        | some bytes ↦ (ok (base64_url (take_bytes 32 bytes)), w')
      ]

module _ {S R : Type 0} (ia : InternalAdapter S) where
  generated : IdStrategy → World S R → Option String × World S R
  unfolding random_id
  generated database w = (none, w)
  generated application w =
      let (f, w₁) = read_random w in let (id, w₂) = random_id ia.show_time f w₁ in (some id, w₂)

  -- `if id := ia.generateID(); id != nil { data["id"] = id }`
  unfoldable pub with_id : Record → Act S R Record
  unfolding generated
  with_id d w = let (id, w') = generated ia.id_strategy w in (ok (identified id d), w')

  unfoldable pub create_user : String → String → Act S R User
  create_user email name = do
    t ← now
    d ← with_id (user_data email name t)
    r ← on_db (ia.adapter.create "users" d)
    pure (map_to_user r)

  abbrev pub user_or_missing : Option Record → Act S R User
  user_or_missing none = fail user_not_found
  user_or_missing (some r) = pure (map_to_user r)

  unfoldable pub find_user_by_email : String → Act S R User
  find_user_by_email email = do
    r ← on_db (ia.adapter.find_one (user_query "email" email))
    user_or_missing r

  unfoldable pub find_user_by_id : String → Act S R User
  find_user_by_id id = do r ← on_db (ia.adapter.find_one (user_query "id" id)); user_or_missing r

  unfoldable pub update_user : String → Record → Act S R User
  update_user id d = do
    t ← now
    r ← on_db (ia.adapter.update (user_query "id" id) (put d "updated_at" (time t)))
    user_or_missing r

  unfoldable pub create_session : String → Option SessionOptions → Act S R Session
  create_session user_id opts = do
    t ← now
    token ← random_token
    d ← with_id (session_data user_id token t opts)
    r ← on_db (ia.adapter.create "sessions" d)
    pure (map_to_session r)

  -- After the query for the session.
  abbrev pub found_session : Result (Option Record) → World S R → Lookup × World S R
  found_session (err e) w = (record { session = none; user = none; error = some e }, w)
  found_session (ok none) w =
      (record { session = none; user = none; error = some session_not_found }, w)
  found_session (ok (some r)) w =
      let session = map_to_session r in
      let (u, w') = on_db (ia.adapter.find_one (user_query "id" session.user_id)) w in
      (found_user session u, w')

  unfoldable pub find_session_with_user : String → World S R → Lookup × World S R
  find_session_with_user token w =
      let (t, w₁) = read_clock w in
      let (r, w₂) = on_db (ia.adapter.find_one (session_query token t)) w₁ in found_session r w₂

  unfoldable pub revoke_session : String → Act S R Unit
  revoke_session token =
      on_db (ia.adapter.delete (query "sessions" (clause "token" op_equal (str token) ∷ [])))

  unfoldable pub revoke_all_user_sessions : String → Act S R ℕ
  revoke_all_user_sessions user_id =
      on_db
        (ia.adapter.delete_many (query "sessions" (clause "user_id" op_equal (str user_id) ∷ [])))

  -- The common end of the three ways to create an account.
  unfoldable pub store_account : (Time → Record) → Act S R Account
  store_account make = do
    t ← now
    d ← with_id (make t)
    r ← on_db (ia.adapter.create "accounts" d)
    pure (map_to_account r)

  unfoldable pub create_account : String → String → String → Act S R Account
  unfolding store_account
  create_account user_id provider account_id =
      store_account (account_data user_id provider account_id)

  unfoldable pub create_oauth_account :
      String → String → String → String → String → Option Time → Act S R Account
  unfolding store_account
  create_oauth_account user_id provider account_id access_token refresh_token expires_at =
      store_account
        (oauth_account_data user_id provider account_id access_token refresh_token expires_at)

  unfoldable pub create_credential_account : String → String → String → Act S R Account
  unfolding store_account
  create_credential_account user_id identifier password_hash =
      store_account (credential_account_data user_id identifier password_hash)

  unfoldable pub find_account_by_provider : String → String → Act S R (Option Account)
  find_account_by_provider provider account_id = do
    r ← on_db (ia.adapter.find_one (account_query provider account_id))
    pure (Option.map map_to_account r)

  unfoldable pub create_verification : String → String → ℤ → Act S R Verification
  create_verification identifier kind expires_in = do
    token ← random_token
    t ← now
    d ← with_id (verification_data identifier kind token t expires_in)
    r ← on_db (ia.adapter.create "verifications" d)
    pure (map_to_verification r)

  unfoldable pub find_verification : String → Act S R (Option Verification)
  find_verification token = do
    t ← now
    r ← on_db (
        ia.adapter.find_one (
          query "verifications" (
            clause "token" op_equal (str token)
            ∷ clause "expires_at" op_greater_than (time t)
            ∷ [])))
    pure (Option.map map_to_verification r)
