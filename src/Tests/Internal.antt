-- ===== src/Tests/Internal.antt =====
-- adapter/internal.go on a database with two sessions.
use beacon_auth.Prelude.{ℕ, String, ◌≡◌, ◌≢◌, ◌<◌, refl, none, some, [], pos, All}
use beacon_auth.Prelude.Dict.{get}
use beacon_auth.Core.Value.{Value, str, time, Record}
use beacon_auth.Core.Types.{Result, ok, User, Session, Account, Verification}
use beacon_auth.Core.World.{World}
use beacon_auth.Memory.{Memory, rows}
use beacon_auth.Internal.{
  find_session_with_user, revoke_session, revoke_all_user_sessions, create_session, create_user,
  find_user_by_email, create_credential_account, find_account_by_provider, create_verification,
}
use beacon_auth.Internal.Rows.{map_to_session}
use beacon_auth.Internal.Sessions.{IsSessionRow, find_session_sound}
use beacon_auth.Internal.Revoke.{find-revoke_user}
use beacon_auth.Tests.World.{
  laws, internal, at, world, session_of, two_sessions, taken, no_session_at_all,
}

abbrev no_account : Account
no_account = record {
  id = "";
  user_id = "";
  account_id = "";
  provider_id = "";
  provider_type = "";
  password = "";
  access_token = "";
  refresh_token = "";
  access_token_expires_at = none;
  refresh_token_expires_at = none;
  scope = "";
  id_token = "";
  created_at = at 0;
  updated_at = at 0;
  metadata = [];
}

abbrev no_verification : Verification
no_verification = record {
  id = "";
  identifier = "";
  value = "";
  expires_at = at 0;
  created_at = at 0;
  updated_at = at 0;
}

abbrev busy : World Memory Unit
busy = world two_sessions tt

session_of-IsSessionRow : (token owner : String) (n : ℕ) → IsSessionRow (session_of token owner n)
unfolding get
session_of-IsSessionRow token owner n = record {
  token = token;
  expires_at = at n;
  owner = owner;
  has_owner = refl;
  has_token = refl;
  has_expiry = refl;
}

two_sessions-IsSessionRow : All IsSessionRow (laws.rows two_sessions "sessions")
unfolding get beacon_auth.Memory.Refines.memory_contract
two_sessions-IsSessionRow =
    (session_of-IsSessionRow "s1" "ann" 9000, (session_of-IsSessionRow "s2" "bob" 9000, tt))

find_session_sound_example :
    ((map_to_session (session_of "s1" "ann" 9000)).token ≡ "s1")
    × (1000 < (map_to_session (session_of "s1" "ann" 9000)).expires_at.instant)
unfolding find_session_with_user beacon_auth.Memory.find_one get
    beacon_auth.Memory.Where.matches_where beacon_auth.Memory.Where.matches_clause
    beacon_auth.Memory.Compare.equal beacon_auth.Core.Value.sprint
    beacon_auth.Memory.Compare.greater_than map_to_session beacon_auth.Internal.Rows.text_at
find_session_sound_example =
    find_session_sound internal laws "s1" busy (map_to_session (session_of "s1" "ann" 9000))
      two_sessions-IsSessionRow refl

find-revoke_user_example :
    ((revoke_all_user_sessions internal "ann" busy).0 ≡ ok 1)
    × ((s : Session)
        → (find_session_with_user internal "s2"
            (revoke_all_user_sessions internal "ann" busy).1).0.session
          ≡ some s
        → s.user_id ≢ "ann")
unfolding beacon_auth.Memory.Refines.memory_contract get beacon_auth.Memory.Where.matches_where
    beacon_auth.Memory.Where.matches_clause beacon_auth.Memory.Compare.equal
    beacon_auth.Core.Value.sprint
find-revoke_user_example = find-revoke_user internal laws "ann" "s2" busy two_sessions-IsSessionRow

-- A session of Ann, as CreateSession returns it.
abbrev ann_run : Result Session × World Memory Unit
ann_run = create_session internal "ann" none busy

abbrev ann_session : Session
ann_session = taken ann_run.0 no_session_at_all

abbrev bob_run : Result User × World Memory Unit
bob_run = create_user internal "bob@example.com" "Bob" busy

abbrev account_run : Result Account × World Memory Unit
account_run = create_credential_account internal "ann" "ann@example.com" "hash" busy

abbrev ann_account : Account
ann_account = taken account_run.0 no_account

abbrev verification_run : Result Verification × World Memory Unit
verification_run = create_verification internal "ann@example.com" "email" (pos 60) busy

abbrev ann_verification : Verification
ann_verification = taken verification_run.0 no_verification
