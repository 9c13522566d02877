-- ===== src/Tests/World.antt =====
-- A database in memory, a cache of keys and texts, a clock and random bytes to run the code with.
use beacon_auth.Prelude.{
  ℕ, ◌+◌, suc, ◌≡◌, ◌≤◌, ltb, ℤ, pos, negsuc, Option, if◌then◌else◌, arith, String, refl, true,
  false, none, some, [], ◌∷◌, eq_refl,
}
use beacon_auth.Prelude.Dict.{Dict, get, put, remove, get-put, get-remove}
use beacon_auth.Core.Value.{Time, str, time, bool, Record}
use beacon_auth.Core.Types.{Result, ok, err, User, Session}
use beacon_auth.Core.Query.{Adapter}
use beacon_auth.Core.World.{World}
use beacon_auth.Core.Contract.{Contract}
use beacon_auth.Memory.{Memory, memory, new}
use beacon_auth.Memory.Sort.{LongSort, insertion_sort}
use beacon_auth.Memory.Refines.{memory_contract}
use beacon_auth.Internal.{InternalAdapter, new_internal_adapter}
use beacon_auth.Session.Redis.{RedisClient}
use beacon_auth.Session.Redis.Commands

abbrev pub show : Time → String
show t = "a time"

-- Longer slices are sorted in the same way as short ones.
abbrev pub long_sort : LongSort
long_sort less xs = insertion_sort less xs

abbrev pub db : Adapter Memory
db = memory show long_sort

abbrev pub laws : Contract db
laws = memory_contract show long_sort

abbrev pub internal : InternalAdapter Memory
internal = new_internal_adapter db none show

abbrev pub at : ℕ → Time
at n = record { instant = n; zone = "UTC" }

abbrev pub world : {R : Type 0} → Memory → R → World Memory R
world m c = record {
  db = m;
  cache = c;
  clock = λ n. at (1000 + n);
  entropy = λ n. some (λ i. n + i);
}

abbrev pub empty_world : World Memory Unit
empty_world = world new tt

-- A cache: every value with the time at which its time to live ends.
abbrev pub Cache : Type 0
Cache = Dict (String × ℕ)

-- The time of the command, and the time to live, as a deadline.
abbrev pub deadline : ℕ → ℤ → ℕ
deadline t (pos ttl) = t + ttl
deadline t (negsuc n) = t

abbrev pub unexpired : ℕ → Option (String × ℕ) → Option String
unexpired t none = none
unexpired t (some (text, end)) = if ltb t end then some text else none

abbrev pub keys : RedisClient Cache
keys = record {
  get = λ t k c. (ok (unexpired t (get c k)), c);
  set = λ t k v ttl c. (ok tt, put c k (v, deadline t ttl));
  del = λ k c. (ok tt, remove c k);
  scan = λ t pattern n c. (ok ([], 0), c);
  close = λ c. (ok tt, c);
}

pub unexpired-put :
    (t u : ℕ) (k v : String) (ttl : ℕ) (c : Cache)
    → u + Commands.millisecond ≤ t + ttl
    → unexpired u (get (put c k (v, t + ttl)) k) ≡ some v
unexpired-put t u k v ttl c lasts =
    rw (get-put c k k (v, t + ttl), eq_refl k) (ground (arith, lasts))

pub expired-put :
    (t u : ℕ) (k v : String) (ttl : ℕ) (c : Cache)
    → t + suc ttl + Commands.millisecond ≤ u
    → unexpired u (get (put c k (v, t + suc ttl)) k) ≡ none
expired-put t u k v ttl c over =
    rw (get-put c k k (v, t + suc ttl), eq_refl k) (ground (arith, over))

abbrev pub keys_contract : Commands.Contract keys
keys_contract = record {
  value = λ c t k. unexpired t (get c k);
  get_run = λ t k c. refl;
  set_value = λ t u k v ttl c order. unexpired-put t u k v ttl c;
  set_over = expired-put;
  del_result = λ k c. refl;
  del_value = λ t k c. rw (get-remove c k k, eq_refl k);
}

-- A row of a session, and one of a user.
abbrev pub session_of : String → String → ℕ → Record
session_of token owner n =
    ("id", str token)
    ∷ ("user_id", str owner)
    ∷ ("token", str token)
    ∷ ("expires_at", time (at n))
    ∷ []

abbrev pub user_of : String → String → Record
user_of id email = ("id", str id) ∷ ("email", str email) ∷ ("email_verified", bool true) ∷ []

abbrev pub two_sessions : Memory
two_sessions = record {
  tables =
      ("sessions", session_of "s1" "ann" 9000 ∷ session_of "s2" "bob" 9000 ∷ [])
      ∷ ("users", user_of "ann" "ann@example.com" ∷ [])
      ∷ [];
  next_id = 1;
}

-- What a result holds, or else the given value.
abbrev pub taken {ℓ} : {A : Type ℓ} → Result A → A → A
taken (ok a) b = a
taken (err e) b = b

abbrev pub no_one : User
no_one = record {
  id = "";
  email = "";
  email_verified = false;
  name = "";
  image = "";
  two_factor_enabled = false;
  created_at = at 0;
  updated_at = at 0;
  role = "";
  banned = false;
  ban_reason = "";
  ban_expires = none;
  metadata = [];
}

abbrev pub no_session_at_all : Session
no_session_at_all = record {
  id = "";
  user_id = "";
  token = "";
  expires_at = at 0;
  ip_address = "";
  user_agent = "";
  created_at = at 0;
  updated_at = at 0;
  impersonated_by = "";
  metadata = [];
}
