-- ===== src/Session/Manager/Mismatch.antt =====
-- session/manager.go: the token that `Create` hands out where the cookie store and the database are
-- both enabled is not the one that `Get` looks for.
use Prim.Native.String.{slice}
use Prim.Native.String.append
use beacon_auth.Prelude.{if◌then◌else◌, Bool-cases, nat_eq, inl, inr}
use beacon_auth.Prelude.{
  ℕ, zero, suc, ◌+◌, ◌%◌, String, str_append, ◌≡◌, ◌≢◌, ◌<◌, refl, sym, ◌∙◌, subst, Bool, true,
  false, ◌&&◌, Option, none, some, List, [], ◌∷◌, ◌++◌, arith, eq_iff, inl, inr,
}
use beacon_auth.Core.Value.{str}
use beacon_auth.Core.Types.{ok, Result-cases, Session, User, SessionOptions}
use beacon_auth.Core.Query.{Adapter, clause, op_equal}
use beacon_auth.Core.World.{World, bind-ok, ◌>>=◌}
use beacon_auth.Core.Contract.{Contract}
use beacon_auth.Prelude.Dict
use beacon_auth.Prelude.{first-append, first-none_of_imp}
use beacon_auth.Internal.Sessions.{find_session_run}
use beacon_auth.Internal.Revoke.{has_token, live-has_token}
use beacon_auth.Internal.{InternalAdapter, new_internal_adapter}
use beacon_auth.Session.Config.{Config, db_only, determine_strategy}
use beacon_auth.Session.Cookie.{CookieStore, create_token, sign}
use beacon_auth.Session.Cookie.Tokens.{dot_free}
use beacon_auth.Session.Cookie.Signed.{payload_of}
use beacon_auth.Session.Database.{session_row, set_stored, get_stored}
use beacon_auth.Session.Database.Stored.{IsFresh, set_stored_run}
use beacon_auth.Session.Manager.{get, create, draft, store_layers, fetch_user, given_user}
use beacon_auth.Session.Stores.{Manager, Externals, new_manager}
use beacon_auth.Session.Random.{charset_string, charset}
use beacon_auth.Session.Manager.Created.{draft-IsDraft, fetch_user_db, store_layers_same}

-- Whether the first letters of the charset, as many as given, are all but dots.
letters_dot_free : ℕ → Bool
letters_dot_free zero = true
letters_dot_free (suc k) =
    let rest = letters_dot_free k in if dot_free (slice charset k (k + 1)) then rest else false

letter_of_letters :
    (k i : ℕ) → letters_dot_free k ≡ true → i < k → dot_free (slice charset i (i + 1)) ≡ true
unfolding letters_dot_free
letter_of_letters zero i all less = absurd (omega arith)
letter_of_letters (suc k) i all less = elim (Bool-cases (nat_eq i k)) [
  | inl same ↦ ground arith
  | inr other ↦ letter_of_letters k i (ground arith) (ground arith)
]

letter_dot_free : (i : ℕ) → i < 62 → dot_free (slice charset i (i + 1)) ≡ true
unfolding letters_dot_free
letter_dot_free i less = letter_of_letters 62 i refl less

dot_free-append : (s t : String) → dot_free (str_append s t) ≡ (dot_free s && dot_free t)
dot_free-append String.[] t = rw append.nil
dot_free-append (String.◌∷◌ c s) t = rw append.cons (ground (arith, dot_free-append s t))

-- A random token has no dot.
pub charset_string-dot_free : (bs : List ℕ) → dot_free (charset_string bs) ≡ true
unfolding charset_string
charset_string-dot_free [] = refl
charset_string-dot_free (b ∷ bs) =
    rw dot_free-append
      (ground (arith, letter_dot_free (b % 62) (omega arith), charset_string-dot_free bs))

-- A signed token has one.
pub signed-dot_free : (s t : String) → dot_free (str_append s (str_append "." t)) ≡ false
signed-dot_free s t =
    rw (dot_free-append s (str_append "." t), dot_free-append "." t) (ground arith)

-- The manager that `NewManager` makes of a configuration with the cookie store and the database, and
-- without Redis.
abbrev pub cookie_manager : {S R : Type 0} → Config → CookieStore → InternalAdapter S → Manager S R
cookie_manager c k d = record {
  config = c;
  cookie_store = some k;
  redis_store = none;
  db_store = some d;
  strategy = db_only;
}

new_manager-cookie :
    {S R : Type 0} (x : Externals R) (c : Config) (a : Adapter S)
    → c.enable_cookie_store ≡ true
    → c.enable_db_store ≡ true
    → c.enable_redis_store ≡ false
    → new_manager x (some c) (some a)
      ≡ ok (
          cookie_manager c
            (record { secret = c.secret; issuer = c.issuer; codec = x.cookie_codec })
            (new_internal_adapter a none x.show_time))
unfolding new_manager determine_strategy
new_manager-cookie x c a cookie db redis = ground arith

module _ {S : Type 0} (d : InternalAdapter S) (laws : Contract d.adapter) where
  -- The new row does not have another token.
  session_row-has_token :
      (s : Session) (token : String)
      → s.token ≢ token
      → has_token d laws token (session_row s) ≡ false
  unfolding session_row Dict.get
  session_row-has_token s token h = ground (
    arith,
    laws.matches_cons (session_row s) (clause "token" op_equal (str token)) [],
    laws.holds_equal (session_row s) "token" s.token token refl,
    eq_iff s.token token,
  )

module _ {S R : Type 0} (c : Config) (k : CookieStore) (d : InternalAdapter S)
    (laws : Contract d.adapter) where
  -- The token is a signed one, and the one row that is added has the session's own token.
  store_layers_cookie :
      (s : Session) (u : Option User) (w v : World S R) (r : Session × Option User × String)
      → IsFresh d laws w.db s.token
      → store_layers (cookie_manager c k d) s u w ≡ (ok r, v)
      → (body : String) × (sig : String) × (r.2 ≡ str_append body (str_append "." sig))
        × (v.db ≡ (d.adapter.create "sessions" (session_row s) w.db).1)
  unfolding store_layers create_token
  store_layers_cookie s u w v r f h =
      let (stored, db) = set_stored_run d laws s w f in
      let z = (set_stored d s w).1 in
      elim (Result-cases (k.codec.marshal (payload_of k s u (z.clock 0)))) [
        | inl (text, e) ↦
            (k.codec.base64 text, sign k (k.codec.base64 text), ground arith, ground arith)
        | inr (x, e) ↦ absurd (ground arith)
      ]

  still_unknown :
      (s : Session) (token : String) (w v : World S R)
      → s.token ≢ token
      → IsFresh d laws w.db token
      → v.db ≡ (d.adapter.create "sessions" (session_row s) w.db).1
      → (get_stored d token v).0.session ≡ none
  unfolding get_stored
  still_unknown s token w v h f same =
      let rows_v : laws.rows v.db "sessions" ≡ laws.rows w.db "sessions" ++ session_row s ∷ [] =
        rw same (laws.create_rows "sessions" (session_row s) w.db "sessions") in
      let fresh : IsFresh d laws v.db token = rw rows_v (
        first-append (has_token d laws token) (laws.rows w.db "sessions") (session_row s ∷ []) f
        ∙ ground (arith, session_row-has_token d laws s token h)) in
      ground (
        arith,
        find_session_run d laws token v,
        first-none_of_imp (has_token d laws token) _ (live-has_token d laws token (v.clock 0))
            (laws.rows v.db "sessions") fresh,
      )

  not_found :
      (user_id : String) (opts : Option SessionOptions) (w v : World S R) (s : Session)
      (u : Option User) (token : String)
      → create (cookie_manager c k d) user_id opts w ≡ (ok (s, u, token), v)
      → IsFresh d laws w.db s.token
      → IsFresh d laws w.db token
      → (s.token ≢ token) × ((get_stored d token v).0.session ≡ none)
  unfolding create
  not_found user_id opts w v s u token h fresh unknown =
      let m = cookie_manager {S = S} {R = R} c k d in
      let (s', h₁, k₁) =
        bind-ok (draft m user_id opts)
          (λ x. fetch_user m (given_user opts) user_id >>= (λ y. store_layers m x y)) w
          (s, u, token) v h in
      let (u', h₂, k₂) =
        bind-ok (fetch_user m (given_user opts) user_id) (λ y. store_layers m s' y)
          (draft m user_id opts w).1 (s, u, token) v k₁ in
      let x = draft-IsDraft m user_id opts w s' h₁ in
      let w₂ = (fetch_user m (given_user opts) user_id (draft m user_id opts w).1).1 in
      let same : w₂.db ≡ w.db =
        fetch_user_db c d laws m (given_user opts) user_id _ refl ∙ x.same_db in
      let s_same : s ≡ s' = store_layers_same c d laws m s' u' w₂ v (s, u, token) k₂ in
      let fresh' : IsFresh d laws w₂.db s'.token =
        subst (λ b. IsFresh d laws b s'.token) (sym same)
          (subst (λ y. IsFresh d laws w.db y.token) s_same fresh) in
      let (body, sig, made, db) = store_layers_cookie s' u' w₂ v (s, u, token) fresh' k₂ in
      let differ : s'.token ≢ token = λ e. absurd (
        ground
          (arith, signed-dot_free body sig, charset_string-dot_free x.bytes, x.random, made, e)) in
      (
        subst (λ y. y.token ≢ token) (sym s_same) differ,
        still_unknown s' token w₂ v differ (subst (λ b. IsFresh d laws b token) (sym same) unknown)
            db,
      )

-- With the cookie store and the database, over an adapter that meets the contract, enabled and
-- Redis not, a session that Create has just returned is not found by Get under the token that was
-- handed out, which is not the session's own: if no row had either token before.
pub get-create_cookie :
    {S R : Type 0} (x : Externals R) (c : Config) (a : Adapter S) (laws : Contract a)
    (m : Manager S R)
    → c.enable_cookie_store ≡ true
    → c.enable_db_store ≡ true
    → c.enable_redis_store ≡ false
    → new_manager x (some c) (some a) ≡ ok m
    → (user_id : String) (opts : Option SessionOptions) (w v : World S R) (s : Session)
      (u : Option User) (token : String)
    → create m user_id opts w ≡ (ok (s, u, token), v)
    → IsFresh (new_internal_adapter a none x.show_time) laws w.db s.token
    → IsFresh (new_internal_adapter a none x.show_time) laws w.db token
    → (s.token ≢ token) × ((get m token v).0.session ≡ none)
unfolding get
get-create_cookie x c a laws m cookie db redis made user_id opts w v s u token h fresh unknown =
    let k : CookieStore = record { secret = c.secret; issuer = c.issuer; codec = x.cookie_codec } in
    let d = new_internal_adapter a none x.show_time in
    let m_lem : m ≡ cookie_manager c k d =
      ground (arith, new_manager-cookie x c a cookie db redis) in
    rw m_lem (
      not_found c k d laws user_id opts w v s u token
        (subst (λ y. create y user_id opts w ≡ (ok (s, u, token), v)) m_lem h) fresh unknown)
