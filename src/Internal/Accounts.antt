-- ===== src/Internal/Accounts.antt =====
-- adapter/internal.go: users, accounts and verifications that are created can be found.
use beacon_auth.Prelude.{
  String, ◌≡◌, refl, true, false, Option, none, some, List, [], ◌∷◌, arith, ℤ, first, first-append,
  ◌==◌, eq_refl, Option-cases, inl, inr,
}
use beacon_auth.Prelude.Dict.{get, get-put}
use beacon_auth.Core.Value.{str, Record}
use beacon_auth.Core.Types.{ok, err, User, Account, Verification, user_not_found}
use beacon_auth.Core.Query.{WhereClause, clause, op_equal}
use beacon_auth.Core.World.{World, read_clock, read_random}
use beacon_auth.Core.Contract.{Contract}
use beacon_auth.Core.Encoding.{base64_url, take_bytes}
use beacon_auth.Internal.{
  InternalAdapter, identified, generated, with_id, random_token, user_query, create_user,
  find_user_by_email, create_credential_account, account_query, find_account_by_provider,
  create_verification,
}
use beacon_auth.Internal.Data.{user_data, credential_account_data, verification_data}
use beacon_auth.Internal.Rows.{map_to_user, map_to_account, map_to_verification}

get-identified :
    (id : Option String) (d : Record) (k : String)
    → ("id" == k) ≡ false
    → get (identified id d) k ≡ get d k
get-identified none d k h = refl
get-identified (some i) d k h = rw (get-put d "id" k (str i), h)

mapped_email : (r : Record) {e : String} → get r "email" ≡ some (str e) → (map_to_user r).email ≡ e
unfolding map_to_user
mapped_email r h = ground arith

mapped_name : (r : Record) {n : String} → get r "name" ≡ some (str n) → (map_to_user r).name ≡ n
unfolding map_to_user
mapped_name r h = ground arith

pub mapped_password :
    (r : Record) {p : String} → get r "password" ≡ some (str p) → (map_to_account r).password ≡ p
unfolding map_to_account
mapped_password r h = ground arith

mapped_value : (r : Record) → get r "value" ≡ none → (map_to_verification r).value ≡ ""
unfolding map_to_verification
mapped_value r h = ground arith

module _ {S R : Type 0} (ia : InternalAdapter S) where
  with_id_run :
      (d : Record) (w : World S R)
      → (id : Option String) × (v : World S R) × (with_id ia d w ≡ (ok (identified id d), v))
        × (v.db ≡ w.db)
  unfolding with_id generated
  with_id_run d w =
      ((generated ia ia.id_strategy w).0, (generated ia ia.id_strategy w).1, refl, ground arith)

module _ {S : Type 0} (ia : InternalAdapter S) (laws : Contract ia.adapter) where
  -- The first row of a table that meets some clauses.
  abbrev pub first_row : S → String → List WhereClause → Option Record
  first_row s model cs = first (λ r. laws.matches r cs) (laws.rows s model)

  -- A new row is found by clauses that it meets and that no row met before.
  pub first_row-create :
      (model : String) (cs : List WhereClause) (d : Record) (s : S)
      → laws.matches d cs ≡ true
      → first_row s model cs ≡ none
      → first_row (ia.adapter.create model d s).1 model cs ≡ some d
  first_row-create model cs d s m none_before =
      rw (laws.create_rows model d s model, eq_refl model)
        (rw (first-append _ (laws.rows s model) (d ∷ []) none_before) (rw m))

  pub matches_one :
      (d : Record) (f v : String)
      → get d f ≡ some (str v)
      → laws.matches d (clause f op_equal (str v) ∷ []) ≡ true
  matches_one d f v h =
      rw (laws.matches_cons, laws.matches_nil, laws.holds_equal d f v v h, eq_refl v)

  pub matches_two :
      (d : Record) (f g u v : String)
      → get d f ≡ some (str u)
      → get d g ≡ some (str v)
      → laws.matches d (clause f op_equal (str u) ∷ clause g op_equal (str v) ∷ []) ≡ true
  matches_two d f g u v h k =
      rw (laws.matches_cons, laws.holds_equal d f u u h, eq_refl u) (matches_one d g v k)

module _ {S R : Type 0} (ia : InternalAdapter S) (laws : Contract ia.adapter) where
  pub find_by_email_run :
      (email : String) (w : World S R)
      → (find_user_by_email ia email w).0
        ≡ elim (first_row ia laws w.db "users" (user_query "email" email).clauses) [
          | none ↦ err user_not_found
          | some r ↦ ok (map_to_user r)
        ]
  unfolding find_user_by_email
  find_by_email_run email w = ground (arith, laws.find_one_run (user_query "email" email) w.db)

  -- The row of a new user.
  pub create_user_row :
      (email name : String) (w w' : World S R) (u : User)
      → create_user ia email name w ≡ (ok u, w')
      → (d : Record) × (u ≡ map_to_user d)
        × (get d "email" ≡ some (str email))
        × (get d "name" ≡ some (str name))
        × (w'.db ≡ (ia.adapter.create "users" d w.db).1)
  unfolding create_user
  create_user_row email name w w' u h =
      let (id, v, run, db) = with_id_run ia (user_data email name (w.clock 0)) (read_clock w).1 in
      let d = identified id (user_data email name (w.clock 0)) in
      (
        d,
        ground (arith, laws.create_result "users" d w.db),
        (unfold user_data get in get-identified id _ "email" refl),
        (unfold user_data get in get-identified id _ "name" refl),
        ground (arith, laws.create_result "users" d w.db),
      )

  -- The row of new credentials.
  pub create_credential_account_row :
      (user_id identifier hash : String) (w w' : World S R) (a : Account)
      → create_credential_account ia user_id identifier hash w ≡ (ok a, w')
      → (d : Record) × (a ≡ map_to_account d)
        × (get d "user_id" ≡ some (str user_id))
        × (get d "provider_id" ≡ some (str "local"))
        × (get d "account_id" ≡ some (str identifier))
        × (get d "provider_type" ≡ some (str "credential"))
        × (get d "password" ≡ some (str hash))
        × (w'.db ≡ (ia.adapter.create "accounts" d w.db).1)
  unfolding create_credential_account
  create_credential_account_row user_id identifier hash w w' a h =
      let written = credential_account_data user_id identifier hash (w.clock 0) in
      let (id, v, run, db) = with_id_run ia written (read_clock w).1 in
      let d = identified id written in
      (
        d,
        ground (arith, laws.create_result "accounts" d w.db),
        (unfold credential_account_data get in get-identified id _ "user_id" refl),
        (unfold credential_account_data get in get-identified id _ "provider_id" refl),
        (unfold credential_account_data get in get-identified id _ "account_id" refl),
        (unfold credential_account_data get in get-identified id _ "provider_type" refl),
        (unfold credential_account_data get in get-identified id _ "password" refl),
        ground (arith, laws.create_result "accounts" d w.db),
      )

  -- Over an adapter that meets the contract, the user that CreateUser returns has the address and
  -- the name that were given, and is what FindUserByEmail finds afterwards, if the address was
  -- free.
  pub create_user-find :
      (email name : String) (w w' : World S R) (u : User)
      → (find_user_by_email ia email w).0 ≡ err user_not_found
      → create_user ia email name w ≡ (ok u, w')
      → ((find_user_by_email ia email w').0 ≡ ok u) × (u.email ≡ email) × (u.name ≡ name)
  create_user-find email name w w' u free h =
      let (d, from, mail, called, db) = create_user_row email name w w' u h in
      (
        ground (
          arith,
          find_by_email_run email w,
          find_by_email_run email w',
          first_row-create ia laws "users" (user_query "email" email).clauses d w.db
              (matches_one ia laws d "email" email mail),
        ),
        ground (arith, mapped_email d mail),
        ground (arith, mapped_name d called),
      )

  -- Over an adapter that meets the contract, the account that CreateCredentialAccount returns has
  -- the given password hash, and is what FindAccountByProvider finds afterwards for the provider
  -- "local" and the identifier, if the identifier was free there.
  pub create_credential_account-find :
      (user_id identifier hash : String) (w w' : World S R) (a : Account)
      → (find_account_by_provider ia "local" identifier w).0 ≡ ok none
      → create_credential_account ia user_id identifier hash w ≡ (ok a, w')
      → ((find_account_by_provider ia "local" identifier w').0 ≡ ok (some a)) × (a.password ≡ hash)
  unfolding find_account_by_provider
  create_credential_account-find user_id identifier hash w w' a free h =
      let (d, from, owner, provider, account, kind, password, db) =
        create_credential_account_row user_id identifier hash w w' a h in
      (
        ground (
          arith,
          laws.find_one_run (account_query "local" identifier) w.db,
          laws.find_one_run (account_query "local" identifier) w'.db,
          first_row-create ia laws "accounts" (account_query "local" identifier).clauses d w.db (
              matches_two ia laws d "provider_id" "account_id" "local" identifier provider account),
        ),
        ground (arith, mapped_password d password),
      )

  -- Over an adapter that meets the contract, the verification that a successful CreateVerification
  -- returns carries no value: the row that is written keeps the token under "token", and what is
  -- read back is the field "value".
  pub create_verification-value :
      (identifier kind : String) (expires_in : ℤ) (w w' : World S R) (x : Verification)
      → create_verification ia identifier kind expires_in w ≡ (ok x, w')
      → x.value ≡ ""
  unfolding create_verification random_token
  create_verification-value identifier kind expires_in w w' x h =
      elim (Option-cases (w.entropy 0)) [
        | inl e ↦ absurd (ground arith)
        | inr (f, e) ↦
            let written =
              verification_data identifier kind (base64_url (take_bytes 32 f)) (w.clock 0)
                expires_in in
            let (id, v, run, db) = with_id_run ia written (read_clock (read_random w).1).1 in
            let d = identified id written in
            let missing : get d "value" ≡ none =
              unfold verification_data get in get-identified id _ "value" refl in
            ground (arith, laws.create_result "verifications" d w.db, mapped_value d missing)
      ]
