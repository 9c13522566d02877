-- ===== src/Plugins/EmailPassword/LoggedIn.antt =====
-- plugins/emailpassword/emailpassword.go: who is logged in.
use beacon_auth.Prelude.{◌≡◌, refl, true, Option, some, arith, Bool-cases, Option-cases, inl, inr}
use beacon_auth.Core.Types.{Result, Result-cases, ok, err, User, Account}
use beacon_auth.Core.World.{World}
use beacon_auth.Internal.{find_user_by_email, find_account_by_provider}
use beacon_auth.Plugins.Context.{AuthContext}
use beacon_auth.Plugins.EmailPassword.{
  LoginRequest, handle_login, create_session_and_response, found_or_nil,
}

module _ {S R : Type 0} (p : AuthContext S R) where
  -- handleLogin answers 200 only to a request that can be read, of an address with a local account
  -- whose stored hash accepts the password, and then with a session of that account's user: its answer
  -- is that of createSessionAndResponse for the user.
  pub handle_login_sound :
      (body : Result LoginRequest) (w : World S R)
      → (handle_login p body w).0.status ≡ 200
      → (q : LoginRequest) × (a : Account) × (u : Option User) × (v : World S R) × (body ≡ ok q)
        × ((find_account_by_provider p.data_manager "local" q.email w).0 ≡ ok (some a))
        × (p.hasher.verify q.password a.password ≡ ok true)
        × (handle_login p body w ≡ create_session_and_response p a.user_id u v)
  unfolding handle_login
  handle_login_sound (err e) w h = absurd (ground arith)
  handle_login_sound (ok q) w h =
      elim (Result-cases (find_account_by_provider p.data_manager "local" q.email w).0) [
        | inr (e, f) ↦ absurd (ground arith)
        | inl (o, f) ↦ elim (Option-cases o) [
          | inl n ↦ absurd (ground arith)
          | inr (a, n) ↦ elim (Result-cases (p.hasher.verify q.password a.password)) [
            | inr (e, v) ↦ absurd (ground arith)
            | inl (b, v) ↦ elim (Bool-cases b) [
              | inr no_match ↦ absurd (ground arith)
              | inl fits ↦
                  (let after = (find_account_by_provider p.data_manager "local" q.email w).1 in
                    (
                      q,
                      a,
                      found_or_nil p (find_user_by_email p.data_manager q.email after).0,
                      (find_user_by_email p.data_manager q.email after).1,
                      refl,
                      ground arith,
                      ground arith,
                      ground arith,
                    ))
            ]
          ]
        ]
      ]
