-- ===== src/Core/Types.antt =====
-- core/types.go and core/errors.go: users, sessions, accounts, verifications, and errors as values.
use beacon_auth.Prelude.{◌≡◌, refl, ◌⊎◌, inl, inr, String, Bool, Option, ℤ}
use beacon_auth.Core.Value.{Time, Record}

-- The two errors that callers compare with, and every other error by its text.
pub data Error : Type 0 where
  user_not_found session_not_found : Error
  failed : String → Error

pub data Result {ℓ} (A : Type ℓ) : Type ℓ where
  ok : A → Result A
  err : Error → Result A

-- To split on a result and keep the equation.
pub Result-cases {ℓ} :
    {A : Type ℓ} (r : Result A) → ((a : A) × (r ≡ ok a)) ⊎ ((e : Error) × (r ≡ err e))
Result-cases (ok a) = inl (a, refl)
Result-cases (err e) = inr (e, refl)

-- What a function that returns only an error returns.
abbrev pub Done : Type 0
Done = Result Unit

pub record User : Type 0 where
  pub id : String
  pub email : String
  pub email_verified : Bool
  pub name : String
  pub image : String
  pub two_factor_enabled : Bool
  pub created_at : Time
  pub updated_at : Time
  pub role : String
  pub banned : Bool
  pub ban_reason : String
  pub ban_expires : Option Time
  pub metadata : Record

pub record Session : Type 0 where
  pub id : String
  pub user_id : String
  pub token : String
  pub expires_at : Time
  pub ip_address : String
  pub user_agent : String
  pub created_at : Time
  pub updated_at : Time
  pub impersonated_by : String
  pub metadata : Record

pub record Account : Type 0 where
  pub id : String
  pub user_id : String
  pub account_id : String
  pub provider_id : String
  pub provider_type : String
  pub password : String
  pub access_token : String
  pub refresh_token : String
  pub access_token_expires_at : Option Time
  pub refresh_token_expires_at : Option Time
  pub scope : String
  pub id_token : String
  pub created_at : Time
  pub updated_at : Time
  pub metadata : Record

pub record Verification : Type 0 where
  pub id : String
  pub identifier : String
  pub value : String
  pub expires_at : Time
  pub created_at : Time
  pub updated_at : Time

pub record SessionOptions : Type 0 where
  pub user : Option User
  pub ip_address : String
  pub user_agent : String
  pub remember_me : Bool
  pub expires_in : Option ℤ
