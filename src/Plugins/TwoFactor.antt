-- ===== src/Plugins/TwoFactor.antt =====
-- plugins/twofa/twofa.go: enrolment, verification and the backup codes. The TOTP library and the hexadecimal
-- form of bytes are parameters. A type assertion that fails is a panic, on which the server drops the
-- connection: the answer `aborted` with status 0.
pub mod Codes
pub mod Verified
use beacon_auth.Prelude.{
  ℕ, zero, suc, String, str_append, Bool, true, false, not, ◌&&◌, ◌||◌, Option, none, some, List,
  [], ◌∷◌, is_some, ◌==◌, if◌then◌else◌,
}
use beacon_auth.Prelude.Dict.{get, put}
use beacon_auth.Core.Value.{Time, Value, str, bool, time, Record}
use beacon_auth.Core.Types.{Error, failed, Result, Done, ok, err, User, Session}
use beacon_auth.Core.Query.{op_equal, Query, clause, query}
use beacon_auth.Core.World.{
  World, Act, pure, fail, on_db, continue, ◌>>=◌, ◌>>◌, read_clock, now, read_random,
}
use beacon_auth.Core.Encoding.{take_bytes}
use beacon_auth.Internal.{Lookup, find_user_by_email, update_user}
use beacon_auth.Session.Manager
use beacon_auth.Auth.Http.{SameSite, lax, strict, none_mode}
use beacon_auth.Plugins.FactorRows.{
  secret_query, codes_query, code_query, unused_query, secret_data, backup_data, used_data,
  continue_codes, text_of, flag_of, existing, save_secret, get_secret, check_backup_code,
  consume_backup_code,
}
use beacon_auth.Plugins.Context.{
  AuthContext, SetCookie, session_cookie, Content, success, enrolment, verified_json, aborted,
  Answer, http_error, new_session_cookie,
}

-- github.com/pquerna/otp/totp: `generate` makes a secret and its URI for an issuer and an account from
-- random bytes, `validate` checks a code against a secret at a time. `to_hex` is hex.EncodeToString.
pub record Totp : Type 0 where
  pub generate : String → String → Option (ℕ → ℕ) → Result (String × String)
  pub validate : String → String → Time → Bool
  pub to_hex : List ℕ → String

pub record EnableRequest : Type 0 where
  pub secret : String
  pub code : String

pub record VerifyRequest : Type 0 where
  pub email : String
  pub code : String

abbrev pub panicked : Answer
panicked = record { status = 0; cookies = []; content = aborted }

abbrev pub written : Content → Answer
written c = record { status = 200; cookies = []; content = c }

module _ {S R : Type 0} (p : AuthContext S R) where
  -- getSession
  abbrev pub session_user : String → Option String → World S R → Option User × World S R
  session_user name none w = (none, w)
  session_user name (some token) w =
      let (f, w') = Manager.get p.session_manager token w in (f.user, w')

  unfoldable pub get_session_user : (String → Option String) → World S R → Option User × World S R
  get_session_user cookie w = session_user p.session.cookie_name (cookie p.session.cookie_name) w

  -- `auth`, in front of a handler
  abbrev pub with_session :
      (World S R → Answer × World S R) → Lookup × World S R → Answer × World S R
  with_session next (f, w) = elim f.error [
    | some e ↦ (http_error "Unauthorized" 401, w)
    | none ↦ elim f.session [ none ↦ (http_error "Unauthorized" 401, w) | some s ↦ next w ]
  ]

  abbrev pub with_token :
      (World S R → Answer × World S R) → Option String → World S R → Answer × World S R
  with_token next none w = (http_error "Unauthorized" 401, w)
  with_token next (some token) w = with_session next (Manager.get p.session_manager token w)

  unfoldable pub auth :
      (World S R → Answer × World S R) → (String → Option String) → World S R → Answer × World S R
  auth next cookie w = with_token next (cookie p.session.cookie_name) w

  -- handleDisable
  abbrev pub disabled : Option User → World S R → Answer × World S R
  disabled none w = (http_error "Unauthorized" 401, w)
  disabled (some user) w =
      let (r₁, w₁) = on_db (p.adapter.delete (secret_query user.id)) w in
      let (r₂, w₂) = on_db (p.adapter.delete_many (codes_query user.id)) w₁ in
      let (r₃, w₃) =
        update_user p.data_manager user.id (("two_factor_enabled", bool false) ∷ []) w₂ in
      (written success, w₃)

  unfoldable pub handle_disable : (String → Option String) → World S R → Answer × World S R
  handle_disable cookie w = let (user, w') = get_session_user cookie w in disabled user w'

  module _ (totp : Totp) where
    -- generateBackupCodes: the codes that are left to make, and those that are there.
    unfoldable pub generate_backup_codes : ℕ → String → Act S R (List String)
    generate_backup_codes zero user_id w = (ok [], w)
    generate_backup_codes (suc n) user_id w =
        let (bytes, w₁) = read_random w in
        elim bytes [
          | none ↦ (err (failed "rand"), w₁)
          | some f ↦
              (let code = totp.to_hex (take_bytes 4 f) in
                let (t, w₂) = read_clock w₁ in
                let (r, w₃) =
                  on_db (p.adapter.create "two_factor_backup_codes" (backup_data user_id code t))
                    w₂ in
                continue_codes code (generate_backup_codes n user_id w₃))
        ]

    -- handleGenerate: an error of the backup codes leaves them out of the answer.
    abbrev pub codes_or_none : Result (List String) → List String
    codes_or_none (ok codes) = codes
    codes_or_none (err e) = []

    abbrev pub saved : String → String → List String → Done × World S R → Answer × World S R
    saved secret uri codes (err e, w) = (http_error "Failed to save secret" 500, w)
    saved secret uri codes (ok u, w) = (written (enrolment secret uri codes), w)

    abbrev pub with_key : User → Result (String × String) → World S R → Answer × World S R
    with_key user (err e) w = (http_error "Failed to generate TOTP" 500, w)
    with_key user (ok (secret, uri)) w =
        let (codes, w₁) = generate_backup_codes 10 user.id w in
        saved secret uri (codes_or_none codes) (save_secret p user.id secret false w₁)

    abbrev pub generated : Option User → World S R → Answer × World S R
    generated none w = (http_error "Unauthorized" 401, w)
    generated (some user) w =
        let (bytes, w₁) = read_random w in
        with_key user (totp.generate p.app_name user.email bytes) w₁

    unfoldable pub handle_generate : (String → Option String) → World S R → Answer × World S R
    handle_generate cookie w = let (user, w') = get_session_user cookie w in generated user w'

    -- handleEnable once the code is valid.
    abbrev pub confirmed : User → Done × World S R → Answer × World S R
    confirmed user (err e, w) = (http_error "Internal error" 500, w)
    confirmed user (ok u, w) =
        let (r, w') =
          update_user p.data_manager user.id (("two_factor_enabled", bool true) ∷ []) w in
        (written success, w')

    abbrev pub check_code : String → User → Option String → World S R → Answer × World S R
    check_code code user none w = (panicked, w)
    check_code code user (some secret) w =
        let (t, w') = read_clock w in
        if totp.validate code secret t
        then confirmed user (save_secret p user.id secret true w')
        else (http_error "Invalid code" 401, w')

    abbrev pub with_pending :
        String → User → Result (Option Record) × World S R → Answer × World S R
    with_pending code user (err e, w) = (http_error "No pending 2FA setup found" 400, w)
    with_pending code user (ok none, w) = (http_error "No pending 2FA setup found" 400, w)
    with_pending code user (ok (some r), w) = check_code code user (text_of (get r "secret")) w

    abbrev pub enabled : String → Option User → World S R → Answer × World S R
    enabled code none w = (http_error "Unauthorized" 401, w)
    enabled code (some user) w = with_pending code user (get_secret p user.id w)

    unfoldable pub handle_enable :
        Result EnableRequest → (String → Option String) → World S R → Answer × World S R
    handle_enable (err e) cookie w = (http_error "Invalid request" 400, w)
    handle_enable (ok q) cookie w =
        let (user, w') = get_session_user cookie w in enabled q.code user w'

  -- `parseSameSite`
  unfoldable pub parse_same_site : String → SameSite
  parse_same_site s =
      let t = p.to_lower s in
      if t == "lax"
      then lax
      else if t == "strict"
      then strict
      else if t == "none"
      then none_mode
      else lax

  -- The end of handleVerify: a full session.
  abbrev pub verified_answer :
      User → Result (Session × Option User × String) × World S R → Answer × World S R
  verified_answer user (err e, w) = (http_error "Failed to create session" 500, w)
  verified_answer user (ok (s, u, token), w) =
      let (cookie, w') =
        new_session_cookie p (parse_same_site p.session.cookie_same_site) token w in
      (
        record { status = 200; cookies = session_cookie cookie ∷ []; content = verified_json user },
        w',
      )

  unfoldable pub start_session : User → World S R → Answer × World S R
  start_session user w = verified_answer user (Manager.create p.session_manager user.id none w)

  -- A code that is no TOTP code.
  abbrev pub try_backup : String → User → Bool × World S R → Answer × World S R
  try_backup code user (false, w) = (http_error "Invalid code" 401, w)
  try_backup code user (true, w) = start_session user (consume_backup_code p user.id code w).1

  module _ (totp : Totp) where
    abbrev pub verify_code : String → User → Option String → World S R → Answer × World S R
    verify_code code user none w = (http_error "Invalid 2FA configuration" 500, w)
    verify_code code user (some secret) w =
        let (t, w') = read_clock w in
        if totp.validate code secret t
        then start_session user w'
        else try_backup code user (check_backup_code p user.id code w')

    abbrev pub with_secret : String → User → Result (Option Record) × World S R → Answer × World S R
    with_secret code user (err e, w) = (http_error "2FA not configured" 400, w)
    with_secret code user (ok none, w) = (http_error "2FA not configured" 400, w)
    with_secret code user (ok (some r), w) =
        if flag_of (get r "confirmed")
        then verify_code code user (text_of (get r "secret")) w
        else (http_error "2FA not confirmed" 400, w)

    abbrev pub with_user : String → Result User × World S R → Answer × World S R
    with_user code (err e, w) = (http_error "Invalid credentials" 401, w)
    with_user code (ok user, w) =
        if user.two_factor_enabled
        then with_secret code user (get_secret p user.id w)
        else (http_error "2FA not enabled for this user" 400, w)

    abbrev pub verify_body : Result VerifyRequest → World S R → Answer × World S R
    verify_body (err e) w = (http_error "Invalid request" 400, w)
    verify_body (ok q) w =
        if q.email == "" || q.code == ""
        then (http_error "Email and code are required" 400, w)
        else with_user q.code (find_user_by_email p.data_manager q.email w)

    unfoldable pub handle_verify : Result VerifyRequest → World S R → Answer × World S R
    handle_verify body w = verify_body body w
