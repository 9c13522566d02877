-- ===== src/Crypto.antt =====
-- crypto/hash.go: the encoded form of a password hash, and its check.
-- Argon2 and the decoding of base64 are the fields of `Primitives`.
pub mod Scan
pub mod Hashed
use beacon_auth.Prelude.{
  ℕ, String, str_append, Bool, true, false, ◌&&◌, Option, none, some, List, [], ◌∷◌, pos, length,
  nat_eq, ◌==◌, if◌then◌else◌,
}
use beacon_auth.Core.Value.{itoa}
use beacon_auth.Core.Types.{Error, failed, Result, ok, err}
use beacon_auth.Core.Encoding.{take_bytes, string_bytes}
use beacon_auth.Core.Split.{split_at}
use beacon_auth.Auth.{PasswordHasher}
use Scan.{scan_version, scan_parameters}

-- base64.RawStdEncoding, and argon2.IDKey with its arguments in order: the password, the salt, the
-- iterations, the memory, the parallelism and the length.
pub record Primitives : Type 0 where
  pub base64 : List ℕ → String
  pub unbase64 : String → Result (List ℕ)
  pub id_key : List ℕ → List ℕ → ℕ → ℕ → ℕ → ℕ → List ℕ

pub record Argon2Hasher : Type 0 where
  pub memory : ℕ
  pub iterations : ℕ
  pub parallelism : ℕ
  pub salt_length : ℕ
  pub key_length : ℕ

abbrev pub new_argon2_hasher : Argon2Hasher
new_argon2_hasher = record {
  memory = 65536;
  iterations = 3;
  parallelism = 2;
  salt_length = 16;
  key_length = 32;
}

abbrev argon2_version : ℕ
argon2_version = 19

abbrev shown : ℕ → String
shown n = itoa (pos n)

-- subtle.ConstantTimeCompare of equal lengths answers 1 for equal contents, and else 0.
abbrev pub same_bytes : List ℕ → List ℕ → Bool
same_bytes [] [] = true
same_bytes [] (b ∷ bs) = false
same_bytes (a ∷ rest) [] = false
same_bytes (a ∷ rest) (b ∷ bs) = nat_eq a b && same_bytes rest bs

module _ (k : Primitives) where
  -- The Sprintf of `Hash`.
  abbrev pub encode : Argon2Hasher → List ℕ → List ℕ → String
  encode h salt hash = str_append "$argon2id$v=" (
      str_append (shown argon2_version) (
        str_append "$m=" (
          str_append (shown h.memory) (
            str_append ",t=" (
              str_append (shown h.iterations) (
                str_append ",p=" (
                  str_append (shown h.parallelism) (
                    str_append "$"
                      (str_append (k.base64 salt) (str_append "$" (k.base64 hash)))))))))))

  abbrev pub derive : Argon2Hasher → String → List ℕ → List ℕ
  derive h password salt =
      k.id_key (string_bytes password) salt h.iterations h.memory h.parallelism h.key_length

  unfoldable pub hash : Argon2Hasher → String → Option (ℕ → ℕ) → Result String
  hash h password none = err (failed "failed to generate salt")
  hash h password (some f) =
      ok (encode h (take_bytes h.salt_length f) (derive h password (take_bytes h.salt_length f)))

  abbrev pub compare : String → ℕ × ℕ × ℕ → List ℕ → List ℕ → Bool
  compare password (memory, iterations, parallelism) salt stored =
      same_bytes stored
        (k.id_key (string_bytes password) salt iterations memory parallelism (length stored))

  -- `Verify` from the salt on.
  abbrev pub check_hash : String → ℕ × ℕ × ℕ → Result (List ℕ) → Result (List ℕ) → Result Bool
  check_hash password parameters (err e) stored = err (failed "invalid salt")
  check_hash password parameters (ok salt) (err e) = err (failed "invalid hash")
  check_hash password parameters (ok salt) (ok stored) =
      ok (compare password parameters salt stored)

  abbrev pub check_parameters :
      String → Option ℕ → Option (ℕ × ℕ × ℕ) → Result (List ℕ) → Result (List ℕ) → Result Bool
  check_parameters password none parameters salt stored = err (failed "invalid version")
  check_parameters password (some v) none salt stored = err (failed "invalid parameters")
  check_parameters password (some v) (some p) salt stored = check_hash password p salt stored

  abbrev pub verify_parts : String → List String → Result Bool
  verify_parts password (p0 ∷ p1 ∷ p2 ∷ p3 ∷ p4 ∷ p5 ∷ []) =
      if p1 == "argon2id"
      then check_parameters password (scan_version p2) (scan_parameters p3) (k.unbase64 p4)
          (k.unbase64 p5)
      else err (failed "unsupported algorithm")
  verify_parts password _ = err (failed "invalid hash format")

  unfoldable pub verify : String → String → Result Bool
  verify password encoded = verify_parts password (split_at b'$' encoded)

  abbrev pub argon2_hasher : PasswordHasher
  argon2_hasher = record { hash = hash new_argon2_hasher; verify = verify }
