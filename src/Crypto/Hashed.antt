-- ===== src/Crypto/Hashed.antt =====
-- crypto/hash.go: Verify accepts the password that Hash was given, and what else it may accept.
use Prim.Native.String.append
use beacon_auth.Prelude.{
  ℕ, String, str_append, ◌≡◌, refl, ap, ◌∙◌, true, Option, none, some, List, [], ◌∷◌, arith, length,
  ◌==◌, eq_iff, Bool-cases, Option-cases, inl, inr,
}
use beacon_auth.Core.Value.{itoa}
use beacon_auth.Core.Types.{Result-cases, ok}
use beacon_auth.Core.Encoding.{take_bytes, string_bytes}
use beacon_auth.Core.Split.{split_at, split-append, split-lacks, lacks}
use beacon_auth.Crypto.{
  Primitives, new_argon2_hasher, encode, derive, hash, verify, verify_parts, same_bytes,
}
use beacon_auth.Crypto.Scan.{scan_version, scan_parameters}

append_empty : (s : String) → str_append s "" ≡ s
append_empty String.[] = append.nil ""
append_empty (String.◌∷◌ c s) = append.cons c s "" ∙ ap (String.◌∷◌ c) (append_empty s)

same_bytes_refl : (bs : List ℕ) → same_bytes bs bs ≡ true
same_bytes_refl [] = refl
same_bytes_refl (b ∷ bs) = ground (arith, same_bytes_refl bs)

scanned_version : scan_version "v=19" ≡ some 19
unfolding scan_version
scanned_version = refl

scanned_parameters : scan_parameters "m=65536,t=3,p=2" ≡ some (65536, 3, 2)
unfolding scan_parameters
scanned_parameters = refl

module _ (k : Primitives) where
  -- The six parts of what Hash makes.
  split-encode :
      (salt stored : List ℕ)
      → lacks b'$' (k.base64 salt) ≡ true
      → lacks b'$' (k.base64 stored) ≡ true
      → split_at b'$' (encode k new_argon2_hasher salt stored)
        ≡ "" ∷ "argon2id" ∷ "v=19" ∷ "m=65536,t=3,p=2" ∷ k.base64 salt ∷ k.base64 stored ∷ []
  unfolding split_at itoa
  split-encode salt stored a b = rw (
    split-append,
    split-append,
    split-append,
    split-append,
    split-append,
    split-append,
    split-append,
    split-append,
    split-append,
    split-append,
    split-append,
    split-lacks b'$' (k.base64 salt) a,
    split-lacks b'$' (k.base64 stored) b,
    append.nil,
    append_empty,
    append.nil (k.base64 stored),
  )

  -- Verify accepts a password against what Hash has made of it: if decoding undoes the encoding of
  -- base64, which has no dollar, and a derived key is as long as it was asked to be.
  pub verify-hash :
      (password encoded : String) (salt : Option (ℕ → ℕ))
      → ((bs : List ℕ) → k.unbase64 (k.base64 bs) ≡ ok bs)
      → ((bs : List ℕ) → lacks b'$' (k.base64 bs) ≡ true)
      → ((p s : List ℕ) (t m j n : ℕ) → length (k.id_key p s t m j n) ≡ n)
      → hash k new_argon2_hasher password salt ≡ ok encoded
      → verify k password encoded ≡ ok true
  unfolding hash verify
  verify-hash password encoded none round no_dollar sized h = absurd (ground arith)
  verify-hash password encoded (some f) round no_dollar sized h =
      let salt = take_bytes 16 f in
      let stored = derive k new_argon2_hasher password salt in
      let made : encoded ≡ encode k new_argon2_hasher salt stored = ground arith in
      rw (made, split-encode salt stored (no_dollar salt) (no_dollar stored))
        (rw (scanned_version, scanned_parameters, round salt, round stored, sized)
          (ap ok (same_bytes_refl stored)))

  -- What an encoded hash says: the key in it is the one that Argon2 derives from a password with the
  -- salt and the parameters in it.
  pub record IsDerived (password encoded : String) : Type 0 where
    pub version : ℕ
    pub memory : ℕ
    pub iterations : ℕ
    pub parallelism : ℕ
    pub salt : List ℕ
    pub key : List ℕ
    pub head : String
    pub version_text : String
    pub parameters_text : String
    pub salt_text : String
    pub key_text : String
    pub parts :
        split_at b'$' encoded
        ≡ head ∷ "argon2id" ∷ version_text ∷ parameters_text ∷ salt_text ∷ key_text ∷ []
    pub version_read : scan_version version_text ≡ some version
    pub parameters_read : scan_parameters parameters_text ≡ some (memory, iterations, parallelism)
    pub salt_read : k.unbase64 salt_text ≡ ok salt
    pub key_read : k.unbase64 key_text ≡ ok key
    pub derived :
        key ≡ k.id_key (string_bytes password) salt iterations memory parallelism (length key)

  same_bytes_sound : (xs ys : List ℕ) → same_bytes xs ys ≡ true → xs ≡ ys
  same_bytes_sound [] [] h = refl
  same_bytes_sound [] (y ∷ ys) h = absurd (ground arith)
  same_bytes_sound (x ∷ xs) [] h = absurd (ground arith)
  same_bytes_sound (x ∷ xs) (y ∷ ys) h = ground (arith, same_bytes_sound xs ys)

  verify_parts-IsDerived :
      (password encoded : String) (ps : List String)
      → split_at b'$' encoded ≡ ps
      → verify_parts k password ps ≡ ok true
      → IsDerived password encoded
  verify_parts-IsDerived password encoded [] e h = absurd (ground arith)
  verify_parts-IsDerived password encoded (a ∷ []) e h = absurd (ground arith)
  verify_parts-IsDerived password encoded (a ∷ b ∷ []) e h = absurd (ground arith)
  verify_parts-IsDerived password encoded (a ∷ b ∷ c ∷ []) e h = absurd (ground arith)
  verify_parts-IsDerived password encoded (a ∷ b ∷ c ∷ d ∷ []) e h = absurd (ground arith)
  verify_parts-IsDerived password encoded (a ∷ b ∷ c ∷ d ∷ s ∷ []) e h = absurd (ground arith)
  verify_parts-IsDerived password encoded (a ∷ b ∷ c ∷ d ∷ s ∷ t ∷ []) e h =
      elim (Bool-cases (b == "argon2id")) [
        | inr n ↦ absurd (ground arith)
        | inl y ↦ elim (Option-cases (scan_version c)) [
          | inl n ↦ absurd (ground arith)
          | inr (v, hv) ↦ elim (Option-cases (scan_parameters d)) [
            | inl n ↦ absurd (ground arith)
            | inr ((m, i, p), hp) ↦ elim (Result-cases (k.unbase64 s)) [
              | inr (x, n) ↦ absurd (ground arith)
              | inl (salt, hs) ↦ elim (Result-cases (k.unbase64 t)) [
                | inr (x, n) ↦ absurd (ground arith)
                | inl (key, ht) ↦ record {
                  version = v;
                  memory = m;
                  iterations = i;
                  parallelism = p;
                  salt = salt;
                  key = key;
                  head = a;
                  version_text = c;
                  parameters_text = d;
                  salt_text = s;
                  key_text = t;
                  parts = e ∙ ap (λ z. a ∷ z ∷ c ∷ d ∷ s ∷ t ∷ []) ((eq_iff b "argon2id").0 y);
                  version_read = hv;
                  parameters_read = hp;
                  salt_read = hs;
                  key_read = ht;
                  derived = same_bytes_sound key _ (ground arith);
                }
              ]
            ]
          ]
        ]
      ]
  verify_parts-IsDerived password encoded (a ∷ b ∷ c ∷ d ∷ s ∷ t ∷ z ∷ zs) e h =
      absurd (ground arith)

  -- Verify accepts a password only against six parts between dollars, "argon2id" the second, with a
  -- version and parameters that can be read, and where the key in the last part is exactly the one that
  -- Argon2 derives from the password with the salt and the parameters in the other parts.
  pub verify-IsDerived :
      (password encoded : String) → verify k password encoded ≡ ok true → IsDerived password encoded
  unfolding verify
  verify-IsDerived password encoded h =
      verify_parts-IsDerived password encoded (split_at b'$' encoded) refl h
