-- ===== src/Core/Encoding.antt =====
-- encoding/base64 and the UTF-8 bytes of a string, as far as tokens and identifiers use them.
use Prim.Native.Char.{code}
use Prim.Native.String.{slice}
use beacon_auth.Prelude.{
  ℕ, zero, suc, ◌+◌, ◌*◌, ◌/◌, ◌%◌, String, str_append, List, [], ◌∷◌, ◌++◌, ltb, if◌then◌else◌,
}

-- The first `n` bytes of a buffer that rand.Read has filled.
unfoldable pub take_bytes : ℕ → (ℕ → ℕ) → List ℕ
take_bytes zero f = []
take_bytes (suc n) f = f 0 % 256 ∷ take_bytes n (λ i. f (suc i))

abbrev url_alphabet : String
url_alphabet = "ABCDEFGHIJKLMNOPQRSTUVWXYZabcdefghijklmnopqrstuvwxyz0123456789-_"

abbrev sextet : ℕ → String
sextet n = slice url_alphabet n (n + 1)

-- base64.URLEncoding.EncodeToString
unfoldable pub base64_url : List ℕ → String
base64_url [] = ""
base64_url (a ∷ []) = str_append (sextet (a / 4)) (str_append (sextet (a % 4 * 16)) "==")
base64_url (a ∷ b ∷ []) =
    str_append (sextet (a / 4))
      (str_append (sextet (a % 4 * 16 + b / 16)) (str_append (sextet (b % 16 * 4)) "="))
base64_url (a ∷ b ∷ c ∷ rest) = str_append (sextet (a / 4)) (
    str_append (sextet (a % 4 * 16 + b / 16))
      (str_append (sextet (b % 16 * 4 + c / 64)) (str_append (sextet (c % 64)) (base64_url rest))))

utf8 : ℕ → List ℕ
utf8 c =
    if ltb c 128
    then c ∷ []
    else if ltb c 2048
    then (192 + c / 64) ∷ (128 + c % 64) ∷ []
    else if ltb c 65536
    then (224 + c / 4096) ∷ (128 + c / 64 % 64) ∷ (128 + c % 64) ∷ []
    else (240 + c / 262144) ∷ (128 + c / 4096 % 64) ∷ (128 + c / 64 % 64) ∷ (128 + c % 64) ∷ []

-- `[]byte(s)`
unfoldable pub string_bytes : String → List ℕ
unfolding utf8
string_bytes String.[] = []
string_bytes (String.◌∷◌ c s) = utf8 (code c) ++ string_bytes s
