-- ===== src/Session/Random.antt =====
-- session/manager.go: random identifiers and tokens.
use Prim.Native.String.{slice}
use beacon_auth.Prelude.{ℕ, ◌+◌, ◌%◌, String, str_append, none, some, List, [], ◌∷◌}
use beacon_auth.Core.Types.{failed, ok, err}
use beacon_auth.Core.World.{Act, read_random}
use beacon_auth.Core.Encoding.{take_bytes}

abbrev pub charset : String
charset = "abcdefghijklmnopqrstuvwxyzABCDEFGHIJKLMNOPQRSTUVWXYZ0123456789"

-- The loop of `generateRandomString` over the random bytes.
unfoldable pub charset_string : List ℕ → String
charset_string [] = ""
charset_string (b ∷ bs) = str_append (slice charset (b % 62) (b % 62 + 1)) (charset_string bs)

module _ {S R : Type 0} where
  unfoldable pub generate_random_string : ℕ → Act S R String
  generate_random_string n w =
      let (f, w') = read_random w in
      elim f [
        | none ↦ (err (failed "rand"), w')
        | some bytes ↦ (ok (charset_string (take_bytes n bytes)), w')
      ]

  abbrev pub generate_id : Act S R String
  generate_id = generate_random_string 16

  abbrev pub generate_token : Act S R String
  generate_token = generate_random_string 32
