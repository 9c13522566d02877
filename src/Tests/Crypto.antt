-- ===== src/Tests/Crypto.antt =====
-- crypto/hash.go with a derivation and an encoding that stand in for Argon2 and base64.
use Prim.Native.Char.{code}
use beacon_auth.Prelude.{
  ℕ, zero, suc, ◌+◌, String, ◌≡◌, refl, ap, ◌∙◌, true, some, List, [], ◌∷◌, length, nat_eq,
  if◌then◌else◌, arith,
}
use beacon_auth.Core.Types.{Result, ok, err}
use beacon_auth.Core.Split.{lacks}
use beacon_auth.Crypto.{Primitives, new_argon2_hasher, hash, verify}
use beacon_auth.Crypto.Hashed.{IsDerived, verify-hash, verify-IsDerived}
use beacon_auth.Tests.World.{taken}

-- Each number as so many "a", and a "b".
abbrev tally : ℕ → String → String
tally zero s = String.◌∷◌ "b" s
tally (suc n) s = String.◌∷◌ "a" (tally n s)

abbrev tallies : List ℕ → String
tallies [] = ""
tallies (n ∷ ns) = tally n (tallies ns)

abbrev with_first : ℕ → Result (List ℕ) → Result (List ℕ)
with_first n (ok ns) = ok (n ∷ ns)
with_first n (err e) = err e

abbrev count_up : ℕ → String → Result (List ℕ)
count_up n String.[] = ok []
count_up n (String.◌∷◌ c s) =
    let done = count_up 0 s in
    let more = count_up (suc n) s in if nat_eq (code c) b'b' then with_first n done else more

count_up-tally : (m n : ℕ) (s : String) → count_up m (tally n s) ≡ with_first (m + n) (count_up 0 s)
count_up-tally m zero s = ap (λ k. with_first k (count_up 0 s)) (omega arith)
count_up-tally m (suc n) s =
    count_up-tally (suc m) n s ∙ ap (λ k. with_first k (count_up 0 s)) (omega arith)

count_up-tallies : (ns : List ℕ) → count_up 0 (tallies ns) ≡ ok ns
count_up-tallies [] = refl
count_up-tallies (n ∷ ns) =
    count_up-tally 0 n (tallies ns)
    ∙ ap (with_first (0 + n)) (count_up-tallies ns)
    ∙ ap (λ k. ok (k ∷ ns)) (omega arith)

tally-lacks : (n : ℕ) (s : String) → lacks b'$' s ≡ true → lacks b'$' (tally n s) ≡ true
tally-lacks zero s h = h
tally-lacks (suc n) s h = tally-lacks n s h

tallies-lacks : (ns : List ℕ) → lacks b'$' (tallies ns) ≡ true
tallies-lacks [] = refl
tallies-lacks (n ∷ ns) = tally-lacks n (tallies ns) (tallies-lacks ns)

-- As many bytes as asked for.
abbrev fill : ℕ → List ℕ
fill zero = []
fill (suc n) = 1 ∷ fill n

length-fill : (n : ℕ) → length (fill n) ≡ n
length-fill zero = refl
length-fill (suc n) = ap suc (length-fill n)

abbrev primitives : Primitives
primitives = record { base64 = tallies; unbase64 = count_up 0; id_key = λ p s t m j n. fill n }

abbrev encoded : String
encoded = taken (hash primitives new_argon2_hasher "secret" (some (λ i. i))) ""

verify-hash_example : verify primitives "secret" encoded ≡ ok true
unfolding hash
verify-hash_example =
    verify-hash primitives "secret" encoded (some (λ i. i)) count_up-tallies tallies-lacks
      (λ p s t m j n. length-fill n) refl

verify-IsDerived_example : IsDerived primitives "secret" "$argon2id$v=19$m=65536,t=3,p=2$ab$ab"
unfolding verify beacon_auth.Core.Split.split_at beacon_auth.Crypto.Scan.scan_version
    beacon_auth.Crypto.Scan.scan_parameters
verify-IsDerived_example =
    verify-IsDerived primitives "secret" "$argon2id$v=19$m=65536,t=3,p=2$ab$ab" refl
