-- ===== src/Sql/Digits.antt =====
-- Printed numbers and the arguments of a row in the statements of the SQL adapters.
use beacon_auth.Prelude.{
  ℕ, zero, suc, ◌/◌, ◌%◌, ◌≡◌, ◌<◌, refl, ap, [], ◌∷◌, length, ltb, ℤ, pos, negsuc, arith,
  Bool-cases, inl, inr,
}
use beacon_auth.Core.Value.{Record, itoa, decimal_loop, digit}
use beacon_auth.Sql.Text.{marks, marks-append}
use beacon_auth.Sql.Build.{values}

-- A digit is no question mark.
marks-digit : (d : ℕ) → d < 10 → marks (digit d) ≡ 0
unfolding marks
marks-digit zero h = refl
marks-digit (suc zero) h = refl
marks-digit (suc (suc zero)) h = refl
marks-digit (suc (suc (suc zero))) h = refl
marks-digit (suc (suc (suc (suc zero)))) h = refl
marks-digit (suc (suc (suc (suc (suc zero))))) h = refl
marks-digit (suc (suc (suc (suc (suc (suc zero)))))) h = refl
marks-digit (suc (suc (suc (suc (suc (suc (suc zero))))))) h = refl
marks-digit (suc (suc (suc (suc (suc (suc (suc (suc zero)))))))) h = refl
marks-digit (suc (suc (suc (suc (suc (suc (suc (suc (suc zero))))))))) h = refl
marks-digit (suc (suc (suc (suc (suc (suc (suc (suc (suc (suc d)))))))))) h = absurd (omega arith)

marks-decimal : (fuel n : ℕ) → marks (decimal_loop fuel n) ≡ 0
unfolding decimal_loop marks
marks-decimal zero n = refl
marks-decimal (suc fuel) n = elim (Bool-cases (ltb n 10)) [
  | inl h ↦ rw h (marks-digit n (ground arith))
  | inr h ↦ rw h (
      omega (
        arith,
        marks-append (decimal_loop fuel (n / 10)) (digit (n % 10)),
        marks-decimal fuel (n / 10),
        marks-digit (n % 10) (omega arith),
      ))
]

pub marks-itoa : (n : ℤ) → marks (itoa n) ≡ 0
unfolding itoa marks
marks-itoa (pos n) = marks-decimal 20 n
marks-itoa (negsuc n) =
    omega (arith, marks-append "-" (decimal_loop 20 (suc n)), marks-decimal 20 (suc n))

-- A row has as many values as fields.
pub length-values : (d : Record) → length (values d) ≡ length d
length-values [] = refl
length-values (p ∷ d) = ap suc (length-values d)
