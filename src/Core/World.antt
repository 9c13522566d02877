-- ===== src/Core/World.antt =====
-- The state that an operation passes along: the database, the cache, the readings of the clock that
-- are still to come, and the random draws that are still to come (`none`: rand.Read fails).
use beacon_auth.Prelude.{◌≡◌, refl, arith, ℕ, suc, String, Option}
use beacon_auth.Core.Value.{Time}
use beacon_auth.Core.Types.{Error, failed, Result, ok, err}
use beacon_auth.Core.Query.{Op}

pub record World (S R : Type 0) : Type 0 where
  pub db : S
  pub cache : R
  pub clock : ℕ → Time
  pub entropy : ℕ → Option (ℕ → ℕ)

-- An operation that may fail. What it wrote before it failed stays written.
abbrev pub Act : Type 0 → Type 0 → Type 0 → Type 0
Act S R A = World S R → Result A × World S R

module _ {S R A : Type 0} where
  abbrev pub pure : A → Act S R A
  pure a w = (ok a, w)

  abbrev pub fail : Error → Act S R A
  fail e w = (err e, w)

  -- An operation of the database adapter.
  abbrev pub on_db : Op S A → Act S R A
  on_db op w = let (r, s) = op w.db in (r, record w { db = s })

  -- An operation of the cache.
  abbrev pub on_cache : Op R A → Act S R A
  on_cache op w = let (r, c) = op w.cache in (r, record w { cache = c })

-- `fmt.Errorf("text: %w", err)`: another error, of which the text is kept.
abbrev pub relabel {ℓ} : {A : Type ℓ} → String → Result A → Result A
relabel text (ok a) = ok a
relabel text (err e) = err (failed text)

module _ {S R A : Type 0} where
  abbrev pub wrap : String → Act S R A → Act S R A
  wrap text m w = let (r, w') = m w in (relabel text r, w')

module _ {S R A B : Type 0} where
  abbrev pub continue : Result A → (A → Act S R B) → Act S R B
  continue (ok a) f w = f a w
  continue (err e) f w = (err e, w)

  infixl 5 ◌>>=◌ ◌>>◌
  abbrev pub ◌>>=◌ : Act S R A → (A → Act S R B) → Act S R B
  ◌>>=◌ m f w = let (r, w') = m w in continue r f w'

  abbrev pub ◌>>◌ : Act S R A → Act S R B → Act S R B
  m >> k = m >>= λ _. k

module _ {S R : Type 0} where
  -- time.Now
  abbrev pub read_clock : World S R → Time × World S R
  read_clock w = (w.clock 0, record w { clock = λ n. w.clock (suc n) })

  abbrev pub now : Act S R Time
  now w = let (t, w') = read_clock w in (ok t, w')

  -- rand.Read into a buffer: the bytes by index
  abbrev pub read_random : World S R → Option (ℕ → ℕ) × World S R
  read_random w = (w.entropy 0, record w { entropy = λ n. w.entropy (suc n) })

module _ {S R A B : Type 0} where
  continue-ok :
      (r : Result A) (f : A → Act S R B) (w : World S R) (b : B) (v : World S R)
      → continue r f w ≡ (ok b, v)
      → (a : A) × (r ≡ ok a) × (f a w ≡ (ok b, v))
  continue-ok (ok a) f w b v h = (a, refl, h)
  continue-ok (err e) f w b v h = absurd (ground arith)

  -- A chain that succeeds has a first step that succeeds, and goes on from where that ends.
  pub bind-ok :
      (m : Act S R A) (f : A → Act S R B) (w : World S R) (b : B) (v : World S R)
      → (m >>= f) w ≡ (ok b, v)
      → (a : A) × ((m w).0 ≡ ok a) × (f a (m w).1 ≡ (ok b, v))
  bind-ok m f w b v h = continue-ok (m w).0 f (m w).1 b v h

relabel-ok : {A : Type 0} (text : String) (r : Result A) (a : A) → relabel text r ≡ ok a → r ≡ ok a
relabel-ok text (ok x) a h = h
relabel-ok text (err e) a h = absurd (ground arith)

module _ {S R A : Type 0} where
  pub wrap-ok :
      (text : String) (m : Act S R A) (w : World S R) (a : A)
      → (wrap text m w).0 ≡ ok a
      → (m w).0 ≡ ok a
  wrap-ok text m w a h = relabel-ok text (m w).0 a h
