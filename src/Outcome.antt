-- ===== src/Outcome.antt =====
-- What a call of the executor (crates/prehnitedb/src/engine/executor.rs) ends in: a value, an `Err`,
-- or a panic, which is an `unreachable!` that is reached or an index out of range.
use prehnite_db.Prelude.{
  ℕ, zero, suc, ◌<◌, ◌≡◌, refl, List, [], ◌∷◌, Error, Result, ok, err, length, arith,
}

pub data Outcome {ℓ} (A : Type ℓ) : Type ℓ where
  returns : A → Outcome A
  raises : Error → Outcome A
  panics : Outcome A

infixl 5 ◌>>=◌
abbrev pub ◌>>=◌ {ℓ κ} :
    {A : Type ℓ} {Target : Type κ} → Outcome A → (A → Outcome Target) → Outcome Target
returns value >>= next = next value
raises fault >>= next = raises fault
panics >>= next = panics

-- The `?` on a `Result`.
abbrev pub try {ℓ} : {A : Type ℓ} → Result A → Outcome A
try (ok a) = returns a
try (err e) = raises e

-- `xs[i]`
abbrev pub index {ℓ} : {A : Type ℓ} → List A → ℕ → Outcome A
index [] i = panics
index (x ∷ xs) zero = returns x
index (x ∷ xs) (suc i) = index xs i

pub >>=-eq-returns {ℓ κ} :
    {A : Type ℓ} {B : Type κ} (m : Outcome A) (f : A → Outcome B) {b : B}
    → (m >>= f) ≡ returns b
    → (a : A) × (m ≡ returns a) × (f a ≡ returns b)
>>=-eq-returns (returns a) f h = (a, refl, h)
>>=-eq-returns (raises e) f h = cc
>>=-eq-returns panics f h = cc

pub try-eq-returns {ℓ} : {A : Type ℓ} (r : Result A) {a : A} → try r ≡ returns a → r ≡ ok a
try-eq-returns (ok a) h = cc
try-eq-returns (err e) h = cc

pub index-lt {ℓ} :
    {A : Type ℓ} (xs : List A) (i : ℕ) → i < length xs → (a : A) × (index xs i ≡ returns a)
index-lt [] i h = absurd (omega arith)
index-lt (x ∷ xs) zero h = (x, refl)
index-lt (x ∷ xs) (suc i) h = index-lt xs i (omega arith)

pub returns_inj {ℓ} : {A : Type ℓ} {a b : A} → returns a ≡ returns b → a ≡ b
returns_inj h = cc
