-- ===== src/Prelude/Results.antt =====
-- crates/prehnitedb/src/error.rs: one constructor for each kind of fault. The text that a variant
-- carries is composed for a human reader and is left out.
use mathlib.Core.Path.{◌≡◌, refl}
use mathlib.Core.Logic.{◌⊎◌, inl, inr}

pub data Error : Type 0 where
  io corruption parse exec too_large exhausted protocol conflict serialization : Error

pub data Result {ℓ} (A : Type ℓ) : Type ℓ where
  ok : A → Result A
  err : Error → Result A

pub Result-cases {ℓ} :
    {A : Type ℓ} (result : Result A)
    → ((value : A) × (result ≡ ok value)) ⊎ ((fault : Error) × (result ≡ err fault))
Result-cases (ok value) = inl (value, refl)
Result-cases (err fault) = inr (fault, refl)

infixl 5 ◌>>=◌ ◌>>◌
-- The operator `?` and what follows it.
abbrev pub ◌>>=◌ {ℓ κ} :
    {A : Type ℓ} {Target : Type κ} → Result A → (A → Result Target) → Result Target
ok value >>= next = next value
err fault >>= next = err fault

abbrev pub ◌>>◌ {κ} : {Target : Type κ} → Result (Unit {0}) → Result Target → Result Target
first >> second = first >>= λ done. second
