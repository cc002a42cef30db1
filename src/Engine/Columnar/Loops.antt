-- ===== src/Engine/Columnar/Loops.antt =====
-- What the loops that fill a column leave at each row.
use prehnite_db.Prelude.{
  ℕ, zero, suc, ◌+◌, ◌≤◌, ◌<◌, ◌≡◌, refl, Bool, List, [], ◌∷◌, ◌++◌, length, if◌then◌else◌, arith,
  ap, ◌∙◌,
}
use mathlib.Core.Path.{subst}
use native.Mathlib.Decide.{dec_lt}
use prehnite_db.Outcome.{Outcome, returns, index, >>=-eq-returns, index-lt, returns_inj}
use prehnite_db.Value.{Value, null}
use prehnite_db.Engine.Batch.{NullMask, no_rows, push, is_valid, cell, all_valid, replicate}
use prehnite_db.Engine.Batch.Mask.{
  bit_at, is_valid-bit_at, no_rows-IsMask, all_valid-IsMask, all_valid-rows, bit_at-all_valid,
}
use prehnite_db.Engine.Batch.Columns.{Slots, cell-push_both}
use prehnite_db.Engine.Columnar.{fill}

-- What the row shows that a round of a loop has filled.
abbrev pub shown {ℓ} : {A : Type ℓ} → (A → Value) → A × Bool → Value
shown make c = if c.1 then make c.0 else null

module _ {A : Type 0} (make : A → Value) (body : ℕ → Outcome (A × Bool)) where
  abbrev Filled : ℕ → ℕ → List A → NullMask → List A → NullMask → Type 0
  Filled rounds i xs m out out_nulls =
      Slots (i + rounds) out out_nulls
      × ((j : ℕ) → j < i → cell make out out_nulls j ≡ cell make xs m j)
      × ((j : ℕ)
          → i ≤ j
          → j < i + rounds
          → (c : A × Bool) × (body j ≡ returns c)
            × (cell make out out_nulls j ≡ returns (shown make c)))

  fill-Filled :
      (rounds i : ℕ) (xs : List A) (m : NullMask) {r : List A × NullMask}
      → Slots i xs m
      → fill body rounds i xs m ≡ returns r
      → Filled rounds i xs m r.0 r.1
  unfolding fill
  fill-Filled zero i xs m {r} s e =
      let same : (xs, m) ≡ r = returns_inj e in
      subst (λ q. Filled 0 i xs m q.0 q.1) same
        ((omega arith, omega arith, s.2), (λ j lt. refl), λ j lo hi. absurd (omega arith))
  fill-Filled (suc rounds) i xs m {r} s e =
      let (c, eb, er) =
        >>=-eq-returns (body i) (λ c. fill body rounds (suc i) (xs ++ c.0 ∷ []) (push m c.1)) e in
      let (s', last, old) = cell-push_both make i xs m s c.0 c.1 in
      let (t, before, after) = fill-Filled rounds (suc i) (xs ++ c.0 ∷ []) (push m c.1) s' er in
      (
        (omega arith, omega arith, t.2),
        (λ j lt. before j (omega arith) ∙ old j lt),
        (λ j lo hi. elim (dec_lt i j) [
          | yes later ↦ after j later (omega arith)
          | no early ↦
              let here : i ≡ j = omega arith in
              subst (Row r.0 r.1) here (c, eb, before i (omega arith) ∙ last)
        ]),
      )
    where
      Row : List A → NullMask → ℕ → Type 0
      Row out out_nulls j =
          (c : A × Bool) × (body j ≡ returns c)
          × (cell make out out_nulls j ≡ returns (shown make c))

  -- A column that a loop has filled from the start.
  pub fill_all :
      (n : ℕ) {r : List A × NullMask}
      → fill body n 0 [] no_rows ≡ returns r
      → Slots n r.0 r.1
        × ((j : ℕ)
            → j < n
            → (c : A × Bool) × (body j ≡ returns c)
              × (cell make r.0 r.1 j ≡ returns (shown make c)))
  fill_all n {r} e =
      let (s, before, after) = fill-Filled n 0 [] no_rows (refl, refl, no_rows-IsMask) e in
      ((omega arith, omega arith, s.2), λ j lt. after j (omega arith) (omega arith))

-- Both parts of a slot can be read.
pub slot_lem {ℓ} :
    {A : Type ℓ} (n : ℕ) (xs : List A) (m : NullMask) (i : ℕ)
    → Slots n xs m
    → i < n
    → (x : A) × (index xs i ≡ returns x) × (is_valid m i ≡ returns (bit_at m i))
slot_lem n xs m i s lt =
    let (x, e) = index-lt xs i (omega arith) in (x, e, is_valid-bit_at m i s.2 (omega arith))

pub length-replicate {ℓ} : {A : Type ℓ} (n : ℕ) (a : A) → length (replicate n a) ≡ n
length-replicate zero a = refl
length-replicate (suc n) a = ap suc (length-replicate n a)

pub index-replicate {ℓ} :
    {A : Type ℓ} (n : ℕ) (a : A) (i : ℕ) → i < n → index (replicate n a) i ≡ returns a
index-replicate zero a i h = absurd (omega arith)
index-replicate (suc n) a zero h = refl
index-replicate (suc n) a (suc i) h = index-replicate n a i (omega arith)

pub broadcast_lem :
    {A : Type 0} (make : A → Value) (n : ℕ) (a : A)
    → Slots n (replicate n a) (all_valid n)
      × ((i : ℕ) → i < n → cell make (replicate n a) (all_valid n) i ≡ returns (make a))
unfolding cell
broadcast_lem make n a = (
  (length-replicate n a, all_valid-rows n, all_valid-IsMask n),
  λ i lt.
      let valid =
        is_valid-bit_at (all_valid n) i (all_valid-IsMask n) (omega (arith, all_valid-rows n)) in
      rw (valid, bit_at-all_valid n i, index-replicate n a i lt) (ground arith),
)
