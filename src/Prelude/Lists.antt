-- ===== src/Prelude/Lists.antt =====
-- Lists measured and cut by native numbers, under the library's names.
use Prim.Native.Nat.{◌-◌, ◌≤◌, ◌<◌, ℕ, zero, suc, ◌+◌}
use mathlib.Core.Path.{◌∙◌, ◌≡◌, refl, ap}
use mathlib.Core.Bool.{Bool, false, ◌||◌}
use mathlib.Core.List.{List, [], ◌∷◌, ◌++◌}
use mathlib.Core.Option.{Option, none, some}
use native.Mathlib.Omega.{arith}

module _ {ℓ} {A : Type ℓ} where
  abbrev pub length : List A → ℕ
  length [] = 0
  length (x ∷ xs) = suc (length xs)

  abbrev pub take : ℕ → List A → List A
  take zero xs = []
  take (suc n) [] = []
  take (suc n) (x ∷ xs) = x ∷ take n xs

  abbrev pub drop : ℕ → List A → List A
  drop zero xs = xs
  drop (suc n) [] = []
  drop (suc n) (x ∷ xs) = drop n xs

  abbrev pub get_elem? : List A → ℕ → Option A
  get_elem? [] i = none
  get_elem? (x ∷ xs) zero = some x
  get_elem? (x ∷ xs) (suc i) = get_elem? xs i

  abbrev pub All {κ} : (A → Type κ) → List A → Type κ
  All P [] = Unit
  All P (x ∷ xs) = P x × All P xs

  abbrev pub any : (A → Bool) → List A → Bool
  any p [] = false
  any p (x ∷ xs) = p x || any p xs

  pub length-append : (xs ys : List A) → length (xs ++ ys) ≡ length xs + length ys
  length-append [] ys = omega arith
  length-append (x ∷ xs) ys = omega (arith, length-append xs ys)

  pub take-append : (xs ys : List A) → take (length xs) (xs ++ ys) ≡ xs
  take-append [] ys = refl
  take-append (x ∷ xs) ys = ap (λ l. x ∷ l) (take-append xs ys)

  pub drop-append : (xs ys : List A) → drop (length xs) (xs ++ ys) ≡ ys
  drop-append [] ys = refl
  drop-append (x ∷ xs) ys = drop-append xs ys

  pub take-append_le :
      (n : ℕ) (x y : List A) → length x ≤ n → take n (x ++ y) ≡ x ++ take (n - length x) y
  take-append_le n [] y h = ap (λ k. take k y) (omega arith)
  take-append_le zero (b ∷ x) y h = absurd (omega arith)
  take-append_le (suc n) (b ∷ x) y h =
      ap (λ t. b ∷ t) (take-append_le n x y (omega arith) ∙ ap (λ k. x ++ take k y) (omega arith))

  pub drop-append_le :
      (n : ℕ) (x y : List A) → length x ≤ n → drop n (x ++ y) ≡ drop (n - length x) y
  drop-append_le n [] y h = ap (λ k. drop k y) (omega arith)
  drop-append_le zero (b ∷ x) y h = absurd (omega arith)
  drop-append_le (suc n) (b ∷ x) y h =
      drop-append_le n x y (omega arith) ∙ ap (λ k. drop k y) (omega arith)

  pub take-append_gt : (n : ℕ) (x y : List A) → n < length x → take n (x ++ y) ≡ take n x
  take-append_gt n [] y h = absurd (omega arith)
  take-append_gt zero (b ∷ x) y h = refl
  take-append_gt (suc n) (b ∷ x) y h = ap (λ t. b ∷ t) (take-append_gt n x y (omega arith))

  pub drop-append_gt : (n : ℕ) (x y : List A) → n < length x → drop n (x ++ y) ≡ drop n x ++ y
  drop-append_gt n [] y h = absurd (omega arith)
  drop-append_gt zero (b ∷ x) y h = refl
  drop-append_gt (suc n) (b ∷ x) y h = drop-append_gt n x y (omega arith)

  pub length-take_le : (n : ℕ) (x : List A) → length (take n x) ≤ n
  length-take_le zero x = omega arith
  length-take_le (suc n) [] = omega arith
  length-take_le (suc n) (b ∷ x) = omega (arith, length-take_le n x)

  pub take_short : (n : ℕ) (x : List A) → n < length x → length (take n x) ≡ n
  take_short n [] h = absurd (omega arith)
  take_short zero (b ∷ x) h = refl
  take_short (suc n) (b ∷ x) h = ap suc (take_short n x (omega arith))

  pub take_exact : (n : ℕ) (x y : List A) → length x ≡ n → take n (x ++ y) ≡ x
  take_exact zero [] y h = refl
  take_exact zero (b ∷ x) y h = absurd (omega (arith, h))
  take_exact (suc n) [] y h = absurd (omega (arith, h))
  take_exact (suc n) (b ∷ x) y h = ap (λ t. b ∷ t) (take_exact n x y (omega (arith, h)))

  pub drop_exact : (n : ℕ) (x y : List A) → length x ≡ n → drop n (x ++ y) ≡ y
  drop_exact zero [] y h = refl
  drop_exact zero (b ∷ x) y h = absurd (omega (arith, h))
  drop_exact (suc n) [] y h = absurd (omega (arith, h))
  drop_exact (suc n) (b ∷ x) y h = drop_exact n x y (omega (arith, h))
