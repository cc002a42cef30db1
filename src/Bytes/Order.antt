-- ===== src/Bytes/Order.antt =====
-- The order of byte strings.
use prehnite_db.Prelude.{
  ℕ, zero, suc, ◌+◌, ◌*◌, ◌%◌, ◌/◌, ◌^◌, ◌<◌, compare, Ordering, ◌≡◌, refl, sym, [], ◌∷◌, ◌++◌,
  length, arith, ap,
}
use prehnite_db.Bytes.{Bytes, be_bytes, cmp}
use prehnite_db.Bytes.Laws.{pow-pos}
use native.Mathlib.Nat.{div-add-mod, mod-lt}

digits_lt : (m p q r s : ℕ) → r < m → p < q → m * p + r < m * q + s
digits_lt m p q r s hr hpq = grind arith

compare_digits :
    (m p q r s : ℕ)
    → r < m
    → s < m
    → compare (m * p + r) (m * q + s) ≡ (elim (compare p q) [
      | Ordering.eq ↦ compare r s
      | Ordering.lt ↦ Ordering.lt
      | Ordering.gt ↦ Ordering.gt
    ])
compare_digits m p q r s hr hs =
    ground (arith, digits_lt m p q r s hr, digits_lt m q p s r hs, ap (λ (t : ℕ). m * t))

-- Big-endian bytes are in the order of the numbers.
pub cmp-be_bytes :
    (w a b : ℕ) → a < 256 ^ w → b < 256 ^ w → cmp (be_bytes w a) (be_bytes w b) ≡ compare a b
unfolding cmp be_bytes
cmp-be_bytes zero a b ha hb = ground arith
cmp-be_bytes (suc w) a b ha hb =
    let m = 256 ^ w in
    let ra = mod-lt a (pow-pos w) in
    let rb = mod-lt b (pow-pos w) in
    ground (
      arith,
      cmp-be_bytes w (a % m) (b % m) ra rb,
      rw (div-add-mod a m, div-add-mod b m) at
          (compare_digits m (a / m) (b / m) (a % m) (b % m) ra rb),
    )

-- The first ordering decides, unless it is a tie.
abbrev pub and_then : Ordering → Ordering → Ordering
and_then Ordering.lt o = Ordering.lt
and_then Ordering.eq o = o
and_then Ordering.gt o = Ordering.gt

-- Strings of one length decide before what follows them.
pub cmp-append :
    (x y r s : Bytes) → length x ≡ length y → cmp (x ++ r) (y ++ s) ≡ and_then (cmp x y) (cmp r s)
unfolding cmp
cmp-append [] [] r s h = refl
cmp-append [] (b ∷ y) r s h = absurd (omega arith)
cmp-append (a ∷ x) [] r s h = absurd (omega arith)
cmp-append (a ∷ x) (b ∷ y) r s h = ground (arith, cmp-append x y r s (omega arith))

pub cmp_refl : (x : Bytes) → cmp x x ≡ Ordering.eq
unfolding cmp
cmp_refl [] = refl
cmp_refl (a ∷ x) = ground (arith, cmp_refl x)

pub cmp_flip : (x y : Bytes) → cmp x y ≡ Ordering.gt → cmp y x ≡ Ordering.lt
unfolding cmp
cmp_flip [] [] h = cc
cmp_flip [] (b ∷ y) h = cc
cmp_flip (a ∷ x) [] h = refl
cmp_flip (a ∷ x) (b ∷ y) h = ground (arith, cmp_flip x y)

pub cmp_trans : (o : Ordering) (x y z : Bytes) → cmp x y ≡ o → cmp y z ≡ o → cmp x z ≡ o
unfolding cmp
cmp_trans o [] [] z h k = k
cmp_trans o [] (b ∷ y) [] h k = ground arith
cmp_trans o [] (b ∷ y) (c ∷ z) h k = h
cmp_trans o (a ∷ x) [] [] h k = h
cmp_trans o (a ∷ x) [] (c ∷ z) h k = ground arith
cmp_trans o (a ∷ x) (b ∷ y) [] h k = k
cmp_trans o (a ∷ x) (b ∷ y) (c ∷ z) h k = ground (arith, cmp_trans o x y z)

pub cmp_between :
    (o : Ordering) (x y z : Bytes)
    → (o ≡ Ordering.eq → ⊥)
    → cmp x z ≡ o
    → (cmp y z ≡ o → ⊥)
    → cmp x y ≡ o
unfolding cmp
cmp_between o [] [] z strict h k = absurd (k h)
cmp_between o [] (b ∷ y) [] strict h k = absurd (strict (sym h))
cmp_between o [] (b ∷ y) (c ∷ z) strict h k = h
cmp_between o (a ∷ x) [] [] strict h k = h
cmp_between o (a ∷ x) [] (c ∷ z) strict h k = ground arith
cmp_between o (a ∷ x) (b ∷ y) [] strict h k = absurd (k h)
cmp_between o (a ∷ x) (b ∷ y) (c ∷ z) strict h k = ground (arith, cmp_between o x y z strict)
