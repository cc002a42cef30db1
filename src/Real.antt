-- ===== src/Real.antt =====
-- Rust's `f64`, as its IEEE-754 bit pattern. Sign, comparison and the total order are read off the
-- bits. The four operations that round are those of the machine, and are a parameter of the model.
use prehnite_db.Prelude.{
  ℕ, ◌+◌, ◌-◌, ◌*◌, ◌%◌, ◌^◌, Bool, ◌||◌, Option, none, some, Ordering, ltb, ◌==◌, if◌then◌else◌,
}
use prehnite_db.Prelude.Int.{ℤ, pos, negsuc, compare_ℤ}

pub record RealOps : Type 0 where
  pub add : ℕ → ℕ → ℕ
  pub sub : ℕ → ℕ → ℕ
  pub mul : ℕ → ℕ → ℕ
  pub div : ℕ → ℕ → ℕ

abbrev sign_bit : ℕ
sign_bit = 2 ^ 63

-- The pattern without its sign.
abbrev magnitude : ℕ → ℕ
magnitude r = r % sign_bit

abbrev pub is_negative : ℕ → Bool
is_negative r = ltb (sign_bit - 1) r

unfoldable pub is_nan : ℕ → Bool
is_nan r = ltb (2047 * 2 ^ 52) (magnitude r)

-- `-r`
unfoldable pub neg : ℕ → ℕ
neg r = if is_negative r then r - sign_bit else r + sign_bit

-- A number in the order of the reals that are not NaN: both zeros are 0.
abbrev pub signed : ℕ → ℤ
signed r =
    if is_negative r then (if magnitude r == 0 then pos 0 else negsuc (magnitude r - 1)) else pos r

unfoldable pub partial_cmp : ℕ → ℕ → Option Ordering
unfolding is_nan
partial_cmp a b = if is_nan a || is_nan b then none else some (compare_ℤ (signed a) (signed b))

-- `b == 0.0`
unfoldable pub is_zero : ℕ → Bool
is_zero r = magnitude r == 0

-- `f64::total_cmp`: the bits as an `i64`, a negative number's low bits flipped.
unfoldable pub total_cmp : ℕ → ℕ → Ordering
total_cmp a b = compare_ℤ (key a) (key b)
  where
    key : ℕ → ℤ
    key r = if is_negative r then negsuc (magnitude r) else pos r
