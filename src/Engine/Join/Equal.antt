-- ===== src/Engine/Join/Equal.antt =====
-- Values that compare equal have one key, but for the zeros of REAL.
use prehnite_db.Prelude.{ℕ, ◌^◌, ◌<◌, ◌≡◌, ◌≢◌, true, false, some, Ordering, arith}
use prehnite_db.Prelude.Int.{ℤ, pos, negsuc, compare_ℤ}
use prehnite_db.Real
use prehnite_db.Outcome.{returns}
use prehnite_db.Value.{
  ColumnType, int_type, real_type, text_type, bool_type, Value, null, int, real, text, bool,
}
use prehnite_db.Sql.Ast.{eq}
use prehnite_db.Engine.Eval.{as_number, compare_numbers, compare, compare_op, verdict, is_null}
use prehnite_db.Ssi.Locks.{cmp→eq}

-- A value of a column of the type, or NULL; no REAL is the negative zero.
abbrev pub IsKey : ColumnType → Value → Type 0
IsKey t null = Unit
IsKey int_type (int n) = Unit
IsKey real_type (real r) = (r < 2 ^ 64) × (r ≢ 2 ^ 63)
IsKey text_type (text s) = Unit
IsKey bool_type (bool b) = Unit
IsKey t v = ⊥

partial_cmp→eq :
    (a b : ℕ)
    → a < 2 ^ 64
    → a ≢ 2 ^ 63
    → b < 2 ^ 64
    → b ≢ 2 ^ 63
    → Real.partial_cmp a b ≡ some Ordering.eq
    → a ≡ b
unfolding Real.partial_cmp
partial_cmp→eq a b ha na hb nb h = ground arith

compare_ℤ→eq : (a b : ℤ) → compare_ℤ a b ≡ Ordering.eq → a ≡ b
compare_ℤ→eq (pos a) (pos b) h = ground arith
compare_ℤ→eq (pos a) (negsuc b) h = cc
compare_ℤ→eq (negsuc a) (pos b) h = cc
compare_ℤ→eq (negsuc a) (negsuc b) h = ground arith

pub equal_keys :
    (t : ColumnType) (a b : Value)
    → IsKey t a
    → IsKey t b
    → compare_op eq a b ≡ returns (bool true)
    → a ≡ b
unfolding compare_op compare compare_numbers as_number verdict
equal_keys int_type (int a) (int b) ha hb h = ground (arith, compare_ℤ→eq a b)
equal_keys real_type (real a) (real b) (la, na) (lb, nb) h =
    ground (arith, partial_cmp→eq a b la na lb nb)
equal_keys text_type (text a) (text b) ha hb h = ground (arith, cmp→eq a b)
equal_keys bool_type (bool a) (bool b) ha hb h = ground arith
equal_keys t a b ha hb h = ground arith

pub equal-not_null :
    (a b : Value)
    → compare_op eq a b ≡ returns (bool true)
    → (is_null a ≡ false) × (is_null b ≡ false)
unfolding compare_op
equal-not_null a b h = (ground arith, ground arith)
