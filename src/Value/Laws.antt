-- ===== src/Value/Laws.antt =====
-- What `coerce` accepts, and that a coerced value stays as it is.
use prehnite_db.Prelude.{◌≡◌, ok, arith}
use prehnite_db.Value.{
  ColumnType, int_type, real_type, text_type, bool_type, Value, null, int, real, text, bool, coerce,
}

-- A value is a member of the type, NULL of every type.
abbrev pub Fits : Value → ColumnType → Type 0
Fits null t = Unit
Fits (int n) int_type = Unit
Fits (real r) real_type = Unit
Fits (text s) text_type = Unit
Fits (bool b) bool_type = Unit
Fits v t = ⊥

-- If `coerce` accepts a value, then its result is NULL or has the type that was asked for, and
-- is coerced to itself.
pub coerce-Fits :
    (v : Value) (t : ColumnType) {w : Value} → coerce v t ≡ ok w → Fits w t × (coerce w t ≡ ok w)
unfolding coerce
coerce-Fits v t h = ground arith
