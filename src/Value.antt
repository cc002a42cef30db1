-- ===== src/Value.antt =====
-- crates/prehnitedb/src/engine/value.rs: column types, runtime values and coercion. A text is its
-- UTF-8 bytes and a REAL its IEEE-754 bit pattern.
pub mod Laws
use prehnite_db.Prelude.{
  ℕ, zero, suc, ◌+◌, ◌-◌, ◌*◌, ◌/◌, ◌%◌, ◌^◌, ◌<◌, Bool, true, false, ◌&&◌, ◌||◌, Error, Result, ok,
  err, exec, ltb, ◌==◌, if◌then◌else◌, leb, ◌≡◌,
}
use prehnite_db.Prelude.Int.{ℤ, pos, negsuc, IsI64}
use prehnite_db.Bytes.{Bytes}
use prehnite_db.Utf8.{is_utf8}

-- `enum Type`
pub data ColumnType : Type 0 where
  int_type real_type text_type bool_type : ColumnType

pub data Value : Type 0 where
  null : Value
  int : ℤ → Value
  real : ℕ → Value
  text : Bytes → Value
  bool : Bool → Value

-- What the Rust types of the fields rule out, and that a `String` is UTF-8.
abbrev pub IsValue : Value → Type 0
IsValue null = Unit
IsValue (int n) = IsI64 n
IsValue (real bits) = bits < 2 ^ 64
IsValue (text s) = is_utf8 s ≡ true
IsValue (bool b) = Unit

-- The position of the highest bit; 64 rounds are enough for a `u64`.
highest_bit : ℕ → ℕ → ℕ
highest_bit zero m = 0
highest_bit (suc fuel) m = let rest = highest_bit fuel (m / 2) in if ltb m 2 then 0 else suc rest

-- The bit pattern of the double that is nearest to `m`, ties to even: `m as f64` below 2 ^ 64.
-- A significand that rounds up to 2 ^ 53 carries into the exponent.
unfoldable pub magnitude_bits : ℕ → ℕ
unfolding highest_bit
magnitude_bits m =
    let e = highest_bit 64 m in
    let cut = 2 ^ (e - 52) in
    let q = m / cut in
    let r = m % cut in
    let up = ltb cut (2 * r) || (2 * r == cut && q % 2 == 1) in
    if m == 0
    then 0
    else if leb e 52
    then (1023 + e) * 2 ^ 52 + (m * 2 ^ (52 - e) - 2 ^ 52)
    else (1023 + e) * 2 ^ 52 + (q - 2 ^ 52) + (if up then 1 else 0)

-- `n as f64`, as bits.
unfoldable pub int_to_real : ℤ → ℕ
unfolding magnitude_bits
int_to_real (pos n) = magnitude_bits n
int_to_real (negsuc n) = 2 ^ 63 + magnitude_bits (n + 1)

unfoldable pub coerce : Value → ColumnType → Result Value
coerce null target = ok null
coerce (int n) int_type = ok (int n)
coerce (int n) real_type = ok (real (int_to_real n))
coerce (real r) real_type = ok (real r)
coerce (text s) text_type = ok (text s)
coerce (bool b) bool_type = ok (bool b)
coerce other target = err exec
