-- ===== src/Codec/IndexKeys.antt =====
-- Index keys in crates/prehnitedb/src/engine/codec.rs: the order-preserving encoding of values, the
-- keys of index trees, and the bound of a prefix scan.
pub mod Order
pub mod Prefix
use prehnite_db.Prelude.{
  ℕ, zero, suc, ◌+◌, ◌-◌, ◌^◌, Bool, true, false, List, [], ◌∷◌, ◌++◌, Option, none, some,
  get_elem?, ltb, leb, ◌==◌, if◌then◌else◌,
}
use prehnite_db.Prelude.Int.{to_u64}
use prehnite_db.Bytes.{Bytes, be_bytes}
use prehnite_db.Value.{Value, null, int, real, text, bool}
use prehnite_db.Codec.Primitives.{bool_byte}
use mathlib.Core.List.{reverse}

unfoldable pub rowid_key : ℕ → Bytes
rowid_key id = be_bytes 8 id

abbrev pub idx_null : ℕ
idx_null = 0x00

abbrev pub idx_bool : ℕ
idx_bool = 0x01

abbrev pub idx_int : ℕ
idx_int = 0x02

abbrev pub idx_real : ℕ
idx_real = 0x03

abbrev pub idx_text : ℕ
idx_text = 0x04

-- `v ^ (1 << 63)` on a `u64`.
flip_sign : ℕ → ℕ
flip_sign v = if ltb v (2 ^ 63) then v + 2 ^ 63 else v - 2 ^ 63

-- `!bits` where the sign bit is set, `bits | (1 << 63)` where it is not.
ordered_bits : ℕ → ℕ
ordered_bits bits = if leb (2 ^ 63) bits then 2 ^ 64 - 1 - bits else bits + 2 ^ 63

-- Interior NULs become 0x00 0x01, and 0x00 0x00 ends the text.
escaped : Bytes → Bytes
escaped [] = 0x00 ∷ 0x00 ∷ []
escaped (b ∷ bs) = let rest = escaped bs in b ∷ (if b == 0x00 then 0x01 ∷ rest else rest)

unfoldable pub encode_index_value : Value → Bytes
unfolding flip_sign ordered_bits escaped
encode_index_value null = idx_null ∷ []
encode_index_value (bool b) = idx_bool ∷ bool_byte b ∷ []
encode_index_value (int n) = idx_int ∷ be_bytes 8 (flip_sign (to_u64 n))
encode_index_value (real bits) = idx_real ∷ be_bytes 8 (ordered_bits bits)
encode_index_value (text s) = idx_text ∷ escaped s

-- The key of a row in an index; `none` where a column position is out of bounds, which panics.
unfoldable pub encode_index_key : List Value → List ℕ → Bytes → Option Bytes
encode_index_key values [] rowid = some rowid
encode_index_key values (column ∷ columns) rowid = elim (get_elem? values column) [
  | none ↦ none
  | some v ↦ elim (encode_index_key values columns rowid) [
    | none ↦ none
    | some key ↦ some (encode_index_value v ++ key)
  ]
]

-- The `while let Some(last) = bound.pop()` loop, over the bytes from the last to the first.
pop_loop : Bytes → Option Bytes
pop_loop [] = none
pop_loop (last ∷ bound) = if last == 0xff then pop_loop bound else some ((last + 1) ∷ bound)

abbrev reversed : Option Bytes → Option Bytes
reversed none = none
reversed (some bs) = some (reverse bs)

unfoldable pub prefix_upper_bound : Bytes → Option Bytes
unfolding pop_loop
prefix_upper_bound prefix = reversed (pop_loop (reverse prefix))
