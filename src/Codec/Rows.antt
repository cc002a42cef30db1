-- ===== src/Codec/Rows.antt =====
-- Rows in crates/prehnitedb/src/engine/codec.rs: the MVCC header and the tagged values.
pub mod RoundTrip
pub mod Errors
use prehnite_db.Prelude.{
  ℕ, zero, suc, Bool, true, false, List, [], ◌∷◌, ◌++◌, Error, corruption, Result, ok, err, length,
  ◌==◌, if◌then◌else◌, not,
}
use prehnite_db.Prelude.Int.{to_u64}
use prehnite_db.Bytes.{Bytes, le_bytes}
use prehnite_db.Value.{Value, null, int, real, text, bool}
use prehnite_db.Reader.{Parser, pure, fail, ◌>>=◌, repeat}
use prehnite_db.Reader.Laws.{concat_map, emit}
use prehnite_db.Codec.Primitives.{take, u8, u32, u64, i64, utf8_text, bool_byte}

abbrev pub tag_null : ℕ
tag_null = 0

abbrev pub tag_int : ℕ
tag_int = 1

abbrev pub tag_real : ℕ
tag_real = 2

abbrev pub tag_text : ℕ
tag_text = 3

abbrev pub tag_bool : ℕ
tag_bool = 4

pub record RowRecord : Type 0 where
  pub tx_min : ℕ
  pub tx_max : ℕ
  pub values : List Value

-- One round of the loop of `encode_values`.
unfoldable pub encode_value : Value → Bytes
encode_value null = tag_null ∷ []
encode_value (int n) = tag_int ∷ le_bytes 8 (to_u64 n)
encode_value (real bits) = tag_real ∷ le_bytes 8 bits
encode_value (text s) = tag_text ∷ le_bytes 4 (length s) ++ s
encode_value (bool b) = tag_bool ∷ bool_byte b ∷ []

unfoldable pub encode_values : List Value → Bytes
unfolding encode_value
encode_values = concat_map encode_value

unfoldable pub encode_row : ℕ → ℕ → List Value → Bytes
unfolding encode_value
encode_row tx_min tx_max values =
    emit (le_bytes 8 tx_min ∷ le_bytes 8 tx_max ∷ concat_map encode_value values ∷ [])

decode_payload : ℕ → Parser Value
decode_payload tag =
    if tag == tag_null
    then pure null
    else if tag == tag_int
    then (do n ← i64; pure (int n))
    else if tag == tag_real
    then (do bits ← u64; pure (real bits))
    else if tag == tag_text
    then (do len ← u32; raw ← take len; s ← utf8_text raw; pure (text s))
    else if tag == tag_bool
    then (do b ← u8; pure (bool (not (b == 0))))
    else fail corruption

-- One round of the loop of `decode_values` and of `decode_row`.
unfoldable pub decode_value : Parser Value
unfolding decode_payload
decode_value = do tag ← u8; decode_payload tag

-- `if !reader.is_empty() { return Err(..) }`
at_end : {A : Type 0} → Result (A × Bytes) → Result A
at_end (err e) = err e
at_end (ok (a, [])) = ok a
at_end (ok (a, b ∷ rest)) = err corruption

unfoldable pub decode_values : Bytes → ℕ → Result (List Value)
unfolding at_end decode_value
decode_values bytes column_count = at_end (repeat column_count decode_value bytes)

pub row_body : ℕ → Parser RowRecord
unfolding decode_value
row_body column_count = do
  tx_min ← u64
  tx_max ← u64
  values ← repeat column_count decode_value
  pure (record { tx_min = tx_min; tx_max = tx_max; values = values })

unfoldable pub decode_row : Bytes → ℕ → Result RowRecord
unfolding at_end row_body
decode_row bytes column_count = at_end (row_body column_count bytes)
