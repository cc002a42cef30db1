-- ===== src/Codec/Rows/RoundTrip.antt =====
-- What is encoded is decoded again.
use prehnite_db.Prelude.{ℕ, ◌^◌, ◌<◌, ◌≡◌, refl, true, false, List, [], append-nil, ok, length}
use prehnite_db.Bytes.{Bytes}
use prehnite_db.Value.{Value, null, int, real, text, bool, IsValue}
use prehnite_db.Reader.{Parser}
use prehnite_db.Reader.Laws.{Reads, Reads-pure, Reads-bind, Reads-last, Reads-repeat, Each}
use prehnite_db.Codec.Primitives.{
  Reads-take_lem, Reads-u8_lem, Reads-u32, Reads-u64, Reads-i64, Reads-utf8_text,
}
use prehnite_db.Codec.Rows.{
  encode_value, encode_values, encode_row, decode_value, at_end, decode_values, row_body,
  decode_row,
}

-- A value of the Rust type, whose text has a length that fits its 32-bit field.
abbrev pub IsStorable : Value → Type 0
IsStorable (text s) = IsValue (text s) × (length s < 2 ^ 32)
IsStorable v = IsValue v

pub Reads-value : (v : Value) → IsStorable v → Reads decode_value (encode_value v) v
unfolding decode_value encode_value
Reads-value null h = Reads-bind _ (Reads-u8_lem 0) (Reads-pure null)
Reads-value (int n) h =
    Reads-bind _ (Reads-u8_lem 1) (Reads-last _ (Reads-i64 n h) (Reads-pure (int n)))
Reads-value (real bits) h =
    Reads-bind _ (Reads-u8_lem 2) (Reads-last _ (Reads-u64 bits h) (Reads-pure (real bits)))
Reads-value (text s) h = Reads-bind _ (Reads-u8_lem 3) (
    Reads-bind _ (Reads-u32 (length s) h.1) (
      Reads-last _ (Reads-take_lem s refl)
        (Reads-last _ (Reads-utf8_text s h.0) (Reads-pure (text s)))))
Reads-value (bool true) h =
    Reads-bind _ (Reads-u8_lem 4) (Reads-last _ (Reads-u8_lem 1) (Reads-pure (bool true)))
Reads-value (bool false) h =
    Reads-bind _ (Reads-u8_lem 4) (Reads-last _ (Reads-u8_lem 0) (Reads-pure (bool false)))

at_end-Reads :
    {A : Type 0} (p : Parser A) (bs : Bytes) {a : A} → Reads p bs a → at_end (p bs) ≡ ok a
unfolding at_end
at_end-Reads p bs h = rw ((rw append-nil at (h.at [])), at_end)

-- Encoded values in the ranges of their types, with texts that are UTF-8 shorter than 2 ^ 32
-- bytes, are decoded to themselves, given their number.
pub decode_values-encode_values :
    (values : List Value)
    → Each IsStorable values
    → decode_values (encode_values values) (length values) ≡ ok values
unfolding decode_values encode_values
decode_values-encode_values values h =
    at_end-Reads _ _ (Reads-repeat IsStorable decode_value encode_value Reads-value values h)

pub Reads-row :
    (tx_min tx_max : ℕ) (values : List Value)
    → tx_min < 2 ^ 64
    → tx_max < 2 ^ 64
    → Each IsStorable values
    → Reads
        (row_body (length values))
        (encode_row tx_min tx_max values)
        (record { tx_min = tx_min; tx_max = tx_max; values = values })
unfolding row_body encode_row
Reads-row tx_min tx_max values hmin hmax h = Reads-bind _ (Reads-u64 tx_min hmin) (
    Reads-bind _ (Reads-u64 tx_max hmax) (
      Reads-bind _ (Reads-repeat IsStorable decode_value encode_value Reads-value values h)
        (Reads-pure _)))

-- A row whose numbers are in the ranges of their types and whose texts are UTF-8 shorter than 2
-- ^ 32 bytes is decoded, given the number of its values, to its MVCC header and its values.
pub decode_row-encode_row :
    (tx_min tx_max : ℕ) (values : List Value)
    → tx_min < 2 ^ 64
    → tx_max < 2 ^ 64
    → Each IsStorable values
    → decode_row (encode_row tx_min tx_max values) (length values)
      ≡ ok (record { tx_min = tx_min; tx_max = tx_max; values = values })
unfolding decode_row
decode_row-encode_row tx_min tx_max values hmin hmax h =
    at_end-Reads _ _ (Reads-row tx_min tx_max values hmin hmax h)
