-- ===== src/Examples/Encodings.antt =====
-- Rows, schemas and index keys at work.
use prehnite_db.Prelude.{
  ℕ, ◌^◌, ◌≡◌, ◌<◌, refl, List, ◌∷◌, [], ◌++◌, true, false, ◌&&◌, some, ok, err, corruption, length,
  arith, compare,
}
use prehnite_db.Prelude.Int.{ℤ, pos, negsuc}
use prehnite_db.Bytes.{Bytes, cmp, le_bytes}
use prehnite_db.Bytes.Order.{and_then}
use prehnite_db.Utf8.{is_utf8}
use prehnite_db.Value.{int_type, real_type, Value, null, int, real, text, bool, int_to_real, coerce}
use prehnite_db.Schema.{cascade, ColumnStats, Schema}
use prehnite_db.Reader.Laws.{Each}
use prehnite_db.Codec.Rows.{RowRecord, encode_value, encode_values, encode_row, decode_row}
use prehnite_db.Codec.Rows.RoundTrip.{IsStorable, decode_row-encode_row}
use prehnite_db.Codec.Rows.Errors.{decode_row_trailing}
use prehnite_db.Codec.Schemas.{encode_schema, decode_schema}
use prehnite_db.Codec.Schemas.RoundTrip.{IsSchema, decode_schema-encode_schema}
use prehnite_db.Codec.IndexKeys.{
  rowid_key, encode_index_value, encode_index_key, prefix_upper_bound,
}
use prehnite_db.Codec.IndexKeys.Order.{
  value_cmp, columns_cmp, cmp-encode_index_value, cmp-encode_index_key,
}
use prehnite_db.Codec.IndexKeys.Prefix.{starts_with, at_least, below, scan-prefix_upper_bound}

-- "Zo", "é"
abbrev zoe : Bytes
zoe = 90 ∷ 111 ∷ 195 ∷ 169 ∷ []

zoe-is_utf8 : is_utf8 zoe ≡ true
unfolding is_utf8
zoe-is_utf8 = refl

abbrev sample : List Value
sample = int (negsuc 4) ∷ text zoe ∷ null ∷ bool true ∷ []

sample-IsStorable : Each IsStorable sample
sample-IsStorable = (omega arith, ((zoe-is_utf8, omega arith), (tt, (tt, tt))))

abbrev sample_row : RowRecord
sample_row = record { tx_min = 7; tx_max = 0; values = sample }

decode_row-encode_row_example : decode_row (encode_row 7 0 sample) (length sample) ≡ ok sample_row
decode_row-encode_row_example =
    decode_row-encode_row 7 0 sample (omega arith) (omega arith) sample-IsStorable

decode_row_trailing_example :
    decode_row (encode_row 7 0 sample ++ 1 ∷ []) (length sample) ≡ err corruption
decode_row_trailing_example =
    decode_row_trailing 7 0 sample 1 [] (omega arith) (omega arith) sample-IsStorable

coerced : coerce (int (pos 3)) real_type ≡ ok (real (int_to_real (pos 3)))
unfolding coerce
coerced = refl

abbrev stats : ColumnStats
stats = record {
  n_distinct = 2;
  null_count = 0;
  total_rows = 2;
  histogram = record { lower = int (pos 1); upper = int (pos 9); count = 2 } ∷ [];
}

abbrev users : Schema
users = record {
  name = b'u' ∷ [];
  columns =
      record {
        name = b'i' ∷ [];
        ty = int_type;
        not_null = true;
        foreign_key = some (record { table = b't' ∷ []; column = b'c' ∷ []; on_delete = cascade });
        stats = some stats;
      }
      ∷ [];
  root = 3;
  next_rowid = 4;
  row_count = 2;
  indexes =
      record { name = b'x' ∷ []; columns = 0 ∷ []; root = 5; unique = true; is_building = false }
      ∷ [];
  primary_key_column = some 0;
  mutations_since_analyze = 1;
}

short_name :
    (b : ℕ) → is_utf8 (b ∷ []) ≡ true → (is_utf8 (b ∷ []) ≡ true) × (length (b ∷ []) < 2 ^ 16)
short_name b h = (h, omega arith)

int_bound : (n : ℤ) → length (encode_values (int n ∷ [])) < 2 ^ 32
unfolding encode_values encode_value le_bytes
int_bound n = omega arith

users-IsSchema : IsSchema users
unfolding is_utf8
users-IsSchema = record {
  root = omega arith;
  next_rowid = omega arith;
  name = short_name b'u' refl;
  column_count = omega arith;
  columns = (
    (
      short_name b'i' refl,
      (short_name b't' refl, short_name b'c' refl),
      (
        omega arith,
        omega arith,
        omega arith,
        omega arith,
        (((omega arith, int_bound (pos 1)), (omega arith, int_bound (pos 9)), omega arith), tt),
      ),
    ),
    tt,
  );
  index_count = omega arith;
  indexes = ((omega arith, omega arith, (omega arith, tt), short_name b'x' refl), tt);
  row_count = omega arith;
  primary_key_column = omega arith;
  mutations = omega arith;
}

decode_schema-encode_schema_example : decode_schema (encode_schema users) ≡ ok users
decode_schema-encode_schema_example = decode_schema-encode_schema users users-IsSchema

scan-prefix_upper_bound_example :
    (at_least (5 ∷ 255 ∷ []) (5 ∷ 255 ∷ 7 ∷ [])
      && below (5 ∷ 255 ∷ 7 ∷ []) (prefix_upper_bound (5 ∷ 255 ∷ [])))
    ≡ starts_with (5 ∷ 255 ∷ []) (5 ∷ 255 ∷ 7 ∷ [])
scan-prefix_upper_bound_example =
    scan-prefix_upper_bound (5 ∷ 255 ∷ []) (5 ∷ 255 ∷ 7 ∷ [])
      (omega arith, (omega arith, (omega arith, tt)))

cmp-encode_index_value_example :
    cmp
      (encode_index_value (text zoe) ++ (1 ∷ []))
      (encode_index_value (text (90 ∷ [])) ++ (2 ∷ []))
    ≡ and_then (value_cmp (text zoe) (text (90 ∷ []))) (cmp (1 ∷ []) (2 ∷ []))
cmp-encode_index_value_example =
    cmp-encode_index_value (text zoe) (text (90 ∷ [])) (1 ∷ []) (2 ∷ []) tt tt

abbrev minus_one : List Value
minus_one = int (negsuc 0) ∷ []

abbrev plus_one : List Value
plus_one = int (pos 1) ∷ []

key_of :
    (n : ℤ) (i : ℕ)
    → encode_index_key (int n ∷ []) (0 ∷ []) (rowid_key i)
      ≡ some (encode_index_value (int n) ++ rowid_key i)
unfolding encode_index_key
key_of n i = refl

cmp-encode_index_key_example :
    cmp
      (encode_index_value (int (negsuc 0)) ++ rowid_key 2)
      (encode_index_value (int (pos 1)) ++ rowid_key 1)
    ≡ columns_cmp minus_one plus_one (0 ∷ []) (compare 2 1)
cmp-encode_index_key_example =
    cmp-encode_index_key minus_one plus_one (0 ∷ []) 2 1 (omega arith, tt) (omega arith, tt)
      (omega arith) (omega arith) (key_of (negsuc 0) 2) (key_of (pos 1) 1)
