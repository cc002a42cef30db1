-- ===== src/Codec/Schemas.antt =====
-- Schemas in crates/prehnitedb/src/engine/codec.rs: the catalog's records.
pub mod RoundTrip
use prehnite_db.Prelude.{
  ℕ, zero, suc, ◌-◌, ◌^◌, Bool, true, false, not, List, [], ◌∷◌, ◌++◌, Option, none, some, Error,
  corruption, Result, ok, err, length, ◌==◌, if◌then◌else◌,
}
use prehnite_db.Bytes.{Bytes, le_bytes}
use prehnite_db.Value.{ColumnType, int_type, real_type, text_type, bool_type, Value, null}
use prehnite_db.Schema.{
  ForeignKeyAction, restrict, cascade, set_null, ForeignKeyTarget, HistogramBucket, ColumnStats,
  Column, Index, Schema,
}
use prehnite_db.Reader.{value_of, Parser, pure, fail, ◌>>=◌, repeat}
use prehnite_db.Reader.Laws.{concat_map, emit}
use prehnite_db.Codec.Primitives.{take, u8, u16, u32, u64, write_str, read_str, bool_byte, flag}
use prehnite_db.Codec.Rows.{encode_values, decode_values}

type_tag : ColumnType → ℕ
type_tag int_type = 1
type_tag real_type = 2
type_tag text_type = 3
type_tag bool_type = 4

type_from_tag : ℕ → Parser ColumnType
type_from_tag tag =
    if tag == 1
    then pure int_type
    else if tag == 2
    then pure real_type
    else if tag == 3
    then pure text_type
    else if tag == 4
    then pure bool_type
    else fail corruption

fk_action_tag : ForeignKeyAction → ℕ
fk_action_tag restrict = 1
fk_action_tag cascade = 2
fk_action_tag set_null = 3

fk_action_from_tag : ℕ → Parser ForeignKeyAction
fk_action_from_tag tag =
    if tag == 1
    then pure restrict
    else if tag == 2
    then pure cascade
    else if tag == 3
    then pure set_null
    else fail corruption

-- The per-column foreign key: a byte for its presence, then the target.
encode_foreign_key : Option ForeignKeyTarget → Bytes
unfolding fk_action_tag
encode_foreign_key none = 0 ∷ []
encode_foreign_key (some fk) =
    1 ∷ emit (write_str fk.table ∷ write_str fk.column ∷ (fk_action_tag fk.on_delete ∷ []) ∷ [])

-- A bound of a bucket: its length and its tagged bytes.
encode_bound : Value → Bytes
encode_bound v = le_bytes 4 (length (encode_values (v ∷ []))) ++ encode_values (v ∷ [])

encode_bucket : HistogramBucket → Bytes
unfolding encode_bound
encode_bucket b = emit (encode_bound b.lower ∷ encode_bound b.upper ∷ le_bytes 8 b.count ∷ [])

encode_stats : Option ColumnStats → Bytes
unfolding encode_bucket
encode_stats none = 0 ∷ []
encode_stats (some s) =
    1
    ∷ emit (
        le_bytes 8 s.n_distinct
        ∷ le_bytes 8 s.null_count
        ∷ le_bytes 8 s.total_rows
        ∷ le_bytes 4 (length s.histogram)
        ∷ concat_map encode_bucket s.histogram
        ∷ [])

encode_column : Column → Bytes
unfolding type_tag encode_foreign_key encode_stats
encode_column c =
    type_tag c.ty
    ∷ emit (
        write_str c.name
        ∷ (bool_byte c.not_null ∷ [])
        ∷ encode_foreign_key c.foreign_key
        ∷ encode_stats c.stats
        ∷ [])

encode_index : Index → Bytes
encode_index i = emit (
    le_bytes 4 i.root
    ∷ le_bytes 2 (length i.columns)
    ∷ concat_map (le_bytes 2) i.columns
    ∷ write_str i.name
    ∷ (bool_byte i.unique ∷ [])
    ∷ (bool_byte i.is_building ∷ [])
    ∷ [])

-- `u16::MAX` stands for "no primary key".
abbrev pk_tag : Option ℕ → ℕ
pk_tag none = 2 ^ 16 - 1
pk_tag (some i) = i

unfoldable pub encode_schema : Schema → Bytes
unfolding encode_column encode_index
encode_schema s = emit (
    le_bytes 4 s.root
    ∷ le_bytes 8 s.next_rowid
    ∷ write_str s.name
    ∷ le_bytes 2 (length s.columns)
    ∷ concat_map encode_column s.columns
    ∷ le_bytes 2 (length s.indexes)
    ∷ concat_map encode_index s.indexes
    ∷ le_bytes 8 s.row_count
    ∷ le_bytes 2 (pk_tag s.primary_key_column)
    ∷ le_bytes 8 s.mutations_since_analyze
    ∷ [])

foreign_key_target : Parser (Option ForeignKeyTarget)
unfolding fk_action_from_tag
foreign_key_target = do
  table ← read_str
  column ← read_str
  tag ← u8
  on_delete ← fk_action_from_tag tag
  pure (some (record { table = table; column = column; on_delete = on_delete }))

foreign_key_body : ℕ → Parser (Option ForeignKeyTarget)
unfolding foreign_key_target
foreign_key_body tag =
    if tag == 0 then pure none else if tag == 1 then foreign_key_target else fail corruption

-- `match reader.u8()? { .. }`
foreign_key_field : Parser (Option ForeignKeyTarget)
unfolding foreign_key_body
foreign_key_field = do tag ← u8; foreign_key_body tag

-- `?` on a result that reads nothing.
lift : {A : Type 0} → Result A → Parser A
lift (ok a) = pure a
lift (err e) = fail e

-- `.into_iter().next().unwrap()`; `decode_values(_, 1)` returns one value.
first_value : List Value → Value
first_value [] = null
first_value (v ∷ vs) = v

bound : Parser Value
unfolding lift first_value
bound = do len ← u32; raw ← take len; values ← lift (decode_values raw 1); pure (first_value values)

bucket : Parser HistogramBucket
unfolding bound
bucket = do
  lower ← bound
  upper ← bound
  count ← u64
  pure (record { lower = lower; upper = upper; count = count })

stats_record : Parser (Option ColumnStats)
unfolding bucket
stats_record = do
  n_distinct ← u64
  null_count ← u64
  total_rows ← u64
  bucket_count ← u32
  histogram ← repeat bucket_count bucket
  pure (
      some (record {
        n_distinct = n_distinct;
        null_count = null_count;
        total_rows = total_rows;
        histogram = histogram;
      }))

stats_body : ℕ → Parser (Option ColumnStats)
unfolding stats_record
stats_body tag = if tag == 0 then pure none else if tag == 1 then stats_record else fail corruption

stats_field : Parser (Option ColumnStats)
unfolding stats_body
stats_field = do tag ← u8; stats_body tag

column_type : Parser ColumnType
unfolding type_from_tag
column_type = do tag ← u8; type_from_tag tag

decode_column : Parser Column
unfolding column_type foreign_key_field stats_field
decode_column = do
  ty ← column_type
  name ← read_str
  not_null ← flag
  foreign_key ← foreign_key_field
  stats ← stats_field
  pure (record {
    name = name;
    ty = ty;
    not_null = not_null;
    foreign_key = foreign_key;
    stats = stats;
  })

decode_index : Parser Index
decode_index = do
  root ← u32
  column_count ← u16
  columns ← repeat column_count u16
  name ← read_str
  unique ← flag
  is_building ← flag
  pure (record {
    name = name;
    columns = columns;
    root = root;
    unique = unique;
    is_building = is_building;
  })

abbrev pk_from_tag : ℕ → Option ℕ
pk_from_tag tag = if tag == 2 ^ 16 - 1 then none else some tag

schema_body : Parser Schema
unfolding decode_column decode_index
schema_body = do
  root ← u32
  next_rowid ← u64
  name ← read_str
  column_count ← u16
  columns ← repeat column_count decode_column
  index_count ← u16
  indexes ← repeat index_count decode_index
  row_count ← u64
  tag ← u16
  mutations ← u64
  pure (record {
    name = name;
    columns = columns;
    root = root;
    next_rowid = next_rowid;
    row_count = row_count;
    indexes = indexes;
    primary_key_column = pk_from_tag tag;
    mutations_since_analyze = mutations;
  })

unfoldable pub decode_schema : Bytes → Result Schema
unfolding schema_body value_of
decode_schema bytes = value_of (schema_body bytes)
