-- ===== src/Codec/Schemas/RoundTrip.antt =====
-- An encoded schema is decoded to itself, as far as its fields fit their widths.
use prehnite_db.Prelude.{
  ℕ, ◌-◌, ◌^◌, ◌<◌, ◌≡◌, refl, true, [], ◌∷◌, Option, none, some, Result, ok, length, arith,
  append-nil,
}
use prehnite_db.Bytes.{Bytes, le_bytes}
use prehnite_db.Utf8.{is_utf8}
use prehnite_db.Value.{ColumnType, int_type, real_type, text_type, bool_type, Value}
use prehnite_db.Schema.{
  ForeignKeyAction, restrict, cascade, set_null, ForeignKeyTarget, HistogramBucket, ColumnStats,
  Column, Index, Schema,
}
use prehnite_db.Reader.{value_of}
use prehnite_db.Reader.Laws.{Reads, Reads-pure, Reads-bind, Reads-last, Reads-repeat, Each}
use prehnite_db.Codec.Primitives.{
  u16, write_str, read_str, Reads-take_lem, Reads-u8_lem, Reads-u16, Reads-u32, Reads-u64,
  Reads-read_str, Reads-flag,
}
use prehnite_db.Codec.Rows.{encode_values}
use prehnite_db.Codec.Rows.RoundTrip.{IsStorable, decode_values-encode_values}
use prehnite_db.Codec.Schemas.{
  type_tag, type_from_tag, fk_action_tag, fk_action_from_tag, encode_foreign_key, encode_bound,
  encode_bucket, encode_stats, encode_column, encode_index, encode_schema, foreign_key_field, lift,
  bound, bucket, stats_field, column_type, decode_column, decode_index, schema_body, decode_schema,
  pk_tag, pk_from_tag,
}

-- A `String` whose length fits its 16-bit field.
abbrev pub IsName : Bytes → Type 0
IsName s = (is_utf8 s ≡ true) × (length s < 2 ^ 16)

abbrev IsTarget : Option ForeignKeyTarget → Type 0
IsTarget none = Unit
IsTarget (some fk) = IsName fk.table × IsName fk.column

-- A bound whose tagged bytes have a length that fits its 32-bit field.
abbrev IsBound : Value → Type 0
IsBound v = IsStorable v × (length (encode_values (v ∷ [])) < 2 ^ 32)

abbrev IsBucket : HistogramBucket → Type 0
IsBucket b = IsBound b.lower × IsBound b.upper × (b.count < 2 ^ 64)

abbrev IsStats : Option ColumnStats → Type 0
IsStats none = Unit
IsStats (some s) =
    (s.n_distinct < 2 ^ 64)
    × (s.null_count < 2 ^ 64)
    × (s.total_rows < 2 ^ 64)
    × (length s.histogram < 2 ^ 32)
    × Each IsBucket s.histogram

abbrev IsColumn : Column → Type 0
IsColumn c = IsName c.name × IsTarget c.foreign_key × IsStats c.stats

abbrev IsIndex : Index → Type 0
IsIndex i =
    (i.root < 2 ^ 32)
    × (length i.columns < 2 ^ 16)
    × Each (λ c. c < 2 ^ 16) i.columns
    × IsName i.name

-- `u16::MAX` is the sentinel, so it is no position of a primary key.
abbrev IsPosition : Option ℕ → Type 0
IsPosition none = Unit
IsPosition (some i) = i < 2 ^ 16 - 1

pub record IsSchema (s : Schema) : Type 0 where
  pub root : s.root < 2 ^ 32
  pub next_rowid : s.next_rowid < 2 ^ 64
  pub name : IsName s.name
  pub column_count : length s.columns < 2 ^ 16
  pub columns : Each IsColumn s.columns
  pub index_count : length s.indexes < 2 ^ 16
  pub indexes : Each IsIndex s.indexes
  pub row_count : s.row_count < 2 ^ 64
  pub primary_key_column : IsPosition s.primary_key_column
  pub mutations : s.mutations_since_analyze < 2 ^ 64

Reads-name : (s : Bytes) → IsName s → Reads read_str (write_str s) s
Reads-name s h = Reads-read_str s h.0 h.1

Reads-from_tag : (t : ColumnType) → Reads (type_from_tag (type_tag t)) [] t
unfolding type_from_tag type_tag
Reads-from_tag int_type = Reads-pure _
Reads-from_tag real_type = Reads-pure _
Reads-from_tag text_type = Reads-pure _
Reads-from_tag bool_type = Reads-pure _

Reads-action : (a : ForeignKeyAction) → Reads (fk_action_from_tag (fk_action_tag a)) [] a
unfolding fk_action_from_tag fk_action_tag
Reads-action restrict = Reads-pure _
Reads-action cascade = Reads-pure _
Reads-action set_null = Reads-pure _

Reads-foreign_key :
    (fk : Option ForeignKeyTarget)
    → IsTarget fk
    → Reads foreign_key_field (encode_foreign_key fk) fk
unfolding foreign_key_field encode_foreign_key
Reads-foreign_key none h = Reads-bind _ (Reads-u8_lem 0) (Reads-pure none)
Reads-foreign_key (some fk) h = Reads-bind _ (Reads-u8_lem 1) (
    Reads-bind _ (Reads-name fk.table h.0) (
      Reads-bind _ (Reads-name fk.column h.1) (
        Reads-bind _ (Reads-u8_lem (fk_action_tag fk.on_delete))
          (Reads-bind _ (Reads-action fk.on_delete) (Reads-pure _)))))

Reads-lift : {A : Type 0} (r : Result A) {a : A} → r ≡ ok a → Reads (lift r) [] a
unfolding lift
Reads-lift r h = rw h (Reads-pure _)

Reads-bound : (v : Value) → IsBound v → Reads bound (encode_bound v) v
unfolding bound encode_bound
Reads-bound v h = Reads-bind _ (Reads-u32 (length (encode_values (v ∷ []))) h.1) (
    Reads-last _ (Reads-take_lem (encode_values (v ∷ [])) refl)
      (Reads-bind _ (Reads-lift _ (decode_values-encode_values (v ∷ []) (h.0, tt))) (Reads-pure v)))

Reads-bucket : (b : HistogramBucket) → IsBucket b → Reads bucket (encode_bucket b) b
unfolding bucket encode_bucket
Reads-bucket b h =
    Reads-bind _ (Reads-bound b.lower h.0)
      (Reads-bind _ (Reads-bound b.upper h.1) (Reads-bind _ (Reads-u64 b.count h.2) (Reads-pure b)))

Reads-stats : (s : Option ColumnStats) → IsStats s → Reads stats_field (encode_stats s) s
unfolding stats_field encode_stats
Reads-stats none h = Reads-bind _ (Reads-u8_lem 0) (Reads-pure none)
Reads-stats (some s) h = Reads-bind _ (Reads-u8_lem 1) (
    Reads-bind _ (Reads-u64 s.n_distinct h.0) (
      Reads-bind _ (Reads-u64 s.null_count h.1) (
        Reads-bind _ (Reads-u64 s.total_rows h.2) (
          Reads-bind _ (Reads-u32 (length s.histogram) h.3) (
            Reads-bind _ (Reads-repeat IsBucket bucket encode_bucket Reads-bucket s.histogram h.4)
              (Reads-pure (some s)))))))

Reads-column_type : (t : ColumnType) → Reads column_type (type_tag t ∷ []) t
unfolding column_type
Reads-column_type t = Reads-last _ (Reads-u8_lem (type_tag t)) (Reads-from_tag t)

Reads-column : (c : Column) → IsColumn c → Reads decode_column (encode_column c) c
unfolding decode_column encode_column
Reads-column c h = Reads-bind _ (Reads-column_type c.ty) (
    Reads-bind _ (Reads-name c.name h.0) (
      Reads-bind _ (Reads-flag c.not_null) (
        Reads-bind _ (Reads-foreign_key c.foreign_key h.1)
          (Reads-bind _ (Reads-stats c.stats h.2) (Reads-pure c)))))

Reads-index : (i : Index) → IsIndex i → Reads decode_index (encode_index i) i
unfolding decode_index encode_index
Reads-index i h = Reads-bind _ (Reads-u32 i.root h.0) (
    Reads-bind _ (Reads-u16 (length i.columns) h.1) (
      Reads-bind _ (Reads-repeat (λ c. c < 2 ^ 16) u16 (le_bytes 2) Reads-u16 i.columns h.2) (
        Reads-bind _ (Reads-name i.name h.3) (
          Reads-bind _ (Reads-flag i.unique)
            (Reads-bind _ (Reads-flag i.is_building) (Reads-pure i))))))

pk_tag-lt : (o : Option ℕ) → IsPosition o → pk_tag o < 2 ^ 16
pk_tag-lt none h = omega arith
pk_tag-lt (some i) h = omega arith

pk_from_tag-pk_tag : (o : Option ℕ) → IsPosition o → pk_from_tag (pk_tag o) ≡ o
pk_from_tag-pk_tag none h = refl
pk_from_tag-pk_tag (some i) h = ground arith

Reads-schema : (s : Schema) → IsSchema s → Reads schema_body (encode_schema s) s
unfolding schema_body encode_schema
Reads-schema s h = Reads-bind _ (Reads-u32 s.root h.root) (
    Reads-bind _ (Reads-u64 s.next_rowid h.next_rowid) (
      Reads-bind _ (Reads-name s.name h.name) (
        Reads-bind _ (Reads-u16 (length s.columns) h.column_count) (
          Reads-bind _
            (Reads-repeat IsColumn decode_column encode_column Reads-column s.columns h.columns)
            (Reads-bind _ (Reads-u16 (length s.indexes) h.index_count) (
              Reads-bind _
                (Reads-repeat IsIndex decode_index encode_index Reads-index s.indexes h.indexes)
                (Reads-bind _ (Reads-u64 s.row_count h.row_count) (
                  Reads-bind _
                    (Reads-u16 (pk_tag s.primary_key_column)
                      (pk_tag-lt s.primary_key_column h.primary_key_column))
                    (Reads-bind _ (Reads-u64 s.mutations_since_analyze h.mutations) (
                      rw (pk_from_tag-pk_tag s.primary_key_column h.primary_key_column)
                        (Reads-pure s)))))))))))

-- A schema whose numbers, lengths and counts fit their fields, whose texts are UTF-8 and whose
-- primary key is not at the position of the sentinel is decoded to itself.
pub decode_schema-encode_schema : (s : Schema) → IsSchema s → decode_schema (encode_schema s) ≡ ok s
unfolding decode_schema value_of
decode_schema-encode_schema s h = rw (rw append-nil at ((Reads-schema s h).at []), value_of)
