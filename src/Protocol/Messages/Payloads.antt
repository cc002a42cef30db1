-- ===== src/Protocol/Messages/Payloads.antt =====
-- Every payload is read back by its decoder.
use prehnite_db.Prelude.{
  ℕ, ◌%◌, ◌^◌, ◌<◌, ◌≡◌, refl, ap, true, false, List, [], ◌∷◌, append-nil, ok, length, arith,
}
use prehnite_db.Prelude.Int.{ℤ, IsI64, to_u64, to_u64-lt, from_u64-to_u64}
use prehnite_db.Bytes.{Bytes, be_bytes}
use prehnite_db.Bytes.Laws.{length-be_bytes, from_be-be_bytes}
use prehnite_db.Utf8.{is_utf8}
use prehnite_db.Value.{Value, null, int, real, text, bool}
use prehnite_db.Reader.{Parser, value_of}
use prehnite_db.Reader.Laws.{
  Reads, Reads-pure, Reads-bind, Reads-last, Reads-take, Reads-u8, Reads-repeat, Each,
}
use prehnite_db.Codec.Rows.RoundTrip.{IsStorable}
use prehnite_db.Protocol.{execute, deallocate, rows_begin, row, prepared}
use prehnite_db.Protocol.Messages.{
  take, u8, uint, u16, u32, u64, i64, utf8, encode_value, decode_payload, decode_value, encode_name,
  encode_columns, decode_name, decode_rows_begin, encode_row, decode_row, encode_execute,
  decode_execute, decode_deallocate, decode_prepared, whole_text, with_text,
}

Reads-take_lem : {n : ℕ} (bs : Bytes) → length bs ≡ n → Reads (take n) bs bs
unfolding take
Reads-take_lem bs h = Reads-take _ _ bs h

Reads-u8_lem : (b : ℕ) → Reads u8 (b ∷ []) b
unfolding u8
Reads-u8_lem = Reads-u8 _

Reads-uint : (w n : ℕ) → n < 256 ^ w → Reads (uint w) (be_bytes w n) n
unfolding uint
Reads-uint w n h =
    Reads-last _ (Reads-take_lem (be_bytes w n) (length-be_bytes w n))
      (rw (from_be-be_bytes w n h) (Reads-pure n))

Reads-u16 : (n : ℕ) → n < 2 ^ 16 → Reads u16 (be_bytes 2 (n % 2 ^ 16)) n
unfolding u16
Reads-u16 n h = let small : n % 2 ^ 16 ≡ n = omega arith in rw small (Reads-uint 2 n (omega arith))

Reads-u32 : (n : ℕ) → n < 2 ^ 32 → Reads u32 (be_bytes 4 (n % 2 ^ 32)) n
unfolding u32
Reads-u32 n h = let small : n % 2 ^ 32 ≡ n = omega arith in rw small (Reads-uint 4 n (omega arith))

Reads-u64 : (n : ℕ) → n < 2 ^ 64 → Reads u64 (be_bytes 8 n) n
unfolding u64
Reads-u64 n h = Reads-uint 8 n (omega arith)

Reads-i64 : (n : ℤ) → IsI64 n → Reads i64 (be_bytes 8 (to_u64 n)) n
unfolding i64
Reads-i64 n h =
    Reads-last _ (Reads-uint 8 (to_u64 n) (omega (arith, to_u64-lt n h)))
      (rw (from_u64-to_u64 n h) (Reads-pure n))

Reads-utf8 : (s : Bytes) → is_utf8 s ≡ true → Reads (utf8 s) [] s
unfolding utf8
Reads-utf8 s h = rw h (Reads-pure s)

Reads-value : (v : Value) → IsStorable v → Reads decode_value (encode_value v) v
unfolding decode_value encode_value decode_payload
Reads-value null h = Reads-bind _ (Reads-u8_lem 0) (Reads-pure null)
Reads-value (int n) h =
    Reads-bind _ (Reads-u8_lem 1) (Reads-last _ (Reads-i64 n h) (Reads-pure (int n)))
Reads-value (real bits) h =
    Reads-bind _ (Reads-u8_lem 2) (Reads-last _ (Reads-u64 bits h) (Reads-pure (real bits)))
Reads-value (text s) h = Reads-bind _ (Reads-u8_lem 3) (
    Reads-bind _ (Reads-u32 (length s) h.1) (
      Reads-last _ (Reads-take_lem s refl) (Reads-last _ (Reads-utf8 s h.0) (Reads-pure (text s)))))
Reads-value (bool true) h =
    Reads-bind _ (Reads-u8_lem 4) (Reads-last _ (Reads-u8_lem 1) (Reads-pure (bool true)))
Reads-value (bool false) h =
    Reads-bind _ (Reads-u8_lem 4) (Reads-last _ (Reads-u8_lem 0) (Reads-pure (bool false)))

-- A column name, whose length fits its 16-bit field.
abbrev pub IsColumnName : Bytes → Type 0
IsColumnName s = (is_utf8 s ≡ true) × (length s < 2 ^ 16)

Reads-name : (s : Bytes) → IsColumnName s → Reads decode_name (encode_name s) s
unfolding decode_name encode_name
Reads-name s h =
    Reads-bind _ (Reads-u16 (length s) h.1)
      (Reads-last _ (Reads-take_lem s refl) (Reads-utf8 s h.0))

-- The number of a message's values fits its 16-bit field.
abbrev pub IsValues : List Value → Type 0
IsValues values = (length values < 2 ^ 16) × Each IsStorable values

pub Reads-row :
    (values : List Value) → IsValues values → Reads decode_row (encode_row values) (row values)
unfolding decode_row encode_row
Reads-row values h = Reads-bind _ (Reads-u16 (length values) h.0) (
    Reads-last _ (Reads-repeat IsStorable decode_value encode_value Reads-value values h.1)
      (Reads-pure (row values)))

pub Reads-columns :
    (columns : List Bytes)
    → length columns < 2 ^ 16
    → Each IsColumnName columns
    → Reads decode_rows_begin (encode_columns columns) (rows_begin columns)
unfolding decode_rows_begin encode_columns
Reads-columns columns count h = Reads-bind _ (Reads-u16 (length columns) count) (
    Reads-last _ (Reads-repeat IsColumnName decode_name encode_name Reads-name columns h)
      (Reads-pure (rows_begin columns)))

pub Reads-execute :
    (handle : ℕ) (params : List Value)
    → handle < 2 ^ 64
    → IsValues params
    → Reads decode_execute (encode_execute handle params) (execute handle params)
unfolding decode_execute encode_execute
Reads-execute handle params hh h = Reads-bind _ (Reads-u64 handle hh) (
    Reads-bind _ (Reads-u16 (length params) h.0) (
      Reads-bind _ (Reads-repeat IsStorable decode_value encode_value Reads-value params h.1)
        (Reads-pure (execute handle params))))

pub Reads-deallocate :
    (handle : ℕ) → handle < 2 ^ 64 → Reads decode_deallocate (be_bytes 8 handle) (deallocate handle)
unfolding decode_deallocate
Reads-deallocate handle h = Reads-last _ (Reads-u64 handle h) (Reads-pure (deallocate handle))

pub Reads-prepared :
    (handle : ℕ) → handle < 2 ^ 64 → Reads decode_prepared (be_bytes 8 handle) (prepared handle)
unfolding decode_prepared
Reads-prepared handle h = Reads-last _ (Reads-u64 handle h) (Reads-pure (prepared handle))

pub value_of-Reads :
    {A : Type 0} (p : Parser A) (bs : Bytes) {a : A} → Reads p bs a → value_of (p bs) ≡ ok a
unfolding value_of
value_of-Reads p bs h = rw (rw append-nil at (h.at []), value_of) refl

pub value_of-whole_text :
    {A : Type 0} (f : Bytes → A) (s : Bytes)
    → is_utf8 s ≡ true
    → value_of (whole_text f s) ≡ ok (f s)
unfolding value_of whole_text
value_of-whole_text f s h = ap (λ r. value_of (with_text f r)) ((Reads-utf8 s h).at [])
