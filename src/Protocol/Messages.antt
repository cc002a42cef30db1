-- ===== src/Protocol/Messages.antt =====
-- The payloads of the messages, and requests and responses on a stream. Numbers are big-endian.
pub mod Payloads
pub mod RoundTrip
use prehnite_db.Prelude.{
  ℕ, ◌%◌, ◌^◌, Bool, true, false, not, List, [], ◌∷◌, ◌++◌, Option, none, some, Error, protocol,
  Result, ok, err, ◌==◌, if◌then◌else◌, length,
}
use prehnite_db.Prelude.Int.{ℤ, to_u64, from_u64}
use prehnite_db.Bytes.{Bytes, be_bytes, from_be}
use prehnite_db.Utf8.{is_utf8}
use prehnite_db.Value.{Value, null, int, real, text, bool}
use prehnite_db.Reader.{Parser, pure, fail, ◌>>=◌, take_bytes, take_u8, repeat, value_of}
use prehnite_db.Reader.Laws.{emit, concat_map}
use prehnite_db.Codec.Primitives.{bool_byte}
use prehnite_db.Protocol.{
  Request, query, prepare, execute, deallocate, Response, ack, error, rows_begin, row, rows_end,
  prepared, tag_query, tag_prepare, tag_execute, tag_deallocate, tag_ack, tag_rows_begin, tag_error,
  tag_row, tag_rows_end, tag_prepared,
}
use prehnite_db.Protocol.Frames.{Stream, write_frame, read_frame}

-- `FrameReader`
take : ℕ → Parser Bytes
take = take_bytes protocol

u8 : Parser ℕ
u8 = take_u8 protocol

uint : ℕ → Parser ℕ
unfolding take
uint w = do raw ← take w; pure (from_be raw)

u16 : Parser ℕ
unfolding uint
u16 = uint 2

u32 : Parser ℕ
unfolding uint
u32 = uint 4

u64 : Parser ℕ
unfolding uint
u64 = uint 8

i64 : Parser ℤ
unfolding uint
i64 = do v ← uint 8; pure (from_u64 v)

utf8 : Bytes → Parser Bytes
utf8 raw = if is_utf8 raw then pure raw else fail protocol

abbrev val_null : ℕ
val_null = 0

abbrev val_int : ℕ
val_int = 1

abbrev val_real : ℕ
val_real = 2

abbrev val_text : ℕ
val_text = 3

abbrev val_bool : ℕ
val_bool = 4

-- `len() as u16` and `len() as u32` wrap.
unfoldable pub encode_value : Value → Bytes
encode_value null = val_null ∷ []
encode_value (int n) = val_int ∷ be_bytes 8 (to_u64 n)
encode_value (real bits) = val_real ∷ be_bytes 8 bits
encode_value (text s) = val_text ∷ (be_bytes 4 (length s % 2 ^ 32) ++ s)
encode_value (bool b) = val_bool ∷ bool_byte b ∷ []

decode_payload : ℕ → Parser Value
unfolding u8 u32 u64 i64 take utf8
decode_payload tag =
    if tag == val_null
    then pure null
    else if tag == val_int
    then (do n ← i64; pure (int n))
    else if tag == val_real
    then (do bits ← u64; pure (real bits))
    else if tag == val_text
    then (do len ← u32; raw ← take len; s ← utf8 raw; pure (text s))
    else if tag == val_bool
    then (do b ← u8; pure (bool (not (b == 0))))
    else fail protocol

unfoldable pub decode_value : Parser Value
unfolding u8 decode_payload
decode_value = do tag ← u8; decode_payload tag

encode_name : Bytes → Bytes
encode_name name = be_bytes 2 (length name % 2 ^ 16) ++ name

pub encode_columns : List Bytes → Bytes
unfolding encode_name
encode_columns columns = be_bytes 2 (length columns % 2 ^ 16) ++ concat_map encode_name columns

decode_name : Parser Bytes
unfolding u16 take utf8
decode_name = do len ← u16; raw ← take len; utf8 raw

pub decode_rows_begin : Parser Response
unfolding u16 decode_name
decode_rows_begin = do count ← u16; columns ← repeat count decode_name; pure (rows_begin columns)

pub encode_row : List Value → Bytes
unfolding encode_value
encode_row values = be_bytes 2 (length values % 2 ^ 16) ++ concat_map encode_value values

pub decode_row : Parser Response
unfolding u16 decode_value
decode_row = do count ← u16; values ← repeat count decode_value; pure (row values)

pub encode_execute : ℕ → List Value → Bytes
unfolding encode_value
encode_execute handle params =
    emit (
      be_bytes 8 handle ∷ be_bytes 2 (length params % 2 ^ 16) ∷ concat_map encode_value params ∷ [])

pub decode_execute : Parser Request
unfolding u64 u16 decode_value
decode_execute = do
  handle ← u64
  count ← u16
  params ← repeat count decode_value
  pure (execute handle params)

pub decode_deallocate : Parser Request
unfolding u64
decode_deallocate = do handle ← u64; pure (deallocate handle)

pub decode_prepared : Parser Response
unfolding u64
decode_prepared = do handle ← u64; pure (prepared handle)

unfoldable pub write_request : Request → Result Bytes
unfolding encode_execute
write_request (query sql) = write_frame tag_query sql
write_request (prepare sql) = write_frame tag_prepare sql
write_request (execute handle params) = write_frame tag_execute (encode_execute handle params)
write_request (deallocate handle) = write_frame tag_deallocate (be_bytes 8 handle)

-- A payload that is a text as a whole.
abbrev with_text : {A : Type 0} → (Bytes → A) → Result (Bytes × Bytes) → Result (A × Bytes)
with_text f (err e) = err e
with_text f (ok (s, rest)) = ok (f s, rest)

pub whole_text : {A : Type 0} → (Bytes → A) → Parser A
unfolding utf8
whole_text f payload = with_text f (utf8 payload [])

request_body : ℕ → Parser Request
unfolding whole_text decode_execute decode_deallocate
request_body tag =
    if tag == tag_query
    then whole_text query
    else if tag == tag_prepare
    then whole_text prepare
    else if tag == tag_execute
    then decode_execute
    else if tag == tag_deallocate
    then decode_deallocate
    else fail protocol

abbrev as_some : {A : Type 0} → Result A → Result (Option A)
as_some (err e) = err e
as_some (ok a) = ok (some a)

abbrev as_request : Result (Option (ℕ × Bytes)) → Result (Option Request)
as_request (err e) = err e
as_request (ok none) = ok none
as_request (ok (some (tag, payload))) = as_some (value_of (request_body tag payload))

unfoldable pub read_request : Stream → Result (Option Request) × Stream
unfolding request_body
read_request s = let (frame, rest) = read_frame s in (as_request frame, rest)

unfoldable pub write_response : Response → Result Bytes
unfolding encode_columns encode_row
write_response (ack message) = write_frame tag_ack message
write_response (error message) = write_frame tag_error message
write_response (rows_begin columns) = write_frame tag_rows_begin (encode_columns columns)
write_response (row values) = write_frame tag_row (encode_row values)
write_response rows_end = write_frame tag_rows_end []
write_response (prepared handle) = write_frame tag_prepared (be_bytes 8 handle)

response_body : ℕ → Parser Response
unfolding whole_text decode_rows_begin decode_row decode_prepared
response_body tag =
    if tag == tag_ack
    then whole_text ack
    else if tag == tag_error
    then whole_text error
    else if tag == tag_rows_begin
    then decode_rows_begin
    else if tag == tag_row
    then decode_row
    else if tag == tag_rows_end
    then pure rows_end
    else if tag == tag_prepared
    then decode_prepared
    else fail protocol

-- The end of the stream is an error here.
abbrev as_response : Result (Option (ℕ × Bytes)) → Result Response
as_response (err e) = err e
as_response (ok none) = err protocol
as_response (ok (some (tag, payload))) = value_of (response_body tag payload)

unfoldable pub read_response : Stream → Result Response × Stream
unfolding response_body
read_response s = let (frame, rest) = read_frame s in (as_response frame, rest)
