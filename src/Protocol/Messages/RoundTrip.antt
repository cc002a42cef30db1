-- ===== src/Protocol/Messages/RoundTrip.antt =====
-- What one end writes, the other reads.
use prehnite_db.Prelude.{ℕ, ◌^◌, ◌<◌, ◌≡◌, refl, ap, ◌∙◌, true, [], ◌++◌, some, ok, length}
use prehnite_db.Bytes.{Bytes, be_bytes}
use prehnite_db.Utf8.{is_utf8}
use prehnite_db.Reader.{pure, value_of}
use prehnite_db.Reader.Laws.{Each}
use prehnite_db.Protocol.{
  Request, query, prepare, execute, deallocate, Response, ack, error, rows_begin, row, rows_end,
  prepared,
}
use prehnite_db.Protocol.Frames.{Stream, write_frame}
use prehnite_db.Protocol.Frames.Arrival.{bytes_of, IsLive, Arrives, read_frame-write_frame}
use prehnite_db.Protocol.Messages.{
  encode_columns, decode_rows_begin, encode_row, decode_row, encode_execute, decode_execute,
  decode_deallocate, decode_prepared, as_some, request_body, response_body, as_request, as_response,
  write_request, read_request, write_response, read_response,
}
use prehnite_db.Protocol.Messages.Payloads.{
  IsColumnName, IsValues, Reads-row, Reads-columns, Reads-execute, Reads-deallocate, Reads-prepared,
  value_of-Reads, value_of-whole_text,
}

-- What the Rust types of the fields rule out, and lengths that fit their fields.
abbrev pub IsRequest : Request → Type 0
IsRequest (query sql) = is_utf8 sql ≡ true
IsRequest (prepare sql) = is_utf8 sql ≡ true
IsRequest (execute handle params) = (handle < 2 ^ 64) × IsValues params
IsRequest (deallocate handle) = handle < 2 ^ 64

abbrev pub IsResponse : Response → Type 0
IsResponse (ack message) = is_utf8 message ≡ true
IsResponse (error message) = is_utf8 message ≡ true
IsResponse (rows_begin columns) = (length columns < 2 ^ 16) × Each IsColumnName columns
IsResponse (row values) = IsValues values
IsResponse rows_end = Unit
IsResponse (prepared handle) = handle < 2 ^ 64

request-Arrives :
    (tag : ℕ) (payload rest : Bytes) (s : Stream) {sent : Bytes} (r : Request)
    → value_of (request_body tag payload) ≡ ok r
    → write_frame tag payload ≡ ok sent
    → IsLive s
    → bytes_of s ≡ sent ++ rest
    → Arrives (read_request s) (ok (some r)) rest
unfolding read_request
request-Arrives tag payload rest s r body sends live e =
    let a = read_frame-write_frame tag payload rest s sends live e in
    record {
      result = ap as_request a.result ∙ ap as_some body;
      remaining = a.remaining;
      live = a.live;
    }

response-Arrives :
    (tag : ℕ) (payload rest : Bytes) (s : Stream) {sent : Bytes} (r : Response)
    → value_of (response_body tag payload) ≡ ok r
    → write_frame tag payload ≡ ok sent
    → IsLive s
    → bytes_of s ≡ sent ++ rest
    → Arrives (read_response s) (ok r) rest
unfolding read_response
response-Arrives tag payload rest s r body sends live e =
    let a = read_frame-write_frame tag payload rest s sends live e in
    record { result = ap as_response a.result ∙ body; remaining = a.remaining; live = a.live }

-- A request whose fields fit their widths and whose frame is not refused as too long is read at
-- the other end, however a stream without faults cuts the bytes into reads, and what follows it
-- on the stream is left for the next read.
pub read_request-write_request :
    (r : Request) (rest : Bytes) (s : Stream) {sent : Bytes}
    → IsRequest r
    → write_request r ≡ ok sent
    → IsLive s
    → bytes_of s ≡ sent ++ rest
    → Arrives (read_request s) (ok (some r)) rest
unfolding write_request request_body
read_request-write_request (query sql) rest s h sends live e =
    request-Arrives 0x01 sql rest s (query sql) (value_of-whole_text query sql h) sends live e
read_request-write_request (prepare sql) rest s h sends live e =
    request-Arrives 0x02 sql rest s (prepare sql) (value_of-whole_text prepare sql h) sends live e
read_request-write_request (execute handle params) rest s h sends live e =
    request-Arrives 0x03 (encode_execute handle params) rest s (execute handle params)
      (value_of-Reads decode_execute _ (Reads-execute handle params h.0 h.1)) sends live e
read_request-write_request (deallocate handle) rest s h sends live e =
    request-Arrives 0x04 (be_bytes 8 handle) rest s (deallocate handle)
      (value_of-Reads decode_deallocate _ (Reads-deallocate handle h)) sends live e

-- A response whose fields fit their widths and whose frame is not refused as too long is read at
-- the other end, however a stream without faults cuts the bytes into reads, and what follows it
-- on the stream is left for the next read.
pub read_response-write_response :
    (r : Response) (rest : Bytes) (s : Stream) {sent : Bytes}
    → IsResponse r
    → write_response r ≡ ok sent
    → IsLive s
    → bytes_of s ≡ sent ++ rest
    → Arrives (read_response s) (ok r) rest
unfolding write_response response_body
read_response-write_response (ack message) rest s h sends live e =
    response-Arrives 0x10 message rest s (ack message) (value_of-whole_text ack message h) sends
      live e
read_response-write_response (error message) rest s h sends live e =
    response-Arrives 0x12 message rest s (error message) (value_of-whole_text error message h) sends
      live e
read_response-write_response (rows_begin columns) rest s h sends live e =
    response-Arrives 0x11 (encode_columns columns) rest s (rows_begin columns)
      (value_of-Reads decode_rows_begin _ (Reads-columns columns h.0 h.1)) sends live e
read_response-write_response (row values) rest s h sends live e =
    response-Arrives 0x13 (encode_row values) rest s (row values)
      (value_of-Reads decode_row _ (Reads-row values h)) sends live e
read_response-write_response rows_end rest s h sends live e =
    response-Arrives 0x14 [] rest s rows_end (unfold value_of pure in refl) sends live e
read_response-write_response (prepared handle) rest s h sends live e =
    response-Arrives 0x15 (be_bytes 8 handle) rest s (prepared handle)
      (value_of-Reads decode_prepared _ (Reads-prepared handle h)) sends live e
