-- ===== src/Examples/Messages.antt =====
-- Messages on streams that are cut into reads at will.
use prehnite_db.Prelude.{
  ◌≡◌, refl, ◌∷◌, [], true, none, some, ok, err, protocol, arith, ◌==◌, if◌then◌else◌,
}
use prehnite_db.Bytes.{Bytes, be_bytes}
use prehnite_db.Utf8.{is_utf8}
use prehnite_db.Value.{null}
use prehnite_db.Protocol.{query, row}
use prehnite_db.Protocol.Frames.{Stream, chunk, interrupted, write_frame, read_frame}
use prehnite_db.Protocol.Frames.Arrival.{Arrives}
use prehnite_db.Protocol.Frames.Cut.{read_frame_cut}
use prehnite_db.Protocol.Messages.{
  encode_value, write_request, read_request, write_response, read_response,
}
use prehnite_db.Protocol.Messages.RoundTrip.{
  read_request-write_request, read_response-write_response,
}

-- "SELECT"
abbrev select : Bytes
select = b'S' ∷ b'E' ∷ b'L' ∷ b'E' ∷ b'C' ∷ b'T' ∷ []

abbrev sent_select : Bytes
sent_select = 1 ∷ 0 ∷ 0 ∷ 0 ∷ 6 ∷ select

sends_select : write_request (query select) ≡ ok sent_select
unfolding write_request write_frame be_bytes
sends_select = refl

select-is_utf8 : is_utf8 select ≡ true
unfolding is_utf8
select-is_utf8 = refl

-- The frame in three reads, the last of which brings a byte of the next frame.
abbrev in_pieces : Stream
in_pieces =
    chunk (1 ∷ 0 ∷ 0 ∷ [])
    ∷ interrupted
    ∷ chunk (0 ∷ 6 ∷ b'S' ∷ b'E' ∷ [])
    ∷ chunk (b'L' ∷ b'E' ∷ b'C' ∷ b'T' ∷ 2 ∷ [])
    ∷ []

read_request-write_request_example :
    Arrives (read_request in_pieces) (ok (some (query select))) (2 ∷ [])
read_request-write_request_example =
    read_request-write_request (query select) (2 ∷ []) in_pieces select-is_utf8 sends_select tt refl

frame_select : write_frame 1 select ≡ ok sent_select
unfolding write_frame be_bytes
frame_select = refl

-- The connection closes after seven of the eleven bytes.
abbrev cut_off : Stream
cut_off = chunk (1 ∷ 0 ∷ 0 ∷ []) ∷ chunk (0 ∷ 6 ∷ b'S' ∷ b'E' ∷ []) ∷ []

read_frame_cut_example : (read_frame cut_off).0 ≡ (if 7 == 0 then ok none else err protocol)
read_frame_cut_example = read_frame_cut 1 select 7 cut_off frame_select (omega arith) tt refl

abbrev one_row : Stream
one_row = chunk (0x13 ∷ 0 ∷ 0 ∷ 0 ∷ 3 ∷ 0 ∷ 1 ∷ []) ∷ chunk (0 ∷ []) ∷ []

sends_row : write_response (row (null ∷ [])) ≡ ok (0x13 ∷ 0 ∷ 0 ∷ 0 ∷ 3 ∷ 0 ∷ 1 ∷ 0 ∷ [])
unfolding write_response write_frame encode_value be_bytes
sends_row = refl

read_response-write_response_example : Arrives (read_response one_row) (ok (row (null ∷ []))) []
read_response-write_response_example =
    read_response-write_response (row (null ∷ [])) [] one_row (omega arith, (tt, tt)) sends_row tt
      refl
