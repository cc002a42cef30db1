-- ===== src/Protocol/Frames.antt =====
-- Frames on a byte stream. A stream is what its `read` calls meet, in order; `write_frame` returns
-- the bytes that it sends.
pub mod Arrival
pub mod Cut
use prehnite_db.Prelude.{
  ℕ, zero, suc, ◌-◌, ◌%◌, ◌^◌, List, [], ◌∷◌, ◌++◌, Option, none, some, Error, io, protocol, Result,
  ok, err, ltb, leb, ◌==◌, if◌then◌else◌, length, take, drop,
}
use prehnite_db.Bytes.{Bytes, be_bytes, from_be}
use prehnite_db.Protocol.{max_frame}

-- A `read` finds some bytes, of which it takes as many as fit, none at the end of the stream, or
-- fails, of itself or because it was interrupted.
pub data Event : Type 0 where
  chunk : Bytes → Event
  interrupted : Event
  fault : Event

abbrev pub Stream : Type 0
Stream = List Event

-- `Ok(0)`: the end of the stream, before any byte or after some.
unfoldable pub at_eof : Bytes → Result (Option Bytes)
at_eof [] = ok none
at_eof (b ∷ got) = err protocol

-- The loop of `fill`, with what it has read and how much it still wants.
fill_from : Bytes → ℕ → Stream → Result (Option Bytes) × Stream
unfolding at_eof
fill_from got zero s = (ok (some got), s)
fill_from got (suc w) [] = (at_eof got, [])
fill_from got (suc w) (chunk [] ∷ s) = (at_eof got, s)
fill_from got (suc w) (chunk (b ∷ bs) ∷ s) =
    let more = fill_from (got ++ b ∷ bs) (suc w - length (b ∷ bs)) s in
    if leb (length (b ∷ bs)) (suc w)
    then more
    else (ok (some (got ++ take (suc w) (b ∷ bs))), chunk (drop (suc w) (b ∷ bs)) ∷ s)
fill_from got (suc w) (interrupted ∷ s) = fill_from got (suc w) s
fill_from got (suc w) (fault ∷ s) = (err io, s)

-- `none` where the source answers `Ok(false)`.
unfoldable pub fill : ℕ → Stream → Result (Option Bytes) × Stream
unfolding fill_from
fill n s = fill_from [] n s

unfoldable pub write_frame : ℕ → Bytes → Result Bytes
write_frame tag payload =
    if ltb max_frame (length payload)
    then err protocol
    else ok (tag ∷ (be_bytes 4 (length payload) ++ payload))

-- A connection that closes before the payload is an error too.
after_payload : ℕ → Result (Option Bytes) × Stream → Result (Option (ℕ × Bytes)) × Stream
after_payload tag (err e, s) = (err e, s)
after_payload tag (ok none, s) = (err protocol, s)
after_payload tag (ok (some payload), s) = (ok (some (tag, payload)), s)

read_payload : ℕ → ℕ → Stream → Result (Option (ℕ × Bytes)) × Stream
unfolding fill after_payload
read_payload tag size s =
    if ltb max_frame size
    then (err protocol, s)
    else if size == 0
    then (ok (some (tag, [])), s)
    else after_payload tag (fill size s)

-- The first byte of the header is the tag; the other four are the length.
after_header : Result (Option Bytes) × Stream → Result (Option (ℕ × Bytes)) × Stream
unfolding read_payload
after_header (err e, s) = (err e, s)
after_header (ok none, s) = (ok none, s)
after_header (ok (some []), s) = read_payload 0 0 s
after_header (ok (some (tag ∷ size)), s) = read_payload tag (from_be size) s

unfoldable pub read_frame : Stream → Result (Option (ℕ × Bytes)) × Stream
unfolding fill after_header
read_frame s = after_header (fill 5 s)
