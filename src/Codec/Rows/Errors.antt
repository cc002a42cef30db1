-- ===== src/Codec/Rows/Errors.antt =====
-- What the row decoder refuses.
use prehnite_db.Prelude.{ℕ, ◌^◌, ◌<◌, ◌≡◌, List, ◌∷◌, ◌++◌, corruption, err, length}
use prehnite_db.Bytes.{Bytes}
use prehnite_db.Reader.Laws.{Each}
use prehnite_db.Value.{Value}
use prehnite_db.Codec.Rows.{encode_row, at_end, decode_row}
use prehnite_db.Codec.Rows.RoundTrip.{IsStorable, Reads-row}

-- An encoded row of storable values that has at least one byte behind its last column is refused
-- as corrupt.
pub decode_row_trailing :
    (tx_min tx_max : ℕ) (values : List Value) (extra : ℕ) (more : Bytes)
    → tx_min < 2 ^ 64
    → tx_max < 2 ^ 64
    → Each IsStorable values
    → decode_row (encode_row tx_min tx_max values ++ extra ∷ more) (length values) ≡ err corruption
unfolding decode_row
decode_row_trailing tx_min tx_max values extra more hmin hmax h =
    rw ((Reads-row tx_min tx_max values hmin hmax h).at (extra ∷ more), at_end)
