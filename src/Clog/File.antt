-- ===== src/Clog/File.antt =====
-- The file of the commit log: a 16-byte header, then records of 9 bytes.
pub mod RoundTrip
use prehnite_db.Prelude.{
  ℕ, ◌^◌, ◌<◌, List, [], ◌∷◌, ◌++◌, Error, corruption, Result, ok, err, ltb, ◌==◌, if◌then◌else◌,
  length, take, drop, Bool, true, false, ◌&&◌,
}
use prehnite_db.Bytes.{Bytes, le_bytes, from_le}
use prehnite_db.Maps.{insert}
use prehnite_db.Clog.{Status, committed, rolled_back, Record, ClogState}

-- "PREHCLG1"
abbrev pub clog_magic : Bytes
clog_magic = b'P' ∷ b'R' ∷ b'E' ∷ b'H' ∷ b'C' ∷ b'L' ∷ b'G' ∷ b'1' ∷ []

abbrev pub header_size : ℕ
header_size = 16

abbrev pub record_size : ℕ
record_size = 9

abbrev pub status_tag : Status → ℕ
status_tag committed = 1
status_tag rolled_back = 2

-- The bytes that `write_header` puts at the start of a file.
unfoldable pub header : ℕ → Bytes
header min_tx_id = clog_magic ++ le_bytes 8 min_tx_id

unfoldable pub encode_record : Record → Bytes
encode_record (tx_id, st) = le_bytes 8 tx_id ++ status_tag st ∷ []

unfoldable pub encode_records : List Record → Bytes
encode_records [] = []
encode_records (r ∷ batch) = encode_record r ++ encode_records batch

bytes_eq : Bytes → Bytes → Bool
bytes_eq [] [] = true
bytes_eq (a ∷ x) (b ∷ y) = a == b && bytes_eq x y
bytes_eq x y = false

unfoldable pub read_header : Bytes → Result ℕ
unfolding bytes_eq
read_header file =
    if ltb (length file) header_size
    then err corruption
    else if bytes_eq (take 8 file) clog_magic
    then ok (from_le (take 8 (drop 8 file)))
    else err corruption

-- One record into the map; what follows is read by `rest`.
enter : ℕ → ℕ → List Record → (List Record → Result (List Record)) → Result (List Record)
enter tx_id tag map rest =
    if tag == 1
    then rest (insert tx_id committed map)
    else if tag == 2
    then rest (insert tx_id rolled_back map)
    else err corruption

-- The loop of `open`: whole records into the map, until fewer than 9 bytes are left.
unfoldable pub read_records : List Record → Bytes → Result (List Record)
unfolding enter
read_records map (b0 ∷ b1 ∷ b2 ∷ b3 ∷ b4 ∷ b5 ∷ b6 ∷ b7 ∷ tag ∷ more) =
    enter (from_le (b0 ∷ b1 ∷ b2 ∷ b3 ∷ b4 ∷ b5 ∷ b6 ∷ b7 ∷ [])) tag map (λ m. read_records m more)
read_records map short = ok map

abbrev pub with_map : ℕ → Result (List Record) → Result ClogState
with_map min (err e) = err e
with_map min (ok m) = ok (record {
  map = m;
  pending = [];
  next_lsn = 0;
  durable_lsn = 0;
  flushing = false;
  min_tx_id = min;
})

open_existing : Bytes → Result ℕ → Result ClogState
open_existing file (err e) = err e
open_existing file (ok min) = with_map min (read_records [] (drop header_size file))

-- `Clog::open`: the state, and the file, which gets a header if it is empty.
unfoldable pub open_clog : Bytes → Result ClogState × Bytes
unfolding open_existing
open_clog [] = (with_map 0 (ok []), header 0)
open_clog file = (open_existing file (read_header file), file)
