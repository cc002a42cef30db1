-- ===== src/Clog/File/RoundTrip.antt =====
-- What `open` reads back from a file that the log has written.
use prehnite_db.Prelude.{
  ℕ, ◌^◌, ◌<◌, ◌≡◌, refl, ap, ◌∙◌, List, [], ◌∷◌, ◌++◌, append_assoc, ok, length, drop, arith,
  le→ltb,
}
use prehnite_db.Bytes.{Bytes, le_bytes}
use prehnite_db.Bytes.Laws.{from_le-le_bytes}
use prehnite_db.Maps.{insert, insert_all}
use prehnite_db.Clog.{Status, committed, rolled_back, Record}
use prehnite_db.Clog.File.{
  header, encode_record, encode_records, read_header, enter, read_records, bytes_eq, open_clog,
  open_existing, with_map, header_size,
}

-- The ids are `u64`s.
abbrev pub IsBatch : List Record → Type 0
IsBatch [] = Unit
IsBatch (r ∷ batch) = (r.0 < 2 ^ 64) × IsBatch batch

-- A whole record in front is entered into the map.
read_records-encode_record :
    (tx_id : ℕ) (st : Status) (map : List Record) (rest : Bytes)
    → tx_id < 2 ^ 64
    → read_records map (encode_record (tx_id, st) ++ rest) ≡ read_records (insert tx_id st map) rest
unfolding read_records encode_record enter le_bytes
read_records-encode_record tx_id committed map rest h =
    ap (λ n. read_records (insert n committed map) rest) (from_le-le_bytes 8 tx_id (omega arith))
read_records-encode_record tx_id rolled_back map rest h =
    ap (λ n. read_records (insert n rolled_back map) rest) (from_le-le_bytes 8 tx_id (omega arith))

-- Records in front are entered in order.
pub read_records-append :
    (batch map : List Record) (rest : Bytes)
    → IsBatch batch
    → read_records map (encode_records batch ++ rest) ≡ read_records (insert_all batch map) rest
unfolding encode_records insert_all
read_records-append [] map rest h = refl
read_records-append ((tx_id, st) ∷ batch) map rest h = rw append_assoc (
    read_records-encode_record tx_id st map (encode_records batch ++ rest) h.0
    ∙ read_records-append batch (insert tx_id st map) rest h.1)

pub read_header-header :
    (min : ℕ) (rest : Bytes) → min < 2 ^ 64 → read_header (header min ++ rest) ≡ ok min
unfolding read_header header le_bytes bytes_eq
read_header-header min rest h =
    rw (le→ltb header_size (length (header min ++ rest)) (omega arith))
      (ap ok (from_le-le_bytes 8 min (omega arith)))

pub drop-header : (min : ℕ) (rest : Bytes) → drop header_size (header min ++ rest) ≡ rest
unfolding header le_bytes
drop-header min rest = refl

-- Fewer bytes than a record are no record.
pub read_records_short :
    (map : List Record) (torn : Bytes) → length torn < 9 → read_records map torn ≡ ok map
unfolding read_records
read_records_short map (_ ∷ _ ∷ _ ∷ _ ∷ _ ∷ _ ∷ _ ∷ _ ∷ _ ∷ more) h = absurd (omega arith)
read_records_short map torn h = refl

pub open_clog-header :
    (file : Bytes) (min : ℕ)
    → read_header file ≡ ok min
    → open_clog file ≡ (with_map min (read_records [] (drop header_size file)), file)
unfolding open_clog open_existing
open_clog-header [] min h = unfold read_header in cc
open_clog-header (b ∷ file) min h = rw (h, open_existing)

-- A file with a header, whole records and fewer than 9 bytes behind them opens to the map of its
-- records and the floor in its header, and is left as it is.
pub open_clog-written :
    (min : ℕ) (batch : List Record) (torn : Bytes)
    → min < 2 ^ 64
    → IsBatch batch
    → length torn < 9
    → open_clog (header min ++ (encode_records batch ++ torn))
      ≡ (with_map min (ok (insert_all batch [])), header min ++ (encode_records batch ++ torn))
open_clog-written min batch torn hmin hbatch ht =
    open_clog-header (header min ++ (encode_records batch ++ torn)) min
      (read_header-header min (encode_records batch ++ torn) hmin)
    ∙ ap (λ r. (with_map min r, header min ++ (encode_records batch ++ torn)))
        (ap (read_records []) (drop-header min (encode_records batch ++ torn))
          ∙ read_records-append batch [] torn hbatch
          ∙ read_records_short (insert_all batch []) torn ht)
