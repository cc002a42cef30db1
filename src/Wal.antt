-- ===== src/Wal.antt =====
-- crates/prehnitedb/src/storage/wal.rs: the write-ahead log of a pager. A file is its bytes; what
-- each function does is given for I/O that succeeds.
pub mod Scan
pub mod Cut
pub mod Replay
pub mod Recovery
pub mod Fuel
use Prim.Native.Nat.{bit_xor}
use prehnite_db.Prelude.{
  ℕ, zero, suc, ◌+◌, ◌-◌, ◌*◌, ◌/◌, ◌%◌, ◌^◌, Bool, true, false, ◌&&◌, List, [], ◌∷◌, ◌++◌, Option,
  none, some, ltb, ◌==◌, if◌then◌else◌, length, take, drop,
}
use prehnite_db.Bytes.{Bytes, le_bytes, from_le}

-- `PAGE_SIZE` of crates/prehnitedb/src/storage/page.rs
unfoldable pub page_size : ℕ
page_size = 4096

abbrev pub rec_page : ℕ
rec_page = 1

abbrev pub rec_commit : ℕ
rec_commit = 2

-- Without the tag: page number, image and CRC; page count and CRC.
abbrev pub page_rest_len : ℕ
page_rest_len = page_size + 8

abbrev pub commit_rest_len : ℕ
commit_rest_len = 8

-- One of the eight rounds for a byte: the polynomial is XORed in where the lowest bit was set.
crc_bit : ℕ → ℕ
crc_bit crc = bit_xor (crc / 2) (if crc % 2 == 1 then 0xEDB88320 else 0)

crc_rounds : ℕ → ℕ → ℕ
unfolding crc_bit
crc_rounds zero crc = crc
crc_rounds (suc n) crc = crc_rounds n (crc_bit crc)

crc_bytes : ℕ → Bytes → ℕ
unfolding crc_rounds
crc_bytes crc [] = crc
crc_bytes crc (byte ∷ bytes) = crc_bytes (crc_rounds 8 (bit_xor crc byte)) bytes

crc_parts : ℕ → List Bytes → ℕ
unfolding crc_bytes
crc_parts crc [] = crc
crc_parts crc (part ∷ parts) = crc_parts (crc_bytes crc part) parts

unfoldable pub crc32 : List Bytes → ℕ
unfolding crc_parts
crc32 parts = 2 ^ 32 - 1 - crc_parts 0xFFFFFFFF parts

-- `seek(SeekFrom::Start(offset))` and `write_all(bytes)`; a gap is filled with zeros.
unfoldable pub write_at : ℕ → Bytes → Bytes → Bytes
write_at zero bytes file = bytes ++ drop (length bytes) file
write_at (suc n) bytes [] = 0 ∷ write_at n bytes []
write_at (suc n) bytes (b ∷ file) = b ∷ write_at n bytes file

pub record Wal : Type 0 where
  pub file : Bytes
  pub cursor : ℕ
  pub records : ℕ

-- `Wal::open` on the file that is there.
abbrev pub opened : Bytes → Wal
opened file = record { file = file; cursor = 0; records = 0 }

unfoldable pub page_record : ℕ → Bytes → Bytes
page_record number image =
    rec_page ∷ (le_bytes 4 number ++ (image ++ le_bytes 4 (crc32 (le_bytes 4 number ∷ image ∷ []))))

unfoldable pub commit_record : ℕ → Bytes
commit_record count = rec_commit ∷ (le_bytes 4 count ++ le_bytes 4 (crc32 (le_bytes 4 count ∷ [])))

unfoldable pub append_page : ℕ → Bytes → Wal → ℕ × Wal
unfolding write_at page_record
append_page number image w = (
  w.cursor + 5,
  record {
    file = write_at w.cursor (page_record number image) w.file;
    cursor = w.cursor + (page_size + 9);
    records = (w.records + 1) % 2 ^ 32;
  },
)

unfoldable pub seal : Wal → Wal
unfolding write_at commit_record
seal w = record w {
  file = write_at w.cursor (commit_record w.records) w.file;
  cursor = w.cursor + 9;
}

unfoldable pub read_page_at : ℕ → Wal → Option Bytes
read_page_at offset w =
    if ltb (length (drop offset w.file)) page_size
    then none
    else some (take page_size (drop offset w.file))

unfoldable pub reset : Wal → Wal
reset w = record { file = []; cursor = 0; records = 0 }

unfoldable pub discard : Wal → Wal
discard w = record w { cursor = 0; records = 0 }

-- The loop of `scan`; `none` where the fuel is used up.
unfoldable pub scan_from : ℕ → ℕ → Bytes → Option Bool
scan_from zero records bytes = none
scan_from (suc fuel) records [] = some false
scan_from (suc fuel) records (tag ∷ bytes) =
    let number = take 4 bytes in
    let image = take page_size (drop 4 bytes) in
    let stored = from_le (take 4 (drop page_size (drop 4 bytes))) in
    let count = take 4 bytes in
    let stored_count = from_le (take 4 (drop 4 bytes)) in
    let rest = scan_from fuel ((records + 1) % 2 ^ 32) (drop page_rest_len bytes) in
    if tag == rec_page
    then (if ltb (length bytes) page_rest_len
        then some false
        else if crc32 (number ∷ image ∷ []) == stored
        then rest
        else some false)
    else if tag == rec_commit
    then (if ltb (length bytes) commit_rest_len
        then some false
        else some (crc32 (count ∷ []) == stored_count && from_le count == records))
    else some false

-- Each round reads a byte at least, so that one round more than there are bytes is enough.
unfoldable pub scan : Bytes → Option Bool
unfolding scan_from
scan file = scan_from (suc (length file)) 0 file

unfoldable pub apply_from : ℕ → Bytes → Bytes → Option Bytes
unfolding write_at
apply_from zero log db = none
apply_from (suc fuel) [] db = some db
apply_from (suc fuel) (tag ∷ bytes) db =
    let written =
      write_at (from_le (take 4 bytes) * page_size) (take page_size (drop 4 bytes)) db in
    let rest = apply_from fuel (drop page_rest_len bytes) written in
    if tag == rec_page
    then (if ltb (length bytes) page_rest_len then some db else rest)
    else some db

unfoldable pub apply : Wal → Bytes → Option Bytes
unfolding apply_from
apply w db = apply_from (suc (length w.file)) w.file db

abbrev replayed : Wal → Option Bytes → Option (Bool × Wal × Bytes)
replayed w none = none
replayed w (some db) = some (true, w, db)

-- Whether a transaction was replayed, the log, and the database file.
after_scan : Wal → Bytes → Option Bool → Option (Bool × Wal × Bytes)
unfolding apply reset
after_scan w db none = none
after_scan w db (some false) = some (false, reset w, db)
after_scan w db (some true) = replayed (reset w) (apply w db)

unfoldable pub recover : Wal → Bytes → Option (Bool × Wal × Bytes)
unfolding scan after_scan
recover w db = after_scan w db (scan w.file)
