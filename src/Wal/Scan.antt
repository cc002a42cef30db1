-- ===== src/Wal/Scan.antt =====
-- What `scan` makes of a log that is sealed, and of one that is cut off anywhere before its end.
use prehnite_db.Prelude.{
  ℕ, zero, suc, ◌+◌, ◌%◌, ◌^◌, ◌<◌, ◌≡◌, refl, ap, ◌∙◌, false, List, [], ◌∷◌, ◌++◌, append_assoc,
  some, ltb, ◌==◌, length, take, drop, arith, take_exact, drop_exact, length-append, le→ltb, eq→==,
}
use prehnite_db.Bytes.{Bytes, le_bytes, from_le}
use prehnite_db.Bytes.Laws.{length-le_bytes, from_le-le_bytes}
use prehnite_db.Wal.{
  page_size, page_rest_len, commit_rest_len, rec_page, crc32, page_record, commit_record, scan_from,
  scan,
}

-- A page number and an image of a page.
abbrev pub Page : Type 0
Page = ℕ × Bytes

abbrev pub IsPages : List Page → Type 0
IsPages [] = Unit
IsPages (p ∷ pages) = ((p.0 < 2 ^ 32) × (length p.1 ≡ page_size)) × IsPages pages

-- The log after the pages have been appended.
unfoldable pub page_records : List Page → Bytes
page_records [] = []
page_records (p ∷ pages) = page_record p.0 p.1 ++ page_records pages

crc32-lt : (parts : List Bytes) → crc32 parts < 2 ^ 32
unfolding crc32
crc32-lt parts = omega arith

from_le-crc32 : (parts : List Bytes) → from_le (le_bytes 4 (crc32 parts)) ≡ crc32 parts
from_le-crc32 parts = from_le-le_bytes 4 (crc32 parts) (omega (arith, crc32-lt parts))

abbrev pub page_rest : Bytes → Bytes → Bytes → Bytes
page_rest a image c = a ++ (image ++ c)

pub length-page_rest :
    (a image c : Bytes)
    → length a ≡ 4
    → length image ≡ page_size
    → length c ≡ 4
    → length (page_rest a image c) ≡ page_rest_len
length-page_rest a image c ha h hc =
    omega (arith, length-append a (image ++ c), length-append image c, ha, h, hc)

pub length-page_record :
    (number : ℕ) (image : Bytes)
    → length image ≡ page_size
    → length (page_record number image) ≡ suc page_rest_len
unfolding page_record
length-page_record number image h =
    ap suc (length-page_rest _ image _ (length-le_bytes 4 number) h (length-le_bytes 4 _))

scan_from-page_rest :
    (fuel records : ℕ) (a image c rest : Bytes)
    → length a ≡ 4
    → length image ≡ page_size
    → length c ≡ 4
    → from_le c ≡ crc32 (a ∷ image ∷ [])
    → scan_from (suc fuel) records (rec_page ∷ (page_rest a image c ++ rest))
      ≡ scan_from fuel ((records + 1) % 2 ^ 32) rest
unfolding scan_from
scan_from-page_rest fuel records a image c rest ha h hc crc =
    let bytes = page_rest a image c ++ rest in
    let all = length-page_rest a image c ha h hc in
    let split : bytes ≡ a ++ (image ++ (c ++ rest)) =
      append_assoc a (image ++ c) rest ∙ ap (λ x. a ++ x) (append_assoc image c rest) in
    let front : take 4 bytes ≡ a = ap (take 4) split ∙ take_exact 4 a _ ha in
    let behind : drop 4 bytes ≡ image ++ (c ++ rest) = ap (drop 4) split ∙ drop_exact 4 a _ ha in
    let middle : take page_size (drop 4 bytes) ≡ image =
      ap (take page_size) behind ∙ take_exact page_size image _ h in
    let end : take 4 (drop page_size (drop 4 bytes)) ≡ c =
      ap (λ x. take 4 (drop page_size x)) behind
      ∙ ap (take 4) (drop_exact page_size image _ h)
      ∙ take_exact 4 c rest hc in
    let enough : ltb (length bytes) page_rest_len ≡ false =
      le→ltb page_rest_len (length bytes)
        (omega (arith, length-append (page_rest a image c) rest, all)) in
    rw
      (
        enough,
        front,
        middle,
        end,
        crc,
        eq→== (crc32 (a ∷ image ∷ [])),
        drop_exact page_rest_len (page_rest a image c) rest all,
      )
      refl

-- A whole page record is counted, and the scan goes on behind it.
pub scan_from-page_record :
    (fuel records number : ℕ) (image rest : Bytes)
    → length image ≡ page_size
    → scan_from (suc fuel) records (page_record number image ++ rest)
      ≡ scan_from fuel ((records + 1) % 2 ^ 32) rest
unfolding page_record
scan_from-page_record fuel records number image rest h =
    scan_from-page_rest fuel records (le_bytes 4 number) image _ rest (length-le_bytes 4 number) h
      (length-le_bytes 4 _) (from_le-crc32 (le_bytes 4 number ∷ image ∷ []))

scan_from-commit_record :
    (fuel records count : ℕ) (rest : Bytes)
    → count < 2 ^ 32
    → scan_from (suc fuel) records (commit_record count ++ rest) ≡ some (count == records)
unfolding scan_from commit_record
scan_from-commit_record fuel records count rest h =
    let a = le_bytes 4 count in
    let c = le_bytes 4 (crc32 (a ∷ [])) in
    let ha = length-le_bytes 4 count in
    let hc = length-le_bytes 4 (crc32 (a ∷ [])) in
    let bytes = (a ++ c) ++ rest in
    let split : bytes ≡ a ++ (c ++ rest) = append_assoc a c rest in
    let front : take 4 bytes ≡ a = ap (take 4) split ∙ take_exact 4 a _ ha in
    let end : take 4 (drop 4 bytes) ≡ c =
      ap (λ x. take 4 (drop 4 x)) split
      ∙ ap (take 4) (drop_exact 4 a _ ha)
      ∙ take_exact 4 c rest hc in
    let enough : ltb (length bytes) commit_rest_len ≡ false =
      le→ltb commit_rest_len (length bytes)
        (omega (arith, length-append (a ++ c) rest, length-append a c, ha, hc)) in
    rw
      (
        enough,
        front,
        end,
        from_le-crc32 (a ∷ []),
        eq→== (crc32 (a ∷ [])),
        from_le-le_bytes 4 count (omega arith),
      )
      refl

-- The log after the commit marker.
unfoldable pub sealed : List Page → Bytes
sealed pages = page_records pages ++ commit_record (length pages)

scan_from-page_records :
    (pages : List Page) (fuel records count : ℕ) (rest : Bytes)
    → IsPages pages
    → count < 2 ^ 32
    → records + length pages < 2 ^ 32
    → length (page_records pages ++ (commit_record count ++ rest)) < fuel
    → scan_from fuel records (page_records pages ++ (commit_record count ++ rest))
      ≡ some (count == records + length pages)
unfolding page_records
scan_from-page_records [] zero records count rest h hc room enough = absurd (omega arith)
scan_from-page_records [] (suc fuel) records count rest h hc room enough =
    scan_from-commit_record fuel records count rest hc ∙ ap (λ n. some (count == n)) (omega arith)
scan_from-page_records (p ∷ pages) zero records count rest h hc room enough = absurd (omega arith)
scan_from-page_records (p ∷ pages) (suc fuel) records count rest h hc room enough =
    let more = page_records pages ++ (commit_record count ++ rest) in
    let split =
      append_assoc (page_record p.0 p.1) (page_records pages) (commit_record count ++ rest) in
    let long = length-page_record p.0 p.1 h.0.1 in
    let next : (records + 1) % 2 ^ 32 ≡ records + 1 = omega arith in
    let less : length more < fuel =
      omega (arith, ap length split, length-append (page_record p.0 p.1) more, long) in
    ap (scan_from (suc fuel) records) split
    ∙ scan_from-page_record fuel records p.0 p.1 more h.0.1
    ∙ ap (λ r. scan_from fuel r more) next
    ∙ scan_from-page_records pages fuel (records + 1) count rest h.1 hc (omega arith) less
    ∙ ap (λ n. some (count == n)) (omega arith)

-- A log counts as committed if whole page records, whose pages have their size, are followed by a
-- marker with their number, whatever stands behind the marker.
pub scan-page_records :
    (pages : List Page) (count : ℕ) (rest : Bytes)
    → IsPages pages
    → count < 2 ^ 32
    → length pages < 2 ^ 32
    → scan (page_records pages ++ (commit_record count ++ rest)) ≡ some (count == length pages)
unfolding scan
scan-page_records pages count rest h hc room =
    scan_from-page_records pages
      (suc (length (page_records pages ++ (commit_record count ++ rest)))) 0 count rest h hc
      (omega arith) (omega arith)
    ∙ ap (λ n. some (count == n)) (omega arith)
