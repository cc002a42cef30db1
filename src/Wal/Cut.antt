-- ===== src/Wal/Cut.antt =====
-- A log that is cut off anywhere before its end does not count as committed.
use prehnite_db.Prelude.{
  ℕ, zero, suc, ◌+◌, ◌-◌, ◌%◌, ◌^◌, ◌<◌, ◌≡◌, refl, ap, ◌∙◌, false, List, [], ◌∷◌, ◌++◌,
  append_assoc, some, leb, length, take, arith, take-append_le, length-append, length-take_le,
  lt→ltb, leb→le, Bool-cases, inl, inr,
}
use prehnite_db.Bytes.{Bytes, le_bytes}
use prehnite_db.Bytes.Laws.{length-le_bytes}
use prehnite_db.Wal.{
  page_size, page_rest_len, commit_rest_len, rec_page, rec_commit, crc32, page_record,
  commit_record, scan_from, scan,
}
use prehnite_db.Wal.Scan.{IsPages, Page, page_records, length-page_record, scan_from-page_record}

scan_from-short_page :
    (fuel records : ℕ) (bytes : Bytes)
    → length bytes < page_rest_len
    → scan_from (suc fuel) records (rec_page ∷ bytes) ≡ some false
unfolding scan_from
scan_from-short_page fuel records bytes h = rw (lt→ltb (length bytes) page_rest_len h) refl

scan_from-short_commit :
    (fuel records : ℕ) (bytes : Bytes)
    → length bytes < commit_rest_len
    → scan_from (suc fuel) records (rec_commit ∷ bytes) ≡ some false
unfolding scan_from
scan_from-short_commit fuel records bytes h = rw (lt→ltb (length bytes) commit_rest_len h) refl

scan_from-empty : (fuel records : ℕ) → scan_from (suc fuel) records [] ≡ some false
unfolding scan_from
scan_from-empty fuel records = refl

length-commit_record : (count : ℕ) → length (commit_record count) ≡ 9
unfolding commit_record
length-commit_record count = omega (
  arith,
  length-append (le_bytes 4 count) (le_bytes 4 (crc32 (le_bytes 4 count ∷ []))),
  length-le_bytes 4 count,
  length-le_bytes 4 (crc32 (le_bytes 4 count ∷ [])),
)

scan_from-cut_commit :
    (fuel records count k : ℕ)
    → k < 9
    → scan_from (suc fuel) records (take k (commit_record count)) ≡ some false
unfolding commit_record
scan_from-cut_commit fuel records count zero h = scan_from-empty fuel records
scan_from-cut_commit fuel records count (suc k) h = scan_from-short_commit fuel records _ (
    omega
      (arith, length-take_le k (le_bytes 4 count ++ le_bytes 4 (crc32 (le_bytes 4 count ∷ [])))))

scan_from-cut_page :
    (fuel records number : ℕ) (image rest : Bytes) (k : ℕ)
    → length image ≡ page_size
    → k < length (page_record number image)
    → scan_from (suc fuel) records (take k (page_record number image ++ rest)) ≡ some false
unfolding page_record
scan_from-cut_page fuel records number image rest zero h part = scan_from-empty fuel records
scan_from-cut_page fuel records number image rest (suc k) h part =
    let bytes =
      (le_bytes 4 number ++ (image ++ le_bytes 4 (crc32 (le_bytes 4 number ∷ image ∷ []))))
      ++ rest in
    scan_from-short_page fuel records (take k bytes)
      (omega (arith, length-take_le k bytes, length-page_record number image h))

scan_from-cut :
    (pages : List Page) (fuel records count k : ℕ)
    → IsPages pages
    → k < length (page_records pages ++ commit_record count)
    → length (take k (page_records pages ++ commit_record count)) < fuel
    → scan_from fuel records (take k (page_records pages ++ commit_record count)) ≡ some false
unfolding page_records
scan_from-cut pages zero records count k h part enough = absurd (omega arith)
scan_from-cut [] (suc fuel) records count k h part enough =
    scan_from-cut_commit fuel records count k (omega (arith, length-commit_record count))
scan_from-cut (p ∷ pages) (suc fuel) records count k h part enough =
    let front = page_record p.0 p.1 in
    let more = page_records pages ++ commit_record count in
    let split = append_assoc front (page_records pages) (commit_record count) in
    let long = length-page_record p.0 p.1 h.0.1 in
    elim (Bool-cases (leb (length front) k)) [
      | inl whole ↦
          let le = leb→le (length front) k whole in
          let cut : take k (front ++ more) ≡ front ++ take (k - length front) more =
            take-append_le k front more le in
          let less : length (take (k - length front) more) < fuel = omega (
            arith,
            ap length (ap (take k) split ∙ cut),
            length-append front (take (k - length front) more),
            long,
          ) in
          let short : k - length front < length more =
            omega (arith, ap length split, length-append front more, le) in
          ap (λ x. scan_from (suc fuel) records x) (ap (take k) split ∙ cut)
          ∙ scan_from-page_record fuel records p.0 p.1 (take (k - length front) more) h.0.1
          ∙ scan_from-cut pages fuel ((records + 1) % 2 ^ 32) count (k - length front) h.1 short
              less
      | inr torn ↦
          let lt : k < length front = ground arith in
          ap (λ x. scan_from (suc fuel) records (take k x)) split
          ∙ scan_from-cut_page fuel records p.0 p.1 more k h.0.1 lt
    ]

-- A log that is cut off anywhere before the end of its marker does not count as committed.
pub scan-take :
    (pages : List Page) (count k : ℕ)
    → IsPages pages
    → k < length (page_records pages ++ commit_record count)
    → scan (take k (page_records pages ++ commit_record count)) ≡ some false
unfolding scan
scan-take pages count k h part =
    scan_from-cut pages (suc (length (take k (page_records pages ++ commit_record count)))) 0 count
      k h part (omega arith)
