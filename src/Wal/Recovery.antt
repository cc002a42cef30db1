-- ===== src/Wal/Recovery.antt =====
-- A transaction's log from its first page to its replay, and a crash at any moment between.
use prehnite_db.Prelude.{
  ℕ, suc, ◌+◌, ◌^◌, ◌<◌, ◌≡◌, refl, sym, ap, ◌∙◌, true, false, List, [], ◌∷◌, ◌++◌, append_assoc,
  append-nil, some, length, take, arith, drop_exact, length-append, eq→==,
}
use prehnite_db.Bytes.{Bytes}
use prehnite_db.Wal.{
  page_size, page_record, commit_record, write_at, Wal, opened, append_page, seal, discard, reset,
  scan, replayed, after_scan, recover,
}
use prehnite_db.Wal.Scan.{Page, IsPages, page_records, length-page_record, scan-page_records}
use prehnite_db.Wal.Cut.{scan-take}
use prehnite_db.Wal.Replay.{write_pages, apply-page_records, byte_at, Agree, byte_at-write_pages}

-- The calls of `append_page` that a transaction makes.
unfoldable pub append_pages : List Page → Wal → Wal
append_pages [] w = w
append_pages (p ∷ pages) w = append_pages pages (append_page p.0 p.1 w).1

write_at-end : (file bytes : Bytes) → write_at (length file) bytes file ≡ file ++ bytes
unfolding write_at
write_at-end [] [] = refl
write_at-end [] (b ∷ bytes) = append-nil (b ∷ bytes)
write_at-end (b ∷ file) bytes = ap (λ x. b ∷ x) (write_at-end file bytes)

-- The cursor stands at the end of the written bytes, behind so many records.
record IsAtEnd (w : Wal) (bytes : Bytes) (count : ℕ) : Type 0 where
  written : w.file ≡ bytes
  cursor : w.cursor ≡ length bytes
  records : w.records ≡ count

append_page-IsAtEnd :
    (p : Page) (w : Wal) (bytes : Bytes) (count : ℕ)
    → length p.1 ≡ page_size
    → count + 1 < 2 ^ 32
    → IsAtEnd w bytes count
    → IsAtEnd (append_page p.0 p.1 w).1 (bytes ++ page_record p.0 p.1) (count + 1)
unfolding append_page
append_page-IsAtEnd p w bytes count h room at = record {
  written = rw (at.written, at.cursor) (write_at-end bytes (page_record p.0 p.1));
  cursor =
      omega
        (arith, at.cursor, length-append bytes (page_record p.0 p.1), length-page_record p.0 p.1 h);
  records = omega (arith, at.records);
}

append_pages-IsAtEnd :
    (pages : List Page) (w : Wal) (bytes : Bytes) (count : ℕ)
    → IsPages pages
    → count + length pages < 2 ^ 32
    → IsAtEnd w bytes count
    → IsAtEnd (append_pages pages w) (bytes ++ page_records pages) (count + length pages)
unfolding append_pages page_records
append_pages-IsAtEnd [] w bytes count h room at = record {
  written = at.written ∙ sym (append-nil bytes);
  cursor = at.cursor ∙ ap length (sym (append-nil bytes));
  records = omega (arith, at.records);
}
append_pages-IsAtEnd (p ∷ pages) w bytes count h room at =
    let first = append_page-IsAtEnd p w bytes count h.0.1 (omega arith) at in
    let later =
      append_pages-IsAtEnd pages (append_page p.0 p.1 w).1 (bytes ++ page_record p.0 p.1)
        (count + 1) h.1 (omega arith) first in
    let split = append_assoc bytes (page_record p.0 p.1) (page_records pages) in
    record {
      written = later.written ∙ split;
      cursor = later.cursor ∙ ap length split;
      records = omega (arith, later.records);
    }

-- The log of a transaction that has appended the pages to an empty log and has sealed it.
abbrev pub log_of : List Page → Wal
log_of pages = seal (append_pages pages (opened []))

-- Appending fewer than 2 ^ 32 whole pages to an empty log and sealing it leaves the records of
-- the pages in order and one commit marker with their number.
pub seal-append_pages :
    (pages : List Page)
    → IsPages pages
    → length pages < 2 ^ 32
    → (log_of pages).file ≡ page_records pages ++ commit_record (length pages)
unfolding seal
seal-append_pages pages h room =
    let start : IsAtEnd (opened []) [] 0 = record {
      written = refl;
      cursor = refl;
      records = refl;
    } in
    let at = append_pages-IsAtEnd pages (opened []) [] 0 h (omega arith) start in
    let count : (append_pages pages (opened [])).records ≡ length pages =
      omega (arith, at.records) in
    rw (at.written, at.cursor, count)
      (write_at-end (page_records pages) (commit_record (length pages)))

recover_committed :
    (pages : List Page) (rest db : Bytes)
    → IsPages pages
    → length pages < 2 ^ 32
    → recover (opened (page_records pages ++ (commit_record (length pages) ++ rest))) db
      ≡ some (true, opened [], write_pages pages db)
unfolding recover after_scan reset
recover_committed pages rest db h room =
    let w = opened (page_records pages ++ (commit_record (length pages) ++ rest)) in
    ap (after_scan w db)
      (scan-page_records pages (length pages) rest h room room ∙ ap some (eq→== (length pages)))
    ∙ ap (replayed (opened [])) (apply-page_records pages (length pages) rest db h)

-- A transaction of fewer than 2 ^ 32 whole pages that has been appended to an empty log and
-- sealed is replayed, and its log emptied, also if an earlier replay was cut short: on a
-- database file that differs from the original at most where the transaction writes, recovery
-- ends with the same byte at every offset as the writes on the original.
pub recover-seal :
    (pages : List Page) (db other : Bytes)
    → IsPages pages
    → length pages < 2 ^ 32
    → Agree pages db other
    → (db' : Bytes) × (recover (opened (log_of pages).file) other ≡ some (true, opened [], db'))
      × ((i : ℕ) → byte_at i db' ≡ byte_at i (write_pages pages db))
recover-seal pages db other h room same =
    let shape : (log_of pages).file ≡ page_records pages ++ (commit_record (length pages) ++ []) =
      seal-append_pages pages h room
      ∙ ap (λ x. page_records pages ++ x) (sym (append-nil (commit_record (length pages)))) in
    (
      write_pages pages other,
      ap (λ x. recover (opened x) other) shape ∙ recover_committed pages [] other h room,
      λ i. sym (byte_at-write_pages pages db other same i),
    )

-- If the log of a transaction of fewer than 2 ^ 32 whole pages is cut off anywhere before the
-- end of its commit marker, then recovery does not touch the database file and empties the log.
pub recover-take :
    (pages : List Page) (k : ℕ) (db : Bytes)
    → IsPages pages
    → length pages < 2 ^ 32
    → k < length (log_of pages).file
    → recover (opened (take k (log_of pages).file)) db ≡ some (false, opened [], db)
unfolding recover after_scan reset
recover-take pages k db h room part =
    let shape = seal-append_pages pages h room in
    let cut =
      ap (λ x. scan (take k x)) shape
      ∙ scan-take pages (length pages) k h (omega (arith, ap length shape)) in
    ap (after_scan (opened (take k (log_of pages).file)) db) cut

overwrite : (a b more : Bytes) → length b ≡ length a → write_at 0 a (b ++ more) ≡ a ++ more
unfolding write_at
overwrite a b more h = ap (λ x. a ++ x) (drop_exact (length a) b more h)

append_page-discard :
    (q : Page) (w : Wal)
    → (append_page q.0 q.1 (discard w)).1.file ≡ write_at 0 (page_record q.0 q.1) w.file
unfolding append_page discard
append_page-discard q w = refl

log_of_cons :
    (p : Page) (pages : List Page)
    → IsPages (p ∷ pages)
    → length pages + 1 < 2 ^ 32
    → (log_of (p ∷ pages)).file
      ≡ page_record p.0 p.1 ++ (page_records pages ++ commit_record (suc (length pages)))
unfolding page_records
log_of_cons p pages h room =
    seal-append_pages (p ∷ pages) h (omega arith)
    ∙ append_assoc (page_record p.0 p.1) (page_records pages) (commit_record (suc (length pages)))

page_records_cons :
    (q : Page) (pages : List Page) (rest : Bytes)
    → page_record q.0 q.1 ++ (page_records pages ++ rest) ≡ page_records (q ∷ pages) ++ (rest ++ [])
unfolding page_records
page_records_cons q pages rest =
    sym (append_assoc (page_record q.0 q.1) (page_records pages) rest)
    ∙ ap (λ x. (page_record q.0 q.1 ++ page_records pages) ++ x) (sym (append-nil rest))

-- If `seal` has written its marker and only what follows has failed, then the discarded log
-- still has the marker. When the next transaction has appended one whole page and has not sealed
-- it, recovery takes the log for committed, and writes that page and all pages of the failed
-- transaction but its first.
pub recover-discard :
    (p q : Page) (pages : List Page) (db : Bytes)
    → IsPages (p ∷ pages)
    → IsPages (q ∷ [])
    → length pages + 1 < 2 ^ 32
    → recover (opened (append_page q.0 q.1 (discard (log_of (p ∷ pages)))).1.file) db
      ≡ some (true, opened [], write_pages (q ∷ pages) db)
recover-discard p q pages db hp hq room =
    let same : length (page_record p.0 p.1) ≡ length (page_record q.0 q.1) =
      length-page_record p.0 p.1 hp.0.1 ∙ sym (length-page_record q.0 q.1 hq.0.1) in
    let marker = commit_record (suc (length pages)) in
    let file =
      append_page-discard q (log_of (p ∷ pages))
      ∙ ap (write_at 0 (page_record q.0 q.1)) (log_of_cons p pages hp room)
      ∙ overwrite (page_record q.0 q.1) (page_record p.0 p.1) (page_records pages ++ marker) same
      ∙ page_records_cons q pages marker in
    ap (λ x. recover (opened x) db) file
    ∙ recover_committed (q ∷ pages) [] db (hq.0, hp.1) (omega arith)
