-- ===== src/Examples/WriteAhead.antt =====
-- The write-ahead log at work: a commit, a crash, and a commit whose fsync fails.
use prehnite_db.Prelude.{
  ℕ, zero, suc, ◌<◌, ◌≡◌, refl, ap, List, ◌∷◌, [], Bool, true, false, some, length, length-append,
  take, arith,
}
use prehnite_db.Bytes.{Bytes, le_bytes}
use prehnite_db.Wal.{page_size, crc32, commit_record, Wal, opened, append_page, discard, recover}
use prehnite_db.Wal.Scan.{Page, IsPages, page_records}
use prehnite_db.Wal.Replay.{write_pages, byte_at}
use prehnite_db.Wal.Fuel.{recover-some}
use prehnite_db.Wal.Recovery.{
  log_of, seal-append_pages, recover-seal, recover-take, recover-discard,
}

-- "123456789"
abbrev check_string : Bytes
check_string = b'1' ∷ b'2' ∷ b'3' ∷ b'4' ∷ b'5' ∷ b'6' ∷ b'7' ∷ b'8' ∷ b'9' ∷ []

crc32_check_value : crc32 (check_string ∷ []) ≡ 0xCBF43926
unfolding crc32
crc32_check_value = refl

filled : ℕ → ℕ → Bytes
filled zero b = []
filled (suc n) b = b ∷ filled n b

length-filled : (n b : ℕ) → length (filled n b) ≡ n
unfolding filled
length-filled zero b = refl
length-filled (suc n) b = ap suc (length-filled n b)

page : ℕ → ℕ → Page
page number b = (number, filled page_size b)

abbrev one_page : List Page
one_page = page 1 7 ∷ []

one_page-IsPages : IsPages one_page
unfolding page
one_page-IsPages = ((omega arith, length-filled page_size 7), tt)

other_page-IsPages : IsPages (page 2 9 ∷ [])
unfolding page
other_page-IsPages = ((omega arith, length-filled page_size 9), tt)

recover-seal_example :
    (db' : Bytes) × (recover (opened (log_of one_page).file) (1 ∷ 2 ∷ [])
      ≡ some (true, opened [], db'))
    × ((i : ℕ) → byte_at i db' ≡ byte_at i (write_pages one_page (1 ∷ 2 ∷ [])))
recover-seal_example =
    recover-seal one_page (1 ∷ 2 ∷ []) (1 ∷ 2 ∷ []) one_page-IsPages (omega arith)
      (λ i outside. refl)

one_page_long : 3 < length (log_of one_page).file
unfolding commit_record le_bytes
one_page_long =
    let whole = ap length (seal-append_pages one_page one_page-IsPages (omega arith)) in
    omega (arith, whole, length-append (page_records one_page) (commit_record 1))

recover-take_example :
    recover (opened (take 3 (log_of one_page).file)) (1 ∷ 2 ∷ [])
    ≡ some (false, opened [], 1 ∷ 2 ∷ [])
recover-take_example =
    recover-take one_page 3 (1 ∷ 2 ∷ []) one_page-IsPages (omega arith) one_page_long

recover-discard_example :
    recover (opened (append_page 2 (filled page_size 9) (discard (log_of one_page))).1.file) []
    ≡ some (true, opened [], write_pages (page 2 9 ∷ []) [])
unfolding page
recover-discard_example =
    recover-discard (page 1 7) (page 2 9) [] [] one_page-IsPages other_page-IsPages (omega arith)

recover-some_example : (r : Bool × Wal × Bytes) × (recover (opened (1 ∷ 2 ∷ [])) [] ≡ some r)
recover-some_example = recover-some (opened (1 ∷ 2 ∷ [])) []
