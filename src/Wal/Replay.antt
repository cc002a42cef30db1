-- ===== src/Wal/Replay.antt =====
-- What replaying a log does to the database file, byte by byte.
use prehnite_db.Prelude.{
  ℕ, zero, suc, ◌+◌, ◌-◌, ◌*◌, ◌^◌, ◌<◌, ◌≡◌, refl, sym, ap, ◌∙◌, Bool, false, ◌&&◌, ◌||◌, List, [],
  ◌∷◌, ◌++◌, append_assoc, some, ltb, leb, if◌then◌else◌, length, take, drop, arith, take_exact,
  drop_exact, length-append, le→ltb, Bool-cases, inl, inr,
}
use prehnite_db.Bytes.{Bytes, le_bytes, from_le}
use prehnite_db.Bytes.Laws.{length-le_bytes, from_le-le_bytes}
use prehnite_db.Wal.{
  page_size, page_rest_len, rec_page, page_record, commit_record, write_at, apply_from, apply,
  opened,
}
use prehnite_db.Wal.Scan.{
  Page, IsPages, page_records, page_rest, length-page_rest, length-page_record,
}

-- The pages, written one after the other.
unfoldable pub write_pages : List Page → Bytes → Bytes
write_pages [] db = db
write_pages (p ∷ pages) db = write_pages pages (write_at (p.0 * page_size) p.1 db)

apply_from-page_rest :
    (fuel : ℕ) (a image c rest db : Bytes)
    → length a ≡ 4
    → length image ≡ page_size
    → length c ≡ 4
    → apply_from (suc fuel) (rec_page ∷ (page_rest a image c ++ rest)) db
      ≡ apply_from fuel rest (write_at (from_le a * page_size) image db)
unfolding apply_from
apply_from-page_rest fuel a image c rest db ha h hc =
    let bytes = page_rest a image c ++ rest in
    let all = length-page_rest a image c ha h hc in
    let split : bytes ≡ a ++ (image ++ (c ++ rest)) =
      append_assoc a (image ++ c) rest ∙ ap (λ x. a ++ x) (append_assoc image c rest) in
    let front : take 4 bytes ≡ a = ap (take 4) split ∙ take_exact 4 a _ ha in
    let middle : take page_size (drop 4 bytes) ≡ image =
      ap (λ x. take page_size (drop 4 x)) split
      ∙ ap (take page_size) (drop_exact 4 a _ ha)
      ∙ take_exact page_size image _ h in
    let enough : ltb (length bytes) page_rest_len ≡ false =
      le→ltb page_rest_len (length bytes)
        (omega (arith, length-append (page_rest a image c) rest, all)) in
    rw (enough, front, middle, drop_exact page_rest_len (page_rest a image c) rest all) refl

apply_from-page_record :
    (fuel number : ℕ) (image rest db : Bytes)
    → number < 2 ^ 32
    → length image ≡ page_size
    → apply_from (suc fuel) (page_record number image ++ rest) db
      ≡ apply_from fuel rest (write_at (number * page_size) image db)
unfolding page_record
apply_from-page_record fuel number image rest db hn h =
    apply_from-page_rest fuel (le_bytes 4 number) image _ rest db (length-le_bytes 4 number) h
      (length-le_bytes 4 _)
    ∙ ap (λ n. apply_from fuel rest (write_at (n * page_size) image db))
        (from_le-le_bytes 4 number (omega arith))

apply_from-commit_record :
    (fuel count : ℕ) (rest db : Bytes)
    → apply_from (suc fuel) (commit_record count ++ rest) db ≡ some db
unfolding apply_from commit_record
apply_from-commit_record fuel count rest db = refl

apply_from-page_records :
    (pages : List Page) (fuel count : ℕ) (rest db : Bytes)
    → IsPages pages
    → length (page_records pages ++ (commit_record count ++ rest)) < fuel
    → apply_from fuel (page_records pages ++ (commit_record count ++ rest)) db
      ≡ some (write_pages pages db)
unfolding page_records write_pages
apply_from-page_records pages zero count rest db h enough = absurd (omega arith)
apply_from-page_records [] (suc fuel) count rest db h enough =
    apply_from-commit_record fuel count rest db
apply_from-page_records (p ∷ pages) (suc fuel) count rest db h enough =
    let more = page_records pages ++ (commit_record count ++ rest) in
    let split =
      append_assoc (page_record p.0 p.1) (page_records pages) (commit_record count ++ rest) in
    let long = length-page_record p.0 p.1 h.0.1 in
    let less : length more < fuel =
      omega (arith, ap length split, length-append (page_record p.0 p.1) more, long) in
    ap (λ x. apply_from (suc fuel) x db) split
    ∙ apply_from-page_record fuel p.0 p.1 more db h.0.0 h.0.1
    ∙ apply_from-page_records pages fuel count rest (write_at (p.0 * page_size) p.1 db) h.1 less

-- `apply` writes the pages of the log in order, up to the marker.
pub apply-page_records :
    (pages : List Page) (count : ℕ) (rest db : Bytes)
    → IsPages pages
    → apply (opened (page_records pages ++ (commit_record count ++ rest))) db
      ≡ some (write_pages pages db)
unfolding apply
apply-page_records pages count rest db h =
    apply_from-page_records pages
      (suc (length (page_records pages ++ (commit_record count ++ rest)))) count rest db h
      (omega arith)

-- The byte at an offset, 0 behind the end.
abbrev pub byte_at : ℕ → Bytes → ℕ
byte_at i [] = 0
byte_at zero (b ∷ bs) = b
byte_at (suc i) (b ∷ bs) = byte_at i bs

drop-nil : (n : ℕ) → drop {A = ℕ} n [] ≡ []
drop-nil zero = refl
drop-nil (suc n) = refl

byte_at-append_drop :
    (i : ℕ) (bytes db : Bytes)
    → byte_at i (bytes ++ drop (length bytes) db)
      ≡ (if ltb i (length bytes) then byte_at i bytes else byte_at i db)
byte_at-append_drop i [] db = ground arith
byte_at-append_drop zero (b ∷ bytes) db = ground arith
byte_at-append_drop (suc i) (b ∷ bytes) [] =
    ground (arith, byte_at-append_drop i bytes [], drop-nil (length bytes))
byte_at-append_drop (suc i) (b ∷ bytes) (d ∷ db) = ground (arith, byte_at-append_drop i bytes db)

byte_at-write_at :
    (i offset : ℕ) (bytes db : Bytes)
    → byte_at i (write_at offset bytes db) ≡ (
        if leb offset i && ltb i (offset + length bytes)
        then byte_at (i - offset) bytes
        else byte_at i db)
unfolding write_at
byte_at-write_at i zero bytes db =
    let same : i - 0 ≡ i = omega arith in
    ground (arith, byte_at-append_drop i bytes db, ap (λ k. byte_at k bytes) same)
byte_at-write_at zero (suc n) bytes [] = ground arith
byte_at-write_at zero (suc n) bytes (b ∷ db) = ground arith
byte_at-write_at (suc i) (suc n) bytes [] = ground (arith, byte_at-write_at i n bytes [])
byte_at-write_at (suc i) (suc n) bytes (b ∷ db) = ground (arith, byte_at-write_at i n bytes db)

-- The byte at an offset lies in the page.
abbrev pub in_page : ℕ → Page → Bool
in_page i p = leb (p.0 * page_size) i && ltb i (p.0 * page_size + length p.1)

abbrev pub is_covered : ℕ → List Page → Bool
is_covered i [] = false
is_covered i (p ∷ pages) = in_page i p || is_covered i pages

-- Two files differ only where the pages will be written.
abbrev pub Agree : List Page → Bytes → Bytes → Type 0
Agree pages db other = (i : ℕ) → is_covered i pages ≡ false → byte_at i db ≡ byte_at i other

Agree-write_at :
    (p : Page) (pages : List Page) (db other : Bytes)
    → Agree (p ∷ pages) db other
    → Agree pages (write_at (p.0 * page_size) p.1 db) (write_at (p.0 * page_size) p.1 other)
Agree-write_at p pages db other h i outside = elim (Bool-cases (in_page i p)) [
  | inl e ↦
      rw
        (
          byte_at-write_at i (p.0 * page_size) p.1 db,
          byte_at-write_at i (p.0 * page_size) p.1 other,
          e,
        )
        refl
  | inr e ↦
      rw
        (
          byte_at-write_at i (p.0 * page_size) p.1 db,
          byte_at-write_at i (p.0 * page_size) p.1 other,
          e,
        )
        (h i (rw (e, outside) refl))
]

-- Replaying leaves the same bytes in both.
pub byte_at-write_pages :
    (pages : List Page) (db other : Bytes)
    → Agree pages db other
    → (i : ℕ) → byte_at i (write_pages pages db) ≡ byte_at i (write_pages pages other)
unfolding write_pages
byte_at-write_pages [] db other h i = h i refl
byte_at-write_pages (p ∷ pages) db other h i =
    byte_at-write_pages pages (write_at (p.0 * page_size) p.1 db)
      (write_at (p.0 * page_size) p.1 other) (Agree-write_at p pages db other h) i

-- What is not covered is left alone.
pub write_pages-Agree : (pages : List Page) (db : Bytes) → Agree pages db (write_pages pages db)
unfolding write_pages
write_pages-Agree [] db i outside = refl
write_pages-Agree (p ∷ pages) db i outside =
    let out : in_page i p ≡ false = ground arith in
    let rest : is_covered i pages ≡ false = ground arith in
    sym (byte_at-write_at i (p.0 * page_size) p.1 db ∙ rw out refl)
    ∙ write_pages-Agree pages (write_at (p.0 * page_size) p.1 db) i rest
