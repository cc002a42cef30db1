-- ===== src/Wal/Fuel.antt =====
-- The loops over the log end on every file.
use prehnite_db.Prelude.{
  ℕ, zero, suc, ◌+◌, ◌%◌, ◌^◌, ◌*◌, ◌≤◌, ◌<◌, ◌≡◌, refl, ap, ◌∙◌, Bool, true, false, [], ◌∷◌,
  Option, some, ltb, ◌==◌, if◌then◌else◌, length, take, drop, arith,
}
use prehnite_db.Bytes.{Bytes, from_le}
use prehnite_db.Wal.{
  page_size, page_rest_len, commit_rest_len, rec_page, rec_commit, scan_from, scan, apply_from,
  apply, write_at, Wal, reset, replayed, after_scan, recover,
}

-- A result, whatever it is.
abbrev IsSome : {A : Type 0} → Option A → Type 0
IsSome {A} o = (a : A) × (o ≡ some a)

IsSome-if :
    {A : Type 0} (b : Bool) (x y : Option A) → IsSome x → IsSome y → IsSome (if b then x else y)
IsSome-if true x y hx hy = hx
IsSome-if false x y hx hy = hy

length-drop_le : (n : ℕ) (x : Bytes) → length (drop n x) ≤ length x
length-drop_le zero x = omega arith
length-drop_le (suc n) [] = omega arith
length-drop_le (suc n) (b ∷ x) = omega (arith, length-drop_le n x)

scan_from-IsSome :
    (fuel records : ℕ) (bytes : Bytes) → length bytes < fuel → IsSome (scan_from fuel records bytes)
unfolding scan_from
scan_from-IsSome zero records bytes h = absurd (omega arith)
scan_from-IsSome (suc fuel) records [] h = (false, refl)
scan_from-IsSome (suc fuel) records (tag ∷ bytes) h =
    let rest =
      scan_from-IsSome fuel ((records + 1) % 2 ^ 32) (drop page_rest_len bytes)
        (omega (arith, length-drop_le page_rest_len bytes)) in
    IsSome-if (tag == rec_page) _ _
      (IsSome-if (ltb (length bytes) page_rest_len) _ _ (false, refl)
        (IsSome-if _ _ _ rest (false, refl)))
      (IsSome-if (tag == rec_commit) _ _
        (IsSome-if (ltb (length bytes) commit_rest_len) _ _ (false, refl) (_, refl)) (false, refl))

apply_from-IsSome :
    (fuel : ℕ) (log db : Bytes) → length log < fuel → IsSome (apply_from fuel log db)
unfolding apply_from
apply_from-IsSome zero log db h = absurd (omega arith)
apply_from-IsSome (suc fuel) [] db h = (db, refl)
apply_from-IsSome (suc fuel) (tag ∷ bytes) db h =
    let rest =
      apply_from-IsSome fuel (drop page_rest_len bytes)
        (write_at (from_le (take 4 bytes) * page_size) (take page_size (drop 4 bytes)) db)
        (omega (arith, length-drop_le page_rest_len bytes)) in
    IsSome-if (tag == rec_page) _ _
      (IsSome-if (ltb (length bytes) page_rest_len) _ _ (db, refl) rest) (db, refl)

after_scan-IsSome :
    (w : Wal) (db : Bytes) (committed : Bool) → IsSome (after_scan w db (some committed))
unfolding after_scan apply
after_scan-IsSome w db false = ((false, reset w, db), refl)
after_scan-IsSome w db true =
    let (db', e) = apply_from-IsSome (suc (length w.file)) w.file db (omega arith) in
    ((true, reset w, db'), ap (replayed (reset w)) e)

-- Recovery ends with a result on every log, damaged or not, and every database file.
pub recover-some : (w : Wal) (db : Bytes) → (r : Bool × Wal × Bytes) × (recover w db ≡ some r)
unfolding recover scan
recover-some w db =
    let (committed, e) = scan_from-IsSome (suc (length w.file)) 0 w.file (omega arith) in
    let (r, done) = after_scan-IsSome w db committed in (r, ap (after_scan w db) e ∙ done)
