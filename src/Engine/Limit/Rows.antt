-- ===== src/Engine/Limit/Rows.antt =====
-- `BatchLimit` returns the rows that `Limit` does.
use prehnite_db.Prelude.{
  ℕ, zero, suc, ◌+◌, ◌-◌, ◌≤◌, ◌<◌, ◌≡◌, refl, sym, ap, ◌∙◌, List, [], ◌∷◌, ◌++◌, length, take,
  drop, All, leb, arith, Bool-cases, inl, inr, drop-append_le, drop-append_gt,
}
use prehnite_db.Outcome.{Outcome, returns, ◌>>=◌, >>=-eq-returns, returns_inj}
use prehnite_db.Engine.Batch.{ColumnBatch}
use prehnite_db.Engine.Columnar.Selection.{batch_rows}
use prehnite_db.Engine.Columnar.Agreement.{IsBatch}
use prehnite_db.Engine.Join.{Row}
use prehnite_db.Engine.Limit.{
  limit_rows, slice_logical_rows, apply_remaining, limit_batches, batches_rows,
}
use prehnite_db.Engine.Limit.Slices.{slice_logical_rows-Sliced, length-rows_from}

-- A batch of columns of some length.
abbrev pub IsWhole : ColumnBatch → Type 0
IsWhole batch = (p : ℕ) × IsBatch p batch

abbrev cut : ℕ → ℕ → List Row → List Row
cut offset remaining rows = take remaining (drop offset rows)

cut-nil : (offset remaining : ℕ) → cut offset remaining [] ≡ []
cut-nil zero zero = refl
cut-nil zero (suc r) = refl
cut-nil (suc o) zero = refl
cut-nil (suc o) (suc r) = refl

limit_rows-cut :
    (offset remaining : ℕ) (rows : List Row)
    → limit_rows offset remaining rows ≡ cut offset remaining rows
unfolding limit_rows
limit_rows-cut (suc o) r [] = sym (cut-nil (suc o) r)
limit_rows-cut (suc o) r (row ∷ rows) = limit_rows-cut o r rows
limit_rows-cut zero zero rows = refl
limit_rows-cut zero (suc r) [] = refl
limit_rows-cut zero (suc r) (row ∷ rows) = ap (λ rest. row ∷ rest) (limit_rows-cut zero r rows)

take-parts : (k : ℕ) (xs ys : List Row) → take k (xs ++ ys) ≡ take k xs ++ take (k - length xs) ys
take-parts zero xs ys =
    let none_left : 0 ≡ 0 - length xs = omega arith in ap (λ m. take m ys) none_left
take-parts (suc k) [] ys = let same : suc k ≡ suc k - 0 = omega arith in ap (λ m. take m ys) same
take-parts (suc k) (x ∷ xs) ys =
    ap (λ rest. x ∷ rest) (take-parts k xs ys ∙ ap (λ m. take k xs ++ take m ys) (omega arith))

joined :
    (k n : ℕ) (xs ys : List Row) → length xs ≡ n → take k xs ++ take (k - n) ys ≡ take k (xs ++ ys)
joined k n xs ys e = sym (take-parts k xs ys ∙ ap (λ m. take k xs ++ take (k - m) ys) e)

take-whole : (k : ℕ) (xs : List Row) → length xs ≤ k → take k xs ≡ xs
take-whole zero [] h = refl
take-whole zero (x ∷ xs) h = absurd (omega arith)
take-whole (suc k) [] h = refl
take-whole (suc k) (x ∷ xs) h = ap (λ rest. x ∷ rest) (take-whole k xs (omega arith))

length-drop : (s : ℕ) (xs : List Row) → length (drop s xs) ≡ length xs - s
length-drop zero xs = omega arith
length-drop (suc s) [] = omega arith
length-drop (suc s) (x ∷ xs) = length-drop s xs ∙ omega arith

length-batch_rows :
    (b : ColumnBatch) {xs : List Row} → batch_rows b ≡ returns xs → length xs ≡ b.n_rows
unfolding batch_rows
length-batch_rows b h = length-rows_from b b.n_rows 0 h

apply_remaining_lem :
    (p r : ℕ) (b : ColumnBatch) {xs : List Row}
    → IsBatch p b
    → batch_rows b ≡ returns xs
    → (kept : ColumnBatch) × (apply_remaining r b ≡ returns (kept, r - b.n_rows))
      × IsBatch p kept
      × (batch_rows kept ≡ returns (take r xs))
unfolding apply_remaining
apply_remaining_lem p r b {xs} hb h = elim (Bool-cases (leb b.n_rows r)) [
  | inl e ↦
      let fits : length xs ≤ r = ground (arith, length-batch_rows b h) in
      (b, rw e refl, hb, rw (take-whole r xs fits) h)
  | inr e ↦
      let more : r < b.n_rows = ground arith in
      let none_left : 0 ≡ r - b.n_rows = omega arith in
      let start : 0 + r ≡ r = omega arith in
      let (kept, ek, en, hk, rk) = slice_logical_rows-Sliced p b 0 r hb h (omega arith) in
      let ek' : slice_logical_rows b 0 r ≡ returns kept =
        ap (slice_logical_rows b 0) (sym start) ∙ ek in
      (kept, rw (e, ek', ← none_left) refl, hk, rk)
]

batches_rows-split :
    (b : ColumnBatch) (bs : List ColumnBatch) {found : List Row}
    → batches_rows (b ∷ bs) ≡ returns found
    → (xs : List Row) × (ys : List Row) × (batch_rows b ≡ returns xs)
      × (batches_rows bs ≡ returns ys)
      × (xs ++ ys ≡ found)
unfolding batches_rows
batches_rows-split b bs e =
    let (xs, ex, e1) =
      >>=-eq-returns (batch_rows b) (λ xs. batches_rows bs >>= λ ys. returns (xs ++ ys)) e in
    let (ys, ey, e2) = >>=-eq-returns (batches_rows bs) (λ ys. returns (xs ++ ys)) e1 in
    (xs, ys, ex, ey, returns_inj e2)

abbrev Limited : ℕ → ℕ → List Row → Outcome (List ColumnBatch) → Type 0
Limited offset remaining found r =
    (out : List ColumnBatch) × (r ≡ returns out)
    × All IsWhole out
    × (batches_rows out ≡ returns (cut offset remaining found))

-- The first batch goes on as `kept`, and the others are limited to what remains.
kept_first :
    (k r : ℕ) (xs ys : List Row) (kept : ColumnBatch) {rest : Outcome (List ColumnBatch)}
    → IsWhole kept
    → batch_rows kept ≡ returns (take k xs)
    → length xs ≡ r
    → Limited zero (k - r) ys rest
    → Limited zero k (xs ++ ys) (rest >>= λ out. returns (kept ∷ out))
unfolding batches_rows
kept_first k r xs ys kept w ek e (out, eo, ho, ro) =
    (kept ∷ out, rw eo refl, (w, ho), rw (ek, ro) (ap returns (joined k r xs ys e)))

-- A batch whose first rows are cut off, with what remains of the limit.
tail_first :
    (p o r : ℕ) (b : ColumnBatch) (xs ys : List Row) {rest : ℕ → Outcome (List ColumnBatch)}
    → IsBatch p b
    → batch_rows b ≡ returns xs
    → o < b.n_rows
    → ((k : ℕ) → Limited zero k ys (rest k))
    → Limited o r (xs ++ ys) (
        slice_logical_rows b o b.n_rows >>= λ tail.
        apply_remaining r tail >>= λ kept. rest kept.1 >>= λ out. returns (kept.0 ∷ out))
tail_first p o r b xs ys {rest} hb ex inside others =
    let len = length-batch_rows b ex in
    let end : o + (b.n_rows - o) ≡ b.n_rows = omega arith in
    let (tail, et, en, ht, rt) =
      slice_logical_rows-Sliced p b o (b.n_rows - o) hb ex (omega arith) in
    let all_of : length (drop o xs) ≤ b.n_rows - o = omega (arith, length-drop o xs, len) in
    let et' : slice_logical_rows b o b.n_rows ≡ returns tail =
      ap (slice_logical_rows b o) (sym end) ∙ et in
    let rt' : batch_rows tail ≡ returns (drop o xs) =
      rt ∙ ap returns (take-whole (b.n_rows - o) (drop o xs) all_of) in
    let (kept, ek, hk, rk) = apply_remaining_lem p r tail ht rt' in
    let shorter : o < length xs = omega (arith, len) in
    rw (et', ek, drop-append_gt o xs ys shorter)
      (kept_first r tail.n_rows (drop o xs) ys kept (p, hk) rk (length-batch_rows tail rt')
        (others (r - tail.n_rows)))

limit_batches-cut :
    (offset remaining : ℕ) (batches : List ColumnBatch) {found : List Row}
    → All IsWhole batches
    → batches_rows batches ≡ returns found
    → Limited offset remaining found (limit_batches offset remaining batches)
unfolding limit_batches batches_rows
limit_batches-cut o r [] h e = ([], refl, tt, rw (← returns_inj e) (ap returns (sym (cut-nil o r))))
limit_batches-cut zero zero (b ∷ bs) h e = ([], refl, tt, refl)
limit_batches-cut zero (suc r) (b ∷ bs) ((p, hb), hs) e =
    let (xs, ys, ex, ey, shape) = batches_rows-split b bs e in
    let (kept, ek, hk, rk) = apply_remaining_lem p (suc r) b hb ex in
    let rest = limit_batches-cut zero (suc r - b.n_rows) bs hs ey in
    rw (ek, ← shape)
      (kept_first (suc r) b.n_rows xs ys kept (p, hk) rk (length-batch_rows b ex) rest)
limit_batches-cut (suc o) r (b ∷ bs) ((p, hb), hs) e =
    let (xs, ys, ex, ey, shape) = batches_rows-split b bs e in
    let len = length-batch_rows b ex in
    elim (Bool-cases (leb b.n_rows (suc o))) [
      | inl l ↦
          let short : length xs ≤ suc o = ground (arith, len) in
          let (out, eo, ho, ro) = limit_batches-cut (suc o - b.n_rows) r bs hs ey in
          let dropped : cut (suc o - b.n_rows) r ys ≡ cut (suc o) r (xs ++ ys) =
            ap (take r) (
              ap (λ n. drop (suc o - n) ys) (sym len) ∙ sym (drop-append_le (suc o) xs ys short)) in
          (out, rw l eo, ho, rw (← shape) (ro ∙ ap returns dropped))
      | inr l ↦
          let inside : suc o < b.n_rows = ground arith in
          rw (l, ← shape)
            (tail_first p (suc o) r b xs ys hb ex inside (λ k. limit_batches-cut zero k bs hs ey))
    ]

-- `BatchLimit` on well-formed batches whose rows can be read: it returns well-formed batches, and
-- their rows are those that `Limit` returns on the rows of the input.
pub limit_batches-limit_rows :
    (offset remaining : ℕ) (batches : List ColumnBatch) {found : List Row}
    → All IsWhole batches
    → batches_rows batches ≡ returns found
    → (out : List ColumnBatch) × (limit_batches offset remaining batches ≡ returns out)
      × All IsWhole out
      × (batches_rows out ≡ returns (limit_rows offset remaining found))
limit_batches-limit_rows offset remaining batches h e =
    let (out, eo, ho, ro) = limit_batches-cut offset remaining batches h e in
    (out, eo, ho, ro ∙ ap returns (sym (limit_rows-cut offset remaining _)))
