-- ===== src/Engine/Limit/Slices.antt =====
-- The rows of a slice of a batch.
use prehnite_db.Prelude.{
  ℕ, zero, suc, ◌+◌, ◌-◌, ◌^◌, ◌≤◌, ◌<◌, ◌≡◌, refl, sym, ap, ◌∙◌, false, Option, none, some, List,
  [], ◌∷◌, length, take, drop, All, ltb, arith,
}
use prehnite_db.Outcome.{Outcome, returns, ◌>>=◌, index, >>=-eq-returns, returns_inj}
use prehnite_db.Engine.Batch.{Column, ColumnBatch, physical_for, row_at}
use prehnite_db.Engine.Columnar.Selection.{rows_from, batch_rows}
use prehnite_db.Engine.Columnar.Agreement.{IsBatch}
use prehnite_db.Engine.Join.{Row}
use prehnite_db.Engine.Limit.{slice_logical_rows, positions}

index-take : (xs : List ℕ) (k i : ℕ) → i < k → index (take k xs) i ≡ index xs i
index-take xs zero i h = absurd (omega arith)
index-take [] (suc k) i h = refl
index-take (x ∷ xs) (suc k) zero h = refl
index-take (x ∷ xs) (suc k) (suc i) h = index-take xs k i (omega arith)

index-drop : (xs : List ℕ) (s i : ℕ) → index (drop s xs) i ≡ index xs (s + i)
index-drop xs zero i = ap (index xs) (omega arith)
index-drop [] (suc s) i = refl
index-drop (x ∷ xs) (suc s) i =
    let same : suc (s + i) ≡ suc s + i = omega arith in index-drop xs s i ∙ ap (index (x ∷ xs)) same

index-positions :
    (start n i : ℕ) → i < n → start + n ≤ 2 ^ 32 → index (positions start n) i ≡ returns (start + i)
unfolding positions
index-positions start zero i h small = absurd (omega arith)
index-positions start (suc n) zero h small = ap returns (ground arith)
index-positions start (suc n) (suc i) h small =
    let same : suc start + i ≡ start + suc i = omega arith in
    index-positions (suc start) n i (omega arith) (omega arith) ∙ ap returns same

-- The rows of a part of what `rows_from` reads.
rows_from-take :
    (b : ColumnBatch) (a i k : ℕ) {xs : List Row}
    → rows_from b a i ≡ returns xs
    → k ≤ a
    → rows_from b k i ≡ returns (take k xs)
unfolding rows_from
rows_from-take b a i zero h le = refl
rows_from-take b zero i (suc k) h le = absurd (omega arith)
rows_from-take b (suc a) i (suc k) {xs} h le =
    let (row, er, h1) =
      >>=-eq-returns (row_at b i) (λ row. rows_from b a (suc i) >>= λ rest. returns (row ∷ rest))
        h in
    let (rest, es, h2) = >>=-eq-returns (rows_from b a (suc i)) (λ rest. returns (row ∷ rest)) h1 in
    let shape : row ∷ rest ≡ xs = returns_inj h2 in
    rw (er, rows_from-take b a (suc i) k es (omega arith), sym shape) refl

rows_from-drop :
    (b : ColumnBatch) (a i s : ℕ) {xs : List Row}
    → rows_from b (s + a) i ≡ returns xs
    → rows_from b a (i + s) ≡ returns (drop s xs)
unfolding rows_from
rows_from-drop b a i zero {xs} h =
    let here : i ≡ i + 0 = omega arith in
    let all_of : 0 + a ≡ a = omega arith in rw (all_of, here) at h
rows_from-drop b a i (suc s) {xs} h =
    let more : suc s + a ≡ suc (s + a) = omega arith in
    let next : suc i + s ≡ i + suc s = omega arith in
    let (row, er, h1) =
      >>=-eq-returns (row_at b i)
        (λ row. rows_from b (s + a) (suc i) >>= λ rest. returns (row ∷ rest)) (rw more at h) in
    let (rest, es, h2) =
      >>=-eq-returns (rows_from b (s + a) (suc i)) (λ rest. returns (row ∷ rest)) h1 in
    let shape : row ∷ rest ≡ xs = returns_inj h2 in
    rw (← next, ← shape) (rows_from-drop b a (suc i) s es)

pub length-rows_from :
    (b : ColumnBatch) (a i : ℕ) {xs : List Row} → rows_from b a i ≡ returns xs → length xs ≡ a
unfolding rows_from
length-rows_from b zero i h = sym (ap length (returns_inj h))
length-rows_from b (suc a) i {xs} h =
    let (row, er, h1) =
      >>=-eq-returns (row_at b i) (λ row. rows_from b a (suc i) >>= λ rest. returns (row ∷ rest))
        h in
    let (rest, es, h2) = >>=-eq-returns (rows_from b a (suc i)) (λ rest. returns (row ∷ rest)) h1 in
    sym (ap length (returns_inj h2)) ∙ ap suc (length-rows_from b a (suc i) es)

All-take : (p : ℕ) (xs : List ℕ) (k : ℕ) → All (λ i. i < p) xs → All (λ i. i < p) (take k xs)
All-take p xs zero h = tt
All-take p [] (suc k) h = tt
All-take p (x ∷ xs) (suc k) (h, hs) = (h, All-take p xs k hs)

All-drop : (p : ℕ) (xs : List ℕ) (s : ℕ) → All (λ i. i < p) xs → All (λ i. i < p) (drop s xs)
All-drop p xs zero h = h
All-drop p [] (suc s) h = tt
All-drop p (x ∷ xs) (suc s) (h, hs) = All-drop p xs s hs

length-part : (xs : List ℕ) (s k : ℕ) → s + k ≤ length xs → length (take k (drop s xs)) ≡ k
length-part xs zero zero h = refl
length-part [] zero (suc k) h = absurd (omega arith)
length-part (x ∷ xs) zero (suc k) h = ap suc (length-part xs zero k (omega arith))
length-part [] (suc s) k h = absurd (omega arith)
length-part (x ∷ xs) (suc s) k h = length-part xs s k (omega arith)

positions_lem :
    (p start n : ℕ)
    → start + n ≤ p
    → p ≤ 2 ^ 32
    → (length (positions start n) ≡ n) × All (λ i. i < p) (positions start n)
unfolding positions
positions_lem p start zero h small = (refl, tt)
positions_lem p start (suc n) h small =
    let (l, bound) = positions_lem p (suc start) n (omega arith) small in
    (ap suc l, (omega arith, bound))

rows_from-shifted :
    (a b : ColumnBatch) (start n k i : ℕ)
    → ((j : ℕ) → j < n → row_at b j ≡ row_at a (start + j))
    → i + k ≤ n
    → rows_from b k i ≡ rows_from a k (start + i)
unfolding rows_from
rows_from-shifted a b start n zero i same le = refl
rows_from-shifted a b start n (suc k) i same le =
    let next : start + suc i ≡ suc (start + i) = omega arith in
    rw (same i (omega arith), rows_from-shifted a b start n k (suc i) same (omega arith), next) refl

-- A slice of a well-formed batch is there, is well formed and has the rows of its range.
abbrev pub Sliced : ℕ → List Row → ℕ → ℕ → Outcome ColumnBatch → Type 0
Sliced p found start n r =
    (kept : ColumnBatch) × (r ≡ returns kept)
    × (kept.n_rows ≡ n)
    × IsBatch p kept
    × (batch_rows kept ≡ returns (take n (drop start found)))

part_rows :
    (a : ColumnBatch) (start n : ℕ) {found : List Row}
    → batch_rows a ≡ returns found
    → start + n ≤ a.n_rows
    → rows_from a n (start + 0) ≡ returns (take n (drop start found))
unfolding batch_rows
part_rows a start n {found} h le =
    let split : a.n_rows ≡ start + (a.n_rows - start) = omega arith in
    let from_start : start + 0 ≡ 0 + start = omega arith in
    let whole : rows_from a (start + (a.n_rows - start)) 0 ≡ returns found =
      ap (λ k. rows_from a k 0) (sym split) ∙ h in
    rw from_start (
      rows_from-take a (a.n_rows - start) (0 + start) n
        (rows_from-drop a (a.n_rows - start) 0 start whole) (omega arith))

abbrev over : List Column → ℕ → Option (List ℕ) → ColumnBatch
over cs n sel = record { columns = cs; n_rows = n; selection = sel }

row_at-part :
    (cs : List Column) (m : ℕ) (sel : List ℕ) (start n j : ℕ)
    → j < n
    → row_at (over cs n (some (take n (drop start sel)))) j
      ≡ row_at (over cs m (some sel)) (start + j)
unfolding row_at physical_for
row_at-part cs m sel start n j below =
    rw (index-take (drop start sel) n j below, index-drop sel start j) refl

row_at-positions :
    (cs : List Column) (m start n j : ℕ)
    → j < n
    → start + n ≤ 2 ^ 32
    → row_at (over cs n (some (positions start n))) j ≡ row_at (over cs m none) (start + j)
unfolding row_at physical_for
row_at-positions cs m start n j below small = rw (index-positions start n j below small) refl

slice_lem :
    (p : ℕ) (cs : List Column) (m : ℕ) (s : Option (List ℕ)) (part : List ℕ) (start n : ℕ)
    {found : List Row} {r : Outcome ColumnBatch}
    → IsBatch p (over cs m s)
    → batch_rows (over cs m s) ≡ returns found
    → start + n ≤ m
    → (length part ≡ n) × All (λ i. i < p) part
    → ((j : ℕ) → j < n → row_at (over cs n (some part)) j ≡ row_at (over cs m s) (start + j))
    → r ≡ returns (over cs n (some part))
    → Sliced p found start n r
unfolding batch_rows
slice_lem p cs m s part start n b h le chosen same e = (
  over cs n (some part),
  e,
  refl,
  record { columns = b.columns; selected = chosen; small = b.small },
  rows_from-shifted (over cs m s) (over cs n (some part)) start n n 0 same (omega arith)
      ∙ part_rows (over cs m s) start n h le,
)

slice_parts :
    (p : ℕ) (cs : List Column) (m : ℕ) (s : Option (List ℕ)) (start n : ℕ) {found : List Row}
    → IsBatch p (over cs m s)
    → batch_rows (over cs m s) ≡ returns found
    → start + n ≤ m
    → Sliced p found start n (slice_logical_rows (over cs m s) start (start + n))
unfolding slice_logical_rows
slice_parts p cs m (some sel) start n b h le =
    let ordered : ltb (start + n) start ≡ false = ground arith in
    let wide : start + n ≤ length sel = omega (arith, b.selected.0) in
    let inside : ltb (length sel) (start + n) ≡ false = ground arith in
    let width : start + n - start ≡ n = omega arith in
    slice_lem p cs m (some sel) (take n (drop start sel)) start n b h le
      (
        length-part sel start n wide,
        All-take p (drop start sel) n (All-drop p sel start b.selected.1),
      )
      (row_at-part cs m sel start n) (rw (ordered, inside, width) refl)
slice_parts p cs m none start n b h le =
    let ordered : ltb (start + n) start ≡ false = ground arith in
    let width : start + n - start ≡ n = omega arith in
    let wide : start + n ≤ p = omega (arith, b.selected) in
    let small : start + n ≤ 2 ^ 32 = omega (arith, b.small) in
    slice_lem p cs m none (positions start n) start n b h le (positions_lem p start n wide b.small)
      (λ j below. row_at-positions cs m start n j below small) (rw (ordered, width) refl)

pub slice_logical_rows-Sliced :
    (p : ℕ) (batch : ColumnBatch) (start n : ℕ) {found : List Row}
    → IsBatch p batch
    → batch_rows batch ≡ returns found
    → start + n ≤ batch.n_rows
    → Sliced p found start n (slice_logical_rows batch start (start + n))
slice_logical_rows-Sliced p batch start n b h le =
    slice_parts p batch.columns batch.n_rows batch.selection start n b h le
