-- ===== src/Engine/Columnar/Append.antt =====
-- `ColumnBatch::push_row` in crates/prehnitedb/src/engine/batch.rs, by what is read from the batch.
use prehnite_db.Prelude.{
  arith, ℕ, zero, suc, ◌+◌, ◌≤◌, ◌<◌, ◌≡◌, refl, sym, ◌∙◌, List, [], ◌∷◌, ◌++◌, none, length,
  Result, ok, err,
}
use prehnite_db.Outcome.{returns, ◌>>=◌, >>=-eq-returns}
use prehnite_db.Value.{Value}
use prehnite_db.Engine.Batch.{ColumnBatch, push_row, row_at}
use prehnite_db.Engine.Batch.Columns.{AreColumns, coerce_row, Appended, push_row-Appended}
use prehnite_db.Engine.Columnar.Selection.{rows_from, batch_rows}

rows_from-same :
    (a b : ColumnBatch) (n k i : ℕ)
    → ((j : ℕ) → j < n → row_at b j ≡ row_at a j)
    → i + k ≤ n
    → rows_from b k i ≡ rows_from a k i
unfolding rows_from
rows_from-same a b n zero i same le = refl
rows_from-same a b n (suc k) i same le =
    rw (same i (omega arith), rows_from-same a b n k (suc i) same (omega arith)) refl

rows_from-last :
    (b : ColumnBatch) (k i : ℕ) {found : List (List Value)} {ws : List Value}
    → rows_from b k i ≡ returns found
    → row_at b (i + k) ≡ returns ws
    → rows_from b (suc k) i ≡ returns (found ++ ws ∷ [])
unfolding rows_from
rows_from-last b zero i {found} {ws} h e =
    let same : i + 0 ≡ i = omega arith in
    let at_i : row_at b i ≡ returns ws = rw same at e in
    let nothing : [] ≡ found = ground arith in rw (at_i, sym nothing) refl
rows_from-last b (suc k) i {found} {ws} h e =
    let (row, er, h1) =
      >>=-eq-returns (row_at b i) (λ row. rows_from b k (suc i) >>= λ rest. returns (row ∷ rest))
        h in
    let (rest, es, h2) = >>=-eq-returns (rows_from b k (suc i)) (λ rest. returns (row ∷ rest)) h1 in
    let same : i + suc k ≡ suc i + k = omega arith in
    let at_end : row_at b (suc i + k) ≡ returns ws = rw same at e in
    let more : rows_from b (suc k) (suc i) ≡ returns (rest ++ ws ∷ []) =
      rows_from-last b k (suc i) es at_end in
    let split : row ∷ rest ≡ found = ground arith in rw (er, more, sym split) refl

-- What a `push_row` leaves of the rows: they and the new one, or they alone after the failure of a
-- coercion.
abbrev pub LastRow :
    ColumnBatch → List Value → List (List Value) → Result (Unit {0}) × ColumnBatch → Type 0
LastRow batch row found (ok x, batch') =
    (ws : List Value) × (coerce_row batch.columns row ≡ ok ws)
    × (batch'.selection ≡ none)
    × AreColumns batch'.n_rows batch'.columns
    × (batch_rows batch' ≡ returns (found ++ ws ∷ []))
LastRow batch row found (err e, batch') =
    (coerce_row batch.columns row ≡ err e) × (batch_rows batch' ≡ returns found)

-- On a well-formed batch without a selection, `push_row` of a row of its width fails exactly as the
-- coercion of the row to the types of the columns does, and then leaves the rows as they were;
-- otherwise the rows of the new batch are those of the old one and then the coerced row, and it is
-- again well formed and without a selection.
pub push_row-batch_rows :
    (batch : ColumnBatch) (row : List Value) {found : List (List Value)}
    → batch.selection ≡ none
    → length row ≡ length batch.columns
    → AreColumns batch.n_rows batch.columns
    → batch_rows batch ≡ returns found
    → LastRow batch row found (push_row batch row)
unfolding batch_rows row_at prehnite_db.Engine.Batch.physical_for
push_row-batch_rows batch row {found} plain e h r =
    from_appended (push_row batch row) (push_row-Appended batch row plain e h)
  where
    from_appended :
        (q : Result (Unit {0}) × ColumnBatch) → Appended batch row q → LastRow batch row found q
    from_appended (ok x, batch') (ws, e1, n, s, t, l, o) =
        let start : 0 + batch.n_rows ≡ batch.n_rows = omega arith in
        let before : rows_from batch' batch.n_rows 0 ≡ returns found =
          rows_from-same batch batch' batch.n_rows batch.n_rows 0 o (omega arith) ∙ r in
        let all_rows : rows_from batch' (suc batch.n_rows) 0 ≡ returns (found ++ ws ∷ []) =
          rows_from-last batch' batch.n_rows 0 before (rw start l) in
        (ws, e1, s, t, rw n all_rows)
    from_appended (err b, batch') (e1, n, s, o) =
        let before : rows_from batch' batch.n_rows 0 ≡ returns found =
          rows_from-same batch batch' batch.n_rows batch.n_rows 0 o (omega arith) ∙ r in
        (e1, rw n before)
