-- ===== src/Engine/Limit.antt =====
-- LIMIT and OFFSET in crates/prehnitedb/src/engine/executor.rs: the operators `Limit` and `BatchLimit`,
-- each as the list of what its `next` returns.
pub mod Slices
pub mod Rows
use prehnite_db.Prelude.{
  ℕ, zero, suc, ◌+◌, ◌-◌, ◌%◌, ◌^◌, Bool, true, false, ◌||◌, Option, none, some, List, [], ◌∷◌,
  ◌++◌, length, take, drop, ltb, leb, if◌then◌else◌,
}
use prehnite_db.Outcome.{Outcome, returns, panics, ◌>>=◌}
use prehnite_db.Value.{Value}
use prehnite_db.Engine.Batch.{ColumnBatch}
use prehnite_db.Engine.Columnar.Selection.{batch_rows}
use prehnite_db.Engine.Join.{Row}

-- `Limit`, by its offset and what remains; behind the last row that it returns it reads no more.
unfoldable pub limit_rows : ℕ → ℕ → List Row → List Row
limit_rows (suc offset) remaining [] = []
limit_rows (suc offset) remaining (row ∷ rows) = limit_rows offset remaining rows
limit_rows zero zero rows = []
limit_rows zero (suc remaining) [] = []
limit_rows zero (suc remaining) (row ∷ rows) = row ∷ limit_rows zero remaining rows

-- `(start..end).map(|i| i as u32)`, by the number of elements.
unfoldable pub positions : ℕ → ℕ → List ℕ
positions start zero = []
positions start (suc n) = start % 2 ^ 32 ∷ positions (suc start) n

-- The slice of a selection panics where it is out of range, and so does the difference.
unfoldable pub slice_logical_rows : ColumnBatch → ℕ → ℕ → Outcome ColumnBatch
unfolding positions
slice_logical_rows batch start end =
    let n = end - start in
    if ltb end start then panics else elim batch.selection [
      | some sel ↦
          if ltb (length sel) end
          then panics
          else returns (record batch { n_rows = n; selection = some (take n (drop start sel)) })
      | none ↦ returns (record batch { n_rows = n; selection = some (positions start n) })
    ]

-- The batch that goes on, and what remains.
unfoldable pub apply_remaining : ℕ → ColumnBatch → Outcome (ColumnBatch × ℕ)
apply_remaining remaining batch =
    if leb batch.n_rows remaining
    then returns (batch, remaining - batch.n_rows)
    else (do kept ← slice_logical_rows batch 0 remaining; returns (kept, 0))

unfoldable pub limit_batches : ℕ → ℕ → List ColumnBatch → Outcome (List ColumnBatch)
limit_batches offset remaining [] = returns []
limit_batches zero zero (batch ∷ batches) = returns []
limit_batches zero (suc remaining) (batch ∷ batches) = do
  kept ← apply_remaining (suc remaining) batch
  rest ← limit_batches zero kept.1 batches
  returns (kept.0 ∷ rest)
limit_batches (suc offset) remaining (batch ∷ batches) = do
  let dropped = limit_batches (suc offset - batch.n_rows) remaining batches
  if leb batch.n_rows (suc offset) then dropped else (do
    tail ← slice_logical_rows batch (suc offset) batch.n_rows
    kept ← apply_remaining remaining tail
    rest ← limit_batches zero kept.1 batches
    returns (kept.0 ∷ rest))

-- `drain_batches_to_rows`
unfoldable pub batches_rows : List ColumnBatch → Outcome (List Row)
batches_rows [] = returns []
batches_rows (batch ∷ batches) = do
  here ← batch_rows batch
  rest ← batches_rows batches
  returns (here ++ rest)
