-- ===== src/Engine/Columnar/Selection.antt =====
-- The rows of a batch that a predicate keeps, and the rows of a batch one by one, in
-- crates/prehnitedb/src/engine/executor.rs: `BatchFilter`, `Filter` and `drain_batches_to_rows`.
use prehnite_db.Prelude.{
  ℕ, zero, suc, ◌%◌, ◌^◌, Bool, ◌&&◌, Option, none, some, List, [], ◌∷◌, ◌++◌, length, take,
  if◌then◌else◌, exec,
}
use prehnite_db.Real.{RealOps}
use prehnite_db.Outcome.{Outcome, returns, raises, ◌>>=◌}
use prehnite_db.Value.{Value}
use prehnite_db.Sql.Ast.{Expr, only_if}
use prehnite_db.Engine.Scope.{Scope}
use prehnite_db.Engine.Eval.{passes_filter}
use prehnite_db.Engine.Batch.{
  NullMask, is_valid, Column, bool_column, ColumnBatch, physical_for, row_at,
}
use prehnite_db.Engine.Columnar.{eval_batch}

-- `build_selection`, from the logical row `i` on: the rows whose mask is exactly TRUE.
unfoldable pub select_rows : ColumnBatch → NullMask → List Bool → ℕ → Outcome (List ℕ)
select_rows batch m [] i = returns []
select_rows batch m (v ∷ vs) i = do
  valid ← is_valid m i
  kept ←
      (if valid && v then (do p ← physical_for batch i; returns (p % 2 ^ 32 ∷ [])) else returns [])
  rest ← select_rows batch m vs (suc i)
  returns (kept ++ rest)

unfoldable pub build_selection : ColumnBatch → Column → Outcome (List ℕ)
build_selection batch (bool_column values m) = select_rows batch m (take batch.n_rows values) 0
build_selection batch other = raises exec

-- The batch that goes on, if a row is left: the same columns under the new selection.
unfoldable pub reselect : ColumnBatch → List ℕ → Option ColumnBatch
reselect input [] = none
reselect input (k ∷ ks) =
    some (record input { n_rows = length (k ∷ ks); selection = some (k ∷ ks) })

module _ (ops : RealOps) where
  -- One round of the loop of `BatchFilter`.
  unfoldable pub filter_batch : Expr → Scope → ColumnBatch → Outcome (Option ColumnBatch)
  filter_batch predicate scope input = do
    mask ← eval_batch ops predicate input scope
    selection ← build_selection input mask
    returns (reselect input selection)

  -- The loop of the row-at-a-time `Filter`, over rows that have been read.
  unfoldable pub filter_rows : Expr → Scope → List (List Value) → Outcome (List (List Value))
  filter_rows predicate scope [] = returns []
  filter_rows predicate scope (row ∷ rows) = do
    passes ← passes_filter ops (only_if predicate) (record { scope = scope; values = row })
    rest ← filter_rows predicate scope rows
    returns (if passes then row ∷ rest else rest)

-- `drain_batches_to_rows` on one batch: the rows from `i` on.
unfoldable pub rows_from : ColumnBatch → ℕ → ℕ → Outcome (List (List Value))
rows_from batch zero i = returns []
rows_from batch (suc rounds) i = do
  row ← row_at batch i
  rows ← rows_from batch rounds (suc i)
  returns (row ∷ rows)

unfoldable pub batch_rows : ColumnBatch → Outcome (List (List Value))
unfolding rows_from
batch_rows batch = rows_from batch batch.n_rows 0
