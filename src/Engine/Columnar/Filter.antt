-- ===== src/Engine/Columnar/Filter.antt =====
-- `BatchFilter` keeps the rows that the row-at-a-time filter keeps.
use prehnite_db.Prelude.{
  ℕ, zero, suc, ◌+◌, ◌<◌, ◌^◌, ◌%◌, ◌≡◌, refl, Bool, true, false, ◌&&◌, Option, none, some, List,
  [], ◌∷◌, ◌++◌, length, take, drop, All, if◌then◌else◌, arith, ap, sym, ◌∙◌,
}
use mathlib.Core.Path.{subst}
use prehnite_db.Real.{RealOps}
use prehnite_db.Outcome.{Outcome, returns, ◌>>=◌, index, >>=-eq-returns, returns_inj}
use prehnite_db.Value.{Value, null, bool}
use prehnite_db.Sql.Ast.{Expr, only_if}
use prehnite_db.Engine.Scope.{Scope}
use prehnite_db.Engine.Eval.{passes_filter, is_true}
use prehnite_db.Engine.Batch.{
  NullMask, is_valid, Column, int_column, real_column, text_column, bool_column, cell, value_at,
  ColumnBatch, physical_for, values_at, row_at,
}
use prehnite_db.Engine.Batch.Columns.{IsColumn}
use prehnite_db.Engine.Columnar.{eval_batch}
use prehnite_db.Engine.Columnar.Selection.{
  select_rows, build_selection, filter_batch, filter_rows, rows_from, batch_rows, reselect,
}
use prehnite_db.Engine.Columnar.Agreement.{IsBatch}
use prehnite_db.Engine.Columnar.Equivalence.{
  physical-returns, physical_for-physical, eval_batch-eval, eval_batch-Agrees,
}

-- The rows of the columns at some positions.
rows_at : List Column → List ℕ → Outcome (List (List Value))
rows_at cs [] = returns []
rows_at cs (k ∷ ks) = do row ← values_at cs k; rows ← rows_at cs ks; returns (row ∷ rows)

drop-head {ℓ} :
    {A : Type ℓ} (xs : List A) (i : ℕ) (v : A) (vs : List A)
    → drop i xs ≡ v ∷ vs
    → (index xs i ≡ returns v) × (drop (suc i) xs ≡ vs)
drop-head [] zero v vs e = absurd (ground arith)
drop-head [] (suc i) v vs e = absurd (ground arith)
drop-head (x ∷ xs) zero v vs e = (cc, cc)
drop-head (x ∷ xs) (suc i) v vs e = drop-head xs i v vs e

-- A batch with a selection is read through it.
rows_from-rows_at :
    (cs : List Column) (n : ℕ) (sel ks : List ℕ) (i : ℕ)
    → drop i sel ≡ ks
    → rows_from (record { columns = cs; n_rows = n; selection = some sel }) (length ks) i
      ≡ rows_at cs ks
unfolding rows_from rows_at row_at physical_for
rows_from-rows_at cs n sel [] i e = refl
rows_from-rows_at cs n sel (k ∷ ks) i e =
    let (ek, rest) = drop-head sel i k ks e in
    rw (ek, rows_from-rows_at cs n sel ks (suc i) rest) refl

mask_true :
    (valid v : Bool) (x : Value)
    → (if valid then returns (bool v) else returns null) ≡ returns x
    → is_true x ≡ (valid && v)
mask_true valid v x h = ground arith

take-length {ℓ} : {A : Type ℓ} (xs : List A) → take (length xs) xs ≡ xs
take-length [] = refl
take-length (x ∷ xs) = ap (λ l. x ∷ l) (take-length xs)

abbrev pub left_rows : Option ColumnBatch → Outcome (List (List Value))
left_rows none = returns []
left_rows (some batch) = batch_rows batch

abbrev pub StaysBatch : ℕ → Option ColumnBatch → Type 0
StaysBatch p none = Unit
StaysBatch p (some batch) = IsBatch p batch

module _ (ops : RealOps) (predicate : Expr) (scope : Scope) (p : ℕ) (batch : ColumnBatch)
    (b : IsBatch p batch) where
  -- The verdict on a row is its slot in the mask.
  Verdict : ℕ → Bool → Type 0
  Verdict i v =
      (row : List Value) × (k : ℕ) × (row_at batch i ≡ returns row)
      × (physical_for batch i ≡ returns k)
      × (k < p)
      × (values_at batch.columns k ≡ returns row)
      × (passes_filter ops (only_if predicate) (record { scope = scope; values = row }) ≡ returns v)

  verdict_lem :
      (values : List Bool) (m : NullMask)
      → eval_batch ops predicate batch scope ≡ returns (bool_column values m)
      → (i : ℕ) (valid v : Bool) → i < batch.n_rows
      → is_valid m i ≡ returns valid
      → index values i ≡ returns v
      → Verdict i (valid && v)
  unfolding Verdict passes_filter
  verdict_lem values m h i valid v below em ev =
      let (row, x, er, ex, eval_row) = eval_batch-eval ops p batch scope b predicate h i below in
      let (k, ek, hk) = physical-returns p batch.n_rows batch.selection i b.selected below in
      let found = physical_for-physical batch i ∙ ek in
      let at_k : values_at batch.columns k ≡ returns row =
        unfold row_at in (rw (found, ◌>>=◌) at er) in
      let slot : (if valid then returns (bool v) else returns null) ≡ returns x =
        unfold value_at cell in (rw (em, ev) at ex) in
      (row, k, er, found, hk, at_k, rw eval_row (ap returns (mask_true valid v x slot)))

  Kept : List (List Value) → List ℕ → Type 0
  Kept rows sel =
      All (λ k. k < p) sel
      × (filter_rows ops predicate scope rows ≡ rows_at batch.columns sel)
      × ((out : List (List Value)) × (rows_at batch.columns sel ≡ returns out))

  -- What a round of `select_rows` adds to the selection.
  abbrev kept_row : ℕ → Bool → Outcome (List ℕ)
  kept_row i keep =
      if keep then (physical_for batch i >>= λ k. returns (k % 2 ^ 32 ∷ [])) else returns []

  keep-Kept :
      (i : ℕ) (keep : Bool) (rows : List (List Value)) (rest kept : List ℕ)
      → Verdict i keep
      → kept_row i keep ≡ returns kept
      → Kept rows rest
      → (row : List Value) × (row_at batch i ≡ returns row) × Kept (row ∷ rows) (kept ++ rest)
  unfolding Kept Verdict filter_rows rows_at
  keep-Kept i true rows rest kept (row, k, erow, ephys, hk, ecols, passes) ek
        (bound, filtered, (out, eo)) =
      let small = b.small in
      let same : k % 2 ^ 32 ≡ k = omega arith in
      let this : k ∷ [] ≡ kept = returns_inj (rw (ephys, ◌>>=◌, same) at ek) in
      subst
        (λ s. (row : List Value) × (row_at batch i ≡ returns row) × Kept (row ∷ rows) (s ++ rest))
        this
        (
          row,
          erow,
          ((hk, bound), rw (passes, ecols, filtered) refl, (row ∷ out, rw (ecols, eo) refl)),
        )
  keep-Kept i false rows rest kept (row, k, erow, ephys, hk, ecols, passes) ek
        (bound, filtered, (out, eo)) =
      subst
        (λ s. (row : List Value) × (row_at batch i ≡ returns row) × Kept (row ∷ rows) (s ++ rest))
        (returns_inj ek) (row, erow, (bound, rw (passes, filtered, eo) refl, (out, eo)))

  select_rows-Kept :
      (values : List Bool) (m : NullMask)
      → eval_batch ops predicate batch scope ≡ returns (bool_column values m)
      → (vs : List Bool) (i : ℕ) (sel : List ℕ) → drop i values ≡ vs
      → i + length vs ≡ batch.n_rows
      → select_rows batch m vs i ≡ returns sel
      → (rows : List (List Value)) × (rows_from batch (length vs) i ≡ returns rows) × Kept rows sel
  unfolding Kept select_rows rows_from filter_rows rows_at
  select_rows-Kept values m h [] i [] ed en es = ([], refl, (tt, refl, ([], refl)))
  select_rows-Kept values m h [] i (k ∷ ks) ed en es = cc
  select_rows-Kept values m h (v ∷ vs) i sel ed en es =
      let (ev, ed') = drop-head values i v vs ed in
      let (valid, em, es1) =
        >>=-eq-returns (is_valid m i)
          (λ valid. kept_row i (valid && v) >>= λ kept.
            select_rows batch m vs (suc i) >>= λ rest. returns (kept ++ rest))
          es in
      let (kept, ek, es2) =
        >>=-eq-returns (kept_row i (valid && v))
          (λ kept. select_rows batch m vs (suc i) >>= λ rest. returns (kept ++ rest)) es1 in
      let (rest, er, es3) =
        >>=-eq-returns (select_rows batch m vs (suc i)) (λ rest. returns (kept ++ rest)) es2 in
      let (rows, erows, k) = select_rows-Kept values m h vs (suc i) rest ed' (omega arith) er in
      let verdict = verdict_lem values m h i valid v (omega arith) em ev in
      let (row, erow, all_kept) = keep-Kept i (valid && v) rows rest kept verdict ek k in
      (row ∷ rows, rw (erow, erows) refl, subst (Kept (row ∷ rows)) (returns_inj es3) all_kept)

  abbrev Filtered : Option ColumnBatch → Type 0
  Filtered out =
      (rows : List (List Value)) × (batch_rows batch ≡ returns rows)
      × (filter_rows ops predicate scope rows ≡ left_rows out)
      × StaysBatch p out

  reselect-Filtered :
      (sel : List ℕ) (rows : List (List Value))
      → batch_rows batch ≡ returns rows
      → Kept rows sel
      → Filtered (reselect batch sel)
  unfolding Kept batch_rows reselect rows_at
  reselect-Filtered [] rows e (bound, filtered, read) = (rows, e, filtered, tt)
  reselect-Filtered (k ∷ ks) rows e (bound, filtered, read) = (
    rows,
    e,
    filtered ∙ sym (rows_from-rows_at batch.columns (length (k ∷ ks)) (k ∷ ks) (k ∷ ks) 0 refl),
    record { columns = b.columns; selected = (refl, bound); small = b.small },
  )

  build_selection-Filtered :
      (mask : Column)
      → eval_batch ops predicate batch scope ≡ returns mask
      → IsColumn batch.n_rows mask
      → (sel : List ℕ) → build_selection batch mask ≡ returns sel
      → Filtered (reselect batch sel)
  unfolding build_selection batch_rows
  build_selection-Filtered (bool_column values m) h s sel e =
      let whole : take batch.n_rows values ≡ values = rw (sym s.0) (take-length values) in
      let start : 0 + length values ≡ batch.n_rows = omega arith in
      let (rows, er, kept) = select_rows-Kept values m h values 0 sel refl start (rw whole at e) in
      reselect-Filtered sel rows (rw s.0 at er) kept
  build_selection-Filtered (int_column values m) h s sel e = cc
  build_selection-Filtered (real_column values m) h s sel e = cc
  build_selection-Filtered (text_column values m) h s sel e = cc

  -- On a well-formed batch, when a round of the batched filter returns, every row of its input can
  -- be read, and the rows of the batch that goes on (none, if no batch does) are those that the
  -- row-at-a-time filter keeps, in their order. That batch is again well formed.
  pub filter_batch-filter_rows :
      {out : Option ColumnBatch}
      → filter_batch ops predicate scope batch ≡ returns out
      → (rows : List (List Value)) × (batch_rows batch ≡ returns rows)
        × (filter_rows ops predicate scope rows ≡ left_rows out)
        × StaysBatch p out
  unfolding filter_batch
  filter_batch-filter_rows {out} h =
      let (mask, em, h1) =
        >>=-eq-returns (eval_batch ops predicate batch scope)
          (λ mask. build_selection batch mask >>= λ sel. returns (reselect batch sel)) h in
      let (sel, es, h2) =
        >>=-eq-returns (build_selection batch mask) (λ sel. returns (reselect batch sel)) h1 in
      let column = (eval_batch-Agrees ops p batch scope b predicate em).0 in
      subst Filtered (returns_inj h2) (build_selection-Filtered mask em column sel es)
