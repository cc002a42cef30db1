-- ===== src/Engine/Columnar/Equivalence.antt =====
-- `eval_batch` against `eval`.
use prehnite_db.Prelude.{
  ℕ, zero, suc, ◌<◌, ◌≡◌, refl, Bool, Option, none, some, List, [], ◌∷◌, length, All, if◌then◌else◌,
  arith, sym, ◌∙◌, ok,
}
use mathlib.Core.Path.{subst}
use prehnite_db.Prelude.Int.{ℤ}
use prehnite_db.Bytes.{Bytes}
use prehnite_db.Real.{RealOps}
use prehnite_db.Outcome.{
  Outcome, returns, ◌>>=◌, try, index, >>=-eq-returns, try-eq-returns, returns_inj,
}
use prehnite_db.Value.{Value, null, int, real, text, bool}
use prehnite_db.Sql.Ast.{Expr, Exprs, ColumnRef}
use prehnite_db.Engine.Scope.{Scope, resolve}
use prehnite_db.Engine.Eval.{
  eval_unary, eval_binary, negate_if, differs, is_null, eval_in_list, context_values, eval,
}
use prehnite_db.Engine.Batch.{
  Column, int_column, real_column, text_column, bool_column, len, cell, value_at, ColumnBatch,
  physical_for, values_at, row_at,
}
use prehnite_db.Engine.Batch.Mask.{bit_at}
use prehnite_db.Engine.Batch.Columns.{IsColumn, AreColumns}
use prehnite_db.Engine.Columnar.{
  materialise_column, unary_columnar, binary_columnar, is_null_columnar, in_list_columnar,
  in_list_cell, eval_batch, broadcast_int, broadcast_real, broadcast_text, broadcast_bool,
}
use prehnite_db.Engine.Columnar.Loops.{slot_lem, broadcast_lem}
use prehnite_db.Engine.Columnar.Rows.{
  Reads, one, both, binary-Reads, is_null-Reads, in_list-row, bool-Reads, len-eq,
}
use prehnite_db.Engine.Columnar.Agreement.{
  Selected, IsBatch, physical, materialise-Reads, index-AreColumns, values_at-index, unary-Reads,
  null-Reads,
}

-- A row that a column has can be read.
pub value_at-returns :
    (n : ℕ) (c : Column) (i : ℕ) → IsColumn n c → i < n → (v : Value) × (value_at c i ≡ returns v)
unfolding value_at cell
value_at-returns n (int_column xs m) i s below =
    let (x, ex, vx) = slot_lem n xs m i s below in
    ((if bit_at m i then int x else null), ground arith)
value_at-returns n (real_column xs m) i s below =
    let (x, ex, vx) = slot_lem n xs m i s below in
    ((if bit_at m i then real x else null), ground arith)
value_at-returns n (text_column xs m) i s below =
    let (x, ex, vx) = slot_lem n xs m i s below in
    ((if bit_at m i then text x else null), ground arith)
value_at-returns n (bool_column xs m) i s below =
    let (x, ex, vx) = slot_lem n xs m i s below in
    ((if bit_at m i then bool x else null), ground arith)

values_at-returns :
    (p : ℕ) (cs : List Column) (k : ℕ)
    → AreColumns p cs
    → k < p
    → (row : List Value) × (values_at cs k ≡ returns row)
unfolding values_at
values_at-returns p [] k h below = ([], refl)
values_at-returns p (c ∷ cs) k (h, hs) below =
    let (v, ev) = value_at-returns p c k h below in
    let (vs, es) = values_at-returns p cs k hs below in (v ∷ vs, rw (ev, es))

index-All :
    (p : ℕ) (sel : List ℕ) (i : ℕ)
    → All (λ k. k < p) sel
    → i < length sel
    → (k : ℕ) × (index sel i ≡ returns k) × (k < p)
index-All p [] i h below = absurd (omega arith)
index-All p (k ∷ sel) zero (h, hs) below = (k, refl, h)
index-All p (k ∷ sel) (suc i) (h, hs) below = index-All p sel i hs (omega arith)

pub physical-returns :
    (p n : ℕ) (s : Option (List ℕ)) (i : ℕ)
    → Selected p n s
    → i < n
    → (k : ℕ) × (physical s i ≡ returns k) × (k < p)
physical-returns p n none i e below = (i, refl, omega arith)
physical-returns p n (some sel) i (e, h) below = index-All p sel i h (omega arith)

pub physical_for-physical :
    (batch : ColumnBatch) (i : ℕ) → physical_for batch i ≡ physical batch.selection i
unfolding physical_for
physical_for-physical batch i =
    elim batch.selection
      as (λ s. (elim s [ some sel ↦ index sel i | none ↦ returns i ]) ≡ physical s i) [
        | none ↦ refl
        | some sel ↦ refl
      ]

module _ (ops : RealOps) (p : ℕ) (batch : ColumnBatch) (scope : Scope) (b : IsBatch p batch) where
  pub row_at-returns :
      (i : ℕ) → i < batch.n_rows → (row : List Value) × (row_at batch i ≡ returns row)
  unfolding row_at
  row_at-returns i below =
      let (k, ek, hk) = physical-returns p batch.n_rows batch.selection i b.selected below in
      let (row, er) = values_at-returns p batch.columns k b.columns hk in
      (row, rw (physical_for-physical batch i, ek) er)

  -- What `e` gives on logical row `i`.
  abbrev pub on_row : Expr → ℕ → Outcome Value
  on_row e i = row_at batch i >>= λ row. eval ops e (some (record { scope = scope; values = row }))

  abbrev pub Agrees : Expr → Column → Type 0
  Agrees e col = Reads batch.n_rows col (on_row e)

  agree :
      (e : Expr) (col : Column) (g : ℕ → Outcome Value)
      → Reads batch.n_rows col g
      → ((i : ℕ) (row : List Value)
          → i < batch.n_rows
          → row_at batch i ≡ returns row
          → g i ≡ eval ops e (some (record { scope = scope; values = row })))
      → Agrees e col
  agree e col g (s, f) same = (
    s,
    λ i below.
        let (row, er) = row_at-returns i below in f i below ∙ same i row below er ∙ rw er refl,
  )

  row_value :
      (e : Expr) (col : Column) (i : ℕ) (row : List Value)
      → Agrees e col
      → i < batch.n_rows
      → row_at batch i ≡ returns row
      → value_at col i ≡ eval ops e (some (record { scope = scope; values = row }))
  row_value e col i row (s, f) below er = f i below ∙ rw er refl

  literal :
      (e : Expr) {col c : Column} (v : Value)
      → returns c ≡ returns col
      → Reads batch.n_rows c (λ i. returns v)
      → ((row : List Value)
          → returns v ≡ eval ops e (some (record { scope = scope; values = row })))
      → Agrees e col
  literal e {col} {c} v h r same =
      subst (Agrees e) (returns_inj h) (agree e c (λ i. returns v) r (λ i row _ _. same row))

  int_broadcast : (v : ℤ) → Reads batch.n_rows (broadcast_int v batch.n_rows) (λ i. returns (int v))
  unfolding broadcast_int value_at
  int_broadcast v = broadcast_lem int batch.n_rows v

  real_broadcast :
      (v : ℕ) → Reads batch.n_rows (broadcast_real v batch.n_rows) (λ i. returns (real v))
  unfolding broadcast_real value_at
  real_broadcast v = broadcast_lem real batch.n_rows v

  text_broadcast :
      (v : Bytes) → Reads batch.n_rows (broadcast_text v batch.n_rows) (λ i. returns (text v))
  unfolding broadcast_text value_at
  text_broadcast v = broadcast_lem text batch.n_rows v

  bool_broadcast :
      (v : Bool) → Reads batch.n_rows (broadcast_bool v batch.n_rows) (λ i. returns (bool v))
  unfolding broadcast_bool value_at
  bool_broadcast v = broadcast_lem bool batch.n_rows v

  in_list-Reads :
      (values : Exprs) (has_null negated : Bool) (probes : Column) {col : Column}
      → len probes ≡ batch.n_rows
      → in_list_columnar ops probes values has_null negated ≡ returns col
      → Reads batch.n_rows col
          (one probes (λ v. eval_in_list ops v values has_null >>= λ r. negate_if negated r))
  unfolding in_list_columnar
  in_list-Reads values has_null negated probes e h =
      bool-Reads (in_list_cell ops probes values has_null negated)
        (one probes (λ v. eval_in_list ops v values has_null >>= λ r. negate_if negated r))
        batch.n_rows (λ i _ c eb. in_list-row ops probes values has_null negated i c eb)
        (rw (sym e) h)

  column-Agrees :
      (colref : ColumnRef) (idx : ℕ) (c : Column) {col : Column}
      → resolve scope colref ≡ ok idx
      → index batch.columns idx ≡ returns c
      → materialise_column c batch.selection ≡ returns col
      → Agrees (Expr.column colref) col
  unfolding eval context_values row_at
  column-Agrees colref idx c {col} er ei em =
      agree (Expr.column colref) col (λ i. physical batch.selection i >>= λ k. value_at c k)
        (materialise-Reads p batch.n_rows c batch.selection
          (index-AreColumns p batch.columns idx b.columns ei) b.selected em)
        λ i row below h.
          let (k, ek, hk) = physical-returns p batch.n_rows batch.selection i b.selected below in
          let at_k : values_at batch.columns k ≡ returns row =
            rw (physical_for-physical batch i, ek) at h in
          rw (ek, er) (sym (values_at-index batch.columns k idx at_k ei))

  pub eval_batch-Agrees :
      (e : Expr) {col : Column} → eval_batch ops e batch scope ≡ returns col → Agrees e col
  unfolding eval_batch eval eval_in_list
  eval_batch-Agrees Expr.null h = literal Expr.null null h (null-Reads batch.n_rows) (λ row. refl)
  eval_batch-Agrees (Expr.integer v) h =
      literal (Expr.integer v) (int v) h (int_broadcast v) (λ row. refl)
  eval_batch-Agrees (Expr.real v) h =
      literal (Expr.real v) (real v) h (real_broadcast v) (λ row. refl)
  eval_batch-Agrees (Expr.str v) h =
      literal (Expr.str v) (text v) h (text_broadcast v) (λ row. refl)
  eval_batch-Agrees (Expr.bool v) h =
      literal (Expr.bool v) (bool v) h (bool_broadcast v) (λ row. refl)
  eval_batch-Agrees (Expr.column colref) h =
      let (idx, er, h') =
        >>=-eq-returns (try (resolve scope colref))
          (λ idx. index batch.columns idx >>= λ col. materialise_column col batch.selection) h in
      let (c, ei, em) =
        >>=-eq-returns (index batch.columns idx) (λ col. materialise_column col batch.selection)
          h' in
      column-Agrees colref idx c (try-eq-returns (resolve scope colref) er) ei em
  eval_batch-Agrees (Expr.unary op e) {col} h =
      let (inner, ei, eu) = >>=-eq-returns (eval_batch ops e batch scope) (unary_columnar op) h in
      let ih = eval_batch-Agrees e ei in
      agree (Expr.unary op e) col (one inner (eval_unary op))
        (unary-Reads op batch.n_rows inner ih.0 eu)
        λ i row below er. rw (row_value e inner i row ih below er) refl
  eval_batch-Agrees (Expr.binary op l r) {col} h =
      let (x, ex, h') =
        >>=-eq-returns (eval_batch ops l batch scope)
          (λ x. eval_batch ops r batch scope >>= λ y. binary_columnar ops op x y) h in
      let (y, ey, eb) =
        >>=-eq-returns (eval_batch ops r batch scope) (binary_columnar ops op x) h' in
      let left = eval_batch-Agrees l ex in
      let right = eval_batch-Agrees r ey in
      agree (Expr.binary op l r) col (both x y (eval_binary ops op))
        (binary-Reads ops op batch.n_rows x y left.0 right.0 eb)
        λ i row below er.
          rw (row_value l x i row left below er, row_value r y i row right below er) refl
  eval_batch-Agrees (Expr.is_null e negated) {col} h =
      let (inner, ei, en) =
        >>=-eq-returns (eval_batch ops e batch scope) (λ c. is_null_columnar c negated) h in
      let ih = eval_batch-Agrees e ei in
      agree (Expr.is_null e negated) col
        (one inner (λ v. returns (bool (differs (is_null v) negated))))
        (is_null-Reads negated batch.n_rows inner ih.0 en)
        λ i row below er. rw (row_value e inner i row ih below er) refl
  eval_batch-Agrees (Expr.in_list e values has_null negated) {col} h =
      let (probes, ep, en) =
        >>=-eq-returns (eval_batch ops e batch scope)
          (λ c. in_list_columnar ops c values has_null negated) h in
      let ih = eval_batch-Agrees e ep in
      agree (Expr.in_list e values has_null negated) col
        (one probes (λ v. eval_in_list ops v values has_null >>= λ r. negate_if negated r))
        (in_list-Reads values has_null negated probes (len-eq batch.n_rows probes ih.0) en)
        λ i row below er. rw (row_value e probes i row ih below er) refl
  eval_batch-Agrees (Expr.placeholder i) h = cc
  eval_batch-Agrees (Expr.aggregate a) h = cc
  eval_batch-Agrees (Expr.in_subquery e s negated) h = cc
  eval_batch-Agrees (Expr.exists s) h = cc
  eval_batch-Agrees (Expr.scalar_subquery s) h = cc
  eval_batch-Agrees (Expr.correlated_exists s) h = cc
  eval_batch-Agrees (Expr.correlated_scalar_subquery s) h = cc
  eval_batch-Agrees (Expr.correlated_in_subquery e s negated) h = cc

  -- On a well-formed batch, if the columnwise evaluation returns a column, then it has a value for
  -- each logical row, which is what the row-by-row evaluation returns on that row of the batch.
  pub eval_batch-eval :
      (e : Expr) {col : Column}
      → eval_batch ops e batch scope ≡ returns col
      → (i : ℕ) → i < batch.n_rows
      → (row : List Value) × (v : Value) × (row_at batch i ≡ returns row)
        × (value_at col i ≡ returns v)
        × (eval ops e (some (record { scope = scope; values = row })) ≡ returns v)
  eval_batch-eval e {col} h i below =
      let agrees = eval_batch-Agrees e h in
      let (row, er) = row_at-returns i below in
      let (v, ev) = value_at-returns batch.n_rows col i agrees.0 below in
      (row, v, er, ev, sym (row_value e col i row agrees below er) ∙ ev)
