-- ===== src/Engine/Columnar.antt =====
-- The columnwise evaluation of an expression, in crates/prehnitedb/src/engine/executor.rs. The loops
-- that fill a column and its null mask are calls of `fill`, with the body of the loop.
pub mod Selection
pub mod Loops
pub mod Rows
pub mod Agreement
pub mod Equivalence
pub mod Filter
pub mod Nulls
pub mod Append
use prehnite_db.Prelude.{
  ℕ, zero, suc, ◌%◌, ◌^◌, Bool, true, false, ◌&&◌, ◌||◌, not, Option, none, some, List, [], ◌∷◌,
  ◌++◌, map, length, take, if◌then◌else◌, Error, exec, corruption,
}
use prehnite_db.Prelude.Int.{ℤ, pos}
use prehnite_db.Prelude.Int.Checked.{checked_neg}
use prehnite_db.Bytes.{Bytes}
use prehnite_db.Real.{RealOps}
use prehnite_db.Real
use prehnite_db.Outcome.{Outcome, returns, raises, panics, ◌>>=◌, try, index}
use prehnite_db.Value.{Value, null, int, real, text, bool, int_to_real}
use prehnite_db.Sql.Ast.{
  Expr, Exprs, Condition, only_if, UnaryOp, neg, not_op, BinaryOp, add, sub, mul, div, eq, not_eq,
  lt, lt_eq, gt, gt_eq, and, or,
}
use prehnite_db.Engine.Scope.{Scope, resolve}
use prehnite_db.Engine.Eval.{
  int_arithmetic, real_arithmetic, compare_op, or_overflow, negate_if, differs, eval_in_list,
  RowContext, passes_filter,
}
use prehnite_db.Engine.Batch.{
  NullMask, no_rows, all_valid, push, is_valid, replicate, Column, int_column, real_column,
  text_column, bool_column, nulls, len, value_at, ColumnBatch, physical_for, row_at,
}

-- `for i in from..from + rounds { ... out.push(value); out_nulls.push(valid); }`
unfoldable pub fill {ℓ} :
    {A : Type ℓ}
    → (ℕ → Outcome (A × Bool))
    → ℕ
    → ℕ
    → List A
    → NullMask
    → Outcome (List A × NullMask)
fill body zero i out out_nulls = returns (out, out_nulls)
fill body (suc rounds) i out out_nulls = do
  c ← body i
  fill body rounds (suc i) (out ++ c.0 ∷ []) (push out_nulls c.1)

abbrev pub fill_column {ℓ} :
    {A : Type ℓ} → (List A → NullMask → Column) → (ℕ → Outcome (A × Bool)) → ℕ → Outcome Column
fill_column make body n = do r ← fill body n 0 [] no_rows; returns (make r.0 r.1)

unfoldable pub broadcast_int : ℤ → ℕ → Column
broadcast_int v n = int_column (replicate n v) (all_valid n)

unfoldable pub broadcast_real : ℕ → ℕ → Column
broadcast_real v n = real_column (replicate n v) (all_valid n)

unfoldable pub broadcast_text : Bytes → ℕ → Column
broadcast_text v n = text_column (replicate n v) (all_valid n)

unfoldable pub broadcast_bool : Bool → ℕ → Column
broadcast_bool v n = bool_column (replicate n v) (all_valid n)

-- `n` rounds of `nulls.push(false)`.
unfoldable pub push_nulls : ℕ → NullMask → NullMask
push_nulls zero m = m
push_nulls (suc n) m = push_nulls n (push m false)

unfoldable pub broadcast_null : ℕ → Column
unfolding push_nulls
broadcast_null n = bool_column (replicate n false) (push_nulls n no_rows)

-- The loop of the INT case of `unary_columnar`, from row `i` on; the mask stays as it is.
unfoldable pub negate_values : List ℤ → NullMask → ℕ → Outcome (List ℤ)
negate_values [] m i = returns []
negate_values (v ∷ vs) m i = do
  valid ← is_valid m i
  w ← (if valid then or_overflow (checked_neg v) else returns (pos 0))
  ws ← negate_values vs m (suc i)
  returns (w ∷ ws)

unfoldable pub unary_columnar : UnaryOp → Column → Outcome Column
unary_columnar neg (int_column values m) = do
  out ← negate_values values m 0
  returns (int_column out m)
unary_columnar neg (real_column values m) = returns (real_column (map Real.neg values) m)
unary_columnar neg other = raises exec
unary_columnar not_op (bool_column values m) = returns (bool_column (map not values) m)
unary_columnar not_op other = raises exec

-- `ln.is_valid(i) && rn.is_valid(i)`
abbrev pub both_valid : NullMask → NullMask → ℕ → Outcome Bool
both_valid ln rn i = do l ← is_valid ln i; if l then is_valid rn i else returns false

unfoldable pub int_int_cell :
    BinaryOp → List ℤ → NullMask → List ℤ → NullMask → ℕ → Outcome (ℤ × Bool)
int_int_cell op lv ln rv rn i = do
  valid ← both_valid ln rn i
  if valid
      then (do a ← index lv i; b ← index rv i; n ← int_arithmetic op a b; returns (n, true))
      else returns (pos 0, false)

unfoldable pub column_as_real : Column → ℕ → Outcome (Option ℕ)
column_as_real (int_column values m) i = do
  valid ← is_valid m i
  if valid then (do v ← index values i; returns (some (int_to_real v))) else returns none
column_as_real (real_column values m) i = do
  valid ← is_valid m i
  if valid then (do v ← index values i; returns (some v)) else returns none
column_as_real other i = returns none

unfoldable pub compare_cell : BinaryOp → Column → Column → ℕ → Outcome (Bool × Bool)
compare_cell op left right i = do
  l ← value_at left i
  r ← value_at right i
  v ← compare_op op l r
  elim v [ bool b ↦ returns (b, true) | null ↦ returns (false, false) | _ ↦ panics ]

-- The match of `logic_columnar`: what is read of `lv` and `rv` depends on what is valid.
unfoldable pub logic_cell :
    BinaryOp → List Bool → NullMask → List Bool → NullMask → ℕ → Outcome (Bool × Bool)
logic_cell op lv ln rv rn i = do
  l_valid ← is_valid ln i
  r_valid ← is_valid rn i
  elim op [
    | and ↦
        if l_valid
        then (if r_valid
            then (do l ← index lv i; r ← index rv i; returns (l && r, true))
            else (do l ← index lv i; returns (false, not l)))
        else (if r_valid
            then (do r ← index rv i; returns (false, not r))
            else returns (false, false))
    | or ↦
        if l_valid
        then (if r_valid
            then (do l ← index lv i; r ← index rv i; returns (l || r, true))
            else (do l ← index lv i; returns (l, l)))
        else (if r_valid then (do r ← index rv i; returns (r, r)) else returns (false, false))
    | _ ↦ panics
  ]

unfoldable pub logic_columnar : BinaryOp → Column → Column → Outcome Column
logic_columnar op (bool_column lv ln) (bool_column rv rn) =
    fill_column bool_column (logic_cell op lv ln rv rn) (length lv)
logic_columnar op left right = raises exec

unfoldable pub compare_columnar : BinaryOp → Column → Column → Outcome Column
compare_columnar op left right = fill_column bool_column (compare_cell op left right) (len left)

unfoldable pub is_null_cell : NullMask → Bool → ℕ → Outcome (Bool × Bool)
is_null_cell m negated i = do valid ← is_valid m i; returns (differs (not valid) negated, true)

unfoldable pub is_null_columnar : Column → Bool → Outcome Column
is_null_columnar col negated =
    fill_column bool_column (is_null_cell (nulls col) negated) (nulls col).n_rows

unfoldable pub gather_cell {ℓ} : {A : Type ℓ} → List A → NullMask → List ℕ → ℕ → Outcome (A × Bool)
gather_cell values m selection k = do
  i ← index selection k
  v ← index values i
  valid ← is_valid m i
  returns (v, valid)

unfoldable pub gather_column : Column → List ℕ → Outcome Column
gather_column (int_column values m) sel =
    fill_column int_column (gather_cell values m sel) (length sel)
gather_column (real_column values m) sel =
    fill_column real_column (gather_cell values m sel) (length sel)
gather_column (text_column values m) sel =
    fill_column text_column (gather_cell values m sel) (length sel)
gather_column (bool_column values m) sel =
    fill_column bool_column (gather_cell values m sel) (length sel)

unfoldable pub materialise_column : Column → Option (List ℕ) → Outcome Column
materialise_column col none = returns col
materialise_column col (some sel) = gather_column col sel

module _ (ops : RealOps) where
  unfoldable pub real_real_cell : BinaryOp → Column → Column → ℕ → Outcome (ℕ × Bool)
  real_real_cell op left right i = do
    l ← column_as_real left i
    r ← column_as_real right i
    elim l [
      | some a ↦ elim r [
        | some b ↦ do x ← real_arithmetic ops op a b; returns (x, true)
        | none ↦ returns (0, false)
      ]
      | none ↦ returns (0, false)
    ]

  unfoldable pub arith_real_real : BinaryOp → Column → Column → Outcome Column
  arith_real_real op left right = fill_column real_column (real_real_cell op left right) (len left)

  unfoldable pub arithmetic_columnar : BinaryOp → Column → Column → Outcome Column
  arithmetic_columnar op (int_column lv ln) (int_column rv rn) =
      fill_column int_column (int_int_cell op lv ln rv rn) (length lv)
  arithmetic_columnar op (int_column lv ln) (real_column rv rn) =
      arith_real_real op (int_column lv ln) (real_column rv rn)
  arithmetic_columnar op (real_column lv ln) (int_column rv rn) =
      arith_real_real op (real_column lv ln) (int_column rv rn)
  arithmetic_columnar op (real_column lv ln) (real_column rv rn) =
      arith_real_real op (real_column lv ln) (real_column rv rn)
  arithmetic_columnar op left right = raises exec

  unfoldable pub binary_columnar : BinaryOp → Column → Column → Outcome Column
  binary_columnar add l r = arithmetic_columnar add l r
  binary_columnar sub l r = arithmetic_columnar sub l r
  binary_columnar mul l r = arithmetic_columnar mul l r
  binary_columnar div l r = arithmetic_columnar div l r
  binary_columnar and l r = logic_columnar and l r
  binary_columnar or l r = logic_columnar or l r
  binary_columnar op l r = compare_columnar op l r

  unfoldable pub in_list_cell : Column → Exprs → Bool → Bool → ℕ → Outcome (Bool × Bool)
  in_list_cell probes values has_null negated i = do
    probe ← value_at probes i
    result ← eval_in_list ops probe values has_null
    final ← negate_if negated result
    elim final [ bool b ↦ returns (b, true) | null ↦ returns (false, false) | _ ↦ panics ]

  unfoldable pub in_list_columnar : Column → Exprs → Bool → Bool → Outcome Column
  in_list_columnar probes values has_null negated =
      fill_column bool_column (in_list_cell probes values has_null negated) (len probes)

  unfoldable pub eval_batch : Expr → ColumnBatch → Scope → Outcome Column
  eval_batch Expr.null batch scope = returns (broadcast_null batch.n_rows)
  eval_batch (Expr.integer v) batch scope = returns (broadcast_int v batch.n_rows)
  eval_batch (Expr.real v) batch scope = returns (broadcast_real v batch.n_rows)
  eval_batch (Expr.str v) batch scope = returns (broadcast_text v batch.n_rows)
  eval_batch (Expr.bool v) batch scope = returns (broadcast_bool v batch.n_rows)
  eval_batch (Expr.placeholder i) batch scope = panics
  eval_batch (Expr.column colref) batch scope = do
    idx ← try (resolve scope colref)
    col ← index batch.columns idx
    materialise_column col batch.selection
  eval_batch (Expr.unary op e) batch scope = do
    inner ← eval_batch e batch scope
    unary_columnar op inner
  eval_batch (Expr.binary op left right) batch scope = do
    l ← eval_batch left batch scope
    r ← eval_batch right batch scope
    binary_columnar op l r
  eval_batch (Expr.is_null e negated) batch scope = do
    inner ← eval_batch e batch scope
    is_null_columnar inner negated
  eval_batch (Expr.in_list e values has_null negated) batch scope = do
    probes ← eval_batch e batch scope
    in_list_columnar probes values has_null negated
  eval_batch (Expr.aggregate a) batch scope = raises exec
  eval_batch other batch scope = raises corruption
