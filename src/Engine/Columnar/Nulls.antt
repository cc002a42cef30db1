-- ===== src/Engine/Columnar/Nulls.antt =====
-- Where the columnwise evaluation refuses what the row-by-row evaluation accepts.
use prehnite_db.Prelude.{ℕ, ◌≡◌, refl, Option, exec}
use prehnite_db.Real.{RealOps}
use prehnite_db.Outcome.{returns, raises, ◌>>=◌}
use prehnite_db.Value.{Value}
use prehnite_db.Sql.Ast.{Expr, null, unary, binary, neg, BinaryOp, add, sub, mul, div}
use prehnite_db.Engine.Scope.{Scope}
use prehnite_db.Engine.Eval.{RowContext, eval, eval_unary, eval_binary, arithmetic}
use prehnite_db.Engine.Batch.{ColumnBatch, Column}
use prehnite_db.Engine.Columnar.{
  eval_batch, binary_columnar, arithmetic_columnar, unary_columnar, broadcast_null,
}

abbrev pub IsArithmetic : BinaryOp → Type 0
IsArithmetic add = Unit
IsArithmetic sub = Unit
IsArithmetic mul = Unit
IsArithmetic div = Unit
IsArithmetic op = ⊥

null_left :
    (ops : RealOps) (op : BinaryOp) (n : ℕ) (col : Column)
    → IsArithmetic op
    → binary_columnar ops op (broadcast_null n) col ≡ raises exec
unfolding binary_columnar arithmetic_columnar broadcast_null
null_left ops add n col h = refl
null_left ops sub n col h = refl
null_left ops mul n col h = refl
null_left ops div n col h = refl
null_left ops op n col h = absurd h

null_first :
    (ops : RealOps) (op : BinaryOp) (v : Value)
    → IsArithmetic op
    → eval_binary ops op Value.null v ≡ returns Value.null
unfolding eval_binary arithmetic
null_first ops add v h = refl
null_first ops sub v h = refl
null_first ops mul v h = refl
null_first ops div v h = refl
null_first ops op v h = absurd h

-- An arithmetic operation whose left operand is the literal NULL, on a batch on which the columnwise
-- evaluation of its right operand returns a column, and in a row context in which the row-by-row
-- evaluation of that operand returns a value: the columnwise evaluation of the operation fails, and
-- the row-by-row evaluation gives NULL. So it is with the negation of the literal.
pub eval_batch-null :
    (ops : RealOps) (op : BinaryOp) (e : Expr) (batch : ColumnBatch) (scope : Scope)
    (context : Option RowContext) {col : Column} {v : Value}
    → IsArithmetic op
    → eval_batch ops e batch scope ≡ returns col
    → eval ops e context ≡ returns v
    → (eval_batch ops (binary op null e) batch scope ≡ raises exec)
      × (eval ops (binary op null e) context ≡ returns Value.null)
      × (eval_batch ops (unary neg null) batch scope ≡ raises exec)
      × (eval ops (unary neg null) context ≡ returns Value.null)
unfolding eval_batch eval
eval_batch-null ops op e batch scope context {col} {v} h eb ev = (
  rw (eb, ◌>>=◌) (null_left ops op batch.n_rows col h),
  rw (ev, ◌>>=◌) (null_first ops op v h),
  unfold unary_columnar broadcast_null in refl,
  unfold eval_unary in refl,
)
