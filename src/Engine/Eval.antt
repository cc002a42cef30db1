-- ===== src/Engine/Eval.antt =====
-- The evaluation of an expression on one row, in crates/prehnitedb/src/engine/executor.rs.
use prehnite_db.Prelude.{
  ℕ, Bool, true, false, not, ◌&&◌, Option, none, some, List, Ordering, exec, corruption,
  if◌then◌else◌,
}
use prehnite_db.Prelude.Int.{ℤ, compare_ℤ}
use prehnite_db.Prelude.Int.Checked.{
  checked_add, checked_sub, checked_mul, checked_div, checked_neg, is_zero,
}
use prehnite_db.Bytes.{cmp}
use prehnite_db.Real.{RealOps}
use prehnite_db.Real
use prehnite_db.Outcome.{Outcome, returns, raises, panics, ◌>>=◌, try, index}
use prehnite_db.Value.{Value, null, int, real, text, bool, int_to_real}
use prehnite_db.Sql.Ast.{
  Expr, Exprs, no_exprs, next_expr, Condition, always, only_if, UnaryOp, neg, not_op, BinaryOp, add,
  sub, mul, div, eq, not_eq, lt, lt_eq, gt, gt_eq, and, or,
}
use prehnite_db.Engine.Scope.{Scope, resolve}

pub record RowContext : Type 0 where
  pub scope : Scope
  pub values : List Value

abbrev pub is_null : Value → Bool
is_null null = true
is_null _ = false

abbrev pub is_number : Value → Bool
is_number (int n) = true
is_number (real r) = true
is_number _ = false

unfoldable pub as_number : Value → Outcome ℕ
as_number (int n) = returns (int_to_real n)
as_number (real r) = returns r
as_number other = raises exec

unfoldable pub as_bool : Value → Outcome (Option Bool)
as_bool null = returns none
as_bool (bool b) = returns (some b)
as_bool other = raises exec

abbrev pub compare_bool : Bool → Bool → Ordering
compare_bool false true = Ordering.lt
compare_bool true false = Ordering.gt
compare_bool a b = Ordering.eq

abbrev pub comparable : Option Ordering → Outcome Ordering
comparable (some o) = returns o
comparable none = raises exec

unfoldable pub compare_numbers : Value → Value → Outcome Ordering
unfolding as_number
compare_numbers a b =
    if is_number a && is_number b
    then (do x ← as_number a; y ← as_number b; comparable (Real.partial_cmp x y))
    else raises exec

unfoldable pub compare : Value → Value → Outcome Ordering
unfolding compare_numbers
compare (int a) (int b) = returns (compare_ℤ a b)
compare (text a) (text b) = returns (cmp a b)
compare (bool a) (bool b) = returns (compare_bool a b)
compare a b = compare_numbers a b

abbrev is_eq : Ordering → Bool
is_eq Ordering.eq = true
is_eq _ = false

abbrev is_lt : Ordering → Bool
is_lt Ordering.lt = true
is_lt _ = false

abbrev is_gt : Ordering → Bool
is_gt Ordering.gt = true
is_gt _ = false

unfoldable pub verdict : BinaryOp → Ordering → Outcome Bool
verdict eq o = returns (is_eq o)
verdict not_eq o = returns (not (is_eq o))
verdict lt o = returns (is_lt o)
verdict lt_eq o = returns (not (is_gt o))
verdict gt o = returns (is_gt o)
verdict gt_eq o = returns (not (is_lt o))
verdict other o = panics

unfoldable pub compare_op : BinaryOp → Value → Value → Outcome Value
unfolding compare verdict
compare_op op null r = returns null
compare_op op l null = returns null
compare_op op l r = do o ← compare l r; b ← verdict op o; returns (bool b)

-- What a definite operand decides.
unfoldable pub conjunction : Option Bool → Option Bool → Value
conjunction (some false) r = bool false
conjunction l (some false) = bool false
conjunction (some true) (some true) = bool true
conjunction l r = null

unfoldable pub disjunction : Option Bool → Option Bool → Value
disjunction (some true) r = bool true
disjunction l (some true) = bool true
disjunction (some false) (some false) = bool false
disjunction l r = null

unfoldable pub logic : BinaryOp → Value → Value → Outcome Value
unfolding as_bool conjunction disjunction
logic op left right = do
  l ← as_bool left
  r ← as_bool right
  elim op [ and ↦ returns (conjunction l r) | or ↦ returns (disjunction l r) | _ ↦ panics ]

-- The end of the INT case of an operation: overflow is an error.
abbrev pub or_overflow : Option ℤ → Outcome ℤ
or_overflow (some n) = returns n
or_overflow none = raises exec

unfoldable pub int_arithmetic : BinaryOp → ℤ → ℤ → Outcome ℤ
int_arithmetic add a b = or_overflow (checked_add a b)
int_arithmetic sub a b = or_overflow (checked_sub a b)
int_arithmetic mul a b = or_overflow (checked_mul a b)
int_arithmetic div a b = if is_zero b then raises exec else or_overflow (checked_div a b)
int_arithmetic other a b = panics

unfoldable pub eval_unary : UnaryOp → Value → Outcome Value
eval_unary neg null = returns null
eval_unary neg (int n) = do m ← or_overflow (checked_neg n); returns (int m)
eval_unary neg (real r) = returns (real (Real.neg r))
eval_unary neg other = raises exec
eval_unary not_op null = returns null
eval_unary not_op (bool b) = returns (bool (not b))
eval_unary not_op other = raises exec

unfoldable pub negate_bool : Value → Outcome Value
negate_bool (bool b) = returns (bool (not b))
negate_bool null = returns null
negate_bool other = panics

unfoldable pub context_values : Option RowContext → Outcome RowContext
context_values (some ctx) = returns ctx
context_values none = raises exec

abbrev pub negate_if : Bool → Value → Outcome Value
negate_if true v = negate_bool v
negate_if false v = returns v

abbrev pub differs : Bool → Bool → Bool
differs true b = not b
differs false b = b

abbrev pub is_true : Value → Bool
is_true (bool b) = b
is_true _ = false

module _ (ops : RealOps) where
  unfoldable pub real_arithmetic : BinaryOp → ℕ → ℕ → Outcome ℕ
  real_arithmetic add a b = returns (ops.add a b)
  real_arithmetic sub a b = returns (ops.sub a b)
  real_arithmetic mul a b = returns (ops.mul a b)
  real_arithmetic div a b = if Real.is_zero b then raises exec else returns (ops.div a b)
  real_arithmetic other a b = panics

  unfoldable pub arithmetic : BinaryOp → Value → Value → Outcome Value
  unfolding int_arithmetic real_arithmetic as_number
  arithmetic op null r = returns null
  arithmetic op l null = returns null
  arithmetic op (int a) (int b) = do n ← int_arithmetic op a b; returns (int n)
  arithmetic op l r = do
    a ← as_number l
    b ← as_number r
    x ← real_arithmetic op a b
    returns (real x)

  unfoldable pub eval_binary : BinaryOp → Value → Value → Outcome Value
  unfolding arithmetic compare_op logic
  eval_binary add l r = arithmetic add l r
  eval_binary sub l r = arithmetic sub l r
  eval_binary mul l r = arithmetic mul l r
  eval_binary div l r = arithmetic div l r
  eval_binary and l r = logic and l r
  eval_binary or l r = logic or l r
  eval_binary op l r = compare_op op l r

  unfoldable mutual
    pub eval : Expr → Option RowContext → Outcome Value
    eval Expr.null context = returns null
    eval (Expr.integer n) context = returns (int n)
    eval (Expr.real r) context = returns (real r)
    eval (Expr.str s) context = returns (text s)
    eval (Expr.bool b) context = returns (bool b)
    eval (Expr.placeholder i) context = panics
    eval (Expr.column colref) context = do
      ctx ← context_values context
      i ← try (resolve ctx.scope colref)
      index ctx.values i
    eval (Expr.aggregate a) context = raises exec
    eval (Expr.unary op e) context = do v ← eval e context; eval_unary op v
    eval (Expr.binary op l r) context = do
      x ← eval l context
      y ← eval r context
      eval_binary op x y
    eval (Expr.is_null e negated) context = do
      v ← eval e context
      returns (bool (differs (is_null v) negated))
    eval (Expr.in_list e values has_null negated) context = do
      probe ← eval e context
      -- `eval_in_list`
      result ← (if is_null probe then returns null else search_list probe values has_null)
      negate_if negated result
    eval (Expr.in_subquery e s negated) context = raises corruption
    eval (Expr.exists s) context = raises corruption
    eval (Expr.scalar_subquery s) context = raises corruption
    eval (Expr.correlated_exists s) context = raises corruption
    eval (Expr.correlated_scalar_subquery s) context = raises corruption
    eval (Expr.correlated_in_subquery e s negated) context = raises corruption

    -- The loop of `eval_in_list`.
    pub search_list : Value → Exprs → Bool → Outcome Value
    search_list probe no_exprs has_null = returns (if has_null then null else bool false)
    search_list probe (next_expr e es) has_null = do
      let rest = search_list probe es has_null
      v ← eval e none
      found ← compare_op eq probe v
      if is_true found then returns (bool true) else rest

  unfoldable pub eval_in_list : Value → Exprs → Bool → Outcome Value
  eval_in_list probe values has_null =
      if is_null probe then returns null else search_list probe values has_null

  -- A predicate has to be exactly TRUE.
  unfoldable pub passes_filter : Condition → RowContext → Outcome Bool
  passes_filter always ctx = returns true
  passes_filter (only_if e) ctx = do v ← eval e (some ctx); returns (is_true v)
