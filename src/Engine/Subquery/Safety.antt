-- ===== src/Engine/Subquery/Safety.antt =====
-- Every operation of an expression ends in a value or in an error that is not corruption.
use prehnite_db.Prelude.{
  ℕ, Bool, true, false, Option, none, some, Error, corruption, Bool-cases, inl, inr,
}
use prehnite_db.Prelude.{Ordering}
use prehnite_db.Prelude.Int.{ℤ}
use prehnite_db.Prelude.Int.Checked.{
  checked_add, checked_sub, checked_mul, checked_div, checked_neg, is_zero,
}
use prehnite_db.Real.{RealOps}
use prehnite_db.Real
use prehnite_db.Outcome.{Outcome, returns, raises, panics, ◌>>=◌}
use prehnite_db.Value.{Value, int_to_real}
use prehnite_db.Sql.Ast.{
  UnaryOp, neg, not_op, BinaryOp, add, sub, mul, div, eq, not_eq, lt, lt_eq, gt, gt_eq, and, or,
}
use prehnite_db.Engine.Eval.{
  eval_unary, eval_binary, arithmetic, int_arithmetic, real_arithmetic, compare_op, compare,
  compare_numbers, verdict, logic, conjunction, disjunction, as_number, as_bool, comparable,
  negate_bool, negate_if, or_overflow,
}

abbrev pub NotCorruption : Error → Type 0
NotCorruption corruption = ⊥
NotCorruption e = Unit

-- A value with the property, or an error that is not corruption.
abbrev pub Ends {ℓ} : {A : Type ℓ} → (A → Type 0) → Outcome A → Type 0
Ends P (returns a) = P a
Ends P (raises e) = NotCorruption e
Ends P panics = ⊥

abbrev pub Any {ℓ} : {A : Type ℓ} → A → Type 0
Any a = Unit

-- A truth value of the three-valued logic.
abbrev pub IsTruth : Value → Type 0
IsTruth Value.null = Unit
IsTruth (Value.bool b) = Unit
IsTruth v = ⊥

pub Ends-bind {ℓ κ} :
    {A : Type ℓ} {B : Type κ} (P : A → Type 0) (Q : B → Type 0) (m : Outcome A) (f : A → Outcome B)
    → Ends P m
    → ((a : A) → P a → Ends Q (f a))
    → Ends Q (m >>= f)
Ends-bind P Q (returns a) f h k = k a h
Ends-bind P Q (raises e) f h k = h
Ends-bind P Q panics f h k = absurd h

abbrev IsArithmetic : BinaryOp → Type 0
IsArithmetic add = Unit
IsArithmetic sub = Unit
IsArithmetic mul = Unit
IsArithmetic div = Unit
IsArithmetic op = ⊥

or_overflow-Ends : (o : Option ℤ) → Ends Any (or_overflow o)
or_overflow-Ends none = tt
or_overflow-Ends (some n) = tt

comparable-Ends : (o : Option Ordering) → Ends Any (comparable o)
comparable-Ends none = tt
comparable-Ends (some n) = tt

compare-Ends : (a b : Value) → Ends Any (compare a b)
unfolding compare compare_numbers as_number
compare-Ends (Value.int a) (Value.int b) = tt
compare-Ends (Value.int a) (Value.real b) = comparable-Ends (Real.partial_cmp (int_to_real a) b)
compare-Ends (Value.real a) (Value.int b) = comparable-Ends (Real.partial_cmp a (int_to_real b))
compare-Ends (Value.real a) (Value.real b) = comparable-Ends (Real.partial_cmp a b)
compare-Ends (Value.text a) (Value.text b) = tt
compare-Ends (Value.bool a) (Value.bool b) = tt
compare-Ends a b = tt

abbrev pub IsComparison : BinaryOp → Type 0
IsComparison eq = Unit
IsComparison not_eq = Unit
IsComparison lt = Unit
IsComparison lt_eq = Unit
IsComparison gt = Unit
IsComparison gt_eq = Unit
IsComparison op = ⊥

abbrev IsLogic : BinaryOp → Type 0
IsLogic and = Unit
IsLogic or = Unit
IsLogic op = ⊥

verdict-Ends : (op : BinaryOp) (o : Ordering) → IsComparison op → Ends Any (verdict op o)
unfolding verdict
verdict-Ends eq o h = tt
verdict-Ends not_eq o h = tt
verdict-Ends lt o h = tt
verdict-Ends lt_eq o h = tt
verdict-Ends gt o h = tt
verdict-Ends gt_eq o h = tt
verdict-Ends op o h = absurd h

ordered-IsTruth :
    (op : BinaryOp) (a b : Value)
    → IsComparison op
    → Ends IsTruth (compare a b >>= λ o. verdict op o >>= λ v. returns (Value.bool v))
ordered-IsTruth op a b h =
    Ends-bind Any IsTruth (compare a b) (λ o. verdict op o >>= λ v. returns (Value.bool v))
      (compare-Ends a b)
      λ o _.
        Ends-bind Any IsTruth (verdict op o) (λ v. returns (Value.bool v)) (verdict-Ends op o h)
          λ v _. tt

pub compare_op-IsTruth :
    (op : BinaryOp) (a b : Value) → IsComparison op → Ends IsTruth (compare_op op a b)
unfolding compare_op
compare_op-IsTruth op Value.null b h = tt
compare_op-IsTruth op (Value.int a) Value.null h = tt
compare_op-IsTruth op (Value.real a) Value.null h = tt
compare_op-IsTruth op (Value.text a) Value.null h = tt
compare_op-IsTruth op (Value.bool a) Value.null h = tt
compare_op-IsTruth op a b h = ordered-IsTruth op a b h

weaken-Ends : (m : Outcome Value) → Ends IsTruth m → Ends Any m
weaken-Ends (returns v) h = tt
weaken-Ends (raises e) h = h
weaken-Ends panics h = absurd h

as_bool-Ends : (v : Value) → Ends Any (as_bool v)
unfolding as_bool
as_bool-Ends Value.null = tt
as_bool-Ends (Value.bool b) = tt
as_bool-Ends v = tt

as_number-Ends : (v : Value) → Ends Any (as_number v)
unfolding as_number
as_number-Ends (Value.int n) = tt
as_number-Ends v = tt

int_arithmetic-Ends : (op : BinaryOp) (a b : ℤ) → IsArithmetic op → Ends Any (int_arithmetic op a b)
unfolding int_arithmetic
int_arithmetic-Ends add a b h = or_overflow-Ends (checked_add a b)
int_arithmetic-Ends sub a b h = or_overflow-Ends (checked_sub a b)
int_arithmetic-Ends mul a b h = or_overflow-Ends (checked_mul a b)
int_arithmetic-Ends div a b h = elim (Bool-cases (is_zero b)) [
  | inl zero_divisor ↦ rw zero_divisor tt
  | inr there ↦ rw there (or_overflow-Ends (checked_div a b))
]
int_arithmetic-Ends op a b h = absurd h

module _ (ops : RealOps) where
  real_arithmetic-Ends :
      (op : BinaryOp) (a b : ℕ) → IsArithmetic op → Ends Any (real_arithmetic ops op a b)
  unfolding real_arithmetic
  real_arithmetic-Ends add a b h = tt
  real_arithmetic-Ends sub a b h = tt
  real_arithmetic-Ends mul a b h = tt
  real_arithmetic-Ends div a b h = elim (Bool-cases (Real.is_zero b)) [
    | inl zero_divisor ↦ rw zero_divisor tt
    | inr there ↦ rw there tt
  ]
  real_arithmetic-Ends op a b h = absurd h

  numbers-Ends :
      (op : BinaryOp) (l r : Value)
      → IsArithmetic op
      → Ends Any (
          as_number l >>= λ a.
          as_number r >>= λ b. real_arithmetic ops op a b >>= λ x. returns (Value.real x))
  numbers-Ends op l r h =
      Ends-bind Any Any (as_number l)
        (λ a. as_number r >>= λ b. real_arithmetic ops op a b >>= λ x. returns (Value.real x))
        (as_number-Ends l)
        λ a _.
          Ends-bind Any Any (as_number r)
            (λ b. real_arithmetic ops op a b >>= λ x. returns (Value.real x)) (as_number-Ends r)
            λ b _.
              Ends-bind Any Any (real_arithmetic ops op a b) (λ x. returns (Value.real x))
                (real_arithmetic-Ends op a b h) λ x _. tt

  arithmetic-Ends :
      (op : BinaryOp) (l r : Value) → IsArithmetic op → Ends Any (arithmetic ops op l r)
  unfolding arithmetic
  arithmetic-Ends op Value.null r h = tt
  arithmetic-Ends op (Value.int a) Value.null h = tt
  arithmetic-Ends op (Value.real a) Value.null h = tt
  arithmetic-Ends op (Value.text a) Value.null h = tt
  arithmetic-Ends op (Value.bool a) Value.null h = tt
  arithmetic-Ends op (Value.int a) (Value.int b) h =
      Ends-bind Any Any (int_arithmetic op a b) (λ n. returns (Value.int n))
        (int_arithmetic-Ends op a b h) λ n _. tt
  arithmetic-Ends op l r h = numbers-Ends op l r h

  logic-Ends : (op : BinaryOp) (l r : Value) → IsLogic op → Ends Any (logic op l r)
  unfolding logic
  logic-Ends and l r h =
      Ends-bind Any Any (as_bool l) (λ a. as_bool r >>= λ b. returns (conjunction a b))
        (as_bool-Ends l)
        λ a _.
          Ends-bind Any Any (as_bool r) (λ b. returns (conjunction a b)) (as_bool-Ends r) λ b _. tt
  logic-Ends or l r h =
      Ends-bind Any Any (as_bool l) (λ a. as_bool r >>= λ b. returns (disjunction a b))
        (as_bool-Ends l)
        λ a _.
          Ends-bind Any Any (as_bool r) (λ b. returns (disjunction a b)) (as_bool-Ends r) λ b _. tt
  logic-Ends op l r h = absurd h

  pub eval_binary-Ends : (op : BinaryOp) (l r : Value) → Ends Any (eval_binary ops op l r)
  unfolding eval_binary
  eval_binary-Ends add l r = arithmetic-Ends add l r tt
  eval_binary-Ends sub l r = arithmetic-Ends sub l r tt
  eval_binary-Ends mul l r = arithmetic-Ends mul l r tt
  eval_binary-Ends div l r = arithmetic-Ends div l r tt
  eval_binary-Ends and l r = logic-Ends and l r tt
  eval_binary-Ends or l r = logic-Ends or l r tt
  eval_binary-Ends eq l r = weaken-Ends (compare_op eq l r) (compare_op-IsTruth eq l r tt)
  eval_binary-Ends not_eq l r =
      weaken-Ends (compare_op not_eq l r) (compare_op-IsTruth not_eq l r tt)
  eval_binary-Ends lt l r = weaken-Ends (compare_op lt l r) (compare_op-IsTruth lt l r tt)
  eval_binary-Ends lt_eq l r = weaken-Ends (compare_op lt_eq l r) (compare_op-IsTruth lt_eq l r tt)
  eval_binary-Ends gt l r = weaken-Ends (compare_op gt l r) (compare_op-IsTruth gt l r tt)
  eval_binary-Ends gt_eq l r = weaken-Ends (compare_op gt_eq l r) (compare_op-IsTruth gt_eq l r tt)

pub eval_unary-Ends : (op : UnaryOp) (v : Value) → Ends Any (eval_unary op v)
unfolding eval_unary
eval_unary-Ends neg (Value.int n) =
    Ends-bind Any Any (or_overflow (checked_neg n)) (λ m. returns (Value.int m))
      (or_overflow-Ends (checked_neg n)) λ m _. tt
eval_unary-Ends neg Value.null = tt
eval_unary-Ends neg (Value.real r) = tt
eval_unary-Ends neg v = tt
eval_unary-Ends not_op (Value.bool b) = tt
eval_unary-Ends not_op v = tt

pub negate_if-Ends : (negated : Bool) (v : Value) → IsTruth v → Ends Any (negate_if negated v)
unfolding negate_bool
negate_if-Ends false v h = tt
negate_if-Ends true Value.null h = tt
negate_if-Ends true (Value.bool b) h = tt
negate_if-Ends true v h = absurd h
