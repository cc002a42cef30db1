-- ===== src/Engine/Subquery/Ready.antt =====
-- An expression whose subqueries have been resolved evaluates without corruption and without panic.
use prehnite_db.Prelude.{
  ℕ, suc, ◌+◌, ◌<◌, ◌≡◌, Bool, true, false, Option, none, some, [], ◌∷◌, length, if◌then◌else◌,
  arith, Bool-cases, inl, inr,
}
use mathlib.Core.Path.{subst}
use prehnite_db.Real.{RealOps}
use prehnite_db.Outcome.{Outcome, returns, ◌>>=◌, try, index, index-lt}
use prehnite_db.Value.{Value}
use prehnite_db.Sql.Ast.{
  ColumnRef, eq, Expr, null, integer, real, str, bool, placeholder, column, aggregate, unary,
  binary, is_null, in_subquery, exists, scalar_subquery, in_list, correlated_exists,
  correlated_scalar_subquery, correlated_in_subquery, Exprs, no_exprs, next_expr,
}
use prehnite_db.Engine.Scope.{Scope, resolve, resolve_from, matches}
use prehnite_db.Engine.Eval.{
  RowContext, eval, search_list, context_values, eval_unary, eval_binary, compare_op, negate_if,
  is_true, differs,
}
use prehnite_db.Engine.Eval
use prehnite_db.Engine.Subquery.Safety.{
  Ends, Any, IsTruth, Ends-bind, eval_binary-Ends, eval_unary-Ends, negate_if-Ends,
  compare_op-IsTruth,
}

-- No node that `eval` refuses: no placeholder and no subquery.
abbrev mutual
  pub IsReady : Expr → Type 0
  IsReady (placeholder i) = ⊥
  IsReady (in_subquery e s negated) = ⊥
  IsReady (exists s) = ⊥
  IsReady (scalar_subquery s) = ⊥
  IsReady (correlated_exists s) = ⊥
  IsReady (correlated_scalar_subquery s) = ⊥
  IsReady (correlated_in_subquery e s negated) = ⊥
  IsReady (unary op e) = IsReady e
  IsReady (binary op l r) = IsReady l × IsReady r
  IsReady (is_null e negated) = IsReady e
  IsReady (in_list e vs has_null negated) = IsReady e × AreReady vs
  IsReady e = Unit

  pub AreReady : Exprs → Type 0
  AreReady no_exprs = Unit
  AreReady (next_expr e es) = IsReady e × AreReady es

abbrev FoundBelow : ℕ → Option ℕ → Type 0
FoundBelow i none = Unit
FoundBelow i (some k) = k < i

-- A column is resolved to a position within the scope, or refused.
resolve_from-Ends :
    (c : ColumnRef) (cs : Scope) (i : ℕ) (found : Option ℕ)
    → FoundBelow i found
    → Ends (λ n. n < i + length cs) (try (resolve_from c i found cs))
unfolding resolve_from
resolve_from-Ends c [] i none h = tt
resolve_from-Ends c [] i (some k) h = omega arith
resolve_from-Ends c (x ∷ cs) i found h =
    let total : suc i + length cs ≡ i + length (x ∷ cs) = omega arith in
    subst (λ n. Ends (λ k. k < n) (try (resolve_from c i found (x ∷ cs)))) total
      (round found h (λ f below. resolve_from-Ends c cs (suc i) f below))
  where
    round :
        (found : Option ℕ)
        → FoundBelow i found
        → ((f : Option ℕ)
            → FoundBelow (suc i) f
            → Ends (λ n. n < suc i + length cs) (try (resolve_from c (suc i) f cs)))
        → Ends (λ n. n < suc i + length cs) (try (resolve_from c i found (x ∷ cs)))
    round none h ih = elim (Bool-cases (matches c x)) [
      | inl here ↦ rw (resolve_from, here) (ih (some i) (omega arith))
      | inr other ↦ rw (resolve_from, other) (ih none tt)
    ]
    round (some k) h ih = elim (Bool-cases (matches c x)) [
      | inl twice ↦ rw (resolve_from, twice) tt
      | inr other ↦ rw (resolve_from, other) (ih (some k) (omega arith))
    ]

-- A row as wide as its scope.
abbrev pub IsContext : Option RowContext → Type 0
IsContext none = Unit
IsContext (some ctx) = length ctx.values ≡ length ctx.scope

column-Ends :
    (c : ColumnRef) (context : Option RowContext)
    → IsContext context
    → Ends Any
        (context_values context >>= λ ctx. try (resolve ctx.scope c) >>= λ i. index ctx.values i)
unfolding context_values resolve
column-Ends c none h = tt
column-Ends c (some ctx) h =
    Ends-bind (λ i. i < 0 + length ctx.scope) Any (try (resolve ctx.scope c))
      (λ i. index ctx.values i) (resolve_from-Ends c ctx.scope 0 none tt)
      λ i below. let (v, ev) = index-lt ctx.values i (omega arith) in rw ev tt

module _ (ops : RealOps) where
  unless_null :
      (probe : Value) (m : Outcome Value)
      → Ends IsTruth m
      → Ends IsTruth (if Eval.is_null probe then returns Value.null else m)
  unless_null probe m h = elim (Bool-cases (Eval.is_null probe)) [
    | inl absent ↦ rw absent tt
    | inr there ↦ rw there h
  ]

  mutual
    unfolding eval

    -- A ready expression on a row as wide as its scope, or without a row, evaluates to a value or
    -- to an error that is not corruption; it does not panic.
    pub eval-Ends :
        (e : Expr) (context : Option RowContext)
        → IsReady e
        → IsContext context
        → Ends Any (eval ops e context)
    eval-Ends null context h c = tt
    eval-Ends (integer n) context h c = tt
    eval-Ends (real r) context h c = tt
    eval-Ends (str s) context h c = tt
    eval-Ends (bool b) context h c = tt
    eval-Ends (column r) context h c = column-Ends r context c
    eval-Ends (aggregate a) context h c = tt
    eval-Ends (unary op e) context h c =
        Ends-bind Any Any (eval ops e context) (eval_unary op) (eval-Ends e context h c)
          λ v _. eval_unary-Ends op v
    eval-Ends (binary op l r) context (hl, hr) c =
        Ends-bind Any Any (eval ops l context)
          (λ x. eval ops r context >>= λ y. eval_binary ops op x y) (eval-Ends l context hl c)
          λ x _.
            Ends-bind Any Any (eval ops r context) (eval_binary ops op x) (eval-Ends r context hr c)
              λ y _. eval_binary-Ends ops op x y
    eval-Ends (is_null e negated) context h c =
        Ends-bind Any Any (eval ops e context)
          (λ v. returns (Value.bool (differs (Eval.is_null v) negated))) (eval-Ends e context h c)
          λ v _. tt
    eval-Ends (in_list e vs has_null negated) context (he, hs) c =
        Ends-bind Any Any (eval ops e context)
          (λ probe.
            (if Eval.is_null probe then returns Value.null else search_list ops probe vs has_null)
            >>= λ r. negate_if negated r)
          (eval-Ends e context he c)
          λ probe _.
            Ends-bind IsTruth Any
              (if Eval.is_null probe then returns Value.null else search_list ops probe vs has_null)
              (negate_if negated)
              (unless_null probe (search_list ops probe vs has_null)
                (search_list-Ends probe vs has_null hs))
              λ r t. negate_if-Ends negated r t
    eval-Ends (placeholder i) context h c = absurd h
    eval-Ends (in_subquery e s negated) context h c = absurd h
    eval-Ends (exists s) context h c = absurd h
    eval-Ends (scalar_subquery s) context h c = absurd h
    eval-Ends (correlated_exists s) context h c = absurd h
    eval-Ends (correlated_scalar_subquery s) context h c = absurd h
    eval-Ends (correlated_in_subquery e s negated) context h c = absurd h

    search_list-Ends :
        (probe : Value) (vs : Exprs) (has_null : Bool)
        → AreReady vs
        → Ends IsTruth (search_list ops probe vs has_null)
    search_list-Ends probe no_exprs true h = tt
    search_list-Ends probe no_exprs false h = tt
    search_list-Ends probe (next_expr e es) has_null (he, hs) =
        Ends-bind Any IsTruth (eval ops e none)
          (λ v. compare_op eq probe v >>= λ found.
            if is_true found then returns (Value.bool true) else search_list ops probe es has_null)
          (eval-Ends e none he tt)
          λ v _.
            Ends-bind IsTruth IsTruth (compare_op eq probe v)
              (λ found.
                if is_true found
                then returns (Value.bool true)
                else search_list ops probe es has_null)
              (compare_op-IsTruth eq probe v tt)
              λ found _.
                stop found (search_list ops probe es has_null)
                  (search_list-Ends probe es has_null hs)
      where
        stop :
            (found : Value) (m : Outcome Value)
            → Ends IsTruth m
            → Ends IsTruth (if is_true found then returns (Value.bool true) else m)
        stop found m h = elim (Bool-cases (is_true found)) [
          | inl hit ↦ rw hit tt
          | inr miss ↦ rw miss h
        ]
