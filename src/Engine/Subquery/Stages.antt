-- ===== src/Engine/Subquery/Stages.antt =====
-- The stages of a predicate: bound, prepared before the rows, and resolved for one row.
use prehnite_db.Prelude.{
  ◌≡◌, Bool, true, false, some, List, [], ◌∷◌, length, if◌then◌else◌, Bool-cases, inl, inr,
}
use mathlib.Core.Path.{subst}
use prehnite_db.Real.{RealOps}
use prehnite_db.Outcome.{Outcome, returns, raises, panics, ◌>>=◌}
use prehnite_db.Value.{Value}
use prehnite_db.Sql.Ast.{
  Expr, bool, placeholder, unary, binary, is_null, in_subquery, exists, scalar_subquery, in_list,
  correlated_exists, correlated_scalar_subquery, correlated_in_subquery, Exprs, next_expr,
  Statement,
}
use prehnite_db.Engine.Scope.{Scope}
use prehnite_db.Engine.Eval.{RowContext, eval}
use prehnite_db.Engine.Eval
use prehnite_db.Engine.Subquery.{
  Database, value_to_literal, first_value, collect, execute_in_subquery, execute_exists_subquery,
  execute_scalar_subquery, run_subquery_for_rows, subquery_is_correlated, substitute_outer_refs,
  prepare_subqueries, resolve_correlated,
}
use prehnite_db.Engine.Subquery.Safety.{Ends, Any}
use prehnite_db.Engine.Subquery.Ready.{IsReady, AreReady, eval-Ends}

-- No placeholder and no subquery but a correlated one.
abbrev pub IsPrepared : Expr → Type 0
IsPrepared (placeholder i) = ⊥
IsPrepared (in_subquery e s negated) = ⊥
IsPrepared (exists s) = ⊥
IsPrepared (scalar_subquery s) = ⊥
IsPrepared (correlated_in_subquery e s negated) = IsPrepared e
IsPrepared (unary op e) = IsPrepared e
IsPrepared (binary op l r) = IsPrepared l × IsPrepared r
IsPrepared (is_null e negated) = IsPrepared e
IsPrepared (in_list e vs has_null negated) = IsPrepared e × AreReady vs
IsPrepared e = Unit

-- What the parser and the binding of parameters leave: the lists of values hold literals.
abbrev pub IsBound : Expr → Type 0
IsBound (placeholder i) = ⊥
IsBound (in_subquery e s negated) = IsBound e
IsBound (correlated_in_subquery e s negated) = IsPrepared e
IsBound (unary op e) = IsBound e
IsBound (binary op l r) = IsBound l × IsBound r
IsBound (is_null e negated) = IsBound e
IsBound (in_list e vs has_null negated) = IsBound e × AreReady vs
IsBound e = Unit

-- What holds of the value of a call, if there is one.
abbrev If {ℓ} : {A : Type ℓ} → (A → Type 0) → Outcome A → Type 0
If P (returns a) = P a
If P o = Unit

If-bind {ℓ κ} :
    {A : Type ℓ} {B : Type κ} (P : A → Type 0) (Q : B → Type 0) (m : Outcome A) (f : A → Outcome B)
    → If P m
    → ((a : A) → P a → If Q (f a))
    → If Q (m >>= f)
If-bind P Q (returns a) f h k = k a h
If-bind P Q (raises e) f h k = tt
If-bind P Q panics f h k = tt

Any-If {ℓ} : {A : Type ℓ} (m : Outcome A) → If Any m
Any-If (returns a) = tt
Any-If (raises e) = tt
Any-If panics = tt

value_to_literal-IsReady : (v : Value) → IsReady (value_to_literal v)
unfolding value_to_literal
value_to_literal-IsReady Value.null = tt
value_to_literal-IsReady (Value.int n) = tt
value_to_literal-IsReady (Value.real r) = tt
value_to_literal-IsReady (Value.text s) = tt
value_to_literal-IsReady (Value.bool b) = tt

value_to_literal-IsPrepared : (v : Value) → IsPrepared (value_to_literal v)
unfolding value_to_literal
value_to_literal-IsPrepared Value.null = tt
value_to_literal-IsPrepared (Value.int n) = tt
value_to_literal-IsPrepared (Value.real r) = tt
value_to_literal-IsPrepared (Value.text s) = tt
value_to_literal-IsPrepared (Value.bool b) = tt

abbrev Literals : Exprs × Bool → Type 0
Literals found = AreReady found.0

collect-Literals : (rows : List (List Value)) → If Literals (collect rows)
unfolding collect
collect-Literals [] = tt
collect-Literals (row ∷ more) =
    If-bind Any Literals (first_value row)
      (λ v. collect more >>= λ rest. returns (
        if Eval.is_null v then (rest.0, true) else (next_expr (value_to_literal v) rest.0, rest.1)))
      (Any-If (first_value row))
      λ v _.
        If-bind Literals Literals (collect more)
          (λ rest. returns (
            if Eval.is_null v
            then (rest.0, true)
            else (next_expr (value_to_literal v) rest.0, rest.1)))
          (collect-Literals more)
          λ rest h. elim (Bool-cases (Eval.is_null v)) [
            | inl absent ↦ rw absent h
            | inr there ↦ rw there (value_to_literal-IsReady v, h)
          ]

module _ (db : Database) where
  execute_in_subquery-Literals : (s : Statement) → If Literals (execute_in_subquery db s)
  unfolding execute_in_subquery
  execute_in_subquery-Literals s =
      If-bind Any Literals (run_subquery_for_rows db s) collect
        (Any-If (run_subquery_for_rows db s)) λ rows _. collect-Literals rows

  choose :
      (P : Expr → Type 0) (correlated : Bool) (e : Expr) (m : Outcome Expr)
      → P e
      → If P m
      → If P (if correlated then returns e else m)
  choose P true e m h k = h
  choose P false e m h k = k

  prepare_subqueries-IsPrepared : (e : Expr) → IsBound e → If IsPrepared (prepare_subqueries db e)
  unfolding prepare_subqueries
  prepare_subqueries-IsPrepared (placeholder i) h = tt
  prepare_subqueries-IsPrepared (unary op e) h =
      If-bind IsPrepared IsPrepared (prepare_subqueries db e) (λ e'. returns (unary op e'))
        (prepare_subqueries-IsPrepared e h) λ e' p. p
  prepare_subqueries-IsPrepared (is_null e negated) h =
      If-bind IsPrepared IsPrepared (prepare_subqueries db e) (λ e'. returns (is_null e' negated))
        (prepare_subqueries-IsPrepared e h) λ e' p. p
  prepare_subqueries-IsPrepared (binary op l r) (hl, hr) =
      If-bind IsPrepared IsPrepared (prepare_subqueries db l)
        (λ l'. prepare_subqueries db r >>= λ r'. returns (binary op l' r'))
        (prepare_subqueries-IsPrepared l hl)
        λ l' pl.
          If-bind IsPrepared IsPrepared (prepare_subqueries db r) (λ r'. returns (binary op l' r'))
            (prepare_subqueries-IsPrepared r hr) λ r' pr. (pl, pr)
  prepare_subqueries-IsPrepared (in_list e vs has_null negated) (h, hs) =
      If-bind IsPrepared IsPrepared (prepare_subqueries db e)
        (λ e'. returns (in_list e' vs has_null negated)) (prepare_subqueries-IsPrepared e h)
        λ e' p. (p, hs)
  prepare_subqueries-IsPrepared (in_subquery e s negated) h =
      If-bind IsPrepared IsPrepared (prepare_subqueries db e)
        (λ e'. subquery_is_correlated db s >>= λ c.
          if c
          then returns (correlated_in_subquery e' s negated)
          else (execute_in_subquery db s >>= λ found. returns (in_list e' found.0 found.1 negated)))
        (prepare_subqueries-IsPrepared e h)
        λ e' p.
          If-bind Any IsPrepared (subquery_is_correlated db s)
            (λ c.
              if c
              then returns (correlated_in_subquery e' s negated)
              else (execute_in_subquery db s >>= λ found.
                  returns (in_list e' found.0 found.1 negated)))
            (Any-If (subquery_is_correlated db s))
            λ c _.
              choose IsPrepared c (correlated_in_subquery e' s negated)
                (execute_in_subquery db s >>= λ found. returns (in_list e' found.0 found.1 negated))
                p
                (If-bind Literals IsPrepared (execute_in_subquery db s)
                  (λ found. returns (in_list e' found.0 found.1 negated))
                  (execute_in_subquery-Literals s) λ found l. (p, l))
  prepare_subqueries-IsPrepared (exists s) h =
      If-bind Any IsPrepared (subquery_is_correlated db s)
        (λ c.
          if c
          then returns (correlated_exists s)
          else (execute_exists_subquery db s >>= λ any. returns (bool any)))
        (Any-If (subquery_is_correlated db s))
        λ c _.
          choose IsPrepared c (correlated_exists s)
            (execute_exists_subquery db s >>= λ any. returns (bool any)) tt
            (If-bind Any IsPrepared (execute_exists_subquery db s) (λ any. returns (bool any))
              (Any-If (execute_exists_subquery db s)) λ any _. tt)
  prepare_subqueries-IsPrepared (scalar_subquery s) h =
      If-bind Any IsPrepared (subquery_is_correlated db s)
        (λ c.
          if c
          then returns (correlated_scalar_subquery s)
          else (execute_scalar_subquery db s >>= λ v. returns (value_to_literal v)))
        (Any-If (subquery_is_correlated db s))
        λ c _.
          choose IsPrepared c (correlated_scalar_subquery s)
            (execute_scalar_subquery db s >>= λ v. returns (value_to_literal v)) tt
            (If-bind Any IsPrepared (execute_scalar_subquery db s)
              (λ v. returns (value_to_literal v)) (Any-If (execute_scalar_subquery db s))
              λ v _. value_to_literal-IsPrepared v)
  prepare_subqueries-IsPrepared (correlated_in_subquery e s negated) h = h
  prepare_subqueries-IsPrepared e h = tt

  resolve_correlated-IsReady :
      (outer : Scope) (row : List Value) (e : Expr)
      → IsPrepared e
      → If IsReady (resolve_correlated db outer row e)
  unfolding resolve_correlated
  resolve_correlated-IsReady outer row (correlated_exists s) h =
      If-bind Any IsReady (substitute_outer_refs db s outer row)
        (λ t. execute_exists_subquery db t >>= λ any. returns (bool any))
        (Any-If (substitute_outer_refs db s outer row))
        λ t _.
          If-bind Any IsReady (execute_exists_subquery db t) (λ any. returns (bool any))
            (Any-If (execute_exists_subquery db t)) λ any _. tt
  resolve_correlated-IsReady outer row (correlated_scalar_subquery s) h =
      If-bind Any IsReady (substitute_outer_refs db s outer row)
        (λ t. execute_scalar_subquery db t >>= λ v. returns (value_to_literal v))
        (Any-If (substitute_outer_refs db s outer row))
        λ t _.
          If-bind Any IsReady (execute_scalar_subquery db t) (λ v. returns (value_to_literal v))
            (Any-If (execute_scalar_subquery db t)) λ v _. value_to_literal-IsReady v
  resolve_correlated-IsReady outer row (correlated_in_subquery e s negated) h =
      If-bind Any IsReady (substitute_outer_refs db s outer row)
        (λ t. execute_in_subquery db t >>= λ found.
          resolve_correlated db outer row e >>= λ e'. returns (in_list e' found.0 found.1 negated))
        (Any-If (substitute_outer_refs db s outer row))
        λ t _.
          If-bind Literals IsReady (execute_in_subquery db t)
            (λ found. resolve_correlated db outer row e >>= λ e'.
              returns (in_list e' found.0 found.1 negated))
            (execute_in_subquery-Literals t)
            λ found l.
              If-bind IsReady IsReady (resolve_correlated db outer row e)
                (λ e'. returns (in_list e' found.0 found.1 negated))
                (resolve_correlated-IsReady outer row e h) λ e' p. (p, l)
  resolve_correlated-IsReady outer row (unary op e) h =
      If-bind IsReady IsReady (resolve_correlated db outer row e) (λ e'. returns (unary op e'))
        (resolve_correlated-IsReady outer row e h) λ e' p. p
  resolve_correlated-IsReady outer row (is_null e negated) h =
      If-bind IsReady IsReady (resolve_correlated db outer row e)
        (λ e'. returns (is_null e' negated)) (resolve_correlated-IsReady outer row e h) λ e' p. p
  resolve_correlated-IsReady outer row (binary op l r) (hl, hr) =
      If-bind IsReady IsReady (resolve_correlated db outer row l)
        (λ l'. resolve_correlated db outer row r >>= λ r'. returns (binary op l' r'))
        (resolve_correlated-IsReady outer row l hl)
        λ l' pl.
          If-bind IsReady IsReady (resolve_correlated db outer row r)
            (λ r'. returns (binary op l' r')) (resolve_correlated-IsReady outer row r hr)
            λ r' pr. (pl, pr)
  resolve_correlated-IsReady outer row (in_list e vs has_null negated) (h, hs) =
      If-bind IsReady IsReady (resolve_correlated db outer row e)
        (λ e'. returns (in_list e' vs has_null negated)) (resolve_correlated-IsReady outer row e h)
        λ e' p. (p, hs)
  resolve_correlated-IsReady outer row (placeholder i) h = absurd h
  resolve_correlated-IsReady outer row (in_subquery e s negated) h = absurd h
  resolve_correlated-IsReady outer row (exists s) h = absurd h
  resolve_correlated-IsReady outer row (scalar_subquery s) h = absurd h
  resolve_correlated-IsReady outer row e h = tt

  -- A predicate that is bound, then prepared, then resolved for a row, evaluates on a row as wide as
  -- its scope to a value or to an error that is not corruption: it does not meet a placeholder or a
  -- subquery, does not index out of range and does not panic.
  pub resolve_correlated-Ends :
      (ops : RealOps) (e : Expr) (scope : Scope) (row : List Value) {prepared resolved : Expr}
      → IsBound e
      → length row ≡ length scope
      → prepare_subqueries db e ≡ returns prepared
      → resolve_correlated db scope row prepared ≡ returns resolved
      → Ends Any (eval ops resolved (some (record { scope = scope; values = row })))
  resolve_correlated-Ends ops e scope row {prepared} {resolved} h width ep er =
      let p : IsPrepared prepared = subst (If IsPrepared) ep (prepare_subqueries-IsPrepared e h) in
      let r : IsReady resolved =
        subst (If IsReady) er (resolve_correlated-IsReady scope row prepared p) in
      eval-Ends ops resolved (some (record { scope = scope; values = row })) r width
