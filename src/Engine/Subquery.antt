-- ===== src/Engine/Subquery.antt =====
-- Subqueries in crates/prehnitedb/src/engine/executor.rs: those that do not depend on the outer row are
-- run once, the others for each outer row, with its values in place of the outer columns. What the
-- catalog and a run of a statement give is the parameter `Database`.
pub mod Safety
pub mod Ready
pub mod Stages
use prehnite_db.Prelude.{
  ℕ, zero, suc, Bool, true, false, not, ◌||◌, Option, none, some, List, [], ◌∷◌, length, ◌==◌,
  if◌then◌else◌, Error, exec, Result, ok, err,
}
use prehnite_db.Bytes.{Bytes}
use prehnite_db.Outcome.{Outcome, returns, raises, panics, ◌>>=◌, try, index}
use prehnite_db.Value.{Value}
use prehnite_db.Schema.{Schema}
use prehnite_db.Sql.Ast.{
  TableRef, qualifier, Expr, null, integer, real, str, bool, placeholder, column, aggregate, unary,
  binary, is_null, in_subquery, exists, scalar_subquery, in_list, correlated_exists,
  correlated_scalar_subquery, correlated_in_subquery, Exprs, no_exprs, next_expr, Condition, always,
  only_if, Joins, no_joins, next_join, SelectItems, no_items, next_column, next_aggregate,
  next_item, Projection, all, items, FromClause, from, Statement,
}
use prehnite_db.Engine.Scope.{Scope, single, extend, resolve}
use prehnite_db.Engine.Eval

pub data QueryResult : Type 0 where
  ack : Bytes → QueryResult
  rows : List Bytes → List (List Value) → QueryResult

-- `catalog.get`, and the planner and the executor on a statement.
pub record Database : Type 0 where
  pub get : Bytes → Result (Option Schema)
  pub run : Statement → Result QueryResult

unfoldable pub value_to_literal : Value → Expr
value_to_literal Value.null = null
value_to_literal (Value.int n) = integer n
value_to_literal (Value.real r) = real r
value_to_literal (Value.text s) = str s
value_to_literal (Value.bool b) = bool b

abbrev unresolved {ℓ} : {A : Type ℓ} → Result A → Bool
unresolved (ok a) = false
unresolved (err e) = true

-- `has_outer_ref`, whose last argument is what `found` holds before.
unfoldable pub has_outer_ref : Expr → Scope → Bool → Bool
has_outer_ref (column c) scope found = found || unresolved (resolve scope c)
has_outer_ref (unary op e) scope found = has_outer_ref e scope found
has_outer_ref (is_null e negated) scope found = has_outer_ref e scope found
has_outer_ref (binary op l r) scope found = has_outer_ref r scope (has_outer_ref l scope found)
has_outer_ref (in_list e vs has_null negated) scope found = has_outer_ref e scope found
has_outer_ref (in_subquery e s negated) scope found = has_outer_ref e scope found
has_outer_ref (correlated_in_subquery e s negated) scope found = has_outer_ref e scope found
has_outer_ref other scope found = found

unfoldable pub predicate_has_correlated : Expr → Bool
predicate_has_correlated (correlated_exists s) = true
predicate_has_correlated (correlated_scalar_subquery s) = true
predicate_has_correlated (correlated_in_subquery e s negated) = true
predicate_has_correlated (unary op e) = predicate_has_correlated e
predicate_has_correlated (is_null e negated) = predicate_has_correlated e
predicate_has_correlated (binary op l r) = predicate_has_correlated l || predicate_has_correlated r
predicate_has_correlated (in_list e vs has_null negated) = predicate_has_correlated e
predicate_has_correlated (in_subquery e s negated) = predicate_has_correlated e
predicate_has_correlated other = false

-- What a column that the inner scope does not have is replaced by.
unfoldable pub substitute_column : Expr → Result ℕ → Scope → List Value → Outcome Expr
substitute_column (column c) (err _) outer outer_values = do
  i ← try (resolve outer c)
  v ← index outer_values i
  returns (value_to_literal v)
substitute_column e found outer outer_values = returns e

module _ (inner outer : Scope) (outer_values : List Value) where
  unfoldable pub substitute_in_expr : Expr → Outcome Expr
  substitute_in_expr (column c) = substitute_column (column c) (resolve inner c) outer outer_values
  substitute_in_expr (unary op e) = do e' ← substitute_in_expr e; returns (unary op e')
  substitute_in_expr (is_null e negated) = do
    e' ← substitute_in_expr e
    returns (is_null e' negated)
  substitute_in_expr (binary op l r) = do
    l' ← substitute_in_expr l
    r' ← substitute_in_expr r
    returns (binary op l' r')
  substitute_in_expr (in_list e vs has_null negated) = do
    e' ← substitute_in_expr e
    returns (in_list e' vs has_null negated)
  substitute_in_expr (in_subquery e s negated) = do
    e' ← substitute_in_expr e
    returns (in_subquery e' s negated)
  substitute_in_expr (correlated_in_subquery e s negated) = do
    e' ← substitute_in_expr e
    returns (correlated_in_subquery e' s negated)
  substitute_in_expr other = returns other

  unfoldable pub substitute_in_condition : Condition → Outcome Condition
  substitute_in_condition always = returns always
  substitute_in_condition (only_if e) = do e' ← substitute_in_expr e; returns (only_if e')

  unfoldable pub substitute_in_items : SelectItems → Outcome SelectItems
  substitute_in_items no_items = returns no_items
  substitute_in_items (next_column c is) = do
    is' ← substitute_in_items is
    returns (next_column c is')
  substitute_in_items (next_aggregate a is) = do
    is' ← substitute_in_items is
    returns (next_aggregate a is')
  substitute_in_items (next_item e is) = do
    e' ← substitute_in_expr e
    is' ← substitute_in_items is
    returns (next_item e' is')

  unfoldable pub substitute_in_projection : Projection → Outcome Projection
  substitute_in_projection all = returns all
  substitute_in_projection (items is) = do is' ← substitute_in_items is; returns (items is')

  unfoldable pub substitute_in_statement : Statement → Outcome Statement
  substitute_in_statement (Statement.select fr pr filter groups having keys limit offset) = do
    filter' ← substitute_in_condition filter
    having' ← substitute_in_condition having
    pr' ← substitute_in_projection pr
    returns (Statement.select fr pr' filter' groups having' keys limit offset)
  substitute_in_statement s = returns s

-- `iter.next().expect(...)` on a row.
abbrev first_value : List Value → Outcome Value
first_value [] = panics
first_value (v ∷ vs) = returns v

-- The loop of `execute_in_subquery`: the literals, and whether a NULL was among the values.
unfoldable pub collect : List (List Value) → Outcome (Exprs × Bool)
collect [] = returns (no_exprs, false)
collect (row ∷ more) = do
  v ← first_value row
  rest ← collect more
  returns
      (if Eval.is_null v then (rest.0, true) else (next_expr (value_to_literal v) rest.0, rest.1))

module _ (db : Database) where
  abbrev table_of : Bytes → Outcome Schema
  table_of name = try (db.get name) >>= λ found. elim found [
    | some schema ↦ returns schema
    | none ↦ raises exec
  ]

  unfoldable pub join_scopes : Joins → Scope → Outcome Scope
  join_scopes no_joins scope = returns scope
  join_scopes (next_join kind table on js) scope = do
    schema ← table_of table.name
    join_scopes js (extend scope (qualifier table) schema)

  unfoldable pub from_scope : FromClause → Outcome Scope
  from_scope (from table js) = do
    schema ← table_of table.name
    join_scopes js (single (qualifier table) schema)

  unfoldable pub subquery_inner_scope : Statement → Outcome Scope
  subquery_inner_scope (Statement.select fr pr filter groups having keys limit offset) =
      from_scope fr
  subquery_inner_scope s = returns []

  unfoldable pub substitute_outer_refs : Statement → Scope → List Value → Outcome Statement
  substitute_outer_refs s outer outer_values = do
    inner ← subquery_inner_scope s
    substitute_in_statement inner outer outer_values s

  -- `run_subquery_for_rows` where one column is wanted.
  unfoldable pub run_subquery_for_rows : Statement → Outcome (List (List Value))
  run_subquery_for_rows s = do
    result ← try (db.run s)
    elim result [
      | ack _ ↦ raises exec
      | rows columns found ↦ if length columns == 1 then returns found else raises exec
    ]

  unfoldable pub execute_in_subquery : Statement → Outcome (Exprs × Bool)
  execute_in_subquery s = do found ← run_subquery_for_rows s; collect found

  unfoldable pub execute_exists_subquery : Statement → Outcome Bool
  execute_exists_subquery s = do
    result ← try (db.run s)
    elim result [ ack _ ↦ raises exec | rows columns found ↦ returns (not (length found == 0)) ]

  unfoldable pub execute_scalar_subquery : Statement → Outcome Value
  execute_scalar_subquery s = do
    found ← run_subquery_for_rows s
    elim found [
      | [] ↦ returns Value.null
      | row ∷ more ↦ elim more [ [] ↦ first_value row | _ ∷ _ ↦ raises exec ]
    ]

  -- The scope of a FROM clause, or `none` where a table does not exist.
  unfoldable pub joined_scope : Joins → Scope → Outcome (Option Scope)
  joined_scope no_joins scope = returns (some scope)
  joined_scope (next_join kind table on js) scope = do
    found ← try (db.get table.name)
    elim found [
      | some schema ↦ joined_scope js (extend scope (qualifier table) schema)
      | none ↦ returns none
    ]

  unfoldable pub visible_scope : FromClause → Outcome (Option Scope)
  visible_scope (from table js) = do
    found ← try (db.get table.name)
    elim found [
      | some schema ↦ joined_scope js (single (qualifier table) schema)
      | none ↦ returns none
    ]

  -- Only the WHERE clause is looked at. A table that does not exist is left to the planner.
  unfoldable pub subquery_is_correlated : Statement → Outcome Bool
  subquery_is_correlated (Statement.select fr pr (only_if filter) groups having keys limit offset) =
      do
        scope ← visible_scope fr
        returns (elim scope [ some inner ↦ has_outer_ref filter inner false | none ↦ false ])
  subquery_is_correlated s = returns false

  unfoldable pub prepare_subqueries : Expr → Outcome Expr
  prepare_subqueries (placeholder i) = panics
  prepare_subqueries (unary op e) = do e' ← prepare_subqueries e; returns (unary op e')
  prepare_subqueries (is_null e negated) = do
    e' ← prepare_subqueries e
    returns (is_null e' negated)
  prepare_subqueries (binary op l r) = do
    l' ← prepare_subqueries l
    r' ← prepare_subqueries r
    returns (binary op l' r')
  prepare_subqueries (in_list e vs has_null negated) = do
    e' ← prepare_subqueries e
    returns (in_list e' vs has_null negated)
  prepare_subqueries (in_subquery e s negated) = do
    e' ← prepare_subqueries e
    correlated ← subquery_is_correlated s
    if correlated
        then returns (correlated_in_subquery e' s negated)
        else (do found ← execute_in_subquery s; returns (in_list e' found.0 found.1 negated))
  prepare_subqueries (exists s) = do
    correlated ← subquery_is_correlated s
    if correlated
        then returns (correlated_exists s)
        else (do any ← execute_exists_subquery s; returns (bool any))
  prepare_subqueries (scalar_subquery s) = do
    correlated ← subquery_is_correlated s
    if correlated
        then returns (correlated_scalar_subquery s)
        else (do v ← execute_scalar_subquery s; returns (value_to_literal v))
  prepare_subqueries other = returns other

  unfoldable pub resolve_correlated : Scope → List Value → Expr → Outcome Expr
  resolve_correlated outer outer_values (correlated_exists s) = do
    substituted ← substitute_outer_refs s outer outer_values
    any ← execute_exists_subquery substituted
    returns (bool any)
  resolve_correlated outer outer_values (correlated_scalar_subquery s) = do
    substituted ← substitute_outer_refs s outer outer_values
    v ← execute_scalar_subquery substituted
    returns (value_to_literal v)
  resolve_correlated outer outer_values (correlated_in_subquery e s negated) = do
    substituted ← substitute_outer_refs s outer outer_values
    found ← execute_in_subquery substituted
    e' ← resolve_correlated outer outer_values e
    returns (in_list e' found.0 found.1 negated)
  resolve_correlated outer outer_values (unary op e) = do
    e' ← resolve_correlated outer outer_values e
    returns (unary op e')
  resolve_correlated outer outer_values (binary op l r) = do
    l' ← resolve_correlated outer outer_values l
    r' ← resolve_correlated outer outer_values r
    returns (binary op l' r')
  resolve_correlated outer outer_values (is_null e negated) = do
    e' ← resolve_correlated outer outer_values e
    returns (is_null e' negated)
  resolve_correlated outer outer_values (in_list e vs has_null negated) = do
    e' ← resolve_correlated outer outer_values e
    returns (in_list e' vs has_null negated)
  resolve_correlated outer outer_values other = returns other
