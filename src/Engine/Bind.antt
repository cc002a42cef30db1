-- ===== src/Engine/Bind.antt =====
-- crates/prehnitedb/src/engine/bind.rs: the values of the caller in place of the placeholders. The
-- source rewrites the plan in place; here each function returns the tree that it leaves.
pub mod Complete
use prehnite_db.Prelude.{
  ℕ, Bool, List, Option, none, some, get_elem?, Error, exec, Result, ok, err, ◌>>=◌,
}
use prehnite_db.Value.{Value}
use prehnite_db.Sql.Ast.{
  Expr, null, integer, real, str, bool, placeholder, column, aggregate, unary, binary, is_null,
  in_subquery, exists, scalar_subquery, in_list, correlated_exists, correlated_scalar_subquery,
  correlated_in_subquery, Exprs, no_exprs, next_expr, ValueRows, no_rows, next_row, Condition,
  always, only_if, Joins, no_joins, next_join, SelectItems, no_items, next_column, next_aggregate,
  next_item, Projection, all, items, Assignments, no_assignments, next_assignment, FromClause, from,
  Statement,
}
use prehnite_db.Engine.Plan.{Plan}

unfoldable pub value_to_expr : Value → Expr
value_to_expr Value.null = null
value_to_expr (Value.int n) = integer n
value_to_expr (Value.real r) = real r
value_to_expr (Value.text s) = str s
value_to_expr (Value.bool b) = bool b

unfoldable pub bind_placeholder : ℕ → List Value → Result Expr
bind_placeholder i params = elim (get_elem? params i) [
  | some v ↦ ok (value_to_expr v)
  | none ↦ err exec
]

unfoldable mutual
  pub bind_expr : Expr → List Value → Result Expr
  bind_expr (placeholder i) ps = bind_placeholder i ps
  bind_expr (unary op e) ps = do e' ← bind_expr e ps; ok (unary op e')
  bind_expr (binary op l r) ps = do l' ← bind_expr l ps; r' ← bind_expr r ps; ok (binary op l' r')
  bind_expr (is_null e negated) ps = do e' ← bind_expr e ps; ok (is_null e' negated)
  bind_expr (in_subquery e s negated) ps = do
    e' ← bind_expr e ps
    s' ← bind_statement s ps
    ok (in_subquery e' s' negated)
  bind_expr (correlated_in_subquery e s negated) ps = do
    e' ← bind_expr e ps
    s' ← bind_statement s ps
    ok (correlated_in_subquery e' s' negated)
  bind_expr (exists s) ps = do s' ← bind_statement s ps; ok (exists s')
  bind_expr (correlated_exists s) ps = do s' ← bind_statement s ps; ok (correlated_exists s')
  bind_expr (scalar_subquery s) ps = do s' ← bind_statement s ps; ok (scalar_subquery s')
  bind_expr (correlated_scalar_subquery s) ps = do
    s' ← bind_statement s ps
    ok (correlated_scalar_subquery s')
  bind_expr (in_list e vs has_null negated) ps = do
    e' ← bind_expr e ps
    vs' ← bind_exprs vs ps
    ok (in_list e' vs' has_null negated)
  bind_expr null ps = ok null
  bind_expr (integer n) ps = ok (integer n)
  bind_expr (real r) ps = ok (real r)
  bind_expr (str s) ps = ok (str s)
  bind_expr (bool b) ps = ok (bool b)
  bind_expr (column c) ps = ok (column c)
  bind_expr (aggregate a) ps = ok (aggregate a)

  pub bind_exprs : Exprs → List Value → Result Exprs
  bind_exprs no_exprs ps = ok no_exprs
  bind_exprs (next_expr e es) ps = do
    e' ← bind_expr e ps
    es' ← bind_exprs es ps
    ok (next_expr e' es')

  pub bind_condition : Condition → List Value → Result Condition
  bind_condition always ps = ok always
  bind_condition (only_if e) ps = do e' ← bind_expr e ps; ok (only_if e')

  pub bind_joins : Joins → List Value → Result Joins
  bind_joins no_joins ps = ok no_joins
  bind_joins (next_join kind table on js) ps = do
    on' ← bind_condition on ps
    js' ← bind_joins js ps
    ok (next_join kind table on' js')

  pub bind_items : SelectItems → List Value → Result SelectItems
  bind_items no_items ps = ok no_items
  bind_items (next_column c is) ps = do is' ← bind_items is ps; ok (next_column c is')
  bind_items (next_aggregate a is) ps = do is' ← bind_items is ps; ok (next_aggregate a is')
  bind_items (next_item e is) ps = do
    e' ← bind_expr e ps
    is' ← bind_items is ps
    ok (next_item e' is')

  pub bind_projection : Projection → List Value → Result Projection
  bind_projection all ps = ok all
  bind_projection (items is) ps = do is' ← bind_items is ps; ok (items is')

  pub bind_from : FromClause → List Value → Result FromClause
  bind_from (from table js) ps = do js' ← bind_joins js ps; ok (from table js')

  -- A statement that is no SELECT is left as it is.
  pub bind_statement : Statement → List Value → Result Statement
  bind_statement (Statement.select fr pr filter groups having keys limit offset) ps = do
    fr' ← bind_from fr ps
    pr' ← bind_projection pr ps
    filter' ← bind_condition filter ps
    having' ← bind_condition having ps
    ok (Statement.select fr' pr' filter' groups having' keys limit offset)
  bind_statement s ps = ok s

unfoldable pub bind_rows : ValueRows → List Value → Result ValueRows
bind_rows no_rows ps = ok no_rows
bind_rows (next_row r rs) ps = do r' ← bind_exprs r ps; rs' ← bind_rows rs ps; ok (next_row r' rs')

unfoldable pub bind_assignments : Assignments → List Value → Result Assignments
bind_assignments no_assignments ps = ok no_assignments
bind_assignments (next_assignment name e as') ps = do
  e' ← bind_expr e ps
  rest ← bind_assignments as' ps
  ok (next_assignment name e' rest)

unfoldable pub bind_plan : Plan → List Value → Result Plan
bind_plan (Plan.insert table columns rows) ps = do
  rows' ← bind_rows rows ps
  ok (Plan.insert table columns rows')
bind_plan (Plan.select fr pr filter access groups having keys presorted limit offset) ps = do
  fr' ← bind_from fr ps
  pr' ← bind_projection pr ps
  filter' ← bind_condition filter ps
  having' ← bind_condition having ps
  ok (Plan.select fr' pr' filter' access groups having' keys presorted limit offset)
bind_plan (Plan.update table assignments filter access) ps = do
  assignments' ← bind_assignments assignments ps
  filter' ← bind_condition filter ps
  ok (Plan.update table assignments' filter' access)
bind_plan (Plan.delete table filter access) ps = do
  filter' ← bind_condition filter ps
  ok (Plan.delete table filter' access)
bind_plan (Plan.explain inner analyze) ps = do
  inner' ← bind_plan inner ps
  ok (Plan.explain inner' analyze)
bind_plan p ps = ok p
