-- ===== src/Engine/Bind/Complete.antt =====
-- What is left of the placeholders of a plan when its parameters are bound.
use prehnite_db.Prelude.{
  ℕ, ◌<◌, ◌≡◌, refl, zero, suc, List, [], ◌∷◌, some, get_elem?, length, Result, ok, arith,
}
use prehnite_db.Value.{Value}
use prehnite_db.Sql.Ast.{
  Expr, null, integer, real, str, bool, placeholder, column, aggregate, unary, binary, is_null,
  in_subquery, exists, scalar_subquery, in_list, correlated_exists, correlated_scalar_subquery,
  correlated_in_subquery, Exprs, no_exprs, next_expr, ValueRows, no_rows, next_row, Condition,
  always, only_if, Joins, no_joins, next_join, SelectItems, no_items, next_column, next_aggregate,
  next_item, Projection, all, items, Assignments, no_assignments, next_assignment, FromClause, from,
  Statement,
}
use prehnite_db.Engine.Plan.{Plan}
use prehnite_db.Engine.Bind.{
  value_to_expr, bind_placeholder, bind_expr, bind_exprs, bind_condition, bind_joins, bind_items,
  bind_projection, bind_from, bind_statement, bind_rows, bind_assignments, bind_plan,
}

-- `P` holds of the number of every placeholder that the walk reaches.
abbrev mutual
  pub Each : (ℕ → Type 0) → Expr → Type 0
  Each P (placeholder i) = P i
  Each P (unary op e) = Each P e
  Each P (binary op l r) = Each P l × Each P r
  Each P (is_null e negated) = Each P e
  Each P (in_subquery e s negated) = Each P e × EachStatement P s
  Each P (correlated_in_subquery e s negated) = Each P e × EachStatement P s
  Each P (exists s) = EachStatement P s
  Each P (correlated_exists s) = EachStatement P s
  Each P (scalar_subquery s) = EachStatement P s
  Each P (correlated_scalar_subquery s) = EachStatement P s
  Each P (in_list e vs has_null negated) = Each P e × EachExprs P vs
  Each P e = Unit

  pub EachExprs : (ℕ → Type 0) → Exprs → Type 0
  EachExprs P no_exprs = Unit
  EachExprs P (next_expr e es) = Each P e × EachExprs P es

  pub EachCondition : (ℕ → Type 0) → Condition → Type 0
  EachCondition P always = Unit
  EachCondition P (only_if e) = Each P e

  pub EachJoins : (ℕ → Type 0) → Joins → Type 0
  EachJoins P no_joins = Unit
  EachJoins P (next_join kind table on js) = EachCondition P on × EachJoins P js

  pub EachItems : (ℕ → Type 0) → SelectItems → Type 0
  EachItems P no_items = Unit
  EachItems P (next_column c is) = EachItems P is
  EachItems P (next_aggregate a is) = EachItems P is
  EachItems P (next_item e is) = Each P e × EachItems P is

  pub EachProjection : (ℕ → Type 0) → Projection → Type 0
  EachProjection P all = Unit
  EachProjection P (items is) = EachItems P is

  pub EachFrom : (ℕ → Type 0) → FromClause → Type 0
  EachFrom P (from table js) = EachJoins P js

  pub EachStatement : (ℕ → Type 0) → Statement → Type 0
  EachStatement P (Statement.select fr pr filter groups having keys limit offset) =
      EachFrom P fr × EachProjection P pr × EachCondition P filter × EachCondition P having
  EachStatement P s = Unit

abbrev pub EachRows : (ℕ → Type 0) → ValueRows → Type 0
EachRows P no_rows = Unit
EachRows P (next_row r rs) = EachExprs P r × EachRows P rs

abbrev pub EachAssignments : (ℕ → Type 0) → Assignments → Type 0
EachAssignments P no_assignments = Unit
EachAssignments P (next_assignment name e rest) = Each P e × EachAssignments P rest

abbrev pub EachPlan : (ℕ → Type 0) → Plan → Type 0
EachPlan P (Plan.insert table columns rows) = EachRows P rows
EachPlan P (Plan.select fr pr filter access groups having keys presorted limit offset) =
    EachFrom P fr × EachProjection P pr × EachCondition P filter × EachCondition P having
EachPlan P (Plan.update table assignments filter access) =
    EachAssignments P assignments × EachCondition P filter
EachPlan P (Plan.delete table filter access) = EachCondition P filter
EachPlan P (Plan.explain inner analyze) = EachPlan P inner
EachPlan P p = Unit

abbrev pub None : ℕ → Type 0
None i = ⊥

abbrev pub Given : List Value → ℕ → Type 0
Given ps i = i < length ps

abbrev BindsTo {ℓ κ} : {A : Type ℓ} → (A → Type κ) → Result A → Type (ℓ ⊔ κ)
BindsTo {A} Q r = (a : A) × (r ≡ ok a) × Q a

value_to_expr-None : (v : Value) → Each None (value_to_expr v)
unfolding value_to_expr
value_to_expr-None Value.null = tt
value_to_expr-None (Value.int n) = tt
value_to_expr-None (Value.real r) = tt
value_to_expr-None (Value.text s) = tt
value_to_expr-None (Value.bool b) = tt

get_elem?-lt {ℓ} :
    {A : Type ℓ} (xs : List A) (i : ℕ) → i < length xs → (a : A) × (get_elem? xs i ≡ some a)
get_elem?-lt [] i h = absurd (omega arith)
get_elem?-lt (x ∷ xs) zero h = (x, refl)
get_elem?-lt (x ∷ xs) (suc i) h = get_elem?-lt xs i (omega arith)

bind_placeholder-None :
    (i : ℕ) (ps : List Value) → Given ps i → BindsTo (Each None) (bind_placeholder i ps)
unfolding bind_placeholder
bind_placeholder-None i ps h =
    let (v, e) = get_elem?-lt ps i h in
    (value_to_expr v, rw (e, bind_placeholder), value_to_expr-None v)

mutual
  unfolding bind_expr

  bind_expr-None :
      (e : Expr) (ps : List Value) → Each (Given ps) e → BindsTo (Each None) (bind_expr e ps)
  bind_expr-None (placeholder i) ps h = bind_placeholder-None i ps h
  bind_expr-None (unary op e) ps h =
      let (e', b, n) = bind_expr-None e ps h in (unary op e', rw b, n)
  bind_expr-None (binary op l r) ps (hl, hr) =
      let (l', bl, nl) = bind_expr-None l ps hl in
      let (r', br, nr) = bind_expr-None r ps hr in (binary op l' r', rw (bl, br), (nl, nr))
  bind_expr-None (is_null e negated) ps h =
      let (e', b, n) = bind_expr-None e ps h in (is_null e' negated, rw b, n)
  bind_expr-None (in_subquery e s negated) ps (he, hs) =
      let (e', be, ne) = bind_expr-None e ps he in
      let (s', bs, ns) = bind_statement-None s ps hs in
      (in_subquery e' s' negated, rw (be, bs), (ne, ns))
  bind_expr-None (correlated_in_subquery e s negated) ps (he, hs) =
      let (e', be, ne) = bind_expr-None e ps he in
      let (s', bs, ns) = bind_statement-None s ps hs in
      (correlated_in_subquery e' s' negated, rw (be, bs), (ne, ns))
  bind_expr-None (exists s) ps h =
      let (s', b, n) = bind_statement-None s ps h in (exists s', rw b, n)
  bind_expr-None (correlated_exists s) ps h =
      let (s', b, n) = bind_statement-None s ps h in (correlated_exists s', rw b, n)
  bind_expr-None (scalar_subquery s) ps h =
      let (s', b, n) = bind_statement-None s ps h in (scalar_subquery s', rw b, n)
  bind_expr-None (correlated_scalar_subquery s) ps h =
      let (s', b, n) = bind_statement-None s ps h in (correlated_scalar_subquery s', rw b, n)
  bind_expr-None (in_list e vs has_null negated) ps (he, hs) =
      let (e', be, ne) = bind_expr-None e ps he in
      let (vs', bs, ns) = bind_exprs-None vs ps hs in
      (in_list e' vs' has_null negated, rw (be, bs), (ne, ns))
  bind_expr-None null ps h = (null, refl, tt)
  bind_expr-None (integer n) ps h = (integer n, refl, tt)
  bind_expr-None (real r) ps h = (real r, refl, tt)
  bind_expr-None (str s) ps h = (str s, refl, tt)
  bind_expr-None (bool b) ps h = (bool b, refl, tt)
  bind_expr-None (column c) ps h = (column c, refl, tt)
  bind_expr-None (aggregate a) ps h = (aggregate a, refl, tt)

  bind_exprs-None :
      (es : Exprs) (ps : List Value)
      → EachExprs (Given ps) es
      → BindsTo (EachExprs None) (bind_exprs es ps)
  bind_exprs-None no_exprs ps h = (no_exprs, refl, tt)
  bind_exprs-None (next_expr e es) ps (he, hs) =
      let (e', be, ne) = bind_expr-None e ps he in
      let (es', bs, ns) = bind_exprs-None es ps hs in (next_expr e' es', rw (be, bs), (ne, ns))

  bind_condition-None :
      (c : Condition) (ps : List Value)
      → EachCondition (Given ps) c
      → BindsTo (EachCondition None) (bind_condition c ps)
  bind_condition-None always ps h = (always, refl, tt)
  bind_condition-None (only_if e) ps h =
      let (e', b, n) = bind_expr-None e ps h in (only_if e', rw b, n)

  bind_joins-None :
      (js : Joins) (ps : List Value)
      → EachJoins (Given ps) js
      → BindsTo (EachJoins None) (bind_joins js ps)
  bind_joins-None no_joins ps h = (no_joins, refl, tt)
  bind_joins-None (next_join kind table on js) ps (ho, hs) =
      let (on', bo, no_on) = bind_condition-None on ps ho in
      let (js', bs, ns) = bind_joins-None js ps hs in
      (next_join kind table on' js', rw (bo, bs), (no_on, ns))

  bind_items-None :
      (is : SelectItems) (ps : List Value)
      → EachItems (Given ps) is
      → BindsTo (EachItems None) (bind_items is ps)
  bind_items-None no_items ps h = (no_items, refl, tt)
  bind_items-None (next_column c is) ps h =
      let (is', b, n) = bind_items-None is ps h in (next_column c is', rw b, n)
  bind_items-None (next_aggregate a is) ps h =
      let (is', b, n) = bind_items-None is ps h in (next_aggregate a is', rw b, n)
  bind_items-None (next_item e is) ps (he, hs) =
      let (e', be, ne) = bind_expr-None e ps he in
      let (is', bs, ns) = bind_items-None is ps hs in (next_item e' is', rw (be, bs), (ne, ns))

  bind_projection-None :
      (p : Projection) (ps : List Value)
      → EachProjection (Given ps) p
      → BindsTo (EachProjection None) (bind_projection p ps)
  bind_projection-None all ps h = (all, refl, tt)
  bind_projection-None (items is) ps h =
      let (is', b, n) = bind_items-None is ps h in (items is', rw b, n)

  bind_from-None :
      (f : FromClause) (ps : List Value)
      → EachFrom (Given ps) f
      → BindsTo (EachFrom None) (bind_from f ps)
  bind_from-None (from table js) ps h =
      let (js', b, n) = bind_joins-None js ps h in (from table js', rw b, n)

  bind_statement-None :
      (s : Statement) (ps : List Value)
      → EachStatement (Given ps) s
      → BindsTo (EachStatement None) (bind_statement s ps)
  bind_statement-None (Statement.select fr pr filter groups having keys limit offset) ps
        (hf, hp, hc, hh) =
      let (fr', bf, nf) = bind_from-None fr ps hf in
      let (pr', bp, np) = bind_projection-None pr ps hp in
      let (filter', bc, nc) = bind_condition-None filter ps hc in
      let (having', bh, nh) = bind_condition-None having ps hh in
      (
        Statement.select fr' pr' filter' groups having' keys limit offset,
        rw (bf, bp, bc, bh),
        (nf, np, nc, nh),
      )
  bind_statement-None (Statement.create_table a b) ps h = (Statement.create_table a b, refl, tt)
  bind_statement-None (Statement.drop_table a) ps h = (Statement.drop_table a, refl, tt)
  bind_statement-None (Statement.create_index a b c) ps h = (Statement.create_index a b c, refl, tt)
  bind_statement-None (Statement.drop_index a) ps h = (Statement.drop_index a, refl, tt)
  bind_statement-None (Statement.insert a b c) ps h = (Statement.insert a b c, refl, tt)
  bind_statement-None (Statement.update a b c) ps h = (Statement.update a b c, refl, tt)
  bind_statement-None (Statement.delete a b) ps h = (Statement.delete a b, refl, tt)
  bind_statement-None Statement.vacuum ps h = (Statement.vacuum, refl, tt)
  bind_statement-None (Statement.analyze a) ps h = (Statement.analyze a, refl, tt)
  bind_statement-None (Statement.explain a b) ps h = (Statement.explain a b, refl, tt)
  bind_statement-None Statement.begin ps h = (Statement.begin, refl, tt)
  bind_statement-None Statement.commit ps h = (Statement.commit, refl, tt)
  bind_statement-None Statement.rollback ps h = (Statement.rollback, refl, tt)

bind_rows-None :
    (rs : ValueRows) (ps : List Value)
    → EachRows (Given ps) rs
    → BindsTo (EachRows None) (bind_rows rs ps)
unfolding bind_rows
bind_rows-None no_rows ps h = (no_rows, refl, tt)
bind_rows-None (next_row r rs) ps (hr, hs) =
    let (r', br, nr) = bind_exprs-None r ps hr in
    let (rs', bs, ns) = bind_rows-None rs ps hs in (next_row r' rs', rw (br, bs), (nr, ns))

bind_assignments-None :
    (l : Assignments) (ps : List Value)
    → EachAssignments (Given ps) l
    → BindsTo (EachAssignments None) (bind_assignments l ps)
unfolding bind_assignments
bind_assignments-None no_assignments ps h = (no_assignments, refl, tt)
bind_assignments-None (next_assignment name e l) ps (he, hl) =
    let (e', be, ne) = bind_expr-None e ps he in
    let (l', bl, nl) = bind_assignments-None l ps hl in
    (next_assignment name e' l', rw (be, bl), (ne, nl))

-- If every placeholder of a plan has a parameter, then binding succeeds, and no placeholder is
-- left in any expression of the plan or of a SELECT inside of one.
pub bind_plan-EachPlan :
    (p : Plan) (ps : List Value)
    → EachPlan (Given ps) p
    → (p' : Plan) × (bind_plan p ps ≡ ok p') × EachPlan None p'
unfolding bind_plan
bind_plan-EachPlan (Plan.insert table columns rows) ps h =
    let (rows', b, n) = bind_rows-None rows ps h in (Plan.insert table columns rows', rw b, n)
bind_plan-EachPlan (Plan.select fr pr filter access groups having keys presorted limit offset) ps
      (hf, hp, hc, hh) =
    let (fr', bf, nf) = bind_from-None fr ps hf in
    let (pr', bp, np) = bind_projection-None pr ps hp in
    let (filter', bc, nc) = bind_condition-None filter ps hc in
    let (having', bh, nh) = bind_condition-None having ps hh in
    (
      Plan.select fr' pr' filter' access groups having' keys presorted limit offset,
      rw (bf, bp, bc, bh),
      (nf, np, nc, nh),
    )
bind_plan-EachPlan (Plan.update table l filter access) ps (hl, hc) =
    let (l', bl, nl) = bind_assignments-None l ps hl in
    let (filter', bc, nc) = bind_condition-None filter ps hc in
    (Plan.update table l' filter' access, rw (bl, bc), (nl, nc))
bind_plan-EachPlan (Plan.delete table filter access) ps h =
    let (filter', b, n) = bind_condition-None filter ps h in
    (Plan.delete table filter' access, rw b, n)
bind_plan-EachPlan (Plan.explain inner analyze) ps h =
    let (inner', b, n) = bind_plan-EachPlan inner ps h in (Plan.explain inner' analyze, rw b, n)
bind_plan-EachPlan (Plan.create_table a b c d) ps h = (Plan.create_table a b c d, refl, tt)
bind_plan-EachPlan (Plan.drop_table a) ps h = (Plan.drop_table a, refl, tt)
bind_plan-EachPlan (Plan.create_index a b c) ps h = (Plan.create_index a b c, refl, tt)
bind_plan-EachPlan (Plan.drop_index a) ps h = (Plan.drop_index a, refl, tt)
bind_plan-EachPlan Plan.vacuum ps h = (Plan.vacuum, refl, tt)
bind_plan-EachPlan (Plan.analyze a) ps h = (Plan.analyze a, refl, tt)
