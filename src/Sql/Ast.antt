-- ===== src/Sql/Ast.antt =====
-- crates/prehnitedb/src/sql/ast.rs: the abstract syntax of statements and expressions. A type that
-- holds a list or an option of expressions has a type of its own for it, in one block.
use prehnite_db.Prelude.{ℕ, Bool, List, Option, none, some}
use prehnite_db.Prelude.Int.{ℤ}
use prehnite_db.Bytes.{Bytes}

pub record TableRef : Type 0 where
  pub name : Bytes
  pub alias : Option Bytes

-- The alias, or the table's own name.
unfoldable pub qualifier : TableRef → Bytes
qualifier t = elim t.alias [ some a ↦ a | none ↦ t.name ]

pub data JoinKind : Type 0 where
  inner left cross semi anti : JoinKind

pub record ColumnRef : Type 0 where
  pub table : Option Bytes
  pub name : Bytes

pub data ReferentialAction : Type 0 where
  restrict cascade set_null : ReferentialAction

pub data ColumnConstraint : Type 0 where
  primary_key not_null unique : ColumnConstraint
  references : Bytes → Bytes → ReferentialAction → ColumnConstraint

pub data TypeName : Type 0 where
  int_name text_name real_name bool_name : TypeName

pub record ColumnDef : Type 0 where
  pub name : Bytes
  pub ty : TypeName
  pub constraints : List ColumnConstraint

pub data AggregateFunc : Type 0 where
  count sum avg min max : AggregateFunc

-- `*` or a column.
pub data AggregateArg : Type 0 where
  star : AggregateArg
  of_column : ColumnRef → AggregateArg

pub record Aggregate : Type 0 where
  pub func : AggregateFunc
  pub arg : AggregateArg

pub record OrderKey : Type 0 where
  pub column : ColumnRef
  pub descending : Bool

pub data UnaryOp : Type 0 where
  neg not_op : UnaryOp

pub data BinaryOp : Type 0 where
  add sub mul div eq not_eq lt lt_eq gt gt_eq and or : BinaryOp

mutual
  pub data Expr : Type 0 where
    null : Expr
    integer : ℤ → Expr
    real : ℕ → Expr
    str : Bytes → Expr
    bool : Bool → Expr
    placeholder : ℕ → Expr
    column : ColumnRef → Expr
    aggregate : Aggregate → Expr
    unary : UnaryOp → Expr → Expr
    binary : BinaryOp → Expr → Expr → Expr
    -- the operand, and whether the test is negated
    is_null : Expr → Bool → Expr
    in_subquery : Expr → Statement → Bool → Expr
    exists : Statement → Expr
    scalar_subquery : Statement → Expr
    -- the probe, the values, whether a NULL was among them, and whether the test is negated
    in_list : Expr → Exprs → Bool → Bool → Expr
    correlated_exists : Statement → Expr
    correlated_scalar_subquery : Statement → Expr
    correlated_in_subquery : Expr → Statement → Bool → Expr

  -- `Vec<Expr>`
  pub data Exprs : Type 0 where
    no_exprs : Exprs
    next_expr : Expr → Exprs → Exprs

  -- `Vec<Vec<Expr>>`
  pub data ValueRows : Type 0 where
    no_rows : ValueRows
    next_row : Exprs → ValueRows → ValueRows

  -- `Option<Expr>`
  pub data Condition : Type 0 where
    always : Condition
    only_if : Expr → Condition

  -- `Vec<Join>`
  pub data Joins : Type 0 where
    no_joins : Joins
    next_join : JoinKind → TableRef → Condition → Joins → Joins

  -- `Vec<SelectItem>`, with a constructor for each kind of item
  pub data SelectItems : Type 0 where
    no_items : SelectItems
    next_column : ColumnRef → SelectItems → SelectItems
    next_aggregate : Aggregate → SelectItems → SelectItems
    next_item : Expr → SelectItems → SelectItems

  pub data Projection : Type 0 where
    all : Projection
    items : SelectItems → Projection

  -- `Vec<(String, Expr)>`
  pub data Assignments : Type 0 where
    no_assignments : Assignments
    next_assignment : Bytes → Expr → Assignments → Assignments

  pub data FromClause : Type 0 where
    from : TableRef → Joins → FromClause

  pub data Statement : Type 0 where
    create_table : Bytes → List ColumnDef → Statement
    drop_table : Bytes → Statement
    create_index : Bytes → Bytes → List Bytes → Statement
    drop_index : Bytes → Statement
    insert : Bytes → Option (List Bytes) → ValueRows → Statement
    -- the clauses FROM, SELECT, WHERE, GROUP BY, HAVING, ORDER BY, LIMIT and OFFSET
    select :
        FromClause
        → Projection
        → Condition
        → List ColumnRef
        → Condition
        → List OrderKey
        → Option ℕ
        → Option ℕ
        → Statement
    update : Bytes → Assignments → Condition → Statement
    delete : Bytes → Condition → Statement
    vacuum : Statement
    analyze : Bytes → Statement
    explain : Statement → Bool → Statement
    begin commit rollback : Statement
