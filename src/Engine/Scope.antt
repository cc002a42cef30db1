-- ===== src/Engine/Scope.antt =====
-- `Scope` of crates/prehnitedb/src/engine/executor.rs: the columns that the expressions of a query see.
use prehnite_db.Prelude.{
  ℕ, suc, Bool, true, false, ◌&&◌, Option, none, some, List, [], ◌∷◌, ◌++◌, map, exec, Result, ok,
  err, any, if◌then◌else◌, not,
}
use prehnite_db.Bytes.{Bytes, bytes_eq}
use prehnite_db.Outcome.{Outcome, returns, ◌>>=◌, index}
use prehnite_db.Value.{ColumnType}
use prehnite_db.Schema.{Schema, Column}
use prehnite_db.Sql.Ast.{ColumnRef, OrderKey}

pub record ScopedColumn : Type 0 where
  pub table : Bytes
  pub name : Bytes
  pub ty : ColumnType

abbrev pub Scope : Type 0
Scope = List ScopedColumn

-- `extend`, which returns the longer scope.
unfoldable pub extend : Scope → Bytes → Schema → Scope
extend scope qualifier schema =
    scope
    ++ map (λ (c : Column). record { table = qualifier; name = c.name; ty = c.ty }) schema.columns

unfoldable pub single : Bytes → Schema → Scope
unfolding extend
single qualifier schema = extend [] qualifier schema

unfoldable pub has_qualifier : Scope → Bytes → Bool
has_qualifier scope qualifier = any (λ (c : ScopedColumn). bytes_eq c.table qualifier) scope

unfoldable pub table_matches : Option Bytes → Bytes → Bool
table_matches (some qualifier) table = bytes_eq qualifier table
table_matches none table = true

unfoldable pub matches : ColumnRef → ScopedColumn → Bool
unfolding table_matches
matches colref c = table_matches colref.table c.table && bytes_eq c.name colref.name

-- The rounds of `resolve` from position `i` on.
unfoldable pub resolve_from : ColumnRef → ℕ → Option ℕ → Scope → Result ℕ
unfolding matches
resolve_from colref i none [] = err exec
resolve_from colref i (some n) [] = ok n
resolve_from colref i none (c ∷ cs) =
    resolve_from colref (suc i) (if matches colref c then some i else none) cs
resolve_from colref i (some n) (c ∷ cs) =
    let rest = resolve_from colref (suc i) (some n) cs in
    if matches colref c then err exec else rest

unfoldable pub resolve : Scope → ColumnRef → Result ℕ
unfolding resolve_from
resolve scope colref = resolve_from colref 0 none scope

unfoldable pub column_type : Scope → ℕ → Outcome ColumnType
column_type scope i = do c ← index scope i; returns c.ty

-- The scope spans more than one table.
unfoldable pub is_join : Scope → Bool
is_join [] = false
is_join (first ∷ cs) = any (λ (c : ScopedColumn). not (bytes_eq c.table first.table)) (first ∷ cs)

-- The output header of a column, qualified by its table in a join.
unfoldable pub header : Scope → ℕ → Outcome Bytes
unfolding is_join
header scope i = do
  c ← index scope i
  returns (if is_join scope then c.table ++ 0x2e ∷ c.name else c.name)

unfoldable pub resolve_order_keys : Scope → List OrderKey → Result (List (ℕ × Bool))
resolve_order_keys scope [] = ok []
resolve_order_keys scope (key ∷ order_by) =
    let rest = resolve_order_keys scope order_by in
    elim (resolve scope key.column) [
      | ok column ↦ elim rest [ ok keys ↦ ok ((column, key.descending) ∷ keys) | err e ↦ err e ]
      | err e ↦ err e
    ]
