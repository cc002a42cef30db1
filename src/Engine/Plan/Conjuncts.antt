-- ===== src/Engine/Plan/Conjuncts.antt =====
-- The conjuncts of a predicate in crates/prehnitedb/src/engine/planner.rs.
use prehnite_db.Prelude.{Option, none, some, List, [], ◌∷◌, ◌++◌}
use prehnite_db.Value.{Value, int, real, text, bool}
use prehnite_db.Sql.Ast.{Expr, binary, and}

unfoldable pub collect_conjuncts : Expr → List Expr → List Expr
collect_conjuncts (binary and left right) out = collect_conjuncts right (collect_conjuncts left out)
collect_conjuncts other out = out ++ other ∷ []

unfoldable pub literal_value : Expr → Option Value
literal_value (Expr.integer n) = some (int n)
literal_value (Expr.real r) = some (real r)
literal_value (Expr.str s) = some (text s)
literal_value (Expr.bool b) = some (bool b)
literal_value other = none

unfoldable pub flatten_and : Expr → List Expr → List Expr
flatten_and (binary and left right) out = flatten_and right (flatten_and left out)
flatten_and other out = out ++ other ∷ []

-- The loop of `and_chain_opt` and of `and_all`.
unfoldable pub chain : Expr → List Expr → Expr
chain acc [] = acc
chain acc (next ∷ parts) = chain (binary and acc next) parts

unfoldable pub and_chain_opt : List Expr → Option Expr
unfolding chain
and_chain_opt [] = none
and_chain_opt (first ∷ parts) = some (chain first parts)
