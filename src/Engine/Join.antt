-- ===== src/Engine/Join.antt =====
-- The joins of crates/prehnitedb/src/engine/executor.rs: `NestedLoopJoin`, `HashJoin` and the choice of
-- the columns to hash. An operator is the list of the rows that its `next` returns one after the
-- other: what a call keeps for the next one is where the recursion stands.
pub mod Equal
pub mod Predicate
pub mod Agreement
use prehnite_db.Prelude.{
  ℕ, ◌+◌, ◌-◌, Bool, true, false, ◌&&◌, Option, none, some, List, [], ◌∷◌, ◌++◌, length, ltb, leb,
  if◌then◌else◌, Result, ok, err,
}
use prehnite_db.Bytes.{Bytes, bytes_eq}
use prehnite_db.Real.{RealOps}
use prehnite_db.Outcome.{Outcome, returns, raises, panics, ◌>>=◌, index}
use prehnite_db.Value.{ColumnType, int_type, real_type, text_type, bool_type, Value, null}
use prehnite_db.Codec.IndexKeys.{encode_index_value}
use prehnite_db.Sql.Ast.{
  Expr, Condition, always, only_if, JoinKind, inner, left, cross, semi, anti, BinaryOp, eq, and,
}
use prehnite_db.Engine.Scope.{Scope, ScopedColumn, resolve}
use prehnite_db.Engine.Eval.{RowContext, passes_filter, is_null}
use prehnite_db.Engine.Batch.{replicate}

abbrev pub Row : Type 0
Row = List Value

abbrev pub type_eq : ColumnType → ColumnType → Bool
type_eq int_type int_type = true
type_eq real_type real_type = true
type_eq text_type text_type = true
type_eq bool_type bool_type = true
type_eq a b = false

-- The types of two columns that are there.
unfoldable pub same_type : Scope → ℕ → ℕ → Bool
same_type scope i j = elim (index scope i) [
  | returns a ↦ elim (index scope j) [ returns b ↦ type_eq a.ty b.ty | _ ↦ false ]
  | _ ↦ false
]

-- The end of `equi_join_columns`: the columns' positions in a left row and in an inner row.
unfoldable pub oriented : ℕ → Scope → ℕ → ℕ → Option (ℕ × ℕ)
unfolding same_type
oriented left_len scope left_at right_at =
    if ltb left_at left_len && leb left_len right_at
    then (if same_type scope left_at right_at then some (left_at, right_at - left_len) else none)
    else if ltb right_at left_len && leb left_len left_at
    then (if same_type scope right_at left_at then some (right_at, left_at - left_len) else none)
    else none

unfoldable pub equi_join_columns : Expr → Expr → ℕ → Scope → Option (ℕ × ℕ)
unfolding oriented
equi_join_columns (Expr.column l) (Expr.column r) left_len scope = elim (resolve scope l) [
  | ok left_at ↦ elim (resolve scope r) [
    | ok right_at ↦ oriented left_len scope left_at right_at
    | err _ ↦ none
  ]
  | err _ ↦ none
]
equi_join_columns l r left_len scope = none

unfoldable pub find_equi_join : Expr → ℕ → Scope → Option (ℕ × ℕ)
find_equi_join (Expr.binary and l r) left_len scope = elim (find_equi_join l left_len scope) [
  | some columns ↦ some columns
  | none ↦ find_equi_join r left_len scope
]
find_equi_join (Expr.binary eq l r) left_len scope = equi_join_columns l r left_len scope
find_equi_join e left_len scope = none

-- `HashMap<Vec<u8>, Vec<Row>>`: the bucket of a key, `&[]` where it has none.
unfoldable pub bucket : List (Bytes × List Row) → Bytes → List Row
bucket [] key = []
bucket ((k, rows) ∷ table) key = if bytes_eq k key then rows else bucket table key

-- `table.entry(key).or_default().push(row)`
unfoldable pub push_entry : List (Bytes × List Row) → Bytes → Row → List (Bytes × List Row)
push_entry [] key row = (key, row ∷ []) ∷ []
push_entry ((k, rows) ∷ table) key row =
    if bytes_eq k key then (k, rows ++ row ∷ []) ∷ table else (k, rows) ∷ push_entry table key row

-- The loop of `HashJoin::build` over the inner rows.
unfoldable pub build : List (Bytes × List Row) → ℕ → List Row → Outcome (List (Bytes × List Row))
unfolding push_entry
build table build_col [] = returns table
build table build_col (row ∷ rows) = do
  v ← index row build_col
  build (if is_null v then table else push_entry table (encode_index_value v) row) build_col rows

-- The inner rows that a left row is paired with.
unfoldable pub probe : List (Bytes × List Row) → ℕ → Row → Outcome (List Row)
unfolding bucket
probe table probe_col row = do
  v ← index row probe_col
  returns (if is_null v then [] else bucket table (encode_index_value v))

abbrev pub padded : Row → ℕ → Row
padded row width = row ++ replicate width null

abbrev pub or_padded : Row → ℕ → List Row → List Row
or_padded row width [] = padded row width ∷ []
or_padded row width (m ∷ ms) = m ∷ ms

module _ (ops : RealOps) (on : Condition) (scope : Scope) where
  abbrev pub holds_on : Row → Outcome Bool
  holds_on combined = passes_filter ops on (record { scope = scope; values = combined })

  -- The combined rows that satisfy the ON predicate.
  unfoldable pub matches : Row → List Row → Outcome (List Row)
  matches row [] = returns []
  matches row (r ∷ rs) = do
    keep ← holds_on (row ++ r)
    rest ← matches row rs
    returns (if keep then (row ++ r) ∷ rest else rest)

  -- Whether one does; the rows behind the first that does are not looked at.
  unfoldable pub any_match : Row → List Row → Outcome Bool
  any_match row [] = returns false
  any_match row (r ∷ rs) = do
    let rest = any_match row rs
    keep ← holds_on (row ++ r)
    if keep then returns true else rest

  -- What `NestedLoopJoin` returns for one left row.
  unfoldable pub nested_row : JoinKind → ℕ → List Row → Row → Outcome (List Row)
  nested_row inner width right_rows row = matches row right_rows
  nested_row cross width right_rows row = matches row right_rows
  nested_row left width right_rows row = do
    ms ← matches row right_rows
    returns (or_padded row width ms)
  nested_row semi width right_rows row = do
    found ← any_match row right_rows
    returns (if found then row ∷ [] else [])
  nested_row anti width right_rows row = do
    found ← any_match row right_rows
    returns (if found then [] else row ∷ [])

  unfoldable pub nested_loop_join : JoinKind → ℕ → List Row → List Row → Outcome (List Row)
  nested_loop_join kind width right_rows [] = returns []
  nested_loop_join kind width right_rows (row ∷ rows) = do
    here ← nested_row kind width right_rows row
    rest ← nested_loop_join kind width right_rows rows
    returns (here ++ rest)

  -- What `HashJoin` returns for one left row.
  unfoldable pub hash_row : JoinKind → ℕ → ℕ → List (Bytes × List Row) → Row → Outcome (List Row)
  hash_row kind width probe_col table row = do
    rows ← probe table probe_col row
    ms ← matches row rows
    returns (elim kind [ left ↦ or_padded row width ms | _ ↦ ms ])

  unfoldable pub hash_rows :
      JoinKind → ℕ → ℕ → List (Bytes × List Row) → List Row → Outcome (List Row)
  hash_rows kind width probe_col table [] = returns []
  hash_rows kind width probe_col table (row ∷ rows) = do
    here ← hash_row kind width probe_col table row
    rest ← hash_rows kind width probe_col table rows
    returns (here ++ rest)

  unfoldable pub hash_join : JoinKind → ℕ → ℕ → ℕ → List Row → List Row → Outcome (List Row)
  hash_join kind width probe_col build_col right_rows left_rows = do
    table ← build [] build_col right_rows
    hash_rows kind width probe_col table left_rows
