-- ===== src/Engine/Sort/Keys.antt =====
-- The order of rows for ORDER BY and the byte order of their index keys.
use prehnite_db.Prelude.{
  ℕ, zero, suc, ◌^◌, ◌<◌, ◌≡◌, refl, sym, ◌∙◌, Bool, true, false, List, [], ◌∷◌, length, some,
  get_elem?, Ordering, compare, arith,
}
use prehnite_db.Bytes.{Bytes, cmp}
use prehnite_db.Bytes.Order.{and_then}
use prehnite_db.Real
use prehnite_db.Outcome.{returns, index}
use prehnite_db.Value.{
  ColumnType, int_type, real_type, text_type, bool_type, Value, null, int, real, text, bool,
}
use prehnite_db.Codec.IndexKeys.{encode_index_key, rowid_key}
use prehnite_db.Codec.IndexKeys.Order.{
  IsKeyValue, value_cmp, total_cmp, columns_cmp, cell_cmp, Cells, cmp-encode_index_key,
}
use prehnite_db.Engine.Join.{Row}
use prehnite_db.Engine.Sort.{order_values, row_order, or_next}

-- NULL, or a value of a type.
abbrev pub OfType : ColumnType → Value → Type 0
OfType t null = Unit
OfType int_type (int n) = Unit
OfType real_type (real r) = Unit
OfType text_type (text s) = Unit
OfType bool_type (bool b) = Unit
OfType t v = ⊥

-- A row of a table: a value for each column, in the range of its type.
abbrev pub IsRow : List ColumnType → Row → Type 0
IsRow [] [] = Unit
IsRow (t ∷ ts) (v ∷ vs) = OfType t v × IsKeyValue v × IsRow ts vs
IsRow ts vs = ⊥

total_cmp_lem : (a b : ℕ) → a < 2 ^ 64 → b < 2 ^ 64 → Real.total_cmp a b ≡ total_cmp a b
unfolding Real.total_cmp
total_cmp_lem a b ha hb = ground arith

pub order_values-value_cmp :
    (t : ColumnType) (v w : Value)
    → OfType t v
    → OfType t w
    → IsKeyValue v
    → IsKeyValue w
    → order_values v w ≡ value_cmp v w
unfolding order_values value_cmp
order_values-value_cmp t null null ov ow kv kw = refl
order_values-value_cmp t null (int n) ov ow kv kw = refl
order_values-value_cmp t null (real r) ov ow kv kw = refl
order_values-value_cmp t null (text s) ov ow kv kw = refl
order_values-value_cmp t null (bool b) ov ow kv kw = refl
order_values-value_cmp t (int n) null ov ow kv kw = refl
order_values-value_cmp t (real r) null ov ow kv kw = refl
order_values-value_cmp t (text s) null ov ow kv kw = refl
order_values-value_cmp t (bool b) null ov ow kv kw = refl
order_values-value_cmp int_type (int x) (int y) ov ow kv kw = refl
order_values-value_cmp real_type (real x) (real y) ov ow kv kw = total_cmp_lem x y kv kw
order_values-value_cmp text_type (text x) (text y) ov ow kv kw = refl
order_values-value_cmp bool_type (bool true) (bool true) ov ow kv kw = refl
order_values-value_cmp bool_type (bool true) (bool false) ov ow kv kw = refl
order_values-value_cmp bool_type (bool false) (bool true) ov ow kv kw = refl
order_values-value_cmp bool_type (bool false) (bool false) ov ow kv kw = refl
order_values-value_cmp t v w ov ow kv kw = ground arith

pub IsRow-Cells : (ts : List ColumnType) (vs : Row) → IsRow ts vs → Cells vs
IsRow-Cells [] [] h = tt
IsRow-Cells [] (v ∷ vs) h = absurd h
IsRow-Cells (t ∷ ts) [] h = absurd h
IsRow-Cells (t ∷ ts) (v ∷ vs) (_, k, h) = (k, IsRow-Cells ts vs h)

-- Two rows of one table at one column.
cells_lem :
    (ts : List ColumnType) (vs ws : Row) (c : ℕ)
    → IsRow ts vs
    → IsRow ts ws
    → c < length ts
    → (v : Value) × (w : Value) × (index vs c ≡ returns v)
      × (index ws c ≡ returns w)
      × (order_values v w ≡ cell_cmp (get_elem? vs c) (get_elem? ws c))
cells_lem [] vs ws c hv hw below = absurd (omega arith)
cells_lem (t ∷ ts) [] ws c hv hw below = absurd hv
cells_lem (t ∷ ts) (v ∷ vs) [] c hv hw below = absurd hw
cells_lem (t ∷ ts) (v ∷ vs) (w ∷ ws) zero (ov, kv, hv) (ow, kw, hw) below =
    (v, w, refl, refl, order_values-value_cmp t v w ov ow kv kw)
cells_lem (t ∷ ts) (v ∷ vs) (w ∷ ws) (suc c) (ov, kv, hv) (ow, kw, hw) below =
    cells_lem ts vs ws c hv hw (omega arith)

abbrev pub Below : ℕ → List ℕ → Type 0
Below n [] = Unit
Below n (c ∷ cs) = (c < n) × Below n cs

abbrev pub ascending : List ℕ → List (ℕ × Bool)
ascending [] = []
ascending (c ∷ cs) = (c, false) ∷ ascending cs

or_next-returns : (p o : Ordering) → or_next p (returns o) ≡ returns (and_then p o)
or_next-returns Ordering.lt o = refl
or_next-returns Ordering.eq o = refl
or_next-returns Ordering.gt o = refl

and_then_assoc : (p q r : Ordering) → and_then p (and_then q r) ≡ and_then (and_then p q) r
and_then_assoc Ordering.lt q r = refl
and_then_assoc Ordering.eq q r = refl
and_then_assoc Ordering.gt q r = refl

row_order-columns_cmp :
    (ts : List ColumnType) (vs ws : Row) (columns : List ℕ)
    → IsRow ts vs
    → IsRow ts ws
    → Below (length ts) columns
    → (o : Ordering) × (row_order (ascending columns) vs ws ≡ returns o)
      × ((last : Ordering) → columns_cmp vs ws columns last ≡ and_then o last)
unfolding row_order
row_order-columns_cmp ts vs ws [] hv hw below = (Ordering.eq, refl, λ last. refl)
row_order-columns_cmp ts vs ws (c ∷ cs) hv hw (below, h) =
    let (v, w, ev, ew, eo) = cells_lem ts vs ws c hv hw below in
    let (o, er, el) = row_order-columns_cmp ts vs ws cs hv hw h in
    (
      and_then (order_values v w) o,
      rw (ev, ew, er) (or_next-returns (order_values v w) o),
      λ last. rw (el last, sym eo) (and_then_assoc (order_values v w) o last),
    )

-- Rows of one table: the byte order of their keys in an index is the order that ORDER BY the columns
-- of the index puts them in, then that of their rowids.
pub cmp-row_order :
    (ts : List ColumnType) (vs ws : Row) (columns : List ℕ) (i j : ℕ) {a b : Bytes}
    → IsRow ts vs
    → IsRow ts ws
    → Below (length ts) columns
    → i < 2 ^ 64
    → j < 2 ^ 64
    → encode_index_key vs columns (rowid_key i) ≡ some a
    → encode_index_key ws columns (rowid_key j) ≡ some b
    → (o : Ordering) × (row_order (ascending columns) vs ws ≡ returns o)
      × (cmp a b ≡ and_then o (compare i j))
cmp-row_order ts vs ws columns i j hv hw below hi hj ea eb =
    let (o, eo, el) = row_order-columns_cmp ts vs ws columns hv hw below in
    (
      o,
      eo,
      cmp-encode_index_key vs ws columns i j (IsRow-Cells ts vs hv) (IsRow-Cells ts ws hw) hi hj ea
            eb
          ∙ el (compare i j),
    )
