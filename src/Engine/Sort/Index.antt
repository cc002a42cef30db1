-- ===== src/Engine/Sort/Index.antt =====
-- `sort_rows` by the columns of an index puts the rows of a table, read in the order of their rowids,
-- in the order in which a scan of that index finds them.
use prehnite_db.Prelude.{
  ℕ, zero, suc, ◌^◌, ◌<◌, ◌≡◌, refl, ◌∙◌, List, [], ◌∷◌, ◌++◌, length, get_elem?, All, some,
  Ordering, compare, arith,
}
use mathlib.Core.List.{Perm}
use mathlib.Core.List.Perm
use prehnite_db.Bytes.{Bytes, cmp}
use prehnite_db.Bytes.Order.{and_then, cmp_flip}
use prehnite_db.Outcome.{Outcome, returns, ◌>>=◌}
use prehnite_db.Value.{ColumnType, Value}
use prehnite_db.Codec.IndexKeys.{encode_index_key, encode_index_value, rowid_key}
use prehnite_db.Engine.Join.{Row}
use prehnite_db.Engine.Sort.{insert_row, sort_rows}
use prehnite_db.Engine.Sort.Keys.{IsRow, Below, ascending, cmp-row_order}

-- A row with its rowid.
abbrev pub Entry : Type 0
Entry = ℕ × Row

abbrev pub rows_of : List Entry → List Row
rows_of [] = []
rows_of (x ∷ xs) = x.1 ∷ rows_of xs

abbrev pub Before : ℕ → List Entry → Type 0
Before i xs = All (λ x. i < x.0) xs

-- The rowids rise.
abbrev pub IsTable : List Entry → Type 0
IsTable [] = Unit
IsTable (x ∷ xs) = Before x.0 xs × IsTable xs

get-some :
    (ts : List ColumnType) (vs : Row) (c : ℕ)
    → IsRow ts vs
    → c < length ts
    → (v : Value) × (get_elem? vs c ≡ some v)
get-some [] vs c h below = absurd (omega arith)
get-some (t ∷ ts) [] c h below = absurd h
get-some (t ∷ ts) (v ∷ vs) zero h below = (v, refl)
get-some (t ∷ ts) (v ∷ vs) (suc c) (_, _, h) below = get-some ts vs c h (omega arith)

key-some :
    (ts : List ColumnType) (vs : Row) (columns : List ℕ) (rowid : Bytes)
    → IsRow ts vs
    → Below (length ts) columns
    → (a : Bytes) × (encode_index_key vs columns rowid ≡ some a)
unfolding encode_index_key
key-some ts vs [] rowid h below = (rowid, refl)
key-some ts vs (c ∷ cs) rowid h (below, hs) =
    let (v, ev) = get-some ts vs c h below in
    let (a, ea) = key-some ts vs cs rowid h hs in
    (encode_index_value v ++ a, rw (encode_index_key, ev, ea) refl)

module _ (ts : List ColumnType) (columns : List ℕ) where
  abbrev pub IsEntry : Entry → Type 0
  IsEntry x = (x.0 < 2 ^ 64) × IsRow ts x.1

  -- The first one's key in the index is below the second one's.
  abbrev pub InOrder : Entry → Entry → Type 0
  InOrder x y =
      (a : Bytes) × (b : Bytes) × (encode_index_key x.1 columns (rowid_key x.0) ≡ some a)
      × (encode_index_key y.1 columns (rowid_key y.0) ≡ some b)
      × (cmp a b ≡ Ordering.lt)

  abbrev pub Follows : Entry → List Entry → Type 0
  Follows x [] = Unit
  Follows x (y ∷ ys) = InOrder x y

  -- Each key is below the next.
  abbrev pub InKeyOrder : List Entry → Type 0
  InKeyOrder [] = Unit
  InKeyOrder (x ∷ xs) = Follows x xs × InKeyOrder xs

  -- What an insertion makes of a sorted list.
  abbrev Inserted : Entry → List Entry → Outcome (List Row) → Type 1
  Inserted x xs r =
      (out : List Entry) × (r ≡ returns (rows_of out))
      × Perm (x ∷ xs) out
      × InKeyOrder out
      × ((P : Entry → Type 0) → P x → All P xs → All P out)
      × ((z : Entry) → InOrder z x → Follows z xs → Follows z out)

  place :
      (o : Ordering) (x y : Entry) (ys : List Entry) {a b : Bytes} {later : Outcome (List Row)}
      → encode_index_key x.1 columns (rowid_key x.0) ≡ some a
      → encode_index_key y.1 columns (rowid_key y.0) ≡ some b
      → cmp a b ≡ and_then o (compare x.0 y.0)
      → x.0 < y.0
      → InKeyOrder (y ∷ ys)
      → Inserted x ys later
      → Inserted x (y ∷ ys) (elim o [
        | Ordering.gt ↦ (do rest ← later; returns (y.1 ∷ rest))
        | _ ↦ returns (x.1 ∷ y.1 ∷ rows_of ys)
      ])
  place Ordering.lt x y ys {a} {b} ea eb e below (h, hs) i =
      (x ∷ y ∷ ys, refl, Perm.refl _, ((a, b, ea, eb, e), (h, hs)), (λ P p q. (p, q)), λ z zx _. zx)
  place Ordering.eq x y ys {a} {b} ea eb e below (h, hs) i =
      let less : compare x.0 y.0 ≡ Ordering.lt = ground arith in
      (
        x ∷ y ∷ ys,
        refl,
        Perm.refl _,
        ((a, b, ea, eb, e ∙ less), (h, hs)),
        (λ P p q. (p, q)),
        λ z zx _. zx,
      )
  place Ordering.gt x y ys {a} {b} ea eb e below (h, hs) (out, er, perm, sorted, all, first) = (
    y ∷ out,
    rw er refl,
    Perm.trans (Perm.swap y x ys) (Perm.cons y perm),
    (first y (b, a, eb, ea, cmp_flip a b e) h, sorted),
    (λ P p (q, qs). (q, all P p qs)),
    λ z _ zy. zy,
  )

  module _ (bounds : Below (length ts) columns) where
    insert_row-Inserted :
        (x : Entry) (xs : List Entry)
        → IsEntry x
        → All IsEntry xs
        → Before x.0 xs
        → InKeyOrder xs
        → Inserted x xs (insert_row (ascending columns) x.1 (rows_of xs))
    unfolding insert_row
    insert_row-Inserted x [] hx hs below sorted =
        (x ∷ [], refl, Perm.refl _, (tt, tt), (λ P p q. (p, q)), λ z zx _. zx)
    insert_row-Inserted x (y ∷ ys) (ix, hx) ((iy, hy), hs) (less, below) (h, sorted) =
        let (a, ea) = key-some ts x.1 columns (rowid_key x.0) hx bounds in
        let (b, eb) = key-some ts y.1 columns (rowid_key y.0) hy bounds in
        let (o, eo, e) = cmp-row_order ts x.1 y.1 columns x.0 y.0 hx hy bounds ix iy ea eb in
        let later = insert_row-Inserted x ys (ix, hx) hs below sorted in
        rw eo (place o x y ys ea eb e less (h, sorted) later)

    sorted_lem :
        (table : List Entry)
        → All IsEntry table
        → IsTable table
        → (sorted : List Entry) × (sort_rows (rows_of table) (ascending columns)
            ≡ returns (rows_of sorted))
          × Perm table sorted
          × InKeyOrder sorted
          × ((P : Entry → Type 0) → All P table → All P sorted)
    unfolding sort_rows
    sorted_lem [] h t = ([], refl, Perm.refl [], tt, λ P p. p)
    sorted_lem (x ∷ xs) (hx, hs) (below, t) =
        let (sorted, es, ps, os, all) = sorted_lem xs hs t in
        let (out, eo, po, oo, all', _) =
          insert_row-Inserted x sorted hx (all IsEntry hs) (all (λ y. x.0 < y.0) below) os in
        (out, rw es eo, Perm.trans (Perm.cons x ps) po, oo, λ P (p, q). all' P p (all P q))

    -- `sort_rows` by the columns of an index, ascending, of the rows of a table in the order of
    -- their rowids, returns: the rows of the table, each once, in the order of their keys in the
    -- index.
    pub sort_rows-InKeyOrder :
        (table : List Entry)
        → All IsEntry table
        → IsTable table
        → (sorted : List Entry) × (sort_rows (rows_of table) (ascending columns)
            ≡ returns (rows_of sorted))
          × Perm table sorted
          × InKeyOrder sorted
    sort_rows-InKeyOrder table h t =
        let (sorted, e, p, o, _) = sorted_lem table h t in (sorted, e, p, o)
