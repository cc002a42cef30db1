-- ===== src/Engine/Join/Predicate.antt =====
-- A row that satisfies an equi-join's predicate has equal values in the join columns.
use prehnite_db.Prelude.{
  ℕ, zero, suc, ◌-◌, ◌<◌, ◌≤◌, ◌≡◌, true, ◌&&◌, none, some, List, [], ◌∷◌, ◌++◌, length, ltb, leb,
  ok, arith, ap, sym, ◌∙◌, Bool-cases, Option-cases, Result-cases, inl, inr, ◌⊎◌,
}
use prehnite_db.Real.{RealOps}
use prehnite_db.Outcome.{Outcome, returns, ◌>>=◌, index, >>=-eq-returns}
use prehnite_db.Value.{Value, bool}
use prehnite_db.Sql.Ast.{Expr, ColumnRef, eq, and}
use prehnite_db.Engine.Scope.{Scope, resolve}
use prehnite_db.Engine.Eval.{
  eval, eval_binary, compare_op, logic, as_bool, conjunction, context_values,
}
use prehnite_db.Engine.Batch.Columns.{index-append_old}
use prehnite_db.Engine.Join.{Row, oriented, equi_join_columns, find_equi_join}

index-append_right {ℓ} :
    {A : Type ℓ} (xs ys : List A) (i : ℕ)
    → length xs ≤ i
    → index (xs ++ ys) i ≡ index ys (i - length xs)
index-append_right [] ys i h = ap (index ys) (omega arith)
index-append_right (x ∷ xs) ys zero h = absurd (omega arith)
index-append_right (x ∷ xs) ys (suc i) h =
    index-append_right xs ys i (omega arith) ∙ ap (index ys) (omega arith)

-- The join columns of the combined row, in the order of the equation.
EqualAt : Row → ℕ → ℕ → Type 0
EqualAt combined i j =
    (a : Value) × (b : Value) × (index combined i ≡ returns a)
    × (index combined j ≡ returns b)
    × (compare_op eq a b ≡ returns (bool true))

logic-true : (x y : Value) → logic and x y ≡ returns (bool true) → (x ≡ bool true) × (y ≡ bool true)
unfolding logic as_bool conjunction
logic-true x y h = (ground arith, ground arith)

oriented_cases :
    (n : ℕ) (scope : Scope) (i j probe_col build_col : ℕ)
    → oriented n scope i j ≡ some (probe_col, build_col)
    → ((i < n) × (n ≤ j) × (i ≡ probe_col) × (j - n ≡ build_col))
      ⊎ ((j < n) × (n ≤ i) × (j ≡ probe_col) × (i - n ≡ build_col))
unfolding oriented
oriented_cases n scope i j pc bc h = elim (Bool-cases (ltb i n && leb n j)) [
  | inl first ↦ inl (ground arith, ground arith, ground arith, ground arith)
  | inr other ↦ inr (ground arith, ground arith, ground arith, ground arith)
]

equi_columns :
    (n : ℕ) (scope : Scope) (l m : ColumnRef) (probe_col build_col : ℕ)
    → equi_join_columns (Expr.column l) (Expr.column m) n scope ≡ some (probe_col, build_col)
    → (i : ℕ) × (j : ℕ) × (resolve scope l ≡ ok i)
      × (resolve scope m ≡ ok j)
      × (oriented n scope i j ≡ some (probe_col, build_col))
unfolding equi_join_columns
equi_columns n scope l m pc bc h = elim (Result-cases (resolve scope l)) [
  | inl (i, ei) ↦ elim (Result-cases (resolve scope m)) [
    | inl (j, ej) ↦ (i, j, ei, ej, (rw (ei, ej, equi_join_columns) at h))
    | inr (_, ej) ↦ absurd (ground arith)
  ]
  | inr (_, ei) ↦ absurd (ground arith)
]

module _ (ops : RealOps) (scope : Scope) (row r : Row) where
  abbrev pub at_pair : Expr → Outcome Value
  at_pair e = eval ops e (some (record { scope = scope; values = row ++ r }))

  -- What makes the hashed columns equal.
  unfoldable pub Joined : ℕ → ℕ → Type 0
  Joined probe_col build_col =
      (a : Value) × (b : Value) × (index row probe_col ≡ returns a)
      × (index r build_col ≡ returns b)
      × ((compare_op eq a b ≡ returns (bool true)) ⊎ (compare_op eq b a ≡ returns (bool true)))

  -- A left column of the combined row, and an inner one.
  sides :
      (i j : ℕ) (a b : Value)
      → i < length row
      → length row ≤ j
      → index (row ++ r) i ≡ returns a
      → index (row ++ r) j ≡ returns b
      → (index row i ≡ returns a) × (index r (j - length row) ≡ returns b)
  sides i j a b hi hj ei ej =
      (sym (index-append_old row r i hi) ∙ ei, sym (index-append_right row r j hj) ∙ ej)

  oriented-Joined :
      (i j probe_col build_col : ℕ)
      → oriented (length row) scope i j ≡ some (probe_col, build_col)
      → EqualAt (row ++ r) i j
      → Joined probe_col build_col
  unfolding EqualAt Joined
  oriented-Joined i j pc bc h (a, b, ei, ej, e) =
      elim (oriented_cases (length row) scope i j pc bc h) [
        | inl (hi, hj, ep, eb) ↦
            let (ea, ev) = sides i j a b hi hj ei ej in
            (a, b, rw (sym ep) ea, rw (sym eb) ev, inl e)
        | inr (hj, hi, ep, eb) ↦
            let (ea, ev) = sides j i b a hj hi ej ei in
            (b, a, rw (sym ep) ea, rw (sym eb) ev, inr e)
      ]

  at_column :
      (c : ColumnRef) (i : ℕ) (x : Value)
      → resolve scope c ≡ ok i
      → at_pair (Expr.column c) ≡ returns x
      → index (row ++ r) i ≡ returns x
  unfolding eval context_values
  at_column c i x e h = rw e at h

  -- A combined row that satisfies the ON predicate has equal join columns.
  pub find_equi_join-Joined :
      (on : Expr) (probe_col build_col : ℕ)
      → find_equi_join on (length row) scope ≡ some (probe_col, build_col)
      → at_pair on ≡ returns (bool true)
      → Joined probe_col build_col
  unfolding find_equi_join equi_join_columns eval EqualAt
  find_equi_join-Joined (Expr.binary and l m) pc bc h e =
      let (x, ex, e') =
        >>=-eq-returns (at_pair l) (λ x. at_pair m >>= λ y. eval_binary ops and x y) e in
      let (y, ey, e'') = >>=-eq-returns (at_pair m) (λ y. eval_binary ops and x y) e' in
      let (tx, ty) = logic-true x y (unfold eval_binary in e'') in
      elim (Option-cases (find_equi_join l (length row) scope)) [
        | inr (c, ec) ↦ find_equi_join-Joined l pc bc (and_first c ec h) (ex ∙ ap returns tx)
        | inl nothing ↦ find_equi_join-Joined m pc bc (and_second nothing h) (ey ∙ ap returns ty)
      ]
    where
      and_first :
          (c : ℕ × ℕ)
          → find_equi_join l (length row) scope ≡ some c
          → find_equi_join (Expr.binary and l m) (length row) scope ≡ some (pc, bc)
          → find_equi_join l (length row) scope ≡ some (pc, bc)
      and_first c ec h = ec ∙ (rw ec at h)

      and_second :
          find_equi_join l (length row) scope ≡ none
          → find_equi_join (Expr.binary and l m) (length row) scope ≡ some (pc, bc)
          → find_equi_join m (length row) scope ≡ some (pc, bc)
      and_second ec h = rw ec at h
  find_equi_join-Joined (Expr.binary eq (Expr.column l) (Expr.column m)) pc bc h e =
      let (x, ex, e') =
        >>=-eq-returns (at_pair (Expr.column l))
          (λ x. at_pair (Expr.column m) >>= λ y. eval_binary ops eq x y) e in
      let (y, ey, e'') =
        >>=-eq-returns (at_pair (Expr.column m)) (λ y. eval_binary ops eq x y) e' in
      let (i, j, ei, ej, eo) = equi_columns (length row) scope l m pc bc h in
      oriented-Joined i j pc bc eo
        (x, y, at_column l i x ei ex, at_column m j y ej ey, unfold eval_binary in e'')
  find_equi_join-Joined on pc bc h e = absurd (ground arith)
