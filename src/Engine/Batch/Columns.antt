-- ===== src/Engine/Batch/Columns.antt =====
-- Columns and batches that are filled row by row, and read back.
use prehnite_db.Prelude.{
  ℕ, zero, suc, ◌<◌, ◌≡◌, refl, Bool, true, false, none, List, [], ◌∷◌, ◌++◌, map, length,
  length-append, ◌==◌, if◌then◌else◌, Result, ok, err, arith, sym, ◌∙◌, eq→==, All, ap₂, ◌>>=◌,
}
use prehnite_db.Prelude.Int.{pos}
use prehnite_db.Outcome.{returns, index}
use prehnite_db.Value.{Value, null, int, real, text, bool, int_to_real, coerce}
use prehnite_db.Engine.Batch.{
  NullMask, push, Column, int_column, real_column, text_column, bool_column, ty, push_value, cell,
  value_at, ColumnBatch, push_next, push_values, count_row, push_row, values_at, row_at,
  physical_for,
}
use prehnite_db.Engine.Batch.Mask.{
  bit_at, IsMask, is_valid-bit_at, bit_at-push, push-IsMask, push-rows,
}

-- `n` values under a mask of `n` bits.
abbrev pub Slots {ℓ} : {A : Type ℓ} → ℕ → List A → NullMask → Type 0
Slots n xs m = (length xs ≡ n) × (m.n_rows ≡ n) × IsMask m

abbrev pub IsColumn : ℕ → Column → Type 0
IsColumn n (int_column xs m) = Slots n xs m
IsColumn n (real_column xs m) = Slots n xs m
IsColumn n (text_column xs m) = Slots n xs m
IsColumn n (bool_column xs m) = Slots n xs m

pub index-append_old {ℓ} :
    {A : Type ℓ} (xs ys : List A) (i : ℕ) → i < length xs → index (xs ++ ys) i ≡ index xs i
index-append_old [] ys i h = absurd (omega arith)
index-append_old (x ∷ xs) ys zero h = refl
index-append_old (x ∷ xs) ys (suc i) h = index-append_old xs ys i (omega arith)

index-append_new {ℓ} :
    {A : Type ℓ} (xs : List A) (x : A) → index (xs ++ x ∷ []) (length xs) ≡ returns x
index-append_new [] x = refl
index-append_new (y ∷ xs) x = index-append_new xs x

module _ {A : Type 0} (make : A → Value) (n : ℕ) (xs : List A) (m : NullMask)
    (h : Slots n xs m) where
  push-Slots : (x : A) (b : Bool) → Slots (suc n) (xs ++ x ∷ []) (push m b)
  push-Slots x b = (
    omega (arith, length-append {0} xs (x ∷ [])),
    omega (arith, push-rows m b),
    push-IsMask m b h.2,
  )

  cell-push_old :
      (x : A) (b : Bool) (i : ℕ) → i < n → cell make (xs ++ x ∷ []) (push m b) i ≡ cell make xs m i
  unfolding cell
  cell-push_old x b i lt =
      let old = is_valid-bit_at m i h.2 (omega arith) in
      let new = is_valid-bit_at (push m b) i (push-IsMask m b h.2) (omega (arith, push-rows m b)) in
      let same = index-append_old xs (x ∷ []) i (omega arith) in
      rw (old, new, same, bit_at-push m b i h.2) (ground arith)

  cell-push_new :
      (x : A) (b : Bool)
      → cell make (xs ++ x ∷ []) (push m b) n ≡ returns (if b then make x else null)
  unfolding cell
  cell-push_new x b =
      let new = is_valid-bit_at (push m b) n (push-IsMask m b h.2) (omega (arith, push-rows m b)) in
      let at_end : bit_at (push m b) n ≡ b = bit_at-push m b n h.2 ∙ ground arith in
      let last : index (xs ++ x ∷ []) n ≡ returns x = rw (sym h.0) (index-append_new xs x) in
      rw (new, at_end, last) (ground arith)

  pub cell-push_both :
      (x : A) (b : Bool)
      → Slots (suc n) (xs ++ x ∷ []) (push m b)
        × (cell make (xs ++ x ∷ []) (push m b) n ≡ returns (if b then make x else null))
        × ((i : ℕ) → i < n → cell make (xs ++ x ∷ []) (push m b) i ≡ cell make xs m i)
  cell-push_both x b = (push-Slots x b, cell-push_new x b, cell-push_old x b)

-- `c'` is `c` with `v` as its row `n`.
abbrev pub Grows : ℕ → Column → Value → Column → Type 0
Grows n c v c' =
    IsColumn (suc n) c'
    × (value_at c' n ≡ returns v)
    × ((i : ℕ) → i < n → value_at c' i ≡ value_at c i)
    × (ty c' ≡ ty c)

-- `push_value` accepts what `coerce` accepts for the type of the column, and stores what that gives.
abbrev Pushed : ℕ → Column → Value → Result Column → Type 0
Pushed n c v (ok c') = (w : Value) × (coerce v (ty c) ≡ ok w) × Grows n c w c'
Pushed n c v (err e) = coerce v (ty c) ≡ err e

push_value-Pushed : (n : ℕ) (c : Column) (v : Value) → IsColumn n c → Pushed n c v (push_value c v)
unfolding push_value coerce value_at
push_value-Pushed n (int_column xs m) (int k) h =
    let (s, l, o) = cell-push_both int n xs m h k true in (int k, refl, (s, l, o, refl))
push_value-Pushed n (int_column xs m) null h =
    let (s, l, o) = cell-push_both int n xs m h (pos 0) false in (null, refl, (s, l, o, refl))
push_value-Pushed n (real_column xs m) (real r) h =
    let (s, l, o) = cell-push_both real n xs m h r true in (real r, refl, (s, l, o, refl))
push_value-Pushed n (real_column xs m) (int k) h =
    let (s, l, o) = cell-push_both real n xs m h (int_to_real k) true in
    (real (int_to_real k), refl, (s, l, o, refl))
push_value-Pushed n (real_column xs m) null h =
    let (s, l, o) = cell-push_both real n xs m h 0 false in (null, refl, (s, l, o, refl))
push_value-Pushed n (text_column xs m) (text t) h =
    let (s, l, o) = cell-push_both text n xs m h t true in (text t, refl, (s, l, o, refl))
push_value-Pushed n (text_column xs m) null h =
    let (s, l, o) = cell-push_both text n xs m h [] false in (null, refl, (s, l, o, refl))
push_value-Pushed n (bool_column xs m) (bool b) h =
    let (s, l, o) = cell-push_both bool n xs m h b true in (bool b, refl, (s, l, o, refl))
push_value-Pushed n (bool_column xs m) null h =
    let (s, l, o) = cell-push_both bool n xs m h false false in (null, refl, (s, l, o, refl))
push_value-Pushed n c v h = refl

abbrev pub coerce_row : List Column → List Value → Result (List Value)
coerce_row (c ∷ cs) (v ∷ vs) = do w ← coerce v (ty c); ws ← coerce_row cs vs; ok (w ∷ ws)
coerce_row cs vs = ok []

-- The columns of a batch of `n` rows with no selection.
abbrev pub AreColumns : ℕ → List Column → Type 0
AreColumns n = All (IsColumn n)

abbrev Extended : ℕ → List Column → List Value → Result (Unit {0}) × List Column → Type 0
Extended n cs vs (ok x, cs') =
    (ws : List Value) × (coerce_row cs vs ≡ ok ws)
    × AreColumns (suc n) cs'
    × (values_at cs' n ≡ returns ws)
    × ((i : ℕ) → i < n → values_at cs' i ≡ values_at cs i)
    × (map ty cs' ≡ map ty cs)
Extended n cs vs (err e, cs') =
    (coerce_row cs vs ≡ err e) × ((i : ℕ) → i < n → values_at cs' i ≡ values_at cs i)

push_values-Extended :
    (n : ℕ) (cs : List Column) (vs : List Value)
    → length vs ≡ length cs
    → AreColumns n cs
    → Extended n cs vs (push_values cs vs)
unfolding push_values values_at
push_values-Extended n [] [] e h = ([], refl, tt, refl, (λ i lt. refl), refl)
push_values-Extended n [] (v ∷ vs) e h = absurd (omega arith)
push_values-Extended n (c ∷ cs) [] e h = absurd (omega arith)
push_values-Extended n (c ∷ cs) (v ∷ vs) e (hc, hs) =
    join (push_value c v) (push_values cs vs) (push_value-Pushed n c v hc)
      (push_values-Extended n cs vs (omega arith) hs)
  where
    join :
        (p : Result Column) (q : Result (Unit {0}) × List Column)
        → Pushed n c v p
        → Extended n cs vs q
        → Extended n (c ∷ cs) (v ∷ vs) (push_next c cs p q)
    join (ok c') (ok x, cs') (w, e1, (s, l, o, t)) (ws, e2, ss, ls, os, ts) =
        (w ∷ ws, rw (e1, e2), (s, ss), rw (l, ls), (λ i lt. rw (o i lt, os i lt)), ap₂ ◌∷◌ t ts)
    join (ok c') (err b, cs') (w, e1, (s, l, o, t)) (e2, os) =
        (rw (e1, e2), (λ i lt. rw (o i lt, os i lt)))
    join (err a) q e1 y = (rw e1, (λ i lt. refl))

-- `push_row` on a batch without a selection: it fails as `coerce` does on one of the values, and
-- else the new batch has one row more, which is the row of coerced values. The other rows are as
-- before in either case.
abbrev pub Appended : ColumnBatch → List Value → Result (Unit {0}) × ColumnBatch → Type 0
Appended batch row (ok x, batch') =
    (ws : List Value) × (coerce_row batch.columns row ≡ ok ws)
    × (batch'.n_rows ≡ suc batch.n_rows)
    × (batch'.selection ≡ none)
    × AreColumns batch'.n_rows batch'.columns
    × (row_at batch' batch.n_rows ≡ returns ws)
    × ((i : ℕ) → i < batch.n_rows → row_at batch' i ≡ row_at batch i)
Appended batch row (err e, batch') =
    (coerce_row batch.columns row ≡ err e)
    × (batch'.n_rows ≡ batch.n_rows)
    × (batch'.selection ≡ none)
    × ((i : ℕ) → i < batch.n_rows → row_at batch' i ≡ row_at batch i)

pub push_row-Appended :
    (batch : ColumnBatch) (row : List Value)
    → batch.selection ≡ none
    → length row ≡ length batch.columns
    → AreColumns batch.n_rows batch.columns
    → Appended batch row (push_row batch row)
unfolding push_row row_at physical_for
push_row-Appended batch row plain e h =
    let same : (length row == length batch.columns) ≡ true = rw e (eq→== (length batch.columns)) in
    rw same (
      build (push_values batch.columns row)
        (push_values-Extended batch.n_rows batch.columns row e h))
  where
    build :
        (q : Result (Unit {0}) × List Column)
        → Extended batch.n_rows batch.columns row q
        → Appended batch row (count_row batch q)
    build (ok x, cs') (ws, e1, s, l, o, t) =
        (ws, e1, refl, plain, s, rw plain l, (λ i lt. rw plain (o i lt)))
    build (err b, cs') (e1, o) = (e1, refl, plain, (λ i lt. rw plain (o i lt)))
