-- ===== src/Engine/Columnar/Agreement.antt =====
-- The columnwise evaluation of a whole expression agrees with its evaluation row by row.
use prehnite_db.Prelude.{
  ℕ, zero, suc, ◌+◌, ◌≤◌, ◌<◌, ◌^◌, ◌≡◌, refl, false, not, Option, none, some, List, [], ◌∷◌, map,
  length, All, if◌then◌else◌, arith, ap, sym, ◌∙◌,
}
use mathlib.Core.Path.{subst}
use prehnite_db.Prelude.Int.{ℤ, pos}
use prehnite_db.Prelude.Int.Checked.{checked_neg}
use prehnite_db.Real.{RealOps}
use prehnite_db.Real
use prehnite_db.Outcome.{Outcome, returns, ◌>>=◌, index, >>=-eq-returns, returns_inj}
use prehnite_db.Value.{Value, null, int, real, text, bool}
use prehnite_db.Sql.Ast.{UnaryOp, neg, not_op}
use prehnite_db.Engine.Eval.{eval_unary, or_overflow}
use prehnite_db.Engine.Batch.{
  NullMask, no_rows, is_valid, push, Column, int_column, real_column, text_column, bool_column,
  cell, value_at, ColumnBatch, values_at,
}
use prehnite_db.Engine.Batch.Mask.{
  IsMask, bit_at, is_valid-bit_at, no_rows-IsMask, push-IsMask, bit_at-push, push-rows,
}
use prehnite_db.Engine.Batch.Columns.{IsColumn, AreColumns}
use prehnite_db.Engine.Columnar.{
  unary_columnar, negate_values, gather_cell, gather_column, materialise_column, broadcast_null,
  push_nulls,
}
use prehnite_db.Engine.Columnar.Loops.{slot_lem, length-replicate}
use prehnite_db.Engine.Columnar.Rows.{
  Reads, one, gather-row, bool-Reads, int-Reads, real-Reads, text-Reads,
}

abbrev pub Selected : ℕ → ℕ → Option (List ℕ) → Type 0
Selected p n none = n ≡ p
Selected p n (some sel) = (length sel ≡ n) × All (λ i. i < p) sel

-- Columns of `p` rows, and a selection of some of them. A selection holds `u32`.
pub record IsBatch (p : ℕ) (batch : ColumnBatch) : Type 0 where
  pub columns : AreColumns p batch.columns
  pub selected : Selected p batch.n_rows batch.selection
  pub small : p ≤ 2 ^ 32

abbrev pub physical : Option (List ℕ) → ℕ → Outcome ℕ
physical (some sel) i = index sel i
physical none i = returns i

gather-Reads :
    (c : Column) (sel : List ℕ) (n : ℕ) {col : Column}
    → length sel ≡ n
    → gather_column c sel ≡ returns col
    → Reads n col (λ i. index sel i >>= λ p. value_at c p)
unfolding gather_column value_at
gather-Reads (int_column xs m) sel n h e =
    int-Reads (gather_cell xs m sel) (λ i. index sel i >>= λ p. cell int xs m p) n
      (λ i _ c eb. gather-row int xs m sel i c eb) (rw (sym h) e)
gather-Reads (real_column xs m) sel n h e =
    real-Reads (gather_cell xs m sel) (λ i. index sel i >>= λ p. cell real xs m p) n
      (λ i _ c eb. gather-row real xs m sel i c eb) (rw (sym h) e)
gather-Reads (text_column xs m) sel n h e =
    text-Reads (gather_cell xs m sel) (λ i. index sel i >>= λ p. cell text xs m p) n
      (λ i _ c eb. gather-row text xs m sel i c eb) (rw (sym h) e)
gather-Reads (bool_column xs m) sel n h e =
    bool-Reads (gather_cell xs m sel) (λ i. index sel i >>= λ p. cell bool xs m p) n
      (λ i _ c eb. gather-row bool xs m sel i c eb) (rw (sym h) e)

pub materialise-Reads :
    (p n : ℕ) (c : Column) (s : Option (List ℕ)) {col : Column}
    → IsColumn p c
    → Selected p n s
    → materialise_column c s ≡ returns col
    → Reads n col (λ i. physical s i >>= λ k. value_at c k)
unfolding materialise_column
materialise-Reads p n c none h e m =
    subst (λ d. Reads n d (λ i. value_at c i)) (returns_inj m) (rw e h, λ i below. refl)
materialise-Reads p n c (some sel) h (e, _) m = gather-Reads c sel n e m

pub index-AreColumns :
    (p : ℕ) (cs : List Column) (i : ℕ) {c : Column}
    → AreColumns p cs
    → index cs i ≡ returns c
    → IsColumn p c
index-AreColumns p [] i h e = cc
index-AreColumns p (d ∷ cs) zero (h, hs) e = subst (IsColumn p) (returns_inj e) h
index-AreColumns p (d ∷ cs) (suc i) (h, hs) e = index-AreColumns p cs i hs e

pub values_at-index :
    (cs : List Column) (k idx : ℕ) {row : List Value} {c : Column}
    → values_at cs k ≡ returns row
    → index cs idx ≡ returns c
    → index row idx ≡ value_at c k
unfolding values_at
values_at-index [] k idx e h = cc
values_at-index (d ∷ cs) k idx {row} {c} e h =
    let (v, ev, e') =
      >>=-eq-returns (value_at d k) (λ v. values_at cs k >>= λ vs. returns (v ∷ vs)) e in
    let (vs, es, er) = >>=-eq-returns (values_at cs k) (λ vs. returns (v ∷ vs)) e' in
    let rest = λ (i : ℕ) (h : index cs i ≡ returns c). values_at-index cs k i es h in
    subst (λ r. index r idx ≡ value_at c k) (returns_inj er) (at_head idx v vs ev rest h)
  where
    at_head :
        (i : ℕ) (v : Value) (vs : List Value)
        → value_at d k ≡ returns v
        → ((i : ℕ) → index cs i ≡ returns c → index vs i ≡ value_at c k)
        → index (d ∷ cs) i ≡ returns c
        → index (v ∷ vs) i ≡ value_at c k
    at_head zero v vs ev rest h = subst (λ b. returns v ≡ value_at b k) (returns_inj h) (sym ev)
    at_head (suc i) v vs ev rest h = rest i h

index-map {ℓ} :
    {A : Type ℓ} (f : A → A) (xs : List A) (i : ℕ) {x : A}
    → index xs i ≡ returns x
    → index (map f xs) i ≡ returns (f x)
index-map f [] i e = cc
index-map f (y ∷ xs) zero e = ap (λ z. returns (f z)) (returns_inj e)
index-map f (y ∷ xs) (suc i) e = index-map f xs i e

length-map {ℓ} : {A : Type ℓ} (f : A → A) (xs : List A) → length (map f xs) ≡ length xs
length-map f [] = refl
length-map f (x ∷ xs) = ap suc (length-map f xs)

-- What the loop over an INT column puts in a slot.
abbrev negated_slot : NullMask → ℕ → ℤ → Outcome ℤ
negated_slot m i v =
    is_valid m i >>= λ valid. if valid then or_overflow (checked_neg v) else returns (pos 0)

abbrev Negated : NullMask → ℕ → List ℤ → List ℤ → Type 0
Negated m i [] [] = Unit
Negated m i (v ∷ vs) (w ∷ ws) = (negated_slot m i v ≡ returns w) × Negated m (suc i) vs ws
Negated m i vs ws = ⊥

negate_values-Negated :
    (vs : List ℤ) (m : NullMask) (i : ℕ) (out : List ℤ)
    → negate_values vs m i ≡ returns out
    → Negated m i vs out
unfolding negate_values
negate_values-Negated [] m i [] e = tt
negate_values-Negated [] m i (w ∷ ws) e = cc
negate_values-Negated (v ∷ vs) m i out e =
    let (b, eb, e1) =
      >>=-eq-returns (is_valid m i)
        (λ valid. (if valid then or_overflow (checked_neg v) else returns (pos 0)) >>= λ w.
          negate_values vs m (suc i) >>= λ ws. returns (w ∷ ws))
        e in
    let (w, ew, e2) =
      >>=-eq-returns (if b then or_overflow (checked_neg v) else returns (pos 0))
        (λ w. negate_values vs m (suc i) >>= λ ws. returns (w ∷ ws)) e1 in
    let (ws, es, e3) = >>=-eq-returns (negate_values vs m (suc i)) (λ ws. returns (w ∷ ws)) e2 in
    subst (Negated m i (v ∷ vs)) (returns_inj e3)
      (rw (eb, ◌>>=◌) ew, negate_values-Negated vs m (suc i) ws es)

Negated-index :
    (m : NullMask) (i : ℕ) (vs ws : List ℤ) (j : ℕ) (v : ℤ)
    → Negated m i vs ws
    → index vs j ≡ returns v
    → (w : ℤ) × (index ws j ≡ returns w) × (negated_slot m (i + j) v ≡ returns w)
Negated-index m i [] ws j v n e = cc
Negated-index m i (x ∷ vs) [] j v n e = absurd n
Negated-index m i (x ∷ vs) (w ∷ ws) zero v (h, n) e =
    let here : i ≡ i + 0 = omega arith in (w, refl, rw (sym here, sym (returns_inj e)) h)
Negated-index m i (x ∷ vs) (w ∷ ws) (suc j) v (h, n) e =
    let (u, eu, en) = Negated-index m (suc i) vs ws j v n e in
    let moved : i + suc j ≡ suc i + j = omega arith in (u, eu, rw moved en)

Negated-length : (m : NullMask) (i : ℕ) (vs ws : List ℤ) → Negated m i vs ws → length ws ≡ length vs
Negated-length m i [] [] n = refl
Negated-length m i [] (w ∷ ws) n = absurd n
Negated-length m i (v ∷ vs) [] n = absurd n
Negated-length m i (v ∷ vs) (w ∷ ws) (h, n) = ap suc (Negated-length m (suc i) vs ws n)

pub unary-Reads :
    (op : UnaryOp) (n : ℕ) (operand : Column) {col : Column}
    → IsColumn n operand
    → unary_columnar op operand ≡ returns col
    → Reads n col (one operand (eval_unary op))
unfolding unary_columnar value_at cell eval_unary
unary-Reads neg n (int_column xs m) s e =
    let (out, eo, ec) =
      >>=-eq-returns (negate_values xs m 0) (λ out. returns (int_column out m)) e in
    let neg_all = negate_values-Negated xs m 0 out eo in
    subst (λ c. Reads n c (one (int_column xs m) (eval_unary neg))) (returns_inj ec)
      (
        (Negated-length m 0 xs out neg_all ∙ s.0, s.1, s.2),
        λ i below.
            let (x, ex, vx) = slot_lem n xs m i s below in
            let (w, ew, en) = Negated-index m 0 xs out i x neg_all ex in
            let start : 0 + i ≡ i = omega arith in negated out i x w ex vx ew (rw start at en),
      )
  where
    negated :
        (out : List ℤ) (i : ℕ) (x w : ℤ)
        → index xs i ≡ returns x
        → is_valid m i ≡ returns (bit_at m i)
        → index out i ≡ returns w
        → negated_slot m i x ≡ returns w
        → value_at (int_column out m) i ≡ one (int_column xs m) (eval_unary neg) i
    negated out i x w ex vx ew en = ground arith
unary-Reads neg n (real_column xs m) s e =
    subst (λ c. Reads n c (one (real_column xs m) (eval_unary neg))) (returns_inj e)
      (
        (length-map Real.neg xs ∙ s.0, s.1, s.2),
        λ i below.
            let (x, ex, vx) = slot_lem n xs m i s below in
            let ew = index-map Real.neg xs i ex in ground arith,
      )
unary-Reads neg n (text_column xs m) s e = cc
unary-Reads neg n (bool_column xs m) s e = cc
unary-Reads not_op n (bool_column xs m) s e =
    subst (λ c. Reads n c (one (bool_column xs m) (eval_unary not_op))) (returns_inj e)
      (
        (length-map not xs ∙ s.0, s.1, s.2),
        λ i below.
            let (x, ex, vx) = slot_lem n xs m i s below in
            let ew = index-map not xs i ex in ground arith,
      )
unary-Reads not_op n (int_column xs m) s e = cc
unary-Reads not_op n (real_column xs m) s e = cc
unary-Reads not_op n (text_column xs m) s e = cc

push_nulls_lem :
    (n : ℕ) (m : NullMask)
    → IsMask m
    → ((i : ℕ) → bit_at m i ≡ false)
    → IsMask (push_nulls n m)
      × (NullMask.n_rows (push_nulls n m) ≡ m.n_rows + n)
      × ((i : ℕ) → bit_at (push_nulls n m) i ≡ false)
unfolding push_nulls
push_nulls_lem zero m h f = (h, omega arith, f)
push_nulls_lem (suc n) m h f =
    let (h', e, f') =
      push_nulls_lem n (push m false) (push-IsMask m false h)
        (λ i. rw (bit_at-push m false i h) (ground (arith, f i))) in
    (h', omega (arith, push-rows m false), f')

pub null-Reads : (n : ℕ) → Reads n (broadcast_null n) (λ i. returns null)
unfolding broadcast_null value_at cell
null-Reads n =
    let (h, e, f) =
      push_nulls_lem n no_rows no_rows-IsMask (λ i. no_rows-IsMask.clear i (omega arith)) in
    (
      (length-replicate n false, e ∙ omega arith, h),
      λ i below.
          let valid = is_valid-bit_at (push_nulls n no_rows) i h (omega (arith, e)) in
          rw (valid, f i) refl,
    )
