-- ===== src/Engine/Aggregates/Extreme.antt =====
-- MIN and MAX of a column.
use prehnite_db.Prelude.{
  ℕ, ◌≡◌, refl, sym, ◌∙◌, true, false, Option, none, some, List, [], ◌∷◌, ◌++◌, All, ◌⊎◌, inl, inr,
  Ordering, arith, if◌then◌else◌, Bool-cases,
}
use prehnite_db.Bytes.{Bytes, cmp}
use prehnite_db.Bytes.Order.{and_then, cmp_refl, cmp_trans, cmp_between}
use prehnite_db.Real.{RealOps}
use prehnite_db.Outcome.{returns, ◌>>=◌, index}
use prehnite_db.Value.{ColumnType, Value, null}
use prehnite_db.Codec.IndexKeys.{encode_index_value}
use prehnite_db.Codec.IndexKeys.Order.{IsKeyValue, value_cmp, cmp-encode_index_value}
use prehnite_db.Sql.Ast.{AggregateFunc, min, max}
use prehnite_db.Engine.Scope.{Scope}
use prehnite_db.Engine.Eval.{is_null}
use prehnite_db.Engine.Join.{Row}
use prehnite_db.Engine.Sort.{order_values}
use prehnite_db.Engine.Sort.Keys.{OfType, order_values-value_cmp}
use prehnite_db.Engine.Aggregates.{
  extreme, for_slot, update, update_all, update_with, update_extreme, replaces, same_ordering,
  finalize,
}
use prehnite_db.Engine.Aggregates.Sum.{column_values, column_values-cons}

-- A value of a column, in the range of its type.
abbrev pub IsCell : ColumnType → Value → Type 0
IsCell t v = OfType t v × IsKeyValue v

and_then-eq : (p : Ordering) → and_then p Ordering.eq ≡ p
and_then-eq Ordering.lt = refl
and_then-eq Ordering.eq = refl
and_then-eq Ordering.gt = refl

abbrev key : Value → Bytes
key v = encode_index_value v ++ []

order_values-cmp :
    (t : ColumnType) (v w : Value)
    → IsCell t v
    → IsCell t w
    → order_values v w ≡ cmp (key v) (key w)
unfolding cmp
order_values-cmp t v w (ov, kv) (ow, kw) =
    order_values-value_cmp t v w ov ow kv kw
    ∙ sym (cmp-encode_index_value v w [] [] kv kw ∙ and_then-eq (value_cmp v w))

module _ (t : ColumnType) (want : Ordering) where
  order_values_trans :
      (u v w : Value)
      → IsCell t u
      → IsCell t v
      → IsCell t w
      → order_values u v ≡ want
      → order_values v w ≡ want
      → order_values u w ≡ want
  order_values_trans u v w cu cv cw h k =
      order_values-cmp t u w cu cw
      ∙ cmp_trans want (key u) (key v) (key w) (sym (order_values-cmp t u v cu cv) ∙ h)
          (sym (order_values-cmp t v w cv cw) ∙ k)

  order_values_between :
      (u v w : Value)
      → (want ≡ Ordering.eq → ⊥)
      → IsCell t u
      → IsCell t v
      → IsCell t w
      → order_values u w ≡ want
      → (order_values v w ≡ want → ⊥)
      → order_values u v ≡ want
  order_values_between u v w strict cu cv cw h k =
      order_values-cmp t u v cu cv
      ∙ cmp_between want (key u) (key v) (key w) strict (sym (order_values-cmp t u w cu cw) ∙ h)
          (λ e. k (order_values-cmp t v w cv cw ∙ e))

  -- A value that is NULL, or would not take the place of another.
  abbrev pub Unbeaten : Value → Value → Type 0
  Unbeaten m w = (is_null w ≡ true) ⊎ (order_values w m ≡ want → ⊥)

  abbrev pub Among : Value → List Value → Type 0
  Among v [] = ⊥
  Among v (w ∷ ws) = (v ≡ w) ⊎ Among v ws

  -- The best of some values: `none` where all are NULL.
  abbrev pub IsBest : Option Value → List Value → Type 0
  IsBest none vs = All (λ w. is_null w ≡ true) vs
  IsBest (some m) vs = (is_null m ≡ false) × IsCell t m × Among m vs × All (Unbeaten m) vs

  abbrev candidates : Option Value → List Value → List Value
  candidates none vs = vs
  candidates (some b) vs = b ∷ vs

  abbrev chosen : Option Value → Value → Option Value
  chosen best v = if is_null v then best else if replaces best want v then some v else best

  -- NULLs aside, the values that a comparison discards are no better than the one it keeps.
  null_aside :
      (best e : Option Value) (v : Value) (vs : List Value)
      → is_null v ≡ true
      → IsBest e (candidates best vs)
      → IsBest e (candidates best (v ∷ vs))
  null_aside none none v vs n h = (n, h)
  null_aside none (some m) v vs n (nm, cm, a, u) = (nm, cm, inr a, (inl n, u))
  null_aside (some b) none v vs n (hb, h) = (hb, (n, h))
  null_aside (some b) (some m) v vs n (nm, cm, inl a, (ub, u)) = (nm, cm, inl a, (ub, (inl n, u)))
  null_aside (some b) (some m) v vs n (nm, cm, inr a, (ub, u)) =
      (nm, cm, inr (inr a), (ub, (inl n, u)))

  same_ordering-eq : (o p : Ordering) → same_ordering o p ≡ true → o ≡ p
  same_ordering-eq o p h = ground arith

  same_ordering-ne : (o p : Ordering) → same_ordering o p ≡ false → o ≡ p → ⊥
  same_ordering-ne o p h e = ground arith

  -- Two values of which the comparison keeps one.
  replaced :
      (b v : Value) (e : Option Value) (vs : List Value)
      → IsCell t b
      → IsCell t v
      → is_null v ≡ false
      → order_values v b ≡ want
      → IsBest e (v ∷ vs)
      → IsBest e (b ∷ v ∷ vs)
  replaced b v none vs cb cv there o (n, _) = absurd (cc (n, there))
  replaced b v (some m) vs cb cv there o (nm, cm, a, (uv, u)) =
      let ub : Unbeaten m b = elim uv [
        | inl n ↦ absurd (cc (n, there))
        | inr k ↦ inr (λ bm. k (order_values_trans v b m cv cb cm o bm))
      ] in
      (nm, cm, inr a, (ub, (uv, u)))

  retained :
      (b v : Value) (e : Option Value) (vs : List Value)
      → (want ≡ Ordering.eq → ⊥)
      → IsCell t b
      → IsCell t v
      → is_null b ≡ false
      → (order_values v b ≡ want → ⊥)
      → IsBest e (b ∷ vs)
      → IsBest e (b ∷ v ∷ vs)
  retained b v none vs strict cb cv there o (n, _) = absurd (cc (n, there))
  retained b v (some m) vs strict cb cv there o (nm, cm, a, (ub, u)) =
      let uv : Unbeaten m v = elim ub [
        | inl n ↦ absurd (cc (n, there))
        | inr k ↦ inr (λ vm. o (order_values_between v b m strict cv cb cm vm k))
      ] in
      (nm, cm, elim a [ inl x ↦ inl x | inr x ↦ inr (inr x) ], (ub, (uv, u)))

  -- The best value so far, if there is one.
  abbrev IsCandidate : Option Value → Type 0
  IsCandidate none = Unit
  IsCandidate (some b) = (is_null b ≡ false) × IsCell t b

  chosen_lem :
      (best e : Option Value) (v : Value) (vs : List Value)
      → (want ≡ Ordering.eq → ⊥)
      → IsCandidate best
      → IsCell t v
      → IsBest e (candidates (chosen best v) vs)
      → IsBest e (candidates best (v ∷ vs))
  unfolding replaces
  chosen_lem none e v vs strict cb cv h = elim (Bool-cases (is_null v)) [
    | inl n ↦ null_aside none e v vs n (rw n at h)
    | inr there ↦ rw there at h
  ]
  chosen_lem (some b) e v vs strict (there_b, cb) cv h = elim (Bool-cases (is_null v)) [
    | inl n ↦ null_aside (some b) e v vs n (rw n at h)
    | inr there ↦ elim (Bool-cases (same_ordering (order_values v b) want)) [
      | inl r ↦
          replaced b v e vs cb cv there (same_ordering-eq (order_values v b) want r)
            (rw (there, r) at h)
      | inr r ↦
          retained b v e vs strict cb cv there_b (same_ordering-ne (order_values v b) want r)
            (rw (there, r) at h)
    ]
  ]

  chosen-IsCandidate :
      (best : Option Value) (v : Value)
      → IsCandidate best
      → IsCell t v
      → IsCandidate (chosen best v)
  unfolding replaces
  chosen-IsCandidate none v cb cv = elim (Bool-cases (is_null v)) [
    | inl n ↦ rw n tt
    | inr there ↦ rw there (there, cv)
  ]
  chosen-IsCandidate (some b) v cb cv = elim (Bool-cases (is_null v)) [
    | inl n ↦ rw n cb
    | inr there ↦ elim (Bool-cases (same_ordering (order_values v b) want)) [
      | inl r ↦ rw (there, r) (there, cv)
      | inr r ↦ rw (there, r) cb
    ]
  ]

  update_extreme-chosen :
      (best : Option Value) (v : Value) → update_extreme best want v ≡ extreme (chosen best v) want
  unfolding update_extreme
  update_extreme-chosen best v = elim (Bool-cases (is_null v)) [
    | inl n ↦ rw n refl
    | inr there ↦ rw there refl
  ]

  -- MIN replaces by what is less, MAX by what is greater.
  abbrev pub Wants : AggregateFunc → Type 0
  Wants min = want ≡ Ordering.lt
  Wants max = want ≡ Ordering.gt
  Wants func = ⊥

  update_with-chosen :
      (ops : RealOps) (func : AggregateFunc) (best : Option Value) (v : Value)
      → Wants func
      → update_with ops func (extreme best want) v ≡ returns (extreme (chosen best v) want)
  unfolding update_with
  update_with-chosen ops min best v w = rw (update_extreme-chosen best v) refl
  update_with-chosen ops max best v w = rw (update_extreme-chosen best v) refl
  update_with-chosen ops func best v w = absurd w

  Wants-strict : (func : AggregateFunc) → Wants func → want ≡ Ordering.eq → ⊥
  Wants-strict min w e = cc
  Wants-strict max w e = cc
  Wants-strict func w e = w

  for_slot-extreme :
      (func : AggregateFunc) (col : ℕ) (scope : Scope)
      → Wants func
      → for_slot (record { func = func; column = some col }) scope ≡ returns (extreme none want)
  unfolding for_slot
  for_slot-extreme min col scope w = rw w refl
  for_slot-extreme max col scope w = rw w refl
  for_slot-extreme func col scope w = absurd w

  -- A row with a cell of the type in the column.
  abbrev pub HasCell : ℕ → Row → Type 0
  HasCell col row = (v : Value) × (index row col ≡ returns v) × IsCell t v

  update_all-extreme :
      (ops : RealOps) (func : AggregateFunc) (col : ℕ) (rows : List Row) (best : Option Value)
      → Wants func
      → All (HasCell col) rows
      → IsCandidate best
      → (e : Option Value) × (update_all ops
            (extreme best want)
            (record { func = func; column = some col })
            rows
          ≡ returns (extreme e want))
        × IsBest e (candidates best (column_values col rows))
  unfolding update_all update
  update_all-extreme ops func col [] none w h cb = (none, refl, tt)
  update_all-extreme ops func col [] (some b) w h (there, cb) =
      let same = order_values-cmp t b b cb cb ∙ cmp_refl (key b) in
      let self : Unbeaten b b = inr (λ eb. Wants-strict func w (sym eb ∙ same)) in
      (some b, refl, (there, cb, inl refl, (self, tt)))
  update_all-extreme ops func col (row ∷ rows) best w ((v, ev, cv), h) cb =
      let next = chosen-IsCandidate best v cb cv in
      let (e, ee, be) = update_all-extreme ops func col rows (chosen best v) w h next in
      (
        e,
        rw (ev, update_with-chosen ops func best v w) ee,
        rw (column_values-cons col row rows ev)
            (chosen_lem best e v (column_values col rows) (Wants-strict func w) cb cv be),
      )

  -- MIN or MAX over a column that all rows have, with values of one type or NULL: the aggregate
  -- returns. Its result is one of the values that is not NULL, and no value that is not NULL is
  -- less (for MIN) or greater (for MAX) than it; where all are NULL, or there are none, it is NULL.
  pub extreme-IsBest :
      (ops : RealOps) (func : AggregateFunc) (scope : Scope) (col : ℕ) (rows : List Row)
      → Wants func
      → All (HasCell col) rows
      → (e : Option Value) × ((do
        start ← for_slot (record { func = func; column = some col }) scope
        end ← update_all ops start (record { func = func; column = some col }) rows
        returns (finalize ops end))
          ≡ returns (elim e [ some v ↦ v | none ↦ null ]))
        × IsBest e (column_values col rows)
  unfolding finalize
  extreme-IsBest ops func scope col rows w h =
      let (e, ee, be) = update_all-extreme ops func col rows none w h tt in
      (e, rw (for_slot-extreme func col scope w, ee) refl, be)
