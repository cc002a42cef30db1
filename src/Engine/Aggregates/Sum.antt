-- ===== src/Engine/Aggregates/Sum.antt =====
-- SUM and COUNT of a column.
use prehnite_db.Prelude.{
  ℕ, ◌<◌, ◌≡◌, refl, Bool, true, false, ◌&&◌, ◌||◌, none, some, List, [], ◌∷◌, length, All, exec,
  if◌then◌else◌, Bool-cases, inl, inr,
}
use prehnite_db.Prelude.Int.{ℤ, pos}
use prehnite_db.Prelude.Int.Checked.{◌+ℤ◌, checked_add, is_i64, in_range}
use prehnite_db.Real.{RealOps}
use prehnite_db.Outcome.{Outcome, returns, raises, ◌>>=◌, index, index-lt}
use prehnite_db.Value.{int_type, Value, null, int, real, text, bool}
use prehnite_db.Sql.Ast.{sum}
use prehnite_db.Engine.Scope.{Scope, column_type}
use prehnite_db.Engine.Join.{Row}
use prehnite_db.Engine.Aggregates.{
  AggregateSlot, AggregateState, sum_int, for_slot, update, update_all, update_with, update_sum_int,
  finalize,
}

-- The values of a column, where it exists.
abbrev pub column_values : ℕ → List Row → List Value
column_values col [] = []
column_values col (row ∷ rows) =
    let rest = column_values col rows in elim (index row col) [ returns v ↦ v ∷ rest | _ ↦ rest ]

pub column_values-cons :
    (col : ℕ) (row : Row) (rows : List Row) {v : Value}
    → index row col ≡ returns v
    → column_values col (row ∷ rows) ≡ v ∷ column_values col rows
column_values-cons col row rows e = rw (column_values, e) refl

abbrev pub ints : List Value → List ℤ
ints [] = []
ints (v ∷ vs) = let rest = ints vs in elim v [ int n ↦ n ∷ rest | _ ↦ rest ]

abbrev pub total : ℤ → List ℤ → ℤ
total t [] = t
total t (n ∷ ns) = total (t +ℤ n) ns

-- Whether every total on the way is an `i64`.
abbrev pub fits : ℤ → List ℤ → Bool
fits t [] = true
fits t (n ∷ ns) = is_i64 (t +ℤ n) && fits (t +ℤ n) ns

abbrev pub some_of {ℓ} : {A : Type ℓ} → List A → Bool
some_of [] = false
some_of (x ∷ xs) = true

abbrev pub sum_slot : ℕ → AggregateSlot
sum_slot col = record { func = sum; column = some col }

abbrev pub HasColumn : ℕ → Row → Type 0
HasColumn col row = col < length row

-- The state of a SUM after some values.
abbrev summed : ℤ → Bool → List ℤ → Outcome AggregateState
summed t seen ns =
    if fits t ns then returns (sum_int (total t ns) (seen || some_of ns)) else raises exec

added :
    (m : ℤ)
    → (elim (in_range m) [ some m' ↦ returns (sum_int m' true) | none ↦ raises exec ])
      ≡ (if is_i64 m then returns (sum_int m true) else raises exec)
added m = elim (Bool-cases (is_i64 m)) [ inl e ↦ rw e refl | inr e ↦ rw e refl ]

update_sum_int-int :
    (t : ℤ) (seen : Bool) (n : ℤ)
    → update_sum_int t seen (int n)
      ≡ (if is_i64 (t +ℤ n) then returns (sum_int (t +ℤ n) true) else raises exec)
unfolding update_sum_int checked_add ◌+ℤ◌
update_sum_int-int t seen n = added (t +ℤ n)

or_true : (b : Bool) → (b || true) ≡ true
or_true true = refl
or_true false = refl

or_false : (b : Bool) → (b || false) ≡ b
or_false true = refl
or_false false = refl

summed_int :
    (ops : RealOps) (slot : AggregateSlot) (rows : List Row) (ns : List ℤ) (t : ℤ) (seen : Bool)
    (n : ℤ)
    → update_all ops (sum_int (t +ℤ n) true) slot rows ≡ summed (t +ℤ n) true ns
    → (update_sum_int t seen (int n) >>= λ state. update_all ops state slot rows)
      ≡ summed t seen (n ∷ ns)
summed_int ops slot rows ns t seen n rest =
    rw (update_sum_int-int t seen n) (elim (Bool-cases (is_i64 (t +ℤ n))) [
      | inl e ↦ rw (e, or_true seen) rest
      | inr e ↦ rw e refl
    ])

-- One more row, whose value in the column is given.
summed_value :
    (ops : RealOps) (col : ℕ) (rows : List Row) (vs : List Value) (t : ℤ) (seen : Bool) (v : Value)
    → ((t' : ℤ) (seen' : Bool)
        → update_all ops (sum_int t' seen') (sum_slot col) rows ≡ summed t' seen' (ints vs))
    → (update_sum_int t seen v >>= λ state. update_all ops state (sum_slot col) rows)
      ≡ summed t seen (ints (v ∷ vs))
unfolding update_sum_int
summed_value ops col rows vs t seen (int n) rest =
    summed_int ops (sum_slot col) rows (ints vs) t seen n (rest (t +ℤ n) true)
summed_value ops col rows vs t seen null rest = rest t seen
summed_value ops col rows vs t seen (real r) rest = rest t seen
summed_value ops col rows vs t seen (text s) rest = rest t seen
summed_value ops col rows vs t seen (bool b) rest = rest t seen

update_all-sum_int :
    (ops : RealOps) (col : ℕ) (rows : List Row) (t : ℤ) (seen : Bool)
    → All (HasColumn col) rows
    → update_all ops (sum_int t seen) (sum_slot col) rows
      ≡ summed t seen (ints (column_values col rows))
unfolding update_all update update_with
update_all-sum_int ops col [] t seen h = rw (or_false seen) refl
update_all-sum_int ops col (row ∷ rows) t seen (h, hs) =
    let (v, ev) = index-lt row col h in
    rw (column_values-cons col row rows ev, ev)
      (summed_value ops col rows (column_values col rows) t seen v
        (λ t' seen'. update_all-sum_int ops col rows t' seen' hs))

finalize-summed :
    (ops : RealOps) (ns : List ℤ)
    → (summed (pos 0) false ns >>= λ end. returns (finalize ops end)) ≡ (
        if fits (pos 0) ns
        then returns (if some_of ns then int (total (pos 0) ns) else null)
        else raises exec)
unfolding finalize
finalize-summed ops ns = elim (Bool-cases (fits (pos 0) ns)) [
  | inl e ↦ rw e refl
  | inr e ↦ rw e refl
]

-- SUM over a column of type INT that all rows have: if each running total of its integers is an
-- `i64`, the result is their sum, or NULL if there is none; else the aggregate fails. NULLs do not
-- count.
pub sum-total :
    (ops : RealOps) (scope : Scope) (col : ℕ) (rows : List Row)
    → column_type scope col ≡ returns int_type
    → All (HasColumn col) rows
    → (do
      start ← for_slot (sum_slot col) scope
      end ← update_all ops start (sum_slot col) rows
      returns (finalize ops end))
      ≡ (let ns = ints (column_values col rows) in
          if fits (pos 0) ns
          then returns (if some_of ns then int (total (pos 0) ns) else null)
          else raises exec)
unfolding for_slot
sum-total ops scope col rows ty h =
    rw (ty, update_all-sum_int ops col rows (pos 0) false h)
      (finalize-summed ops (ints (column_values col rows)))
