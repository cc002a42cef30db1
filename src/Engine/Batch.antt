-- ===== src/Engine/Batch.antt =====
-- crates/prehnitedb/src/engine/batch.rs: batches of rows, laid out by columns with packed null masks.
pub mod Mask
pub mod Columns
use prehnite_db.Prelude.{
  ℕ, zero, suc, ◌+◌, ◌-◌, ◌*◌, ◌/◌, ◌%◌, ◌^◌, Bool, true, false, Option, none, some, List, [], ◌∷◌,
  ◌++◌, map, length, leb, ◌==◌, if◌then◌else◌, Error, exec, corruption, Result, ok, err, ◌>>=◌,
}
use prehnite_db.Prelude.Int.{ℤ, pos}
use prehnite_db.Bytes.{Bytes}
use prehnite_db.Outcome.{Outcome, returns, panics, index}
use prehnite_db.Outcome
use prehnite_db.Value.{
  ColumnType, int_type, real_type, text_type, bool_type, Value, null, int, real, text, bool,
  int_to_real,
}

-- `(w >> k) & 1 == 1`
unfoldable pub read_bit : ℕ → ℕ → Bool
read_bit zero w = w % 2 == 1
read_bit (suc k) w = read_bit k (w / 2)

-- `w | 1 << k`
unfoldable pub or_bit : ℕ → ℕ → ℕ
or_bit zero w = if w % 2 == 1 then w else w + 1
or_bit (suc k) w = w % 2 + 2 * or_bit k (w / 2)

module _ {ℓ} {A : Type ℓ} where
  abbrev pub replicate : ℕ → A → List A
  replicate zero a = []
  replicate (suc n) a = a ∷ replicate n a

  -- The element at a position changed; past the end nothing is.
  abbrev pub modify : List A → ℕ → (A → A) → List A
  modify [] i f = []
  modify (x ∷ xs) zero f = f x ∷ xs
  modify (x ∷ xs) (suc i) f = x ∷ modify xs i f

pub record NullMask : Type 0 where
  pub bits : List ℕ
  pub n_rows : ℕ

-- `with_capacity`, whose capacity is no part of the value.
abbrev pub no_rows : NullMask
no_rows = record { bits = []; n_rows = 0 }

unfoldable pub all_valid : ℕ → NullMask
all_valid n =
    let words = (n + 63) / 64 in
    let full = replicate words (2 ^ 64 - 1) in
    record {
      bits = if n % 64 == 0 then full else modify full (words - 1) (λ _. 2 ^ (n % 64) - 1);
      n_rows = n;
    }

unfoldable pub push : NullMask → Bool → NullMask
unfolding or_bit
push m valid =
    let word = m.n_rows / 64 in
    let grown = if leb (length m.bits) word then m.bits ++ 0 ∷ [] else m.bits in
    record {
      bits = if valid then modify grown word (or_bit (m.n_rows % 64)) else grown;
      n_rows = m.n_rows + 1;
    }

unfoldable pub is_valid : NullMask → ℕ → Outcome Bool
unfolding read_bit
is_valid m i = Outcome.◌>>=◌ (index m.bits (i / 64)) λ w. returns (read_bit (i % 64) w)

pub data Column : Type 0 where
  int_column : List ℤ → NullMask → Column
  real_column : List ℕ → NullMask → Column
  text_column : List Bytes → NullMask → Column
  bool_column : List Bool → NullMask → Column

unfoldable pub empty : ColumnType → Column
empty int_type = int_column [] no_rows
empty real_type = real_column [] no_rows
empty text_type = text_column [] no_rows
empty bool_type = bool_column [] no_rows

abbrev pub nulls : Column → NullMask
nulls (int_column values m) = m
nulls (real_column values m) = m
nulls (text_column values m) = m
nulls (bool_column values m) = m

abbrev pub len : Column → ℕ
len c = (nulls c).n_rows

abbrev pub ty : Column → ColumnType
ty (int_column values m) = int_type
ty (real_column values m) = real_type
ty (text_column values m) = text_type
ty (bool_column values m) = bool_type

unfoldable pub push_value : Column → Value → Result Column
push_value (int_column values m) (int n) = ok (int_column (values ++ n ∷ []) (push m true))
push_value (int_column values m) null = ok (int_column (values ++ pos 0 ∷ []) (push m false))
push_value (real_column values m) (real r) = ok (real_column (values ++ r ∷ []) (push m true))
push_value (real_column values m) (int n) =
    ok (real_column (values ++ int_to_real n ∷ []) (push m true))
push_value (real_column values m) null = ok (real_column (values ++ 0 ∷ []) (push m false))
push_value (text_column values m) (text s) = ok (text_column (values ++ s ∷ []) (push m true))
push_value (text_column values m) null = ok (text_column (values ++ [] ∷ []) (push m false))
push_value (bool_column values m) (bool b) = ok (bool_column (values ++ b ∷ []) (push m true))
push_value (bool_column values m) null = ok (bool_column (values ++ false ∷ []) (push m false))
push_value column other = err exec

-- The typed slot, read only where the mask is set.
unfoldable pub cell {ℓ} : {A : Type ℓ} → (A → Value) → List A → NullMask → ℕ → Outcome Value
cell make values m i =
    Outcome.◌>>=◌ (is_valid m i) λ valid.
      if valid then (Outcome.◌>>=◌ (index values i) λ v. returns (make v)) else returns null

unfoldable pub value_at : Column → ℕ → Outcome Value
unfolding cell
value_at (int_column values m) i = cell int values m i
value_at (real_column values m) i = cell real values m i
value_at (text_column values m) i = cell text values m i
value_at (bool_column values m) i = cell bool values m i

pub record ColumnBatch : Type 0 where
  pub columns : List Column
  pub n_rows : ℕ
  pub selection : Option (List ℕ)

unfoldable pub with_types : List ColumnType → ColumnBatch
with_types types = record { columns = map empty types; n_rows = 0; selection = none }

-- One round of the loop of `push_row`, where `rest` is what the later rounds make of `cs`.
abbrev pub push_next :
    Column
    → List Column
    → Result Column
    → Result (Unit {0}) × List Column
    → Result (Unit {0}) × List Column
push_next c cs (ok c') rest = (rest.0, c' ∷ rest.1)
push_next c cs (err e) rest = (err e, c ∷ cs)

-- The loop over the columns and the values. Where a value is refused, the columns before it have
-- taken theirs.
unfoldable pub push_values : List Column → List Value → Result (Unit {0}) × List Column
push_values [] [] = (ok tt, [])
push_values (c ∷ cs) (v ∷ vs) = push_next c cs (push_value c v) (push_values cs vs)
push_values cs vs = (ok tt, cs)

abbrev pub count_row :
    ColumnBatch → Result (Unit {0}) × List Column → Result (Unit {0}) × ColumnBatch
count_row batch (ok x, columns') =
    (ok x, record batch { columns = columns'; n_rows = suc batch.n_rows })
count_row batch (err e, columns') = (err e, record batch { columns = columns' })

-- The result beside the batch that the call leaves.
unfoldable pub push_row : ColumnBatch → List Value → Result (Unit {0}) × ColumnBatch
push_row batch row =
    if length row == length batch.columns
    then count_row batch (push_values batch.columns row)
    else (err corruption, batch)

unfoldable pub physical_for : ColumnBatch → ℕ → Outcome ℕ
physical_for batch logical = elim batch.selection [
  | some sel ↦ index sel logical
  | none ↦ returns logical
]

unfoldable pub values_at : List Column → ℕ → Outcome (List Value)
values_at [] i = returns []
values_at (c ∷ cs) i =
    Outcome.◌>>=◌ (value_at c i) λ v. Outcome.◌>>=◌ (values_at cs i) λ vs. returns (v ∷ vs)

unfoldable pub row_at : ColumnBatch → ℕ → Outcome (List Value)
row_at batch i = Outcome.◌>>=◌ (physical_for batch i) λ physical. values_at batch.columns physical
