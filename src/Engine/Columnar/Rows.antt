-- ===== src/Engine/Columnar/Rows.antt =====
-- The columnwise evaluation agrees with the evaluation row by row.
use prehnite_db.Prelude.{ℕ, ◌<◌, ◌≡◌, refl, Bool, List, [], arith, sym, ◌∙◌}
use mathlib.Core.Path.{subst}
use prehnite_db.Prelude.Int.{ℤ}
use prehnite_db.Bytes.{Bytes}
use prehnite_db.Real.{RealOps}
use prehnite_db.Outcome.{Outcome, returns, ◌>>=◌, index, >>=-eq-returns, returns_inj}
use prehnite_db.Value.{Value, int, real, text, bool}
use prehnite_db.Sql.Ast.{
  Exprs, BinaryOp, add, sub, mul, div, eq, not_eq, lt, lt_eq, gt, gt_eq, and, or,
}
use prehnite_db.Engine.Eval.{
  as_number, as_bool, conjunction, disjunction, logic, arithmetic, compare_op, eval_binary,
  negate_if, differs, is_null, eval_in_list,
}
use prehnite_db.Engine.Batch.{
  NullMask, no_rows, Column, int_column, real_column, text_column, bool_column, nulls, len, cell,
  value_at,
}
use prehnite_db.Engine.Batch.Columns.{Slots, IsColumn}
use prehnite_db.Engine.Columnar.{
  fill, fill_column, int_int_cell, column_as_real, compare_cell, logic_cell, logic_columnar,
  compare_columnar, is_null_cell, is_null_columnar, gather_cell, real_real_cell, arith_real_real,
  arithmetic_columnar, binary_columnar, in_list_cell,
}
use prehnite_db.Engine.Columnar.Loops.{shown, fill_all, slot_lem}

-- `col` has `n` rows, and row `i` holds what `g i` returns.
abbrev pub Reads : ℕ → Column → (ℕ → Outcome Value) → Type 0
Reads n col g = IsColumn n col × ((i : ℕ) → i < n → value_at col i ≡ g i)

module _ {A : Type 0} (mk : List A → NullMask → Column) (make : A → Value) where
  fill-Reads :
      ((n : ℕ) (xs : List A) (m : NullMask) → Slots n xs m → IsColumn n (mk xs m))
      → ((xs : List A) (m : NullMask) (i : ℕ) → value_at (mk xs m) i ≡ cell make xs m i)
      → (body : ℕ → Outcome (A × Bool)) (g : ℕ → Outcome Value) (n : ℕ) {col : Column}
      → ((i : ℕ) → i < n → (c : A × Bool) → body i ≡ returns c → g i ≡ returns (shown make c))
      → fill_column mk body n ≡ returns col
      → Reads n col g
  fill-Reads is view body g n {col} row e =
      let (r, er, ec) = >>=-eq-returns (fill body n 0 [] no_rows) (λ r. returns (mk r.0 r.1)) e in
      let (s, rows) = fill_all make body n er in
      subst (λ c. Reads n c g) (returns_inj ec)
        (
          is n r.0 r.1 s,
          λ i below. let (c, eb, ev) = rows i below in view r.0 r.1 i ∙ ev ∙ sym (row i below c eb),
        )

pub bool-Reads :
    (body : ℕ → Outcome (Bool × Bool)) (g : ℕ → Outcome Value) (n : ℕ) {col : Column}
    → ((i : ℕ) → i < n → (c : Bool × Bool) → body i ≡ returns c → g i ≡ returns (shown bool c))
    → fill_column bool_column body n ≡ returns col
    → Reads n col g
unfolding value_at
bool-Reads = fill-Reads bool_column bool (λ n xs m s. s) (λ xs m i. refl)

-- Both operands of a row, if they are there.
abbrev pub both : Column → Column → (Value → Value → Outcome Value) → ℕ → Outcome Value
both left right f i = do x ← value_at left i; y ← value_at right i; f x y

compare-Reads :
    (op : BinaryOp) (n : ℕ) (left right : Column) {col : Column}
    → len left ≡ n
    → compare_columnar op left right ≡ returns col
    → Reads n col (both left right (compare_op op))
unfolding compare_columnar
compare-Reads op n left right h e =
    bool-Reads (compare_cell op left right) (both left right (compare_op op)) n row (rw (sym h) e)
  where
    row :
        (i : ℕ)
        → i < n
        → (c : Bool × Bool) → compare_cell op left right i ≡ returns c
        → both left right (compare_op op) i ≡ returns (shown bool c)
    row i below c eb = unfold compare_cell in ground arith

logic-row :
    (op : BinaryOp) (n : ℕ) (lv : List Bool) (ln : NullMask) (rv : List Bool) (rn : NullMask)
    (i : ℕ)
    → Slots n lv ln
    → Slots n rv rn
    → i < n
    → (c : Bool × Bool) → logic_cell op lv ln rv rn i ≡ returns c
    → both (bool_column lv ln) (bool_column rv rn) (logic op) i ≡ returns (shown bool c)
unfolding logic_cell logic as_bool conjunction disjunction value_at cell
logic-row op n lv ln rv rn i sl sr below c e =
    let (x, ex, vx) = slot_lem n lv ln i sl below in
    let (y, ey, vy) = slot_lem n rv rn i sr below in ground arith

int_int-row :
    (op : BinaryOp) (n : ℕ) (lv : List ℤ) (ln : NullMask) (rv : List ℤ) (rn : NullMask) (i : ℕ)
    → Slots n lv ln
    → Slots n rv rn
    → i < n
    → (ops : RealOps) (c : ℤ × Bool) → int_int_cell op lv ln rv rn i ≡ returns c
    → both (int_column lv ln) (int_column rv rn) (arithmetic ops op) i ≡ returns (shown int c)
unfolding int_int_cell arithmetic value_at cell
int_int-row op n lv ln rv rn i sl sr below ops c e =
    let (x, ex, vx) = slot_lem n lv ln i sl below in
    let (y, ey, vy) = slot_lem n rv rn i sr below in ground arith

int_real-row :
    (ops : RealOps) (op : BinaryOp) (n : ℕ) (lv : List ℤ) (ln : NullMask) (rv : List ℕ)
    (rn : NullMask) (i : ℕ)
    → Slots n lv ln
    → Slots n rv rn
    → i < n
    → (c : ℕ × Bool) → real_real_cell ops op (int_column lv ln) (real_column rv rn) i ≡ returns c
    → both (int_column lv ln) (real_column rv rn) (arithmetic ops op) i ≡ returns (shown real c)
unfolding real_real_cell column_as_real arithmetic as_number value_at cell
int_real-row ops op n lv ln rv rn i sl sr below c e =
    let (x, ex, vx) = slot_lem n lv ln i sl below in
    let (y, ey, vy) = slot_lem n rv rn i sr below in ground arith

real_int-row :
    (ops : RealOps) (op : BinaryOp) (n : ℕ) (lv : List ℕ) (ln : NullMask) (rv : List ℤ)
    (rn : NullMask) (i : ℕ)
    → Slots n lv ln
    → Slots n rv rn
    → i < n
    → (c : ℕ × Bool) → real_real_cell ops op (real_column lv ln) (int_column rv rn) i ≡ returns c
    → both (real_column lv ln) (int_column rv rn) (arithmetic ops op) i ≡ returns (shown real c)
unfolding real_real_cell column_as_real arithmetic as_number value_at cell
real_int-row ops op n lv ln rv rn i sl sr below c e =
    let (x, ex, vx) = slot_lem n lv ln i sl below in
    let (y, ey, vy) = slot_lem n rv rn i sr below in ground arith

real_real-row :
    (ops : RealOps) (op : BinaryOp) (n : ℕ) (lv : List ℕ) (ln : NullMask) (rv : List ℕ)
    (rn : NullMask) (i : ℕ)
    → Slots n lv ln
    → Slots n rv rn
    → i < n
    → (c : ℕ × Bool) → real_real_cell ops op (real_column lv ln) (real_column rv rn) i ≡ returns c
    → both (real_column lv ln) (real_column rv rn) (arithmetic ops op) i ≡ returns (shown real c)
unfolding real_real_cell column_as_real arithmetic as_number value_at cell
real_real-row ops op n lv ln rv rn i sl sr below c e =
    let (x, ex, vx) = slot_lem n lv ln i sl below in
    let (y, ey, vy) = slot_lem n rv rn i sr below in ground arith

logic-Reads :
    (op : BinaryOp) (n : ℕ) (left right : Column) {col : Column}
    → IsColumn n left
    → IsColumn n right
    → logic_columnar op left right ≡ returns col
    → Reads n col (both left right (logic op))
unfolding logic_columnar
logic-Reads op n (bool_column lv ln) (bool_column rv rn) sl sr e =
    bool-Reads (logic_cell op lv ln rv rn) (both (bool_column lv ln) (bool_column rv rn) (logic op))
      n (λ i below. logic-row op n lv ln rv rn i sl sr below) (rw (sym sl.0) e)
logic-Reads op n left right sl sr e = cc

pub int-Reads :
    (body : ℕ → Outcome (ℤ × Bool)) (g : ℕ → Outcome Value) (n : ℕ) {col : Column}
    → ((i : ℕ) → i < n → (c : ℤ × Bool) → body i ≡ returns c → g i ≡ returns (shown int c))
    → fill_column int_column body n ≡ returns col
    → Reads n col g
unfolding value_at
int-Reads = fill-Reads int_column int (λ n xs m s. s) (λ xs m i. refl)

pub real-Reads :
    (body : ℕ → Outcome (ℕ × Bool)) (g : ℕ → Outcome Value) (n : ℕ) {col : Column}
    → ((i : ℕ) → i < n → (c : ℕ × Bool) → body i ≡ returns c → g i ≡ returns (shown real c))
    → fill_column real_column body n ≡ returns col
    → Reads n col g
unfolding value_at
real-Reads = fill-Reads real_column real (λ n xs m s. s) (λ xs m i. refl)

pub text-Reads :
    (body : ℕ → Outcome (Bytes × Bool)) (g : ℕ → Outcome Value) (n : ℕ) {col : Column}
    → ((i : ℕ) → i < n → (c : Bytes × Bool) → body i ≡ returns c → g i ≡ returns (shown text c))
    → fill_column text_column body n ≡ returns col
    → Reads n col g
unfolding value_at
text-Reads = fill-Reads text_column text (λ n xs m s. s) (λ xs m i. refl)

arithmetic-Reads :
    (ops : RealOps) (op : BinaryOp) (n : ℕ) (left right : Column) {col : Column}
    → IsColumn n left
    → IsColumn n right
    → arithmetic_columnar ops op left right ≡ returns col
    → Reads n col (both left right (arithmetic ops op))
unfolding arithmetic_columnar arith_real_real
arithmetic-Reads ops op n (int_column lv ln) (int_column rv rn) sl sr e =
    int-Reads (int_int_cell op lv ln rv rn)
      (both (int_column lv ln) (int_column rv rn) (arithmetic ops op)) n
      (λ i below. int_int-row op n lv ln rv rn i sl sr below ops) (rw (sym sl.0) e)
arithmetic-Reads ops op n (int_column lv ln) (real_column rv rn) sl sr e =
    real-Reads (real_real_cell ops op (int_column lv ln) (real_column rv rn))
      (both (int_column lv ln) (real_column rv rn) (arithmetic ops op)) n
      (λ i below. int_real-row ops op n lv ln rv rn i sl sr below) (rw (sym sl.1) e)
arithmetic-Reads ops op n (real_column lv ln) (int_column rv rn) sl sr e =
    real-Reads (real_real_cell ops op (real_column lv ln) (int_column rv rn))
      (both (real_column lv ln) (int_column rv rn) (arithmetic ops op)) n
      (λ i below. real_int-row ops op n lv ln rv rn i sl sr below) (rw (sym sl.1) e)
arithmetic-Reads ops op n (real_column lv ln) (real_column rv rn) sl sr e =
    real-Reads (real_real_cell ops op (real_column lv ln) (real_column rv rn))
      (both (real_column lv ln) (real_column rv rn) (arithmetic ops op)) n
      (λ i below. real_real-row ops op n lv ln rv rn i sl sr below) (rw (sym sl.1) e)
arithmetic-Reads ops op n left right sl sr e = cc

pub len-eq : (n : ℕ) (c : Column) → IsColumn n c → len c ≡ n
len-eq n (int_column xs m) s = s.1
len-eq n (real_column xs m) s = s.1
len-eq n (text_column xs m) s = s.1
len-eq n (bool_column xs m) s = s.1

pub binary-Reads :
    (ops : RealOps) (op : BinaryOp) (n : ℕ) (left right : Column) {col : Column}
    → IsColumn n left
    → IsColumn n right
    → binary_columnar ops op left right ≡ returns col
    → Reads n col (both left right (eval_binary ops op))
unfolding binary_columnar eval_binary
binary-Reads ops add n left right sl sr e = arithmetic-Reads ops add n left right sl sr e
binary-Reads ops sub n left right sl sr e = arithmetic-Reads ops sub n left right sl sr e
binary-Reads ops mul n left right sl sr e = arithmetic-Reads ops mul n left right sl sr e
binary-Reads ops div n left right sl sr e = arithmetic-Reads ops div n left right sl sr e
binary-Reads ops and n left right sl sr e = logic-Reads and n left right sl sr e
binary-Reads ops or n left right sl sr e = logic-Reads or n left right sl sr e
binary-Reads ops eq n left right sl sr e = compare-Reads eq n left right (len-eq n left sl) e
binary-Reads ops not_eq n left right sl sr e =
    compare-Reads not_eq n left right (len-eq n left sl) e
binary-Reads ops lt n left right sl sr e = compare-Reads lt n left right (len-eq n left sl) e
binary-Reads ops lt_eq n left right sl sr e = compare-Reads lt_eq n left right (len-eq n left sl) e
binary-Reads ops gt n left right sl sr e = compare-Reads gt n left right (len-eq n left sl) e
binary-Reads ops gt_eq n left right sl sr e = compare-Reads gt_eq n left right (len-eq n left sl) e

abbrev pub one : Column → (Value → Outcome Value) → ℕ → Outcome Value
one col f i = do v ← value_at col i; f v

pub is_null-Reads :
    (negated : Bool) (n : ℕ) (operand : Column) {col : Column}
    → IsColumn n operand
    → is_null_columnar operand negated ≡ returns col
    → Reads n col (one operand (λ v. returns (bool (differs (is_null v) negated))))
unfolding is_null_columnar
is_null-Reads negated n operand s e =
    bool-Reads (is_null_cell (nulls operand) negated)
      (one operand (λ v. returns (bool (differs (is_null v) negated)))) n (row operand s)
      (rw (sym (len-eq n operand s)) e)
  where
    row :
        (o : Column)
        → IsColumn n o
        → (i : ℕ) → i < n
        → (c : Bool × Bool) → is_null_cell (nulls o) negated i ≡ returns c
        → one o (λ v. returns (bool (differs (is_null v) negated))) i ≡ returns (shown bool c)
    row (int_column xs m) s i below c eb =
        let (x, ex, vx) = slot_lem n xs m i s below in
        unfold is_null_cell value_at cell in ground arith
    row (real_column xs m) s i below c eb =
        let (x, ex, vx) = slot_lem n xs m i s below in
        unfold is_null_cell value_at cell in ground arith
    row (text_column xs m) s i below c eb =
        let (x, ex, vx) = slot_lem n xs m i s below in
        unfold is_null_cell value_at cell in ground arith
    row (bool_column xs m) s i below c eb =
        let (x, ex, vx) = slot_lem n xs m i s below in
        unfold is_null_cell value_at cell in ground arith

pub in_list-row :
    (ops : RealOps) (operand : Column) (values : Exprs) (has_null negated : Bool) (i : ℕ)
    → (c : Bool × Bool) → in_list_cell ops operand values has_null negated i ≡ returns c
    → one operand (λ probe. eval_in_list ops probe values has_null >>= λ r. negate_if negated r) i
      ≡ returns (shown bool c)
unfolding in_list_cell
in_list-row ops operand values has_null negated i c eb = ground arith

pub gather-row :
    {A : Type 0} (make : A → Value) (values : List A) (m : NullMask) (sel : List ℕ) (i : ℕ)
    (c : A × Bool)
    → gather_cell values m sel i ≡ returns c
    → (index sel i >>= λ p. cell make values m p) ≡ returns (shown make c)
unfolding gather_cell cell
gather-row make values m sel i c e = ground arith
