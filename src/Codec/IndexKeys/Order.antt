-- ===== src/Codec/IndexKeys/Order.antt =====
-- The byte order of index keys is the order of what they encode.
use prehnite_db.Prelude.{
  ℕ, zero, suc, ◌^◌, ◌<◌, ◌≡◌, refl, compare, Ordering, Bool, true, false, List, [], ◌∷◌, ◌++◌,
  Option, some, get_elem?, ltb, if◌then◌else◌, arith, ◌∙◌, ap₂,
}
use prehnite_db.Prelude.Int.{ℤ, pos, negsuc, IsI64, to_u64, compare_ℤ, to_u64-lt}
use mathlib.Core.Path.{subst}
use prehnite_db.Bytes.{Bytes, be_bytes, cmp}
use prehnite_db.Bytes.Laws.{length-be_bytes}
use prehnite_db.Bytes.Order.{cmp-be_bytes, and_then, cmp-append}
use prehnite_db.Value.{Value, null, int, real, text, bool}
use prehnite_db.Codec.IndexKeys.{
  flip_sign, ordered_bits, escaped, encode_index_value, encode_index_key, rowid_key,
}

compare_bool : Bool → Bool → Ordering
compare_bool false true = Ordering.lt
compare_bool true false = Ordering.gt
compare_bool a b = Ordering.eq

-- IEEE-754 `totalOrder` on bit patterns: negative numbers first, by falling magnitude. It is the
-- numeric order of what is no NaN, with -0.0 below 0.0.
abbrev pub total_cmp : ℕ → ℕ → Ordering
total_cmp a b =
    if ltb a (2 ^ 63)
    then (if ltb b (2 ^ 63) then compare a b else Ordering.gt)
    else (if ltb b (2 ^ 63) then Ordering.lt else compare b a)

-- The rank of a value's type among the keys.
abbrev pub rank : Value → ℕ
rank null = 0
rank (bool b) = 1
rank (int n) = 2
rank (real r) = 3
rank (text s) = 4

-- The order of values: NULL first, then by type, then within the type.
unfoldable pub value_cmp : Value → Value → Ordering
unfolding compare_bool
value_cmp null null = Ordering.eq
value_cmp (bool a) (bool b) = compare_bool a b
value_cmp (int a) (int b) = compare_ℤ a b
value_cmp (real a) (real b) = total_cmp a b
value_cmp (text a) (text b) = cmp a b
value_cmp v w = compare (rank v) (rank w)

-- The ranges of the fields' Rust types.
abbrev pub IsKeyValue : Value → Type 0
IsKeyValue (int n) = IsI64 n
IsKeyValue (real r) = r < 2 ^ 64
IsKeyValue v = Unit

flip_sign-lt : (v : ℕ) → v < 2 ^ 64 → flip_sign v < 2 ^ 64
unfolding flip_sign
flip_sign-lt v h = ground arith

ordered_bits-lt : (v : ℕ) → v < 2 ^ 64 → ordered_bits v < 2 ^ 64
unfolding ordered_bits
ordered_bits-lt v h = ground arith

compare-flip_sign :
    (a b : ℤ)
    → IsI64 a
    → IsI64 b
    → compare (flip_sign (to_u64 a)) (flip_sign (to_u64 b)) ≡ compare_ℤ a b
unfolding flip_sign
compare-flip_sign (pos a) (pos b) ha hb = ground arith
compare-flip_sign (pos a) (negsuc b) ha hb = ground arith
compare-flip_sign (negsuc a) (pos b) ha hb = ground arith
compare-flip_sign (negsuc a) (negsuc b) ha hb = ground arith

compare-ordered_bits :
    (a b : ℕ) → a < 2 ^ 64 → b < 2 ^ 64 → compare (ordered_bits a) (ordered_bits b) ≡ total_cmp a b
unfolding ordered_bits
compare-ordered_bits a b ha hb = ground arith

cmp-be_bytes-append :
    (a b : ℕ) (r s : Bytes)
    → a < 2 ^ 64
    → b < 2 ^ 64
    → cmp (be_bytes 8 a ++ r) (be_bytes 8 b ++ s) ≡ and_then (compare a b) (cmp r s)
cmp-be_bytes-append a b r s ha hb =
    cmp-append (be_bytes 8 a) (be_bytes 8 b) r s
      (omega (arith, length-be_bytes 8 a, length-be_bytes 8 b))
    ∙ rw (cmp-be_bytes 8 a b (omega arith) (omega arith))

cmp-escaped :
    (x y r s : Bytes) → cmp (escaped x ++ r) (escaped y ++ s) ≡ and_then (cmp x y) (cmp r s)
unfolding cmp escaped
cmp-escaped [] [] r s = refl
cmp-escaped [] (b ∷ y) r s = ground arith
cmp-escaped (a ∷ x) [] r s = ground arith
cmp-escaped (a ∷ x) (b ∷ y) r s = ground (arith, cmp-escaped x y r s)

cmp-tagged : (t : ℕ) (x y : Bytes) → cmp (t ∷ x) (t ∷ y) ≡ cmp x y
unfolding cmp
cmp-tagged t x y = ground arith

-- Encodings are in the order of their values, and what follows decides only between equal ones.
pub cmp-encode_index_value :
    (v w : Value) (r s : Bytes)
    → IsKeyValue v
    → IsKeyValue w
    → cmp (encode_index_value v ++ r) (encode_index_value w ++ s)
      ≡ and_then (value_cmp v w) (cmp r s)
unfolding encode_index_value value_cmp
cmp-encode_index_value null null r s hv hw = cmp-tagged 0 r s
cmp-encode_index_value (bool true) (bool true) r s hv hw = cmp-tagged 1 _ _ ∙ cmp-tagged 1 _ _
cmp-encode_index_value (bool false) (bool false) r s hv hw = cmp-tagged 1 _ _ ∙ cmp-tagged 0 _ _
cmp-encode_index_value (int a) (int b) r s hv hw =
    cmp-tagged 2 _ _
    ∙ cmp-be_bytes-append (flip_sign (to_u64 a)) (flip_sign (to_u64 b)) r s
        (flip_sign-lt _ (to_u64-lt a hv)) (flip_sign-lt _ (to_u64-lt b hw))
    ∙ rw (compare-flip_sign a b hv hw)
cmp-encode_index_value (real a) (real b) r s hv hw =
    cmp-tagged 3 _ _
    ∙ cmp-be_bytes-append (ordered_bits a) (ordered_bits b) r s (ordered_bits-lt a hv)
        (ordered_bits-lt b hw)
    ∙ rw (compare-ordered_bits a b hv hw)
cmp-encode_index_value (text a) (text b) r s hv hw = cmp-tagged 4 _ _ ∙ cmp-escaped a b r s
cmp-encode_index_value v w r s hv hw = unfold cmp in refl

abbrev pub cell_cmp : Option Value → Option Value → Ordering
cell_cmp (some v) (some w) = value_cmp v w
cell_cmp v w = Ordering.eq

-- Rows by their values in the indexed columns, then by another ordering.
abbrev pub columns_cmp : List Value → List Value → List ℕ → Ordering → Ordering
columns_cmp vs ws [] o = o
columns_cmp vs ws (c ∷ cs) o =
    and_then (cell_cmp (get_elem? vs c) (get_elem? ws c)) (columns_cmp vs ws cs o)

abbrev pub Cells : List Value → Type 0
Cells [] = Unit
Cells (v ∷ vs) = IsKeyValue v × Cells vs

Cells-get :
    (vs : List Value) (i : ℕ) {v : Value} → Cells vs → get_elem? vs i ≡ some v → IsKeyValue v
Cells-get [] i h e = cc
Cells-get (x ∷ vs) zero {v} h e = let same : x ≡ v = cc in subst IsKeyValue same h.0
Cells-get (x ∷ vs) (suc i) h e = Cells-get vs i h.1 e

-- What a key begins with.
cons_key :
    (vs : List Value) (c : ℕ) (cs : List ℕ) (k : Bytes) {a : Bytes}
    → encode_index_key vs (c ∷ cs) k ≡ some a
    → (v : Value) × (rest : Bytes) × (get_elem? vs c ≡ some v)
      × (encode_index_key vs cs k ≡ some rest)
      × (a ≡ encode_index_value v ++ rest)
unfolding encode_index_key
cons_key vs c cs k {a} h = ground arith

cmp-columns :
    (vs ws : List Value) (columns : List ℕ) (j k : Bytes) {a b : Bytes}
    → Cells vs
    → Cells ws
    → encode_index_key vs columns j ≡ some a
    → encode_index_key ws columns k ≡ some b
    → cmp a b ≡ columns_cmp vs ws columns (cmp j k)
cmp-columns vs ws [] j k {a} {b} hv hw ha hb =
    let left : a ≡ j = unfold encode_index_key in cc in
    let right : b ≡ k = unfold encode_index_key in cc in ap₂ cmp left right
cmp-columns vs ws (c ∷ cs) j k hv hw ha hb =
    let (v, r, ev, er, ea) = cons_key vs c cs j ha in
    let (w, s, ew, es, eb) = cons_key ws c cs k hb in
    rw (ea, eb, ev, ew, ← cmp-columns vs ws cs j k hv hw er es)
      (cmp-encode_index_value v w r s (Cells-get vs c hv ev) (Cells-get ws c hw ew))

-- The keys of two rows in an index, where the indexed columns exist and values and rowids are in
-- the ranges of their types, compare as the rows' values in those columns from left to right,
-- then as the rowids.
pub cmp-encode_index_key :
    (vs ws : List Value) (columns : List ℕ) (i j : ℕ) {a b : Bytes}
    → Cells vs
    → Cells ws
    → i < 2 ^ 64
    → j < 2 ^ 64
    → encode_index_key vs columns (rowid_key i) ≡ some a
    → encode_index_key ws columns (rowid_key j) ≡ some b
    → cmp a b ≡ columns_cmp vs ws columns (compare i j)
unfolding rowid_key
cmp-encode_index_key vs ws columns i j hv hw hi hj ha hb =
    rw (← cmp-be_bytes 8 i j (omega arith) (omega arith))
      (cmp-columns vs ws columns (be_bytes 8 i) (be_bytes 8 j) hv hw ha hb)
