-- ===== src/Engine/Join/Agreement.antt =====
-- A hash join returns what the nested-loop join returns.
use prehnite_db.Prelude.{
  ℕ, ◌≡◌, refl, true, false, some, List, [], ◌∷◌, ◌++◌, length, All, if◌then◌else◌, arith, ap, sym,
  ◌∙◌, Bool-cases, inl, inr, ◌⊎◌, append_assoc, append-nil,
}
use prehnite_db.Bytes.{Bytes, bytes_eq}
use prehnite_db.Real.{RealOps}
use prehnite_db.Outcome.{returns, ◌>>=◌, index, >>=-eq-returns, returns_inj}
use prehnite_db.Value.{ColumnType, Value, bool}
use prehnite_db.Codec.IndexKeys.{encode_index_value}
use prehnite_db.Sql.Ast.{Expr, Condition, only_if, JoinKind, inner, left}
use prehnite_db.Engine.Scope.{Scope}
use prehnite_db.Engine.Eval.{passes_filter, is_null, is_true}
use prehnite_db.Engine.Join.{
  Row, find_equi_join, bucket, push_entry, build, probe, matches, nested_row, nested_loop_join,
  hash_row, hash_rows, hash_join, or_padded, holds_on,
}
use prehnite_db.Engine.Join.Equal.{IsKey, equal_keys, equal-not_null}
use prehnite_db.Engine.Join.Predicate.{at_pair, Joined, find_equi_join-Joined}
use prehnite_db.Ssi.Locks.{bytes_eq→eq, bytes_eq_refl}

-- The inner rows whose key is not NULL and is `key`.
with_key : ℕ → Bytes → List Row → List Row
with_key build_col key [] = []
with_key build_col key (r ∷ rs) =
    let rest = with_key build_col key rs in
    elim (index r build_col) [
      | returns v ↦
          if is_null v then rest else if bytes_eq (encode_index_value v) key then r ∷ rest else rest
      | _ ↦ rest
    ]

bytes_eq-eq : (j k key : Bytes) → bytes_eq j k ≡ true → bytes_eq j key ≡ bytes_eq k key
bytes_eq-eq j k key h = ap (λ b. bytes_eq b key) (bytes_eq→eq j k h)

bytes_eq_both :
    (j k key : Bytes) → bytes_eq j key ≡ true → bytes_eq k key ≡ true → bytes_eq j k ≡ true
bytes_eq_both j k key hj hk = bytes_eq-eq j key k hj ∙ rw (bytes_eq→eq k key hk) (bytes_eq_refl key)

bucket-push_entry :
    (table : List (Bytes × List Row)) (k key : Bytes) (row : Row)
    → bucket (push_entry table k row) key
      ≡ (if bytes_eq k key then bucket table key ++ row ∷ [] else bucket table key)
unfolding bucket push_entry
bucket-push_entry [] k key row = refl
bucket-push_entry ((j, rows) ∷ table) k key row = elim (Bool-cases (bytes_eq j k)) [
  | inl same ↦ ground (arith, bytes_eq-eq j k key same)
  | inr differ ↦ ground (arith, bytes_eq_both j k key, bucket-push_entry table k key row)
]

first_entry :
    (table : List (Bytes × List Row)) (k key : Bytes) (r : Row) (rest : List Row)
    → bucket (push_entry table k r) key ++ rest
      ≡ bucket table key ++ (if bytes_eq k key then r ∷ rest else rest)
first_entry table k key r rest = elim (Bool-cases (bytes_eq k key)) [
  | inl same ↦ rw (bucket-push_entry, same) (append_assoc (bucket table key) (r ∷ []) rest)
  | inr differ ↦ rw (bucket-push_entry, differ) refl
]

-- A row has its key, of the type of the join columns.
abbrev pub KeyedBy : ℕ → ColumnType → Row → Type 0
KeyedBy col t row = (v : Value) × (index row col ≡ returns v) × IsKey t v

build_lem :
    (t : ColumnType) (build_col : ℕ) (rows : List Row) (table : List (Bytes × List Row))
    → All (KeyedBy build_col t) rows
    → (table' : List (Bytes × List Row)) × (build table build_col rows ≡ returns table')
      × ((key : Bytes) → bucket table' key ≡ bucket table key ++ with_key build_col key rows)
unfolding build with_key
build_lem t build_col [] table h = (table, refl, λ key. sym (append-nil (bucket table key)))
build_lem t build_col (r ∷ rows) table ((v, ev, kv), h) = elim (Bool-cases (is_null v)) [
  | inl absent ↦
      let (table', eb, et) = build_lem t build_col rows table h in
      (table', rw (ev, ◌>>=◌, absent) eb, λ key. rw (with_key, ev, absent) (et key))
  | inr there ↦
      let (table', eb, et) =
        build_lem t build_col rows (push_entry table (encode_index_value v) r) h in
      (
        table',
        rw (ev, ◌>>=◌, there) eb,
        λ key.
            rw (with_key, ev, there)
              (et key
                ∙ first_entry table (encode_index_value v) key r (with_key build_col key rows)),
      )
]

-- The inner rows that a left row is paired with are some of them, and all that match it.
module _ (ops : RealOps) (on : Condition) (scope : Scope) where
  -- Rows that are left out do not match.
  data Narrowed (row : Row) : List Row → List Row → Type 0 where
    none_left : Narrowed row [] []
    kept : (r : Row) {rs ks : List Row} → Narrowed row rs ks → Narrowed row (r ∷ rs) (r ∷ ks)
    left_out :
        (r : Row) {rs ks : List Row}
        → (holds_on ops on scope (row ++ r) ≡ returns true → ⊥)
        → Narrowed row rs ks
        → Narrowed row (r ∷ rs) ks

  matches-Narrowed :
      (row : Row) {rs ks : List Row} (ms : List Row)
      → Narrowed row rs ks
      → matches ops on scope row rs ≡ returns ms
      → matches ops on scope row ks ≡ returns ms
  unfolding matches
  matches-Narrowed row ms none_left h = h
  matches-Narrowed row ms (kept r {rs} {ks} n) h =
      let (keep, ek, h') =
        >>=-eq-returns (holds_on ops on scope (row ++ r))
          (λ keep. matches ops on scope row rs >>= λ rest.
            returns (if keep then (row ++ r) ∷ rest else rest))
          h in
      let (rest, er, e) =
        >>=-eq-returns (matches ops on scope row rs)
          (λ rest. returns (if keep then (row ++ r) ∷ rest else rest)) h' in
      rw (ek, ◌>>=◌, matches-Narrowed row rest n er) e
  matches-Narrowed row ms (left_out r {rs} {ks} out n) h =
      let (keep, ek, h') =
        >>=-eq-returns (holds_on ops on scope (row ++ r))
          (λ keep. matches ops on scope row rs >>= λ rest.
            returns (if keep then (row ++ r) ∷ rest else rest))
          h in
      let (rest, er, e) =
        >>=-eq-returns (matches ops on scope row rs)
          (λ rest. returns (if keep then (row ++ r) ∷ rest else rest)) h' in
      elim (Bool-cases keep) [
        | inl taken ↦ absurd (out (ek ∙ ap returns taken))
        | inr dropped ↦ matches-Narrowed row ms n (er ∙ (rw dropped at e))
      ]

true-bool : (v : Value) → is_true v ≡ true → v ≡ bool true
true-bool v h = ground arith

true-false : true ≡ false → ⊥
true-false h = cc

module _ (ops : RealOps) (on : Expr) (scope : Scope) (kind : JoinKind)
    (width left_len probe_col build_col : ℕ) (t : ColumnType)
    (equi : find_equi_join on left_len scope ≡ some (probe_col, build_col)) where
  -- The keys of a pair that satisfies the predicate are equal and not NULL.
  holds_keys :
      (row r : Row) (a b : Value)
      → length row ≡ left_len
      → index row probe_col ≡ returns a
      → index r build_col ≡ returns b
      → IsKey t a
      → IsKey t b
      → holds_on ops (only_if on) scope (row ++ r) ≡ returns true
      → (a ≡ b) × (is_null a ≡ false)
  unfolding passes_filter Joined
  holds_keys row r a b len ea eb ka kb h =
      let (v, ev, e) = >>=-eq-returns (at_pair ops scope row r on) (λ v. returns (is_true v)) h in
      let (a', b', ea', eb', e) =
        find_equi_join-Joined ops scope row r on probe_col build_col (rw len equi)
          (ev ∙ ap returns (true-bool v (returns_inj e))) in
      let sa : a' ≡ a = returns_inj (sym ea' ∙ ea) in
      let sb : b' ≡ b = returns_inj (sym eb' ∙ eb) in
      elim (rw (sa, sb) at e) [
        | inl e ↦ (equal_keys t a b ka kb e, (equal-not_null a b e).0)
        | inr e ↦ (sym (equal_keys t b a kb ka e), (equal-not_null b a e).1)
      ]

  -- What the probe of a left row with key `a` finds.
  abbrev found : Value → List Row → List Row
  found a rs = if is_null a then [] else with_key build_col (encode_index_value a) rs

  Narrowed-found :
      (row : Row) (a : Value) (rs : List Row)
      → length row ≡ left_len
      → index row probe_col ≡ returns a
      → IsKey t a
      → All (KeyedBy build_col t) rs
      → Narrowed ops (only_if on) scope row rs (found a rs)
  unfolding with_key
  Narrowed-found row a [] len ea ka h = elim (Bool-cases (is_null a)) [
    | inl absent ↦ rw absent none_left
    | inr there ↦ rw there none_left
  ]
  Narrowed-found row a (r ∷ rs) len ea ka ((b, eb, kb), h) =
      let rest = Narrowed-found row a rs len ea ka h in
      let keys = holds_keys row r a b len ea eb ka kb in
      elim (Bool-cases (is_null a)) [
        | inl absent ↦
            rw absent
              (left_out r (λ e. absurd (true-false (sym absent ∙ (keys e).1))) (rw absent at rest))
        | inr there ↦
            let narrowed = rw there at rest in
            elim (Bool-cases (is_null b)) [
              | inl absent ↦
                  rw (there, with_key, eb, absent)
                    (left_out r
                      (λ e.
                        absurd (true-false (sym absent ∙ ap is_null (sym (keys e).0) ∙ (keys e).1)))
                      narrowed)
              | inr given ↦
                  elim (Bool-cases (bytes_eq (encode_index_value b) (encode_index_value a))) [
                    | inl same ↦ rw (there, with_key, eb, given, same) (kept r narrowed)
                    | inr differ ↦
                        rw (there, with_key, eb, given, differ)
                          (left_out r
                            (λ e. absurd (
                              true-false (
                                sym (bytes_eq_refl (encode_index_value a))
                                ∙ ap (λ v. bytes_eq (encode_index_value v) (encode_index_value a))
                                    (keys e).0
                                ∙ differ)))
                            narrowed)
                  ]
            ]
      ]

  module _ (rs : List Row) (table : List (Bytes × List Row)) (h : All (KeyedBy build_col t) rs)
      (buckets : (key : Bytes) → bucket table key ≡ with_key build_col key rs) where
    abbrev IsLeft : Row → Type 0
    IsLeft row = (length row ≡ left_len) × KeyedBy probe_col t row

    probed :
        (row : Row) (ms : List Row)
        → IsLeft row
        → matches ops (only_if on) scope row rs ≡ returns ms
        → (probe table probe_col row >>= λ rows. matches ops (only_if on) scope row rows)
          ≡ returns ms
    unfolding probe
    probed row ms (len, (a, ea, ka)) e =
        let some_rows = Narrowed-found row a rs len ea ka h in
        rw (ea, ◌>>=◌, buckets) (matches-Narrowed ops (only_if on) scope row ms some_rows e)

    hash_row-nested_row :
        (row : Row) (ms : List Row)
        → (kind ≡ inner) ⊎ (kind ≡ left)
        → IsLeft row
        → nested_row ops (only_if on) scope kind width rs row ≡ returns ms
        → hash_row ops (only_if on) scope kind width probe_col table row ≡ returns ms
    unfolding nested_row hash_row
    hash_row-nested_row row ms (inl k) l e =
        let p = probed row ms l (rw (k, nested_row) at e) in ground arith
    hash_row-nested_row row ms (inr k) l e =
        let (found_rows, ef, e') =
          >>=-eq-returns (matches ops (only_if on) scope row rs)
            (λ ms. returns (or_padded row width ms)) (rw (k, nested_row) at e) in
        let p = probed row found_rows l ef in ground arith

    hash_rows-nested_loop_join :
        (left_rows ms : List Row)
        → (kind ≡ inner) ⊎ (kind ≡ left)
        → All IsLeft left_rows
        → nested_loop_join ops (only_if on) scope kind width rs left_rows ≡ returns ms
        → hash_rows ops (only_if on) scope kind width probe_col table left_rows ≡ returns ms
    unfolding nested_loop_join hash_rows
    hash_rows-nested_loop_join [] ms k ls e = e
    hash_rows-nested_loop_join (row ∷ rows) ms k (l, ls) e =
        let (here, eh, e') =
          >>=-eq-returns (nested_row ops (only_if on) scope kind width rs row)
            (λ here. nested_loop_join ops (only_if on) scope kind width rs rows >>= λ rest.
              returns (here ++ rest))
            e in
        let (rest, er, e'') =
          >>=-eq-returns (nested_loop_join ops (only_if on) scope kind width rs rows)
            (λ rest. returns (here ++ rest)) e' in
        rw
          (hash_row-nested_row row here k l eh, ◌>>=◌, hash_rows-nested_loop_join rows rest k ls er)
          e''

  -- An inner or a left join on an equation between a left and an inner column: if the nested-loop
  -- join returns rows, then the hash join returns the same rows in the same order. The left rows
  -- have the width of the left scope, the join columns hold NULL or values of one type, and no REAL
  -- among them is the negative zero.
  pub hash_join-nested_loop_join :
      (right_rows left_rows : List Row) {ms : List Row}
      → (kind ≡ inner) ⊎ (kind ≡ left)
      → All (λ row. (length row ≡ left_len) × KeyedBy probe_col t row) left_rows
      → All (KeyedBy build_col t) right_rows
      → nested_loop_join ops (only_if on) scope kind width right_rows left_rows ≡ returns ms
      → hash_join ops (only_if on) scope kind width probe_col build_col right_rows left_rows
        ≡ returns ms
  unfolding hash_join bucket
  hash_join-nested_loop_join right_rows left_rows {ms} k ls rs e =
      let (table, eb, buckets) = build_lem t build_col right_rows [] rs in
      rw eb (hash_rows-nested_loop_join right_rows table rs buckets left_rows ms k ls e)
