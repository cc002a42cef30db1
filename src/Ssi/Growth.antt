-- ===== src/Ssi/Growth.antt =====
-- The accesses of the active transactions in the order in which they take the mutex of the SSI map.
use prehnite_db.Prelude.{
  ℕ, ◌≡◌, refl, Bool, true, not, ◌&&◌, List, [], ◌∷◌, Option, none, some, ◌==◌, arith, Bool-cases,
  inl, inr,
}
use prehnite_db.Bytes.{Bytes}
use prehnite_db.Maps.{get, has, modify}
use prehnite_db.Maps.Laws.{get-modify, IsDistinct}
use prehnite_db.Transaction.{ReadLock, SsiTxState, SsiMap}
use prehnite_db.Ssi.{
  holds, lock_read, set_out, set_in, record_read, record_relation_read, record_index_range_read,
  record_write, record_insert, record_index_write, tombstone_edge, mark_edges, mark_out, mark,
  readers,
}

-- One call of a snapshot's `record_*` functions.
pub data Access : Type 0 where
  reads : ℕ → Bytes → Option ℕ → Access
  scans : ℕ → Access
  scans_range : ℕ → Bytes → Option Bytes → Access
  writes : ℕ → Bytes → Access
  inserts : ℕ → Access
  writes_index : ℕ → Bytes → Access

unfoldable pub perform : ℕ → Access → SsiMap → SsiMap
perform tx (reads root key tombstone_by) ssi = record_read (some tx) root key tombstone_by ssi
perform tx (scans root) ssi = record_relation_read (some tx) root ssi
perform tx (scans_range root lower upper) ssi =
    record_index_range_read (some tx) root lower upper ssi
perform tx (writes root key) ssi = record_write (some tx) root key ssi
perform tx (inserts root) ssi = record_insert (some tx) root ssi
perform tx (writes_index root key) ssi = record_index_write (some tx) root key ssi

unfoldable pub run : List (ℕ × Access) → SsiMap → SsiMap
run [] ssi = ssi
run ((tx, a) ∷ rest) ssi = run rest (perform tx a ssi)

-- No lock and no conflict is lost.
abbrev pub Grows : SsiTxState → SsiTxState → Type 0
Grows s u =
    ((lock : ReadLock) → holds s.read_set lock ≡ true → holds u.read_set lock ≡ true)
    × ((s.out_conflict ≡ true → u.out_conflict ≡ true)
        × (s.in_conflict ≡ true → u.in_conflict ≡ true))

abbrev pub Evolves : SsiMap → SsiMap → Type 0
Evolves m n =
    ((j : ℕ) (s : SsiTxState)
      → get j m ≡ some s
      → (u : SsiTxState) × ((get j n ≡ some u) × Grows s u))
    × (IsDistinct m → IsDistinct n)

pub Evolves-refl : (m : SsiMap) → Evolves m m
Evolves-refl m = (λ j s h. (s, (h, (λ l h. h, (λ h. h, λ h. h)))), λ h. h)

pub Evolves-trans : (m n o : SsiMap) → Evolves m n → Evolves n o → Evolves m o
Evolves-trans m n o f g = (
  λ j s h.
      let (u, (at, gu)) = f.0 j s h in
      let (v, (at', gv)) = g.0 j u at in
      (v, (at', (λ l x. gv.0 l (gu.0 l x), (λ x. gv.1.0 (gu.1.0 x), λ x. gv.1.1 (gu.1.1 x))))),
  λ d. g.1 (f.1 d),
)

has-modify : (j k : ℕ) (f : SsiTxState → SsiTxState) (m : SsiMap) → has j (modify k f m) ≡ has j m
unfolding has modify
has-modify j k f [] = refl
has-modify j k f ((i, s) ∷ m) = ground (arith, has-modify j k f m)

modify-IsDistinct :
    (k : ℕ) (f : SsiTxState → SsiTxState) (m : SsiMap) → IsDistinct m → IsDistinct (modify k f m)
unfolding modify
modify-IsDistinct k f [] h = tt
modify-IsDistinct k f ((i, s) ∷ m) h =
    ground (arith, modify-IsDistinct k f m h.1, has-modify i k f m, h.0)

pub modify-Evolves :
    (k : ℕ) (f : SsiTxState → SsiTxState)
    → ((s : SsiTxState) → Grows s (f s))
    → (m : SsiMap) → Evolves m (modify k f m)
modify-Evolves k f grows m = (entry, modify-IsDistinct k f m)
  where
    entry :
        (j : ℕ) (s : SsiTxState)
        → get j m ≡ some s
        → (u : SsiTxState) × ((get j (modify k f m) ≡ some u) × Grows s u)
    entry j s h = elim (Bool-cases (k == j)) [
      | inl e ↦ (f s, (rw (get-modify j k f m, e, h) refl, grows s))
      | inr e ↦ (s, (rw (get-modify j k f m, e, h) refl, (λ l x. x, (λ x. x, λ x. x))))
    ]

lock_read-Grows : (lock : ReadLock) (s : SsiTxState) → Grows s (lock_read lock s)
unfolding lock_read holds
lock_read-Grows lock s = elim (Bool-cases (holds s.read_set lock)) [
  | inl e ↦ rw e (λ l x. x, (λ x. x, λ x. x))
  | inr e ↦ rw e (λ l x. ground arith, (λ x. x, λ x. x))
]

set_out-Grows : (s : SsiTxState) → Grows s (set_out s)
set_out-Grows s = (λ l x. x, (λ x. refl, λ x. x))

set_in-Grows : (s : SsiTxState) → Grows s (set_in s)
set_in-Grows s = (λ l x. x, (λ x. x, λ x. refl))

pub lock-Evolves :
    (tx : ℕ) (lock : ReadLock) (m : SsiMap) → Evolves m (modify tx (lock_read lock) m)
lock-Evolves tx lock m = modify-Evolves tx (lock_read lock) (lock_read-Grows lock) m

pub tombstone_edge-Evolves :
    (tx : ℕ) (by : Option ℕ) (m : SsiMap) → Evolves m (tombstone_edge tx by m)
unfolding tombstone_edge
tombstone_edge-Evolves tx none m = Evolves-refl m
tombstone_edge-Evolves tx (some peer) m = elim (Bool-cases (not (peer == tx) && has peer m)) [
  | inl e ↦ rw e (
      Evolves-trans m (modify tx set_out m) (modify peer set_in (modify tx set_out m))
        (modify-Evolves tx set_out set_out-Grows m)
        (modify-Evolves peer set_in set_in-Grows (modify tx set_out m)))
  | inr e ↦ rw e (Evolves-refl m)
]

mark_out-Evolves : (peers : List ℕ) (m : SsiMap) → Evolves m (mark_out peers m)
unfolding mark_out
mark_out-Evolves [] m = Evolves-refl m
mark_out-Evolves (p ∷ peers) m =
    Evolves-trans m (modify p set_out m) (mark_out peers (modify p set_out m))
      (modify-Evolves p set_out set_out-Grows m) (mark_out-Evolves peers (modify p set_out m))

mark-Evolves : (w : ℕ) (peers : List ℕ) (m : SsiMap) → Evolves m (mark w peers m)
mark-Evolves w [] m = Evolves-refl m
mark-Evolves w (p ∷ peers) m =
    Evolves-trans m (modify w set_in m) (mark_out (p ∷ peers) (modify w set_in m))
      (modify-Evolves w set_in set_in-Grows m) (mark_out-Evolves (p ∷ peers) (modify w set_in m))

mark_edges-Evolves :
    (w : ℕ) (touched : SsiTxState → Bool) (m : SsiMap) → Evolves m (mark_edges w touched m)
unfolding mark_edges
mark_edges-Evolves w touched m = mark-Evolves w (readers w touched m) m

pub perform-Evolves : (tx : ℕ) (a : Access) (m : SsiMap) → Evolves m (perform tx a m)
unfolding perform record_read record_relation_read record_index_range_read record_write
    record_insert record_index_write
perform-Evolves tx (reads root key by) m =
    let locked = modify tx (lock_read (ReadLock.tuple root key)) m in
    Evolves-trans m locked (tombstone_edge tx by locked)
      (lock-Evolves tx (ReadLock.tuple root key) m) (tombstone_edge-Evolves tx by locked)
perform-Evolves tx (scans root) m = lock-Evolves tx (ReadLock.relation root) m
perform-Evolves tx (scans_range root lower upper) m =
    lock-Evolves tx (ReadLock.index_range root lower upper) m
perform-Evolves tx (writes root key) m = mark_edges-Evolves tx _ m
perform-Evolves tx (inserts root) m = mark_edges-Evolves tx _ m
perform-Evolves tx (writes_index root key) m = mark_edges-Evolves tx _ m

-- In any history of accesses no active transaction loses its entry, a read lock or a conflict
-- flag, and a map without a key twice stays so.
pub run-Evolves : (accesses : List (ℕ × Access)) (m : SsiMap) → Evolves m (run accesses m)
unfolding run
run-Evolves [] m = Evolves-refl m
run-Evolves ((tx, a) ∷ rest) m =
    Evolves-trans m (perform tx a m) (run rest (perform tx a m)) (perform-Evolves tx a m)
      (run-Evolves rest (perform tx a m))
