-- ===== src/Ssi/Marks.antt =====
-- A write behind a read that it covers marks both ends, while the lock of the read is held.
use prehnite_db.Prelude.{
  ℕ, ◌≡◌, refl, sym, ap, Option-cases, ==→eq, Bool, true, false, ◌&&◌, List, [], ◌∷◌, Option, none,
  some, ◌==◌, arith, Bool-cases, inl, inr,
}
use mathlib.Core.Path.{subst}
use prehnite_db.Maps.{get, modify, contains}
use prehnite_db.Maps.Laws.{get-modify, mapped}
use prehnite_db.Transaction.{ReadLock, tuple, relation, index_range, SsiTxState, SsiMap}
use prehnite_db.Ssi.{
  lock_eq, holds, lock_read, set_in, tuple_touched, relation_touched, index_touched, readers,
  mark_edges, record_read, record_relation_read, record_index_range_read, record_write,
  record_insert, record_index_write,
}
use prehnite_db.Ssi.Growth.{
  Access, reads, scans, scans_range, writes, inserts, writes_index, perform, run, Evolves,
  perform-Evolves, run-Evolves, tombstone_edge-Evolves,
}
use prehnite_db.Ssi.Locks.{holds-lock_read, lock_eq→eq, index_touched-holds}
use prehnite_db.Ssi.Edges.{contains-readers, get-mark_edges, mark_writer}
use prehnite_db.Ssi.Conflicts.{
  lock_of, hits, covers, overwritten, has_out, has_in, IsMarked, IsMarked-Evolves, IsEdge,
  IsEdge-Evolves,
}

touches : Access → SsiTxState → Bool
touches (writes root key) s = tuple_touched root key s
touches (inserts root) s = relation_touched root s
touches (writes_index root key) s = index_touched root key s
touches a s = false

-- A write that hits a lock is found by whoever searches the locks.
touches-holds :
    (b : Access) (lock : ReadLock) (s : SsiTxState)
    → holds s.read_set lock ≡ true
    → hits lock b ≡ true
    → touches b s ≡ true
unfolding touches tuple_touched relation_touched
touches-holds (writes root key) lock s h c = elim (Bool-cases (lock_eq (tuple root key) lock)) [
  | inl e ↦ rw (rw (sym (lock_eq→eq (tuple root key) lock e)) at h) refl
  | inr e ↦ ground (arith, rw (sym (lock_eq→eq (relation root) lock (ground arith))) at h)
]
touches-holds (inserts root) lock s h c = rw (sym (lock_eq→eq (relation root) lock c)) at h
touches-holds (writes_index root key) lock s h c = index_touched-holds root key lock s h c
touches-holds (reads root key by) lock s h c = ground arith
touches-holds (scans root) lock s h c = ground arith
touches-holds (scans_range root lower upper) lock s h c = ground arith

-- The entry of `j` has the lock of the access.
pub Keeps : ℕ → Access → SsiMap → Type 0
Keeps j a m =
    (lock : ReadLock)
    → lock_of a ≡ some lock
    → (s : SsiTxState) × ((get j m ≡ some s) × (holds s.read_set lock ≡ true))

get-lock_read :
    (j : ℕ) (lock : ReadLock) (m : SsiMap) (s : SsiTxState)
    → get j m ≡ some s
    → get j (modify j (lock_read lock) m) ≡ some (lock_read lock s)
get-lock_read j lock m s h = rw (get-modify j j (lock_read lock) m, h) (ground arith)

holds-lock_read-some :
    (own lock : ReadLock) (s : SsiTxState)
    → some own ≡ some lock
    → holds (lock_read own s).read_set lock ≡ true
holds-lock_read-some own lock s e =
    subst (λ (l : ReadLock). holds (lock_read own s).read_set l ≡ true)
      (ap (λ (o : Option ReadLock). elim o [ none ↦ own | some l ↦ l ]) e) (holds-lock_read own s)

pub perform-Keeps :
    (j : ℕ) (a : Access) (m : SsiMap) (s : SsiTxState)
    → get j m ≡ some s
    → Keeps j a (perform j a m)
unfolding Keeps perform record_read record_relation_read record_index_range_read
perform-Keeps j (reads root key by) m s h lock e =
    let locked = modify j (lock_read (tuple root key)) m in
    let (u, (at, grows)) =
      (tombstone_edge-Evolves j by locked).0 j (lock_read (tuple root key) s)
        (get-lock_read j (tuple root key) m s h) in
    (u, (at, grows.0 lock (holds-lock_read-some (tuple root key) lock s e)))
perform-Keeps j (scans root) m s h lock e = (
  lock_read (relation root) s,
  (get-lock_read j (relation root) m s h, holds-lock_read-some (relation root) lock s e),
)
perform-Keeps j (scans_range root lower upper) m s h lock e =
    let range = index_range root lower upper in
    (lock_read range s, (get-lock_read j range m s h, holds-lock_read-some range lock s e))
perform-Keeps j (writes root key) m s h lock e = ground arith
perform-Keeps j (inserts root) m s h lock e = ground arith
perform-Keeps j (writes_index root key) m s h lock e = ground arith

get-mark_writer_other :
    (r w : ℕ) (peers : List ℕ) (m : SsiMap)
    → (r == w) ≡ false
    → get r (mark_writer w peers m) ≡ get r m
get-mark_writer_other r w [] m apart = refl
get-mark_writer_other r w (p ∷ peers) m apart = ground (arith, get-modify r w set_in m)

get-mark_writer_own :
    (r w : ℕ) (peers : List ℕ) (m : SsiMap)
    → contains r peers ≡ true
    → get w (mark_writer w peers m) ≡ mapped set_in (get w m)
unfolding contains
get-mark_writer_own r w [] m found = ground arith
get-mark_writer_own r w (p ∷ peers) m found = ground (arith, get-modify w w set_in m)

mark_edges-IsMarked :
    (r w : ℕ) (touched : SsiTxState → Bool) (m : SsiMap) (s : SsiTxState)
    → IsEdge r w m
    → get r m ≡ some s
    → touched s ≡ true
    → IsMarked r w (mark_edges w touched m)
mark_edges-IsMarked r w touched m s (apart, (d, (_, (s', at')))) at h =
    let peers = readers w touched m in
    let found : contains r peers ≡ true =
      rw (contains-readers r w touched m s d at, apart, h) refl in
    let own : contains w peers ≡ false = ground (arith, contains-readers w w touched m s' d at') in
    (
      rw (has_out, get-mark_edges r w touched m, found, get-mark_writer_other r w peers m apart, at)
          refl,
      rw (has_in, get-mark_edges w w touched m, own, get-mark_writer_own r w peers m found, at')
          refl,
    )

hit-IsMarked :
    (r w : ℕ) (lock : ReadLock) (b : Access) (m : SsiMap) (s : SsiTxState)
    → IsEdge r w m
    → get r m ≡ some s
    → holds s.read_set lock ≡ true
    → hits lock b ≡ true
    → IsMarked r w (perform w b m)
unfolding perform record_write record_insert record_index_write touches
hit-IsMarked r w lock (writes root key) m s edge at held c =
    mark_edges-IsMarked r w _ m s edge at (touches-holds (writes root key) lock s held c)
hit-IsMarked r w lock (inserts root) m s edge at held c =
    mark_edges-IsMarked r w _ m s edge at (touches-holds (inserts root) lock s held c)
hit-IsMarked r w lock (writes_index root key) m s edge at held c =
    mark_edges-IsMarked r w _ m s edge at (touches-holds (writes_index root key) lock s held c)
hit-IsMarked r w lock (reads root key by) m s edge at held c = ground arith
hit-IsMarked r w lock (scans root) m s edge at held c = ground arith
hit-IsMarked r w lock (scans_range root lower upper) m s edge at held c = ground arith

-- The write of `w` comes while the entry of `r` has the lock of the read.
perform-IsMarked :
    (r w : ℕ) (a b : Access) (m : SsiMap)
    → IsEdge r w m
    → Keeps r a m
    → covers a b ≡ true
    → IsMarked r w (perform w b m)
unfolding Keeps
perform-IsMarked r w a b m edge keeps c = elim (Option-cases (lock_of a)) [
  | inl e ↦ ground (arith, rw (covers, e) at c)
  | inr (lock, e) ↦
      let (s, (at, held)) = keeps lock e in
      hit-IsMarked r w lock b m s edge at held (rw (covers, e) at c)
]

Keeps-Evolves : (j : ℕ) (a : Access) (m n : SsiMap) → Evolves m n → Keeps j a m → Keeps j a n
unfolding Keeps
Keeps-Evolves j a m n f keeps lock e =
    let (s, (at, held)) = keeps lock e in
    let (u, (now, grows)) = f.0 j s at in (u, (now, grows.0 lock held))

pub run-IsMarked-overwritten :
    (r w : ℕ) (a : Access) (accesses : List (ℕ × Access)) (m : SsiMap)
    → IsEdge r w m
    → Keeps r a m
    → overwritten w a accesses ≡ true
    → IsMarked r w (run accesses m)
unfolding run
run-IsMarked-overwritten r w a [] m edge keeps h = ground arith
run-IsMarked-overwritten r w a ((t, b) ∷ rest) m edge keeps h =
    let n = perform t b m in
    let step = perform-Evolves t b m in
    elim (Bool-cases (t == w && covers a b)) [
      | inl now ↦ IsMarked-Evolves r w n (run rest n) (run-Evolves rest n) (
          subst (λ (i : ℕ). IsMarked r w (perform i b m)) (sym (==→eq t w (ground arith)))
            (perform-IsMarked r w a b m edge keeps (ground arith)))
      | inr later ↦
          run-IsMarked-overwritten r w a rest n (IsEdge-Evolves r w m n step edge)
            (Keeps-Evolves r a m n step keeps) (rw later at h)
    ]
