-- ===== src/Ssi/Conflicts.antt =====
-- Which accesses conflict, as a test on a history, and the ends of a conflict in the map.
use prehnite_db.Prelude.{
  ℕ, ◌≡◌, Option-cases, Bool, true, false, ◌&&◌, ◌||◌, List, [], ◌∷◌, Option, none, some, ◌==◌,
  arith, inl, inr,
}
use prehnite_db.Maps.{get}
use prehnite_db.Maps.Laws.{IsDistinct}
use prehnite_db.Transaction.{ReadLock, tuple, relation, index_range, SsiTxState, SsiMap}
use prehnite_db.Ssi.{lock_eq, range_touched}
use prehnite_db.Ssi.Growth.{
  Access, reads, scans, scans_range, writes, inserts, writes_index, Evolves,
}

abbrev pub lock_of : Access → Option ReadLock
lock_of (reads root key by) = some (tuple root key)
lock_of (scans root) = some (relation root)
lock_of (scans_range root lower upper) = some (index_range root lower upper)
lock_of a = none

-- The access writes a thing that the lock stands for.
abbrev pub hits : ReadLock → Access → Bool
hits lock (writes root key) = lock_eq (tuple root key) lock || lock_eq (relation root) lock
hits lock (inserts root) = lock_eq (relation root) lock
hits lock (writes_index root key) = range_touched root key lock
hits lock a = false

-- The second access writes what the first has read.
abbrev pub covers : Access → Access → Bool
covers a b = elim (lock_of a) [ none ↦ false | some lock ↦ hits lock b ]

-- The access has read a version that `w` is about to replace.
abbrev pub meets_tombstone : Access → ℕ → Bool
meets_tombstone (reads root key (some peer)) w = peer == w
meets_tombstone a w = false

abbrev pub overwritten : ℕ → Access → List (ℕ × Access) → Bool
overwritten w a [] = false
overwritten w a ((t, b) ∷ rest) = (t == w && covers a b) || overwritten w a rest

-- Somewhere in the history `r` reads what `w` overwrites, there or later.
abbrev pub is_conflict : ℕ → ℕ → List (ℕ × Access) → Bool
is_conflict r w [] = false
is_conflict r w ((t, a) ∷ rest) =
    (t == r && (meets_tombstone a w || overwritten w a rest)) || is_conflict r w rest

abbrev pub has_out : ℕ → SsiMap → Bool
has_out j m = elim (get j m) [ none ↦ false | some s ↦ s.out_conflict ]

abbrev pub has_in : ℕ → SsiMap → Bool
has_in j m = elim (get j m) [ none ↦ false | some s ↦ s.in_conflict ]

has_out-Evolves : (j : ℕ) (m n : SsiMap) → Evolves m n → has_out j m ≡ true → has_out j n ≡ true
has_out-Evolves j m n f h = elim (Option-cases (get j m)) [
  | inl e ↦ ground (arith, rw (has_out, e) at h)
  | inr (s, e) ↦
      let (u, (at, grows)) = f.0 j s e in rw (has_out, at) (grows.1.0 (rw (has_out, e) at h))
]

has_in-Evolves : (j : ℕ) (m n : SsiMap) → Evolves m n → has_in j m ≡ true → has_in j n ≡ true
has_in-Evolves j m n f h = elim (Option-cases (get j m)) [
  | inl e ↦ ground (arith, rw (has_in, e) at h)
  | inr (s, e) ↦
      let (u, (at, grows)) = f.0 j s e in rw (has_in, at) (grows.1.1 (rw (has_in, e) at h))
]

-- Both ends of the edge from `r` to `w` are marked.
abbrev pub IsMarked : ℕ → ℕ → SsiMap → Type 0
IsMarked r w m = (has_out r m ≡ true) × (has_in w m ≡ true)

pub IsMarked-Evolves : (r w : ℕ) (m n : SsiMap) → Evolves m n → IsMarked r w m → IsMarked r w n
IsMarked-Evolves r w m n f h = (has_out-Evolves r m n f h.0, has_in-Evolves w m n f h.1)

-- Both ends of an edge are active and are two.
abbrev pub IsEdge : ℕ → ℕ → SsiMap → Type 0
IsEdge r w m =
    ((r == w) ≡ false)
    × (IsDistinct m
        × (((s : SsiTxState) × (get r m ≡ some s)) × ((s : SsiTxState) × (get w m ≡ some s))))

pub IsEdge-Evolves : (r w : ℕ) (m n : SsiMap) → Evolves m n → IsEdge r w m → IsEdge r w n
IsEdge-Evolves r w m n f (apart, (d, ((s, at), (s', at')))) =
    let (u, (now, _)) = f.0 r s at in
    let (u', (now', _)) = f.0 w s' at' in (apart, (f.1 d, ((u, now), (u', now'))))
