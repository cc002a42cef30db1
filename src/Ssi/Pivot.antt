-- ===== src/Ssi/Pivot.antt =====
-- The dangerous structure of serialisable snapshot isolation, found in a history of accesses.
use prehnite_db.Prelude.{
  ℕ, ◌≡◌, ◌⊎◌, refl, sym, ==→eq, ◌∙◌, Bool, true, false, ◌&&◌, ◌||◌, List, [], ◌∷◌, none, some,
  ◌==◌, arith, Bool-cases, inl, inr, serialization, err,
}
use mathlib.Core.Path.{subst}
use prehnite_db.Maps.{get, has, modify}
use prehnite_db.Maps.Laws.{get-modify}
use prehnite_db.Transaction.{tuple, SsiTxState, SsiMap, ssi_check_commit}
use prehnite_db.Ssi.{lock_read, set_out, set_in, tombstone_edge, record_read}
use prehnite_db.Ssi.Growth.{
  Access, reads, scans, scans_range, writes, inserts, writes_index, perform, run, perform-Evolves,
  run-Evolves, lock-Evolves,
}
use prehnite_db.Ssi.Edges.{has-get}
use prehnite_db.Ssi.Conflicts.{
  meets_tombstone, overwritten, is_conflict, has_out, has_in, IsMarked, IsMarked-Evolves, IsEdge,
  IsEdge-Evolves,
}
use prehnite_db.Ssi.Marks.{perform-Keeps, run-IsMarked-overwritten}

present : (j : ℕ) (m : SsiMap) (s : SsiTxState) → get j m ≡ some s → has j m ≡ true
present j m s at = elim (Bool-cases (has j m)) [
  | inl e ↦ e
  | inr e ↦ ground (arith, sym at ∙ has-get j m e)
]

same : (j : ℕ) → (j == j) ≡ true
same j = ground arith

tombstone_edge-IsMarked :
    (r w : ℕ) (m : SsiMap) → IsEdge r w m → IsMarked r w (tombstone_edge r (some w) m)
unfolding tombstone_edge
tombstone_edge-IsMarked r w m (apart, (d, ((s, at), (s', at')))) =
    let other : (w == r) ≡ false = ground arith in
    rw (present w m s' at', other)
      (
        rw
            (
              has_out,
              get-modify r w set_in (modify r set_out m),
              other,
              get-modify r r set_out m,
              same r,
              at,
            )
            refl,
        rw
            (
              has_in,
              get-modify w w set_in (modify r set_out m),
              same w,
              get-modify w r set_out m,
              apart,
              at',
            )
            refl,
      )

perform-IsMarked-tombstone :
    (r w : ℕ) (a : Access) (m : SsiMap)
    → IsEdge r w m
    → meets_tombstone a w ≡ true
    → IsMarked r w (perform r a m)
unfolding perform record_read
perform-IsMarked-tombstone r w (reads root key (some peer)) m edge h =
    let locked = modify r (lock_read (tuple root key)) m in
    subst (λ (i : ℕ). IsMarked r w (tombstone_edge r (some i) locked)) (sym (==→eq peer w h))
      (tombstone_edge-IsMarked r w locked
        (IsEdge-Evolves r w m locked (lock-Evolves r (tuple root key) m) edge))
perform-IsMarked-tombstone r w (reads root key none) m edge h = ground arith
perform-IsMarked-tombstone r w (scans root) m edge h = ground arith
perform-IsMarked-tombstone r w (scans_range root lower upper) m edge h = ground arith
perform-IsMarked-tombstone r w (writes root key) m edge h = ground arith
perform-IsMarked-tombstone r w (inserts root) m edge h = ground arith
perform-IsMarked-tombstone r w (writes_index root key) m edge h = ground arith

first_conflict :
    (t : Bool) (x y z : Bool)
    → ((t && (x || y)) || z) ≡ true
    → z ≡ false
    → (t ≡ true) × ((x ≡ true) ⊎ (y ≡ true))
first_conflict t x y z h none_later = ground arith

-- Of two active transactions, if the first reads what the second overwrites, then both ends of that
-- edge are marked when the accesses are over: whatever comes before, between and after them.
pub run-IsMarked :
    (r w : ℕ) (accesses : List (ℕ × Access)) (m : SsiMap)
    → IsEdge r w m
    → is_conflict r w accesses ≡ true
    → IsMarked r w (run accesses m)
unfolding run
run-IsMarked r w [] m edge h = ground arith
run-IsMarked r w ((t, a) ∷ rest) m edge h =
    let n = perform t a m in
    let step = perform-Evolves t a m in
    elim (Bool-cases (is_conflict r w rest)) [
      | inl later ↦ run-IsMarked r w rest n (IsEdge-Evolves r w m n step edge) later
      | inr none_later ↦
          let (own, first) =
            first_conflict (t == r) (meets_tombstone a w) (overwritten w a rest)
              (is_conflict r w rest) h none_later in
          subst (λ (i : ℕ). IsMarked r w (run rest (perform i a m))) (sym (==→eq t r own))
            (here first)
    ]
  where
    here :
        (meets_tombstone a w ≡ true) ⊎ (overwritten w a rest ≡ true)
        → IsMarked r w (run rest (perform r a m))
    here (inl now) =
        IsMarked-Evolves r w (perform r a m) (run rest (perform r a m))
          (run-Evolves rest (perform r a m)) (perform-IsMarked-tombstone r w a m edge now)
    here (inr later) =
        run-IsMarked-overwritten r w a rest (perform r a m)
          (IsEdge-Evolves r w m (perform r a m) (perform-Evolves r a m) edge)
          (perform-Keeps r a m edge.1.1.0.0 edge.1.1.0.1) later

-- A pivot does not commit. Let `a`, `p` and `b` be active, each once in the map, where `a` and
-- `b` are not `p` but may be one. If in a history of accesses `a` reads what `p` overwrites,
-- then or later, and `p` reads what `b` overwrites, then after the history the check before the
-- commit of `p` answers with a serialisation failure, whatever else the history holds.
pub ssi_check_commit-run :
    (a p b : ℕ) (accesses : List (ℕ × Access)) (m : SsiMap)
    → IsEdge a p m
    → IsEdge p b m
    → is_conflict a p accesses ≡ true
    → is_conflict p b accesses ≡ true
    → ssi_check_commit p (run accesses m) ≡ err serialization
unfolding ssi_check_commit
ssi_check_commit-run a p b accesses m edge_in edge_out into out =
    let into_p = (run-IsMarked a p accesses m edge_in into).1 in
    let out_p = (run-IsMarked p b accesses m edge_out out).0 in
    let (s, (at, _)) = (run-Evolves accesses m).0 p edge_out.1.1.0.0 edge_out.1.1.0.1 in
    rw (ssi_check_commit, at, rw (has_in, at) at into_p, rw (has_out, at) at out_p) refl
