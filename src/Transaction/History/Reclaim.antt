-- ===== src/Transaction/History/Reclaim.antt =====
-- `reclaim_dead_rows` of crates/prehnitedb/src/engine/database.rs: which rows it deletes, and who
-- could still see them.
use prehnite_db.Prelude.{
  ℕ, ◌≤◌, ◌<◌, ◌≡◌, Bool, true, false, not, ◌&&◌, ◌||◌, List, [], ◌∷◌, Option, none, some, ok, ◌==◌,
  ltb, arith, Bool-cases, inl, inr, ==→eq,
}
use mathlib.Core.Path.{subst}
use prehnite_db.Maps.{contains, discard}
use prehnite_db.Clog.{ClogState, is_committed, is_rolled_back, status, committed}
use prehnite_db.Clog.Append.{written}
use prehnite_db.Transaction.{
  TxState, snapshot, visible, oldest_active_tx_id, oldest, smallest, commit_write,
}
use prehnite_db.Transaction.Visibility.{sees, visible-sees}
use prehnite_db.Transaction.Quiet.{IsSettled, resolved, commit_write-quiet, status-appended}
use prehnite_db.Transaction.History.{System, clog_state, Reach, at_rest}
use prehnite_db.Transaction.History.Consistent.{IsConsistent}
use prehnite_db.Transaction.History.Since.{Since, Reach-Since}
use prehnite_db.Transaction.History.Isolation.{settled-Reach}
use prehnite_db.Maps.Laws.{get-insert}

-- `committed_tombstone || rolled_back_insert`
unfoldable pub is_dead : ClogState → ℕ → ℕ → ℕ → Bool
is_dead clog oldest_active tx_min tx_max =
    (not (tx_max == 0) && ltb tx_max oldest_active && is_committed clog tx_max)
    || (not (tx_min == 0) && ltb tx_min oldest_active && is_rolled_back clog tx_min)

smallest-le : (m : ℕ) (xs : List ℕ) → smallest m xs ≤ m
unfolding smallest
smallest-le m [] = omega arith
smallest-le m (x ∷ xs) = ground (arith, smallest-le x xs, smallest-le m xs)

smallest-contains : (x m : ℕ) (xs : List ℕ) → contains x xs ≡ true → smallest m xs ≤ x
unfolding smallest contains
smallest-contains x m [] h = cc
smallest-contains x m (y ∷ ys) h =
    ground (
      arith,
      smallest-le y ys,
      smallest-le m ys,
      smallest-contains x y ys,
      smallest-contains x m ys,
    )

oldest-contains : (next x : ℕ) (xs : List ℕ) → contains x xs ≡ true → oldest next xs ≤ x
unfolding oldest contains
oldest-contains next x [] h = cc
oldest-contains next x (y ∷ ys) h = ground (arith, smallest-le y ys, smallest-contains x y ys)

oldest-le :
    (next : ℕ) (xs : List ℕ) → ((x : ℕ) → contains x xs ≡ true → x < next) → oldest next xs ≤ next
unfolding oldest contains
oldest-le next [] h = omega arith
oldest-le next (x ∷ xs) h = ground (arith, smallest-le x xs, h x)

other_owner :
    (own x : ℕ) (xs : List ℕ) → contains own xs ≡ true → contains x xs ≡ false → (own == x) ≡ false
other_owner own x xs h k = elim (Bool-cases (own == x)) [
  | inl e ↦ cc (subst (λ (y : ℕ). contains y xs ≡ true) (==→eq own x e) h)
  | inr e ↦ e
]

-- What lies below the watermark was resolved when it was read, and has stayed so.
record IsResolved (t u : System) (x : ℕ) : Type 0 where
  begun : x < u.coordinator.next_tx_id
  landed : contains x u.coordinator.in_flight ≡ false
  kept : status (clog_state u) x ≡ status (clog_state t) x

below_watermark :
    (t u : System) (x : ℕ)
    → IsConsistent t
    → Since t u
    → x < oldest_active_tx_id t.coordinator
    → IsResolved t u x
unfolding oldest_active_tx_id
below_watermark t u x c s low =
    let next = t.coordinator.next_tx_id in
    let flying = t.coordinator.in_flight in
    let old : x < next = omega (arith, oldest-le next flying c.given) in
    let gone : contains x flying ≡ false = ground (arith, oldest-contains next x flying) in
    record {
      begun = omega (arith, s.later);
      landed = ground (arith, s.fewer x old);
      kept = s.kept x old gone;
    }

-- The reader's own transaction, if it has one, is in flight.
abbrev pub IsOwner : TxState → Option ℕ → Type 0
IsOwner u none = Unit
IsOwner u (some own) = contains own u.in_flight ≡ true

-- From a coordinator with no call and no flush under way and whose ids in flight have been handed
-- out: a row that garbage collection counts as dead by the watermark, at any moment `t` that the
-- threads reach from there, is invisible to every snapshot that is taken then or at any later
-- moment `u`, also between the stages of begins, commits and rollbacks, for a reader without a
-- transaction or one whose transaction is in flight, as long as the log is not truncated.
pub visible-is_dead :
    (s : TxState) (t u : System) (own : Option ℕ) (tx_min tx_max : ℕ)
    → IsSettled s
    → Reach (at_rest s) t
    → Reach t u
    → IsOwner u.coordinator own
    → is_dead (clog_state t) (oldest_active_tx_id t.coordinator) tx_min tx_max ≡ true
    → visible (snapshot u.coordinator own) (clog_state u) tx_min tx_max ≡ false
unfolding is_dead sees snapshot is_committed is_rolled_back
visible-is_dead s t u none tx_min tx_max h before after live dead =
    let c = settled-Reach h before in
    let since = Reach-Since c after in
    rw visible-sees
      (ground (arith, below_watermark t u tx_min c since, below_watermark t u tx_max c since))
visible-is_dead s t u (some own) tx_min tx_max h before after live dead =
    let c = settled-Reach h before in
    let since = Reach-Since c after in
    rw visible-sees (
      ground (
        arith,
        below_watermark t u tx_min c since,
        below_watermark t u tx_max c since,
        other_owner own tx_min u.coordinator.in_flight,
      ))

dead_after_commit :
    (t : TxState) (tx_min deleter : ℕ)
    → t.in_flight ≡ deleter ∷ []
    → 0 < deleter
    → t.clog.state.min_tx_id ≤ deleter
    → deleter < t.next_tx_id
    → is_dead
        (resolved written deleter committed t).clog.state
        (oldest_active_tx_id (resolved written deleter committed t))
        tx_min
        deleter
      ≡ true
unfolding is_dead oldest_active_tx_id is_committed discard
dead_after_commit t tx_min deleter alone pos above given =
    rw (alone) (ground (arith, get-insert deleter deleter committed t.clog.state.map))

-- The snapshot taken before the commit goes on seeing the row.
visible_after :
    (t : TxState) (tx_min deleter : ℕ)
    → contains deleter t.in_flight ≡ true
    → sees (snapshot t none) t.clog.state tx_min ≡ true
    → visible (snapshot t none) (resolved written deleter committed t).clog.state tx_min deleter
      ≡ true
unfolding sees snapshot is_committed
visible_after t tx_min deleter flying seen = rw visible-sees (
    ground (
      arith,
      status-appended written deleter committed t.clog tx_min,
      other_owner deleter tx_min t.in_flight flying,
    ))

-- When a single transaction is in flight and commits the deletion of a row, the row counts as
-- dead at once, and a reader without a transaction that took its snapshot before the commit, and
-- saw the row's creator, still sees the row.
pub visible_although_dead :
    (t : TxState) (tx_min deleter : ℕ)
    → IsSettled t
    → t.in_flight ≡ deleter ∷ []
    → 0 < deleter
    → t.clog.state.min_tx_id ≤ deleter
    → sees (snapshot t none) t.clog.state tx_min ≡ true
    → (u : TxState) × (commit_write written deleter t ≡ some (ok tt, u))
      × (is_dead u.clog.state (oldest_active_tx_id u) tx_min deleter ≡ true)
      × (visible (snapshot t none) u.clog.state tx_min deleter ≡ true)
visible_although_dead t tx_min deleter h alone pos above seen =
    let call = commit_write-quiet written deleter t h.quiet in
    let flying : contains deleter t.in_flight ≡ true = rw alone (unfold contains in ground arith) in
    (
      resolved written deleter committed t,
      call,
      dead_after_commit t tx_min deleter alone pos above (h.given deleter flying),
      visible_after t tx_min deleter flying seen,
    )
