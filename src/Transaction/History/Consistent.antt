-- ===== src/Transaction/History/Consistent.antt =====
-- What holds between the coordinator and the commit log while calls are under way: a record that is
-- not yet published belongs to a call whose transaction is still in flight.
pub mod Steps
use prehnite_db.Prelude.{
  ℕ, ◌+◌, ◌^◌, ◌≤◌, ◌<◌, ◌≡◌, refl, Bool, true, false, List, [], ◌∷◌, ◌++◌, ◌||◌, Option, none,
  some, Result, ok, err, arith, ◌==◌, Bool-cases, inl, inr, ==→eq, if◌then◌else◌,
}
use mathlib.Core.Path.{subst}
use prehnite_db.Maps.{get, insert, remove, has, contains}
use prehnite_db.Maps.Laws.{get-insert, get-remove, has-++, contains-add, contains-discard}
use prehnite_db.Clog.{Status, Record, ClogState}
use prehnite_db.Clog.Append.{
  enqueue, take_turn, lead, durable, write_and_fsync, publish, Outcome, written, failed,
}
use prehnite_db.Clog.Append.Quiet.{IsQuiet}
use prehnite_db.Transaction.{TxState, take_id, open_slot, leave_flight, close_slot}
use prehnite_db.Transaction.History.{
  Task, idle, leading, wrote, System, clog_state, start_call, start_lead, write_batch,
  publish_batch, released, leave, Step, begin, open_entry, call, lead_batch, write, publication,
  departure, close_entry, at_rest,
}

abbrev lsn_of : Option ℕ → ℕ
lsn_of none = 0
lsn_of (some lsn) = lsn

-- The LSN that the call of a transaction waits for, and 0 if no call of it is waiting.
unfoldable pub claim : ℕ → List (ℕ × ℕ) → ℕ
claim tx waiting = lsn_of (get tx waiting)

pub claim-get :
    (tx lsn : ℕ) (waiting : List (ℕ × ℕ)) → get tx waiting ≡ some lsn → claim tx waiting ≡ lsn
unfolding claim
claim-get tx lsn waiting h = rw (claim, h) refl

pub claim-none : (tx : ℕ) (waiting : List (ℕ × ℕ)) → get tx waiting ≡ none → claim tx waiting ≡ 0
unfolding claim
claim-none tx waiting h = rw (claim, h) refl

claim-insert :
    (j tx lsn : ℕ) (waiting : List (ℕ × ℕ))
    → claim j (insert tx lsn waiting) ≡ (if tx == j then lsn else claim j waiting)
unfolding claim
claim-insert j tx lsn waiting = rw (claim, get-insert) (ground arith)

claim-remove :
    (j tx : ℕ) (waiting : List (ℕ × ℕ))
    → claim j (remove tx waiting) ≡ (if tx == j then 0 else claim j waiting)
unfolding claim
claim-remove j tx waiting = rw (claim, get-remove) (ground arith)

-- The LSN up to which records have left `pending`.
abbrev drained_of : ℕ → Task → ℕ
drained_of durable_lsn idle = durable_lsn
drained_of durable_lsn (leading tx batch lsn) = lsn
drained_of durable_lsn (wrote tx batch lsn result) = lsn

unfoldable pub drained : System → ℕ
drained s = drained_of (clog_state s).durable_lsn s.task

-- The records that a leader has taken and not published.
unfoldable pub taken : Task → List Record
taken idle = []
taken (leading tx batch lsn) = batch
taken (wrote tx batch lsn result) = batch

unfoldable pub leads : ℕ → Task → Bool
leads j idle = false
leads j (leading tx batch lsn) = tx == j
leads j (wrote tx batch lsn result) = tx == j

unfoldable pub is_busy : Task → Bool
is_busy idle = false
is_busy (leading tx batch lsn) = true
is_busy (wrote tx batch lsn result) = true

pub record IsConsistent (s : System) : Type 0 where
  pub given : (j : ℕ) → contains j s.coordinator.in_flight ≡ true → j < s.coordinator.next_tx_id
  pub calling : (j : ℕ) → 0 < claim j s.waiting → contains j s.coordinator.in_flight ≡ true
  pub claimed : (j : ℕ) → claim j s.waiting ≤ (clog_state s).next_lsn
  pub queued : (j : ℕ) → has j (clog_state s).pending ≡ true → drained s < claim j s.waiting
  pub carried :
      (j : ℕ)
      → (leads j s.task || has j (taken s.task)) ≡ true
      → ((clog_state s).durable_lsn < claim j s.waiting) × (claim j s.waiting ≤ drained s)
  pub locked : is_busy s.task ≡ true → (clog_state s).flushing ≡ true
  pub order : ((clog_state s).durable_lsn ≤ drained s) × (drained s ≤ (clog_state s).next_lsn)

pub at_rest-IsConsistent :
    (t : TxState)
    → IsQuiet t.clog.state
    → ((j : ℕ) → contains j t.in_flight ≡ true → j < t.next_tx_id)
    → IsConsistent (at_rest t)
unfolding claim drained taken leads is_busy has get
at_rest-IsConsistent t q given = record {
  given = given;
  calling = λ j h. ground arith;
  claimed = λ j. omega arith;
  queued = λ j h. ground arith;
  carried = λ j h. cc;
  locked = λ h. cc;
  order = (omega arith, q.order);
}

claim_same :
    (tx j : ℕ) (waiting : List (ℕ × ℕ)) → (tx == j) ≡ true → claim j waiting ≡ claim tx waiting
claim_same tx j waiting e =
    subst (λ (x : ℕ). claim x waiting ≡ claim tx waiting) (==→eq tx j e) refl

-- The invariant, with the task put in place.
pub at_task :
    (s : System) (task : Task)
    → s.task ≡ task
    → IsConsistent s
    → IsConsistent (record s { task = task })
at_task s task e c = subst (λ (x : Task). IsConsistent (record s { task = x })) e c
