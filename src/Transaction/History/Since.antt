-- ===== src/Transaction/History/Since.antt =====
-- What stays true of the transactions that had begun at a moment in the past.
use prehnite_db.Prelude.{ℕ, ◌≤◌, ◌<◌, ◌≡◌, refl, true, false, List, Result, ok, err, arith, ◌∙◌}
use prehnite_db.Maps.{contains, has}
use prehnite_db.Maps.Laws.{get-insert_all, contains-add, contains-discard}
use prehnite_db.Clog.{Record, ClogState, status}
use prehnite_db.Clog.Append.{take_turn, publish, enqueue}
use prehnite_db.Transaction.{take_id, open_slot, leave_flight, close_slot}
use prehnite_db.Transaction.History.{
  wrote, System, clog_state, start_call, start_lead, write_batch, publish_batch, leave, Step, begin,
  open_entry, call, lead_batch, write, publication, departure, close_entry, Reach, here, next,
}
use prehnite_db.Transaction.History.Consistent.{IsConsistent, at_task, leads, taken}
use prehnite_db.Transaction.History.Consistent.Steps.{Step-IsConsistent}

-- Of what had an id at `t`: nothing comes into flight again, and what was resolved keeps its status.
pub record Since (t u : System) : Type 0 where
  pub later : t.coordinator.next_tx_id ≤ u.coordinator.next_tx_id
  pub fewer :
      (tx : ℕ)
      → tx < t.coordinator.next_tx_id
      → contains tx u.coordinator.in_flight ≡ true
      → contains tx t.coordinator.in_flight ≡ true
  pub kept :
      (tx : ℕ)
      → tx < t.coordinator.next_tx_id
      → contains tx t.coordinator.in_flight ≡ false
      → status (clog_state u) tx ≡ status (clog_state t) tx

refl-Since : (t : System) → Since t t
refl-Since t = record { later = omega arith; fewer = λ j old e. e; kept = λ j old e. refl }

trans-Since : (t u v : System) → Since t u → Since u v → Since t v
trans-Since t u v a b = record {
  later = omega (arith, a.later, b.later);
  fewer = λ j old e. ground (arith, a.later, a.fewer j, b.fewer j);
  kept = λ j old e.
      let gone : contains j u.coordinator.in_flight ≡ false = ground (arith, a.fewer j old) in
      b.kept j (omega (arith, a.later)) gone ∙ a.kept j old e;
}

-- A turn leaves the statuses as they are.
status-take_turn : (target j : ℕ) (s : ClogState) → status (take_turn target s).1 j ≡ status s j
unfolding take_turn status
status-take_turn target j s = ground arith

-- A publication gives a status to the records of its batch alone.
status-publish :
    (j : ℕ) (batch : List Record) (lsn : ℕ) (result : Result (Unit {0})) (s : ClogState)
    → has j batch ≡ false
    → status (publish batch lsn result s) j ≡ status s j
unfolding publish status
status-publish j batch lsn (ok x) s h = rw (get-insert_all j batch s.map h) refl
status-publish j batch lsn (err e) s h = refl

-- A record that a leader has taken belongs to a transaction in flight.
landed-has :
    (s : System) (tx : ℕ) (batch : List Record) (lsn : ℕ) (result : Result (Unit {0})) (j : ℕ)
    → s.task ≡ wrote tx batch lsn result
    → IsConsistent s
    → contains j s.coordinator.in_flight ≡ false
    → has j batch ≡ false
unfolding leads taken
landed-has s tx batch lsn result j at c landed =
    let held = at_task s (wrote tx batch lsn result) at c in
    ground (arith, held.carried j, c.calling j)

Step-Since : {t u : System} → IsConsistent t → Step t u → Since t u
Step-Since c (begin s room) =
    unfold take_id in
    record {
      later = ground arith;
      fewer = λ j old e.
          ground (arith, contains-add j s.coordinator.next_tx_id s.coordinator.in_flight);
      kept = λ j old e. refl;
    }
Step-Since c (open_entry s tx flying) =
    unfold open_slot in record { later = omega arith; fewer = λ j old e. e; kept = λ j old e. refl }
Step-Since c (call s tx st flying new) =
    unfold start_call enqueue status in
    record { later = omega arith; fewer = λ j old e. e; kept = λ j old e. refl }
Step-Since c (lead_batch s tx target batch lsn waits turn) =
    unfold start_lead in
    record {
      later = omega arith;
      fewer = λ j old e. e;
      kept = λ j old e. status-take_turn target j (clog_state s);
    }
Step-Since c (write s outcome tx batch lsn at) =
    unfold write_batch in
    record { later = omega arith; fewer = λ j old e. e; kept = λ j old e. refl }
Step-Since c (publication s tx batch lsn result at) =
    unfold publish_batch in
    record {
      later = omega arith;
      fewer = λ j old e. e;
      kept = λ j old e.
          status-publish j batch lsn result (clog_state s)
            (landed-has s tx batch lsn result j at c e);
    }
Step-Since c (departure s tx target waits turn) =
    unfold leave leave_flight in
    record {
      later = omega arith;
      fewer = λ j old e. ground (arith, contains-discard j tx s.coordinator.in_flight);
      kept = λ j old e. refl;
    }
Step-Since c (close_entry s tx gone) =
    unfold close_slot in
    record { later = omega arith; fewer = λ j old e. e; kept = λ j old e. refl }

pub Reach-IsConsistent : {t u : System} → IsConsistent t → Reach t u → IsConsistent u
Reach-IsConsistent c here = c
Reach-IsConsistent c (next r st) = Step-IsConsistent st (Reach-IsConsistent c r)

pub Reach-Since : {t u : System} → IsConsistent t → Reach t u → Since t u
Reach-Since {t} c here = refl-Since t
Reach-Since {t} c (next {t = m} {u = u} r st) =
    trans-Since t m u (Reach-Since c r) (Step-Since (Reach-IsConsistent c r) st)
