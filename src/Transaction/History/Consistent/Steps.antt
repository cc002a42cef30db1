-- ===== src/Transaction/History/Consistent/Steps.antt =====
-- Every step keeps the coordinator and the commit log consistent.
use prehnite_db.Prelude.{
  ℕ, ◌+◌, ◌^◌, ◌≤◌, ◌<◌, ◌≡◌, refl, true, false, List, [], ◌∷◌, none, some, Result, ok, err, arith,
  ◌==◌, Bool-cases, inl, inr, ==→eq,
}
use mathlib.Core.Path.{subst}
use prehnite_db.Maps.{get, has, contains}
use prehnite_db.Maps.Laws.{has-++, contains-add, contains-discard}
use prehnite_db.Clog.{Status, Record, ClogState}
use prehnite_db.Clog.Append.{enqueue, take_turn, lead, durable, publish, Outcome}
use prehnite_db.Transaction.{take_id, open_slot, leave_flight, close_slot}
use prehnite_db.Transaction.History.{
  Task, idle, leading, wrote, System, clog_state, start_call, start_lead, write_batch,
  publish_batch, leave, Step, begin, open_entry, call, lead_batch, write, publication, departure,
  close_entry,
}
use prehnite_db.Transaction.History.Consistent.{
  claim-get, claim-none, claim-insert, claim-remove, claim_same, drained, drained_of, taken, leads,
  is_busy, IsConsistent, at_task,
}

take_id-IsConsistent :
    (s : System)
    → s.coordinator.next_tx_id + 1 < 2 ^ 64
    → IsConsistent s
    → IsConsistent (record s { coordinator = (take_id s.coordinator).1 })
unfolding take_id drained
take_id-IsConsistent s room c =
    let id = s.coordinator.next_tx_id in
    record {
      given = λ j h. ground (arith, contains-add j id s.coordinator.in_flight, c.given j);
      calling = λ j h. ground (arith, contains-add j id s.coordinator.in_flight, c.calling j);
      claimed = c.claimed;
      queued = c.queued;
      carried = c.carried;
      locked = c.locked;
      order = c.order;
    }

start_call-IsConsistent :
    (s : System) (tx : ℕ) (st : Status)
    → contains tx s.coordinator.in_flight ≡ true
    → get tx s.waiting ≡ none
    → IsConsistent s
    → IsConsistent (start_call tx st s)
unfolding start_call enqueue drained has
start_call-IsConsistent s tx st flying new c =
    let lsn = (clog_state s).next_lsn + 1 in
    let none_yet = claim-none tx s.waiting new in
    record {
      given = c.given;
      calling = λ j h. elim (Bool-cases (tx == j)) [
        | inl e ↦ subst (λ (x : ℕ). contains x s.coordinator.in_flight ≡ true) (==→eq tx j e) flying
        | inr e ↦ ground (arith, claim-insert j tx lsn s.waiting, c.calling j)
      ];
      claimed = λ j. ground (arith, claim-insert j tx lsn s.waiting, c.claimed j);
      queued = λ j h. ground (
        arith,
        claim-insert j tx lsn s.waiting,
        has-++ j (clog_state s).pending ((tx, st) ∷ []),
        c.queued j,
        c.order,
      );
      carried = λ j h. ground (
        arith,
        claim-insert j tx lsn s.waiting,
        c.carried j,
        none_yet,
        claim_same tx j s.waiting,
      );
      locked = c.locked;
      order = ground (arith, c.order);
    }

drained_idle :
    (durable_lsn : ℕ) (task : Task)
    → is_busy task ≡ false
    → drained_of durable_lsn task ≡ durable_lsn
unfolding is_busy
drained_idle durable_lsn idle h = refl
drained_idle durable_lsn (leading tx batch lsn) h = cc
drained_idle durable_lsn (wrote tx batch lsn result) h = cc

-- A leader finds the log free and its own record not durable, and takes what is pending.
turn_lead :
    (target : ℕ) (s : ClogState) (batch : List Record) (lsn : ℕ)
    → (take_turn target s).0 ≡ lead batch lsn
    → (batch ≡ s.pending)
      × (lsn ≡ s.next_lsn)
      × (s.flushing ≡ false)
      × (s.durable_lsn < target)
      × ((take_turn target s).1 ≡ record s { flushing = true; pending = [] })
unfolding take_turn
turn_lead target s batch lsn e = ground arith

start_lead-IsConsistent :
    (s : System) (tx target : ℕ) (batch : List Record) (lsn : ℕ)
    → get tx s.waiting ≡ some target
    → (take_turn target (clog_state s)).0 ≡ lead batch lsn
    → IsConsistent s
    → IsConsistent (start_lead tx target batch lsn s)
unfolding start_lead drained taken leads is_busy has
start_lead-IsConsistent s tx target batch lsn waits turn c =
    let (batch_eq, lsn_eq, free, low, state) = turn_lead target (clog_state s) batch lsn turn in
    let rest : is_busy s.task ≡ false = ground (arith, c.locked) in
    let level = drained_idle (clog_state s).durable_lsn s.task rest in
    let own = claim-get tx target s.waiting waits in
    rw (state) (record {
      given = c.given;
      calling = c.calling;
      claimed = c.claimed;
      queued = λ j h. cc;
      carried = λ j h. ground (arith, c.queued j, c.claimed j, claim_same tx j s.waiting);
      locked = λ h. refl;
      order = ground (arith, c.order);
    })

write_batch-IsConsistent :
    (s : System) (outcome : Outcome) (tx : ℕ) (batch : List Record) (lsn : ℕ)
    → s.task ≡ leading tx batch lsn
    → IsConsistent s
    → IsConsistent (write_batch outcome tx batch lsn s)
unfolding write_batch drained taken leads is_busy
write_batch-IsConsistent s outcome tx batch lsn at c =
    let held = at_task s (leading tx batch lsn) at c in
    record {
      given = c.given;
      calling = c.calling;
      claimed = c.claimed;
      queued = held.queued;
      carried = held.carried;
      locked = held.locked;
      order = held.order;
    }

publish_batch-IsConsistent :
    (s : System) (tx : ℕ) (batch : List Record) (lsn : ℕ) (result : Result (Unit {0}))
    → s.task ≡ wrote tx batch lsn result
    → IsConsistent s
    → IsConsistent (publish_batch tx batch lsn result s)
unfolding publish_batch publish drained taken leads is_busy has
publish_batch-IsConsistent s tx batch lsn (ok x) at c =
    let held = at_task s (wrote tx batch lsn (ok x)) at c in
    record {
      given = c.given;
      calling = c.calling;
      claimed = c.claimed;
      queued = held.queued;
      carried = λ j h. cc;
      locked = λ h. cc;
      order = (omega arith, held.order.1);
    }
publish_batch-IsConsistent s tx batch lsn (err e) at c =
    let held = at_task s (wrote tx batch lsn (err e)) at c in
    record {
      given = c.given;
      calling = λ j h. ground (arith, claim-remove j tx s.waiting, c.calling j);
      claimed = λ j. ground (arith, claim-remove j tx s.waiting, c.claimed j);
      queued = λ j h.
          ground (arith, claim-remove j tx s.waiting, held.queued j, held.order, held.carried j);
      carried = λ j h. cc;
      locked = λ h. cc;
      order = ground (arith, held.order);
    }

turn_durable :
    (target : ℕ) (s : ClogState) → (take_turn target s).0 ≡ durable → target ≤ s.durable_lsn
unfolding take_turn
turn_durable target s e = ground arith

leave-IsConsistent :
    (s : System) (tx target : ℕ)
    → get tx s.waiting ≡ some target
    → (take_turn target (clog_state s)).0 ≡ durable
    → IsConsistent s
    → IsConsistent (leave tx s)
unfolding leave leave_flight drained
leave-IsConsistent s tx target waits turn c =
    let low = turn_durable target (clog_state s) turn in
    let own = claim-get tx target s.waiting waits in
    let here = s.coordinator.in_flight in
    record {
      given = λ j h. ground (arith, contains-discard j tx here, c.given j);
      calling = λ j h.
          ground (arith, contains-discard j tx here, claim-remove j tx s.waiting, c.calling j);
      claimed = λ j. ground (arith, claim-remove j tx s.waiting, c.claimed j);
      queued = λ j h.
          ground
            (arith, claim-remove j tx s.waiting, c.queued j, c.order, claim_same tx j s.waiting);
      carried = λ j h.
          ground (arith, claim-remove j tx s.waiting, c.carried j, claim_same tx j s.waiting);
      locked = c.locked;
      order = c.order;
    }

pub Step-IsConsistent : {s t : System} → Step s t → IsConsistent s → IsConsistent t
Step-IsConsistent (begin s room) c = take_id-IsConsistent s room c
Step-IsConsistent (open_entry s tx flying) c =
    unfold open_slot drained in
    record {
      given = c.given;
      calling = c.calling;
      claimed = c.claimed;
      queued = c.queued;
      carried = c.carried;
      locked = c.locked;
      order = c.order;
    }
Step-IsConsistent (call s tx st flying new) c = start_call-IsConsistent s tx st flying new c
Step-IsConsistent (lead_batch s tx target batch lsn waits turn) c =
    start_lead-IsConsistent s tx target batch lsn waits turn c
Step-IsConsistent (write s outcome tx batch lsn at) c =
    write_batch-IsConsistent s outcome tx batch lsn at c
Step-IsConsistent (publication s tx batch lsn result at) c =
    publish_batch-IsConsistent s tx batch lsn result at c
Step-IsConsistent (departure s tx target waits turn) c = leave-IsConsistent s tx target waits turn c
Step-IsConsistent (close_entry s tx gone) c =
    unfold close_slot drained in
    record {
      given = c.given;
      calling = c.calling;
      claimed = c.claimed;
      queued = c.queued;
      carried = c.carried;
      locked = c.locked;
      order = c.order;
    }
