-- ===== src/Transaction/History/Whole.antt =====
-- A whole call is its stages one after the other.
use prehnite_db.Prelude.{ℕ, ◌+◌, [], ◌∷◌}
use prehnite_db.Clog.{Status}
use prehnite_db.Clog.Append.{Outcome, written}
use prehnite_db.Clog.Append.Quiet.{appended, reported}
use prehnite_db.Transaction.{TxState}
use prehnite_db.Transaction.History.{
  System, idle, start_call, start_lead, write_batch, publish_batch, at_rest,
}

-- The states between the stages of an uninterrupted commit or rollback.
abbrev claimed_lsn : TxState → ℕ
claimed_lsn t = t.clog.state.next_lsn + 1

abbrev asked : TxState → ℕ → Status → System
asked t tx st = start_call tx st (at_rest t)

abbrev led : TxState → ℕ → Status → System
led t tx st = start_lead tx (claimed_lsn t) ((tx, st) ∷ []) (claimed_lsn t) (asked t tx st)

abbrev done : Outcome → TxState → ℕ → Status → System
done outcome t tx st = write_batch outcome tx ((tx, st) ∷ []) (claimed_lsn t) (led t tx st)

abbrev told : Outcome → TxState → ℕ → Status → System
told outcome t tx st =
    publish_batch tx ((tx, st) ∷ []) (claimed_lsn t) (reported outcome) (done outcome t tx st)

-- The record is published, and the call goes on.
abbrev durable_at : TxState → ℕ → Status → System
durable_at t tx st = record {
  coordinator = record t { clog = appended written tx st t.clog };
  task = idle;
  waiting = (tx, claimed_lsn t) ∷ [];
}
