-- ===== src/Transaction/History/Isolation.antt =====
-- A snapshot reads the same rows for as long as it is kept.
use prehnite_db.Prelude.{ℕ, ◌≡◌, Option, arith}
use prehnite_db.Clog.{is_committed}
use prehnite_db.Transaction.{TxState, snapshot, visible}
use prehnite_db.Transaction.Quiet.{IsSettled}
use prehnite_db.Transaction.Visibility.{sees, visible-sees}
use prehnite_db.Transaction.History.{System, clog_state, Reach, at_rest}
use prehnite_db.Transaction.History.Consistent.{IsConsistent, at_rest-IsConsistent}
use prehnite_db.Transaction.History.Since.{Since, Reach-Since, Reach-IsConsistent}

sees-Since :
    (t u : System) (own : Option ℕ) (tx : ℕ)
    → Since t u
    → sees (snapshot t.coordinator own) (clog_state u) tx
      ≡ sees (snapshot t.coordinator own) (clog_state t) tx
unfolding sees snapshot is_committed
sees-Since t u own tx s = ground (arith, s.kept tx)

pub settled-Reach : {s : TxState} {t : System} → IsSettled s → Reach (at_rest s) t → IsConsistent t
settled-Reach {s} h r = Reach-IsConsistent (at_rest-IsConsistent s h.quiet h.given) r

-- From a coordinator with no call and no flush under way and whose ids in flight have been handed
-- out: a snapshot taken at any moment `t` that the threads reach from there, also between the
-- stages of a begin, a commit or a rollback, gives the same answer for every row header at any
-- later moment `u`, whatever stages come between, whether or not the writes of the commit log
-- succeed, as long as the log is not truncated.
pub visible-Reach :
    (s : TxState) (t u : System) (own : Option ℕ) (tx_min tx_max : ℕ)
    → IsSettled s
    → Reach (at_rest s) t
    → Reach t u
    → visible (snapshot t.coordinator own) (clog_state u) tx_min tx_max
      ≡ visible (snapshot t.coordinator own) (clog_state t) tx_min tx_max
visible-Reach s t u own tx_min tx_max h before after =
    let since = Reach-Since (settled-Reach h before) after in
    rw (
      visible-sees (snapshot t.coordinator own) (clog_state u) tx_min tx_max,
      visible-sees (snapshot t.coordinator own) (clog_state t) tx_min tx_max,
      sees-Since t u own tx_min since,
      sees-Since t u own tx_max since,
    )
